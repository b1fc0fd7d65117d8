-- ===== src/Common/Maps.antt =====
-- Go's maps with text keys, as association lists. A read finds the first entry of its key; a write
-- puts its entry in front and drops the old one. A `range` loop, whose order Go leaves open, visits
-- the entries from the last to the first.
use Prim.Native.String.{String}
use mathlib.Core.Path.{◌≡◌, refl, ap, ◌∙◌}
use mathlib.Core.Bool.{Bool, true, false}
use mathlib.Core.Logic.{inl, inr}
use mathlib.Core.Option
use mathlib.Core.Option.{Option, none, some}
use mathlib.Core.List.{List, [], ◌∷◌}
use native.Mathlib.Omega.{arith}
use text.Mathlib.Text.{◌==◌}
use text.Mathlib.TextEquality.{eq_iff}
use infrastructure_managemen.Common.Tests.{if◌then◌else◌, Bool-cases}

abbrev pub Map {ℓ} : Type ℓ → Type ℓ
Map V = List (String × V)

-- The key has no entry.
abbrev pub Fresh {ℓ} : {V : Type ℓ} → String → Map V → Type 0
Fresh k [] = Unit
Fresh k ((j, v) ∷ m) = ((j == k) ≡ false) × Fresh k m

-- No key has two entries.
abbrev pub IsMap {ℓ} : {V : Type ℓ} → Map V → Type 0
IsMap [] = Unit
IsMap ((j, v) ∷ m) = Fresh j m × IsMap m

module _ {ℓ} {V : Type ℓ} where
  -- m[k], with its `found`
  unfoldable pub lookup : String → Map V → Option V
  lookup k [] = none
  lookup k ((j, v) ∷ m) = if j == k then some v else lookup k m

  unfoldable pub without : String → Map V → Map V
  without k [] = []
  without k ((j, v) ∷ m) = let rest = without k m in if j == k then rest else (j, v) ∷ rest

  -- m[k] = v
  unfoldable pub insert : String → V → Map V → Map V
  unfolding without
  insert k v m = (k, v) ∷ without k m

  unfoldable pub has : String → Map V → Bool
  unfolding lookup
  has k m = elim (lookup k m) [ none ↦ false | some _ ↦ true ]

  pub lookup-without :
      (k j : String) (m : Map V) → lookup j (without k m) ≡ (if k == j then none else lookup j m)
  unfolding lookup without
  lookup-without k j [] = ground arith
  lookup-without k j ((i, v) ∷ m) =
      ground (arith, lookup-without k j m, eq_iff i k, eq_iff i j, eq_iff k j)

  pub lookup-insert :
      (k j : String) (v : V) (m : Map V)
      → lookup j (insert k v m) ≡ (if k == j then some v else lookup j m)
  unfolding insert lookup
  lookup-insert k j v m = ground (arith, lookup-without k j m)

  Fresh-without : (k j : String) (m : Map V) → Fresh j m → Fresh j (without k m)
  unfolding without
  Fresh-without k j [] h = tt
  Fresh-without k j ((i, v) ∷ m) h = ground (arith, Fresh-without k j m h.1)

  Fresh-without_self : (k : String) (m : Map V) → Fresh k (without k m)
  unfolding without
  Fresh-without_self k [] = tt
  Fresh-without_self k ((i, v) ∷ m) = ground (arith, Fresh-without_self k m)

  without-IsMap : (k : String) (m : Map V) → IsMap m → IsMap (without k m)
  unfolding without
  without-IsMap k [] h = tt
  without-IsMap k ((i, v) ∷ m) h = ground (arith, Fresh-without k i m h.0, without-IsMap k m h.1)

  pub insert-IsMap : (k : String) (v : V) (m : Map V) → IsMap m → IsMap (insert k v m)
  unfolding insert
  insert-IsMap k v m h = (Fresh-without_self k m, without-IsMap k m h)

  pub lookup-Fresh : (k : String) (m : Map V) → Fresh k m → lookup k m ≡ none
  unfolding lookup
  lookup-Fresh k [] h = refl
  lookup-Fresh k ((j, v) ∷ m) h = ground (arith, lookup-Fresh k m h.1)

  pub without-Fresh : (k : String) (m : Map V) → Fresh k m → without k m ≡ m
  unfolding without
  without-Fresh k [] h = refl
  without-Fresh k ((j, v) ∷ m) h = ground (arith, without-Fresh k m h.1)

  -- `for k, v := range m { c[k] = v }` on a new map
  unfoldable pub copy : Map V → Map V
  unfolding insert
  copy [] = []
  copy ((k, v) ∷ m) = insert k v (copy m)

  pub lookup-copy : (j : String) (m : Map V) → lookup j (copy m) ≡ lookup j m
  unfolding lookup copy
  lookup-copy j [] = refl
  lookup-copy j ((k, v) ∷ m) = ground (arith, lookup-insert k j v (copy m), lookup-copy j m)

  pub copy-IsMap : (m : Map V) → IsMap (copy m)
  unfolding copy
  copy-IsMap [] = tt
  copy-IsMap ((k, v) ∷ m) = insert-IsMap k v (copy m) (copy-IsMap m)

  pub copy-eq : (m : Map V) → IsMap m → copy m ≡ m
  unfolding copy insert
  copy-eq [] h = refl
  copy-eq ((k, v) ∷ m) h =
      ap (λ (t : Map V). (k, v) ∷ without k t) (copy-eq m h.1)
      ∙ ap (λ (t : Map V). (k, v) ∷ t) (without-Fresh k m h.0)

-- `for k, v := range m { c[k] = f(v) }` on a new map
module _ {ℓ κ} {V : Type ℓ} {W : Type κ} (f : V → W) where
  unfoldable pub copy_with : Map V → Map W
  copy_with [] = []
  copy_with ((k, v) ∷ m) = insert k (f v) (copy_with m)

  pub copy_with-IsMap : (m : Map V) → IsMap (copy_with m)
  unfolding copy_with
  copy_with-IsMap [] = tt
  copy_with-IsMap ((k, v) ∷ m) = insert-IsMap k (f v) (copy_with m) (copy_with-IsMap m)

  pub lookup-copy_with :
      (j : String) (m : Map V) → lookup j (copy_with m) ≡ Option.map f (lookup j m)
  unfolding lookup copy_with
  lookup-copy_with j [] = refl
  lookup-copy_with j ((k, v) ∷ m) = elim (Bool-cases (k == j)) [
    | inl same ↦ rw (lookup-insert k j (f v) (copy_with m)) (rw same)
    | inr other ↦ rw (lookup-insert k j (f v) (copy_with m)) (rw other (lookup-copy_with j m))
  ]

pub copy_with-same {ℓ} :
    {V : Type ℓ} (f : V → V) → ((v : V) → f v ≡ v) → (m : Map V) → copy_with f m ≡ copy m
unfolding copy_with copy
copy_with-same f same [] = refl
copy_with-same f same ((k, v) ∷ m) = rw (same v) (rw (copy_with-same f same m))

-- The same keys, each with the value of a function.
module _ {ℓ κ} {V : Type ℓ} {W : Type κ} (f : V → W) where
  unfoldable pub values_with : Map V → Map W
  values_with [] = []
  values_with ((k, v) ∷ m) = (k, f v) ∷ values_with m

  pub lookup-values_with :
      (j : String) (m : Map V) → lookup j (values_with m) ≡ Option.map f (lookup j m)
  unfolding lookup values_with
  lookup-values_with j [] = refl
  lookup-values_with j ((k, v) ∷ m) = elim (Bool-cases (k == j)) [
    | inl same ↦ rw same
    | inr other ↦ rw other (lookup-values_with j m)
  ]

  Fresh-values_with : (k : String) (m : Map V) → Fresh k m → Fresh k (values_with m)
  unfolding values_with
  Fresh-values_with k [] h = tt
  Fresh-values_with k ((j, v) ∷ m) h = (h.0, Fresh-values_with k m h.1)

  pub values_with-IsMap : (m : Map V) → IsMap m → IsMap (values_with m)
  unfolding values_with
  values_with-IsMap [] h = tt
  values_with-IsMap ((k, v) ∷ m) h = (Fresh-values_with k m h.0, values_with-IsMap m h.1)

  pub copy_with-eq : (m : Map V) → IsMap m → copy_with f m ≡ values_with m
  unfolding copy_with values_with insert
  copy_with-eq [] h = refl
  copy_with-eq ((k, v) ∷ m) h =
      ap (λ (t : Map W). (k, f v) ∷ without k t) (copy_with-eq m h.1)
      ∙ ap (λ (t : Map W). (k, f v) ∷ t)
          (without-Fresh k (values_with m) (Fresh-values_with k m h.0))

pub values_with-values_with {ℓ κ ι} :
    {U : Type ℓ} {V : Type κ} {W : Type ι} (g : V → W) (f : U → V) (m : Map U)
    → values_with g (values_with f m) ≡ values_with (λ u. g (f u)) m
unfolding values_with
values_with-values_with g f [] = refl
values_with-values_with {W = W} g f ((k, u) ∷ m) =
    ap (λ (t : Map W). (k, g (f u)) ∷ t) (values_with-values_with g f m)

-- Three copies of a map are one.
pub copy_with-thrice {ℓ κ ι ο} :
    {T : Type ℓ} {U : Type κ} {V : Type ι} {W : Type ο} (h : V → W) (g : U → V) (f : T → U)
    (m : Map T)
    → IsMap m
    → copy_with h (copy_with g (copy_with f m)) ≡ values_with (λ t. h (g (f t))) m
copy_with-thrice h g f m maps = rw (copy_with-eq f m maps) (
    rw (copy_with-eq g (values_with f m) (values_with-IsMap f m maps)) (
      rw (values_with-values_with g f m) (
        rw (copy_with-eq h (values_with (λ t. g (f t)) m) (values_with-IsMap (λ t. g (f t)) m maps))
          (values_with-values_with h (λ t. g (f t)) m))))
