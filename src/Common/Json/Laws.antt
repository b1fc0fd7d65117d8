-- ===== src/Common/Json/Laws.antt =====
-- What was encoded decodes again: lists, maps, pointers and omitted members.
use mathlib.Core.Path.{◌≡◌, refl}
use mathlib.Core.Option.{Option, none, some}
use mathlib.Core.List.{List, [], ◌∷◌, map}
use native.Mathlib.Omega.{arith}
use infrastructure_managemen.Common.Results.{Result, ok}
use infrastructure_managemen.Common.Maps.{Map, copy_with}
use mathlib.Core.Bool.{Bool}
use Prim.Native.String.{String}
use package.text.Mathlib.Text.{◌==◌}
use package.text.Mathlib.TextEquality.{eq_iff}
use infrastructure_managemen.Common.Tests.{if◌then◌else◌}
use infrastructure_managemen.Common.Int.{ℤ}
use infrastructure_managemen.Common.Json.{
  Members, number, text, field, unless, is_nil, as_text, as_int, Json, null, Mismatch, elements,
  members, nullable, as_pointer, decode_elements, decode_members,
}

module _ {A B : Type 0} (encode : A → Json) (decode : Json → Result Mismatch B) (f : A → B)
    (same : (x : A) → decode (encode x) ≡ ok (f x)) where
  pub decode_elements-elements :
      (xs : List A) → decode_elements decode (elements encode xs) ≡ ok (map f xs)
  unfolding decode_elements elements
  decode_elements-elements [] = refl
  decode_elements-elements (x ∷ xs) = rw (same, decode_elements-elements xs) refl

  pub decode_members-members :
      (m : Map A) → decode_members decode (members encode m) ≡ ok (copy_with f m)
  unfolding decode_members members copy_with
  decode_members-members [] = refl
  decode_members-members ((k, x) ∷ m) = rw (same, decode_members-members m) refl

pub field-unless :
    (b : Bool) (key tag : String) (value : Json) (rest : Members)
    → field tag (unless b key value rest)
      ≡ (if key == tag then if b then field tag rest else value else field tag rest)
unfolding field unless
field-unless b key tag value rest = ground arith

pub as_text-text : (s : String) → as_text (text s) ≡ ok s
unfolding as_text
as_text-text s = refl

-- A text that is omitted where it is empty.
pub as_text-omitempty : (s : String) → as_text (if s == "" then null else text s) ≡ ok s
unfolding as_text
as_text-omitempty s = ground (arith, eq_iff s "")

module _ {A : Type 0} (decode : Json → Result Mismatch A) (encode : A → Json) where
  -- A pointer, with or without `omitempty`.
  pub as_pointer-nullable :
      ((x : A) → as_pointer decode (encode x) ≡ ok (some x))
      → (p : Option A) → as_pointer decode (nullable encode p) ≡ ok p
  unfolding as_pointer nullable
  as_pointer-nullable same none = refl
  as_pointer-nullable same (some x) = same x

  pub as_pointer-omitempty :
      ((x : A) → as_pointer decode (encode x) ≡ ok (some x))
      → (p : Option A) → as_pointer decode (if is_nil p then null else nullable encode p) ≡ ok p
  unfolding as_pointer nullable
  as_pointer-omitempty same none = refl
  as_pointer-omitempty same (some x) = same x

pub pointer_to_text : (s : String) → as_pointer as_text (text s) ≡ ok (some s)
unfolding as_pointer as_text
pointer_to_text s = refl

pub pointer_to_int : (n : ℤ) → as_pointer as_int (number n) ≡ ok (some n)
unfolding as_pointer as_int
pointer_to_int n = refl
