-- ===== src/Common/Distinct.antt =====
-- Lists of distinct texts, and texts that are not yet in a set.
use Prim.Native.String.{String}
use mathlib.Core.Path.{◌≡◌}
use mathlib.Core.Logic.{◌↔◌}
use mathlib.Core.Bool.{false, ◌||◌}
use mathlib.Core.List.{List, [], ◌∷◌}
use native.Mathlib.Omega.{arith}
use text.Mathlib.Text.{◌==◌}
use infrastructure_managemen.Common.Lists.{All}
use infrastructure_managemen.Common.Maps.{Map, has, insert, lookup-insert}

-- No text stands twice in the list.
unfoldable pub AreDistinct : List String → Type 0
AreDistinct [] = Unit
AreDistinct (x ∷ xs) = All (λ (y : String). (x == y) ≡ false) xs × AreDistinct xs

pub has-insert : (x y : String) (m : Map (Unit {0})) → has y (insert x tt m) ≡ ((x == y) || has y m)
unfolding has
has-insert x y m = ground (arith, lookup-insert x y tt m)

pub split_new :
    (x : String) (xs : List String) (m : Map (Unit {0}))
    → All (λ (y : String). has y (insert x tt m) ≡ false) xs
      ↔ All (λ (y : String). (x == y) ≡ false) xs × All (λ (y : String). has y m ≡ false) xs
split_new x [] m = (λ h. (tt, tt), λ h. tt)
split_new x (y ∷ ys) m =
    let (to, from) = split_new x ys m in
    let eq : has y (insert x tt m) ≡ ((x == y) || has y m) = has-insert x y m in
    (
      λ h. ((ground arith, (to h.1).0), (ground arith, (to h.1).1)),
      λ h.
          let p : (x == y) ≡ false = h.0.0 in
          let q : has y m ≡ false = h.1.0 in (ground arith, from (h.0.1, h.1.1)),
    )
