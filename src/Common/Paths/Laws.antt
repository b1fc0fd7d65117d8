-- ===== src/Common/Paths/Laws.antt =====
-- A base is never empty.
use Prim.Native.String.{String}
use mathlib.Core.Path.{◌≡◌, refl}
use mathlib.Core.Bool.{false}
use mathlib.Core.Logic.{inl, inr}
use text.Mathlib.Text.{◌==◌}
use infrastructure_managemen.Common.Tests.{if_both, Bool-cases}
use infrastructure_managemen.Common.Paths.{
  trim_right_slashes, trim_slashes, last_element, or_slash, base,
}

or_slash-ne : (s : String) → (or_slash s == "") ≡ false
or_slash-ne s = elim (Bool-cases (s == "")) [ inl e ↦ rw e refl | inr e ↦ rw e e ]

pub base-ne : (s : String) → (base s == "") ≡ false
unfolding base
base-ne s =
    if_both (λ (t : String). (t == "") ≡ false) (s == "") _ _ refl
      (or_slash-ne (last_element (trim_right_slashes s) (trim_right_slashes s)))

tests :
    (base "docker/ab" ≡ "ab")
    × (base "" ≡ ".")
    × (base "//" ≡ "/")
    × (trim_slashes "/a/b//" ≡ "a/b")
unfolding base trim_slashes
tests = (refl, refl, refl, refl)
