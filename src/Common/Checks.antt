-- ===== src/Common/Checks.antt =====
-- What the checks of the services' configurations share: a list of complaints that grows under conditions, as in
-- `if … { errs = append(errs, message) }`, its report, and the tests of single fields.
use mathlib.Core.Path.{◌≡◌, refl}
use mathlib.Core.Logic.{◌≢◌, ◌↔◌}
use mathlib.Core.Bool.{Bool, true, false, ◌||◌}
use mathlib.Core.Option.{Option, none, some}
use Prim.Native.String.{String, ◌++◌ as concat}
use package.text.Mathlib.Text.{◌==◌}
use infrastructure_managemen.Common.Tests.{if◌then◌else◌}
use infrastructure_managemen.Common.Int.{ℤ, pos, leb_ℤ, ltb_ℤ}
use infrastructure_managemen.Common.Text.{trim_space, join}
use mathlib.Core.List.{List, [], ◌∷◌, ◌++◌}

module _ {A : Type 0} where
  unfoldable pub complain : Bool → A → List A → List A
  complain true message errs = errs ++ message ∷ []
  complain false message errs = errs

  pub snoc-ne-nil : (xs : List A) (x : A) → (xs ++ x ∷ []) ≢ []
  snoc-ne-nil [] x h = cc
  snoc-ne-nil (y ∷ ys) x h = cc

  pub complain_iff :
      (b : Bool) (message : A) (errs : List A)
      → (complain b message errs ≡ []) ↔ (errs ≡ []) × (b ≡ false)
  unfolding complain
  complain_iff true message errs = (λ h. absurd (snoc-ne-nil errs message h), λ h. absurd (cc))
  complain_iff false message errs = (λ h. (h, refl), λ h. h.0)

-- strings.TrimSpace(s) == ""
unfoldable pub is_blank : String → Bool
is_blank s = trim_space s == ""

-- port <= 0 || port > 65535
unfoldable pub bad_port : ℤ → Bool
bad_port port = leb_ℤ port (pos 0) || ltb_ℤ (pos 65535) port

unfoldable pub or_default : String → String → String
or_default value default = if value == "" then default else value

-- The error of all the complaints.
abbrev pub report : List String → Option String
report [] = none
report (e ∷ es) = some (concat "invalid config: " (join (e ∷ es) "; "))

pub report_iff : (es : List String) → (report es ≡ none) ↔ (es ≡ [])
report_iff [] = (λ h. refl, λ h. refl)
report_iff (e ∷ es) = (λ h. absurd (cc), λ h. absurd (cc))
