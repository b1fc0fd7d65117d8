-- ===== src/Common/Results.antt =====
-- What a Go function with an error result returns: the error, or else the value.
use mathlib.Core.Path.{◌≡◌, refl}

pub data Result {ℓ κ} (Failure : Type ℓ) (Value : Type κ) : Type (ℓ ⊔ κ) where
  err : Failure → Result Failure Value
  ok : Value → Result Failure Value

-- `fmt.Errorf` around an error
abbrev pub map_err {ℓ κ ι} :
    {Inner : Type ℓ} {Outer : Type κ} {Value : Type ι}
    → (Inner → Outer)
    → Result Inner Value
    → Result Outer Value
map_err wrap (err inner) = err (wrap inner)
map_err wrap (ok value) = ok value

infixl 5 ◌>>=◌
-- `if err != nil { return …, err }`, before the rest of a function
abbrev pub ◌>>=◌ {ℓ κ ι} :
    {Failure : Type ℓ} {V : Type κ} {W : Type ι}
    → Result Failure V
    → (V → Result Failure W)
    → Result Failure W
err failure >>= rest = err failure
ok value >>= rest = rest value

-- A value comes from a value of each step.
pub bind-eq-ok {ℓ κ ι ο} :
    {Inner : Type ℓ} {Outer : Type κ} {V : Type ι} {W : Type ο} (wrap : Inner → Outer)
    (r : Result Inner V) (rest : V → Result Outer W) (w : W)
    → (map_err wrap r >>= rest) ≡ ok w
    → (v : V) × (r ≡ ok v) × (rest v ≡ ok w)
bind-eq-ok wrap (err e) rest w h = absurd (cc)
bind-eq-ok wrap (ok v) rest w h = (v, refl, h)
