-- ===== src/Parser/Values.antt =====
-- normalizeString, normalizeBool and normalizeInt of ParserSvc/internal/mapper/mapper.go, over the
-- values that a manifest's properties hold.
use Prim.Native.Char.{code}
use infrastructure_managemen.Common.{
  ℕ, ◌+◌, ◌-◌, ◌*◌, ◌^◌, String, Bool, true, false, ◌&&◌, ◌||◌, Option, none, some, ◌==◌,
  if◌then◌else◌, leb, ltb, eqb, Result, ok, err,
}
use infrastructure_managemen.Common.Int.{ℤ, pos, sub_ℕ, eqb_ℤ}
use infrastructure_managemen.Common.Numerals.{itoa}
use infrastructure_managemen.Common.Text.{trim_space, to_lower}

-- Go's float64: the conversions to and from int64, equality, and FormatFloat(f, 'f', -1, 64).
pub record Floats : Type 1 where
  pub Float : Type 0
  pub of_int : ℤ → Float
  pub to_int : Float → ℤ
  pub equal : Float → Float → Bool
  pub format : Float → String

-- interface{}; what lists and objects hold is never read.
pub data Value (F : Type 0) : Type 0 where
  text : String → Value F
  float : F → Value F
  bool : Bool → Value F
  int int64 : ℤ → Value F
  null list object : Value F

-- The reasons for which a value is refused; the text of the message is not modelled.
pub data ValueError : Type 0 where
  unsupported_type unsupported_boolean non_integer empty_numeric invalid_syntax out_of_range :
      ValueError

digits_value : ℕ → String → Option ℕ
digits_value n String.[] = some n
digits_value n (String.◌∷◌ c s) =
    if leb b'0' (code c) && leb (code c) b'9'
    then digits_value (n * 10 + (code c - b'0')) s
    else none

-- One digit at least.
unfoldable pub decimal : String → Option ℕ
unfolding digits_value
decimal s = if s == "" then none else digits_value 0 s

abbrev in_range : Bool → ℕ → ℤ → Result ValueError ℤ
in_range fits n i = if fits then ok i else err out_of_range

abbrev signed : Bool → Option ℕ → Result ValueError ℤ
signed negative none = err invalid_syntax
signed true (some n) = in_range (leb n (2 ^ 63)) n (sub_ℕ 0 n)
signed false (some n) = in_range (ltb n (2 ^ 63)) n (pos n)

-- strconv.Atoi, on a 64-bit machine
unfoldable pub atoi : String → Result ValueError ℤ
unfolding decimal
atoi String.[] = err invalid_syntax
atoi (String.◌∷◌ c s) =
    if eqb (code c) b'-'
    then signed true (decimal s)
    else if eqb (code c) b'+'
    then signed false (decimal s)
    else signed false (decimal (String.◌∷◌ c s))

-- The `switch` of normalizeBool over texts.
unfoldable pub bool_of_text : String → Result ValueError Bool
bool_of_text s =
    if s == "true" || s == "1" || s == "yes" || s == "y"
    then ok true
    else if s == "false" || s == "0" || s == "no" || s == "n"
    then ok false
    else err unsupported_boolean

module _ (floats : Floats) where
  open floats use {Float, of_int, to_int, equal, format}

  unfoldable pub normalize_string : Value Float → Result ValueError String
  normalize_string (text s) = ok (trim_space s)
  normalize_string (float f) =
      ok (if equal f (of_int (to_int f)) then itoa (to_int f) else format f)
  normalize_string (bool b) = ok (if b then "true" else "false")
  normalize_string (int n) = ok (itoa n)
  normalize_string (int64 n) = ok (itoa n)
  normalize_string null = ok ""
  normalize_string list = err unsupported_type
  normalize_string object = err unsupported_type

  unfoldable pub normalize_bool : Value Float → Result ValueError Bool
  normalize_bool (bool b) = ok b
  normalize_bool (text s) = bool_of_text (to_lower (trim_space s))
  normalize_bool (float f) =
      if equal f (of_int (pos 1))
      then ok true
      else if equal f (of_int (pos 0))
      then ok false
      else err unsupported_boolean
  normalize_bool (int n) =
      if eqb_ℤ n (pos 1)
      then ok true
      else if eqb_ℤ n (pos 0)
      then ok false
      else err unsupported_boolean
  normalize_bool (int64 n) = err unsupported_type
  normalize_bool null = err unsupported_type
  normalize_bool list = err unsupported_type
  normalize_bool object = err unsupported_type

  unfoldable pub normalize_int : Value Float → Result ValueError ℤ
  normalize_int (int n) = ok n
  normalize_int (int64 n) = ok n
  normalize_int (float f) = if equal f (of_int (to_int f)) then ok (to_int f) else err non_integer
  normalize_int (text s) = let n = trim_space s in if n == "" then err empty_numeric else atoi n
  normalize_int (bool b) = err unsupported_type
  normalize_int null = err unsupported_type
  normalize_int list = err unsupported_type
  normalize_int object = err unsupported_type
