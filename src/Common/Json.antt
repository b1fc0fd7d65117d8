-- ===== src/Common/Json.antt =====
-- Go's package `encoding/json`, as far as the services use it: documents as trees, and the decoding of
-- fields. A document's keys are distinct and spelled as the tags of the structs, and its whole numbers fit
-- an int. The text of a document and that of an instant are read and written by parameters.
pub mod Laws
use mathlib.Core.Option.{Option, none, some}
use mathlib.Core.Bool.{Bool, true, false}
use mathlib.Core.List.{List, [], ◌∷◌}
use Prim.Native.Nat.{ℕ}
use Prim.Native.String.{String}
use package.text.Mathlib.Text.{◌==◌}
use infrastructure_managemen.Common.Tests.{if◌then◌else◌}
use infrastructure_managemen.Common.Results.{Result, ok, err, ◌>>=◌}
use infrastructure_managemen.Common.Int.{ℤ, pos}
use infrastructure_managemen.Common.Maps.{Map, insert}
use infrastructure_managemen.Common.Clock.{Time, zero_time}
use infrastructure_managemen.Common.Text.{trim_space}

mutual
  pub data Json : Type 0 where
    null : Json
    bool : Bool → Json
    number : ℤ → Json
    -- a number that is not whole, by its digits
    fraction : String → Json
    text : String → Json
    array : Elements → Json
    object : Members → Json

  pub data Elements : Type 0 where
    no_elements : Elements
    element : Json → Elements → Elements

  pub data Members : Type 0 where
    no_members : Members
    member : String → Json → Members → Members

-- The value does not fit the type of the field.
pub data Mismatch : Type 0 where
  mismatch : Mismatch

-- MarshalJSON and UnmarshalJSON of time.Time
pub record Rfc3339 : Type 0 where
  pub print : Time → String
  pub parse : String → Result Mismatch Time

-- The value of a key; a missing one leaves a field as it is, as null does.
unfoldable pub field : String → Members → Json
field tag no_members = null
field tag (member key value rest) = if key == tag then value else field tag rest

-- A member whose tag has `omitempty`.
unfoldable pub unless : Bool → String → Json → Members → Members
unless true tag value rest = rest
unless false tag value rest = member tag value rest

module _ {A : Type 0} where
  unfoldable pub elements : (A → Json) → List A → Elements
  elements encode [] = no_elements
  elements encode (x ∷ xs) = element (encode x) (elements encode xs)

  unfoldable pub members : (A → Json) → Map A → Members
  members encode [] = no_members
  members encode ((key, value) ∷ rest) = member key (encode value) (members encode rest)

  -- A pointer, with `omitempty` or without a value to omit.
  unfoldable pub nullable : (A → Json) → Option A → Json
  nullable encode none = null
  nullable encode (some value) = encode value

unfoldable pub as_text : Json → Result Mismatch String
as_text null = ok ""
as_text (text s) = ok s
as_text _ = err mismatch

unfoldable pub as_bool : Json → Result Mismatch Bool
as_bool null = ok false
as_bool (bool b) = ok b
as_bool _ = err mismatch

unfoldable pub as_int : Json → Result Mismatch ℤ
as_int null = ok (pos 0)
as_int (number n) = ok n
as_int _ = err mismatch

unfoldable pub as_time : Rfc3339 → Json → Result Mismatch Time
as_time times null = ok zero_time
as_time times (text s) = times.parse s
as_time times _ = err mismatch

module _ {A : Type 0} where
  abbrev pub pointer_to : A → Option A
  pointer_to value = some value

  unfoldable pub as_pointer : (Json → Result Mismatch A) → Json → Result Mismatch (Option A)
  as_pointer decode null = ok none
  as_pointer decode value = decode value >>= λ x. ok (pointer_to x)

  unfoldable pub decode_elements : (Json → Result Mismatch A) → Elements → Result Mismatch (List A)
  decode_elements decode no_elements = ok []
  decode_elements decode (element value rest) = do
    x ← decode value
    xs ← decode_elements decode rest
    ok (x ∷ xs)

  unfoldable pub as_list : (Json → Result Mismatch A) → Json → Result Mismatch (List A)
  as_list decode null = ok []
  as_list decode (array values) = decode_elements decode values
  as_list decode _ = err mismatch

  unfoldable pub decode_members : (Json → Result Mismatch A) → Members → Result Mismatch (Map A)
  decode_members decode no_members = ok []
  decode_members decode (member key value rest) = do
    x ← decode value
    m ← decode_members decode rest
    ok (insert key x m)

  unfoldable pub as_map : (Json → Result Mismatch A) → Json → Result Mismatch (Map A)
  as_map decode null = ok []
  as_map decode (object fields) = decode_members decode fields
  as_map decode _ = err mismatch

  -- A struct, by the decoding of its fields.
  unfoldable pub as_struct : (Members → Result Mismatch A) → Json → Result Mismatch A
  as_struct decode null = decode no_members
  as_struct decode (object fields) = decode fields
  as_struct decode _ = err mismatch

-- What a handler answers: a status and a document.
pub record Answer : Type 0 where
  pub status : ℕ
  pub body : Json

-- The value of a key of a URL's query: the first one, trimmed, and empty where there is none.
unfoldable pub first_value : List String → String
first_value [] = ""
first_value (value ∷ values) = trim_space value

-- `omitempty` of a pointer
abbrev pub is_nil : {A : Type 0} → Option A → Bool
is_nil none = true
is_nil (some _) = false

-- `omitempty` of a slice and of a map
abbrev pub has_none : {A : Type 0} → List A → Bool
has_none [] = true
has_none (_ ∷ _) = false

abbrev pub count : ℕ → Json
count n = number (pos n)
