-- ===== src/Parser/Mapper/Fields.antt =====
-- What ParserSvc/internal/mapper/mapper.go reads from a node's properties.
use infrastructure_managemen.Common.{
  String, Bool, ◌||◌, Option, none, some, [], ◌∷◌, ◌==◌, if◌then◌else◌, Result, ok, err, map_err,
  ◌>>=◌,
}
use text.Mathlib.Text.{starts_with}
use infrastructure_managemen.Common.Maps.{Map, lookup, insert}
use infrastructure_managemen.Parser.Values.{
  Floats, Value, ValueError, normalize_string, normalize_bool,
}

pub data MapError : Type 0 where
  is_required : String → MapError
  bad_value : String → ValueError → MapError
  invalid_host invalid_workload container_not_found : String → MapError
  invalid_port invalid_version : ValueError → MapError

-- The keys that extractLabels leaves out.
unfoldable pub is_reserved : String → Bool
is_reserved key =
    starts_with key "structurizr."
    || key == "host_id"
    || key == "fqdn"
    || key == "ip"
    || key == "env"
    || key == "managed_by"
    || key == "purpose"

unfoldable pub put_unless_empty : String → String → Map String → Map String
put_unless_empty key value m = if value == "" then m else insert key value m

module _ (floats : Floats) where
  open floats use {Float}

  abbrev Properties : Type 0
  Properties = Map (Value Float)

  abbrev required : String → Option (Value Float) → Result MapError String
  required key none = err (is_required key)
  required key (some value) = map_err (bad_value key) (normalize_string floats value) >>= λ s.
      if s == "" then err (is_required key) else ok s

  unfoldable pub get_required_string : Properties → String → Result MapError String
  get_required_string properties key = required key (lookup key properties)

  abbrev or_empty : Result ValueError String → String
  or_empty (ok s) = s
  or_empty (err e) = ""

  abbrev optional : Option (Value Float) → String
  optional none = ""
  optional (some value) = or_empty (normalize_string floats value)

  -- getOptionalString, whose callers drop the error
  unfoldable pub get_optional_string : Properties → String → String
  get_optional_string properties key = optional (lookup key properties)

  abbrev required_bool : String → Option (Value Float) → Result MapError Bool
  required_bool key none = err (is_required key)
  required_bool key (some value) = map_err (bad_value key) (normalize_bool floats value)

  unfoldable pub get_required_bool : Properties → String → Result MapError Bool
  get_required_bool properties key = required_bool key (lookup key properties)

  -- One turn of extractLabels' loop.
  unfoldable pub label : String → Value Float → Map String → Map String
  label key value m =
      if is_reserved key
      then m
      else put_unless_empty key (or_empty (normalize_string floats value)) m

  unfoldable pub labels_loop : Properties → Map String
  labels_loop [] = []
  labels_loop ((key, value) ∷ properties) = label key value (labels_loop properties)

  unfoldable pub extract_labels : Properties → String → String → String → Map String
  extract_labels properties env managed_by purpose = put_unless_empty "purpose" purpose (
      put_unless_empty "managed_by" managed_by
        (put_unless_empty "env" env (labels_loop properties)))
