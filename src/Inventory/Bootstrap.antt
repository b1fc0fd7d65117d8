-- ===== src/Inventory/Bootstrap.antt =====
-- The checks of InventorySvc/internal/bootstrap/selfprovisioning/loader.go. An error is a value with the
-- position and the text that its message names.
pub mod Scans
pub mod Laws
use infrastructure_managemen.Common.{
  ℕ, suc, ◌+◌, String, Bool, true, false, Option, none, some, List, [], ◌∷◌, ◌++◌, ◌==◌,
  if◌then◌else◌, Result, ok, err,
}
use infrastructure_managemen.Common.Text.{trim_space}
use infrastructure_managemen.Common.Maps.{Map, lookup, insert, has}
use infrastructure_managemen.Inventory.Domain.{HostSeed}

pub data SeedError : Type 0 where
  id_required fqdn_required labels_required : ℕ → SeedError
  id_duplicated fqdn_duplicated label_required : ℕ → String → SeedError

pub data BootstrapError : Type 0 where
  read_failed unmarshal_failed : String → BootstrapError
  no_hosts : BootstrapError
  invalid : List SeedError → BootstrapError

-- A set of texts, and the errors.
pub record Scan : Type 0 where
  pub seen_ids : Map (Unit {0})
  pub seen_fqdn : Map (Unit {0})
  pub errs : List SeedError

abbrev pub first_scan : Scan
first_scan = record { seen_ids = []; seen_fqdn = []; errs = [] }

-- errs = append(errs, e), under a condition
unfoldable pub add_if : Bool → SeedError → Scan → Scan
add_if true e s = record s { errs = s.errs ++ e ∷ [] }
add_if false e s = s

unfoldable pub see_id : String → Scan → Scan
see_id id s = record s { seen_ids = insert id tt s.seen_ids }

unfoldable pub see_fqdn : String → Scan → Scan
see_fqdn fqdn s = record s { seen_fqdn = insert fqdn tt s.seen_fqdn }

unfoldable pub check_id : ℕ → String → Scan → Scan
check_id i id s =
    if id == ""
    then add_if true (id_required i) s
    else see_id id (add_if (has id s.seen_ids) (id_duplicated i id) s)

unfoldable pub check_fqdn : ℕ → String → Scan → Scan
check_fqdn i fqdn s =
    if fqdn == ""
    then add_if true (fqdn_required i) s
    else see_fqdn fqdn (add_if (has fqdn s.seen_fqdn) (fqdn_duplicated i fqdn) s)

-- The value is missing or blank.
unfoldable pub lacks : String → Map String → Bool
lacks label labels = elim (lookup label labels) [ none ↦ true | some v ↦ trim_space v == "" ]

abbrev pub required_labels : List String
required_labels = "managed_by" ∷ "purpose" ∷ "env" ∷ []

unfoldable pub check_required : ℕ → Map String → List String → Scan → Scan
check_required i labels [] s = s
check_required i labels (label ∷ rest) s =
    check_required i labels rest (add_if (lacks label labels) (label_required i label) s)

unfoldable pub check_labels : ℕ → Option (Map String) → Scan → Scan
check_labels i none s = add_if true (labels_required i) s
check_labels i (some labels) s = check_required i labels required_labels s

-- One turn of the loop over the hosts.
unfoldable pub check_seed : ℕ → HostSeed → Scan → Scan
check_seed i host s =
    check_labels i host.labels
      (check_fqdn i (trim_space host.fqdn) (check_id i (trim_space host.id) s))

unfoldable pub check_seeds : ℕ → List HostSeed → Scan → Scan
check_seeds i [] s = s
check_seeds i (host ∷ hosts) s = check_seeds (suc i) hosts (check_seed i host s)

abbrev pub verdict : List SeedError → Option BootstrapError
verdict [] = none
verdict (e ∷ es) = some (invalid (e ∷ es))

-- validate; `none` where Go's error is nil
unfoldable pub validate : List HostSeed → Option BootstrapError
validate [] = some no_hosts
validate (host ∷ hosts) = verdict (check_seeds 0 (host ∷ hosts) first_scan).errs

abbrev pub checked : List HostSeed → Option BootstrapError → Result BootstrapError (List HostSeed)
checked hosts none = ok hosts
checked hosts (some e) = err e

abbrev pub load_parsed : Result String (List HostSeed) → Result BootstrapError (List HostSeed)
load_parsed (err e) = err (unmarshal_failed e)
load_parsed (ok hosts) = checked hosts (validate hosts)

abbrev pub load_read :
    {Bytes : Type 0}
    → (Bytes → Result String (List HostSeed))
    → Result String Bytes
    → Result BootstrapError (List HostSeed)
load_read unmarshal (err e) = err (read_failed e)
load_read unmarshal (ok content) = load_parsed (unmarshal content)

-- Load; reading the file and yaml.Unmarshal are arguments
unfoldable pub load :
    {Bytes : Type 0}
    → (String → Result String Bytes)
    → (Bytes → Result String (List HostSeed))
    → String
    → Result BootstrapError (List HostSeed)
load read_file unmarshal path = load_read unmarshal (read_file path)
