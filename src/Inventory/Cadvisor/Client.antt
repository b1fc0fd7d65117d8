-- ===== src/Inventory/Cadvisor/Client.antt =====
-- InventorySvc/internal/sources/cadvisor/client.go. The network, encoding/json's reading of a text and
-- strings.NewReplacer are arguments.
use Prim.Native.String.{◌++◌ as concat}
use infrastructure_managemen.Common.{
  ℕ, String, Bool, true, false, ◌||◌, not, List, [], ◌∷◌, ◌==◌, if◌then◌else◌, map, Result, ok, err,
  ◌>>=◌, map_err, eqb,
}
use infrastructure_managemen.Common.Int.{pos}
use infrastructure_managemen.Common.Text.{trim_space}
use infrastructure_managemen.Common.Numerals.{itoa}
use infrastructure_managemen.Common.Maps.{Map}
use infrastructure_managemen.Common.Order.{str_lt, sort_by}
use infrastructure_managemen.Common.Json.{
  Json, Members, Mismatch, mismatch, Rfc3339, field, as_text, as_time, as_list, as_map, as_struct,
}
use infrastructure_managemen.Inventory.Config.{CadvisorConfig}
use infrastructure_managemen.Inventory.Cadvisor.{
  ContainerSpec, ContainerStat, ContainerInfo, ContainersResponse,
}

-- What becomes of a request: it is not built, gets no response, or gets one with a status, the start of its
-- body (at most 512 bytes), and its body or the error of reading it.
pub data Fetched : Type 0 where
  not_built not_executed : String → Fetched
  response : ℕ → String → Result String String → Fetched

unfoldable pub decode_spec : Members → Result Mismatch ContainerSpec
decode_spec o = do image ← as_text (field "image" o); ok (record { image = image })

module _ (times : Rfc3339) where
  unfoldable pub decode_stat : Members → Result Mismatch ContainerStat
  decode_stat o = do
    timestamp ← as_time times (field "timestamp" o)
    ok (record { timestamp = timestamp })

  unfoldable pub decode_container : Members → Result Mismatch ContainerInfo
  decode_container o = do
    name ← as_text (field "name" o)
    aliases ← as_list as_text (field "aliases" o)
    namespace ← as_text (field "namespace" o)
    spec ← as_struct decode_spec (field "spec" o)
    stats ← as_list (as_struct decode_stat) (field "stats" o)
    ok (record {
      name = name;
      aliases = aliases;
      namespace = namespace;
      spec = spec;
      stats = stats;
    })

-- The error and the message of the last attempt.
unfoldable pub decode_api_error : Members → Result Mismatch (String × String)
decode_api_error o = do
  error ← as_text (field "error" o)
  message ← as_text (field "message" o)
  ok (error, message)

abbrev pub has_some : {A : Type 0} → List A → Bool
has_some [] = false
has_some (x ∷ xs) = true

unfoldable pub has_container_payload : ContainerInfo → Bool
has_container_payload value =
    not (trim_space value.name == "")
    || has_some value.aliases
    || not (trim_space value.namespace == "")
    || not (trim_space value.spec.image == "")
    || has_some value.stats

-- A container that has no name gets the given one.
unfoldable pub named : String → ContainerInfo → ContainerInfo
named key item = if trim_space item.name == "" then record item { name = key } else item

abbrev pub key_lt : String × ContainerInfo → String × ContainerInfo → Bool
key_lt a b = str_lt a.0 b.0

-- The containers of a map, in the order of their keys.
unfoldable pub by_keys : Map ContainerInfo → ContainersResponse
by_keys m = map (λ (e : String × ContainerInfo). named e.0 e.1) (sort_by key_lt m)

-- The first attempt that decodes decides.
abbrev pub or_try :
    Result Mismatch ContainersResponse
    → Result String ContainersResponse
    → Result String ContainersResponse
or_try (ok containers) rest = ok containers
or_try (err e) rest = rest

abbrev pub single : Result Mismatch ContainerInfo → Result Mismatch ContainersResponse
single (err e) = err e
single (ok value) = if has_container_payload value then ok (named "/" value ∷ []) else err mismatch

abbrev pub or_text : String → String → String
or_text s other = if s == "" then other else s

-- The message of an error document, which is blank if there is none.
abbrev pub api_message : Result Mismatch (String × String) → String
api_message (err e) = ""
api_message (ok (error, message)) = or_text (trim_space error) (trim_space message)

unfoldable pub refuse : String → String → String
refuse message body =
    if message == ""
    then concat "unsupported cadvisor response format: " (trim_space body)
    else concat "cadvisor api error: " message

module _ (times : Rfc3339) (unmarshal : String → Result Mismatch Json) where
  unfoldable pub decode_containers_response : String → Result String ContainersResponse
  decode_containers_response body =
      let container = as_struct (decode_container times) in
      let list = unmarshal body >>= as_list container in
      let keyed = unmarshal body >>= λ o. as_map container o >>= λ m. ok (by_keys m) in
      let one = single (unmarshal body >>= container) in
      let message = api_message (unmarshal body >>= as_struct decode_api_error) in
      or_try list (or_try keyed (or_try one (err (refuse message body))))

  -- The rest of FetchContainers, after the request.
  unfoldable pub read_fetched : String → Fetched → Result String ContainersResponse
  read_fetched url (not_built e) = err (concat "build request: " e)
  read_fetched url (not_executed e) = err (concat "execute request: " e)
  read_fetched url (response status start body) =
      if not (eqb status 200)
      then err (
          concat "unexpected status " (
            concat (itoa (pos status))
              (concat " from " (concat url (concat ": " (trim_space start))))))
      else map_err (concat "read response body: ") body >>= λ text.
          map_err (concat "decode response: ") (decode_containers_response text)

-- buildURL: `replace` is a strings.Replacer of the given pairs.
unfoldable pub build_url :
    (List (String × String) → String → String) → CadvisorConfig → String → String
build_url replace cfg fqdn =
    replace
      (("{{scheme}}", trim_space cfg.scheme)
        ∷ ("{{fqdn}}", trim_space fqdn)
        ∷ ("{{port}}", itoa cfg.port)
        ∷ ("{{basePath}}", cfg.base_path)
        ∷ ("{{containersPath}}", cfg.containers_path)
        ∷ [])
      cfg.url_template
