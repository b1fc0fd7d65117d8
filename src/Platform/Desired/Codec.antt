-- ===== src/Platform/Desired/Codec.antt =====
-- What ParserSvc writes in its answer, and the detector's client reads in it.
use infrastructure_managemen.Common.{◌≡◌, refl, Option, some, map, ok}
use infrastructure_managemen.Common.Int.{pos}
use infrastructure_managemen.Common.Maps.{copy_with}
use infrastructure_managemen.Common.Clock.{Time}
use infrastructure_managemen.Common.Json.{
  Rfc3339, text, number, as_text, as_bool, as_int, as_time, as_pointer, as_list, as_map, as_struct,
  field,
}
use infrastructure_managemen.Common.Json.Laws.{
  decode_elements-elements, decode_members-members, field-unless, as_text-omitempty,
  as_pointer-omitempty, as_text-text, pointer_to_text, pointer_to_int,
}
use infrastructure_managemen.Drift.Clients.Parser.{
  DesiredWorkloadDto, DesiredHostDto, DesiredMetadataDto, decode_workload, decode_host,
  decode_metadata, decode_state, decode_response,
}
use infrastructure_managemen.Parser

abbrev pub read_workload : Parser.Http.DesiredWorkloadDto → DesiredWorkloadDto
read_workload w = record {
  name = w.name;
  enabled = w.enabled;
  deployment_mode = w.deployment_mode;
  image = w.image;
  version = w.version;
  port = w.port;
}

abbrev pub read_host : Parser.Http.DesiredHostDto → DesiredHostDto
read_host h = record {
  host_id = h.host_id;
  fqdn = h.fqdn;
  labels = copy_with (λ s. s) h.labels;
  workloads = map read_workload h.workloads;
}

abbrev pub read_metadata : Option Time → Parser.Http.DesiredStateMetadata → DesiredMetadataDto
read_metadata loaded_at m = record {
  ready = m.ready;
  ready_reason = m.ready_reason;
  files_loaded = pos m.files_loaded;
  files_broken = pos m.files_broken;
  hosts_total = pos m.hosts_total;
  workloads_total = pos m.workloads_total;
  loaded_at = loaded_at;
}

module _ (times : Rfc3339) where
  decode_workload-encode_workload :
      (w : Parser.Http.DesiredWorkloadDto)
      → as_struct (decode_workload times) (Parser.Http.encode_workload w) ≡ ok (read_workload w)
  unfolding as_struct decode_workload Parser.Http.encode_workload field as_text as_bool
  decode_workload-encode_workload w =
      simp
        (
          field-unless,
          as_text-omitempty,
          as_pointer-omitempty as_text text pointer_to_text,
          as_pointer-omitempty as_int number pointer_to_int,
        )
        refl

  decode_host-encode_host :
      (h : Parser.Http.DesiredHostDto)
      → as_struct (decode_host times) (Parser.Http.encode_host h) ≡ ok (read_host h)
  unfolding as_struct decode_host Parser.Http.encode_host field as_text as_map as_list
  decode_host-encode_host h =
      simp
        (
          field-unless,
          decode_members-members text as_text (λ s. s) as_text-text,
          decode_elements-elements Parser.Http.encode_workload (as_struct (decode_workload times))
              read_workload decode_workload-encode_workload,
        )
        refl

  decode_metadata-encode_metadata :
      (m : Parser.Http.DesiredStateMetadata) (t : Time)
      → times.parse (times.print m.loaded_at) ≡ ok t
      → as_struct (decode_metadata times) (Parser.Http.encode_metadata times m)
        ≡ ok (read_metadata (some t) m)
  unfolding as_struct decode_metadata Parser.Http.encode_metadata field as_text as_bool as_int
      as_time as_pointer
  decode_metadata-encode_metadata m t parsed = simp (field-unless, as_text-omitempty, parsed) refl

  pub decode_response-encode_desired_state :
      (r : Parser.Http.DesiredStateResponse) (t : Time)
      → times.parse (times.print r.metadata.loaded_at) ≡ ok t
      → decode_response times (Parser.Http.encode_desired_state times r)
        ≡ ok (record {
          metadata = read_metadata (some t) r.metadata;
          state = record { hosts = map read_host r.hosts };
        })
  unfolding as_struct decode_response decode_state Parser.Http.encode_desired_state field as_list
  decode_response-encode_desired_state r t parsed =
      simp
        (
          decode_metadata-encode_metadata r.metadata t parsed,
          decode_elements-elements Parser.Http.encode_host (as_struct (decode_host times)) read_host
              decode_host-encode_host,
        )
        refl
