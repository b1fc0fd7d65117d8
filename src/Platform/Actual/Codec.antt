-- ===== src/Platform/Actual/Codec.antt =====
-- What InventorySvc writes in its answer, and the detector's client reads in it.
use infrastructure_managemen.Common.{◌≡◌, refl, Option, none, some, List, map, ok, if◌then◌else◌}
use infrastructure_managemen.Common.Int.{pos}
use infrastructure_managemen.Common.Maps.{copy_with}
use infrastructure_managemen.Common.Clock.{Time}
use infrastructure_managemen.Common.Json.{
  null, text, Rfc3339, as_text, as_bool, as_int, as_time, as_pointer, as_list, as_map, as_struct,
  field, nullable, is_nil,
}
use infrastructure_managemen.Common.Json.Laws.{
  decode_elements-elements, decode_members-members, field-unless, as_text-omitempty, as_text-text,
}
use infrastructure_managemen.Drift.Clients.Inventory.{
  WorkloadDto, SourceStatusDto, HostDto, HostsMetadataDto, decode_workload, decode_source_status,
  decode_host, decode_metadata, decode_response,
}
use infrastructure_managemen.Inventory
use infrastructure_managemen.Inventory.Http.{host_status_text, source_status_text, instant}

abbrev pub read_workload : Inventory.Http.WorkloadDto → WorkloadDto
read_workload w = record { name = w.name }

abbrev pub read_source_status : Inventory.Http.SourceStatusDto → SourceStatusDto
read_source_status s = record {
  source = s.source;
  enabled = s.enabled;
  status = source_status_text s.status;
  error = s.error;
}

abbrev pub read_host : Inventory.Http.HostDto → HostDto
read_host h = record {
  id = h.id;
  fqdn = h.fqdn;
  labels = copy_with (λ s. s) h.labels;
  status = host_status_text h.status;
  workloads = map read_workload h.workloads;
  source_status = copy_with read_source_status h.source_status;
}

abbrev pub read_metadata : Option Time → Inventory.Http.HostsResponseMetadata → HostsMetadataDto
read_metadata last_sync_at m = record {
  is_partial = m.is_partial;
  total_hosts = pos m.total_hosts;
  failed_hosts = pos m.failed_hosts;
  last_sync_at = last_sync_at;
}

module _ (times : Rfc3339) where
  -- The instant `t` is read where `u` was printed, or neither is there.
  abbrev pub Reads : Option Time → Option Time → Type 0
  Reads none none = Unit
  Reads (some u) (some t) = times.parse (times.print u) ≡ ok t
  Reads none (some t) = ⊥
  Reads (some u) none = ⊥

  as_pointer-Reads :
      (u t : Option Time)
      → Reads u t
      → as_pointer (as_time times) (if is_nil u then null else nullable (instant times) u) ≡ ok t
  unfolding as_pointer as_time nullable
  as_pointer-Reads none none h = refl
  as_pointer-Reads (some u) (some t) h = rw h refl
  as_pointer-Reads none (some t) h = absurd h
  as_pointer-Reads (some u) none h = absurd h

  decode_workload-encode_workload :
      (w : Inventory.Http.WorkloadDto)
      → as_struct decode_workload (Inventory.Http.encode_workload times w) ≡ ok (read_workload w)
  unfolding as_struct decode_workload Inventory.Http.encode_workload field as_text
  decode_workload-encode_workload w = refl

  decode_source_status-encode_source_status :
      (s : Inventory.Http.SourceStatusDto)
      → as_struct decode_source_status (Inventory.Http.encode_source_status times s)
        ≡ ok (read_source_status s)
  unfolding as_struct decode_source_status Inventory.Http.encode_source_status field as_text as_bool
  decode_source_status-encode_source_status s = simp (field-unless, as_text-omitempty) refl

  decode_host-encode_host :
      (h : Inventory.Http.HostDto)
      → as_struct decode_host (Inventory.Http.encode_host times h) ≡ ok (read_host h)
  unfolding as_struct decode_host Inventory.Http.encode_host field as_text as_map as_list
  decode_host-encode_host h =
      simp
        (
          field-unless,
          decode_members-members text as_text (λ s. s) as_text-text,
          decode_members-members (Inventory.Http.encode_source_status times)
              (as_struct decode_source_status) read_source_status
              decode_source_status-encode_source_status,
          decode_elements-elements (Inventory.Http.encode_workload times)
              (as_struct decode_workload) read_workload decode_workload-encode_workload,
        )
        refl

  decode_metadata-encode_metadata :
      (m : Inventory.Http.HostsResponseMetadata) (t : Option Time)
      → Reads m.last_sync_at t
      → as_struct (decode_metadata times) (Inventory.Http.encode_metadata times m)
        ≡ ok (read_metadata t m)
  unfolding as_struct decode_metadata Inventory.Http.encode_metadata field as_bool as_int
  decode_metadata-encode_metadata m t reads =
      simp (field-unless, as_pointer-Reads m.last_sync_at t reads) refl

  pub decode_response-encode_hosts :
      (m : Inventory.Http.HostsResponseMetadata) (hosts : List Inventory.Http.HostDto)
      (t : Option Time)
      → Reads m.last_sync_at t
      → decode_response times (Inventory.Http.encode_hosts times m hosts)
        ≡ ok (record { metadata = read_metadata t m; hosts = map read_host hosts })
  unfolding as_struct decode_response Inventory.Http.encode_hosts field as_list
  decode_response-encode_hosts m hosts t reads =
      simp
        (
          decode_metadata-encode_metadata m t reads,
          decode_elements-elements (Inventory.Http.encode_host times) (as_struct decode_host)
              read_host decode_host-encode_host,
        )
        refl
