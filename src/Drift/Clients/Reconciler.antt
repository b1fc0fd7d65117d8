-- ===== src/Drift/Clients/Reconciler.antt =====
-- DriftDetectorSvc/internal/clients/reconciler/client.go
use infrastructure_managemen.Common.{String, Option, Result, ok, err, ◌>>=◌}
use Prim.Native.String.{◌++◌}
use package.text.Mathlib.Text.{◌==◌}
use infrastructure_managemen.Common.Maps.{Map}
use infrastructure_managemen.Common.Clock.{Time}
use infrastructure_managemen.Common.Json.{
  Json, text, number, object, no_members, member, Mismatch, Rfc3339, field, unless, has_none,
  members, as_text, as_time, as_pointer, as_struct,
}
use infrastructure_managemen.Drift.Config.{ReconcilerClientConfig}
use infrastructure_managemen.Drift.Domain
use infrastructure_managemen.Drift.Domain.{
  Component, Parameter, ReconcileCommand, ReconcileAccepted, parse_component,
}
use infrastructure_managemen.Drift.Clients.Retry.{
  Http, Documents, Reply, ClientError, not_marshalled, read_reply, with_retries,
}

pub record ReconcileRequest : Type 0 where
  pub host_id : String
  pub fqdn : String
  pub component : String
  pub correlation_id : String
  pub parameters : Map Parameter

pub record ReconcileAcceptedResponse : Type 0 where
  pub request_id : String
  pub accepted_at : Option Time
  pub component : String
  pub fqdn : String
  pub correlation_id : String

unfoldable pub encode_parameter : Parameter → Json
encode_parameter (Domain.text s) = text s
encode_parameter (Domain.number n) = number n

-- json.Marshal of the request, by the tags of its fields
unfoldable pub encode_request : ReconcileRequest → Json
encode_request r = object (
    unless (r.host_id == "") "host_id" (text r.host_id) (
      member "fqdn" (text r.fqdn) (
        member "component" (text r.component) (
          unless (r.correlation_id == "") "correlation_id" (text r.correlation_id) (
            unless (has_none r.parameters) "parameters"
              (object (members encode_parameter r.parameters)) no_members)))))

unfoldable pub decode_accepted : Rfc3339 → Json → Result Mismatch ReconcileAcceptedResponse
decode_accepted times = as_struct (λ o. do
  request_id ← as_text (field "request_id" o)
  accepted_at ← as_pointer (as_time times) (field "accepted_at" o)
  component ← as_text (field "component" o)
  fqdn ← as_text (field "fqdn" o)
  correlation_id ← as_text (field "correlation_id" o)
  ok (record {
    request_id = request_id;
    accepted_at = accepted_at;
    component = component;
    fqdn = fqdn;
    correlation_id = correlation_id;
  }))

-- `component, _ := domain.ParseComponent(…)`: the empty component with an error
unfoldable pub component_or_empty : Result String Component → Component
component_or_empty (ok component) = component
component_or_empty (err e) = ""

-- (reconcileAcceptedResponse).toDomain
unfoldable pub to_domain : ReconcileAcceptedResponse → ReconcileAccepted
to_domain r = record {
  request_id = r.request_id;
  accepted_at = r.accepted_at;
  component = component_or_empty (parse_component r.component);
  fqdn = r.fqdn;
  correlation_id = r.correlation_id;
}

-- The body of a response, decoded and converted.
unfoldable pub read_accepted : Rfc3339 → Documents → String → Result Mismatch ReconcileAccepted
read_accepted times documents body = do
  document ← documents.unmarshal body
  response ← decode_accepted times document
  ok (to_domain response)

unfoldable pub to_request : ReconcileCommand → ReconcileRequest
to_request command = record {
  host_id = command.host_id;
  fqdn = command.fqdn;
  component = command.component;
  correlation_id = command.correlation_id;
  parameters = command.parameters;
}

module _ {W : Type 0} (times : Rfc3339) (documents : Documents) (http : Http W) where
  unfoldable pub send_once : String → String → W → Reply ReconcileAccepted × W
  send_once request_url body w =
      let (reply, w') = http.post request_url body w in
      (read_reply 202 (read_accepted times documents) reply, w')

  -- The rest of SendReconcile, after the request's encoding.
  unfoldable pub send_encoded :
      ReconcilerClientConfig → Result Mismatch String → W → Result ClientError ReconcileAccepted × W
  send_encoded cfg (err e) w = (err not_marshalled, w)
  send_encoded cfg (ok body) w =
      with_retries
        (record { call = send_once (cfg.base_url ++ cfg.reconcile_path) body; wait = http.wait })
        cfg.retry w

  unfoldable pub send_reconcile :
      ReconcilerClientConfig → ReconcileCommand → W → Result ClientError ReconcileAccepted × W
  send_reconcile cfg command w =
      send_encoded cfg (documents.marshal (encode_request (to_request command))) w
