-- ===== src/Proxy/Actions.antt =====
-- The handler `proxy` as the accesses that it makes to the shared `ProxyMetrics`, in their order.
pub mod Laws
use privacy_proxy.Base.{ℕ, Option, none, some, List, [], ◌∷◌, ◌++◌, length, if◌then◌else◌}
use privacy_proxy.Text.{Bytes, codes}
use privacy_proxy.BTreeMap.{BTreeMap}
use privacy_proxy.Error.{Result, Fallible, ok, err}
use privacy_proxy.Stats.{ScanReport}
use privacy_proxy.Config.{DetectorKind, as_str}
use privacy_proxy.External.{External}
use privacy_proxy.Engine.Patterns.{Engine}
use privacy_proxy.Engine.Api.{redact_str}
use privacy_proxy.Proxy.Metrics.{ProxyMetrics, fetch_add, add_counts}
use privacy_proxy.Proxy.Headers.{Header, should_skip_header, sensitive_header_kind, apply_headers}
use privacy_proxy.Proxy.Body.{
  BodyDecodeError, BodyRedactionError, invalid_utf8, core_failed, json_serialize, RedactedBody,
  decode_request_body, redact_body,
}
use privacy_proxy.Proxy.Response.{Upstream}
use privacy_proxy.Proxy.Handler.{Network, Request, outgoing, sent_to_upstream, header_value}

-- A `fetch_add` on one of the counters, or the loop of `record_report` under the mutex.
pub data Action : Type 0 where
  add_request add_upstream_error add_rejected_payload : Action
  add_request_bytes add_forwarded_bytes add_redactions : ℕ → Action
  add_by_type : BTreeMap ℕ → Action

unfoldable pub act : Action → ProxyMetrics → ProxyMetrics
act add_request m = record m { requests = fetch_add m.requests 1 }
act add_upstream_error m = record m { upstream_errors = fetch_add m.upstream_errors 1 }
act add_rejected_payload m = record m { rejected_payloads = fetch_add m.rejected_payloads 1 }
act (add_request_bytes n) m = record m { request_bytes = fetch_add m.request_bytes n }
act (add_forwarded_bytes n) m = record m { forwarded_bytes = fetch_add m.forwarded_bytes n }
act (add_redactions n) m = record m { redactions_total = fetch_add m.redactions_total n }
act (add_by_type counts) m = record m {
  redactions_by_type = add_counts m.redactions_by_type counts;
}

unfoldable pub run : List Action → ProxyMetrics → ProxyMetrics
unfolding act
run [] m = m
run (action ∷ actions) m = run actions (act action m)

-- `record_report` and `record_kind`
abbrev pub report_actions : ScanReport → List Action
report_actions report = add_redactions report.total ∷ add_by_type report.by_type ∷ []

abbrev pub kind_actions : DetectorKind → List Action
kind_actions kind = add_redactions 1 ∷ add_by_type ((as_str kind, 1) ∷ []) ∷ []

module _ (to_str : Bytes → Option Bytes) (redact_str : Bytes → Result (Bytes × ScanReport)) where
  unfoldable pub plain_actions : Bytes → List Action
  plain_actions value = elim (to_str value) [
    | none ↦ []
    | some raw ↦ elim (redact_str raw) [ err e ↦ [] | ok result ↦ report_actions result.1 ]
  ]

  unfoldable pub header_actions : List Header → List Action
  unfolding plain_actions
  header_actions [] = []
  header_actions ((name, value) ∷ headers) =
      let rest = header_actions headers in
      if should_skip_header name then rest else elim (sensitive_header_kind name) [
        | some kind ↦ kind_actions kind ++ rest
        | none ↦ plain_actions value ++ rest
      ]

-- `ProxyMetrics::default()`
abbrev pub default_metrics : ProxyMetrics
default_metrics = record {
  requests = 0;
  upstream_errors = 0;
  rejected_payloads = 0;
  request_bytes = 0;
  forwarded_bytes = 0;
  redactions_total = 0;
  redactions_by_type = [];
}

module _ (n : Network) (x : External) (engine : Engine x) (request : Request n) where
  -- The headers that are sent; the metrics have no part in them.
  abbrev pub answer_actions : Option Upstream → List Action
  answer_actions none = add_upstream_error ∷ []
  answer_actions (some response) = []

  unfoldable pub redacted_actions :
      Fallible BodyRedactionError RedactedBody → List Header → List Action
  unfolding header_actions
  redacted_actions (err invalid_utf8) sent = add_rejected_payload ∷ []
  redacted_actions (err (core_failed _)) sent = add_upstream_error ∷ []
  redacted_actions (err json_serialize) sent = add_upstream_error ∷ []
  redacted_actions (ok redacted) sent =
      report_actions redacted.stats
      ++ (add_forwarded_bytes (length redacted.body)
          ∷ (header_actions n.to_str (redact_str x engine) request.headers
              ++ answer_actions (sent_to_upstream n (outgoing n request sent redacted.body))))

  unfoldable pub decoded_actions : Fallible BodyDecodeError Bytes → List Header → List Action
  unfolding redacted_actions
  decoded_actions (err problem) sent = add_rejected_payload ∷ []
  decoded_actions (ok decoded) sent =
      redacted_actions
        (redact_body x n.json_from_str engine n.to_str decoded
          (header_value (codes "content-type") request.headers))
        sent

  unfoldable pub read_actions : Option Bytes → List Header → List Action
  unfolding decoded_actions
  read_actions none sent = add_rejected_payload ∷ []
  read_actions (some received) sent =
      add_request_bytes (length received)
      ∷ decoded_actions
          (decode_request_body n.to_str n.gunzip received
            (header_value (codes "content-encoding") request.headers) engine.config.max_body_bytes)
          sent

  -- The headers that `apply_headers` adds do not depend on the metrics.
  unfoldable pub request_actions : List Action
  unfolding read_actions
  request_actions =
      add_request
      ∷ read_actions (n.read_body request.body engine.config.max_body_bytes)
          (apply_headers n.to_str (redact_str x engine) request.headers default_metrics).0
