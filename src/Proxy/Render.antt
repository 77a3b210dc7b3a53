-- ===== src/Proxy/Render.antt =====
-- `render_prometheus_metrics`, and the three handlers that tell the state of the proxy. The JSON
-- writer of a snapshot, `axum::Json`, is a parameter.
pub mod Samples
pub mod Laws
use privacy_proxy.Base.{ℕ, List, [], ◌∷◌, ◌++◌}
use privacy_proxy.Text.{Bytes, codes}
use privacy_proxy.Text.Number.{decimal}
use privacy_proxy.BTreeMap.{BTreeMap}
use privacy_proxy.Proxy.Metrics.{ProxyMetrics, prometheus_escape_label_value}
use privacy_proxy.Proxy.Headers.{Header}

-- `writeln!` of three lines at the end of the output.
unfoldable pub push_counter : Bytes → Bytes → Bytes → ℕ → Bytes
push_counter output name help value =
    output
    ++ ((codes "# HELP " ++ (name ++ (b' ' ∷ help))) ++ b'\n' ∷ [])
    ++ ((codes "# TYPE " ++ (name ++ codes " counter")) ++ b'\n' ∷ [])
    ++ ((name ++ (b' ' ∷ decimal value)) ++ b'\n' ∷ [])

abbrev pub by_type_line : Bytes × ℕ → Bytes
by_type_line (detector, count) =
    codes "privacy_proxy_redactions_by_type_total{detector=\""
    ++ (prometheus_escape_label_value detector ++ b'"' ∷ b'}' ∷ b' ' ∷ decimal count)

-- The loop over the counters by type.
unfoldable pub push_by_type : Bytes → BTreeMap ℕ → Bytes
push_by_type output [] = output
push_by_type output (entry ∷ entries) =
    push_by_type (output ++ (by_type_line entry ++ b'\n' ∷ [])) entries

unfoldable pub render_prometheus_metrics : ProxyMetrics → Bytes
unfolding push_counter push_by_type
render_prometheus_metrics snapshot =
    let output =
      push_counter [] (codes "privacy_proxy_requests_total")
        (codes "Total HTTP requests handled by the proxy.") snapshot.requests in
    let output =
      push_counter output (codes "privacy_proxy_upstream_errors_total")
        (codes "Total upstream or proxy forwarding errors.") snapshot.upstream_errors in
    let output =
      push_counter output (codes "privacy_proxy_rejected_payloads_total")
        (codes "Total payloads rejected before forwarding.") snapshot.rejected_payloads in
    let output =
      push_counter output (codes "privacy_proxy_request_bytes_total")
        (codes "Total request body bytes received before redaction.") snapshot.request_bytes in
    let output =
      push_counter output (codes "privacy_proxy_forwarded_bytes_total")
        (codes "Total request body bytes forwarded after redaction.") snapshot.forwarded_bytes in
    let output =
      push_counter output (codes "privacy_proxy_redactions_total")
        (codes "Total redactions applied by the proxy.") snapshot.redactions_total in
    let output =
      output
      ++ (codes "# HELP privacy_proxy_redactions_by_type_total Total redactions by detector type."
          ++ b'\n' ∷ []) in
    let output =
      output ++ (codes "# TYPE privacy_proxy_redactions_by_type_total counter" ++ b'\n' ∷ []) in
    push_by_type output snapshot.redactions_by_type

-- A response that the proxy makes itself.
pub record Answer : Type 0 where
  pub status : ℕ
  pub headers : List Header
  pub body : Bytes

-- `ProxyMetrics::snapshot`, with no other task in between.
abbrev pub snapshot : ProxyMetrics → ProxyMetrics
snapshot metrics = metrics

abbrev pub healthz : Answer
healthz = record { status = 204; headers = []; body = [] }

abbrev pub metrics : (ProxyMetrics → Answer) → ProxyMetrics → Answer
metrics json state = record (json (snapshot state)) { status = 200 }

unfoldable pub prometheus_metrics : ProxyMetrics → Answer
unfolding render_prometheus_metrics
prometheus_metrics state = record {
  status = 200;
  headers = (codes "content-type", codes "text/plain; version=0.0.4; charset=utf-8") ∷ [];
  body = render_prometheus_metrics (snapshot state);
}
