-- ===== src/Proxy/Actions/Laws.antt =====
-- The accesses of a request do to the counters what the handler does.
use privacy_proxy.Base.{
  Option, none, some, List, [], ◌∷◌, ◌++◌, ◌≡◌, refl, sym, ap, ◌∙◌, arith, inl, inr, Option-cases,
  Bool-cases, length,
}
use privacy_proxy.Text.{Bytes, codes}
use privacy_proxy.Error.{Result, Fallible, ok, err}
use privacy_proxy.Stats.{ScanReport, merge_counts}
use privacy_proxy.Config.{DetectorKind}
use privacy_proxy.External.{External}
use privacy_proxy.Engine.Patterns.{Engine}
use privacy_proxy.Engine.Api.{redact_str}
use privacy_proxy.Proxy.Metrics.{ProxyMetrics, fetch_add, add_counts, record_report, count_kind}
use privacy_proxy.Proxy.Headers.{
  Header, should_skip_header, sensitive_header_kind, plain_header, apply_header, apply_headers,
  redacted_header,
}
use privacy_proxy.Proxy.Body.{
  BodyDecodeError, BodyRedactionError, invalid_utf8, core_failed, json_serialize, RedactedBody,
  unsupported_content_encoding, decompressed_too_large, gzip_failed, decode_request_body,
}
use privacy_proxy.Proxy.Response.{Upstream}
use privacy_proxy.Proxy.Handler.{
  Network, Request, Outgoing, outgoing, sent_to_upstream, answered, forward, on_redacted,
  on_decoded, on_read, proxy, header_value,
}
use privacy_proxy.Proxy.Actions.{
  Action, act, run, report_actions, kind_actions, plain_actions, header_actions, answer_actions,
  default_metrics, redacted_actions, decoded_actions, read_actions, request_actions,
}

cons_same : {A : Type 0} {a b : A} {xs ys : List A} → a ≡ b → xs ≡ ys → a ∷ xs ≡ b ∷ ys
cons_same e f = cc

pub run-append : (xs ys : List Action) (m : ProxyMetrics) → run (xs ++ ys) m ≡ run ys (run xs m)
unfolding run
run-append [] ys m = refl
run-append (action ∷ xs) ys m = run-append xs ys (act action m)

run-report_actions :
    (report : ScanReport) (m : ProxyMetrics)
    → run (report_actions report) m ≡ record_report m report
unfolding run record_report
run-report_actions report m = refl

run-kind_actions :
    (kind : DetectorKind) (m : ProxyMetrics) → run (kind_actions kind) m ≡ count_kind m kind
unfolding run count_kind add_counts merge_counts
run-kind_actions kind m = refl

module _ (to_str : Bytes → Option Bytes) (redact_str : Bytes → Result (Bytes × ScanReport)) where
  run-plain_actions :
      (value : Bytes) (m : ProxyMetrics)
      → run (plain_actions to_str redact_str value) m ≡ (plain_header to_str redact_str value m).1
  unfolding plain_actions plain_header run record_report
  run-plain_actions value m = ground arith

  -- The value that is sent does not depend on the metrics.
  plain_header_same :
      (value : Bytes) (m m' : ProxyMetrics)
      → (plain_header to_str redact_str value m).0 ≡ (plain_header to_str redact_str value m').0
  unfolding plain_header
  plain_header_same value m m' = ground arith

  headers_same :
      (headers : List Header) (m m' : ProxyMetrics)
      → (apply_headers to_str redact_str headers m).0
        ≡ (apply_headers to_str redact_str headers m').0
  unfolding apply_headers apply_header
  headers_same [] m m' = refl
  headers_same ((name, value) ∷ headers) m m' = elim (Bool-cases (should_skip_header name)) [
    | inl skip ↦ rw skip (headers_same headers m m')
    | inr sent ↦ elim (Option-cases (sensitive_header_kind name)) [
      | inl plain ↦
          rw (sent, plain)
            (cons_same (ap (λ v. (name, v)) (plain_header_same value m m')) (
              headers_same headers (plain_header to_str redact_str value m).1
                (plain_header to_str redact_str value m').1))
      | inr (kind, sensitive) ↦
          rw (sent, sensitive)
            (ap (λ t. (name, redacted_header) ∷ t)
              (headers_same headers (count_kind m kind) (count_kind m' kind)))
    ]
  ]

  run-header_actions :
      (headers : List Header) (m : ProxyMetrics)
      → run (header_actions to_str redact_str headers) m
        ≡ (apply_headers to_str redact_str headers m).1
  unfolding header_actions apply_headers apply_header run
  run-header_actions [] m = refl
  run-header_actions ((name, value) ∷ headers) m = elim (Bool-cases (should_skip_header name)) [
    | inl skip ↦ rw skip (run-header_actions headers m)
    | inr sent ↦ elim (Option-cases (sensitive_header_kind name)) [
      | inl plain ↦
          rw (sent, plain)
            (run-append (plain_actions to_str redact_str value)
                (header_actions to_str redact_str headers) m
              ∙ ap (run (header_actions to_str redact_str headers)) (run-plain_actions value m)
              ∙ run-header_actions headers _)
      | inr (kind, sensitive) ↦
          rw (sent, sensitive)
            (ap (run (header_actions to_str redact_str headers)) (run-kind_actions kind m)
              ∙ run-header_actions headers (count_kind m kind))
    ]
  ]

module _ (n : Network) (x : External) (engine : Engine x) (request : Request n) where
  answered-run :
      (metrics : ProxyMetrics) (sent : Outgoing n) (response : Option Upstream)
      → (answered n metrics sent response).metrics
        ≡ run (answer_actions n x engine request response) metrics
  unfolding run
  answered-run metrics sent none = refl
  answered-run metrics sent (some response) = refl

  -- The headers that are sent, whatever the metrics are.
  abbrev AreSent : List Header → Type 0
  AreSent sent =
      (metrics : ProxyMetrics)
      → (apply_headers n.to_str (redact_str x engine) request.headers metrics).0 ≡ sent

  module _ (sent : List Header) (are_sent : AreSent sent) where
    forward-run :
        (redacted : RedactedBody) (metrics : ProxyMetrics)
        → (forward n x engine request redacted metrics).metrics
          ≡ run (redacted_actions n x engine request (ok redacted) sent) metrics
    unfolding forward redacted_actions run record_report
    forward-run redacted metrics =
        let recorded = record_report metrics redacted.stats in
        let counted = record recorded {
          forwarded_bytes = fetch_add recorded.forwarded_bytes (length redacted.body);
        } in
        let (headers, final) =
          apply_headers n.to_str (redact_str x engine) request.headers counted in
        let actions = header_actions n.to_str (redact_str x engine) request.headers in
        let last =
          answer_actions n x engine request
            (sent_to_upstream n (outgoing n request sent redacted.body)) in
        answered-run final (outgoing n request headers redacted.body)
          (sent_to_upstream n (outgoing n request headers redacted.body))
        ∙ ap
            (λ h.
              run
                (answer_actions n x engine request
                  (sent_to_upstream n (outgoing n request h redacted.body)))
                final)
            (are_sent counted)
        ∙ ap (run last)
            (sym (run-header_actions n.to_str (redact_str x engine) request.headers counted))
        ∙ sym (run-append actions last counted)

    redacted-run :
        (metrics : ProxyMetrics) (r : Fallible BodyRedactionError RedactedBody)
        → (on_redacted n x engine request metrics r).metrics
          ≡ run (redacted_actions n x engine request r sent) metrics
    unfolding redacted_actions run
    redacted-run metrics (err invalid_utf8) = refl
    redacted-run metrics (err (core_failed problem)) = refl
    redacted-run metrics (err json_serialize) = refl
    redacted-run metrics (ok redacted) = forward-run redacted metrics

    decoded-run :
        (metrics : ProxyMetrics) (r : Fallible BodyDecodeError Bytes)
        → (on_decoded n x engine request metrics r).metrics
          ≡ run (decoded_actions n x engine request r sent) metrics
    unfolding decoded_actions run
    decoded-run metrics (err unsupported_content_encoding) = refl
    decoded-run metrics (err decompressed_too_large) = refl
    decoded-run metrics (err gzip_failed) = refl
    decoded-run metrics (ok decoded) = redacted-run metrics _

    read-run :
        (metrics : ProxyMetrics) (r : Option Bytes)
        → (on_read n x engine request metrics r).metrics
          ≡ run (read_actions n x engine request r sent) metrics
    unfolding read_actions run
    read-run metrics none = refl
    read-run metrics (some received) =
        decoded-run
          (record metrics { request_bytes = fetch_add metrics.request_bytes (length received) })
          (decode_request_body n.to_str n.gunzip received
            (header_value (codes "content-encoding") request.headers) engine.config.max_body_bytes)

-- What the handler leaves of the metrics is what the accesses of the request, one after the other,
-- make of them.
pub proxy-run :
    (n : Network) (x : External) (engine : Engine x) (request : Request n) (metrics : ProxyMetrics)
    → (proxy n x engine request metrics).metrics ≡ run (request_actions n x engine request) metrics
unfolding proxy request_actions run
proxy-run n x engine request metrics =
    read-run n x engine request
      (apply_headers n.to_str (redact_str x engine) request.headers default_metrics).0
      (λ m. headers_same n.to_str (redact_str x engine) request.headers m default_metrics)
      (record metrics { requests = fetch_add metrics.requests 1 })
      (n.read_body request.body engine.config.max_body_bytes)
