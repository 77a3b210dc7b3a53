-- ===== src/Proxy/Handler/Counting.antt =====
-- What the handler adds to the counters.
use privacy_proxy.Base.{
  Option, none, some, List, [], ◌∷◌, length, ◌≡◌, ◌≢◌, refl, arith, ap, ◌∙◌, ◌⊎◌, inl, inr,
  Option-cases, Bool-cases,
}
use privacy_proxy.Text.{Bytes}
use privacy_proxy.Error.{Result, Fallible, ok, err}
use privacy_proxy.Stats.{ScanReport}
use privacy_proxy.External.{External}
use privacy_proxy.Engine.Patterns.{Engine}
use privacy_proxy.Engine.Api.{redact_str}
use privacy_proxy.Proxy.Metrics.{ProxyMetrics, fetch_add, record_report, count_kind}
use privacy_proxy.Proxy.Headers.{
  Header, should_skip_header, sensitive_header_kind, plain_header, apply_header, apply_headers,
}
use privacy_proxy.Proxy.Body.{
  BodyDecodeError, unsupported_content_encoding, decompressed_too_large, gzip_failed,
  BodyRedactionError, invalid_utf8, core_failed, json_serialize, RedactedBody,
}
use privacy_proxy.Proxy.Response.{Upstream}
use privacy_proxy.Proxy.Handler.{
  Network, Request, Outgoing, outgoing, sent_to_upstream, Handled, answered, forward, on_redacted,
  on_decoded, on_read, proxy,
}

module _ (to_str : Bytes → Option Bytes) (redact_str : Bytes → Result (Bytes × ScanReport)) where
  plain_header_keeps :
      (value : Bytes) (metrics : ProxyMetrics)
      → (plain_header to_str redact_str value metrics).1.requests ≡ metrics.requests
  unfolding plain_header record_report
  plain_header_keeps value metrics = ground arith

  headers_keep :
      (headers : List Header) (metrics : ProxyMetrics)
      → (apply_headers to_str redact_str headers metrics).1.requests ≡ metrics.requests
  unfolding apply_headers apply_header count_kind
  headers_keep [] metrics = refl
  headers_keep ((name, value) ∷ headers) metrics = elim (Bool-cases (should_skip_header name)) [
    | inl skip ↦ rw skip (headers_keep headers metrics)
    | inr sent ↦ elim (Option-cases (sensitive_header_kind name)) [
      | inl plain ↦
          rw (sent, plain)
            (headers_keep headers (plain_header to_str redact_str value metrics).1
              ∙ plain_header_keeps value metrics)
      | inr (kind, sensitive) ↦
          rw (sent, sensitive) (headers_keep headers (count_kind metrics kind))
    ]
  ]

module _ (n : Network) where
  -- One request is counted, and one that is not sent adds no forwarded bytes and is counted as
  -- rejected or as an error.
  pub record Accounted (metrics : ProxyMetrics) (handled : Handled n) : Type 0 where
    pub once : handled.metrics.requests ≡ fetch_add metrics.requests 1
    pub unsent :
        handled.sent ≡ none
        → (handled.metrics.forwarded_bytes ≡ metrics.forwarded_bytes)
          × ((handled.metrics.rejected_payloads ≡ fetch_add metrics.rejected_payloads 1)
              ⊎ (handled.metrics.upstream_errors ≡ fetch_add metrics.upstream_errors 1))

  answered_requests :
      (metrics : ProxyMetrics) (sent : Outgoing n) (response : Option Upstream)
      → ((answered n metrics sent response).metrics.requests ≡ metrics.requests)
        × ((answered n metrics sent response).sent ≢ none)
  answered_requests metrics sent none = (refl, λ e. cc)
  answered_requests metrics sent (some response) = (refl, λ e. cc)

  module _ (x : External) (engine : Engine x) (request : Request n) (metrics : ProxyMetrics) where
    forward-Accounted :
        (redacted : RedactedBody) (before : ProxyMetrics)
        → before.requests ≡ fetch_add metrics.requests 1
        → Accounted metrics (forward n x engine request redacted before)
    unfolding forward record_report
    forward-Accounted redacted before e =
        let recorded = record_report before redacted.stats in
        let counted = record recorded {
          forwarded_bytes = fetch_add recorded.forwarded_bytes (length redacted.body);
        } in
        let kept = headers_keep n.to_str (redact_str x engine) request.headers counted in
        let (headers, final) =
          apply_headers n.to_str (redact_str x engine) request.headers counted in
        let request' = outgoing n request headers redacted.body in
        let (same, sends) = answered_requests final request' (sent_to_upstream n request') in
        record { once = same ∙ (kept ∙ e); unsent = λ u. absurd (sends u) }

    -- The metrics behind `requests` and `request_bytes`.
    abbrev Before : ProxyMetrics → Type 0
    Before before =
        (before.requests ≡ fetch_add metrics.requests 1)
        × (before.forwarded_bytes ≡ metrics.forwarded_bytes)
        × (before.rejected_payloads ≡ metrics.rejected_payloads)
        × (before.upstream_errors ≡ metrics.upstream_errors)

    redacted-Accounted :
        (before : ProxyMetrics) (r : Fallible BodyRedactionError RedactedBody)
        → Before before
        → Accounted metrics (on_redacted n x engine request before r)
    redacted-Accounted before (err invalid_utf8) b = record {
      once = b.0;
      unsent = λ u. (b.1, inl (ap (λ c. fetch_add c 1) b.2));
    }
    redacted-Accounted before (err (core_failed problem)) b = record {
      once = b.0;
      unsent = λ u. (b.1, inr (ap (λ c. fetch_add c 1) b.3));
    }
    redacted-Accounted before (err json_serialize) b = record {
      once = b.0;
      unsent = λ u. (b.1, inr (ap (λ c. fetch_add c 1) b.3));
    }
    redacted-Accounted before (ok redacted) b = forward-Accounted redacted before b.0

    decoded-Accounted :
        (before : ProxyMetrics) (r : Fallible BodyDecodeError Bytes)
        → Before before
        → Accounted metrics (on_decoded n x engine request before r)
    decoded-Accounted before (ok decoded) b = redacted-Accounted before _ b
    decoded-Accounted before (err unsupported_content_encoding) b = record {
      once = b.0;
      unsent = λ u. (b.1, inl (ap (λ c. fetch_add c 1) b.2));
    }
    decoded-Accounted before (err decompressed_too_large) b = record {
      once = b.0;
      unsent = λ u. (b.1, inl (ap (λ c. fetch_add c 1) b.2));
    }
    decoded-Accounted before (err gzip_failed) b = record {
      once = b.0;
      unsent = λ u. (b.1, inl (ap (λ c. fetch_add c 1) b.2));
    }

    read-Accounted :
        (before : ProxyMetrics) (r : Option Bytes)
        → Before before
        → Accounted metrics (on_read n x engine request before r)
    read-Accounted before none b = record {
      once = b.0;
      unsent = λ u. (b.1, inl (ap (λ c. fetch_add c 1) b.2));
    }
    read-Accounted before (some received) b = decoded-Accounted _ _ (b.0, b.1, b.2, b.3)

-- Every call of the handler adds exactly one to `requests`; one that sends nothing upstream leaves
-- `forwarded_bytes` as it was, and adds one to `rejected_payloads` or to `upstream_errors`.
pub proxy-Accounted :
    (n : Network) (x : External) (engine : Engine x) (request : Request n) (metrics : ProxyMetrics)
    → Accounted n metrics (proxy n x engine request metrics)
unfolding proxy
proxy-Accounted n x engine request metrics =
    read-Accounted n x engine request metrics _ _ (refl, refl, refl, refl)
