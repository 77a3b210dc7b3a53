-- ===== src/Proxy/Handler.antt =====
-- The handler `proxy`, from a request to what is sent upstream and what is replied.
pub mod Laws
pub mod Counting
pub mod Replies
use privacy_proxy.Base.{ℕ, ◌+◌, Option, none, some, List, [], ◌∷◌, length, if◌then◌else◌}
use privacy_proxy.Text.{Bytes, codes, equal}
use privacy_proxy.Error.{Fallible, ok, err}
use privacy_proxy.Json.{Value}
use privacy_proxy.External.{External}
use privacy_proxy.Engine.Patterns.{Engine}
use privacy_proxy.Engine.Api.{redact_str}
use privacy_proxy.Proxy.Metrics.{ProxyMetrics, fetch_add, record_report}
use privacy_proxy.Proxy.Headers.{Header, apply_headers}
use privacy_proxy.Proxy.Target.{Urls, target_url, convert_method}
use privacy_proxy.Proxy.Response.{
  HeaderMaps, Upstream, Response, plain_response, into_axum_response,
}
use privacy_proxy.Proxy.Body.{
  BodyDecodeError, unsupported_content_encoding, decompressed_too_large, gzip_failed,
  BodyRedactionError, invalid_utf8, core_failed, json_serialize, RedactedBody, decode_request_body,
  redact_body,
}

-- What the handler takes from the crates `http`, `axum`, `flate2`, `serde_json`, `url` and `reqwest`,
-- and the target in the state of the proxy. `read_body` is `to_bytes` with a limit on a request's
-- body, and `send` the answer of the upstream.
pub record Network : Type 1 where
  pub urls : Urls
  pub target : urls.Url
  pub header_maps : HeaderMaps
  pub Body : Type 0
  pub to_str : Bytes → Option Bytes
  pub gunzip : Bytes → ℕ → Option Bytes
  pub json_from_str : Bytes → Option Value
  pub read_body : Body → ℕ → Option Bytes
  pub send : urls.Method → urls.Url → List Header → Bytes → Option Upstream

-- `headers.get(name)`: the first value
unfoldable pub header_value : Bytes → List Header → Option Bytes
header_value name [] = none
header_value name ((key, value) ∷ headers) =
    let rest = header_value name headers in if equal key name then some value else rest

module _ (n : Network) where
  pub record Request : Type 0 where
    pub method : Bytes
    pub path : Bytes
    pub query : Option Bytes
    pub headers : List Header
    pub body : n.Body

  -- The request that `builder` makes.
  pub record Outgoing : Type 0 where
    pub method : n.urls.Method
    pub url : n.urls.Url
    pub headers : List Header
    pub body : Bytes

  abbrev pub outgoing : Request → List Header → Bytes → Outgoing
  outgoing request headers body = record {
    method = convert_method n.urls request.method;
    url = target_url n.urls n.target request.path request.query;
    headers = headers;
    body = body;
  }

  abbrev pub sent_to_upstream : Outgoing → Option Upstream
  sent_to_upstream request = n.send request.method request.url request.headers request.body

  pub record Handled : Type 0 where
    pub metrics : ProxyMetrics
    pub sent : Option Outgoing
    pub reply : Response n.header_maps

  abbrev pub rejected : ProxyMetrics → ℕ → Bytes → Handled
  rejected metrics status text = record {
    metrics = record metrics { rejected_payloads = fetch_add metrics.rejected_payloads 1 };
    sent = none;
    reply = plain_response n.header_maps status text;
  }

  abbrev pub failed : ProxyMetrics → Option Outgoing → ℕ → Bytes → Handled
  failed metrics sent status text = record {
    metrics = record metrics { upstream_errors = fetch_add metrics.upstream_errors 1 };
    sent = sent;
    reply = plain_response n.header_maps status text;
  }

  abbrev pub decode_rejected : ProxyMetrics → BodyDecodeError → Handled
  decode_rejected metrics unsupported_content_encoding =
      rejected metrics 415
        (codes "unsupported request content-encoding; only identity and gzip are supported\n")
  decode_rejected metrics decompressed_too_large =
      rejected metrics 413 (codes "decompressed request body exceeds configured max_body_bytes\n")
  decode_rejected metrics gzip_failed =
      rejected metrics 400 (codes "gzip request body could not be decoded\n")

  abbrev pub redaction_failed : ProxyMetrics → BodyRedactionError → Handled
  redaction_failed metrics invalid_utf8 =
      rejected metrics 415 (codes "only UTF-8 JSON, JSONL, and text bodies are supported\n")
  redaction_failed metrics (core_failed _) =
      failed metrics none 400 (codes "request body redaction failed\n")
  redaction_failed metrics json_serialize =
      failed metrics none 400 (codes "request body redaction failed\n")

  -- The answer of the upstream.
  abbrev pub answered : ProxyMetrics → Outgoing → Option Upstream → Handled
  answered metrics request (some response) = record {
    metrics = metrics;
    sent = some request;
    reply = into_axum_response n.header_maps response;
  }
  answered metrics request none =
      failed metrics (some request) 502 (codes "upstream request failed\n")

  module _ (x : External) (engine : Engine x) where
    unfoldable pub forward : Request → RedactedBody → ProxyMetrics → Handled
    forward request redacted metrics =
        let recorded = record_report metrics redacted.stats in
        let counted = record recorded {
          forwarded_bytes = fetch_add recorded.forwarded_bytes (length redacted.body);
        } in
        let (headers, final) =
          apply_headers n.to_str (redact_str x engine) request.headers counted in
        let request' = outgoing request headers redacted.body in
        answered final request' (sent_to_upstream request')

    -- Behind decoding.
    abbrev pub on_redacted :
        Request → ProxyMetrics → Fallible BodyRedactionError RedactedBody → Handled
    on_redacted request metrics (err e) = redaction_failed metrics e
    on_redacted request metrics (ok redacted) = forward request redacted metrics

    abbrev pub on_decoded : Request → ProxyMetrics → Fallible BodyDecodeError Bytes → Handled
    on_decoded request metrics (err e) = decode_rejected metrics e
    on_decoded request metrics (ok decoded) = on_redacted request metrics (
        redact_body x n.json_from_str engine n.to_str decoded
          (header_value (codes "content-type") request.headers))

    abbrev pub on_read : Request → ProxyMetrics → Option Bytes → Handled
    on_read request metrics none =
        rejected metrics 413 (codes "request body exceeds configured max_body_bytes\n")
    on_read request metrics (some bytes) =
        on_decoded request
          (record metrics { request_bytes = fetch_add metrics.request_bytes (length bytes) })
          (decode_request_body n.to_str n.gunzip bytes
            (header_value (codes "content-encoding") request.headers) engine.config.max_body_bytes)

    unfoldable pub proxy : Request → ProxyMetrics → Handled
    unfolding forward
    proxy request metrics =
        on_read request (record metrics { requests = fetch_add metrics.requests 1 })
          (n.read_body request.body engine.config.max_body_bytes)
