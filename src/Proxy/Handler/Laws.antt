-- ===== src/Proxy/Handler/Laws.antt =====
-- What leaves the proxy.
use privacy_proxy.Base.{ℕ, ◌≤◌, Option, none, some, length, ◌≡◌, refl, sym, ap, ◌∙◌, subst, All}
use privacy_proxy.Text.{Bytes, codes}
use privacy_proxy.Error.{Fallible, ok, err}
use privacy_proxy.External.{External}
use privacy_proxy.Engine.Patterns.{Engine}
use privacy_proxy.Engine.Api.{redact_str}
use privacy_proxy.Proxy.Metrics.{ProxyMetrics, fetch_add, record_report}
use privacy_proxy.Proxy.Headers.{apply_headers}
use privacy_proxy.Proxy.Headers.Laws.{MaySend, apply_headers-MaySend}
use privacy_proxy.Proxy.Body.{
  BodyDecodeError, unsupported_content_encoding, decompressed_too_large, gzip_failed, invalid_utf8,
  core_failed, json_serialize, BodyRedactionError, RedactedBody, decode_request_body, redact_body,
}
use privacy_proxy.Proxy.Body.Laws.{decode_request_body_le}
use privacy_proxy.Proxy.Target.{target_url, convert_method}
use privacy_proxy.Proxy.Response.{Upstream}
use privacy_proxy.Proxy.Handler.{
  Network, Request, Outgoing, outgoing, sent_to_upstream, header_value, answered, forward,
  on_redacted, on_decoded, on_read, proxy,
}

some_same : {A : Type 0} {a b : A} → some a ≡ some b → a ≡ b
some_same e = cc

module _ (n : Network) (x : External) (engine : Engine x) (request : Request n) where
  -- A request that may leave: it goes where the request asks below the target, the body is the redaction of a decoded body within the limit,
  -- and the headers may be sent.
  pub record MayLeave (sent : Outgoing n) : Type 0 where
    pub received : Bytes
    pub decoded : Bytes
    pub redacted : RedactedBody
    pub read : n.read_body request.body engine.config.max_body_bytes ≡ some received
    pub decoding :
        decode_request_body n.to_str n.gunzip received
          (header_value (codes "content-encoding") request.headers)
          engine.config.max_body_bytes
        ≡ ok decoded
    pub within : length decoded ≤ engine.config.max_body_bytes
    pub run :
        redact_body x n.json_from_str engine n.to_str decoded
          (header_value (codes "content-type") request.headers)
        ≡ ok redacted
    pub same_method : sent.method ≡ convert_method n.urls request.method
    pub same_url : sent.url ≡ target_url n.urls n.target request.path request.query
    pub same_body : sent.body ≡ redacted.body
    pub headers_ok : All MaySend sent.headers

  sent_of :
      (metrics : ProxyMetrics) (sent : Outgoing n) (response : Option Upstream)
      → (answered n metrics sent response).sent ≡ some sent
  sent_of metrics sent none = refl
  sent_of metrics sent (some response) = refl

  forward_sends :
      (redacted : RedactedBody) (metrics : ProxyMetrics) (sent : Outgoing n)
      → (forward n x engine request redacted metrics).sent ≡ some sent
      → (sent.method ≡ convert_method n.urls request.method)
        × (sent.url ≡ target_url n.urls n.target request.path request.query)
        × (sent.body ≡ redacted.body)
        × All MaySend sent.headers
  unfolding forward
  forward_sends redacted metrics sent e =
      let recorded = record_report metrics redacted.stats in
      let counted = record recorded {
        forwarded_bytes = fetch_add recorded.forwarded_bytes (length redacted.body);
      } in
      let safe = apply_headers-MaySend n.to_str (redact_str x engine) request.headers counted in
      let (headers, final) = apply_headers n.to_str (redact_str x engine) request.headers counted in
      let request' = outgoing n request headers redacted.body in
      let same : request' ≡ sent =
        some_same (sym (sent_of final request' (sent_to_upstream n request')) ∙ e) in
      (
        ap (λ q. q.method) (sym same),
        ap (λ q. q.url) (sym same),
        ap (λ q. q.body) (sym same),
        subst (λ q. All MaySend q.headers) same safe.0,
      )

  decoded_sends :
      (received decoded : Bytes) (metrics : ProxyMetrics) (sent : Outgoing n)
      (r : Fallible BodyRedactionError RedactedBody)
      → n.read_body request.body engine.config.max_body_bytes ≡ some received
      → length received ≤ engine.config.max_body_bytes
      → decode_request_body n.to_str n.gunzip received
          (header_value (codes "content-encoding") request.headers)
          engine.config.max_body_bytes
        ≡ ok decoded
      → redact_body x n.json_from_str engine n.to_str decoded
          (header_value (codes "content-type") request.headers)
        ≡ r
      → (on_redacted n x engine request metrics r).sent ≡ some sent
      → MayLeave sent
  decoded_sends received decoded metrics sent (err invalid_utf8) read le d run e = cc
  decoded_sends received decoded metrics sent (err (core_failed problem)) read le d run e = cc
  decoded_sends received decoded metrics sent (err json_serialize) read le d run e = cc
  decoded_sends received decoded metrics sent (ok redacted) read le d run e =
      let (method, url, same, safe) = forward_sends redacted metrics sent e in
      record {
        received = received;
        decoded = decoded;
        redacted = redacted;
        read = read;
        decoding = d;
        within =
            decode_request_body_le n.to_str n.gunzip received
              (header_value (codes "content-encoding") request.headers) engine.config.max_body_bytes
              le d;
        run = run;
        same_method = method;
        same_url = url;
        same_body = same;
        headers_ok = safe;
      }

  received_sends :
      (received : Bytes) (metrics : ProxyMetrics) (sent : Outgoing n)
      (r : Fallible BodyDecodeError Bytes)
      → n.read_body request.body engine.config.max_body_bytes ≡ some received
      → length received ≤ engine.config.max_body_bytes
      → decode_request_body n.to_str n.gunzip received
          (header_value (codes "content-encoding") request.headers)
          engine.config.max_body_bytes
        ≡ r
      → (on_decoded n x engine request metrics r).sent ≡ some sent
      → MayLeave sent
  received_sends received metrics sent (err unsupported_content_encoding) read le d e = cc
  received_sends received metrics sent (err decompressed_too_large) read le d e = cc
  received_sends received metrics sent (err gzip_failed) read le d e = cc
  received_sends received metrics sent (ok decoded) read le d e =
      decoded_sends received decoded metrics sent _ read le d refl e

  read_sends :
      (metrics : ProxyMetrics) (sent : Outgoing n) (r : Option Bytes)
      → ((received : Bytes) → r ≡ some received → length received ≤ engine.config.max_body_bytes)
      → n.read_body request.body engine.config.max_body_bytes ≡ r
      → (on_read n x engine request metrics r).sent ≡ some sent
      → MayLeave sent
  read_sends metrics sent none limit read e = cc
  read_sends metrics sent (some received) limit read e =
      received_sends received _ sent _ read (limit received refl) refl e

-- As `axum` documents `to_bytes`: a body that it returns is within the limit.
abbrev pub Limits : Network → Type 0
Limits n =
    (body : n.Body) (limit : ℕ) (received : Bytes)
    → n.read_body body limit ≡ some received
    → length received ≤ limit

-- If reading respects its limit: when the handler sends a request upstream, it has the method of the
-- request and goes to the target's URL with the request's path and query, its body is the redaction
-- of the decoded body that was received, which is within `max_body_bytes`, and no header of it is
-- one of the skipped or has a sensitive name with another value than the fixed one.
pub proxy-MayLeave :
    (n : Network) (x : External) (engine : Engine x) (request : Request n) (metrics : ProxyMetrics)
    (sent : Outgoing n)
    → Limits n
    → (proxy n x engine request metrics).sent ≡ some sent
    → MayLeave n x engine request sent
unfolding proxy
proxy-MayLeave n x engine request metrics sent limits e =
    read_sends n x engine request _ sent _
      (λ received read. limits request.body engine.config.max_body_bytes received read) refl e
