-- ===== src/Proxy/Handler/Replies.antt =====
-- What the client is told.
use privacy_proxy.Base.{Option, none, some, [], if◌then◌else◌, ◌≡◌, refl, ◌⊎◌, inl, inr, length}
use privacy_proxy.Text.{Bytes, codes}
use privacy_proxy.Error.{Fallible, ok, err}
use privacy_proxy.External.{External}
use privacy_proxy.Engine.Patterns.{Engine}
use privacy_proxy.Engine.Api.{redact_str}
use privacy_proxy.Proxy.Metrics.{ProxyMetrics, fetch_add, record_report}
use privacy_proxy.Proxy.Headers.{apply_headers, should_skip_response_header}
use privacy_proxy.Proxy.Body.{
  BodyDecodeError, unsupported_content_encoding, decompressed_too_large, gzip_failed,
  BodyRedactionError, invalid_utf8, core_failed, json_serialize, RedactedBody, decode_request_body,
}
use privacy_proxy.Proxy.Response.{Upstream, Response, plain_response, into_axum_response}
use privacy_proxy.Proxy.Response.Laws.{InsertReplaces, last_value, into_axum_response_lem}
use privacy_proxy.Proxy.Handler.{
  Network, Request, Outgoing, outgoing, sent_to_upstream, Handled, answered, forward, on_redacted,
  on_decoded, on_read, proxy, header_value,
}

module _ (n : Network) where
  -- What the client gets of the upstream's response: its status, no skipped header, of each other
  -- name the last of its values, and its body, or a fixed text if that cannot be read.
  pub record Passed (response : Upstream) (reply : Response n.header_maps) : Type 0 where
    pub same_status : reply.status ≡ response.status
    pub headers :
        (name : Bytes)
        → n.header_maps.get_all name reply.headers
          ≡ (if should_skip_response_header name then [] else last_value name response.headers [])
    pub body : (bytes : Bytes) → response.bytes ≡ some bytes → reply.body ≡ bytes
    pub no_body : response.bytes ≡ none → reply.body ≡ codes "failed to read upstream response\n"

  into_axum_response-Passed :
      (response : Upstream)
      → InsertReplaces n.header_maps
      → Passed response (into_axum_response n.header_maps response)
  unfolding into_axum_response
  into_axum_response-Passed response replaces = record {
    same_status = refl;
    headers = λ name. (into_axum_response_lem n.header_maps response name replaces).1;
    body = λ bytes e. rw e refl;
    no_body = λ e. rw e refl;
  }

  -- The reply to a request that was refused, and to one that was sent.
  pub record Replies (handled : Handled n) : Type 0 where
    pub refused :
        handled.sent ≡ none
        → (handled.reply.headers ≡ n.header_maps.empty)
          × ((handled.reply.status ≡ 400)
              ⊎ (handled.reply.status ≡ 413)
              ⊎ (handled.reply.status ≡ 415))
    pub forwarded :
        (request : Outgoing n)
        → handled.sent ≡ some request
        → ((response : Upstream) × (sent_to_upstream n request ≡ some response)
            × Passed response handled.reply)
          ⊎ ((sent_to_upstream n request ≡ none)
              × (handled.reply
                  ≡ plain_response n.header_maps 502 (codes "upstream request failed\n")))

  some_same : {a b : Outgoing n} → some a ≡ some b → a ≡ b
  some_same e = cc

  answered-Replies :
      (metrics : ProxyMetrics) (request : Outgoing n) (response : Option Upstream)
      → InsertReplaces n.header_maps
      → sent_to_upstream n request ≡ response
      → Replies (answered n metrics request response)
  answered-Replies metrics request none replaces e = record {
    refused = λ u. cc;
    forwarded = λ q same. inr (rw (← some_same same) e, refl);
  }
  answered-Replies metrics request (some response) replaces e = record {
    refused = λ u. cc;
    forwarded = λ q same.
        inl (response, rw (← some_same same) e, into_axum_response-Passed response replaces);
  }

  -- A reply of the handler itself, with one of the three statuses.
  abbrev Refusal : Handled n → Type 0
  Refusal handled =
      (handled.sent ≡ none)
      × (handled.reply.headers ≡ n.header_maps.empty)
      × ((handled.reply.status ≡ 400) ⊎ (handled.reply.status ≡ 413) ⊎ (handled.reply.status ≡ 415))

  Refusal-Replies : (handled : Handled n) → Refusal handled → Replies handled
  Refusal-Replies handled (unsent, plain, status) = record {
    refused = λ u. (plain, status);
    forwarded = λ q same. cc;
  }

  module _ (x : External) (engine : Engine x) (request : Request n)
      (replaces : InsertReplaces n.header_maps) where
    forward-Replies :
        (redacted : RedactedBody) (metrics : ProxyMetrics)
        → Replies (forward n x engine request redacted metrics)
    unfolding forward
    forward-Replies redacted metrics =
        let recorded = record_report metrics redacted.stats in
        let counted = record recorded {
          forwarded_bytes = fetch_add recorded.forwarded_bytes (length redacted.body);
        } in
        let (headers, final) =
          apply_headers n.to_str (redact_str x engine) request.headers counted in
        answered-Replies final (outgoing n request headers redacted.body) _ replaces refl

    redacted-Replies :
        (metrics : ProxyMetrics) (r : Fallible BodyRedactionError RedactedBody)
        → Replies (on_redacted n x engine request metrics r)
    redacted-Replies metrics (err invalid_utf8) = Refusal-Replies _ (refl, refl, inr (inr refl))
    redacted-Replies metrics (err (core_failed problem)) = Refusal-Replies _ (refl, refl, inl refl)
    redacted-Replies metrics (err json_serialize) = Refusal-Replies _ (refl, refl, inl refl)
    redacted-Replies metrics (ok redacted) = forward-Replies redacted metrics

    decoded-Replies :
        (metrics : ProxyMetrics) (r : Fallible BodyDecodeError Bytes)
        → Replies (on_decoded n x engine request metrics r)
    decoded-Replies metrics (err unsupported_content_encoding) =
        Refusal-Replies _ (refl, refl, inr (inr refl))
    decoded-Replies metrics (err decompressed_too_large) =
        Refusal-Replies _ (refl, refl, inr (inl refl))
    decoded-Replies metrics (err gzip_failed) = Refusal-Replies _ (refl, refl, inl refl)
    decoded-Replies metrics (ok decoded) = redacted-Replies metrics _

    read-Replies :
        (metrics : ProxyMetrics) (r : Option Bytes) → Replies (on_read n x engine request metrics r)
    read-Replies metrics none = Refusal-Replies _ (refl, refl, inr (inl refl))
    read-Replies metrics (some received) =
        decoded-Replies
          (record metrics { request_bytes = fetch_add metrics.request_bytes (length received) })
          (decode_request_body n.to_str n.gunzip received
            (header_value (codes "content-encoding") request.headers) engine.config.max_body_bytes)

-- If inserting a header replaces the earlier ones of its name: a request that is not sent is answered
-- with status 400, 413 or 415 and no headers. One that is sent and answered by the upstream gets the
-- status of that answer, no header that is skipped, of each other name the last of the answer's
-- values, and the answer's body, or a fixed text if that cannot be read. One that is sent without
-- an answer gets 502 and a fixed text.
pub proxy-Replies :
    (n : Network) (x : External) (engine : Engine x) (request : Request n) (metrics : ProxyMetrics)
    → InsertReplaces n.header_maps
    → Replies n (proxy n x engine request metrics)
unfolding proxy
proxy-Replies n x engine request metrics replaces =
    read-Replies n x engine request replaces
      (record metrics { requests = fetch_add metrics.requests 1 })
      (n.read_body request.body engine.config.max_body_bytes)
