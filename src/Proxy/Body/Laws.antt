-- ===== src/Proxy/Body/Laws.antt =====
-- Sizes of decoded bodies, and lines of bodies.
use privacy_proxy.Base.{ℕ, ◌≤◌, Option, length, ◌≡◌, arith}
use privacy_proxy.Text.{Bytes}
use privacy_proxy.Error.{Fallible, ok, err, ◌>>=◌}
use privacy_proxy.Proxy.Body.{
  RequestContentEncoding, identity, gzip, BodyDecodeError, decode_gzip, decode_as,
  decode_request_body, request_content_encoding,
}

-- A decoded body has at most `max_body_bytes` bytes, if the body that was received has, whatever the
-- decompressor gives.
pub decode_request_body_le :
    (to_str : Bytes → Option Bytes) (gunzip : Bytes → ℕ → Option Bytes) (body : Bytes)
    (content_encoding : Option Bytes) (max_body_bytes : ℕ) {decoded : Bytes}
    → length body ≤ max_body_bytes
    → decode_request_body to_str gunzip body content_encoding max_body_bytes ≡ ok decoded
    → length decoded ≤ max_body_bytes
unfolding decode_request_body decode_gzip
decode_request_body_le to_str gunzip body content_encoding max_body_bytes le e =
    go (request_content_encoding to_str content_encoding) e
  where
    go :
        (r : Fallible BodyDecodeError RequestContentEncoding) {decoded : Bytes}
        → (r >>= λ encoding. decode_as to_str gunzip encoding body max_body_bytes) ≡ ok decoded
        → length decoded ≤ max_body_bytes
    go (err problem) h = cc
    go (ok identity) h = ground arith
    go (ok gzip) h = ground arith
