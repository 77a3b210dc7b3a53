-- ===== src/Proxy/Response.antt =====
-- The responses of the proxy: `plain_response` and `into_axum_response`. A header map is that of the
-- crate `http`.
pub mod Laws
use privacy_proxy.Base.{ℕ, Option, none, some, List, [], ◌∷◌, if◌then◌else◌}
use privacy_proxy.Text.{Bytes, codes}
use privacy_proxy.Proxy.Headers.{Header, should_skip_response_header}

pub record HeaderMaps : Type 1 where
  pub HeaderMap : Type 0
  pub empty : HeaderMap
  pub insert : Bytes → Bytes → HeaderMap → HeaderMap
  pub get_all : Bytes → HeaderMap → List Bytes

-- What the upstream answers: `bytes` is its body, unless reading it fails.
pub record Upstream : Type 0 where
  pub status : ℕ
  pub headers : List Header
  pub bytes : Option Bytes

abbrev pub body_text : Option Bytes → Bytes
body_text (some bytes) = bytes
body_text none = codes "failed to read upstream response\n"

module _ (h : HeaderMaps) where
  pub record Response : Type 0 where
    pub status : ℕ
    pub headers : h.HeaderMap
    pub body : Bytes

  abbrev pub plain_response : ℕ → Bytes → Response
  plain_response status body = record { status = status; headers = h.empty; body = body }

  -- The loop over the headers of the answer.
  unfoldable pub copy_headers : List Header → h.HeaderMap → h.HeaderMap
  copy_headers [] output_headers = output_headers
  copy_headers ((name, value) ∷ headers) output_headers =
      let skipped = copy_headers headers output_headers in
      let copied = copy_headers headers (h.insert name value output_headers) in
      if should_skip_response_header name then skipped else copied

  -- `builder.body` cannot fail: the status and the headers come from a response.
  unfoldable pub into_axum_response : Upstream → Response
  unfolding copy_headers
  into_axum_response response = record {
    status = response.status;
    headers = copy_headers response.headers h.empty;
    body = body_text response.bytes;
  }
