-- ===== src/Proxy/Headers.antt =====
-- The rules for the headers of a request. A `HeaderName` is its text in lower case; `to_str` of a
-- `HeaderValue`, in the crate `http`, is a parameter.
pub mod Laws
use privacy_proxy.Base.{
  Bool, true, false, ◌||◌, Option, none, some, List, [], ◌∷◌, ◌++◌, if◌then◌else◌, any,
}
use privacy_proxy.Text.{Bytes, codes, equal, contains, ends_with}
use privacy_proxy.Error.{Result, ok, err}
use privacy_proxy.Stats.{ScanReport}
use privacy_proxy.Config.{DetectorKind, cookie, bearer_token, api_key}
use privacy_proxy.FieldRules.{normalize_field_name}
use privacy_proxy.Proxy.Metrics.{ProxyMetrics, record_report, count_kind}

abbrev pub skipped : List Bytes
skipped =
    codes "host"
    ∷ codes "content-length"
    ∷ codes "transfer-encoding"
    ∷ codes "accept-encoding"
    ∷ codes "content-encoding"
    ∷ []

unfoldable pub should_skip_header : Bytes → Bool
should_skip_header name = any (equal name) skipped

unfoldable pub should_skip_response_header : Bytes → Bool
should_skip_response_header name =
    any (equal name)
      (codes "content-length" ∷ codes "transfer-encoding" ∷ codes "content-encoding" ∷ [])

-- `normalize_header_name` has the body of `normalize_field_name`.
abbrev pub normalize_header_name : Bytes → Bytes
normalize_header_name = normalize_field_name

unfoldable pub sensitive_header_kind : Bytes → Option DetectorKind
sensitive_header_kind name =
    let normalized = normalize_header_name name in
    if contains normalized (codes "cookie")
    then some cookie
    else if contains normalized (codes "authorization")
    then some bearer_token
    else if contains normalized (codes "apikey")
        || (ends_with normalized (codes "token")
            || (contains normalized (codes "secret")
                || (contains normalized (codes "password")
                    || contains normalized (codes "session"))))
    then some api_key
    else none

abbrev pub Header : Type 0
Header = Bytes × Bytes

-- The value that stands for a sensitive one.
abbrev pub redacted_header : Bytes
redacted_header = codes "[REDACTED:header]"

module _ (to_str : Bytes → Option Bytes) (redact_str : Bytes → Result (Bytes × ScanReport)) where
  -- The value that is sent for a header that is not sensitive, and the metrics behind it.
  unfoldable pub plain_header : Bytes → ProxyMetrics → Bytes × ProxyMetrics
  plain_header value metrics = elim (to_str value) [
    | none ↦ (value, metrics)
    | some raw ↦ elim (redact_str raw) [
      | err e ↦ (value, metrics)
      | ok result ↦ (result.0, record_report metrics result.1)
    ]
  ]

  -- One round of the loop: the header that is added, if one is, and the metrics.
  unfoldable pub apply_header : Header → ProxyMetrics → List Header × ProxyMetrics
  unfolding plain_header
  apply_header (name, value) metrics =
      if should_skip_header name then ([], metrics) else elim (sensitive_header_kind name) [
        | some kind ↦ ((name, redacted_header) ∷ [], count_kind metrics kind)
        | none ↦ let plain = plain_header value metrics in ((name, plain.0) ∷ [], plain.1)
      ]

  -- The headers that are added to the builder.
  unfoldable pub apply_headers : List Header → ProxyMetrics → List Header × ProxyMetrics
  unfolding apply_header
  apply_headers [] metrics = ([], metrics)
  apply_headers (header ∷ headers) metrics =
      let (first, metrics') = apply_header header metrics in
      let (rest, final) = apply_headers headers metrics' in (first ++ rest, final)
