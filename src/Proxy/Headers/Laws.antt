-- ===== src/Proxy/Headers/Laws.antt =====
-- Which headers are sent, and with which values.
use privacy_proxy.Base.{
  false, Option, none, List, [], ◌∷◌, if◌then◌else◌, ◌≡◌, refl, ◌⊎◌, inl, inr, All, ap,
  Option-cases, Bool-cases,
}
use privacy_proxy.Text.{Bytes}
use privacy_proxy.Error.{Result}
use privacy_proxy.Stats.{ScanReport}
use privacy_proxy.Proxy.Metrics.{ProxyMetrics, count_kind}
use privacy_proxy.Proxy.Headers.{
  should_skip_header, sensitive_header_kind, Header, redacted_header, plain_header, apply_header,
  apply_headers,
}

-- A header that may be sent: not one of the skipped, and with the fixed value if it is sensitive.
abbrev pub MaySend : Header → Type 0
MaySend (name, value) =
    (should_skip_header name ≡ false)
    × ((sensitive_header_kind name ≡ none) ⊎ (value ≡ redacted_header))

-- The names of the headers that are not skipped.
abbrev pub sent_names : List Header → List Bytes
sent_names [] = []
sent_names ((name, _) ∷ headers) =
    let rest = sent_names headers in if should_skip_header name then rest else name ∷ rest

abbrev pub names : List Header → List Bytes
names [] = []
names ((name, _) ∷ headers) = name ∷ names headers

module _ (to_str : Bytes → Option Bytes) (redact_str : Bytes → Result (Bytes × ScanReport)) where
  headers-MaySend :
      (headers : List Header) (metrics : ProxyMetrics)
      → All MaySend (apply_headers to_str redact_str headers metrics).0
        × (names (apply_headers to_str redact_str headers metrics).0 ≡ sent_names headers)
  unfolding apply_headers apply_header
  headers-MaySend [] metrics = (tt, refl)
  headers-MaySend ((name, value) ∷ headers) metrics = elim (Bool-cases (should_skip_header name)) [
    | inl skip ↦ rw skip (headers-MaySend headers metrics)
    | inr sent ↦ elim (Option-cases (sensitive_header_kind name)) [
      | inl plain ↦
          let rest = headers-MaySend headers (plain_header to_str redact_str value metrics).1 in
          rw (sent, plain) (((sent, inl plain), rest.0), ap (◌∷◌ name) rest.1)
      | inr (kind, sensitive) ↦
          let rest = headers-MaySend headers (count_kind metrics kind) in
          rw (sent, sensitive) (((sent, inr refl), rest.0), ap (◌∷◌ name) rest.1)
    ]
  ]

-- Whatever `to_str` and the redaction of a text do: the headers that are sent are, in order, those
-- whose name is not skipped, each with its name, and one with a sensitive name is sent with the
-- fixed value `[REDACTED:header]`.
pub apply_headers-MaySend :
    (to_str : Bytes → Option Bytes) (redact_str : Bytes → Result (Bytes × ScanReport))
    (headers : List Header) (metrics : ProxyMetrics)
    → All MaySend (apply_headers to_str redact_str headers metrics).0
      × (names (apply_headers to_str redact_str headers metrics).0 ≡ sent_names headers)
apply_headers-MaySend to_str redact_str headers metrics =
    headers-MaySend to_str redact_str headers metrics
