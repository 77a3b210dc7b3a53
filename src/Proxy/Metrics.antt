-- ===== src/Proxy/Metrics.antt =====
-- `ProxyMetrics`, and the label values of the metrics text. An atomic counter is its value, and
-- `fetch_add` wraps at `2 ^ 64`; the mutex is never poisoned, since no code panics while it is held.
pub mod Laws
use privacy_proxy.Base.{
  ℕ, ◌+◌, ◌%◌, ◌^◌, Bool, true, false, List, [], ◌∷◌, ◌++◌, ◌==◌, if◌then◌else◌,
}
use privacy_proxy.Text.{Bytes, codes}
use privacy_proxy.BTreeMap.{BTreeMap, alter}
use privacy_proxy.Stats.{ScanReport, saturating_add, merge_counts}
use privacy_proxy.Config.{DetectorKind, as_str}

-- `counter.fetch_add(n, Ordering::Relaxed)`
abbrev pub fetch_add : ℕ → ℕ → ℕ
fetch_add counter n = (counter + n) % 2 ^ 64

-- `ProxyMetrics`, and `MetricsSnapshot`, which has the same fields.
pub record ProxyMetrics : Type 0 where
  pub requests : ℕ
  pub upstream_errors : ℕ
  pub rejected_payloads : ℕ
  pub request_bytes : ℕ
  pub forwarded_bytes : ℕ
  pub redactions_total : ℕ
  pub redactions_by_type : BTreeMap ℕ

-- The entries of a report are added as `ScanReport::merge` adds them; a report without entries
-- returns early.
unfoldable pub add_counts : BTreeMap ℕ → BTreeMap ℕ → BTreeMap ℕ
add_counts by_type [] = by_type
add_counts by_type (entry ∷ entries) = merge_counts by_type (entry ∷ entries)

unfoldable pub record_report : ProxyMetrics → ScanReport → ProxyMetrics
unfolding add_counts
record_report metrics report = record metrics {
  redactions_total = fetch_add metrics.redactions_total report.total;
  redactions_by_type = add_counts metrics.redactions_by_type report.by_type;
}

unfoldable pub count_kind : ProxyMetrics → DetectorKind → ProxyMetrics
count_kind metrics kind = record metrics {
  redactions_total = fetch_add metrics.redactions_total 1;
  redactions_by_type =
      alter (as_str kind) 0 (λ count. saturating_add count 1) metrics.redactions_by_type;
}

unfoldable pub prometheus_escape_label_value : Bytes → Bytes
prometheus_escape_label_value [] = []
prometheus_escape_label_value (ch ∷ input) =
    let rest = prometheus_escape_label_value input in
    if ch == b'\\'
    then b'\\' ∷ b'\\' ∷ rest
    else if ch == b'"'
    then b'\\' ∷ b'"' ∷ rest
    else if ch == b'\n'
    then b'\\' ∷ b'n' ∷ rest
    else ch ∷ rest
