-- ===== src/Proxy/Metrics/Laws.antt =====
-- What the counters hold, and escaped label values.
use privacy_proxy.Base.{
  ℕ, Bool, true, false, [], ◌∷◌, ◌++◌, ◌==◌, if◌then◌else◌, ◌≡◌, refl, sym, ap, ◌∙◌, subst, arith,
}
use privacy_proxy.Text.{Bytes}
use privacy_proxy.BTreeMap.{BTreeMap, get, or_start, IsSorted}
use privacy_proxy.Stats.{ScanReport, saturating_add, merge_counts, count_of}
use privacy_proxy.Stats.Laws.{
  IsReport, Fits, merge_counts-IsSorted, merge_counts-Fits, at-merge_counts,
}
use privacy_proxy.Proxy.Metrics.{
  ProxyMetrics, add_counts, record_report, prometheus_escape_label_value,
}

pub add_counts-merge_counts :
    (by_type other : BTreeMap ℕ) → add_counts by_type other ≡ merge_counts by_type other
unfolding add_counts merge_counts
add_counts-merge_counts by_type [] = refl
add_counts-merge_counts by_type (entry ∷ entries) = refl

-- The counter of a name.
abbrev pub counter : Bytes → ProxyMetrics → ℕ
counter name metrics = or_start (get name metrics.redactions_by_type) 0

-- The counters by type hold at most what a u64 holds, under sorted names.
pub record IsMetrics (metrics : ProxyMetrics) : Type 0 where
  pub sorted : IsSorted metrics.redactions_by_type
  pub fits : Fits metrics.redactions_by_type

-- Recording a well-formed report keeps the counters by type well formed, and adds to each of them
-- what the report counts under its name, up to saturation.
pub record_report-IsMetrics :
    (metrics : ProxyMetrics) (report : ScanReport) (name : Bytes)
    → IsMetrics metrics
    → IsReport report
    → IsMetrics (record_report metrics report)
      × (counter name (record_report metrics report)
          ≡ saturating_add (counter name metrics) (count_of name report))
unfolding record_report
record_report-IsMetrics metrics report name h k =
    let same = add_counts-merge_counts metrics.redactions_by_type report.by_type in
    (
      record {
        sorted =
            subst IsSorted (sym same)
              (merge_counts-IsSorted metrics.redactions_by_type report.by_type h.sorted);
        fits =
            subst Fits (sym same)
              (merge_counts-Fits metrics.redactions_by_type report.by_type h.fits);
      },
      ap (λ m. or_start (get name m) 0) same
          ∙ at-merge_counts name metrics.redactions_by_type report.by_type h.fits k.sorted,
    )

-- The reader of an escaped label value, behind a backslash or not, up to a quote that is not escaped:
-- the value, and what follows the quote.
pub unescape : Bool → Bytes → Bytes × Bytes
unescape escaped [] = ([], [])
unescape true (ch ∷ text) =
    let rest = unescape false text in ((if ch == b'n' then b'\n' else ch) ∷ rest.0, rest.1)
unescape false (ch ∷ text) =
    let plain = unescape false text in
    let escaped = unescape true text in
    if ch == b'"' then ([], text) else if ch == b'\\' then escaped else (ch ∷ plain.0, plain.1)

-- An escaped label value with a quote behind it is read back as the value, whatever follows: no
-- value ends its label early.
pub unescape-prometheus_escape_label_value :
    (value rest : Bytes)
    → unescape false (prometheus_escape_label_value value ++ b'"' ∷ rest) ≡ (value, rest)
unfolding unescape prometheus_escape_label_value
unescape-prometheus_escape_label_value [] rest = refl
unescape-prometheus_escape_label_value (ch ∷ value) rest =
    ground (arith, unescape-prometheus_escape_label_value value rest)
