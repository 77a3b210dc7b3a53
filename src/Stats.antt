-- ===== src/Stats.antt =====
-- crates/privacy_proxy_core/src/stats.rs: the counts of detections. The counters are u64, and their
-- additions saturate.
pub mod Laws
pub mod Counting
use privacy_proxy.Base.{ℕ, ◌+◌, ◌-◌, ◌^◌, min, Bool, List, [], ◌∷◌, ◌==◌, Option, none, some}
use privacy_proxy.Text.{Bytes}
use privacy_proxy.BTreeMap.{BTreeMap, get, alter, or_start}
use privacy_proxy.Config.{DetectorKind, as_str}

abbrev pub u64_max : ℕ
u64_max = 2 ^ 64 - 1

-- `a.saturating_add(b)`
abbrev pub saturating_add : ℕ → ℕ → ℕ
saturating_add a b = min (a + b) u64_max

pub record ScanReport : Type 0 where
  pub total : ℕ
  pub by_type : BTreeMap ℕ

-- `ScanReport::default`
abbrev pub default_report : ScanReport
default_report = record { total = 0; by_type = [] }

unfoldable pub record_kind : ScanReport → DetectorKind → ScanReport
record_kind report kind = record {
  total = saturating_add report.total 1;
  by_type = alter (as_str kind) 0 (λ count. saturating_add count 1) report.by_type;
}

-- `for (kind, count) in other { … }`
unfoldable pub merge_counts : BTreeMap ℕ → BTreeMap ℕ → BTreeMap ℕ
merge_counts by_type [] = by_type
merge_counts by_type ((kind, count) ∷ other) =
    merge_counts (alter kind 0 (λ current. saturating_add current count) by_type) other

unfoldable pub merge : ScanReport → ScanReport → ScanReport
unfolding merge_counts
merge report other = record {
  total = saturating_add report.total other.total;
  by_type = merge_counts report.by_type other.by_type;
}

pub report_is_empty : ScanReport → Bool
report_is_empty report = report.total == 0

-- The counter that the report holds under a name; 0 where it holds none.
abbrev pub count_of : Bytes → ScanReport → ℕ
count_of name report = or_start (get name report.by_type) 0
