-- ===== src/Stats/Counting.antt =====
-- A report as a count of detections: what `record` and `merge` mean for the sequences of detections
-- that were made.
use privacy_proxy.Base.{
  ℕ, ◌+◌, ◌≤◌, min, List, [], ◌∷◌, ◌++◌, ◌≡◌, refl, arith, length, length-append, true, ◌↔◌, ap,
}
use mathlib.Core.Logic.{ite}
use privacy_proxy.Text.{equal}
use privacy_proxy.Text.Laws.{equal_iff}
use privacy_proxy.BTreeMap.{get}
use privacy_proxy.Config.{DetectorKind, as_str}
use privacy_proxy.Config.Laws.{DetectorKind-discrete, as_str-injective}
use privacy_proxy.Stats.{
  u64_max, saturating_add, ScanReport, default_report, record_kind, merge, count_of,
}
use privacy_proxy.Stats.Laws.{
  IsReport, IsReport-default, record_kind-IsReport, count_of-record_kind, count_of-merge, at-le,
}

-- The abstract view of a report: the detections, in any order, with how often each was made.
abbrev pub occurrences : DetectorKind → List DetectorKind → ℕ
occurrences kind [] = 0
occurrences kind (k ∷ kinds) = ite (DetectorKind-discrete k kind) 1 0 + occurrences kind kinds

-- The report of a sequence of detections.
abbrev pub record_all : ScanReport → List DetectorKind → ScanReport
record_all report [] = report
record_all report (kind ∷ kinds) = record_all (record_kind report kind) kinds

pub record_all-IsReport :
    (report : ScanReport) (kinds : List DetectorKind)
    → IsReport report
    → IsReport (record_all report kinds)
record_all-IsReport report [] h = h
record_all-IsReport report (kind ∷ kinds) h =
    record_all-IsReport (record_kind report kind) kinds (record_kind-IsReport report kind h)

same_name : (k j : DetectorKind) → (equal (as_str k) (as_str j) ≡ true) ↔ (k ≡ j)
same_name k j = (
  λ e. as_str-injective k j ((equal_iff (as_str k) (as_str j)).0 e),
  λ e. (equal_iff (as_str k) (as_str j)).1 (ap as_str e),
)

count_of-record_all :
    (report : ScanReport) (kinds : List DetectorKind) (kind : DetectorKind)
    → IsReport report
    → count_of (as_str kind) (record_all report kinds)
      ≡ min (count_of (as_str kind) report + occurrences kind kinds) u64_max
count_of-record_all report [] kind h = omega (arith, at-le (as_str kind) report.by_type h.fits)
count_of-record_all report (k ∷ kinds) kind h = ground (
  arith,
  count_of-record_all (record_kind report k) kinds kind (record_kind-IsReport report k h),
  count_of-record_kind report k (as_str kind),
  same_name k kind,
  at-le (as_str kind) report.by_type h.fits,
)

total-record_kind :
    (report : ScanReport) (kind : DetectorKind)
    → (record_kind report kind).total ≡ min (report.total + 1) u64_max
unfolding record_kind
total-record_kind report kind = refl

total-record_all :
    (report : ScanReport) (kinds : List DetectorKind)
    → report.total ≤ u64_max
    → (record_all report kinds).total ≡ min (report.total + length kinds) u64_max
total-record_all report [] h = omega arith
total-record_all report (kind ∷ kinds) h =
    let t = total-record_kind report kind in
    omega (arith, total-record_all (record_kind report kind) kinds (omega arith))

-- The report of any sequence of detections is a report; its total is their number, and the counter
-- of each detector the number of its detections, as far as a u64 value can hold these.
pub record_all_counts :
    (kinds : List DetectorKind)
    → IsReport (record_all default_report kinds)
      × ((record_all default_report kinds).total ≡ min (length kinds) u64_max)
      × ((kind : DetectorKind)
          → count_of (as_str kind) (record_all default_report kinds)
            ≡ min (occurrences kind kinds) u64_max)
unfolding get
record_all_counts kinds = (
  record_all-IsReport default_report kinds IsReport-default,
  omega (arith, total-record_all default_report kinds (omega arith)),
  λ kind. omega (arith, count_of-record_all default_report kinds kind IsReport-default),
)

occurrences-append :
    (kind : DetectorKind) (xs ys : List DetectorKind)
    → occurrences kind (xs ++ ys) ≡ occurrences kind xs + occurrences kind ys
occurrences-append kind [] ys = omega arith
occurrences-append kind (x ∷ xs) ys = omega (arith, occurrences-append kind xs ys)

total-merge :
    (report other : ScanReport)
    → (merge report other).total ≡ saturating_add report.total other.total
unfolding merge
total-merge report other = refl

-- Merging the reports of two sequences of detections gives the total and the counters of the report
-- of the one sequence followed by the other.
pub merge-record_all :
    (xs ys : List DetectorKind)
    → ((merge (record_all default_report xs) (record_all default_report ys)).total
        ≡ (record_all default_report (xs ++ ys)).total)
      × ((kind : DetectorKind)
          → count_of
              (as_str kind)
              (merge (record_all default_report xs) (record_all default_report ys))
            ≡ count_of (as_str kind) (record_all default_report (xs ++ ys)))
merge-record_all xs ys =
    let left = record_all_counts xs in
    let right = record_all_counts ys in
    let both = record_all_counts (xs ++ ys) in
    (
      omega (
        arith,
        total-merge (record_all default_report xs) (record_all default_report ys),
        left.1,
        right.1,
        both.1,
        length-append {0} xs ys,
      ),
      λ kind. omega (
        arith,
        count_of-merge (record_all default_report xs) (record_all default_report ys) (as_str kind)
            left.0 right.0,
        left.2 kind,
        right.2 kind,
        both.2 kind,
        occurrences-append kind xs ys,
      ),
    )
