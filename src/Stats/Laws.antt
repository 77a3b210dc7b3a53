-- ===== src/Stats/Laws.antt =====
-- Reports count detections: the invariant of a report, and what `record` and `merge` do to it.
use privacy_proxy.Base.{ℕ, ◌+◌, ◌≤◌, min, [], ◌∷◌, if◌then◌else◌, ◌≡◌, refl, arith, true, ◌↔◌}
use privacy_proxy.Text.{Bytes, equal}
use privacy_proxy.Text.Laws.{equal_iff}
use privacy_proxy.BTreeMap.{BTreeMap, get, alter, or_start, IsSorted}
use privacy_proxy.BTreeMap.Laws.{get-alter, IsSorted-alter, get-Above, get-less}
use privacy_proxy.Config.{DetectorKind, as_str}
use privacy_proxy.Stats.{
  u64_max, saturating_add, ScanReport, default_report, record_kind, merge_counts, merge,
  report_is_empty, count_of,
}

abbrev pub sum : BTreeMap ℕ → ℕ
sum [] = 0
sum ((_, count) ∷ rest) = count + sum rest

abbrev pub Fits : BTreeMap ℕ → Type 0
Fits [] = Unit
Fits ((_, count) ∷ rest) = (count ≤ u64_max) × Fits rest

-- The names are in order, the counters are u64 values, and the total is their sum, as far as a u64
-- value can hold it.
pub record IsReport (report : ScanReport) : Type 0 where
  pub sorted : IsSorted report.by_type
  pub fits : Fits report.by_type
  pub balanced : report.total ≡ min (sum report.by_type) u64_max

pub IsReport-default : IsReport default_report
IsReport-default = record { sorted = tt; fits = tt; balanced = refl }

-- What an addition to one counter does, for `record` and `merge` alike.
abbrev pub add : ℕ → ℕ → ℕ
add count n = saturating_add n count

pub Fits-alter :
    (name : Bytes) (count : ℕ) (m : BTreeMap ℕ) → Fits m → Fits (alter name 0 (add count) m)
unfolding alter
Fits-alter name count [] h = ground arith
Fits-alter name count ((k, n) ∷ m) h = ground (arith, Fits-alter name count m)

sum-alter :
    (name : Bytes) (count : ℕ) (m : BTreeMap ℕ)
    → min (sum (alter name 0 (add count) m)) u64_max ≡ min (sum m + count) u64_max
unfolding alter
sum-alter name count [] = ground arith
sum-alter name count ((k, n) ∷ m) = ground (arith, sum-alter name count m)

-- `record` keeps a report a report.
pub record_kind-IsReport :
    (report : ScanReport) (kind : DetectorKind)
    → IsReport report
    → IsReport (record_kind report kind)
unfolding record_kind
record_kind-IsReport report kind h = record {
  sorted = IsSorted-alter (as_str kind) 0 (add 1) report.by_type h.sorted;
  fits = Fits-alter (as_str kind) 1 report.by_type h.fits;
  balanced = omega (arith, h.balanced, sum-alter (as_str kind) 1 report.by_type);
}

module _ where
  pub merge_counts-IsSorted : (m other : BTreeMap ℕ) → IsSorted m → IsSorted (merge_counts m other)
  unfolding merge_counts
  merge_counts-IsSorted m [] h = h
  merge_counts-IsSorted m ((k, n) ∷ other) h =
      merge_counts-IsSorted (alter k 0 (add n) m) other (IsSorted-alter k 0 (add n) m h)

  pub merge_counts-Fits : (m other : BTreeMap ℕ) → Fits m → Fits (merge_counts m other)
  unfolding merge_counts
  merge_counts-Fits m [] h = h
  merge_counts-Fits m ((k, n) ∷ other) h =
      merge_counts-Fits (alter k 0 (add n) m) other (Fits-alter k n m h)

  merge_counts-sum :
      (m other : BTreeMap ℕ)
      → min (sum (merge_counts m other)) u64_max ≡ min (sum m + sum other) u64_max
  unfolding merge_counts
  merge_counts-sum m [] = omega arith
  merge_counts-sum m ((k, n) ∷ other) =
      omega (arith, merge_counts-sum (alter k 0 (add n) m) other, sum-alter k n m)

-- `merge` of two reports is a report.
pub merge-IsReport :
    (report other : ScanReport) → IsReport report → IsReport other → IsReport (merge report other)
unfolding merge
merge-IsReport report other h k = record {
  sorted = merge_counts-IsSorted report.by_type other.by_type h.sorted;
  fits = merge_counts-Fits report.by_type other.by_type h.fits;
  balanced = omega (arith, h.balanced, k.balanced, merge_counts-sum report.by_type other.by_type);
}

abbrev pub at : Bytes → BTreeMap ℕ → ℕ
at name m = or_start (get name m) 0

pub at-alter :
    (name j : Bytes) (count : ℕ) (m : BTreeMap ℕ)
    → at j (alter name 0 (add count) m)
      ≡ (if equal name j then saturating_add (at name m) count else at j m)
at-alter name j count m = ground (arith, get-alter name j 0 (add count) m)

pub at-le : (name : Bytes) (m : BTreeMap ℕ) → Fits m → at name m ≤ u64_max
unfolding get
at-le name [] h = omega arith
at-le name ((k, n) ∷ m) h = ground (arith, at-le name m)

pub at-merge_counts :
    (name : Bytes) (m other : BTreeMap ℕ)
    → Fits m
    → IsSorted other
    → at name (merge_counts m other) ≡ saturating_add (at name m) (at name other)
unfolding merge_counts get
at-merge_counts name m [] h s = omega (arith, at-le name m h)
at-merge_counts name m ((k, n) ∷ other) h s = ground (
  arith,
  at-merge_counts name (alter k 0 (add n) m) other (Fits-alter k n m h) s.1,
  at-alter k name n m,
  at-le name m h,
  equal_iff k name,
  get-Above k other s.0,
  get-less name k other,
)

-- After `record`, the detector's counter is one higher, up to the bound of u64, and every other
-- counter is as before.
pub count_of-record_kind :
    (report : ScanReport) (kind : DetectorKind) (name : Bytes)
    → count_of name (record_kind report kind) ≡ (
        if equal (as_str kind) name
        then saturating_add (count_of name report) 1
        else count_of name report)
unfolding record_kind
count_of-record_kind report kind name =
    ground (arith, at-alter (as_str kind) name 1 report.by_type, equal_iff (as_str kind) name)

-- Each counter of a merged report is the saturated sum of the two counters of that name.
pub count_of-merge :
    (report other : ScanReport) (name : Bytes)
    → IsReport report
    → IsReport other
    → count_of name (merge report other)
      ≡ saturating_add (count_of name report) (count_of name other)
unfolding merge
count_of-merge report other name h k =
    at-merge_counts name report.by_type other.by_type h.fits k.sorted

-- A report is empty exactly when every counter in it is 0.
pub report_is_empty_iff :
    (report : ScanReport)
    → IsReport report
    → (report_is_empty report ≡ true) ↔ (sum report.by_type ≡ 0)
unfolding report_is_empty
report_is_empty_iff report h = ground (arith, h.balanced)
