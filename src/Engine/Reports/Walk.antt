-- ===== src/Engine/Reports/Walk.antt =====
-- The reports of the walk over a value.
use privacy_proxy.Base.{true, Option, none, some, ◌≡◌, refl}
use privacy_proxy.Text.{Bytes}
use privacy_proxy.Error.{Result, ok, Holds, ok-Holds, bind-Holds}
use privacy_proxy.Stats.{ScanReport, default_report, record_kind, merge}
use privacy_proxy.Config.{DetectorKind}
use privacy_proxy.Json.{
  Value, Items, Fields, null, bool, number, string, array, object, nil, cons, end, field, push,
}
use privacy_proxy.External.{External}
use privacy_proxy.Policy.{ReplacementPolicy}
use privacy_proxy.Engine.Patterns.{Engine, is_enabled}
use privacy_proxy.Engine.Walk.{
  sensitive_key, scan_value_inner, scan_fields, scan_items, put_sensitive, redact_value_inner,
  redact_object, redact_array,
}
use privacy_proxy.Engine.Reports.{Piece}
use privacy_proxy.Engine.Reports.Sound.{
  Sound, default-Sound, record_kind-Sound, merge-Sound, redact_str-Sound, scan_str-Sound,
  sensitive_key-enabled,
}

module _ (x : External) (engine : Engine x) where
  -- By the detector that a key calls for, which is enabled.
  keyed-Holds :
      {A : Type 0} (P : A → Type 0) (key : Bytes) (o : Option DetectorKind)
      → sensitive_key x engine key ≡ o
      → (m : Result A) (f : DetectorKind → Result A) → Holds P m
      → ((kind : DetectorKind) → is_enabled x engine kind ≡ true → Holds P (f kind))
      → Holds P (elim o [ none ↦ m | some kind ↦ f kind ])
  keyed-Holds P key none e m f p h b run = p b run
  keyed-Holds P key (some kind) e m f p h b run =
      h kind (sensitive_key-enabled x engine key kind e) b run

  mutual
    unfolding scan_value_inner

    scan_inner-Sound : (value : Value) → Holds (Sound x engine) (scan_value_inner x engine value)
    scan_inner-Sound (object fields) =
        scan_fields-Sound fields default_report (default-Sound x engine)
    scan_inner-Sound (array items) = scan_items-Sound items default_report (default-Sound x engine)
    scan_inner-Sound (string text) = scan_str-Sound x engine text
    scan_inner-Sound null = ok-Holds (Sound x engine) _ (default-Sound x engine)
    scan_inner-Sound (bool b) = ok-Holds (Sound x engine) _ (default-Sound x engine)
    scan_inner-Sound (number n) = ok-Holds (Sound x engine) _ (default-Sound x engine)

    scan_fields-Sound :
        (fields : Fields) (stats : ScanReport)
        → Sound x engine stats
        → Holds (Sound x engine) (scan_fields x engine fields stats)
    scan_fields-Sound end stats p = ok-Holds (Sound x engine) stats p
    scan_fields-Sound (field key value rest) stats p =
        keyed-Holds (Sound x engine) key (sensitive_key x engine key) refl _ _
          (bind-Holds (Sound x engine) (Sound x engine) _ _ (scan_inner-Sound value) (λ child q.
            scan_fields-Sound rest (merge stats child) (merge-Sound x engine stats child p q)))
          (λ kind e.
            scan_fields-Sound rest (record_kind stats kind)
              (record_kind-Sound x engine kind e stats p))

    scan_items-Sound :
        (items : Items) (stats : ScanReport)
        → Sound x engine stats
        → Holds (Sound x engine) (scan_items x engine items stats)
    scan_items-Sound nil stats p = ok-Holds (Sound x engine) stats p
    scan_items-Sound (cons item rest) stats p =
        bind-Holds (Sound x engine) (Sound x engine) _ _ (scan_inner-Sound item) (λ child q.
          scan_items-Sound rest (merge stats child) (merge-Sound x engine stats child p q))

  module _ (policy : ReplacementPolicy) where
    abbrev Redacted : Value × ScanReport → Type 0
    Redacted = Piece (Sound x engine)

    mutual
      unfolding redact_value_inner

      redact_inner-Sound :
          (value : Value) → Holds Redacted (redact_value_inner x engine policy value)
      redact_inner-Sound (object fields) =
          redact_object-Sound fields end default_report (default-Sound x engine)
      redact_inner-Sound (array items) =
          redact_array-Sound items nil default_report (default-Sound x engine)
      redact_inner-Sound (string text) =
          bind-Holds (Piece (Sound x engine)) Redacted _ _ (redact_str-Sound x engine policy text)
            (λ result q. ok-Holds Redacted _ q)
      redact_inner-Sound null = ok-Holds Redacted _ (default-Sound x engine)
      redact_inner-Sound (bool b) = ok-Holds Redacted _ (default-Sound x engine)
      redact_inner-Sound (number n) = ok-Holds Redacted _ (default-Sound x engine)

      redact_object-Sound :
          (fields output : Fields) (stats : ScanReport)
          → Sound x engine stats
          → Holds Redacted (redact_object x engine policy fields output stats)
      redact_object-Sound end output stats p = ok-Holds Redacted _ p
      redact_object-Sound (field key value rest) output stats p =
          keyed-Holds Redacted key (sensitive_key x engine key) refl _ _
            (bind-Holds Redacted Redacted _ _ (redact_inner-Sound value) (λ child q.
              redact_object-Sound rest _ (merge stats child.1)
                (merge-Sound x engine stats child.1 p q)))
            (λ kind e.
              bind-Holds (λ written. Unit) Redacted
                (put_sensitive x engine policy policy.mode kind key value output) _
                (λ written run. tt)
                (λ written t.
                  redact_object-Sound rest written (record_kind stats kind)
                    (record_kind-Sound x engine kind e stats p)))

      redact_array-Sound :
          (items output : Items) (stats : ScanReport)
          → Sound x engine stats
          → Holds Redacted (redact_array x engine policy items output stats)
      redact_array-Sound nil output stats p = ok-Holds Redacted _ p
      redact_array-Sound (cons item rest) output stats p =
          bind-Holds Redacted Redacted _ _ (redact_inner-Sound item) (λ child q.
            redact_array-Sound rest (push output child.0) (merge stats child.1)
              (merge-Sound x engine stats child.1 p q))

-- Every report that a redaction or a scan of a value returns is well formed, so its total is the sum
-- of its counters as far as a u64 holds it, and it counts detections of enabled detectors only.
pub reports-Sound :
    (x : External) (engine : Engine x) (policy : ReplacementPolicy) (value redacted : Value)
    (report scanned : ScanReport)
    → redact_value_inner x engine policy value ≡ ok (redacted, report)
    → scan_value_inner x engine value ≡ ok scanned
    → Sound x engine report × Sound x engine scanned
reports-Sound x engine policy value redacted report scanned e f = (
  redact_inner-Sound x engine policy value (redacted, report) e,
  scan_inner-Sound x engine value scanned f,
)
