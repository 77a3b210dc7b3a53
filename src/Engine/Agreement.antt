-- ===== src/Engine/Agreement.antt =====
-- In mode `mask` the report of a redaction is the report of a scan.
use privacy_proxy.Base.{Option, none, some, ◌≡◌, refl, ◌∙◌, ap}
use privacy_proxy.Text.{Bytes}
use privacy_proxy.Error.{Result, ok, err, ◌>>=◌}
use privacy_proxy.Stats.{ScanReport, default_report, record_kind, merge}
use privacy_proxy.Config.{mask, DetectorKind}
use privacy_proxy.Json.{
  Value, Items, Fields, null, bool, number, string, array, object, nil, cons, end, field, insert,
  push,
}
use privacy_proxy.External.{External}
use privacy_proxy.Policy.{ReplacementPolicy, scan_policy}
use privacy_proxy.Engine.Patterns.{Engine}
use privacy_proxy.Engine.Text.{redact_str_with_policy, scan_str}
use privacy_proxy.Engine.Walk.{
  sensitive_key, scan_value_inner, scan_fields, scan_items, put_sensitive, redact_value_inner,
  redact_object, redact_array,
}
use privacy_proxy.Engine.Masking.{redact_str-mask, mask-Replaces}
use privacy_proxy.Engine.Total.Run.{WritesJson, put_sensitive_total}

-- The report of a result.
abbrev pub stats_of {ℓ} : {A : Type ℓ} → Result (A × ScanReport) → Result ScanReport
stats_of (ok (_, stats)) = ok stats
stats_of (err e) = err e

stats_of-bind :
    {A B : Type 0} (m : Result (A × ScanReport)) (f : A × ScanReport → Result (B × ScanReport))
    (g : ScanReport → Result ScanReport) (n : Result ScanReport)
    → stats_of m ≡ n
    → ((a : A) (stats : ScanReport) → stats_of (f (a, stats)) ≡ g stats)
    → stats_of (m >>= f) ≡ (n >>= g)
stats_of-bind (ok (a, stats)) f g n e h = h a stats ∙ ap (λ r. r >>= g) e
stats_of-bind (err e') f g n e h = ap (λ r. r >>= g) e

stats_of-option :
    {A : Type 0} (o : Option DetectorKind) (m : Result (A × ScanReport))
    (f : DetectorKind → Result (A × ScanReport)) (n : Result ScanReport)
    (g : DetectorKind → Result ScanReport)
    → stats_of m ≡ n
    → ((kind : DetectorKind) → stats_of (f kind) ≡ g kind)
    → stats_of (elim o [ none ↦ m | some kind ↦ f kind ]) ≡ elim o [ none ↦ n | some kind ↦ g kind ]
stats_of-option none m f n g e h = e
stats_of-option (some kind) m f n g e h = h kind

bind_ok : {A : Type 0} (r : Result A) → (r >>= ok) ≡ r
bind_ok (ok a) = refl
bind_ok (err e) = refl

scan_str-stats_of :
    (x : External) (engine : Engine x) (text : Bytes)
    → stats_of (redact_str_with_policy x engine scan_policy text) ≡ scan_str x engine text
unfolding scan_str
scan_str-stats_of x engine text = go (redact_str_with_policy x engine scan_policy text)
  where
    go : (r : Result (Bytes × ScanReport)) → stats_of r ≡ (r >>= λ p. ok p.1)
    go (ok (a, stats)) = refl
    go (err e) = refl

module _ (x : External) (engine : Engine x) (policy : ReplacementPolicy)
    (masks : policy.mode ≡ mask) (writes : WritesJson x) where
  bind_returns :
      (kind : DetectorKind) (key : Bytes) (value : Value) (output : Fields)
      (f : Fields → Result (Value × ScanReport)) (r : Result ScanReport)
      → ((output' : Fields) → stats_of (f output') ≡ r)
      → stats_of (put_sensitive x engine policy policy.mode kind key value output >>= f) ≡ r
  bind_returns kind key value output f r h =
      let (output', e) =
        put_sensitive_total x engine policy (mask-Replaces x policy masks) writes policy.mode kind
          key value output in
      rw e (h output')

  mutual
    unfolding redact_value_inner scan_value_inner

    value_agrees :
        (value : Value)
        → stats_of (redact_value_inner x engine policy value) ≡ scan_value_inner x engine value
    value_agrees (object fields) = object_agrees fields end default_report
    value_agrees (array items) = array_agrees items nil default_report
    value_agrees (string text) =
        let same =
          ap stats_of (redact_str-mask x engine policy masks text)
          ∙ scan_str-stats_of x engine text in
        stats_of-bind (redact_str_with_policy x engine policy text) _ ok _ same (λ a stats. refl)
        ∙ bind_ok (scan_str x engine text)
    value_agrees null = refl
    value_agrees (bool b) = refl
    value_agrees (number n) = refl

    object_agrees :
        (fields output : Fields) (stats : ScanReport)
        → stats_of (redact_object x engine policy fields output stats)
          ≡ scan_fields x engine fields stats
    object_agrees end output stats = refl
    object_agrees (field key value rest) output stats =
        stats_of-option (sensitive_key x engine key) _ _ _ _
          (stats_of-bind (redact_value_inner x engine policy value) _ _ _ (value_agrees value)
            (λ a child. object_agrees rest (insert key a output) (merge stats child)))
          (λ kind.
            bind_returns kind key value output _ _
              (λ output'. object_agrees rest output' (record_kind stats kind)))

    array_agrees :
        (items output : Items) (stats : ScanReport)
        → stats_of (redact_array x engine policy items output stats)
          ≡ scan_items x engine items stats
    array_agrees nil output stats = refl
    array_agrees (cons item rest) output stats =
        stats_of-bind (redact_value_inner x engine policy item) _ _ _ (value_agrees item)
          (λ a child. array_agrees rest (push output a) (merge stats child))

-- Under a policy in mode `mask`, if JSON values can be written, redacting a value reports exactly
-- what scanning it reports, whatever the patterns match.
pub scan-redact_agree :
    (x : External) (engine : Engine x) (policy : ReplacementPolicy)
    → policy.mode ≡ mask
    → WritesJson x
    → (value : Value)
    → stats_of (redact_value_inner x engine policy value) ≡ scan_value_inner x engine value
scan-redact_agree x engine policy masks writes value =
    value_agrees x engine policy masks writes value
