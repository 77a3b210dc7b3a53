-- ===== src/Engine/Walk.antt =====
-- `Engine::redact_value_inner`, `redact_object`, `redact_array` and `scan_value_inner`: the walk over
-- a JSON value.
use privacy_proxy.Base.{Option, none, some, if◌then◌else◌}
use privacy_proxy.Text.{Bytes}
use privacy_proxy.Error.{Result, ok, ◌>>=◌, json_for_hash}
use privacy_proxy.Stats.{ScanReport, default_report, record_kind, merge}
use privacy_proxy.Config.{Mode, mask, hash, drop, DetectorKind, or_err}
use privacy_proxy.Json.{
  Value, Items, Fields, null, bool, number, string, array, object, nil, cons, end, field, insert,
  push,
}
use privacy_proxy.External.{External}
use privacy_proxy.FieldRules.{kind_for_field}
use privacy_proxy.Policy.{ReplacementPolicy, replacement}
use privacy_proxy.Engine.Patterns.{Engine, is_enabled}
use privacy_proxy.Engine.Text.{redact_str_with_policy, scan_str}

module _ (x : External) (engine : Engine x) where
  -- The enabled detector that a key calls for.
  unfoldable pub sensitive_key : Bytes → Option DetectorKind
  sensitive_key key = elim (kind_for_field engine.field_rules key) [
    | none ↦ none
    | some kind ↦ if is_enabled x engine kind then some kind else none
  ]

  unfoldable pub value_hash_material : Value → Result Bytes
  value_hash_material (string text) = ok text
  value_hash_material value = or_err json_for_hash (x.json_to_string value)

  unfoldable mutual
    pub scan_value_inner : Value → Result ScanReport
    scan_value_inner (object fields) = scan_fields fields default_report
    scan_value_inner (array items) = scan_items items default_report
    scan_value_inner (string text) = scan_str x engine text
    scan_value_inner null = ok default_report
    scan_value_inner (bool _) = ok default_report
    scan_value_inner (number _) = ok default_report

    -- The loop over an object; the second argument is `stats`.
    pub scan_fields : Fields → ScanReport → Result ScanReport
    scan_fields end stats = ok stats
    scan_fields (field key value rest) stats = elim (sensitive_key key) [
      | some kind ↦ scan_fields rest (record_kind stats kind)
      | none ↦
          (scan_value_inner value >>= λ child_stats. scan_fields rest (merge stats child_stats))
    ]

    -- The loop over an array.
    pub scan_items : Items → ScanReport → Result ScanReport
    scan_items nil stats = ok stats
    scan_items (cons item rest) stats =
        scan_value_inner item >>= λ child_stats. scan_items rest (merge stats child_stats)

  module _ (policy : ReplacementPolicy) where
    -- The text for the value of a sensitive key.
    unfoldable pub replaced : DetectorKind → Value → Result Value
    unfolding value_hash_material
    replaced kind value = do
      material ← value_hash_material value
      text ← replacement x policy kind material
      ok (string text)

    -- What the loop does to `output` at a sensitive key: `Mode::Drop` leaves it as it is.
    unfoldable pub put_sensitive : Mode → DetectorKind → Bytes → Value → Fields → Result Fields
    unfolding replaced
    put_sensitive drop kind key value output = ok output
    put_sensitive mask kind key value output = do
      text ← replaced kind value
      ok (insert key text output)
    put_sensitive hash kind key value output = do
      text ← replaced kind value
      ok (insert key text output)

    unfoldable mutual
      pub redact_value_inner : Value → Result (Value × ScanReport)
      redact_value_inner (object fields) = redact_object fields end default_report
      redact_value_inner (array items) = redact_array items nil default_report
      redact_value_inner (string text) =
          redact_str_with_policy x engine policy text >>= λ result. ok (string result.0, result.1)
      redact_value_inner null = ok (null, default_report)
      redact_value_inner (bool b) = ok (bool b, default_report)
      redact_value_inner (number n) = ok (number n, default_report)

      -- The loop of `redact_object`, with `output` and `stats`.
      pub redact_object : Fields → Fields → ScanReport → Result (Value × ScanReport)
      redact_object end output stats = ok (object output, stats)
      redact_object (field key value rest) output stats = elim (sensitive_key key) [
        | some kind ↦
            (put_sensitive policy.mode kind key value output >>= λ output'.
            redact_object rest output' (record_kind stats kind))
        | none ↦
            (redact_value_inner value >>= λ child.
            redact_object rest (insert key child.0 output) (merge stats child.1))
      ]

      -- The loop of `redact_array`.
      pub redact_array : Items → Items → ScanReport → Result (Value × ScanReport)
      redact_array nil output stats = ok (array output, stats)
      redact_array (cons item rest) output stats = redact_value_inner item >>= λ child.
          redact_array rest (push output child.0) (merge stats child.1)

    -- The body of the loop of `redact_object`, for the detector that the key calls for.
    abbrev pub at_key :
        Option DetectorKind
        → Bytes
        → Value
        → Fields
        → Fields
        → ScanReport
        → Result (Value × ScanReport)
    at_key o key value rest output stats = elim o [
      | none ↦
          (redact_value_inner value >>= λ child.
          redact_object rest (insert key child.0 output) (merge stats child.1))
      | some kind ↦
          (put_sensitive policy.mode kind key value output >>= λ output'.
          redact_object rest output' (record_kind stats kind))
    ]
