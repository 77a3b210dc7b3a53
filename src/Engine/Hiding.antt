-- ===== src/Engine/Hiding.antt =====
-- What a redacted value can still tell: nothing of the values behind sensitive keys.
use privacy_proxy.Base.{Option, none, some, ◌≢◌, ◌≡◌, refl, ◌∙◌, ap, sym}
use privacy_proxy.Text.{Bytes}
use privacy_proxy.Error.{Result, ok, err, ◌>>=◌}
use privacy_proxy.Stats.{ScanReport, default_report, record_kind, merge}
use privacy_proxy.Config.{Mode, mask, hash, drop, DetectorKind}
use privacy_proxy.Json.{
  Value, Items, Fields, null, bool, number, string, array, object, nil, cons, end, field, insert,
  push,
}
use privacy_proxy.External.{External}
use privacy_proxy.Policy.{ReplacementPolicy}
use privacy_proxy.Engine.Patterns.{Engine}
use privacy_proxy.Engine.Walk.{
  sensitive_key, replaced, put_sensitive, redact_value_inner, redact_object, redact_array, at_key,
}
use privacy_proxy.Engine.Masking.{mask_text, replacement-mask_text, mask-Replaces}
use privacy_proxy.Engine.Total.Run.{WritesJson, material_total}

bind_congruent :
    {A B : Type 0} (m n : Result A) (f g : A → Result B)
    → m ≡ n
    → ((a : A) → f a ≡ g a)
    → (m >>= f) ≡ (n >>= g)
bind_congruent (ok a) n f g e h = h a ∙ ap (λ r. r >>= g) e
bind_congruent (err e') n f g e h = ap (λ r. r >>= g) e

module _ (x : External) (engine : Engine x) where
  -- The value with `null` behind every sensitive key, at any depth.
  unfoldable mutual
    pub erase : Value → Value
    erase (object fields) = object (erase_fields fields)
    erase (array items) = array (erase_items items)
    erase null = null
    erase (bool b) = bool b
    erase (number n) = number n
    erase (string text) = string text

    pub erase_fields : Fields → Fields
    erase_fields end = end
    erase_fields (field key value rest) =
        field key (elim (sensitive_key x engine key) [ none ↦ erase value | some _ ↦ null ])
          (erase_fields rest)

    pub erase_items : Items → Items
    erase_items nil = nil
    erase_items (cons item rest) = cons (erase item) (erase_items rest)

module _ (x : External) (engine : Engine x) (policy : ReplacementPolicy)
    (writes : WritesJson x) where
  -- In mode `mask` the value behind a sensitive key has no part in what is put there.
  replaced_mask :
      policy.mode ≡ mask
      → (kind : DetectorKind) (value : Value)
      → replaced x engine policy kind value ≡ ok (string (mask_text kind))
  unfolding replaced
  replaced_mask m kind value =
      let (material, e) = material_total x engine policy (mask-Replaces x policy m) writes value in
      rw (e, replacement-mask_text x policy m kind material)

  -- What is put at a sensitive key, by mode.
  put_in :
      (mode : Mode) (kind : DetectorKind) (key : Bytes) (value value' : Value) (output : Fields)
      → policy.mode ≡ mode
      → mode ≢ hash
      → put_sensitive x engine policy mode kind key value output
        ≡ put_sensitive x engine policy mode kind key value' output
  unfolding put_sensitive
  put_in drop kind key value value' output m h = refl
  put_in mask kind key value value' output m h =
      rw (replaced_mask m kind value, replaced_mask m kind value')
  put_in hash kind key value value' output m h = absurd (h refl)

  module _ (no_hash : policy.mode ≢ hash) where
    at_key_erased :
        (o : Option DetectorKind) (key : Bytes) (value : Value) (rest output : Fields)
        (stats : ScanReport)
        → redact_value_inner x engine policy (erase x engine value)
          ≡ redact_value_inner x engine policy value
        → ((output' : Fields) (stats' : ScanReport)
            → redact_object x engine policy (erase_fields x engine rest) output' stats'
              ≡ redact_object x engine policy rest output' stats')
        → at_key x engine policy o key
            (elim o [ none ↦ erase x engine value | some _ ↦ null ])
            (erase_fields x engine rest)
            output
            stats
          ≡ at_key x engine policy o key value rest output stats
    at_key_erased none key value rest output stats e h =
        bind_congruent (redact_value_inner x engine policy (erase x engine value)) _ _ _ e
          (λ child. h (insert key child.0 output) (merge stats child.1))
    at_key_erased (some kind) key value rest output stats e h =
        bind_congruent (put_sensitive x engine policy policy.mode kind key null output) _ _ _
          (put_in policy.mode kind key null value output refl no_hash)
          (λ output'. h output' (record_kind stats kind))

    mutual
      unfolding redact_value_inner erase

      erase_same :
          (value : Value)
          → redact_value_inner x engine policy (erase x engine value)
            ≡ redact_value_inner x engine policy value
      erase_same (object fields) = erase_same_fields fields end default_report
      erase_same (array items) = erase_same_items items nil default_report
      erase_same null = refl
      erase_same (bool b) = refl
      erase_same (number n) = refl
      erase_same (string text) = refl

      erase_same_fields :
          (fields output : Fields) (stats : ScanReport)
          → redact_object x engine policy (erase_fields x engine fields) output stats
            ≡ redact_object x engine policy fields output stats
      erase_same_fields end output stats = refl
      erase_same_fields (field key value rest) output stats =
          at_key_erased (sensitive_key x engine key) key value rest output stats (erase_same value)
            (λ output' stats'. erase_same_fields rest output' stats')

      erase_same_items :
          (items output : Items) (stats : ScanReport)
          → redact_array x engine policy (erase_items x engine items) output stats
            ≡ redact_array x engine policy items output stats
      erase_same_items nil output stats = refl
      erase_same_items (cons item rest) output stats =
          bind_congruent (redact_value_inner x engine policy (erase x engine item)) _ _ _
            (erase_same item)
            (λ child. erase_same_items rest (push output child.0) (merge stats child.1))

-- In modes `mask` and `drop`, if JSON values can be written, two values that differ only behind
-- sensitive keys are redacted to the same value with the same report.
pub redact_value-erase :
    (x : External) (engine : Engine x) (policy : ReplacementPolicy)
    → WritesJson x
    → policy.mode ≢ hash
    → (a b : Value) → erase x engine a ≡ erase x engine b
    → redact_value_inner x engine policy a ≡ redact_value_inner x engine policy b
redact_value-erase x engine policy writes no_hash a b e =
    sym (erase_same x engine policy writes no_hash a)
    ∙ ap (redact_value_inner x engine policy) e
    ∙ erase_same x engine policy writes no_hash b
