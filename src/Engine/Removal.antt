-- ===== src/Engine/Removal.antt =====
-- What stands behind the sensitive keys of a redacted value.
use privacy_proxy.Base.{none, some, inl, inr, ◌≡◌, refl, ap, sym, subst, Option-cases, Bool-cases}
use privacy_proxy.Text.{Bytes, equal}
use privacy_proxy.Text.Laws.{equal_iff}
use privacy_proxy.BTreeMap.{less}
use privacy_proxy.Error.{ok, bind-eq-ok, ok-injective}
use privacy_proxy.Stats.{ScanReport, default_report, record_kind, merge}
use privacy_proxy.Config.{Mode, mask, hash, drop, DetectorKind}
use privacy_proxy.Json.{
  Value, Items, Fields, null, bool, number, string, array, object, nil, cons, end, field, insert,
  push,
}
use privacy_proxy.External.{External}
use privacy_proxy.Policy.{ReplacementPolicy, replacement}
use privacy_proxy.Engine.Patterns.{Engine}
use privacy_proxy.Engine.Text.{redact_str_with_policy}
use privacy_proxy.Engine.Walk.{
  sensitive_key, value_hash_material, replaced, put_sensitive, redact_value_inner, redact_object,
  redact_array, at_key,
}

module _ (x : External) (engine : Engine x) (policy : ReplacementPolicy) where
  -- A replacement for the detector.
  abbrev pub IsReplacement : DetectorKind → Value → Type 0
  IsReplacement kind value =
      (material : Bytes) × (text : Bytes) × (replacement x policy kind material ≡ ok text)
      × (value ≡ string text)

  -- What may stand behind a sensitive key: nothing at all in mode `drop`.
  abbrev pub Allowed : Mode → DetectorKind → Value → Type 0
  Allowed drop kind value = ⊥
  Allowed mask kind value = IsReplacement kind value
  Allowed hash kind value = IsReplacement kind value

  -- At every depth, a sensitive key has an allowed value.
  abbrev mutual
    pub IsRedacted : Value → Type 0
    IsRedacted (object fields) = AreRedacted fields
    IsRedacted (array items) = ItemsRedacted items
    IsRedacted null = Unit
    IsRedacted (bool b) = Unit
    IsRedacted (number n) = Unit
    IsRedacted (string text) = Unit

    pub AreRedacted : Fields → Type 0
    AreRedacted end = Unit
    AreRedacted (field key value rest) =
        (elim (sensitive_key x engine key) [
          | none ↦ IsRedacted value
          | some kind ↦ Allowed policy.mode kind value
        ])
        × AreRedacted rest

    pub ItemsRedacted : Items → Type 0
    ItemsRedacted nil = Unit
    ItemsRedacted (cons item rest) = IsRedacted item × ItemsRedacted rest

  abbrev AtKey : Bytes → Value → Type 0
  AtKey key value = elim (sensitive_key x engine key) [
    | none ↦ IsRedacted value
    | some kind ↦ Allowed policy.mode kind value
  ]

  insert-AreRedacted :
      (key : Bytes) (value : Value) (output : Fields)
      → AtKey key value
      → AreRedacted output
      → AreRedacted (insert key value output)
  unfolding insert
  insert-AreRedacted key value end h k = (h, tt)
  insert-AreRedacted key value (field j v rest) h k = elim (Bool-cases (equal j key)) [
    | inl same ↦ rw same (subst (λ i. AtKey i value) (sym ((equal_iff j key).0 same)) h, k.1)
    | inr other ↦ elim (Bool-cases (less key j)) [
      | inl before ↦ rw (other, before) (h, k)
      | inr behind ↦ rw (other, behind) (k.0, insert-AreRedacted key value rest h k.1)
    ]
  ]

  push-ItemsRedacted :
      (output : Items) (value : Value)
      → ItemsRedacted output
      → IsRedacted value
      → ItemsRedacted (push output value)
  unfolding push
  push-ItemsRedacted nil value h k = (k, tt)
  push-ItemsRedacted (cons v rest) value h k = (h.0, push-ItemsRedacted rest value h.1 k)

  replaced-IsReplacement :
      (kind : DetectorKind) (value text : Value)
      → replaced x engine policy kind value ≡ ok text
      → IsReplacement kind text
  unfolding replaced
  replaced-IsReplacement kind value text h =
      let (material, _, later) = bind-eq-ok (value_hash_material x engine value) _ h in
      let (t, r, out) = bind-eq-ok (replacement x policy kind material) _ later in
      (material, t, r, cc (out))

  at_sensitive :
      (key : Bytes) (kind : DetectorKind) (value : Value)
      → sensitive_key x engine key ≡ some kind
      → Allowed policy.mode kind value
      → AtKey key value
  at_sensitive key kind value e h =
      subst (λ o. elim o [ none ↦ IsRedacted value | some k ↦ Allowed policy.mode k value ]) (sym e)
        h

  at_plain :
      (key : Bytes) (value : Value)
      → sensitive_key x engine key ≡ none
      → IsRedacted value
      → AtKey key value
  at_plain key value e h =
      subst (λ o. elim o [ none ↦ IsRedacted value | some k ↦ Allowed policy.mode k value ]) (sym e)
        h

  put-AreRedacted :
      (mode : Mode) (kind : DetectorKind) (key : Bytes) (value : Value) (output output' : Fields)
      → policy.mode ≡ mode
      → sensitive_key x engine key ≡ some kind
      → put_sensitive x engine policy mode kind key value output ≡ ok output'
      → AreRedacted output
      → AreRedacted output'
  unfolding put_sensitive
  put-AreRedacted drop kind key value output output' m e h k =
      let same : output ≡ output' = ok-injective h in subst AreRedacted same k
  put-AreRedacted mask kind key value output output' m e h k =
      let (text, r, out) = bind-eq-ok (replaced x engine policy kind value) _ h in
      let allowed =
        subst (λ n. Allowed n kind text) (sym m) (replaced-IsReplacement kind value text r) in
      subst AreRedacted (ok-injective out)
        (insert-AreRedacted key text output (at_sensitive key kind text e allowed) k)
  put-AreRedacted hash kind key value output output' m e h k =
      let (text, r, out) = bind-eq-ok (replaced x engine policy kind value) _ h in
      let allowed =
        subst (λ n. Allowed n kind text) (sym m) (replaced-IsReplacement kind value text r) in
      subst AreRedacted (ok-injective out)
        (insert-AreRedacted key text output (at_sensitive key kind text e allowed) k)

  mutual
    unfolding redact_value_inner

    value-IsRedacted :
        (value value' : Value) (stats' : ScanReport)
        → redact_value_inner x engine policy value ≡ ok (value', stats')
        → IsRedacted value'
    value-IsRedacted (object fields) value' stats' h =
        object-IsRedacted fields end default_report value' stats' tt h
    value-IsRedacted (array items) value' stats' h =
        array-IsRedacted items nil default_report value' stats' tt h
    value-IsRedacted (string text) value' stats' h =
        let (r, _, out) = bind-eq-ok (redact_str_with_policy x engine policy text) _ h in
        subst IsRedacted (ap (λ p. p.0) (ok-injective out)) tt
    value-IsRedacted null value' stats' h = subst IsRedacted (ap (λ p. p.0) (ok-injective h)) tt
    value-IsRedacted (bool b) value' stats' h = subst IsRedacted (ap (λ p. p.0) (ok-injective h)) tt
    value-IsRedacted (number n) value' stats' h =
        subst IsRedacted (ap (λ p. p.0) (ok-injective h)) tt

    object-IsRedacted :
        (fields output : Fields) (stats : ScanReport) (value' : Value) (stats' : ScanReport)
        → AreRedacted output
        → redact_object x engine policy fields output stats ≡ ok (value', stats')
        → IsRedacted value'
    object-IsRedacted end output stats value' stats' k h =
        subst IsRedacted (ap (λ p. p.0) (ok-injective h)) k
    object-IsRedacted (field key value rest) output stats value' stats' k h =
        elim (Option-cases (sensitive_key x engine key)) [
          | inl e ↦
              let plain =
                subst
                  (λ o. at_key x engine policy o key value rest output stats ≡ ok (value', stats'))
                  e h in
              let (child, r, later) =
                bind-eq-ok (redact_value_inner x engine policy value) _ plain in
              object-IsRedacted rest (insert key child.0 output) (merge stats child.1) value' stats'
                (insert-AreRedacted key child.0 output
                  (at_plain key child.0 e (value-IsRedacted value child.0 child.1 r)) k)
                later
          | inr (kind, e) ↦
              let put =
                subst
                  (λ o. at_key x engine policy o key value rest output stats ≡ ok (value', stats'))
                  e h in
              let (output', r, later) =
                bind-eq-ok (put_sensitive x engine policy policy.mode kind key value output) _
                  put in
              object-IsRedacted rest output' (record_kind stats kind) value' stats'
                (put-AreRedacted policy.mode kind key value output output' refl e r k) later
        ]

    array-IsRedacted :
        (items output : Items) (stats : ScanReport) (value' : Value) (stats' : ScanReport)
        → ItemsRedacted output
        → redact_array x engine policy items output stats ≡ ok (value', stats')
        → IsRedacted value'
    array-IsRedacted nil output stats value' stats' k h =
        subst IsRedacted (ap (λ p. p.0) (ok-injective h)) k
    array-IsRedacted (cons item rest) output stats value' stats' k h =
        let (child, r, later) = bind-eq-ok (redact_value_inner x engine policy item) _ h in
        array-IsRedacted rest (push output child.0) (merge stats child.1) value' stats'
          (push-ItemsRedacted output child.0 k (value-IsRedacted item child.0 child.1 r)) later

-- In a redacted value, at every depth, a sensitive key has a replacement of its detector for a
-- value; in mode `drop` there is no sensitive key.
pub redact_value-IsRedacted :
    (x : External) (engine : Engine x) (policy : ReplacementPolicy) (value value' : Value)
    (stats' : ScanReport)
    → redact_value_inner x engine policy value ≡ ok (value', stats')
    → IsRedacted x engine policy value'
redact_value-IsRedacted x engine policy value value' stats' h =
    value-IsRedacted x engine policy value value' stats' h
