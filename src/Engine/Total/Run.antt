-- ===== src/Engine/Total/Run.antt =====
-- Redaction and scanning return a result on every text and every value.
use privacy_proxy.Base.{Bool, true, false, Option, some, List, [], ◌∷◌, ◌≡◌, refl}
use privacy_proxy.Text.{Bytes}
use privacy_proxy.Error.{Returns, bind-Returns, option-Returns, json_for_hash}
use privacy_proxy.Stats.{ScanReport, default_report, record_kind, merge}
use privacy_proxy.Config.{Config, Mode, mask, hash, drop, DetectorKind, or_err}
use privacy_proxy.Json.{
  Value, Items, Fields, null, bool, number, string, array, object, nil, cons, end, field, insert,
  push,
}
use privacy_proxy.External.{External}
use privacy_proxy.Policy.{ReplacementPolicy, Replace, replacement, scan_policy}
use privacy_proxy.Policy.Laws.{AcceptsKeys, IsPolicyOf, replacement_total}
use privacy_proxy.Matches.Laws.{replace_matches_total}
use privacy_proxy.Engine.Patterns.{Engine, is_enabled}
use privacy_proxy.Engine.Replace.{
  replace_bearer_tokens, replace_cookie_headers, replace_cookie_assignments,
  replace_sensitive_url_params, replace_jwts, replace_emails, replace_ipv4_addresses,
  replace_ipv6_addresses, replace_credit_cards,
}
use privacy_proxy.Engine.Text.{
  Pass, when, both, bearer_pass, cookie_pass, ip_pass, passes, run_passes, redact_text,
  redact_str_with_policy, scan_str,
}
use privacy_proxy.Engine.Walk.{
  sensitive_key, value_hash_material, scan_value_inner, scan_fields, scan_items, replaced,
  put_sensitive, redact_value_inner, redact_object, redact_array,
}
use privacy_proxy.Engine.Total.{
  Replaces, bearer_total, cookie_header_total, cookie_assignment_total, url_total, jwt_total,
  email_total, ipv4_total, ipv6_total, credit_card_total, ibans_total,
}

abbrev Always : Pass → Type 0
Always pass = (text : Bytes) (stats : ScanReport) → Returns (pass text stats)

when_total : (b : Bool) (pass : Pass) → Always pass → Always (when b pass)
when_total false pass h text stats = ((text, stats), refl)
when_total true pass h text stats = h text stats

both_total : (first second : Pass) → Always first → Always second → Always (both first second)
both_total first second h k text stats =
    bind-Returns (first text stats) _ (h text stats) (λ r. k r.0 r.1)

abbrev AllAlways : List (DetectorKind × Pass) → Type 0
AllAlways [] = Unit
AllAlways ((_, pass) ∷ rest) = Always pass × AllAlways rest

module _ (x : External) (engine : Engine x) (replace : Replace) (replaces : Replaces replace) where
  run_passes_total :
      (ps : List (DetectorKind × Pass)) → AllAlways ps → Always (run_passes x engine replace ps)
  unfolding run_passes
  run_passes_total [] h text stats = ((text, stats), refl)
  run_passes_total ((kind, pass) ∷ rest) h text stats =
      bind-Returns (when (is_enabled x engine kind) pass text stats) _
        (when_total (is_enabled x engine kind) pass h.0 text stats)
        (λ r. run_passes_total rest h.1 r.0 r.1)

  passes_total : AllAlways (passes x engine replace)
  unfolding bearer_pass cookie_pass ip_pass replace_bearer_tokens replace_cookie_headers
      replace_cookie_assignments replace_sensitive_url_params replace_jwts replace_emails
      replace_ipv4_addresses replace_ipv6_addresses replace_credit_cards
  passes_total = (
    λ text. replace_matches_total text _ (bearer_total replace replaces text) _,
    (
      both_total _ _
          (λ text. replace_matches_total text _ (cookie_header_total replace replaces text) _)
          (λ text. replace_matches_total text _ (cookie_assignment_total replace replaces text) _),
      (
        λ text. replace_matches_total text _ (url_total replace replaces text) _,
        (
          λ text. replace_matches_total text _ (jwt_total replace replaces text) _,
          (
            λ text. replace_matches_total text _ (email_total replace replaces text) _,
            (
              both_total _ _
                  (λ text. replace_matches_total text _ (ipv4_total replace replaces text) _)
                  (λ text. replace_matches_total text _ (ipv6_total replace replaces text) _),
              (
                ibans_total x engine replace replaces,
                (
                  λ text. replace_matches_total text _ (credit_card_total replace replaces text) _,
                  tt,
                ),
              ),
            ),
          ),
        ),
      ),
    ),
  )

  redact_text_total : (input : Bytes) → Returns (redact_text x engine replace input)
  unfolding redact_text
  redact_text_total input =
      run_passes_total (passes x engine replace) passes_total input default_report

pub redact_str_total :
    (x : External) (engine : Engine x) (policy : ReplacementPolicy)
    → Replaces (replacement x policy)
    → (input : Bytes) → Returns (redact_str_with_policy x engine policy input)
unfolding redact_str_with_policy
redact_str_total x engine policy replaces =
    redact_text_total x engine (replacement x policy) replaces

pub scan-Replaces : (x : External) → Replaces (replacement x scan_policy)
unfolding replacement
scan-Replaces x kind secret = (_, refl)

pub scan_str_total :
    (x : External) (engine : Engine x) (text : Bytes) → Returns (scan_str x engine text)
unfolding scan_str
scan_str_total x engine text =
    bind-Returns _ _ (redact_str_total x engine scan_policy (scan-Replaces x) text) (λ r. (_, refl))

module _ (x : External) (engine : Engine x) where
  mutual
    unfolding scan_value_inner

    scan_inner_total : (value : Value) → Returns (scan_value_inner x engine value)
    scan_inner_total (object fields) = scan_fields_total fields default_report
    scan_inner_total (array items) = scan_items_total items default_report
    scan_inner_total (string text) = scan_str_total x engine text
    scan_inner_total null = (_, refl)
    scan_inner_total (bool b) = (_, refl)
    scan_inner_total (number n) = (_, refl)

    scan_fields_total :
        (fields : Fields) (stats : ScanReport) → Returns (scan_fields x engine fields stats)
    scan_fields_total end stats = (stats, refl)
    scan_fields_total (field key value rest) stats =
        option-Returns (sensitive_key x engine key) _ _
          (bind-Returns _ _ (scan_inner_total value)
            (λ child. scan_fields_total rest (merge stats child)))
          (λ kind. scan_fields_total rest (record_kind stats kind))

    scan_items_total :
        (items : Items) (stats : ScanReport) → Returns (scan_items x engine items stats)
    scan_items_total nil stats = (stats, refl)
    scan_items_total (cons item rest) stats =
        bind-Returns _ _ (scan_inner_total item)
          (λ child. scan_items_total rest (merge stats child))

-- Scanning never fails: every value has a report.
pub scan_value_total :
    (x : External) (engine : Engine x) (value : Value) → Returns (scan_value_inner x engine value)
scan_value_total x engine value = scan_inner_total x engine value

-- As `serde_json` documents for a `Value`: the writer does not fail.
abbrev pub WritesJson : External → Type 0
WritesJson x = (value : Value) → (text : Bytes) × (x.json_to_string value ≡ some text)

or_err_total : {A : Type 0} (o : Option A) (a : A) → o ≡ some a → Returns (or_err json_for_hash o)
or_err_total o a e = (a, rw e)

module _ (x : External) (engine : Engine x) (policy : ReplacementPolicy)
    (replaces : Replaces (replacement x policy)) (writes : WritesJson x) where
  pub material_total : (value : Value) → Returns (value_hash_material x engine value)
  unfolding value_hash_material
  material_total (string text) = (text, refl)
  material_total value =
      let (text, e) = writes value in or_err_total (x.json_to_string value) text e

  replaced_total :
      (kind : DetectorKind) (value : Value) → Returns (replaced x engine policy kind value)
  unfolding replaced
  replaced_total kind value =
      bind-Returns _ _ (material_total value)
        (λ material. bind-Returns _ _ (replaces kind material) (λ text. (_, refl)))

  pub put_sensitive_total :
      (mode : Mode) (kind : DetectorKind) (key : Bytes) (value : Value) (output : Fields)
      → Returns (put_sensitive x engine policy mode kind key value output)
  unfolding put_sensitive
  put_sensitive_total drop kind key value output = (output, refl)
  put_sensitive_total mask kind key value output =
      bind-Returns _ _ (replaced_total kind value) (λ text. (_, refl))
  put_sensitive_total hash kind key value output =
      bind-Returns _ _ (replaced_total kind value) (λ text. (_, refl))

  mutual
    unfolding redact_value_inner

    redact_inner_total : (value : Value) → Returns (redact_value_inner x engine policy value)
    redact_inner_total (object fields) = redact_object_total fields end default_report
    redact_inner_total (array items) = redact_array_total items nil default_report
    redact_inner_total (string text) =
        bind-Returns _ _ (redact_str_total x engine policy replaces text) (λ r. (_, refl))
    redact_inner_total null = (_, refl)
    redact_inner_total (bool b) = (_, refl)
    redact_inner_total (number n) = (_, refl)

    redact_object_total :
        (fields output : Fields) (stats : ScanReport)
        → Returns (redact_object x engine policy fields output stats)
    redact_object_total end output stats = (_, refl)
    redact_object_total (field key value rest) output stats =
        option-Returns (sensitive_key x engine key) _ _
          (bind-Returns _ _ (redact_inner_total value)
            (λ child. redact_object_total rest (insert key child.0 output) (merge stats child.1)))
          (λ kind.
            bind-Returns _ _ (put_sensitive_total policy.mode kind key value output)
              (λ output'. redact_object_total rest output' (record_kind stats kind)))

    redact_array_total :
        (items output : Items) (stats : ScanReport)
        → Returns (redact_array x engine policy items output stats)
    redact_array_total nil output stats = (_, refl)
    redact_array_total (cons item rest) output stats =
        bind-Returns _ _ (redact_inner_total item)
          (λ child. redact_array_total rest (push output child.0) (merge stats child.1))

-- Redaction never fails under a policy that was made for a configuration, if HMAC accepts every key
-- and JSON values can be written.
pub redact_value_total :
    (x : External) (engine : Engine x) (config : Config) (policy : ReplacementPolicy)
    → AcceptsKeys x
    → WritesJson x
    → IsPolicyOf config policy
    → (value : Value) → Returns (redact_value_inner x engine policy value)
redact_value_total x engine config policy accepts writes p value =
    redact_inner_total x engine policy
      (λ kind secret. replacement_total x config policy kind secret accepts p) writes value
