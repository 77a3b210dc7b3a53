-- ===== src/Detector/Url.antt =====
-- `redact_sensitive_url`, `split_trailing_url_punctuation` and `is_sensitive_url_param` of
-- crates/privacy_proxy_core/src/engine.rs.
use privacy_proxy.Base.{
  ℕ, ◌+◌, Bool, true, false, ◌||◌, Option, none, some, List, [], ◌∷◌, ◌++◌, reverse, ◌==◌,
  if◌then◌else◌, take, drop, any,
}
use privacy_proxy.Text.{Bytes, codes, split, find, equal, ends_with}
use privacy_proxy.Error.{Result, ok, ◌>>=◌}
use privacy_proxy.Stats.{ScanReport, record_kind}
use privacy_proxy.Config.{url_sensitive_params}
use privacy_proxy.FieldRules.{normalize_field_name}
use privacy_proxy.Policy.{Replace}

abbrev pub is_trailing : ℕ → Bool
is_trailing ch = ch == b'.' || ch == b',' || ch == b';' || ch == b'!'

-- The loop from the end of the text: the reversed text, and the punctuation passed so far.
unfoldable pub split_trailing : Bytes → Bytes → Bytes × Bytes
split_trailing [] trailing = ([], trailing)
split_trailing (ch ∷ rest) trailing =
    let further = split_trailing rest (ch ∷ trailing) in
    if is_trailing ch then further else (reverse (ch ∷ rest), trailing)

unfoldable pub split_trailing_url_punctuation : Bytes → Bytes × Bytes
unfolding split_trailing
split_trailing_url_punctuation input = split_trailing (reverse input) []

abbrev pub sensitive_names : List Bytes
sensitive_names =
    codes "token"
    ∷ codes "key"
    ∷ codes "secret"
    ∷ codes "password"
    ∷ codes "code"
    ∷ codes "session"
    ∷ []

unfoldable pub is_sensitive_url_param : Bytes → Bool
is_sensitive_url_param key =
    let normalized = normalize_field_name key in
    any (equal normalized) sensitive_names || any (ends_with normalized) sensitive_names

-- The variables of the loop over the parameters.
pub record Query : Type 0 where
  pub redacted_query : Bytes
  pub changed : Bool
  pub stats : ScanReport

-- The key and the value of a parameter.
unfoldable pub key_value : Bytes → Bytes × Bytes
key_value param = elim (find b'=' param) [
  | none ↦ (param, [])
  | some eq_index ↦ (take eq_index param, drop (eq_index + 1) param)
]

-- Behind the `?`: the query and the fragment, which begins with `#`.
unfoldable pub split_fragment : Bytes → Bytes × Bytes
split_fragment query_and_fragment = elim (find b'#' query_and_fragment) [
  | none ↦ (query_and_fragment, [])
  | some index ↦ (take index query_and_fragment, drop index query_and_fragment)
]

-- The functions take `policy.replacement`, all that they use of the policy.
module _ (replacement : Replace) where
  -- The `continue` at the end of the loop's body skips nothing.
  unfoldable pub redact_param : Bytes → Query → Result Query
  unfolding key_value
  redact_param param s =
      let (key, value) = key_value param in
      if is_sensitive_url_param key
      then (do
        text ← replacement url_sensitive_params value
        ok (record {
          redacted_query = s.redacted_query ++ (key ++ (b'=' ∷ text));
          changed = true;
          stats = record_kind s.stats url_sensitive_params;
        }))
      else ok (record s { redacted_query = s.redacted_query ++ param })

  -- The parameters behind the first one: each has a `&` before it.
  unfoldable pub redact_params : List Bytes → Query → Result Query
  unfolding redact_param
  redact_params [] s = ok s
  redact_params (param ∷ rest) s = do
    s' ← redact_param param (record s { redacted_query = s.redacted_query ++ codes "&" })
    redact_params rest s'

  unfoldable pub redact_all_params : List Bytes → Query → Result Query
  unfolding redact_params
  redact_all_params [] s = ok s
  redact_all_params (param ∷ rest) s = do s' ← redact_param param s; redact_params rest s'

  unfoldable pub redact_query :
      Bytes → Bytes → Bytes → Bytes → ScanReport → Result (Option Bytes × ScanReport)
  unfolding redact_all_params
  redact_query base query fragment trailing stats = do
    s ←
        redact_all_params (split b'&' query)
          (record { redacted_query = []; changed = false; stats = stats })
    ok (
      if s.changed
          then some (base ++ (b'?' ∷ s.redacted_query ++ (fragment ++ trailing)))
          else none,
      s.stats,
    )

  unfoldable pub redact_sensitive_url : Bytes → ScanReport → Result (Option Bytes × ScanReport)
  unfolding redact_query split_fragment split_trailing_url_punctuation
  redact_sensitive_url input stats =
      let (url, trailing) = split_trailing_url_punctuation input in
      elim (find b'?' url) [
        | none ↦ ok (none, stats)
        | some query_start ↦
            let (query, fragment) = split_fragment (drop (query_start + 1) url) in
            redact_query (take query_start url) query fragment trailing stats
      ]
