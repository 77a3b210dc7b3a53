-- ===== src/Engine/Total.antt =====
-- Every step of the detectors returns a result, if every secret has a replacement.
pub mod Run
use privacy_proxy.Base.{
  ℕ, zero, suc, ◌+◌, Bool, true, false, not, ◌||◌, ◌&&◌, Option, none, some, List, [], ◌∷◌, ◌++◌,
  if◌then◌else◌, take, drop, ltb, leb, length, Option-cases, Bool-cases, ◌≡◌, refl, ◌∙◌, inl, inr,
  arith,
}
use privacy_proxy.Text.{Bytes, codes, split, find, trim, is_empty}
use privacy_proxy.Error.{Result, ok, err, ◌>>=◌, Returns, bind-Returns, if-Returns, option-Returns}
use privacy_proxy.Stats.{ScanReport, record_kind, default_report}
use privacy_proxy.Config.{DetectorKind}
use privacy_proxy.External.{External, Match, Captures, group, match_text}
use privacy_proxy.Policy.{Replace}
use privacy_proxy.Matches.{
  Replacer, replace_matches, Rewriting, start_rewriting, write_piece, finish_rewriting,
}
use privacy_proxy.Matches.Laws.{NeverFails}
use privacy_proxy.Checksum.Luhn.{digits_only, is_luhn_valid}
use privacy_proxy.Checksum.Iban.{valid_iban_span, normalize_iban}
use privacy_proxy.Detector.Cookie.{
  CookieParts, redact_pair, redact_part, redact_parts, redact_all_parts, redact_cookie_body,
}
use privacy_proxy.Detector.Url.{
  Query, redact_param, redact_params, redact_all_params, redact_query, redact_sensitive_url,
  split_fragment, key_value, split_trailing_url_punctuation, is_sensitive_url_param,
}
use privacy_proxy.Engine.Patterns.{Engine, is_enabled}
use privacy_proxy.Engine.Replace.{
  detected, bearer_replacer, cookie_header_replacer, cookie_assignment_replacer, url_replacer,
  jwt_replacer, email_replacer, ipv4_replacer, ipv6_replacer, credit_card_replacer, with_group,
  prefixed,
}
use privacy_proxy.Engine.Ibans.{replace_iban_at, iban_step, iban_loop, replace_ibans}

-- Every secret has a replacement.
abbrev pub Replaces : Replace → Type 0
Replaces replace = (kind : DetectorKind) (secret : Bytes) → Returns (replace kind secret)

module _ (replace : Replace) (replaces : Replaces replace) where
  redact_pair_total :
      (part : Bytes) (i : ℕ) (s : CookieParts) → Returns (redact_pair replace part i s)
  unfolding redact_pair
  redact_pair_total part i s =
      if-Returns (is_empty (trim (drop (i + 1) part))) _ _ (_, refl)
        (bind-Returns _ _ (replaces _ _) (λ text. (_, refl)))

  redact_part_total : (part : Bytes) (s : CookieParts) → Returns (redact_part replace part s)
  unfolding redact_part
  redact_part_total part s =
      option-Returns (find b'=' part) _ _ (_, refl) (λ i. redact_pair_total part i s)

  redact_parts_total :
      (parts : List Bytes) (s : CookieParts) → Returns (redact_parts replace parts s)
  unfolding redact_parts
  redact_parts_total [] s = (s, refl)
  redact_parts_total (part ∷ rest) s =
      bind-Returns _ _ (redact_part_total part _) (λ s'. redact_parts_total rest s')

  redact_all_parts_total :
      (parts : List Bytes) (s : CookieParts) → Returns (redact_all_parts replace parts s)
  unfolding redact_all_parts
  redact_all_parts_total [] s = (s, refl)
  redact_all_parts_total (part ∷ rest) s =
      bind-Returns _ _ (redact_part_total part s) (λ s'. redact_parts_total rest s')

  redact_cookie_body_total :
      (body : Bytes) (stats : ScanReport) → Returns (redact_cookie_body replace body stats)
  unfolding redact_cookie_body
  redact_cookie_body_total body stats =
      bind-Returns _ _ (redact_all_parts_total (split b';' body) _) (λ s. (_, refl))

  redact_param_total : (param : Bytes) (s : Query) → Returns (redact_param replace param s)
  unfolding redact_param
  redact_param_total param s =
      if-Returns (is_sensitive_url_param (key_value param).0) _ _
        (bind-Returns _ _ (replaces _ _) (λ text. (_, refl))) (_, refl)

  redact_params_total : (params : List Bytes) (s : Query) → Returns (redact_params replace params s)
  unfolding redact_params
  redact_params_total [] s = (s, refl)
  redact_params_total (param ∷ rest) s =
      bind-Returns _ _ (redact_param_total param _) (λ s'. redact_params_total rest s')

  redact_all_params_total :
      (params : List Bytes) (s : Query) → Returns (redact_all_params replace params s)
  unfolding redact_all_params
  redact_all_params_total [] s = (s, refl)
  redact_all_params_total (param ∷ rest) s =
      bind-Returns _ _ (redact_param_total param s) (λ s'. redact_params_total rest s')

  redact_query_total :
      (base query fragment trailing : Bytes) (stats : ScanReport)
      → Returns (redact_query replace base query fragment trailing stats)
  unfolding redact_query
  redact_query_total base query fragment trailing stats =
      bind-Returns _ _ (redact_all_params_total (split b'&' query) _) (λ s. (_, refl))

  redact_sensitive_url_total :
      (input : Bytes) (stats : ScanReport) → Returns (redact_sensitive_url replace input stats)
  unfolding redact_sensitive_url
  redact_sensitive_url_total input stats =
      let (url, trailing) = split_trailing_url_punctuation input in
      option-Returns (find b'?' url) _ _ (_, refl)
        (λ i. redact_query_total _ _ (split_fragment (drop (i + 1) url)).1 trailing stats)

  detected_total :
      (kind : DetectorKind) (prefix secret input : Bytes) (stats : ScanReport)
      → Returns (detected replace input kind prefix secret stats)
  unfolding detected
  detected_total kind prefix secret input stats =
      bind-Returns _ _ (replaces kind secret) (λ text. (_, refl))

  with_group_total :
      (captures : Captures) (i : ℕ) (stats : ScanReport)
      (body : Match → Result (Option Bytes × ScanReport))
      → ((found : Match) → Returns (body found))
      → Returns (with_group captures i stats body)
  with_group_total captures i stats body h = option-Returns (group captures i) _ body (_, refl) h

  module _ (input : Bytes) where
    pub bearer_total : NeverFails (bearer_replacer replace input)
    unfolding bearer_replacer
    bearer_total captures stats =
        with_group_total captures 1 stats _
          λ prefix. with_group_total captures 2 stats _ λ token. detected_total _ _ _ input stats

    pub cookie_header_total : NeverFails (cookie_header_replacer replace input)
    unfolding cookie_header_replacer
    cookie_header_total captures stats = with_group_total captures 1 stats _ λ header.
        with_group_total captures 2 stats _
          λ body. bind-Returns _ _ (redact_cookie_body_total _ stats) (λ redacted. (_, refl))

    pub cookie_assignment_total : NeverFails (cookie_assignment_replacer replace input)
    unfolding cookie_assignment_replacer
    cookie_assignment_total captures stats = with_group_total captures 1 stats _ λ prefix.
        with_group_total captures 2 stats _
          λ body. bind-Returns _ _ (redact_cookie_body_total _ stats) (λ redacted. (_, refl))

    pub url_total : NeverFails (url_replacer replace input)
    unfolding url_replacer
    url_total captures stats =
        with_group_total captures 0 stats _ λ url. redact_sensitive_url_total _ stats

    pub jwt_total : NeverFails (jwt_replacer replace input)
    unfolding jwt_replacer
    jwt_total captures stats =
        with_group_total captures 0 stats _
          λ candidate. if-Returns _ _ _ (_, refl) (detected_total _ [] _ input stats)

    pub email_total : NeverFails (email_replacer replace input)
    unfolding email_replacer
    email_total captures stats =
        with_group_total captures 0 stats _ λ found. detected_total _ [] _ input stats

    pub ipv4_total : NeverFails (ipv4_replacer replace input)
    unfolding ipv4_replacer
    ipv4_total captures stats =
        with_group_total captures 0 stats _
          λ candidate. if-Returns _ _ _ (_, refl) (detected_total _ [] _ input stats)

    pub ipv6_total : NeverFails (ipv6_replacer replace input)
    unfolding ipv6_replacer
    ipv6_total captures stats =
        with_group_total captures 0 stats _
          λ candidate. if-Returns _ _ _ (_, refl) (detected_total _ [] _ input stats)

    pub credit_card_total : NeverFails (credit_card_replacer replace input)
    unfolding credit_card_replacer
    credit_card_total captures stats =
        with_group_total captures 0 stats _
          λ candidate. if-Returns _ _ _ (_, refl) (detected_total _ [] _ input stats)

    replace_iban_at_total :
        (start : ℕ) (s : Rewriting) (n : ℕ) → Returns (replace_iban_at replace input start s n)
    unfolding replace_iban_at
    replace_iban_at_total start s n = bind-Returns _ _ (replaces _ _) (λ text. (_, refl))

    iban_step_total : (m : Match) (s : Rewriting) → Returns (iban_step replace input m s)
    unfolding iban_step
    iban_step_total m s =
        if-Returns _ _ _ (_, refl)
          (option-Returns (valid_iban_span (drop m.start input)) _ _ (_, refl)
            (λ n. replace_iban_at_total m.start s n))

    iban_loop_total : (ms : List Match) (s : Rewriting) → Returns (iban_loop replace input ms s)
    unfolding iban_loop
    iban_loop_total [] s = (s, refl)
    iban_loop_total (m ∷ rest) s =
        bind-Returns _ _ (iban_step_total m s) (λ s'. iban_loop_total rest s')

pub ibans_total :
    (x : External) (engine : Engine x) (replace : Replace)
    → Replaces replace
    → (input : Bytes) (stats : ScanReport) → Returns (replace_ibans x engine input replace stats)
unfolding replace_ibans
ibans_total x engine replace replaces input stats =
    bind-Returns _ _
      (iban_loop_total replace replaces input (x.find_iter engine.patterns.iban input)
        (start_rewriting stats))
      (λ s. (_, refl))
