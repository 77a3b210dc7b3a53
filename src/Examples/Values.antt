-- ===== src/Examples/Values.antt =====
-- Redaction and scanning of a value.
use privacy_proxy.Base.{List, [], ◌∷◌, some, ◌≡◌, ◌≢◌, refl, arith}
use privacy_proxy.Text.{
  codes, contains, equal, starts_with, is_empty, is_ascii_alphanumeric, to_ascii_lowercase,
}
use privacy_proxy.Config.Laws.{DetectorKind-discrete}
use privacy_proxy.FieldRules.{
  kind_for_field, kind_of_name, denies, normalize_field_name, new, normalized_names,
}
use privacy_proxy.Engine.Patterns.{is_enabled}
use privacy_proxy.Error.{ok, Returns}
use privacy_proxy.Stats.{default_report}
use privacy_proxy.Config.{hash}
use privacy_proxy.Engine.Walk.{redact_value_inner, scan_value_inner, sensitive_key}
use privacy_proxy.Engine.Agreement.{stats_of, scan-redact_agree}
use privacy_proxy.Engine.Hiding.{erase, redact_value-erase}
use privacy_proxy.Engine.Removal.{IsRedacted, redact_value-IsRedacted}
use privacy_proxy.Engine.Total.Run.{redact_value_total, scan_value_total}
use privacy_proxy.External.{Captures}
use privacy_proxy.Matches.{Replacer, replace_matches}
use privacy_proxy.Matches.Edited.{Edited, replace_matches-Edited}
use privacy_proxy.Engine.Reports.Sound.{Sound}
use privacy_proxy.Engine.Reports.Walk.{reports-Sound}
use privacy_proxy.Examples.Setting.{
  hash_config, hash_policy, hash_policy-IsPolicyOf, sample, sample-AcceptsKeys, sample-WritesJson,
  engine, mask_policy, login,
}

scan-redact_agree_example :
    stats_of (redact_value_inner sample engine mask_policy (login (codes "s3cret")))
    ≡ scan_value_inner sample engine (login (codes "s3cret"))
scan-redact_agree_example =
    scan-redact_agree sample engine mask_policy refl sample-WritesJson (login (codes "s3cret"))

mask_ne_hash : mask_policy.mode ≢ hash
mask_ne_hash e = cc

same_erased :
    erase sample engine (login (codes "s3cret")) ≡ erase sample engine (login (codes "other"))
unfolding erase sensitive_key kind_for_field kind_of_name denies normalize_field_name new
    normalized_names is_enabled contains equal starts_with is_empty is_ascii_alphanumeric
    to_ascii_lowercase DetectorKind-discrete
same_erased = refl

redact_value-erase_example :
    redact_value_inner sample engine mask_policy (login (codes "s3cret"))
    ≡ redact_value_inner sample engine mask_policy (login (codes "other"))
redact_value-erase_example =
    redact_value-erase sample engine mask_policy sample-WritesJson mask_ne_hash
      (login (codes "s3cret")) (login (codes "other")) same_erased

-- The run of a redaction on the sample.
redacted_login : Returns (redact_value_inner sample engine hash_policy (login (codes "s3cret")))
redacted_login =
    redact_value_total sample engine hash_config hash_policy sample-AcceptsKeys sample-WritesJson
      hash_policy-IsPolicyOf (login (codes "s3cret"))

redact_value-IsRedacted_example : IsRedacted sample engine hash_policy redacted_login.0.0
redact_value-IsRedacted_example =
    redact_value-IsRedacted sample engine hash_policy (login (codes "s3cret")) redacted_login.0.0
      redacted_login.0.1 redacted_login.1

redact_value_total_example :
    Returns (redact_value_inner sample engine hash_policy (login (codes "s3cret")))
redact_value_total_example =
    redact_value_total sample engine hash_config hash_policy sample-AcceptsKeys sample-WritesJson
      hash_policy-IsPolicyOf (login (codes "s3cret"))

scan_value_total_example : Returns (scan_value_inner sample engine (login (codes "s3cret")))
scan_value_total_example = scan_value_total sample engine (login (codes "s3cret"))

abbrev cross_out : Replacer
cross_out captures stats = ok (some (codes "[X]"), stats)

abbrev one_match : List Captures
one_match = (some (record { start = 3; stop = 9 }) ∷ []) ∷ []

crossed :
    replace_matches (codes "to a@b.io, now") one_match default_report cross_out
    ≡ ok (codes "to [X], now", default_report)
unfolding replace_matches
crossed = refl

replace_matches-Edited_example :
    Edited cross_out 0 one_match default_report
      (codes "to a@b.io, now")
      (codes "to [X], now")
      default_report
replace_matches-Edited_example =
    replace_matches-Edited (codes "to a@b.io, now") cross_out one_match default_report
      default_report (codes "to [X], now") (omega arith, omega arith, omega arith, tt) crossed

abbrev login_redacted :
    Returns (redact_value_inner sample engine hash_policy (login (codes "s3cret")))
login_redacted =
    redact_value_total sample engine hash_config hash_policy sample-AcceptsKeys sample-WritesJson
      hash_policy-IsPolicyOf (login (codes "s3cret"))

abbrev login_scanned : Returns (scan_value_inner sample engine (login (codes "s3cret")))
login_scanned = scan_value_total sample engine (login (codes "s3cret"))

reports-Sound_example : Sound sample engine login_redacted.0.1 × Sound sample engine login_scanned.0
reports-Sound_example =
    reports-Sound sample engine hash_policy (login (codes "s3cret")) login_redacted.0.0
      login_redacted.0.1 login_scanned.0 login_redacted.1 login_scanned.1
