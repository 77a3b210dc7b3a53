-- ===== src/Examples/Core.antt =====
-- Rules, reports, configurations and policies.
use privacy_proxy.Base.{List, [], ◌∷◌, ◌++◌, some, none, ◌≡◌, ◌↔◌, inl, refl, length, min}
use privacy_proxy.Text.{codes, trim, is_empty, is_ascii_alphanumeric, to_ascii_lowercase}
use privacy_proxy.Error.{ok}
use privacy_proxy.Config.{
  Config, default_config, validate, from_toml_str, as_str, email, jwt, api_key, cookie,
  DetectorKind,
}
use privacy_proxy.Config.Laws.{IsValid, validate_iff}
use privacy_proxy.FieldRules.{kind_for_field, kind_of_name, normalize_field_name, new}
use privacy_proxy.FieldRules.Laws.{IsDenied, kind_for_field_iff, kind_for_field-allowed}
use privacy_proxy.Stats.{default_report, merge, count_of, u64_max}
use privacy_proxy.Stats.Laws.{IsReport}
use privacy_proxy.Stats.Counting.{record_all, occurrences, record_all_counts, merge-record_all}
use privacy_proxy.Policy.{from_config, replacement}
use privacy_proxy.Policy.Laws.{IsPolicyOf, from_config-IsPolicyOf}
use privacy_proxy.Policy.Hashing.{replacement_hash_iff}
use privacy_proxy.Examples.Setting.{
  sample, sample-AcceptsKeys, sample-GivesBytes, hash_config, hash_policy, engine,
}

abbrev open_config : Config
open_config = record default_config { fields_allow = codes "Public-Token" ∷ [] }

kind_for_field_iff_example : (kind_for_field engine.field_rules (codes "Token") ≡ some api_key) ↔ (
    IsDenied engine.field_rules (normalize_field_name (codes "Token"))
    × (api_key ≡ kind_of_name (normalize_field_name (codes "Token"))))
kind_for_field_iff_example = kind_for_field_iff engine.field_rules (codes "Token") api_key

same_name :
    normalize_field_name (codes "Public-Token") ≡ normalize_field_name (codes "public_token")
unfolding normalize_field_name is_ascii_alphanumeric to_ascii_lowercase
same_name = refl

kind_for_field-allowed_example : kind_for_field (new open_config) (codes "public_token") ≡ none
kind_for_field-allowed_example =
    kind_for_field-allowed open_config (codes "public_token") (inl same_name)

abbrev two : List DetectorKind
two = email ∷ jwt ∷ []

abbrev three : List DetectorKind
three = email ∷ email ∷ cookie ∷ []

record_all_counts_example :
    IsReport (record_all default_report three)
    × ((record_all default_report three).total ≡ min (length three) u64_max)
    × ((kind : DetectorKind)
        → count_of (as_str kind) (record_all default_report three)
          ≡ min (occurrences kind three) u64_max)
record_all_counts_example = record_all_counts three

merge-record_all_example :
    ((merge (record_all default_report two) (record_all default_report three)).total
      ≡ (record_all default_report (two ++ three)).total)
    × ((kind : DetectorKind)
        → count_of
            (as_str kind)
            (merge (record_all default_report two) (record_all default_report three))
          ≡ count_of (as_str kind) (record_all default_report (two ++ three)))
merge-record_all_example = merge-record_all two three

validate_iff_example : (validate default_config ≡ ok tt) ↔ IsValid default_config
validate_iff_example = validate_iff default_config

read_default : from_toml_str (λ input. some default_config) (codes "mode = 1") ≡ ok default_config
unfolding from_toml_str validate trim is_empty
read_default = refl

policy_read : from_config sample hash_config ≡ ok hash_policy
unfolding from_config is_empty
policy_read = refl

from_config-IsPolicyOf_example : IsPolicyOf hash_config hash_policy
from_config-IsPolicyOf_example = from_config-IsPolicyOf sample hash_config hash_policy policy_read

replacement_hash_iff_example :
    (replacement sample hash_policy email (codes "a@b.io")
      ≡ replacement sample hash_policy email (codes "c@d.io"))
    ↔ (sample.hmac_sha256 (codes "key") (codes "a@b.io")
        ≡ sample.hmac_sha256 (codes "key") (codes "c@d.io"))
replacement_hash_iff_example =
    replacement_hash_iff sample hash_policy email (codes "key") (codes "a@b.io") (codes "c@d.io")
      refl refl sample-AcceptsKeys sample-GivesBytes
