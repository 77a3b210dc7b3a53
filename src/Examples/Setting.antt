-- ===== src/Examples/Setting.antt =====
-- A concrete environment: patterns that match one literal address, a one-byte digest, a JSON writer
-- with one answer, and a key in every variable.
use privacy_proxy.Base.{
  ℕ, ◌+◌, ◌%◌, false, none, some, List, [], ◌∷◌, if◌then◌else◌, length, ◌≡◌, refl, arith, All, ◌<◌,
  subst, ap,
}
use privacy_proxy.Text.{Bytes, codes, starts_with, is_empty}
use privacy_proxy.Config.{Config, default_config, mask, drop, hash, api_key}
use privacy_proxy.External.{External, Match, Captures}
use privacy_proxy.Policy.{ReplacementPolicy}
use privacy_proxy.Policy.Laws.{AcceptsKeys, IsPolicyOf}
use privacy_proxy.Policy.Hashing.{GivesBytes}
use privacy_proxy.Engine.Patterns.{Engine}
use privacy_proxy.Engine.Total.Run.{WritesJson}
use privacy_proxy.Json.{Value, object, field, end, string, number, array, nil, cons, null}

abbrev pub address : Bytes
address = codes "a@b.io"

unfoldable pub occurrences_from : ℕ → Bytes → List Match
unfolding starts_with
occurrences_from i [] = []
occurrences_from i (ch ∷ rest) =
    let later = occurrences_from (i + 1) rest in
    if starts_with (ch ∷ rest) address then record { start = i; stop = i + 6 } ∷ later else later

unfoldable pub as_captures : List Match → List Captures
as_captures [] = []
as_captures (m ∷ ms) = (some m ∷ []) ∷ as_captures ms

abbrev pub sample : External
sample = record {
  Regex = Unit {0};
  regex_new = λ text. some tt;
  captures_iter = λ regex input. as_captures (occurrences_from 0 input);
  find_iter = λ regex input. occurrences_from 0 input;
  hmac_sha256 = λ key message. some (((length key + length message) % 256) ∷ []);
  json_to_string = λ value. some (codes "null");
  env_var = λ name. some (codes "key");
}

pub sample-AcceptsKeys : AcceptsKeys sample
sample-AcceptsKeys key message = (((length key + length message) % 256) ∷ [], refl)

pub sample-GivesBytes : GivesBytes sample
sample-GivesBytes key message digest e =
    subst (All (λ byte. byte < 256)) (ap (λ o. elim o [ none ↦ [] | some bytes ↦ bytes ]) e)
      (omega arith, tt)

pub sample-WritesJson : WritesJson sample
sample-WritesJson value = (codes "null", refl)

abbrev pub engine : Engine sample
engine = record {
  config = default_config;
  enabled = api_key ∷ [];
  field_rules = record { deny = codes "token" ∷ []; allow = [] };
  patterns = record {
    bearer = tt;
    cookie_header = tt;
    cookie_assignment = tt;
    credit_card = tt;
    email = tt;
    iban = tt;
    ipv4 = tt;
    ipv6 = tt;
    jwt = tt;
    url = tt;
  };
}

abbrev pub mask_policy : ReplacementPolicy
mask_policy = record { mode = mask; hmac_key = none; hash_env = codes "KEY" }

abbrev pub drop_policy : ReplacementPolicy
drop_policy = record { mode = drop; hmac_key = none; hash_env = codes "KEY" }

abbrev pub hash_config : Config
hash_config = record default_config { mode = hash; hash_env = codes "KEY" }

abbrev pub hash_policy : ReplacementPolicy
hash_policy = record { mode = hash; hmac_key = some (codes "key"); hash_env = codes "KEY" }

key_given : is_empty (codes "key") ≡ false
unfolding is_empty
key_given = refl

pub hash_policy-IsPolicyOf : IsPolicyOf hash_config hash_policy
hash_policy-IsPolicyOf = record {
  same_mode = refl;
  same_env = refl;
  keyed = (codes "key", refl, key_given);
}

-- {"items": [null, 1], "mail": "to a@b.io", "token": secret}
abbrev pub login : Bytes → Value
login secret = object (
    field (codes "items") (array (cons null (cons (number (codes "1")) nil))) (
      field (codes "mail") (string (codes "to a@b.io"))
        (field (codes "token") (string secret) end)))
