-- ===== src/Config.antt =====
-- crates/privacy_proxy_core/src/config.rs: modes, detectors and the configuration. The TOML reader
-- and writer of the crate `toml` are parameters.
pub mod Laws
use privacy_proxy.Base.{
  ℕ, zero, suc, Bool, true, false, Option, none, some, String, List, [], ◌∷◌, map, ◌==◌,
  if◌then◌else◌,
}
use privacy_proxy.Text.{Bytes, codes, trim, is_empty}
use privacy_proxy.Error.{
  Error, toml_de, toml_ser, invalid_config, Result, ok, err, ◌>>=◌, ◌>>◌, fail_if,
}

pub data Mode : Type 0 where
  mask hash drop : Mode

pub data DetectorKind : Type 0 where
  email ip jwt bearer_token api_key cookie credit_card iban url_sensitive_params : DetectorKind

unfoldable pub as_str : DetectorKind → Bytes
as_str email = codes "email"
as_str ip = codes "ip"
as_str jwt = codes "jwt"
as_str bearer_token = codes "bearer_token"
as_str api_key = codes "api_key"
as_str cookie = codes "cookie"
as_str credit_card = codes "credit_card"
as_str iban = codes "iban"
as_str url_sensitive_params = codes "url_sensitive_params"

pub record Config : Type 0 where
  pub mode : Mode
  pub redact : List DetectorKind
  pub fields_deny : List Bytes
  pub fields_allow : List Bytes
  pub hash_env : Bytes
  pub sample_limit : ℕ
  pub max_line_bytes : ℕ
  pub max_body_bytes : ℕ

abbrev pub all_detectors : List DetectorKind
all_detectors =
    email ∷ ip ∷ jwt ∷ bearer_token ∷ api_key ∷ cookie ∷ credit_card ∷ iban ∷ url_sensitive_params
    ∷ []

abbrev pub default_fields_deny : List Bytes
default_fields_deny =
    codes "password"
    ∷ codes "passcode"
    ∷ codes "token"
    ∷ codes "access_token"
    ∷ codes "refresh_token"
    ∷ codes "id_token"
    ∷ codes "secret"
    ∷ codes "client_secret"
    ∷ codes "apiKey"
    ∷ codes "api_key"
    ∷ codes "authorization"
    ∷ codes "cookie"
    ∷ codes "set-cookie"
    ∷ []

abbrev pub default_fields_allow : List Bytes
default_fields_allow = codes "trace_id" ∷ codes "span_id" ∷ codes "request_id" ∷ []

-- `Config::default`
abbrev pub default_config : Config
default_config = record {
  mode = mask;
  redact = all_detectors;
  fields_deny = default_fields_deny;
  fields_allow = default_fields_allow;
  hash_env = codes "PRIVACY_PROXY_HASH_KEY";
  sample_limit = 10000;
  max_line_bytes = 1048576;
  max_body_bytes = 10485760;
}

unfoldable pub validate : Config → Result (Unit {0})
validate config = do
  fail_if (is_empty (trim config.hash_env)) (invalid_config (codes "hash_env cannot be empty"))
  fail_if (config.max_line_bytes == 0)
      (invalid_config (codes "max_line_bytes must be greater than zero"))
  fail_if (config.max_body_bytes == 0)
      (invalid_config (codes "max_body_bytes must be greater than zero"))
  ok tt

-- What another crate gives, with its error in the core crate's type.
abbrev pub or_err {ℓ} : {A : Type ℓ} → Error → Option A → Result A
or_err e none = err e
or_err e (some a) = ok a

-- The first argument is `toml::from_str`.
unfoldable pub from_toml_str : (Bytes → Option Config) → Bytes → Result Config
from_toml_str toml_from_str input = do
  config ← or_err toml_de (toml_from_str input)
  validate config
  ok config

-- The first argument is `toml::to_string_pretty`.
unfoldable pub to_toml_string : (Config → Option Bytes) → Config → Result Bytes
to_toml_string toml_to_string_pretty config = do
  validate config
  or_err toml_ser (toml_to_string_pretty config)
