-- ===== src/Config/Laws.antt =====
-- Validation, and the names of the detectors.
use privacy_proxy.Base.{◌<◌, false, Option, some, ◌≡◌, ◌↔◌, arith}
use privacy_proxy.Text.{Bytes, trim, is_empty}
use privacy_proxy.Error.{ok}
use privacy_proxy.Config.{DetectorKind, as_str, email, Config, validate, from_toml_str}

-- A configuration that names an environment variable and has positive limits.
pub record IsValid (config : Config) : Type 0 where
  pub named : is_empty (trim config.hash_env) ≡ false
  pub line_room : 0 < config.max_line_bytes
  pub body_room : 0 < config.max_body_bytes

-- `validate` accepts a configuration exactly when its `hash_env` is not blank and both of its byte
-- limits are positive.
pub validate_iff : (config : Config) → (validate config ≡ ok tt) ↔ IsValid config
unfolding validate
validate_iff config = ground arith

-- Every configuration that `from_toml_str` returns is the one that the TOML reader found, and is
-- valid.
pub from_toml_str-IsValid :
    (toml_from_str : Bytes → Option Config) (input : Bytes) {config : Config}
    → from_toml_str toml_from_str input ≡ ok config
    → (toml_from_str input ≡ some config) × IsValid config
unfolding from_toml_str
from_toml_str-IsValid toml_from_str input {config} h = ground (arith, validate_iff config)

unfoldable pub DetectorKind-discrete : Discrete DetectorKind
DetectorKind-discrete = hlevel

-- Names of different detectors differ, so the counters of a report do not mix.
pub as_str-injective : (k j : DetectorKind) → as_str k ≡ as_str j → k ≡ j
unfolding as_str
as_str-injective email j h = ground arith
as_str-injective _ j h = ground arith
