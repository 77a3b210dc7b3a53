-- ===== src/Policy.antt =====
-- crates/privacy_proxy_core/src/engine.rs: `ReplacementPolicy`, what a detected secret is replaced
-- with.
pub mod Hashing
pub mod Laws
use privacy_proxy.Base.{
  ℕ, ◌/◌, ◌%◌, Bool, true, false, Option, none, some, List, [], ◌∷◌, ◌++◌, if◌then◌else◌, get_elem?,
}
use privacy_proxy.Text.{Bytes, codes, is_empty}
use privacy_proxy.Error.{
  Error, missing_hash_key, invalid_hmac_key, Result, ok, err, ◌>>=◌, ◌>>◌, fail_if,
}
use privacy_proxy.Config.{Config, Mode, mask, hash, drop, DetectorKind, as_str, or_err}
use privacy_proxy.External.{External}

pub record ReplacementPolicy : Type 0 where
  pub mode : Mode
  pub hmac_key : Option Bytes
  pub hash_env : Bytes

-- A method `replacement`, with its policy.
abbrev pub Replace : Type 0
Replace = DetectorKind → Bytes → Result Bytes

-- `ReplacementPolicy::scan`
abbrev pub scan_policy : ReplacementPolicy
scan_policy = record { mode = mask; hmac_key = none; hash_env = codes "PRIVACY_PROXY_HASH_KEY" }

-- `HEX[digit]`
unfoldable pub hex_digit : ℕ → ℕ
hex_digit digit = elim (get_elem? (codes "0123456789abcdef") digit) [ none ↦ 0 | some ch ↦ ch ]

unfoldable pub hex_lower : Bytes → Bytes
hex_lower [] = []
hex_lower (byte ∷ bytes) = hex_digit (byte / 16) ∷ hex_digit (byte % 16) ∷ hex_lower bytes

-- `[name:kind]`, and with a digest behind it
abbrev pub bracketed : Bytes → DetectorKind → Bytes → Bytes
bracketed name kind rest = (b'[' ∷ name) ++ (b':' ∷ as_str kind ++ rest)

-- What `std::env::var(env_name)` gave.
abbrev pub hash_key_from : Bytes → Option Bytes → Result Bytes
hash_key_from env_name none = err (missing_hash_key env_name)
hash_key_from env_name (some value) =
    if is_empty value then err (missing_hash_key env_name) else ok value

-- The key that a mode needs.
abbrev pub key_for : Mode → Result Bytes → Result (Option Bytes)
key_for hash key = do k ← key; ok (some k)
key_for mask key = ok none
key_for drop key = ok none

abbrev pub non_empty_key : Bytes → Bytes → Result Bytes
non_empty_key env key = if is_empty key then err (missing_hash_key env) else ok key

unfoldable pub from_config_with_key : Config → Bytes → Result ReplacementPolicy
from_config_with_key config key = do
  hmac_key ← key_for config.mode (non_empty_key config.hash_env key)
  ok (record { mode = config.mode; hmac_key = hmac_key; hash_env = config.hash_env })

module _ (x : External) where
  unfoldable pub load_hash_key : Bytes → Result Bytes
  load_hash_key env_name = hash_key_from env_name (x.env_var env_name)

  unfoldable pub from_config : Config → Result ReplacementPolicy
  unfolding load_hash_key
  from_config config = do
    hmac_key ← key_for config.mode (load_hash_key config.hash_env)
    ok (record { mode = config.mode; hmac_key = hmac_key; hash_env = config.hash_env })

  -- The branch of `Mode::Hash`.
  unfoldable pub hashed : Option Bytes → Bytes → DetectorKind → Bytes → Result Bytes
  hashed none hash_env kind secret = err (missing_hash_key hash_env)
  hashed (some key) hash_env kind secret = do
    digest ← or_err invalid_hmac_key (x.hmac_sha256 key secret)
    ok (bracketed (codes "HASHED") kind (b':' ∷ hex_lower digest ++ codes "]"))

  unfoldable pub replacement_in : Mode → ReplacementPolicy → DetectorKind → Bytes → Result Bytes
  unfolding hashed
  replacement_in mask policy kind secret = ok (bracketed (codes "REDACTED") kind (codes "]"))
  replacement_in drop policy kind secret = ok (bracketed (codes "DROPPED") kind (codes "]"))
  replacement_in hash policy kind secret = hashed policy.hmac_key policy.hash_env kind secret

  unfoldable pub replacement : ReplacementPolicy → Replace
  unfolding replacement_in
  replacement policy = replacement_in policy.mode policy
