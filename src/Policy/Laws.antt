-- ===== src/Policy/Laws.antt =====
-- When a replacement can fail, and what it tells of the secret.
use privacy_proxy.Base.{false, Option, none, some, ◌∷◌, ◌++◌, ◌≡◌, refl, arith, subst}
use privacy_proxy.Text.{Bytes, codes, is_empty}
use privacy_proxy.Error.{Result, ok, err, bind-eq-ok}
use privacy_proxy.Config.{Config, Mode, mask, hash, drop, DetectorKind}
use privacy_proxy.External.{External}
use privacy_proxy.Policy.{
  ReplacementPolicy, hex_lower, bracketed, hash_key_from, key_for, non_empty_key,
  from_config_with_key, load_hash_key, from_config, hashed, replacement_in, replacement,
}

-- The key that a policy holds: one that is not empty in mode `hash`, and none in the other modes.
abbrev pub KeyFor : Mode → Option Bytes → Type 0
KeyFor hash held = (key : Bytes) × (held ≡ some key) × (is_empty key ≡ false)
KeyFor mask held = held ≡ none
KeyFor drop held = held ≡ none

pub record IsPolicyOf (config : Config) (policy : ReplacementPolicy) : Type 0 where
  pub same_mode : policy.mode ≡ config.mode
  pub same_env : policy.hash_env ≡ config.hash_env
  pub keyed : KeyFor policy.mode policy.hmac_key

abbrev IsPolicyOfResult : Config → Result ReplacementPolicy → Type 0
IsPolicyOfResult config (ok policy) = IsPolicyOf config policy
IsPolicyOfResult config (err _) = ⊥

key_for-KeyFor :
    (mode : Mode) (found : Result Bytes) (held : Option Bytes)
    → ((key : Bytes) → found ≡ ok key → is_empty key ≡ false)
    → key_for mode found ≡ ok held
    → KeyFor mode held
key_for-KeyFor mask found held h e = cc
key_for-KeyFor drop found held h e = cc
key_for-KeyFor hash (ok key) held h e = (key, cc, h key refl)
key_for-KeyFor hash (err e') held h e = cc

hash_key_from-ne-empty :
    (env : Bytes) (value : Option Bytes) (key : Bytes)
    → hash_key_from env value ≡ ok key
    → is_empty key ≡ false
hash_key_from-ne-empty env none key h = cc
hash_key_from-ne-empty env (some value) key h = ground arith

non_empty_key-ne-empty :
    (env given key : Bytes) → non_empty_key env given ≡ ok key → is_empty key ≡ false
non_empty_key-ne-empty env given key h = ground arith

-- A policy made with an explicit key has the mode and the variable's name of the configuration, and
-- holds a key that is not empty in mode `hash`, and no key in the other modes.
pub from_config_with_key-IsPolicyOf :
    (config : Config) (key : Bytes) (policy : ReplacementPolicy)
    → from_config_with_key config key ≡ ok policy
    → IsPolicyOf config policy
unfolding from_config_with_key
from_config_with_key-IsPolicyOf config key policy h =
    let found = non_empty_key config.hash_env key in
    let (held, e, same) =
      bind-eq-ok (key_for config.mode found)
        (λ k. ok (record { mode = config.mode; hmac_key = k; hash_env = config.hash_env })) h in
    let k = key_for-KeyFor config.mode found held (non_empty_key-ne-empty config.hash_env key) e in
    subst (λ r. IsPolicyOfResult config r) same
      (record { same_mode = refl; same_env = refl; keyed = k })

module _ (x : External) where
  -- A policy made with the key of the environment has the mode and the variable's name of the
  -- configuration; it holds a key that is not empty in mode `hash`, and no key in the other modes.
  pub from_config-IsPolicyOf :
      (config : Config) (policy : ReplacementPolicy)
      → from_config x config ≡ ok policy
      → IsPolicyOf config policy
  unfolding from_config
  from_config-IsPolicyOf config policy h =
      let found = load_hash_key x config.hash_env in
      let (held, e, same) =
        bind-eq-ok (key_for config.mode found)
          (λ k. ok (record { mode = config.mode; hmac_key = k; hash_env = config.hash_env })) h in
      let k =
        key_for-KeyFor config.mode found held
          (hash_key_from-ne-empty config.hash_env (x.env_var config.hash_env)) e in
      subst (λ r. IsPolicyOfResult config r) same
        (record { same_mode = refl; same_env = refl; keyed = k })

  -- As the crate `hmac` documents: a key of any length is accepted.
  abbrev pub AcceptsKeys : Type 0
  AcceptsKeys = (key message : Bytes) → (digest : Bytes) × (x.hmac_sha256 key message ≡ some digest)

  hashed_total :
      AcceptsKeys
      → (key env secret : Bytes) (kind : DetectorKind)
      → (text : Bytes) × (hashed x (some key) env kind secret ≡ ok text)
  unfolding hashed
  hashed_total accepts key env secret kind =
      let (digest, e) = accepts key secret in
      (bracketed (codes "HASHED") kind (b':' ∷ hex_lower digest ++ codes "]"), rw e)

  replacement_in_total :
      (mode : Mode) (policy : ReplacementPolicy) (kind : DetectorKind) (secret : Bytes)
      → AcceptsKeys
      → KeyFor mode policy.hmac_key
      → (text : Bytes) × (replacement_in x mode policy kind secret ≡ ok text)
  unfolding replacement_in
  replacement_in_total mask policy kind secret accepts keyed =
      (bracketed (codes "REDACTED") kind (codes "]"), refl)
  replacement_in_total drop policy kind secret accepts keyed =
      (bracketed (codes "DROPPED") kind (codes "]"), refl)
  replacement_in_total hash policy kind secret accepts (key, e, _) =
      rw e (hashed_total accepts key policy.hash_env secret kind)

  -- Under a policy of a configuration, every secret gets a replacement: `replacement` never fails.
  pub replacement_total :
      (config : Config) (policy : ReplacementPolicy) (kind : DetectorKind) (secret : Bytes)
      → AcceptsKeys
      → IsPolicyOf config policy
      → (text : Bytes) × (replacement x policy kind secret ≡ ok text)
  unfolding replacement
  replacement_total config policy kind secret accepts p =
      replacement_in_total policy.mode policy kind secret accepts p.keyed
