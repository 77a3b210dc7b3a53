-- ===== src/Policy/Hashing.antt =====
-- In mode `hash`, replacements show which secrets have the same digest, and nothing is lost in
-- writing the digest down.
use privacy_proxy.Base.{
  ℕ, zero, suc, ◌+◌, ◌-◌, ◌*◌, ◌/◌, ◌%◌, ◌<◌, Bool, true, ◌&&◌, some, [], ◌∷◌, ◌++◌, if◌then◌else◌,
  leb, ◌==◌, ==_iff, ◌≡◌, ◌↔◌, refl, sym, ap, ◌∙◌, arith, All,
}
use privacy_proxy.Text.{Bytes, codes}
use privacy_proxy.Error.{ok-injective}
use privacy_proxy.Config.{hash, DetectorKind, as_str}
use privacy_proxy.External.{External}
use mathlib.Core.List.{append_cancel_left, append_cancel_right}
use privacy_proxy.Policy.Laws.{AcceptsKeys}
use privacy_proxy.Policy.{
  ReplacementPolicy, hex_digit, hex_lower, bracketed, hashed, replacement_in, replacement,
}

-- The number that a hexadecimal digit stands for, and the bytes of a text of such digits.
unhex : ℕ → ℕ
unhex ch = if leb ch b'9' then ch - b'0' else ch - b'a' + 10

pub from_hex : Bytes → Bytes
from_hex [] = []
from_hex (high ∷ []) = []
from_hex (high ∷ low ∷ text) = (unhex high * 16 + unhex low) ∷ from_hex text

all_below : ℕ → (ℕ → Bool) → Bool
all_below zero p = true
all_below (suc n) p = p n && all_below n p

all_below_sound : (n : ℕ) (p : ℕ → Bool) (i : ℕ) → all_below n p ≡ true → i < n → p i ≡ true
unfolding all_below
all_below_sound zero p i h lt = absurd (omega arith)
all_below_sound (suc n) p i h lt = ground (arith, all_below_sound n p i)

digit_table : all_below 16 (λ d. unhex (hex_digit d) == d) ≡ true
unfolding all_below unhex hex_digit
digit_table = refl

unhex-hex_digit : (d : ℕ) → d < 16 → unhex (hex_digit d) ≡ d
unhex-hex_digit d h =
    (==_iff (unhex (hex_digit d)) d).0
      (all_below_sound 16 (λ d. unhex (hex_digit d) == d) d digit_table h)

-- The digits that `hex_lower` writes give the bytes back.
pub from_hex-hex_lower :
    (bytes : Bytes) → All (λ byte. byte < 256) bytes → from_hex (hex_lower bytes) ≡ bytes
unfolding from_hex hex_lower
from_hex-hex_lower [] h = refl
from_hex-hex_lower (byte ∷ bytes) h =
    ground (
      arith,
      from_hex-hex_lower bytes h.1,
      unhex-hex_digit (byte / 16),
      unhex-hex_digit (byte % 16),
    )

hex_lower-injective :
    (a b : Bytes)
    → All (λ byte. byte < 256) a
    → All (λ byte. byte < 256) b
    → hex_lower a ≡ hex_lower b
    → a ≡ b
hex_lower-injective a b ha hb e =
    sym (from_hex-hex_lower a ha) ∙ ap from_hex e ∙ from_hex-hex_lower b hb

-- The text that stands for a digest.
abbrev written : DetectorKind → Bytes → Bytes
written kind digest = bracketed (codes "HASHED") kind (b':' ∷ hex_lower digest ++ codes "]")

written-hex_lower :
    (kind : DetectorKind) (a b : Bytes)
    → written kind a ≡ written kind b
    → hex_lower a ≡ hex_lower b
written-hex_lower kind a b e =
    let inner =
      append_cancel_left (b':' ∷ as_str kind) (b':' ∷ hex_lower a ++ codes "]")
        (b':' ∷ hex_lower b ++ codes "]") (append_cancel_left (b'[' ∷ codes "HASHED") _ _ e) in
    append_cancel_right (hex_lower a) (hex_lower b) (codes "]")
      (append_cancel_left (b':' ∷ []) (hex_lower a ++ codes "]") (hex_lower b ++ codes "]") inner)

module _ (x : External) where
  -- A digest is made of bytes.
  abbrev pub GivesBytes : Type 0
  GivesBytes =
      (key message digest : Bytes)
      → x.hmac_sha256 key message ≡ some digest
      → All (λ byte. byte < 256) digest

  hashed-digest :
      (key env s t : Bytes) (kind : DetectorKind)
      → GivesBytes
      → (ds dt : Bytes) → x.hmac_sha256 key s ≡ some ds
      → x.hmac_sha256 key t ≡ some dt
      → hashed x (some key) env kind s ≡ hashed x (some key) env kind t
      → ds ≡ dt
  unfolding hashed
  hashed-digest key env s t kind bytes ds dt es et e =
      let same : written kind ds ≡ written kind dt = ok-injective (rw (es, et) at e) in
      hex_lower-injective ds dt (bytes key s ds es) (bytes key t dt et)
        (written-hex_lower kind ds dt same)

  hashed_congruent :
      (key env s t : Bytes) (kind : DetectorKind)
      → x.hmac_sha256 key s ≡ x.hmac_sha256 key t
      → hashed x (some key) env kind s ≡ hashed x (some key) env kind t
  unfolding hashed
  hashed_congruent key env s t kind e = rw e

  replacement-hashed :
      (policy : ReplacementPolicy) (kind : DetectorKind) (key secret : Bytes)
      → policy.mode ≡ hash
      → policy.hmac_key ≡ some key
      → replacement x policy kind secret ≡ hashed x (some key) policy.hash_env kind secret
  unfolding replacement replacement_in
  replacement-hashed policy kind key secret m k = simp (m, k)

  -- In mode `hash` with a key, two secrets get the same replacement exactly when their digests under
  -- that key are the same, if HMAC accepts the key and gives bytes.
  pub replacement_hash_iff :
      (policy : ReplacementPolicy) (kind : DetectorKind) (key s t : Bytes)
      → policy.mode ≡ hash
      → policy.hmac_key ≡ some key
      → AcceptsKeys x
      → GivesBytes
      → (replacement x policy kind s ≡ replacement x policy kind t)
        ↔ (x.hmac_sha256 key s ≡ x.hmac_sha256 key t)
  replacement_hash_iff policy kind key s t m k accepts bytes =
      let (ds, es) = accepts key s in
      let (dt, et) = accepts key t in
      let rs = replacement-hashed policy kind key s m k in
      let rt = replacement-hashed policy kind key t m k in
      (
        λ e.
            es
            ∙ ap some
                (hashed-digest key policy.hash_env s t kind bytes ds dt es et (sym rs ∙ e ∙ rt))
            ∙ sym et,
        λ e. rs ∙ hashed_congruent key policy.hash_env s t kind e ∙ sym rt,
      )
