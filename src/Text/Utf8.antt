-- ===== src/Text/Utf8.antt =====
-- `std::str::from_utf8`: which bytes are UTF-8.
use privacy_proxy.Base.{
  ℕ, ◌-◌, Bool, true, false, ◌&&◌, Option, none, some, [], ◌∷◌, leb, ltb, ◌==◌, if◌then◌else◌, ◌≡◌,
  refl,
}
use privacy_proxy.Text.{Bytes}

-- What a first byte calls for: how many bytes behind it, and the range of the next.
unfoldable pub first_byte : ℕ → Option (ℕ × ℕ × ℕ)
first_byte b =
    if ltb b 128
    then some (0, 128, 191)
    else if leb 194 b && leb b 223
    then some (1, 128, 191)
    else if b == 224
    then some (2, 160, 191)
    else if b == 237
    then some (2, 128, 159)
    else if leb 225 b && leb b 239
    then some (2, 128, 191)
    else if b == 240
    then some (3, 144, 191)
    else if leb 241 b && leb b 243
    then some (3, 128, 191)
    else if b == 244
    then some (3, 128, 143)
    else none

-- The bytes behind a character of which `needed` bytes are to come, the next between `low` and `high`.
unfoldable pub is_utf8_from : ℕ → ℕ → ℕ → Bytes → Bool
unfolding first_byte
is_utf8_from needed low high [] = needed == 0
is_utf8_from needed low high (b ∷ bytes) =
    let continued = is_utf8_from (needed - 1) 128 191 bytes in
    if needed == 0
    then elim (first_byte b) [ none ↦ false | some next ↦ is_utf8_from next.0 next.1 next.2 bytes ]
    else (leb low b && leb b high) && continued

unfoldable pub is_utf8 : Bytes → Bool
unfolding is_utf8_from
is_utf8 bytes = is_utf8_from 0 128 191 bytes

utf8_runs : is_utf8 (97 ∷ 195 ∷ 169 ∷ 226 ∷ 130 ∷ 172 ∷ 240 ∷ 159 ∷ 152 ∷ 128 ∷ []) ≡ true
unfolding is_utf8
utf8_runs = refl

utf8_fails : is_utf8 (237 ∷ 160 ∷ 128 ∷ []) ≡ false
unfolding is_utf8
utf8_fails = refl
