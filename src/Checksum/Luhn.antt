-- ===== src/Checksum/Luhn.antt =====
-- `digits_only` and `is_luhn_valid` of crates/privacy_proxy_core/src/engine.rs.
pub mod Laws
use privacy_proxy.Base.{
  ℕ, ◌+◌, ◌-◌, ◌*◌, ◌%◌, ◌^◌, Bool, true, false, not, List, [], ◌∷◌, reverse, ltb, ◌==◌,
  if◌then◌else◌, ◌≡◌, refl,
}
use privacy_proxy.Text.{Bytes, codes, is_ascii_digit}

unfoldable pub digits_only : Bytes → Bytes
digits_only [] = []
digits_only (ch ∷ input) =
    let rest = digits_only input in if is_ascii_digit ch then ch ∷ rest else rest

-- What a digit adds to the sum.
unfoldable pub luhn_term : Bool → ℕ → ℕ
luhn_term false digit = digit
luhn_term true digit = if ltb 9 (digit * 2) then digit * 2 - 9 else digit * 2

-- The loop over the characters from the last to the first; `sum` is a u32.
unfoldable pub luhn_loop : Bytes → ℕ → Bool → Bool
unfolding luhn_term
luhn_loop [] sum double = sum % 10 == 0
luhn_loop (ch ∷ rest) sum double =
    let valid = luhn_loop rest ((sum + luhn_term double (ch - b'0')) % 2 ^ 32) (not double) in
    if is_ascii_digit ch then valid else false

unfoldable pub is_luhn_valid : Bytes → Bool
unfolding luhn_loop
is_luhn_valid digits = luhn_loop (reverse digits) 0 false

luhn_runs : is_luhn_valid (digits_only (codes "4111 1111 1111 1111")) ≡ true
unfolding is_luhn_valid digits_only is_ascii_digit
luhn_runs = refl
