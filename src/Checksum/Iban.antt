-- ===== src/Checksum/Iban.antt =====
-- `normalize_iban`, `valid_iban_span` and `is_valid_iban` of
-- crates/privacy_proxy_core/src/engine.rs. The first is called on texts of ASCII letters, digits
-- and white space only, where `char::to_uppercase` is the ASCII conversion.
pub mod Errors
pub mod Laws
pub mod Span
pub mod Steps
use privacy_proxy.Base.{
  ℕ, zero, suc, ◌+◌, ◌-◌, ◌*◌, ◌/◌, ◌%◌, Bool, true, false, not, ◌&&◌, ◌||◌, Option, none, some,
  List, [], ◌∷◌, ◌++◌, ltb, leb, ◌==◌, if◌then◌else◌, length, take, drop, ◌≡◌, refl,
}
use privacy_proxy.Text.{
  Bytes, codes, is_ascii_digit, is_ascii_uppercase, is_ascii_alphanumeric, is_ascii_whitespace,
  to_ascii_uppercase,
}

unfoldable pub normalize_iban : Bytes → Bytes
normalize_iban [] = []
normalize_iban (ch ∷ input) =
    let rest = normalize_iban input in
    if is_ascii_whitespace ch then rest else to_ascii_uppercase ch ∷ rest

-- The four tests on the first bytes. A text with fewer is not asked: the length was tested before.
unfoldable pub has_iban_head : Bytes → Bool
has_iban_head (a ∷ b ∷ c ∷ d ∷ rest) =
    is_ascii_uppercase a && is_ascii_uppercase b && is_ascii_digit c && is_ascii_digit d
has_iban_head _ = false

-- The loop over the rearranged text, from a remainder below 97; the sums stay below 1000, so a u32
-- holds them. `none` is the early `return false`.
unfoldable pub iban_remainder : ℕ → Bytes → Option ℕ
iban_remainder remainder [] = some remainder
iban_remainder remainder (ch ∷ rest) =
    let value = ch - b'A' + 10 in
    let next =
      if is_ascii_digit ch
      then (remainder * 10 + (ch - b'0')) % 97
      else ((remainder * 10 + value / 10) % 97 * 10 + value % 10) % 97 in
    let later = iban_remainder next rest in
    if is_ascii_digit ch || is_ascii_uppercase ch then later else none

abbrev pub rearranged : Bytes → Bytes
rearranged iban = drop 4 iban ++ take 4 iban

abbrev pub is_one : Option ℕ → Bool
is_one none = false
is_one (some remainder) = remainder == 1

unfoldable pub is_valid_iban : Bytes → Bool
is_valid_iban input =
    let iban = normalize_iban input in
    if not (leb 15 (length iban) && leb (length iban) 34)
    then false
    else if not (has_iban_head iban)
    then false
    else is_one (iban_remainder 0 (rearranged iban))

-- The loop over the characters at `offset` and behind, of which `input` is the whole text. Of a
-- character with more than one byte the first byte ends the loop.
unfoldable pub iban_span_loop : Bytes → Bytes → ℕ → ℕ → Option ℕ → Option ℕ
iban_span_loop input [] offset normalized_len best_end = best_end
iban_span_loop input (ch ∷ rest) offset normalized_len best_end =
    let alphanumeric = is_ascii_alphanumeric ch in
    let grown = if alphanumeric then normalized_len + 1 else normalized_len in
    let found = alphanumeric && leb 15 grown && is_valid_iban (take (offset + 1) input) in
    let later =
      iban_span_loop input rest (offset + 1) grown
        (if found then some (offset + 1) else best_end) in
    if (not alphanumeric && not (is_ascii_whitespace ch)) || ltb 34 grown then best_end else later

unfoldable pub valid_iban_span : Bytes → Option ℕ
unfolding iban_span_loop
valid_iban_span input = iban_span_loop input input 0 0 none

iban_runs : valid_iban_span (codes "GB82 WEST 1234 5698 7654 32.") ≡ some 27
unfolding valid_iban_span is_valid_iban normalize_iban has_iban_head iban_remainder is_ascii_digit
    is_ascii_uppercase is_ascii_alphanumeric is_ascii_whitespace to_ascii_uppercase
iban_runs = refl
