-- ===== src/Examples/Checksums.antt =====
-- Check digits of concrete numbers.
use privacy_proxy.Base.{ℕ, true, false, [], some, ◌≡◌, ◌↔◌, ◌≤◌, refl, arith, reverse, ◌%◌, All}
use privacy_proxy.Text.{
  codes, is_ascii_digit, is_ascii_uppercase, is_ascii_whitespace, to_ascii_uppercase,
}
use privacy_proxy.Checksum.Luhn.{is_luhn_valid}
use privacy_proxy.Checksum.Luhn.Laws.{AllDigits, luhn_sum, is_luhn_valid_iff, luhn_single_error}
use privacy_proxy.Checksum.Iban.{
  is_valid_iban, normalize_iban, valid_iban_span, has_iban_head, iban_remainder,
}
use privacy_proxy.Checksum.Iban.Laws.{IsIban, is_valid_iban_iff, IsIbanChar}
use privacy_proxy.Checksum.Iban.Errors.{iban_single_error}
use privacy_proxy.Checksum.Iban.Span.{IsSpan, valid_iban_span_longest}

good_digits : AllDigits (codes "18")
unfolding is_ascii_digit
good_digits = (refl, (refl, tt))

bad_digits : AllDigits (codes "28")
unfolding is_ascii_digit
bad_digits = (refl, (refl, tt))

good_valid : is_luhn_valid (codes "18") ≡ true
unfolding is_luhn_valid is_ascii_digit
good_valid = refl

is_luhn_valid_iff_example :
    (is_luhn_valid (codes "18") ≡ true) ↔ (luhn_sum (reverse (codes "18")) % 10 ≡ 0)
is_luhn_valid_iff_example = is_luhn_valid_iff (codes "18") good_digits (omega arith)

luhn_single_error_example : is_luhn_valid (codes "28") ≡ false
luhn_single_error_example =
    luhn_single_error [] (codes "8") b'1' b'2' good_digits bad_digits (omega arith) (omega arith)
      good_valid

is_valid_iban_iff_example :
    (is_valid_iban (codes "NO93 8601 1117 947") ≡ true)
    ↔ IsIban (normalize_iban (codes "NO93 8601 1117 947"))
is_valid_iban_iff_example = is_valid_iban_iff (codes "NO93 8601 1117 947")

good_chars : All IsIbanChar (codes "NO9386011117947")
unfolding is_ascii_digit is_ascii_uppercase
good_chars = (
  refl,
  (
    refl,
    (
      refl,
      (
        refl,
        (refl, (refl, (refl, (refl, (refl, (refl, (refl, (refl, (refl, (refl, (refl, tt))))))))))),
      ),
    ),
  ),
)

bad_chars : All IsIbanChar (codes "NO9386011117946")
unfolding is_ascii_digit is_ascii_uppercase
bad_chars = (
  refl,
  (
    refl,
    (
      refl,
      (
        refl,
        (refl, (refl, (refl, (refl, (refl, (refl, (refl, (refl, (refl, (refl, (refl, tt))))))))))),
      ),
    ),
  ),
)

good_iban : is_valid_iban (codes "NO9386011117947") ≡ true
unfolding is_valid_iban normalize_iban has_iban_head iban_remainder is_ascii_digit
    is_ascii_uppercase is_ascii_whitespace to_ascii_uppercase
good_iban = refl

same_class : is_ascii_digit b'7' ≡ is_ascii_digit b'6'
unfolding is_ascii_digit
same_class = refl

iban_single_error_example : is_valid_iban (codes "NO9386011117946") ≡ false
iban_single_error_example =
    iban_single_error (codes "NO938601111794") [] b'7' b'6' good_chars bad_chars same_class
      (omega arith) good_iban

valid_iban_span_longest_example :
    ((n : ℕ)
      → valid_iban_span (codes "NO93 8601 1117 947.") ≡ some n
      → IsSpan (codes "NO93 8601 1117 947.") n)
    × ((m : ℕ)
        → IsSpan (codes "NO93 8601 1117 947.") m
        → (n : ℕ) × (valid_iban_span (codes "NO93 8601 1117 947.") ≡ some n) × (m ≤ n))
valid_iban_span_longest_example = valid_iban_span_longest (codes "NO93 8601 1117 947.")
