-- ===== src/Text/Number.antt =====
-- How the standard library writes numbers: `{n}`, `{n:08}` and `{n:016x}`; and the reading of decimal
-- numbers.
use privacy_proxy.Base.{
  ℕ, zero, suc, ◌+◌, ◌-◌, ◌*◌, ◌/◌, ◌%◌, ◌<◌, Bool, true, [], ◌∷◌, ◌++◌, ltb, if◌then◌else◌, length,
  all, ◌≡◌, refl, ap, sym, ◌∙◌, append_assoc, arith, Bool-cases, inl, inr,
}
use privacy_proxy.Text.{Bytes, codes, is_ascii_digit}

-- A digit of a base up to 16.
unfoldable pub digit : ℕ → ℕ
digit d = if ltb d 10 then b'0' + d else b'a' + (d - 10)

-- The digits of a number before a text; more fuel than the number is enough.
unfoldable pub number_before : ℕ → ℕ → ℕ → Bytes → Bytes
number_before base zero n rest = rest
number_before base (suc fuel) n rest =
    let longer = number_before base fuel (n / base) (digit (n % base) ∷ rest) in
    if ltb n base then digit n ∷ rest else longer

-- `{n}` and `{n:x}`
unfoldable pub decimal : ℕ → Bytes
unfolding number_before
decimal n = number_before 10 (suc n) n []

unfoldable pub hexadecimal : ℕ → Bytes
unfolding number_before
hexadecimal n = number_before 16 (suc n) n []

abbrev pub zeros : ℕ → Bytes
zeros zero = []
zeros (suc n) = b'0' ∷ zeros n

-- `{text:0>width}`
abbrev pub padded : ℕ → Bytes → Bytes
padded width text = zeros (width - length text) ++ text

-- The number that a text starts with, behind one that has been read, and what follows it.
unfoldable pub read_decimal : ℕ → Bytes → ℕ × Bytes
unfolding is_ascii_digit
read_decimal n [] = (n, [])
read_decimal n (ch ∷ text) =
    let longer = read_decimal (10 * n + (ch - b'0')) text in
    if is_ascii_digit ch then longer else (n, ch ∷ text)

number_before-append :
    (base fuel n : ℕ) (rest more : Bytes)
    → number_before base fuel n (rest ++ more) ≡ number_before base fuel n rest ++ more
unfolding number_before
number_before-append base zero n rest more = refl
number_before-append base (suc fuel) n rest more = elim (Bool-cases (ltb n base)) [
  | inl small ↦ rw small refl
  | inr large ↦ rw large (number_before-append base fuel (n / base) (digit (n % base) ∷ rest) more)
]

read_decimal-digit :
    (n d : ℕ) (rest : Bytes)
    → d < 10
    → read_decimal n (digit d ∷ rest) ≡ read_decimal (10 * n + d) rest
unfolding read_decimal is_ascii_digit digit
read_decimal-digit n d rest lt = ground arith

read_decimal-number_before :
    (fuel n : ℕ) (rest : Bytes)
    → n < fuel
    → read_decimal 0 (number_before 10 fuel n rest) ≡ read_decimal n rest
unfolding number_before
read_decimal-number_before zero n rest lt = absurd (omega arith)
read_decimal-number_before (suc fuel) n rest lt = elim (Bool-cases (ltb n 10)) [
  | inl small ↦
      rw small
        (read_decimal-digit 0 n rest (ground arith) ∙ ap (λ k. read_decimal k rest) (omega arith))
  | inr large ↦ rw large (
      read_decimal-number_before fuel (n / 10) (digit (n % 10) ∷ rest) (ground arith)
      ∙ read_decimal-digit (n / 10) (n % 10) rest (omega arith)
      ∙ ap (λ k. read_decimal k rest) (omega arith))
]

-- A decimal number is read back, with the text behind it.
pub read_decimal-decimal :
    (n : ℕ) (rest : Bytes) → read_decimal 0 (decimal n ++ rest) ≡ read_decimal n rest
unfolding decimal
read_decimal-decimal n rest =
    ap (read_decimal 0) (sym (number_before-append 10 (suc n) n [] rest))
    ∙ read_decimal-number_before (suc n) n rest (omega arith)

pub read_decimal-zeros :
    (k : ℕ) (rest : Bytes) → read_decimal 0 (zeros k ++ rest) ≡ read_decimal 0 rest
unfolding read_decimal is_ascii_digit
read_decimal-zeros zero rest = refl
read_decimal-zeros (suc k) rest = read_decimal-zeros k rest

-- So is one with leading zeros.
pub read_decimal-padded :
    (width n : ℕ) (rest : Bytes)
    → read_decimal 0 (padded width (decimal n) ++ rest) ≡ read_decimal n rest
read_decimal-padded width n rest =
    ap (read_decimal 0) (append_assoc (zeros (width - length (decimal n))) (decimal n) rest)
    ∙ read_decimal-zeros (width - length (decimal n)) (decimal n ++ rest)
    ∙ read_decimal-decimal n rest

-- Digits are the only bytes of a decimal number.
number_before-all :
    (p : ℕ → Bool) (fuel n : ℕ) (rest : Bytes)
    → ((d : ℕ) → d < 10 → p (b'0' + d) ≡ true)
    → all p rest ≡ true
    → all p (number_before 10 fuel n rest) ≡ true
unfolding number_before digit
number_before-all p zero n rest h r = r
number_before-all p (suc fuel) n rest h r = elim (Bool-cases (ltb n 10)) [
  | inl small ↦ rw small (ground (arith, h n))
  | inr large ↦ rw large (number_before-all p fuel (n / 10) _ h (ground (arith, h (n % 10))))
]

pub all-decimal :
    (p : ℕ → Bool) (n : ℕ) → ((d : ℕ) → d < 10 → p (b'0' + d) ≡ true) → all p (decimal n) ≡ true
unfolding decimal
all-decimal p n h = number_before-all p (suc n) n [] h refl

written :
    (decimal 0 ≡ codes "0")
    × (decimal 4096 ≡ codes "4096")
    × (hexadecimal 4095 ≡ codes "fff")
    × (padded 8 (decimal 42) ≡ codes "00000042")
unfolding decimal hexadecimal number_before digit
written = (refl, refl, refl, refl)
