-- ===== src/Checksum/Luhn/Laws.antt =====
-- `is_luhn_valid` computes the Luhn checksum, and finds every error in a single digit.
use privacy_proxy.Base.{
  ℕ, ◌+◌, ◌-◌, ◌*◌, ◌/◌, ◌%◌, ◌^◌, ◌≤◌, ◌<◌, Bool, true, false, not, [], ◌∷◌, ◌++◌, reverse, ◌==◌,
  ==_iff, length, All, ◌≡◌, ◌≢◌, ◌↔◌, refl, ap, ◌∙◌, arith, reverse-append, reverse-cons,
  append_assoc, length-reverse, All-reverse, All-append_right, length-append,
}
use privacy_proxy.Text.{Bytes, is_ascii_digit}
use privacy_proxy.Checksum.Luhn.{luhn_term, luhn_loop, is_luhn_valid}

abbrev pub AllDigits : Bytes → Type 0
AllDigits = All (λ ch. is_ascii_digit ch ≡ true)

-- The Luhn sum of the digits from the last to the first: every second one counts by the sum of the
-- decimal digits of its double.
pub luhn_sum : Bytes → ℕ
luhn_sum [] = 0
luhn_sum (a ∷ []) = a - b'0'
luhn_sum (a ∷ b ∷ rest) =
    let doubled = (b - b'0') * 2 in
    let later = luhn_sum rest in (a - b'0') + (doubled / 10 + doubled % 10) + later

-- The terms that the loop adds.
total : Bool → Bytes → ℕ
total double [] = 0
total double (ch ∷ rest) = luhn_term double (ch - b'0') + total (not double) rest

total-luhn_sum : (digits : Bytes) → AllDigits digits → total false digits ≡ luhn_sum digits
unfolding total luhn_sum luhn_term is_ascii_digit
total-luhn_sum [] h = refl
total-luhn_sum (a ∷ []) h = omega arith
total-luhn_sum (a ∷ b ∷ rest) h = ground (arith, total-luhn_sum rest h.1.1)

luhn_term-le :
    (double : Bool) (ch : ℕ) → is_ascii_digit ch ≡ true → luhn_term double (ch - b'0') ≤ 9
unfolding luhn_term is_ascii_digit
luhn_term-le double ch h = ground arith

-- Below 2 ^ 32 the loop adds the terms up.
luhn_loop-total :
    (digits : Bytes) (sum : ℕ) (double : Bool)
    → AllDigits digits
    → sum + 9 * length digits < 2 ^ 32
    → luhn_loop digits sum double ≡ ((sum + total double digits) % 10 == 0)
unfolding luhn_loop total
luhn_loop-total [] sum double h lt = ap (λ n. n % 10 == 0) (omega arith)
luhn_loop-total (ch ∷ rest) sum double h lt =
    let le = luhn_term-le double ch h.0 in
    let small : (sum + luhn_term double (ch - b'0')) % 2 ^ 32 ≡ sum + luhn_term double (ch - b'0') =
      omega arith in
    rw (h.0, small)
      (luhn_loop-total rest (sum + luhn_term double (ch - b'0')) (not double) h.1 (omega arith)
        ∙ ap (λ n. n % 10 == 0) (omega arith))

luhn_valid-total :
    (digits : Bytes)
    → AllDigits digits
    → 9 * length digits < 2 ^ 32
    → is_luhn_valid digits ≡ (total false (reverse digits) % 10 == 0)
unfolding is_luhn_valid
luhn_valid-total digits h lt =
    let same = length-reverse {0} digits in
    luhn_loop-total (reverse digits) 0 false (All-reverse (λ ch. is_ascii_digit ch ≡ true) digits h)
      (omega arith)
    ∙ ap (λ n. n % 10 == 0) (omega arith)

-- A text of digits, short enough for a sum in u32, is valid exactly when its Luhn sum is a multiple
-- of ten.
pub is_luhn_valid_iff :
    (digits : Bytes)
    → AllDigits digits
    → 9 * length digits < 2 ^ 32
    → (is_luhn_valid digits ≡ true) ↔ (luhn_sum (reverse digits) % 10 ≡ 0)
is_luhn_valid_iff digits h lt =
    let e = luhn_valid-total digits h lt in
    let same =
      total-luhn_sum (reverse digits) (All-reverse (λ ch. is_ascii_digit ch ≡ true) digits h) in
    rw (e, same) (==_iff (luhn_sum (reverse digits) % 10) 0)

-- The total around one place: what stands there adds its term.
total_at :
    (front back : Bytes) (double : Bool)
    → (rest : ℕ) × (flag : Bool) × ((ch : ℕ)
        → total double (front ++ ch ∷ back) ≡ rest + luhn_term flag (ch - b'0'))
unfolding total
total_at [] back double = (total (not double) back, double, λ ch. omega arith)
total_at (c ∷ front) back double =
    let (rest, flag, e) = total_at front back (not double) in
    (luhn_term double (c - b'0') + rest, flag, λ ch. omega (arith, e ch))

luhn_term-injective :
    (flag : Bool) (rest a b : ℕ)
    → is_ascii_digit a ≡ true
    → is_ascii_digit b ≡ true
    → (rest + luhn_term flag (a - b'0')) % 10 ≡ 0
    → (rest + luhn_term flag (b - b'0')) % 10 ≡ 0
    → a ≡ b
unfolding luhn_term is_ascii_digit
luhn_term-injective flag rest a b ha hb ea eb = ground arith

reverse_around :
    (front back : Bytes) (ch : ℕ)
    → reverse (front ++ ch ∷ back) ≡ reverse back ++ ch ∷ reverse front
reverse_around front back ch = simp (reverse-append, reverse-cons, append_assoc)

-- In a text of digits, nine times whose length is below 2 ^ 32: if the text is valid, changing one
-- digit to another makes it invalid.
pub luhn_single_error :
    (front back : Bytes) (a b : ℕ)
    → AllDigits (front ++ a ∷ back)
    → AllDigits (front ++ b ∷ back)
    → 9 * length (front ++ a ∷ back) < 2 ^ 32
    → a ≢ b
    → is_luhn_valid (front ++ a ∷ back) ≡ true
    → is_luhn_valid (front ++ b ∷ back) ≡ false
luhn_single_error front back a b ha hb lt ne valid =
    let digit : ℕ → Type 0 = λ ch. is_ascii_digit ch ≡ true in
    let (rest, flag, at) = total_at (reverse back) (reverse front) false in
    let ea = luhn_valid-total (front ++ a ∷ back) ha lt in
    let eb =
      luhn_valid-total (front ++ b ∷ back) hb
        (omega (arith, length-append {0} front (a ∷ back), length-append {0} front (b ∷ back))) in
    let da = (All-append_right digit front (a ∷ back) ha).0 in
    let db = (All-append_right digit front (b ∷ back) hb).0 in
    ground (
      arith,
      ea,
      eb,
      ap (total false) (reverse_around front back a) ∙ at a,
      ap (total false) (reverse_around front back b) ∙ at b,
      luhn_term-injective flag rest a b da db,
    )
