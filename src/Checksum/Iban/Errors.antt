-- ===== src/Checksum/Iban/Errors.antt =====
-- `is_valid_iban` finds every change of one digit to another, or of one letter to another.
use privacy_proxy.Base.{
  ℕ, ◌+◌, ◌-◌, ◌*◌, ◌/◌, ◌%◌, ◌<◌, true, false, some, [], ◌∷◌, ◌++◌, if◌then◌else◌, take, drop, ◌≡◌,
  ◌≢◌, refl, sym, ap, ◌∙◌, arith, Bool-cases, inl, inr, All, All-append_right, append_assoc,
}
use privacy_proxy.Text.{
  Bytes, is_ascii_digit, is_ascii_uppercase, is_ascii_whitespace, to_ascii_uppercase,
}
use privacy_proxy.Checksum.Iban.{normalize_iban, iban_remainder, rearranged, is_valid_iban}
use privacy_proxy.Checksum.Iban.Laws.{IsIbanChar, rearranged-chars}

char_kept :
    (ch : ℕ) → IsIbanChar ch → (is_ascii_whitespace ch ≡ false) × (to_ascii_uppercase ch ≡ ch)
unfolding is_ascii_digit is_ascii_uppercase is_ascii_whitespace to_ascii_uppercase
char_kept ch h = ground arith

normalize_iban-chars : (input : Bytes) → All IsIbanChar input → normalize_iban input ≡ input
unfolding normalize_iban
normalize_iban-chars [] h = refl
normalize_iban-chars (ch ∷ input) h =
    let (solid, upper) = char_kept ch h.0 in
    ground (arith, solid, upper, normalize_iban-chars input h.1)

-- One round of the loop.
next : ℕ → ℕ → ℕ
next r ch =
    if is_ascii_digit ch
    then (r * 10 + (ch - b'0')) % 97
    else ((r * 10 + (ch - b'A' + 10) / 10) % 97 * 10 + (ch - b'A' + 10) % 10) % 97

next-lt : (r ch : ℕ) → next r ch < 97
unfolding next
next-lt r ch = ground arith

-- Different remainders stay different.
next-remainder : (r s ch : ℕ) → r < 97 → s < 97 → next r ch ≡ next s ch → r ≡ s
unfolding next
next-remainder r s ch hr hs e = ground arith

-- Different characters of one kind make the remainder differ.
next-char :
    (r a b : ℕ)
    → IsIbanChar a
    → IsIbanChar b
    → is_ascii_digit a ≡ is_ascii_digit b
    → next r a ≡ next r b
    → a ≡ b
unfolding next is_ascii_digit is_ascii_uppercase
next-char r a b ha hb same e = ground arith

remainder_of : ℕ → Bytes → ℕ
remainder_of r [] = r
remainder_of r (ch ∷ rest) = remainder_of (next r ch) rest

iban_remainder-of :
    (text : Bytes) (r : ℕ)
    → All IsIbanChar text
    → iban_remainder r text ≡ some (remainder_of r text)
unfolding iban_remainder remainder_of next
iban_remainder-of [] r h = refl
iban_remainder-of (ch ∷ rest) r h = rw h.0 (iban_remainder-of rest _ h.1)

remainder_of-injective :
    (text : Bytes) (r s : ℕ) → r < 97 → s < 97 → remainder_of r text ≡ remainder_of s text → r ≡ s
unfolding remainder_of
remainder_of-injective [] r s hr hs e = e
remainder_of-injective (ch ∷ rest) r s hr hs e =
    next-remainder r s ch hr hs
      (remainder_of-injective rest (next r ch) (next s ch) (next-lt r ch) (next-lt s ch) e)

remainder_of-char :
    (front back : Bytes) (r a b : ℕ)
    → IsIbanChar a
    → IsIbanChar b
    → is_ascii_digit a ≡ is_ascii_digit b
    → remainder_of r (front ++ a ∷ back) ≡ remainder_of r (front ++ b ∷ back)
    → a ≡ b
unfolding remainder_of
remainder_of-char [] back r a b ha hb same e =
    next-char r a b ha hb same
      (remainder_of-injective back (next r a) (next r b) (next-lt r a) (next-lt r b) e)
remainder_of-char (ch ∷ front) back r a b ha hb same e =
    remainder_of-char front back (next r ch) a b ha hb same e

-- Wherever a character stands, it stands somewhere in the rearranged text.
rearranged_at :
    (front back : Bytes)
    → (f : Bytes) × (b : Bytes) × ((ch : ℕ) → rearranged (front ++ ch ∷ back) ≡ f ++ ch ∷ b)
rearranged_at [] back = (drop 3 back, take 3 back, λ ch. refl)
rearranged_at (x ∷ []) back =
    (drop 2 back ++ x ∷ [], take 2 back, λ ch. sym (append_assoc (drop 2 back) _ _))
rearranged_at (x ∷ y ∷ []) back =
    (drop 1 back ++ x ∷ y ∷ [], take 1 back, λ ch. sym (append_assoc (drop 1 back) _ _))
rearranged_at (x ∷ y ∷ z ∷ []) back =
    (back ++ x ∷ y ∷ z ∷ [], [], λ ch. sym (append_assoc back _ _))
rearranged_at (x ∷ y ∷ z ∷ w ∷ front) back =
    (front, back ++ x ∷ y ∷ z ∷ w ∷ [], λ ch. append_assoc front (ch ∷ back) _)

valid_remainder :
    (input : Bytes)
    → All IsIbanChar input
    → is_valid_iban input ≡ true
    → remainder_of 0 (rearranged input) ≡ 1
unfolding is_valid_iban
valid_remainder input h valid = ground (
  arith,
  normalize_iban-chars input h,
  iban_remainder-of (rearranged input) 0 (rearranged-chars input h),
)

-- Changing one digit of a valid IBAN to another digit, or one letter to another letter, makes it
-- invalid. (The IBAN is written with digits and upper case letters only.)
pub iban_single_error :
    (front back : Bytes) (a b : ℕ)
    → All IsIbanChar (front ++ a ∷ back)
    → All IsIbanChar (front ++ b ∷ back)
    → is_ascii_digit a ≡ is_ascii_digit b
    → a ≢ b
    → is_valid_iban (front ++ a ∷ back) ≡ true
    → is_valid_iban (front ++ b ∷ back) ≡ false
iban_single_error front back a b ha hb same ne valid =
    elim (Bool-cases (is_valid_iban (front ++ b ∷ back))) [
      | inr invalid ↦ invalid
      | inl valid' ↦
          let (f, k, at) = rearranged_at front back in
          let ra =
            ap (remainder_of 0) (sym (at a)) ∙ valid_remainder (front ++ a ∷ back) ha valid in
          let rb =
            ap (remainder_of 0) (sym (at b)) ∙ valid_remainder (front ++ b ∷ back) hb valid' in
          absurd (
            ne (
              remainder_of-char f k 0 a b (All-append_right IsIbanChar front (a ∷ back) ha).0
                (All-append_right IsIbanChar front (b ∷ back) hb).0 same (ra ∙ sym rb)))
    ]
