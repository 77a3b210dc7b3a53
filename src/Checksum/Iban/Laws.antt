-- ===== src/Checksum/Iban/Laws.antt =====
-- `is_valid_iban` is the check of ISO 7064, mod 97-10: the rearranged text, with letters as two
-- digits, is a number that leaves 1.
use privacy_proxy.Base.{
  ℕ, ◌+◌, ◌-◌, ◌*◌, ◌/◌, ◌%◌, ◌≤◌, true, ◌||◌, Option, none, some, [], ◌∷◌, ◌++◌, if◌then◌else◌,
  length, take, drop, ◌≡◌, ◌↔◌, refl, arith, Bool-cases, inl, inr, All, All-append, All-append_left,
  All-append_right, take-append-drop,
}
use privacy_proxy.Text.{Bytes, is_ascii_digit, is_ascii_uppercase}
use privacy_proxy.Checksum.Iban.{
  normalize_iban, has_iban_head, iban_remainder, rearranged, is_one, is_valid_iban,
}

-- A digit or an upper case letter.
abbrev pub IsIbanChar : ℕ → Type 0
IsIbanChar ch = (is_ascii_digit ch || is_ascii_uppercase ch) ≡ true

-- The decimal number that a text spells behind the number `acc`, a letter standing for two digits,
-- 10 for A to 35 for Z.
pub iban_number : ℕ → Bytes → ℕ
iban_number acc [] = acc
iban_number acc (ch ∷ rest) =
    iban_number (if is_ascii_digit ch then acc * 10 + (ch - b'0') else acc * 100 + (ch - b'A' + 10))
      rest

iban_step :
    (acc ch : ℕ)
    → (if is_ascii_digit ch
        then (acc % 97 * 10 + (ch - b'0')) % 97
        else ((acc % 97 * 10 + (ch - b'A' + 10) / 10) % 97 * 10 + (ch - b'A' + 10) % 10) % 97)
      ≡ (if is_ascii_digit ch then acc * 10 + (ch - b'0') else acc * 100 + (ch - b'A' + 10)) % 97
iban_step acc ch = ground arith

iban_remainder-number :
    (text : Bytes) (acc : ℕ)
    → All IsIbanChar text
    → iban_remainder (acc % 97) text ≡ some (iban_number acc text % 97)
unfolding iban_remainder iban_number
iban_remainder-number [] acc h = refl
iban_remainder-number (ch ∷ rest) acc h =
    rw (h.0, iban_step acc ch) (iban_remainder-number rest _ h.1)

iban_remainder-chars :
    (text : Bytes) (remainder r : ℕ) → iban_remainder remainder text ≡ some r → All IsIbanChar text
unfolding iban_remainder
iban_remainder-chars [] remainder r h = tt
iban_remainder-chars (ch ∷ rest) remainder r h =
    elim (Bool-cases (is_ascii_digit ch || is_ascii_uppercase ch)) [
      | inl e ↦ (e, iban_remainder-chars rest _ r (rw e at h))
      | inr e ↦ cc (rw e at h)
    ]

-- What an IBAN is, once white space is gone and letters are upper case.
pub record IsIban (iban : Bytes) : Type 0 where
  pub long_enough : 15 ≤ length iban
  pub short_enough : length iban ≤ 34
  pub head : has_iban_head iban ≡ true
  pub chars : All IsIbanChar iban
  pub remainder_one : iban_number 0 (rearranged iban) % 97 ≡ 1

pub rearranged-chars : (iban : Bytes) → All IsIbanChar iban → All IsIbanChar (rearranged iban)
rearranged-chars iban h =
    let parts : All IsIbanChar (take 4 iban ++ drop 4 iban) = rw (take-append-drop 4 iban) h in
    All-append IsIbanChar (drop 4 iban) (take 4 iban)
      (All-append_right IsIbanChar (take 4 iban) (drop 4 iban) parts)
      (All-append_left IsIbanChar (take 4 iban) (drop 4 iban) parts)

chars_of_rearranged : (iban : Bytes) → All IsIbanChar (rearranged iban) → All IsIbanChar iban
chars_of_rearranged iban h = rw take-append-drop at (
    All-append IsIbanChar (take 4 iban) (drop 4 iban)
      (All-append_right IsIbanChar (drop 4 iban) (take 4 iban) h)
      (All-append_left IsIbanChar (drop 4 iban) (take 4 iban) h))

is_one-some : (o : Option ℕ) → is_one o ≡ true → o ≡ some 1
is_one-some none h = cc
is_one-some (some n) h = ground arith

remainder_one-chars :
    (text : Bytes)
    → is_one (iban_remainder 0 text) ≡ true
    → All IsIbanChar text × (iban_number 0 text % 97 ≡ 1)
remainder_one-chars text h =
    let e = is_one-some (iban_remainder 0 text) h in
    let chars = iban_remainder-chars text 0 1 e in
    (chars, ground (arith, iban_remainder-number text 0 chars))

chars-remainder_one :
    (text : Bytes)
    → All IsIbanChar text
    → iban_number 0 text % 97 ≡ 1
    → is_one (iban_remainder 0 text) ≡ true
chars-remainder_one text h e = ground (arith, iban_remainder-number text 0 h)

valid-IsIban : (input : Bytes) → is_valid_iban input ≡ true → IsIban (normalize_iban input)
unfolding is_valid_iban
valid-IsIban input h =
    let iban = normalize_iban input in
    ground (arith, remainder_one-chars (rearranged iban), chars_of_rearranged iban)

IsIban-valid : (input : Bytes) → IsIban (normalize_iban input) → is_valid_iban input ≡ true
unfolding is_valid_iban
IsIban-valid input h =
    let iban = normalize_iban input in
    ground
      (arith, chars-remainder_one (rearranged iban) (rearranged-chars iban h.chars) h.remainder_one)

-- `is_valid_iban` accepts a text exactly when its normal form has 15 to 34 characters, all of them
-- digits or upper case letters, starts with two letters and two digits, and spells, with its first
-- four characters moved to the end, a number that leaves 1 by division by 97.
pub is_valid_iban_iff :
    (input : Bytes) → (is_valid_iban input ≡ true) ↔ IsIban (normalize_iban input)
is_valid_iban_iff input = (valid-IsIban input, IsIban-valid input)
