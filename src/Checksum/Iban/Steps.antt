-- ===== src/Checksum/Iban/Steps.antt =====
-- One round of the loop of `valid_iban_span`, and how many letters and digits a text has.
use privacy_proxy.Base.{
  ℕ, suc, ◌+◌, ◌≤◌, ◌<◌, true, ◌&&◌, ◌||◌, Option, some, [], ◌∷◌, ◌++◌, leb, if◌then◌else◌, length,
  take, ◌≡◌, refl, sym, ap, ◌∙◌, arith, All, append_assoc, length-append, ◌⊎◌,
}
use privacy_proxy.Text.{Bytes, is_ascii_alphanumeric, is_ascii_whitespace}
use privacy_proxy.Checksum.Iban.{normalize_iban, is_valid_iban, iban_span_loop}

-- The characters that the loop passes.
abbrev pub IsSpanChar : ℕ → Type 0
IsSpanChar ch = (is_ascii_alphanumeric ch || is_ascii_whitespace ch) ≡ true

-- How many letters and digits a text has.
abbrev pub letters : Bytes → ℕ
letters [] = 0
letters (ch ∷ rest) = (if is_ascii_alphanumeric ch then 1 else 0) + letters rest

pub letters-append : (xs ys : Bytes) → letters (xs ++ ys) ≡ letters xs + letters ys
letters-append [] ys = omega arith
letters-append (x ∷ xs) ys = omega (arith, letters-append xs ys)

pub take-front :
    (front back : Bytes) (ch : ℕ) → take (length front + 1) (front ++ ch ∷ back) ≡ front ++ ch ∷ []
take-front front back ch =
    ap (λ n. take n (front ++ ch ∷ back)) {y = suc (length front)} (omega arith)
    ∙ take_suc front back
  where
    take_suc : (xs ys : Bytes) → take (suc (length xs)) (xs ++ ch ∷ ys) ≡ xs ++ ch ∷ []
    take_suc [] ys = refl
    take_suc (x ∷ xs) ys = ap (◌∷◌ x) (take_suc xs ys)

abbrev pub grown : ℕ → ℕ → ℕ
grown count ch = if is_ascii_alphanumeric ch then count + 1 else count

abbrev pub improved : Bytes → ℕ → ℕ → ℕ → Option ℕ → Option ℕ
improved input ch offset count best =
    if is_ascii_alphanumeric ch
      && leb 15 (grown count ch)
      && is_valid_iban (take (offset + 1) input)
    then some (offset + 1)
    else best

-- A round that does not end the loop.
pub span_step :
    (input rest : Bytes) (ch offset count : ℕ) (best : Option ℕ)
    → IsSpanChar ch
    → grown count ch ≤ 34
    → iban_span_loop input (ch ∷ rest) offset count best
      ≡ iban_span_loop input rest
          (offset + 1)
          (grown count ch)
          (improved input ch offset count best)
unfolding iban_span_loop
span_step input rest ch offset count best h le = ground arith

-- A round that ends it.
pub span_stop :
    (input rest : Bytes) (ch offset count : ℕ) (best : Option ℕ)
    → (IsSpanChar ch → 34 < grown count ch)
    → iban_span_loop input (ch ∷ rest) offset count best ≡ best
unfolding iban_span_loop
span_stop input rest ch offset count best h = ground arith

pub span_or_stop :
    (ch count : ℕ) → (IsSpanChar ch × (grown count ch ≤ 34)) ⊎ (IsSpanChar ch → 34 < grown count ch)
span_or_stop ch count = ground arith

pub normalize-letters :
    (text : Bytes) → All IsSpanChar text → length (normalize_iban text) ≡ letters text
unfolding normalize_iban is_ascii_alphanumeric is_ascii_whitespace
normalize-letters [] h = refl
normalize-letters (ch ∷ text) h = ground (arith, normalize-letters text h.1)

pub grown-letters :
    (front : Bytes) (count ch : ℕ)
    → count ≡ letters front
    → grown count ch ≡ letters (front ++ ch ∷ [])
grown-letters front count ch e = ground (arith, letters-append front (ch ∷ []))

pub length-concat :
    (front : Bytes) (offset ch : ℕ) → offset ≡ length front → offset + 1 ≡ length (front ++ ch ∷ [])
length-concat front offset ch e = omega (arith, length-append {0} front (ch ∷ []))

pub take_here :
    (input front rest : Bytes) (ch offset : ℕ)
    → input ≡ front ++ ch ∷ rest
    → offset ≡ length front
    → take (offset + 1) input ≡ front ++ ch ∷ []
take_here input front rest ch offset e o = rw (e, o) (take-front front rest ch)

-- The text read so far, one character later.
pub concat_splits :
    (input front rest : Bytes) (ch : ℕ)
    → input ≡ front ++ ch ∷ rest
    → input ≡ (front ++ ch ∷ []) ++ rest
concat_splits input front rest ch e = e ∙ sym (append_assoc front (ch ∷ []) rest)

pub improved-some :
    (input : Bytes) (ch offset count k : ℕ)
    → (improved input ch offset count (some k) ≡ some k)
      ⊎ (improved input ch offset count (some k) ≡ some (offset + 1))
improved-some input ch offset count k = ground arith
