-- ===== src/Checksum/Iban/Span.antt =====
-- `valid_iban_span` finds the longest valid IBAN at the start of a text that ends in a letter or
-- digit.
use privacy_proxy.Base.{
  ℕ, ◌+◌, ◌≤◌, true, ◌&&◌, Option, none, some, [], ◌∷◌, ◌++◌, leb, length, take, ◌≡◌, refl, sym,
  subst, ap, ◌∙◌, arith, Bool-cases, inl, inr, All, All-append, All-append_right, append_assoc,
}
use privacy_proxy.Text.{Bytes, is_ascii_alphanumeric}
use privacy_proxy.Checksum.Iban.Laws.{is_valid_iban_iff}
use privacy_proxy.Checksum.Iban.{is_valid_iban, iban_span_loop, valid_iban_span}
use privacy_proxy.Checksum.Iban.Steps.{
  IsSpanChar, letters, letters-append, grown, improved, span_step, span_stop, span_or_stop,
  normalize-letters, grown-letters, length-concat, take_here, concat_splits, improved-some,
}

-- A prefix of `n` bytes that the function may report: it ends in a letter or digit `last`, holds
-- letters, digits and white space only, 34 letters and digits at most, and is a valid IBAN.
pub record IsSpan (input : Bytes) (n : ℕ) : Type 0 where
  pub front : Bytes
  pub last : ℕ
  pub back : Bytes
  pub splits : input ≡ front ++ last ∷ back
  pub size : n ≡ length front + 1
  pub solid : is_ascii_alphanumeric last ≡ true
  pub chars : All IsSpanChar (front ++ last ∷ [])
  pub few : letters (front ++ last ∷ []) ≤ 34
  pub valid : is_valid_iban (front ++ last ∷ []) ≡ true

-- What is known of the best end found so far.
abbrev Sound : Bytes → Option ℕ → Type 0
Sound input none = Unit
Sound input (some n) = IsSpan input n

improved-Sound :
    (input front rest : Bytes) (ch offset count : ℕ) (best : Option ℕ)
    → input ≡ front ++ ch ∷ rest
    → offset ≡ length front
    → All IsSpanChar (front ++ ch ∷ [])
    → grown count ch ≡ letters (front ++ ch ∷ [])
    → grown count ch ≤ 34
    → Sound input best
    → Sound input (improved input ch offset count best)
improved-Sound input front rest ch offset count best e o h l le s =
    elim (Bool-cases (
      is_ascii_alphanumeric ch
      && leb 15 (grown count ch)
      && is_valid_iban (take (offset + 1) input))) [
        | inr n ↦ rw n s
        | inl y ↦ rw y (record {
          front = front;
          last = ch;
          back = rest;
          splits = e;
          size = omega arith;
          solid = ground arith;
          chars = h;
          few = omega arith;
          valid =
              subst (λ t. is_valid_iban t ≡ true) (take_here input front rest ch offset e o)
                (ground arith);
        })
      ]

span-Sound :
    (rest front input : Bytes) (offset count : ℕ) (best : Option ℕ)
    → input ≡ front ++ rest
    → offset ≡ length front
    → count ≡ letters front
    → All IsSpanChar front
    → Sound input best
    → Sound input (iban_span_loop input rest offset count best)
span-Sound [] front input offset count best e o c h s = unfold iban_span_loop in s
span-Sound (ch ∷ rest) front input offset count best e o c h s = elim (span_or_stop ch count) [
  | inr stop ↦ rw (span_stop input rest ch offset count best stop) s
  | inl (p, le) ↦
      let h' = All-append IsSpanChar front (ch ∷ []) h (p, tt) in
      let l = grown-letters front count ch c in
      rw (span_step input rest ch offset count best p le) (
        span-Sound rest (front ++ ch ∷ []) input (offset + 1) (grown count ch)
          (improved input ch offset count best) (concat_splits input front rest ch e)
          (length-concat front offset ch o) l h'
          (improved-Sound input front rest ch offset count best e o h' l le s))
]

-- The best end only moves forward.
span_keeps :
    (rest input : Bytes) (offset count k : ℕ)
    → k ≤ offset
    → (n : ℕ) × (iban_span_loop input rest offset count (some k) ≡ some n) × (k ≤ n)
span_keeps [] input offset count k h = (k, unfold iban_span_loop in refl, omega arith)
span_keeps (ch ∷ rest) input offset count k h = elim (span_or_stop ch count) [
  | inr stop ↦ (k, span_stop input rest ch offset count (some k) stop, omega arith)
  | inl (p, le) ↦ elim (improved-some input ch offset count k) [
    | inl same ↦
        let (n, e, m) = span_keeps rest input (offset + 1) (grown count ch) k (omega arith) in
        (n, span_step input rest ch offset count (some k) p le ∙ rw same e, m)
    | inr more ↦
        let (n, e, m) =
          span_keeps rest input (offset + 1) (grown count ch) (offset + 1) (omega arith) in
        (n, span_step input rest ch offset count (some k) p le ∙ rw more e, omega arith)
  ]
]

long_enough : (text : Bytes) → All IsSpanChar text → is_valid_iban text ≡ true → 15 ≤ letters text
long_enough text h valid =
    let iban = (is_valid_iban_iff text).0 valid in
    omega (arith, iban.long_enough, normalize-letters text h)

improved-found :
    (input front back : Bytes) (last offset count : ℕ) (best : Option ℕ)
    → input ≡ front ++ last ∷ back
    → offset ≡ length front
    → grown count last ≡ letters (front ++ last ∷ [])
    → is_ascii_alphanumeric last ≡ true
    → All IsSpanChar (front ++ last ∷ [])
    → is_valid_iban (front ++ last ∷ []) ≡ true
    → improved input last offset count best ≡ some (offset + 1)
improved-found input front back last offset count best e o l solid h valid = ground (
  arith,
  ap is_valid_iban (take_here input front back last offset e o),
  long_enough (front ++ last ∷ []) h valid,
)

span_found :
    (todo front back input : Bytes) (last offset count : ℕ) (best : Option ℕ)
    → input ≡ front ++ (todo ++ last ∷ back)
    → offset ≡ length front
    → count ≡ letters front
    → is_ascii_alphanumeric last ≡ true
    → All IsSpanChar (front ++ (todo ++ last ∷ []))
    → letters (front ++ (todo ++ last ∷ [])) ≤ 34
    → is_valid_iban (front ++ (todo ++ last ∷ [])) ≡ true
    → (n : ℕ) × (iban_span_loop input (todo ++ last ∷ back) offset count best ≡ some n)
      × (offset + length todo + 1 ≤ n)
span_found [] front back input last offset count best e o c solid h few valid =
    let l = grown-letters front count last c in
    let found = improved-found input front back last offset count best e o l solid h valid in
    let here = (All-append_right IsSpanChar front (last ∷ []) h).0 in
    let (n, r, m) =
      span_keeps back input (offset + 1) (grown count last) (offset + 1) (omega arith) in
    (n, span_step input back last offset count best here (omega arith) ∙ rw found r, omega arith)
span_found (ch ∷ todo) front back input last offset count best e o c solid h few valid =
    let tail = todo ++ last ∷ [] in
    let here = (All-append_right IsSpanChar front (ch ∷ tail) h).0 in
    let same = append_assoc front (ch ∷ []) tail in
    let l = grown-letters front count ch c in
    let room : grown count ch ≤ 34 =
      omega (arith, l, letters-append (front ++ ch ∷ []) tail, ap letters same) in
    let (n, r, m) =
      span_found todo (front ++ ch ∷ []) back input last (offset + 1) (grown count ch)
        (improved input ch offset count best) (concat_splits input front (todo ++ last ∷ back) ch e)
        (length-concat front offset ch o) l solid (subst (All IsSpanChar) (sym same) h)
        (omega (arith, ap letters same)) (ap is_valid_iban same ∙ valid) in
    (n, span_step input (todo ++ last ∷ back) ch offset count best here room ∙ r, omega arith)

-- What `valid_iban_span` reports is a prefix of the text that ends in a letter or digit, holds letters,
-- digits and white space only, of letters and digits 34 at most, and is a valid IBAN. It reports one
-- if there is one, and no prefix of which all this holds is longer.
pub valid_iban_span_longest :
    (input : Bytes)
    → ((n : ℕ) → valid_iban_span input ≡ some n → IsSpan input n)
      × ((m : ℕ) → IsSpan input m → (n : ℕ) × (valid_iban_span input ≡ some n) × (m ≤ n))
unfolding valid_iban_span
valid_iban_span_longest input = (
  λ n e. subst (Sound input) e (span-Sound input [] input 0 0 none refl refl refl tt tt),
  λ m s.
      let (n, r, le) =
        span_found s.front [] s.back input s.last 0 0 none s.splits refl refl s.solid s.chars s.few
          s.valid in
      (n, ap (λ rest. iban_span_loop input rest 0 0 none) s.splits ∙ r, omega (arith, s.size)),
)
