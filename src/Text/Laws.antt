-- ===== src/Text/Laws.antt =====
-- Laws of the comparison and the search of texts.
use privacy_proxy.Base.{
  ℕ, Bool, true, not, all, ◌==◌, [], ◌∷◌, ◌++◌, ◌≡◌, ◌↔◌, refl, arith, Bool-cases, inl, inr, ap,
  subst, sym,
}
use privacy_proxy.Text.{Bytes, equal, starts_with, contains, is_empty, split, split_first}

pub equal_iff : (a b : Bytes) → (equal a b ≡ true) ↔ (a ≡ b)
unfolding equal
equal_iff [] _ = ground arith
equal_iff _ [] = ground arith
equal_iff (ch ∷ more) (ch' ∷ more') = ground (arith, equal_iff more more')

pub equal_refl : (a : Bytes) → equal a a ≡ true
equal_refl a = (equal_iff a a).1 refl

pub is_empty_iff : (a : Bytes) → (is_empty a ≡ true) ↔ (a ≡ [])
unfolding is_empty
is_empty_iff [] = ground arith
is_empty_iff (x ∷ a) = ground arith

pub starts_with-rest :
    (text piece : Bytes) → starts_with text piece ≡ true → (rest : Bytes) × (text ≡ piece ++ rest)
unfolding starts_with
starts_with-rest text [] h = (text, refl)
starts_with-rest [] (p ∷ ps) h = cc
starts_with-rest (c ∷ cs) (p ∷ ps) h =
    let tail : starts_with cs ps ≡ true = ground arith in
    let (rest, e) = starts_with-rest cs ps tail in (rest, ground arith)

pub starts_with-append : (piece rest : Bytes) → starts_with (piece ++ rest) piece ≡ true
unfolding starts_with
starts_with-append [] [] = refl
starts_with-append [] (x ∷ rest) = refl
starts_with-append (p ∷ ps) rest = ground (arith, starts_with-append ps rest)

-- `piece` stands somewhere in `text`.
abbrev pub Infix : Bytes → Bytes → Type 0
Infix text piece = (front : Bytes) × (rest : Bytes) × (text ≡ front ++ (piece ++ rest))

pub contains-Infix : (text piece : Bytes) → contains text piece ≡ true → Infix text piece
unfolding contains
contains-Infix [] piece h = let (rest, e) = starts_with-rest [] piece h in ([], rest, e)
contains-Infix (c ∷ cs) piece h = elim (Bool-cases (starts_with (c ∷ cs) piece)) [
  | inl here ↦ let (rest, e) = starts_with-rest (c ∷ cs) piece here in ([], rest, e)
  | inr there ↦
      let (front, rest, e) = contains-Infix cs piece (ground arith) in
      (c ∷ front, rest, ap (◌∷◌ c) e)
]

starts_with-contains :
    (text piece : Bytes) → starts_with text piece ≡ true → contains text piece ≡ true
unfolding contains
starts_with-contains [] piece h = h
starts_with-contains (c ∷ cs) piece h = ground arith

pub contains-append : (front piece rest : Bytes) → contains (front ++ (piece ++ rest)) piece ≡ true
unfolding contains
contains-append [] piece rest =
    starts_with-contains (piece ++ rest) piece (starts_with-append piece rest)
contains-append (c ∷ front) piece rest = ground (arith, contains-append front piece rest)

pub Infix-contains : (text piece : Bytes) → Infix text piece → contains text piece ≡ true
Infix-contains text piece (front, rest, e) =
    subst (λ t. contains t piece ≡ true) (sym e) (contains-append front piece rest)

pub all-append :
    (p : ℕ → Bool) (xs ys : Bytes) → all p xs ≡ true → all p ys ≡ true → all p (xs ++ ys) ≡ true
all-append p [] ys h k = k
all-append p (x ∷ xs) ys h k = ground (arith, all-append p xs ys)

-- A text within one line.
abbrev pub one_line : Bytes → Bool
one_line = all (λ ch. not (ch == b'\n'))

pub split_first-line :
    (line rest : Bytes)
    → one_line line ≡ true
    → split_first b'\n' (line ++ b'\n' ∷ rest) ≡ (line, split b'\n' rest)
unfolding split_first split
split_first-line [] rest h = refl
split_first-line (ch ∷ line) rest h = ground (arith, split_first-line line rest)
