-- ===== src/Proxy/Render/Samples.antt =====
-- A reader of the text format of Prometheus, as a scraper reads it: the samples in a text.
use privacy_proxy.Base.{
  ℕ, Bool, false, ◌||◌, Option, none, some, List, [], ◌∷◌, ◌==◌, if◌then◌else◌, drop,
}
use privacy_proxy.Text.{Bytes, codes, split, starts_with}
use privacy_proxy.Text.Number.{read_decimal}
use privacy_proxy.Proxy.Metrics.Laws.{unescape}

-- A name, the value of its label if it has one, and the number.
abbrev pub Sample : Type 0
Sample = Bytes × Option Bytes × ℕ

-- The text up to the first byte of a kind, and what is left from there on.
unfoldable pub until : (ℕ → Bool) → Bytes → Bytes × Bytes
until stop [] = ([], [])
until stop (ch ∷ text) =
    let (before, rest) = until stop text in if stop ch then ([], ch ∷ text) else (ch ∷ before, rest)

abbrev pub ends_name : ℕ → Bool
ends_name ch = (ch == b' ') || (ch == b'{')

-- Behind the value of a label and its quote: the brace, the blank and the number.
abbrev pub labelled : Bytes → Bytes × Bytes → Option Sample
labelled name (value, text) =
    if starts_with text (codes "} ")
    then some (name, some value, (read_decimal 0 (drop 2 text)).0)
    else none

-- Behind a name.
unfoldable pub after_name : Bytes → Bytes → Option Sample
after_name name [] = none
after_name name (ch ∷ text) =
    if ch == b' '
    then some (name, none, (read_decimal 0 text).0)
    else elim (until (λ c. c == b'"') text).1 [
      | [] ↦ none
      | quote ∷ label ↦ labelled name (unescape false label)
    ]

-- A line: a comment or an empty line has no sample.
unfoldable pub sample : Bytes → Option Sample
unfolding until after_name
sample [] = none
sample (ch ∷ text) =
    if ch == b'#'
    then none
    else let (name, rest) = until ends_name (ch ∷ text) in after_name name rest

abbrev pub and_others : Option Sample → List Sample → List Sample
and_others none others = others
and_others (some one) others = one ∷ others

unfoldable pub all_samples : List Bytes → List Sample
all_samples [] = []
all_samples (line ∷ lines) = and_others (sample line) (all_samples lines)

unfoldable pub samples : Bytes → List Sample
samples text = all_samples (split b'\n' text)
