-- ===== src/Cli/Run/Laws.antt =====
-- The loop over the lines, on the text that a reader has left.
use privacy_proxy.Base.{
  ℕ, zero, suc, ◌<◌, Bool, true, false, Option, none, some, [], ◌∷◌, ◌++◌, ltb, if◌then◌else◌,
  length, ◌≡◌, refl, sym, ap, ◌∙◌, arith, inl, inr, Bool-cases,
}
use privacy_proxy.Text.{Bytes, is_empty}
use privacy_proxy.Error.{Fallible, ok, err}
use privacy_proxy.Stats.{u64_max, saturating_add}
use privacy_proxy.Cli.Reader.{Problem, at_line, line_too_long, Reader, read_limited_line}
use privacy_proxy.Cli.Reader.Laws.{
  first_line, after_line, Readable, contents, read_limited_line_lem, after_line-length,
  first_line-empty,
}
use privacy_proxy.Cli.Run.{Finished, go_on, RedactLine, redacted_line, redact_lines, redact_jsonl}

go_on_same :
    (written : Bytes) (piece : Fallible Problem Bytes) (f g : Bytes → Option Finished)
    → ((text : Bytes) → f text ≡ g text)
    → go_on written piece f ≡ go_on written piece g
go_on_same written (err problem) f g h = refl
go_on_same written (ok text) f g h = h text

abbrev Ends : Option Finished → Type 0
Ends run = (result : Finished) × (run ≡ some result)

go_on-Ends :
    (written : Bytes) (piece : Fallible Problem Bytes) (f : Bytes → Option Finished)
    → ((text : Bytes) → Ends (f text))
    → Ends (go_on written piece f)
go_on-Ends written (err problem) f h = (_, refl)
go_on-Ends written (ok text) f h = h text

if-Ends : (b : Bool) (m n : Option Finished) → Ends m → Ends n → Ends (if b then m else n)
if-Ends true m n p q = p
if-Ends false m n p q = q

if_same :
    (b : Bool) (m n n' : Option Finished) → n ≡ n' → (if b then m else n) ≡ (if b then m else n')
if_same true m n n' e = refl
if_same false m n n' e = e

module _ (redact_line : RedactLine) (max_line_bytes : ℕ) where
  -- The loop on the text itself: line by line, each as a whole.
  pub text_lines : ℕ → Bytes → ℕ → Bytes → Option Finished
  text_lines zero text line_number written = none
  text_lines (suc fuel) text line_number written =
      let next = saturating_add line_number 1 in
      if ltb max_line_bytes (length (first_line text))
      then some (record {
        written = written;
        outcome = err (at_line next (line_too_long max_line_bytes));
      })
      else if is_empty text
      then some (record { written = written; outcome = ok tt })
      else go_on written (redacted_line redact_line next (first_line text))
          (λ piece. text_lines fuel (after_line text) next (written ++ piece))

  text_lines_total :
      (fuel : ℕ) (text : Bytes) (line_number : ℕ) (written : Bytes)
      → length text < fuel
      → (result : Finished) × (text_lines fuel text line_number written ≡ some result)
  unfolding text_lines is_empty
  text_lines_total zero text line_number written lt = absurd (omega arith)
  text_lines_total (suc fuel) [] line_number written lt =
      if-Ends (ltb max_line_bytes (length (first_line []))) _ _ (_, refl) (_, refl)
  text_lines_total (suc fuel) (ch ∷ text) line_number written lt =
      if-Ends (ltb max_line_bytes (length (first_line (ch ∷ text)))) _ _ (_, refl)
        (go_on-Ends written
          (redacted_line redact_line (saturating_add line_number 1) (first_line (ch ∷ text))) _
          (λ piece.
            text_lines_total fuel (after_line (ch ∷ text)) (saturating_add line_number 1)
              (written ++ piece) (omega (arith, after_line-length ch text, lt))))

  -- A round of the loop, by what was read.
  abbrev after_read : ℕ → ℕ → Bytes → Fallible Problem (Bytes × Reader) → Option Finished
  after_read fuel next written (err problem) =
      some (record { written = written; outcome = err (at_line next problem) })
  after_read fuel next written (ok (line, reader)) =
      if is_empty line
      then some (record { written = written; outcome = ok tt })
      else go_on written (redacted_line redact_line next line)
          (λ piece. redact_lines redact_line max_line_bytes fuel reader next (written ++ piece))

  redact_lines-after_read :
      (fuel : ℕ) (reader : Reader) (line_number : ℕ) (written : Bytes)
      → redact_lines redact_line max_line_bytes (suc fuel) reader line_number written
        ≡ after_read fuel
            (saturating_add line_number 1)
            written
            (read_limited_line reader max_line_bytes)
  unfolding redact_lines
  redact_lines-after_read fuel reader line_number written =
      go (read_limited_line reader max_line_bytes) refl
    where
      go :
          (r : Fallible Problem (Bytes × Reader))
          → read_limited_line reader max_line_bytes ≡ r
          → redact_lines redact_line max_line_bytes (suc fuel) reader line_number written
            ≡ after_read fuel (saturating_add line_number 1) written r
      go (ok read) e = rw (e, redact_lines) refl
      go (err problem) e = rw (e, redact_lines) refl

  redact_lines-text_lines :
      (fuel : ℕ) (reader : Reader) (line_number : ℕ) (written : Bytes)
      → Readable reader
      → max_line_bytes < u64_max
      → redact_lines redact_line max_line_bytes fuel reader line_number written
        ≡ text_lines fuel (contents reader) line_number written
  unfolding redact_lines text_lines
  redact_lines-text_lines zero reader line_number written h lt = refl
  redact_lines-text_lines (suc fuel) reader line_number written h lt =
      let (short, long) = read_limited_line_lem reader max_line_bytes h lt in
      elim (Bool-cases (ltb max_line_bytes (length (first_line (contents reader))))) [
        | inl over ↦
            redact_lines-after_read fuel reader line_number written
            ∙ ap (after_read fuel (saturating_add line_number 1) written) (long (ground arith))
            ∙ rw over refl
        | inr fits ↦
            let (later, run, readable, left) = short (ground arith) in
            let next = saturating_add line_number 1 in
            let line = first_line (contents reader) in
            redact_lines-after_read fuel reader line_number written
            ∙ ap (after_read fuel next written) run
            ∙ rw (fits, first_line-empty (contents reader))
                (if_same (is_empty (contents reader)) _ _ _ (
                  go_on_same written (redacted_line redact_line next line) _ _ (λ piece.
                    redact_lines-text_lines fuel later next (written ++ piece) readable lt
                    ∙ ap (λ text. text_lines fuel text next (written ++ piece)) left)))
      ]

-- On a reader whose buffers are filled and do not fail, under a limit below the largest u64, and with
-- more fuel than there are bytes to read, `redact_jsonl` ends, and what it writes and how it ends
-- are decided by the text alone: they are the same for every other such reader of the same text,
-- however it is cut into buffers.
pub redact_jsonl_lem :
    (redact_line : RedactLine) (max_line_bytes fuel : ℕ) (reader other : Reader)
    → Readable reader
    → Readable other
    → contents reader ≡ contents other
    → max_line_bytes < u64_max
    → length (contents reader) < fuel
    → (result : Finished) × (redact_jsonl redact_line max_line_bytes fuel reader ≡ some result)
      × (redact_jsonl redact_line max_line_bytes fuel other ≡ some result)
unfolding redact_jsonl
redact_jsonl_lem redact_line max_line_bytes fuel reader other h k same lt enough =
    let (result, e) =
      text_lines_total redact_line max_line_bytes fuel (contents reader) 0 [] enough in
    (
      result,
      redact_lines-text_lines redact_line max_line_bytes fuel reader 0 [] h lt ∙ e,
      redact_lines-text_lines redact_line max_line_bytes fuel other 0 [] k lt
          ∙ ap (λ text. text_lines redact_line max_line_bytes fuel text 0 []) (sym same)
          ∙ e,
    )
