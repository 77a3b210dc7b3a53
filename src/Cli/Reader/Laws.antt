-- ===== src/Cli/Reader/Laws.antt =====
-- The line reader finds the lines of the text, however the text is cut into buffers.
use privacy_proxy.Base.{
  ℕ, zero, suc, ◌+◌, ◌≤◌, ◌<◌, false, none, some, [], ◌∷◌, ◌++◌, ltb, ◌==◌, if◌then◌else◌, length,
  take, drop, ◌≡◌, refl, sym, ◌∙◌, ap, arith, inl, inr, Option-cases, Bool-cases, ◌⊎◌, append_assoc,
  append-nil, length-append,
}
use privacy_proxy.Text.{Bytes, is_empty, find}
use privacy_proxy.Text.Laws.{is_empty_iff}
use privacy_proxy.Error.{ok, err}
use privacy_proxy.Stats.{u64_max}
use privacy_proxy.Cli.Reader.{
  line_too_long, Reader, unread, read_loop, read_limited_line, split_line_ending,
}

-- The text up to and with its first line feed, and the text behind it.
pub first_line : Bytes → Bytes
first_line [] = []
first_line (ch ∷ text) = let rest = first_line text in if ch == b'\n' then ch ∷ [] else ch ∷ rest

pub after_line : Bytes → Bytes
after_line [] = []
after_line (ch ∷ text) = let rest = after_line text in if ch == b'\n' then text else rest

pub after_line-length :
    (ch : ℕ) (text : Bytes) → length (after_line (ch ∷ text)) < length (ch ∷ text)
unfolding after_line
after_line-length ch [] = ground arith
after_line-length ch (next ∷ text) = ground (arith, after_line-length next text)

pub first_line-empty : (text : Bytes) → is_empty (first_line text) ≡ is_empty text
unfolding first_line is_empty
first_line-empty [] = refl
first_line-empty (ch ∷ text) = ground arith

-- A reader that never fails and whose buffers are not empty.
abbrev pub Readable : Reader → Type 0
Readable [] = Unit
Readable (none ∷ reader) = ⊥
Readable (some available ∷ reader) = (is_empty available ≡ false) × Readable reader

-- All that is left to read.
abbrev pub contents : Reader → Bytes
contents [] = []
contents (none ∷ reader) = []
contents (some available ∷ reader) = available ++ contents reader

-- What is read when no line is left over.
find-none :
    (text rest : Bytes)
    → find b'\n' text ≡ none
    → (first_line (text ++ rest) ≡ text ++ first_line rest)
      × (after_line (text ++ rest) ≡ after_line rest)
unfolding find first_line after_line
find-none [] rest h = (refl, refl)
find-none (ch ∷ text) rest h = ground (arith, find-none text rest)

find-some :
    (text rest : Bytes) (position : ℕ)
    → find b'\n' text ≡ some position
    → (first_line (text ++ rest) ≡ take (position + 1) text)
      × (after_line (text ++ rest) ≡ drop (position + 1) text ++ rest)
      × (length (first_line (text ++ rest)) ≡ position + 1)
unfolding find first_line after_line
find-some [] rest position h = cc
find-some (ch ∷ text) rest zero h = ground (arith, find-some text rest)
find-some (ch ∷ text) rest (suc position) h = ground (arith, find-some text rest position)

-- What a round of the loop does, by whether its buffer has a line feed.
module _ (available : Bytes) (reader : Reader) (buffer : Bytes) (max_line_bytes : ℕ)
    (filled : is_empty available ≡ false) (bounded : max_line_bytes < u64_max) where
  round-none :
      find b'\n' available ≡ none
      → read_loop (some available ∷ reader) buffer max_line_bytes ≡ (
          if ltb max_line_bytes (length buffer + length available)
          then err (line_too_long max_line_bytes)
          else read_loop reader (buffer ++ available) max_line_bytes)
  unfolding read_loop
  round-none h = rw (filled, h) (ground arith)

  round-some :
      (position : ℕ)
      → find b'\n' available ≡ some position
      → read_loop (some available ∷ reader) buffer max_line_bytes ≡ (
          if ltb max_line_bytes (length buffer + (position + 1))
          then err (line_too_long max_line_bytes)
          else ok (
            buffer ++ take (position + 1) available,
            unread (drop (position + 1) available) reader,
          ))
  unfolding read_loop
  round-some position h = rw (filled, h) (ground arith)

unread-Readable : (rest : Bytes) (reader : Reader) → Readable reader → Readable (unread rest reader)
unread-Readable rest reader h = ground arith

unread-contents :
    (rest : Bytes) (reader : Reader) → contents (unread rest reader) ≡ rest ++ contents reader
unfolding is_empty
unread-contents [] reader = refl
unread-contents (ch ∷ rest) reader = refl

-- What reading a line that is short enough gives.
abbrev pub ReadsLine : Reader → Bytes → ℕ → Type 0
ReadsLine reader buffer max_line_bytes =
    (later : Reader) × (read_loop reader buffer max_line_bytes
      ≡ ok (buffer ++ first_line (contents reader), later))
    × Readable later
    × (contents later ≡ after_line (contents reader))

loop_short :
    (reader : Reader) (buffer : Bytes) (max_line_bytes : ℕ)
    → Readable reader
    → max_line_bytes < u64_max
    → length buffer + length (first_line (contents reader)) ≤ max_line_bytes
    → ReadsLine reader buffer max_line_bytes
unfolding read_loop first_line after_line
loop_short [] buffer max_line_bytes h lt le =
    ([], ap (λ t. ok (t, [])) (sym (append-nil buffer)), tt, refl)
loop_short (none ∷ reader) buffer max_line_bytes h lt le = elim h [ ]
loop_short (some available ∷ reader) buffer max_line_bytes h lt le =
    elim (Option-cases (find b'\n' available)) [
      | inl e ↦
          let (line, after) = find-none available (contents reader) e in
          let size = length-append {0} available (first_line (contents reader)) in
          let room = length-append {0} buffer available in
          let (later, run, readable, left) =
            loop_short reader (buffer ++ available) max_line_bytes h.1 lt
              (omega (arith, le, ap length line, size, room)) in
          let step = round-none available reader buffer max_line_bytes h.0 lt e in
          (
            later,
            ground (
              arith,
              step,
              run,
              line,
              size,
              le,
              append_assoc buffer available (first_line (contents reader)),
            ),
            readable,
            left ∙ sym after,
          )
      | inr (position, e) ↦
          let (line, after, inside) = find-some available (contents reader) position e in
          let rest = drop (position + 1) available in
          let step = round-some available reader buffer max_line_bytes h.0 lt position e in
          (
            unread rest reader,
            ground (arith, step, line, inside, le),
            unread-Readable rest reader h.1,
            unread-contents rest reader ∙ sym after,
          )
    ]

loop_long :
    (reader : Reader) (buffer : Bytes) (max_line_bytes : ℕ)
    → Readable reader
    → max_line_bytes < u64_max
    → length buffer ≤ max_line_bytes
    → max_line_bytes < length buffer + length (first_line (contents reader))
    → read_loop reader buffer max_line_bytes ≡ err (line_too_long max_line_bytes)
unfolding read_loop first_line
loop_long [] buffer max_line_bytes h lt fits over = absurd (omega arith)
loop_long (none ∷ reader) buffer max_line_bytes h lt fits over = elim h [ ]
loop_long (some available ∷ reader) buffer max_line_bytes h lt fits over =
    elim (Option-cases (find b'\n' available)) [
      | inl e ↦
          let (line, after) = find-none available (contents reader) e in
          let size = length-append {0} available (first_line (contents reader)) in
          let room = length-append {0} buffer available in
          let step = round-none available reader buffer max_line_bytes h.0 lt e in
          elim (Bool-cases (ltb max_line_bytes (length buffer + length available))) [
            | inl full ↦ step ∙ rw full refl
            | inr fits' ↦
                step
                ∙ rw fits' (
                    loop_long reader (buffer ++ available) max_line_bytes h.1 lt
                      (ground (arith, room)) (omega (arith, over, ap length line, size, room)))
          ]
      | inr (position, e) ↦
          let (line, after, inside) = find-some available (contents reader) position e in
          let step = round-some available reader buffer max_line_bytes h.0 lt position e in
          ground (arith, step, inside, over)
    ]

-- On a reader whose buffers are filled and do not fail, under a limit below the largest u64: a next
-- line of at most `max_line_bytes` bytes, its line feed included, is returned, and what is left to
-- read is the text behind it; a longer line is refused. How the text is cut into buffers has no part
-- in it.
pub read_limited_line_lem :
    (reader : Reader) (max_line_bytes : ℕ)
    → Readable reader
    → max_line_bytes < u64_max
    → (length (first_line (contents reader)) ≤ max_line_bytes
        → (later : Reader) × (read_limited_line reader max_line_bytes
            ≡ ok (first_line (contents reader), later))
          × Readable later
          × (contents later ≡ after_line (contents reader)))
      × (max_line_bytes < length (first_line (contents reader))
          → read_limited_line reader max_line_bytes ≡ err (line_too_long max_line_bytes))
unfolding read_limited_line
read_limited_line_lem reader max_line_bytes h lt = (
  λ le. loop_short reader [] max_line_bytes h lt (omega (arith, le)),
  λ over. loop_long reader [] max_line_bytes h lt (omega arith) (omega (arith, over)),
)

-- Splitting off the line ending loses nothing: the content and the ending make the line. The ending
-- is none, a line feed, or a carriage return and a line feed.
pub split_line_ending-append :
    (line : Bytes)
    → ((split_line_ending line).0 ++ (split_line_ending line).1 ≡ line)
      × (((split_line_ending line).1 ≡ [])
          ⊎ (((split_line_ending line).1 ≡ b'\n' ∷ [])
              ⊎ ((split_line_ending line).1 ≡ b'\r' ∷ b'\n' ∷ [])))
unfolding split_line_ending
split_line_ending-append [] = (refl, inl refl)
split_line_ending-append (ch ∷ []) = ground arith
split_line_ending-append (ch ∷ next ∷ line) =
    ground (arith, split_line_ending-append (next ∷ line), is_empty_iff line)
