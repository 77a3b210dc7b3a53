-- ===== src/Cli/Reader.antt =====
-- `read_limited_line` and `split_line_ending`. A `BufRead` is the list of the buffers that it will
-- fill; `none` is a read that fails. A reader whose next buffer is empty is at its end.
pub mod Laws
use privacy_proxy.Base.{
  ℕ, zero, suc, ◌+◌, Bool, true, false, Option, none, some, List, [], ◌∷◌, ◌++◌, ltb, if◌then◌else◌,
  ◌==◌, ◌&&◌, length, take, drop,
}
use privacy_proxy.Text.{Bytes, codes, is_empty, find}
use privacy_proxy.Error.{Error, Fallible, ok, err}
use privacy_proxy.Stats.{saturating_add}

-- What `anyhow` holds: a message with its numbers, the error of the core crate, and the context that
-- names a line.
pub data Problem : Type 0 where
  read_failed serialize_failed : Problem
  line_too_long not_utf8 : ℕ → Problem
  core : Error → Problem
  at_line : ℕ → Problem → Problem

abbrev pub Reader : Type 0
Reader = List (Option Bytes)

-- What is left behind a buffer of which `rest` was not consumed.
abbrev pub unread : Bytes → Reader → Reader
unread rest reader = if is_empty rest then reader else some rest ∷ reader

-- The loop, with what `buffer` holds.
unfoldable pub read_loop : Reader → Bytes → ℕ → Fallible Problem (Bytes × Reader)
read_loop [] buffer max_line_bytes = ok (buffer, [])
read_loop (none ∷ reader) buffer max_line_bytes = err read_failed
read_loop (some available ∷ reader) buffer max_line_bytes =
    let whole = read_loop reader (buffer ++ available) max_line_bytes in
    if is_empty available
    then ok (buffer, some available ∷ reader)
    else elim (find b'\n' available) [
      | none ↦
          if ltb max_line_bytes (saturating_add (length buffer) (length available))
          then err (line_too_long max_line_bytes)
          else whole
      | some position ↦
          if ltb max_line_bytes (saturating_add (length buffer) (position + 1))
          then err (line_too_long max_line_bytes)
          else ok (
            buffer ++ take (position + 1) available,
            unread (drop (position + 1) available) reader,
          )
    ]

-- The first result is the buffer; its length is what the function returns.
unfoldable pub read_limited_line : Reader → ℕ → Fallible Problem (Bytes × Reader)
unfolding read_loop
read_limited_line reader max_line_bytes = read_loop reader [] max_line_bytes

-- The content and the line ending.
unfoldable pub split_line_ending : Bytes → Bytes × Bytes
split_line_ending [] = ([], [])
split_line_ending (ch ∷ []) = if ch == b'\n' then ([], ch ∷ []) else (ch ∷ [], [])
split_line_ending (ch ∷ next ∷ line) =
    let later = split_line_ending (next ∷ line) in
    if ch == b'\r' && (next == b'\n' && is_empty line)
    then ([], ch ∷ next ∷ [])
    else (ch ∷ later.0, later.1)
