-- ===== src/Matches/Edited.antt =====
-- `replace_matches` changes a text at the matches of its pattern, as its closure says, and nowhere
-- else.
use privacy_proxy.Base.{
  ℕ, ◌+◌, ◌-◌, ◌≤◌, false, Option, none, some, List, [], ◌∷◌, ◌++◌, ltb, drop, length, Option-cases,
  Bool-cases, ◌≡◌, refl, sym, ap, ◌∙◌, arith, inl, inr, subst, append_assoc, take-append-drop,
  drop-drop, length-take, length-drop,
}
use native.Mathlib.Nat.{le_trans, le_refl}
use privacy_proxy.Text.{Bytes, slice}
use privacy_proxy.Error.{Result, ok, bind-eq-ok}
use privacy_proxy.Stats.{ScanReport}
use privacy_proxy.External.{Match, Captures, group, match_text, Lies, InOrder}
use privacy_proxy.Matches.{
  Replacer, Rewriting, start_rewriting, write_piece, replace_found, replace_step, replace_loop,
  finish_rewriting, replace_matches,
}

-- `Edited replacer at matches stats before after stats'`: the text `before`, which stands in
-- the input from `at` on, becomes `after` by the matches, and the report `stats` becomes `stats'`. The
-- closure is asked for each match in turn. Where it gives a text, that stands for the match, and
-- what lies between two such matches, in front of the first and behind the last is kept.
pub data Edited (replacer : Replacer)
    : ℕ → List Captures → ScanReport → Bytes → Bytes → ScanReport → Type 0 where
  kept : {at : ℕ} {stats : ScanReport} {text : Bytes} → Edited replacer at [] stats text text stats
  no_group :
      {at : ℕ} {captures : Captures} {matches : List Captures} {stats stats' : ScanReport}
      {before after : Bytes}
      → group captures 0 ≡ none
      → Edited replacer at matches stats before after stats'
      → Edited replacer at (captures ∷ matches) stats before after stats'
  left_alone :
      {at : ℕ} {captures : Captures} {matches : List Captures} {stats asked stats' : ScanReport}
      {before after : Bytes}
      → replacer captures stats ≡ ok (none, asked)
      → Edited replacer at matches asked before after stats'
      → Edited replacer at (captures ∷ matches) stats before after stats'
  replaced :
      {at : ℕ} {captures : Captures} {matches : List Captures} {stats asked stats' : ScanReport}
      {before after : Bytes} (found : Match) (gap old new rest rest' : Bytes)
      → group captures 0 ≡ some found
      → replacer captures stats ≡ ok (some new, asked)
      → before ≡ gap ++ (old ++ rest)
      → found.start ≡ at + length gap
      → found.stop ≡ found.start + length old
      → after ≡ gap ++ (new ++ rest')
      → Edited replacer found.stop matches asked rest rest' stats'
      → Edited replacer at (captures ∷ matches) stats before after stats'

ok_same : {a b : Bytes × ScanReport} → ◌≡◌ {A = Result (Bytes × ScanReport)} (ok a) (ok b) → a ≡ b
ok_same e = cc

-- A text is cut at two places.
cut :
    (input : Bytes) (from start stop : ℕ)
    → from ≤ start
    → start ≤ stop
    → drop from input ≡ slice input from start ++ (slice input start stop ++ drop stop input)
cut input from start stop h k =
    sym (take-append-drop (start - from) (drop from input))
    ∙ ap (λ t. slice input from start ++ t)
        (drop-drop from (start - from) start input (omega arith)
          ∙ sym (take-append-drop (stop - start) (drop start input))
          ∙ ap (λ t. slice input start stop ++ t)
              (drop-drop start (stop - start) stop input (omega arith)))

length-slice :
    (input : Bytes) (from to : ℕ)
    → from ≤ to
    → to ≤ length input
    → to ≡ from + length (slice input from to)
length-slice input from to h k =
    let size = length-drop from input in
    omega (arith, length-take (to - from) (drop from input) (omega arith))

module _ (input : Bytes) (replacer : Replacer) where
  -- The output, with the text that is still to be copied, goes on from `s` by an edited text.
  record Grows (matches : List Captures) (s s' : Rewriting) : Type 0 where
    rest : Bytes
    whole : s'.output ++ drop s'.last_end input ≡ s.output ++ rest
    quiet : s'.changed ≡ false → (s.changed ≡ false) × (rest ≡ drop s.last_end input)
    edited : Edited replacer s.last_end matches s.stats (drop s.last_end input) rest s'.stats

  -- A round that wrote `new` for a match, in front of the others.
  Grows-replaced :
      (captures : Captures) (matches : List Captures) (s s' : Rewriting) (m : Match) (new : Bytes)
      (asked : ScanReport)
      → group captures 0 ≡ some m
      → replacer captures s.stats ≡ ok (some new, asked)
      → s.last_end ≤ m.start
      → m.start ≤ m.stop
      → m.stop ≤ length input
      → Grows matches (write_piece input m.start m.stop s (some new, asked)) s'
      → Grows (captures ∷ matches) s s'
  unfolding write_piece
  Grows-replaced captures matches s s' m new asked found r le le' within g =
      let gap = slice input s.last_end m.start in
      record {
        rest = gap ++ (new ++ g.rest);
        whole = g.whole ∙ simp append_assoc;
        quiet = λ e. let (on, same) = g.quiet e in cc;
        edited =
            replaced m gap (match_text input m) new (drop m.stop input) g.rest found r
              (cut input s.last_end m.start m.stop le le')
              (length-slice input s.last_end m.start le (omega (arith, le', within)))
              (length-slice input m.start m.stop le' within) refl g.edited;
      }

  -- A match that the closure was asked for.
  Grows-asked :
      (captures : Captures) (matches : List Captures) (s s' : Rewriting) (m : Match)
      (piece : Option Bytes × ScanReport)
      → group captures 0 ≡ some m
      → replacer captures s.stats ≡ ok piece
      → s.last_end ≤ m.start
      → m.start ≤ m.stop
      → m.stop ≤ length input
      → Grows matches (write_piece input m.start m.stop s piece) s'
      → Grows (captures ∷ matches) s s'
  unfolding write_piece
  Grows-asked captures matches s s' m (none, asked) found r le le' within g = record {
    rest = g.rest;
    whole = g.whole;
    quiet = g.quiet;
    edited = left_alone r g.edited;
  }
  Grows-asked captures matches s s' m (some new, asked) found r le le' within g =
      Grows-replaced captures matches s s' m new asked found r le le' within g

  write_piece_before :
      (s : Rewriting) (m : Match) (piece : Option Bytes × ScanReport)
      → s.last_end ≤ m.stop
      → (write_piece input m.start m.stop s piece).last_end ≤ m.stop
  unfolding write_piece
  write_piece_before s m (none, asked) le = le
  write_piece_before s m (some new, asked) le = le_refl m.stop

  -- A round at a match that starts where the loop has come, or later: the closure is asked.
  asks :
      (captures : Captures) (s t : Rewriting) (m : Match)
      → group captures 0 ≡ some m
      → s.last_end ≤ m.start
      → replace_step input replacer captures s ≡ ok t
      → (piece : Option Bytes × ScanReport) × (replacer captures s.stats ≡ ok piece)
        × (write_piece input m.start m.stop s piece ≡ t)
  unfolding replace_step replace_found
  asks captures s t m found le e =
      let here : ltb m.start s.last_end ≡ false = ground (arith, le) in
      let (piece, r, w) =
        bind-eq-ok (replacer captures s.stats)
          (λ piece. ok (write_piece input m.start m.stop s piece))
          (rw (found, here, replace_step, replace_found) at e) in
      (piece, r, ground arith)

  loop_Grows :
      (matches : List Captures) (s s' : Rewriting) (from : ℕ)
      → s.last_end ≤ from
      → InOrder from (length input) matches
      → replace_loop input replacer matches s ≡ ok s'
      → Grows matches s s'
  unfolding replace_loop
  loop_Grows [] s s' from le o e =
      subst (Grows [] s) (ground arith) (record {
        rest = drop s.last_end input;
        whole = refl;
        quiet = λ e. (e, refl);
        edited = kept;
      })
  loop_Grows (captures ∷ matches) s s' from le o e =
      let (t, step, run) =
        bind-eq-ok (replace_step input replacer captures s)
          (λ t. replace_loop input replacer matches t) e in
      let later = λ (n : ℕ). InOrder n (length input) matches in
      elim (Option-cases (group captures 0)) [
        | inl none_found ↦
            let same : ok s ≡ ok t = rw (none_found, replace_step) at step in
            let g =
              loop_Grows matches s s' from le (subst (Lies from (length input) later) none_found o)
                (ap (replace_loop input replacer matches) (ground arith) ∙ run) in
            record {
              rest = g.rest;
              whole = g.whole;
              quiet = g.quiet;
              edited = no_group none_found g.edited;
            }
        | inr (m, found) ↦
            let bounds = subst (Lies from (length input) later) found o in
            let (piece, r, w) = asks captures s t m found (le_trans le bounds.0) step in
            Grows-asked captures matches s s' m piece found r (le_trans le bounds.0) bounds.1
              bounds.2
              (loop_Grows matches _ s' m.stop
                (write_piece_before s m piece (le_trans le (le_trans bounds.0 bounds.1))) bounds.3
                (ap (replace_loop input replacer matches) w ∙ run))
      ]

  finish-Edited :
      (matches : List Captures) (stats : ScanReport) (s : Rewriting)
      → Grows matches (start_rewriting stats) s
      → Edited replacer 0 matches stats input (finish_rewriting input s) s.stats
  unfolding finish_rewriting
  finish-Edited matches stats s g = elim (Bool-cases s.changed) [
    | inl yes_changed ↦ rw (yes_changed, g.whole) g.edited
    | inr unchanged ↦ rw unchanged (
        subst (λ rest. Edited replacer 0 matches stats input rest s.stats) (g.quiet unchanged).1
          g.edited)
  ]

-- With the matches of a pattern in order: when `replace_matches` returns a text and a report, the
-- closure was asked for each match in turn, with the report as it was then; where it gave a text,
-- that stands for the match, and every other piece of the input is kept, also behind the last match.
pub replace_matches-Edited :
    (input : Bytes) (replacer : Replacer) (matches : List Captures) (stats stats' : ScanReport)
    (text : Bytes)
    → InOrder 0 (length input) matches
    → replace_matches input matches stats replacer ≡ ok (text, stats')
    → Edited replacer 0 matches stats input text stats'
unfolding replace_matches
replace_matches-Edited input replacer matches stats stats' text o e =
    let (s, run, out) =
      bind-eq-ok (replace_loop input replacer matches (start_rewriting stats))
        (λ s. ok (finish_rewriting input s, s.stats)) e in
    let same : (finish_rewriting input s, s.stats) ≡ (text, stats') = ok_same out in
    subst (λ (r : Bytes × ScanReport). Edited replacer 0 matches stats input r.0 r.1) same
      (finish-Edited input replacer matches stats s
        (loop_Grows input replacer matches (start_rewriting stats) s 0 (le_refl 0) o run))
