-- ===== src/Matches/Laws.antt =====
-- When `replace_matches` fails, and when it leaves a text as it is.
use privacy_proxy.Base.{
  ℕ, Option, none, some, List, [], ◌∷◌, ltb, Option-cases, Bool-cases, ◌≡◌, refl, ◌∙◌, arith, inl,
  inr,
}
use privacy_proxy.Text.{Bytes}
use privacy_proxy.Error.{Returns, ok, bind-eq-ok}
use privacy_proxy.Stats.{ScanReport}
use privacy_proxy.External.{Match, Captures, group}
use privacy_proxy.Matches.{
  Replacer, Rewriting, start_rewriting, write_piece, replace_found, replace_step, replace_loop,
  finish_rewriting, replace_matches,
}

-- The closure never fails.
abbrev pub NeverFails : Replacer → Type 0
NeverFails replacer = (captures : Captures) (stats : ScanReport) → Returns (replacer captures stats)

module _ (input : Bytes) (replacer : Replacer) (total : NeverFails replacer) where
  replace_found_total :
      (captures : Captures) (s : Rewriting) (full_match : Match)
      → Returns (replace_found input replacer captures s full_match)
  unfolding replace_found
  replace_found_total captures s full_match = elim (Bool-cases (ltb full_match.start s.last_end)) [
    | inl early ↦ (s, rw early)
    | inr here ↦
        let (piece, e) = total captures s.stats in
        (write_piece input full_match.start full_match.stop s piece, rw (here, e))
  ]

  replace_step_total :
      (captures : Captures) (s : Rewriting) → Returns (replace_step input replacer captures s)
  unfolding replace_step
  replace_step_total captures s = elim (Option-cases (group captures 0)) [
    | inl e ↦ (s, rw (e, replace_step))
    | inr (m, e) ↦ let (s', r) = replace_found_total captures s m in (s', rw (e, replace_step) r)
  ]

  replace_loop_total :
      (matches : List Captures) (s : Rewriting) → Returns (replace_loop input replacer matches s)
  unfolding replace_loop
  replace_loop_total [] s = (s, refl)
  replace_loop_total (captures ∷ rest) s =
      let (s', e) = replace_step_total captures s in
      let (s'', r) = replace_loop_total rest s' in (s'', rw e r)

  -- If the closure never fails, `replace_matches` returns a text.
  pub replace_matches_total :
      (matches : List Captures) (stats : ScanReport)
      → Returns (replace_matches input matches stats replacer)
  unfolding replace_matches
  replace_matches_total matches stats =
      let (s, e) = replace_loop_total matches (start_rewriting stats) in
      ((finish_rewriting input s, s.stats), rw e)

-- The closure counts what it replaces: if the total is 0 behind it, it replaced nothing, and the
-- total was 0 before.
abbrev pub Counts : Replacer → Type 0
Counts replacer =
    (captures : Captures) (stats stats' : ScanReport) (piece : Option Bytes)
    → replacer captures stats ≡ ok (piece, stats')
    → stats'.total ≡ 0
    → (piece ≡ none) × (stats.total ≡ 0)

module _ (input : Bytes) (replacer : Replacer) (counts : Counts replacer) where
  piece_quiet :
      (captures : Captures) (s s' : Rewriting) (start stop : ℕ) (piece : Option Bytes × ScanReport)
      → replacer captures s.stats ≡ ok piece
      → write_piece input start stop s piece ≡ s'
      → s'.stats.total ≡ 0
      → (s'.changed ≡ s.changed) × (s.stats.total ≡ 0)
  unfolding write_piece
  piece_quiet captures s s' start stop (none, stats) r w z =
      let c = counts captures s.stats stats none r (ground arith) in ground (arith, c.1)
  piece_quiet captures s s' start stop (some text, stats) r w z =
      let c = counts captures s.stats stats (some text) r (ground arith) in cc (c.0)

  replace_found_quiet :
      (captures : Captures) (s s' : Rewriting) (full_match : Match)
      → replace_found input replacer captures s full_match ≡ ok s'
      → s'.stats.total ≡ 0
      → (s'.changed ≡ s.changed) × (s.stats.total ≡ 0)
  unfolding replace_found
  replace_found_quiet captures s s' full_match e z =
      elim (Bool-cases (ltb full_match.start s.last_end)) [
        | inl early ↦ let same : ok s ≡ ok s' = rw early at e in ground arith
        | inr here ↦
            let (piece, r, w) =
              bind-eq-ok (replacer captures s.stats)
                (λ piece. ok (write_piece input full_match.start full_match.stop s piece))
                (rw here at e) in
            piece_quiet captures s s' full_match.start full_match.stop piece r (ground arith) z
      ]

  replace_step_quiet :
      (captures : Captures) (s s' : Rewriting)
      → replace_step input replacer captures s ≡ ok s'
      → s'.stats.total ≡ 0
      → (s'.changed ≡ s.changed) × (s.stats.total ≡ 0)
  unfolding replace_step
  replace_step_quiet captures s s' e z = elim (Option-cases (group captures 0)) [
    | inl no_match ↦ let same : ok s ≡ ok s' = rw (no_match, replace_step) at e in ground arith
    | inr (m, found) ↦ replace_found_quiet captures s s' m (rw (found, replace_step) at e) z
  ]

  replace_loop_quiet :
      (matches : List Captures) (s s' : Rewriting)
      → replace_loop input replacer matches s ≡ ok s'
      → s'.stats.total ≡ 0
      → (s'.changed ≡ s.changed) × (s.stats.total ≡ 0)
  unfolding replace_loop
  replace_loop_quiet [] s s' e z = ground arith
  replace_loop_quiet (captures ∷ rest) s s' e z =
      let (t, step, later) =
        bind-eq-ok (replace_step input replacer captures s)
          (λ t. replace_loop input replacer rest t) e in
      let (c, zt) = replace_loop_quiet rest t s' later z in
      let (c', zs) = replace_step_quiet captures s t step zt in (c ∙ c', zs)

  -- If the closure counts what it replaces, a text that comes back with a total of 0 is the text
  -- that was given.
  pub replace_matches_quiet :
      (matches : List Captures) (stats stats' : ScanReport) (text : Bytes)
      → replace_matches input matches stats replacer ≡ ok (text, stats')
      → stats'.total ≡ 0
      → (text ≡ input) × (stats.total ≡ 0)
  unfolding replace_matches finish_rewriting
  replace_matches_quiet matches stats stats' text e z =
      let (s, run, out) =
        bind-eq-ok (replace_loop input replacer matches (start_rewriting stats))
          (λ s. ok (finish_rewriting input s, s.stats)) e in
      let (c, zs) = replace_loop_quiet matches (start_rewriting stats) s run (ground arith) in
      ground (arith, c, zs)
