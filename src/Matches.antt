-- ===== src/Matches.antt =====
-- crates/privacy_proxy_core/src/engine.rs: `replace_matches`, the loop that rewrites the matches of
-- a pattern in a text.
pub mod Laws
pub mod Edited
use privacy_proxy.Base.{
  ℕ, Bool, true, false, Option, none, some, List, [], ◌∷◌, ◌++◌, ltb, if◌then◌else◌, drop,
}
use privacy_proxy.Text.{Bytes, slice}
use privacy_proxy.Error.{Result, ok, err, ◌>>=◌}
use privacy_proxy.Stats.{ScanReport}
use privacy_proxy.External.{Match, Captures, group}

-- The closure: from the groups of a match and the report so far to the text to put there, if any,
-- and the report.
abbrev pub Replacer : Type 0
Replacer = Captures → ScanReport → Result (Option Bytes × ScanReport)

-- The variables of the loop.
pub record Rewriting : Type 0 where
  pub output : Bytes
  pub last_end : ℕ
  pub changed : Bool
  pub stats : ScanReport

abbrev pub start_rewriting : ScanReport → Rewriting
start_rewriting stats = record { output = []; last_end = 0; changed = false; stats = stats }

-- What is written for the text between `start` and `stop`.
unfoldable pub write_piece : Bytes → ℕ → ℕ → Rewriting → Option Bytes × ScanReport → Rewriting
write_piece input start stop s (none, stats) = record s { stats = stats }
write_piece input start stop s (some text, stats) = record {
  output = s.output ++ (slice input s.last_end start ++ text);
  last_end = stop;
  changed = true;
  stats = stats;
}

unfoldable pub replace_found : Bytes → Replacer → Captures → Rewriting → Match → Result Rewriting
unfolding write_piece
replace_found input replacer captures s full_match =
    if ltb full_match.start s.last_end then ok s else do
      piece ← replacer captures s.stats
      ok (write_piece input full_match.start full_match.stop s piece)

-- One round of the loop.
unfoldable pub replace_step : Bytes → Replacer → Captures → Rewriting → Result Rewriting
unfolding replace_found
replace_step input replacer captures s = elim (group captures 0) [
  | none ↦ ok s
  | some full_match ↦ replace_found input replacer captures s full_match
]

unfoldable pub replace_loop : Bytes → Replacer → List Captures → Rewriting → Result Rewriting
unfolding replace_step
replace_loop input replacer [] s = ok s
replace_loop input replacer (captures ∷ rest) s = do
  s' ← replace_step input replacer captures s
  replace_loop input replacer rest s'

-- What the loop leaves, and what stands behind the last match.
unfoldable pub finish_rewriting : Bytes → Rewriting → Bytes
finish_rewriting input s = if s.changed then s.output ++ drop s.last_end input else input

-- The second argument is `regex.captures_iter(input)`.
unfoldable pub replace_matches :
    Bytes → List Captures → ScanReport → Replacer → Result (Bytes × ScanReport)
unfolding replace_loop finish_rewriting
replace_matches input matches stats replacer = do
  s ← replace_loop input replacer matches (start_rewriting stats)
  ok (finish_rewriting input s, s.stats)
