-- ===== src/Engine/Ibans.antt =====
-- `Engine::replace_ibans`: its loop goes over the places where an IBAN may start.
use privacy_proxy.Base.{ℕ, ◌+◌, none, some, List, [], ◌∷◌, ltb, if◌then◌else◌, drop}
use privacy_proxy.Text.{Bytes, slice}
use privacy_proxy.Error.{Result, ok, ◌>>=◌}
use privacy_proxy.Stats.{ScanReport, record_kind}
use privacy_proxy.Config.{iban}
use privacy_proxy.External.{External, Match}
use privacy_proxy.Policy.{Replace}
use privacy_proxy.Matches.{Rewriting, start_rewriting, write_piece, finish_rewriting}
use privacy_proxy.Checksum.Iban.{normalize_iban, valid_iban_span}
use privacy_proxy.Engine.Patterns.{Engine}

-- The loop takes `policy.replacement`, all that it uses of the policy.
module _ (replacement : Replace) (input : Bytes) where
  -- An IBAN of `span_len` bytes at `start`.
  unfoldable pub replace_iban_at : ℕ → Rewriting → ℕ → Result Rewriting
  unfolding write_piece
  replace_iban_at start s span_len = do
    let stop = start + span_len
    text ← replacement iban (normalize_iban (slice input start stop))
    ok (write_piece input start stop s (some text, record_kind s.stats iban))

  unfoldable pub iban_step : Match → Rewriting → Result Rewriting
  unfolding replace_iban_at
  iban_step candidate_start s =
      if ltb candidate_start.start s.last_end
      then ok s
      else elim (valid_iban_span (drop candidate_start.start input)) [
        | none ↦ ok s
        | some span_len ↦ replace_iban_at candidate_start.start s span_len
      ]

  unfoldable pub iban_loop : List Match → Rewriting → Result Rewriting
  unfolding iban_step
  iban_loop [] s = ok s
  iban_loop (candidate_start ∷ rest) s = do s' ← iban_step candidate_start s; iban_loop rest s'

unfoldable pub replace_ibans :
    (x : External) → Engine x → Bytes → Replace → ScanReport → Result (Bytes × ScanReport)
unfolding iban_loop finish_rewriting
replace_ibans x engine input replacement stats = do
  s ← iban_loop replacement input (x.find_iter engine.patterns.iban input) (start_rewriting stats)
  ok (finish_rewriting input s, s.stats)
