-- ===== src/Examples/Lines.antt =====
-- Lines read from buffers.
use privacy_proxy.Base.{◌≤◌, ◌<◌, some, [], ◌∷◌, length, ◌≡◌, refl, arith}
use privacy_proxy.Text.{codes, is_empty}
use privacy_proxy.Error.{Fallible, ok, err, Returns}
use privacy_proxy.Stats.{default_report}
use privacy_proxy.Policy.{from_config}
use privacy_proxy.Cli.Reader.{Problem, line_too_long, Reader, read_limited_line}
use privacy_proxy.Cli.Reader.Laws.{
  first_line, after_line, Readable, contents, read_limited_line_lem,
}
use privacy_proxy.Cli.Run.{Finished, redact_jsonl, ScanOutput, scan_jsonl}
use privacy_proxy.Cli.Run.Counts.{Counts}
use privacy_proxy.Cli.Run.Scan.{scan_jsonl_lem}
use privacy_proxy.Cli.Run.Laws.{redact_jsonl_lem}
use privacy_proxy.Examples.Setting.{sample, engine}

abbrev one_buffer : Reader
one_buffer = some (codes "ab\nc") ∷ []

abbrev three_buffers : Reader
three_buffers = some (codes "a") ∷ some (codes "b\n") ∷ some (codes "c") ∷ []

one-Readable : Readable one_buffer
unfolding is_empty
one-Readable = (refl, tt)

three-Readable : Readable three_buffers
unfolding is_empty
three-Readable = (refl, (refl, (refl, tt)))

read_limited_line_example :
    (length (first_line (contents three_buffers)) ≤ 8
      → (later : Reader) × (read_limited_line three_buffers 8
          ≡ ok (first_line (contents three_buffers), later))
        × Readable later
        × (contents later ≡ after_line (contents three_buffers)))
    × (8 < length (first_line (contents three_buffers))
        → read_limited_line three_buffers 8 ≡ err (line_too_long 8))
read_limited_line_example = read_limited_line_lem three_buffers 8 three-Readable (omega arith)

redact_jsonl_example :
    (result : Finished) × (redact_jsonl (λ line. ok line) 8 9 three_buffers ≡ some result)
    × (redact_jsonl (λ line. ok line) 8 9 one_buffer ≡ some result)
redact_jsonl_example =
    redact_jsonl_lem (λ line. ok line) 8 9 three_buffers one_buffer three-Readable one-Readable refl
      (omega arith) (omega arith)

policy_made : Returns (from_config sample engine.config)
unfolding from_config
policy_made = (_, refl)

scan_jsonl_example :
    (result : Fallible Problem ScanOutput) × (scan_jsonl
        (λ line. ok default_report)
        1
        8
        9
        three_buffers
      ≡ some result)
    × (scan_jsonl (λ line. ok default_report) 1 8 9 one_buffer ≡ some result)
    × Counts (λ line. ok default_report) 1 8 (contents three_buffers) 0 default_report result
scan_jsonl_example =
    scan_jsonl_lem (λ line. ok default_report) 1 8 9 three_buffers one_buffer three-Readable
      one-Readable refl (omega arith) (omega arith)
