-- ===== src/Cli/Run.antt =====
-- `redact_jsonl` and `scan_jsonl`: the loops over the lines. The writer is what has been written to
-- it; a write that fails is not modelled.
pub mod Counts
pub mod Laws
pub mod Scan
use privacy_proxy.Base.{
  ℕ, zero, suc, ◌+◌, Bool, true, false, not, ◌&&◌, Option, none, some, List, [], ◌∷◌, ◌++◌, ltb,
  leb, if◌then◌else◌,
}
use privacy_proxy.Text.{Bytes, is_empty}
use privacy_proxy.Text.Utf8.{is_utf8}
use privacy_proxy.Error.{Fallible, ok, err, ◌>>=◌, map_err}
use privacy_proxy.Stats.{ScanReport, default_report, merge, saturating_add}
use privacy_proxy.Cli.Reader.{
  Problem, read_failed, not_utf8, at_line, Reader, read_limited_line, split_line_ending,
}

-- What has been written when the loop ends, and how it ends.
pub record Finished : Type 0 where
  pub written : Bytes
  pub outcome : Fallible Problem (Unit {0})

-- A line without its ending, redacted.
abbrev pub RedactLine : Type 0
RedactLine = Bytes → Fallible Problem Bytes

-- What is written for the line of that number.
unfoldable pub redacted_line : RedactLine → ℕ → Bytes → Fallible Problem Bytes
redacted_line redact_line line_number line =
    if is_utf8 line
    then (do
      redacted ← map_err (at_line line_number) (redact_line (split_line_ending line).0)
      ok (redacted ++ (split_line_ending line).1))
    else err (not_utf8 line_number)

-- What the loop does with a line: an error ends it.
abbrev pub go_on : Bytes → Fallible Problem Bytes → (Bytes → Option Finished) → Option Finished
go_on written (err problem) continue = some (record { written = written; outcome = err problem })
go_on written (ok piece) continue = continue piece

module _ (redact_line : RedactLine) (max_line_bytes : ℕ) where
  -- The loop, behind `line_number` lines, with what was written for them. `none` is fuel that ran
  -- out.
  unfoldable pub redact_lines : ℕ → Reader → ℕ → Bytes → Option Finished
  unfolding redacted_line
  redact_lines zero reader line_number written = none
  redact_lines (suc fuel) reader line_number written =
      let next = saturating_add line_number 1 in
      elim (read_limited_line reader max_line_bytes) [
        | err problem ↦ some (record { written = written; outcome = err (at_line next problem) })
        | ok read ↦
            if is_empty read.0
            then some (record { written = written; outcome = ok tt })
            else go_on written (redacted_line redact_line next read.0)
                (λ piece. redact_lines fuel read.1 next (written ++ piece))
      ]

  unfoldable pub redact_jsonl : ℕ → Reader → Option Finished
  unfolding redact_lines
  redact_jsonl fuel reader = redact_lines fuel reader 0 []

pub record ScanOutput : Type 0 where
  pub lines_scanned : ℕ
  pub truncated : Bool
  pub sample_limit : ℕ
  pub max_line_bytes : ℕ
  pub detections : ScanReport

-- `!reader.fill_buf()?.is_empty()`
unfoldable pub more_to_read : Reader → Fallible Problem Bool
more_to_read [] = ok false
more_to_read (none ∷ reader) = err read_failed
more_to_read (some available ∷ reader) = ok (not (is_empty available))

-- How a scan ends, or `none` without fuel.
abbrev pub Scanned : Type 0
Scanned = Option (Fallible Problem ScanOutput)

-- What the loop does with the report of a line: an error ends it.
abbrev pub and_then : Fallible Problem ScanReport → (ScanReport → Scanned) → Scanned
and_then (err problem) continue = some (err problem)
and_then (ok report) continue = continue report

module _ (scan_line : Bytes → Fallible Problem ScanReport) (sample_limit max_line_bytes : ℕ) where
  abbrev pub scanned : ℕ → ScanReport → Bool → ScanOutput
  scanned lines detections truncated = record {
    lines_scanned = lines;
    truncated = truncated;
    sample_limit = sample_limit;
    max_line_bytes = max_line_bytes;
    detections = detections;
  }

  -- The report of the line of that number.
  unfoldable pub scanned_line : ℕ → Bytes → Fallible Problem ScanReport
  scanned_line number line =
      if is_utf8 line then scan_line (split_line_ending line).0 else err (not_utf8 number)

  -- The loop, behind `lines` lines with the report of them.
  unfoldable pub scan_lines : ℕ → Reader → ℕ → ScanReport → Scanned
  unfolding scanned_line more_to_read
  scan_lines zero reader lines detections = none
  scan_lines (suc fuel) reader lines detections =
      if ltb 0 sample_limit && leb sample_limit lines
      then some (more_to_read reader >>= λ more. ok (scanned lines detections more))
      else elim (read_limited_line reader max_line_bytes) [
        | err problem ↦ some (err (at_line (saturating_add lines 1) problem))
        | ok read ↦
            if is_empty read.0
            then some (ok (scanned lines detections false))
            else and_then (scanned_line (lines + 1) read.0) (λ report.
              scan_lines fuel read.1 (saturating_add lines 1) (merge detections report))
      ]

  unfoldable pub scan_jsonl : ℕ → Reader → Scanned
  unfolding scan_lines
  scan_jsonl fuel reader = scan_lines fuel reader 0 default_report
