-- ===== src/Cli/Run/Counts.antt =====
-- What the scan of the lines of a text may return.
use privacy_proxy.Base.{ℕ, ◌+◌, ◌<◌, ◌≤◌, true, false, not, length, ◌≡◌, ◌⊎◌}
use privacy_proxy.Text.{Bytes, is_empty}
use privacy_proxy.Error.{Fallible, ok, err}
use privacy_proxy.Stats.{saturating_add, ScanReport, merge}
use privacy_proxy.Cli.Reader.{Problem, at_line, line_too_long}
use privacy_proxy.Cli.Reader.Laws.{first_line, after_line}
use privacy_proxy.Cli.Run.{ScanOutput, scanned_line}

module _ (scan_line : Bytes → Fallible Problem ScanReport) (sample_limit max_line_bytes : ℕ) where
  -- `Merged text lines detections rest lines' detections'`: from the front of the text, lines within
  -- the limit are taken until `rest` is left, each with something to read. `lines` and `detections`
  -- count them, and merge the reports of them.
  pub data Merged : Bytes → ℕ → ScanReport → Bytes → ℕ → ScanReport → Type 0 where
    no_line :
        {text : Bytes} {lines : ℕ} {detections : ScanReport}
        → Merged text lines detections text lines detections
    a_line :
        {text rest : Bytes} {lines lines' : ℕ} {detections detections' : ScanReport}
        (report : ScanReport)
        → is_empty text ≡ false
        → length (first_line text) ≤ max_line_bytes
        → scanned_line scan_line sample_limit max_line_bytes (lines + 1) (first_line text)
          ≡ ok report
        → Merged
            (after_line text)
            (saturating_add lines 1)
            (merge detections report)
            rest
            lines'
            detections'
        → Merged text lines detections rest lines' detections'

  -- Why the line in front of the text cannot be scanned, behind so many lines.
  abbrev pub Fails : Bytes → ℕ → Problem → Type 0
  Fails text lines problem =
      ((max_line_bytes < length (first_line text))
        × (problem ≡ at_line (saturating_add lines 1) (line_too_long max_line_bytes)))
      ⊎ ((is_empty text ≡ false)
          × (length (first_line text) ≤ max_line_bytes)
          × (scanned_line scan_line sample_limit max_line_bytes (lines + 1) (first_line text)
              ≡ err problem))

  -- A result that counts lines of the text: it is the report of the first of them, merged, it is
  -- truncated exactly when text is left over, and that is so only at the limit. An error is that of
  -- a line that cannot be scanned, behind others that can.
  abbrev pub Counts : Bytes → ℕ → ScanReport → Fallible Problem ScanOutput → Type 0
  Counts text lines detections (err problem) =
      (rest : Bytes) × (lines' : ℕ) × (detections' : ScanReport) × Merged text lines detections rest
        lines' detections'
      × Fails rest lines' problem
      × (0 < sample_limit → lines' < sample_limit)
  Counts text lines detections (ok result) =
      (rest : Bytes) × Merged text lines detections rest result.lines_scanned result.detections
      × (result.truncated ≡ not (is_empty rest))
      × (result.truncated ≡ true → (0 < sample_limit) × (result.lines_scanned ≡ sample_limit))
      × (0 < sample_limit → result.lines_scanned ≤ sample_limit)
      × (result.sample_limit ≡ sample_limit)
      × (result.max_line_bytes ≡ max_line_bytes)

  -- One more line in front.
  pub Counts-line :
      (text : Bytes) (lines : ℕ) (detections report : ScanReport)
      (result : Fallible Problem ScanOutput)
      → is_empty text ≡ false
      → length (first_line text) ≤ max_line_bytes
      → scanned_line scan_line sample_limit max_line_bytes (lines + 1) (first_line text) ≡ ok report
      → Counts (after_line text) (saturating_add lines 1) (merge detections report) result
      → Counts text lines detections result
  Counts-line text lines detections report (err problem) more fits e
        (rest, _, _, merged, fails, below) =
      (rest, _, _, a_line report more fits e merged, fails, below)
  Counts-line text lines detections report (ok result) more fits e
        (rest, merged, cut, full, within, same, same') =
      (rest, a_line report more fits e merged, cut, full, within, same, same')
