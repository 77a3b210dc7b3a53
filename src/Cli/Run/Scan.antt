-- ===== src/Cli/Run/Scan.antt =====
-- The scan of the lines, on the text that a reader has left.
use privacy_proxy.Base.{
  ℕ, zero, suc, ◌+◌, ◌<◌, ◌≤◌, Bool, true, false, not, ◌&&◌, none, some, [], ◌∷◌, ltb, leb,
  if◌then◌else◌, length, ◌≡◌, refl, sym, ap, ◌∙◌, arith, inl, inr, Bool-cases,
}
use privacy_proxy.Text.{Bytes, is_empty}
use privacy_proxy.Error.{Fallible, ok, err}
use privacy_proxy.Stats.{u64_max, saturating_add, ScanReport, default_report, merge}
use privacy_proxy.Cli.Reader.{Problem, at_line, line_too_long, Reader, read_limited_line}
use privacy_proxy.Cli.Reader.Laws.{
  first_line, after_line, Readable, contents, read_limited_line_lem, after_line-length,
  first_line-empty,
}
use privacy_proxy.Cli.Run.{
  ScanOutput, Scanned, and_then, more_to_read, scanned, scanned_line, scan_lines, scan_jsonl,
}
use privacy_proxy.Cli.Run.Counts.{no_line, Counts, Counts-line}

and_then_same :
    (r : Fallible Problem ScanReport) (f g : ScanReport → Scanned)
    → ((report : ScanReport) → f report ≡ g report)
    → and_then r f ≡ and_then r g
and_then_same (err problem) f g h = refl
and_then_same (ok report) f g h = h report

after_line-less : (text : Bytes) → is_empty text ≡ false → length (after_line text) < length text
unfolding is_empty
after_line-less [] e = cc
after_line-less (ch ∷ text) e = after_line-length ch text

if_same : (b : Bool) (m n n' : Scanned) → n ≡ n' → (if b then m else n) ≡ (if b then m else n')
if_same true m n n' e = refl
if_same false m n n' e = e

more-contents :
    (reader : Reader)
    → Readable reader
    → more_to_read reader ≡ ok (not (is_empty (contents reader)))
unfolding more_to_read is_empty
more-contents [] h = refl
more-contents (none ∷ reader) h = absurd h
more-contents (some [] ∷ reader) h = cc
more-contents (some (ch ∷ available) ∷ reader) h = refl

module _ (scan_line : Bytes → Fallible Problem ScanReport) (sample_limit max_line_bytes : ℕ) where
  abbrev limit_reached : ℕ → Bool
  limit_reached lines = ltb 0 sample_limit && leb sample_limit lines

  abbrev output : ℕ → ScanReport → Bool → ScanOutput
  output = scanned scan_line sample_limit max_line_bytes

  -- The loop on the text itself.
  pub text_scan : ℕ → Bytes → ℕ → ScanReport → Scanned
  text_scan zero text lines detections = none
  text_scan (suc fuel) text lines detections =
      if limit_reached lines
      then some (ok (output lines detections (not (is_empty text))))
      else if ltb max_line_bytes (length (first_line text))
      then some (err (at_line (saturating_add lines 1) (line_too_long max_line_bytes)))
      else if is_empty text
      then some (ok (output lines detections false))
      else and_then
          (scanned_line scan_line sample_limit max_line_bytes (lines + 1) (first_line text))
          (λ report.
            text_scan fuel (after_line text) (saturating_add lines 1) (merge detections report))

  -- A round of the loop behind the limit, by what was read.
  abbrev after_read : ℕ → ℕ → ScanReport → Fallible Problem (Bytes × Reader) → Scanned
  after_read fuel lines detections (err problem) =
      some (err (at_line (saturating_add lines 1) problem))
  after_read fuel lines detections (ok (line, reader)) =
      if is_empty line
      then some (ok (output lines detections false))
      else and_then (scanned_line scan_line sample_limit max_line_bytes (lines + 1) line) (λ report.
        scan_lines scan_line sample_limit max_line_bytes fuel reader (saturating_add lines 1)
          (merge detections report))

  scan_lines-after_read :
      (fuel : ℕ) (reader : Reader) (lines : ℕ) (detections : ScanReport)
      → limit_reached lines ≡ false
      → scan_lines scan_line sample_limit max_line_bytes (suc fuel) reader lines detections
        ≡ after_read fuel lines detections (read_limited_line reader max_line_bytes)
  unfolding scan_lines
  scan_lines-after_read fuel reader lines detections below =
      go (read_limited_line reader max_line_bytes) refl
    where
      go :
          (r : Fallible Problem (Bytes × Reader))
          → read_limited_line reader max_line_bytes ≡ r
          → scan_lines scan_line sample_limit max_line_bytes (suc fuel) reader lines detections
            ≡ after_read fuel lines detections r
      go (err problem) e = rw (scan_lines, below, e) refl
      go (ok (line, later)) e = rw (scan_lines, below, e) refl

  scan_lines-text_scan :
      (fuel : ℕ) (reader : Reader) (lines : ℕ) (detections : ScanReport)
      → Readable reader
      → max_line_bytes < u64_max
      → scan_lines scan_line sample_limit max_line_bytes fuel reader lines detections
        ≡ text_scan fuel (contents reader) lines detections
  unfolding scan_lines text_scan
  scan_lines-text_scan zero reader lines detections h lt = refl
  scan_lines-text_scan (suc fuel) reader lines detections h lt =
      let (short, long) = read_limited_line_lem reader max_line_bytes h lt in
      elim (Bool-cases (limit_reached lines)) [
        | inl over ↦ rw (over, more-contents reader h) refl
        | inr below ↦
            elim (Bool-cases (ltb max_line_bytes (length (first_line (contents reader))))) [
              | inl over ↦
                  scan_lines-after_read fuel reader lines detections below
                  ∙ ap (after_read fuel lines detections) (long (ground arith))
                  ∙ rw (below, over) refl
              | inr fits ↦
                  let (later, run, readable, left) = short (ground arith) in
                  let next = saturating_add lines 1 in
                  let line = first_line (contents reader) in
                  scan_lines-after_read fuel reader lines detections below
                  ∙ ap (after_read fuel lines detections) run
                  ∙ rw (below, fits, first_line-empty (contents reader))
                      (if_same (is_empty (contents reader)) _ _ _ (
                        and_then_same
                          (scanned_line scan_line sample_limit max_line_bytes (lines + 1) line) _ _
                          (λ report.
                            scan_lines-text_scan fuel later next (merge detections report) readable
                              lt
                            ∙ ap (λ text. text_scan fuel text next (merge detections report))
                                left)))
            ]
      ]

  abbrev Ends : Bytes → ℕ → ScanReport → Scanned → Type 0
  Ends text lines detections run =
      (result : Fallible Problem ScanOutput) × (run ≡ some result)
      × Counts scan_line sample_limit max_line_bytes text lines detections result

  stop-Counts :
      (text : Bytes) (lines : ℕ) (detections : ScanReport) (truncated : Bool)
      → truncated ≡ not (is_empty text)
      → (truncated ≡ true → (0 < sample_limit) × (lines ≡ sample_limit))
      → (0 < sample_limit → lines ≤ sample_limit)
      → Counts scan_line sample_limit max_line_bytes text lines detections
          (ok (output lines detections truncated))
  stop-Counts text lines detections truncated cut full within =
      (text, no_line, cut, full, within, refl, refl)

  and_then-Ends :
      (text : Bytes) (lines : ℕ) (detections : ScanReport) (r : Fallible Problem ScanReport)
      → (0 < sample_limit → lines < sample_limit)
      → is_empty text ≡ false
      → length (first_line text) ≤ max_line_bytes
      → scanned_line scan_line sample_limit max_line_bytes (lines + 1) (first_line text) ≡ r
      → (f : ScanReport → Scanned)
      → ((report : ScanReport)
          → Ends (after_line text) (saturating_add lines 1) (merge detections report) (f report))
      → Ends text lines detections (and_then r f)
  and_then-Ends text lines detections (err problem) below more fits e f h =
      (_, refl, (text, lines, detections, no_line, inr (more, fits, e), below))
  and_then-Ends text lines detections (ok report) below more fits e f h =
      let (result, run, counts) = h report in
      (
        result,
        run,
        Counts-line scan_line sample_limit max_line_bytes text lines detections report result more
            fits e counts,
      )

  text_scan-Ends :
      (fuel : ℕ) (text : Bytes) (lines : ℕ) (detections : ScanReport)
      → length text < fuel
      → (0 < sample_limit → lines ≤ sample_limit)
      → Ends text lines detections (text_scan fuel text lines detections)
  unfolding text_scan
  text_scan-Ends zero text lines detections lt h = absurd (omega arith)
  text_scan-Ends (suc fuel) text lines detections lt h = elim (Bool-cases (limit_reached lines)) [
    | inl over ↦
        rw over (_, refl, stop-Counts text lines detections _ refl (λ e. ground (arith, h)) h)
    | inr below ↦ elim (Bool-cases (ltb max_line_bytes (length (first_line text)))) [
      | inl over ↦
          rw (below, over)
            (
              _,
              refl,
              (
                text,
                lines,
                detections,
                no_line,
                inl (ground arith, refl),
                (λ limited. ground arith),
              ),
            )
      | inr fits ↦ elim (Bool-cases (is_empty text)) [
        | inl empty ↦
            rw (below, fits, empty)
              (_, refl, stop-Counts text lines detections false (rw empty refl) (λ e. cc) h)
        | inr more ↦
            rw (below, fits, more)
              (and_then-Ends text lines detections _ (λ limited. ground arith) more (ground arith)
                refl _
                (λ report.
                  text_scan-Ends fuel (after_line text) (saturating_add lines 1)
                    (merge detections report) (omega (arith, after_line-less text more, lt))
                    (λ limited. ground (arith, h))))
      ]
    ]
  ]

-- On a reader whose buffers are filled and do not fail, under a limit on lines below the largest u64,
-- and with more fuel than there are bytes to read, `scan_jsonl` ends, with the same result for every
-- other such reader of the same text. If it is not an error: its report is that of the first lines of
-- the text, merged, each of them within the limit and taken while text is left; it counts these
-- lines, as far as a u64 does; it is truncated exactly when text is left over, and only if
-- `sample_limit` is not 0 and is the count; the count is within `sample_limit` if that is not 0; and
-- it tells both limits. An error is that of a line which is too long or cannot be scanned, behind
-- lines that can be and, if `sample_limit` is not 0, are fewer than it.
pub scan_jsonl_lem :
    (scan_line : Bytes → Fallible Problem ScanReport) (sample_limit max_line_bytes fuel : ℕ)
    (reader other : Reader)
    → Readable reader
    → Readable other
    → contents reader ≡ contents other
    → max_line_bytes < u64_max
    → length (contents reader) < fuel
    → (result : Fallible Problem ScanOutput) × (scan_jsonl scan_line sample_limit max_line_bytes
          fuel reader
        ≡ some result)
      × (scan_jsonl scan_line sample_limit max_line_bytes fuel other ≡ some result)
      × Counts scan_line sample_limit max_line_bytes (contents reader) 0 default_report result
unfolding scan_jsonl
scan_jsonl_lem scan_line sample_limit max_line_bytes fuel reader other h k same lt enough =
    let (result, run, counts) =
      text_scan-Ends scan_line sample_limit max_line_bytes fuel (contents reader) 0 default_report
        enough (λ limited. omega arith) in
    (
      result,
      scan_lines-text_scan scan_line sample_limit max_line_bytes fuel reader 0 default_report h lt
          ∙ run,
      scan_lines-text_scan scan_line sample_limit max_line_bytes fuel other 0 default_report k lt
          ∙ ap (λ text. text_scan scan_line sample_limit max_line_bytes fuel text 0 default_report)
              (sym same)
          ∙ run,
      counts,
    )
