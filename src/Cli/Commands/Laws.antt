-- ===== src/Cli/Commands/Laws.antt =====
-- What `redact` and `assert` do to the files and how they end.
use privacy_proxy.Base.{
  ℕ, ◌<◌, true, false, Option, none, some, [], ◌∷◌, ◌++◌, ltb, length, ◌≡◌, ◌≢◌, ◌↔◌, refl, sym, ap,
  ◌∙◌, arith,
}
use privacy_proxy.Text.{Bytes}
use privacy_proxy.Error.{Fallible, ok, err, fail_if}
use privacy_proxy.Stats.{u64_max, default_report}
use privacy_proxy.Config.{Config}
use privacy_proxy.External.{External}
use privacy_proxy.Engine.Patterns.{Engine}
use privacy_proxy.Cli.Reader.{Problem}
use privacy_proxy.Cli.Reader.Laws.{Readable, contents}
use privacy_proxy.Cli.Lines.{redact_line, scan_line}
use privacy_proxy.Cli.Run.{Finished, redact_jsonl, ScanOutput, scan_jsonl}
use privacy_proxy.Cli.Run.Laws.{redact_jsonl_lem}
use privacy_proxy.Cli.Run.Counts.{Counts}
use privacy_proxy.Cli.Run.Scan.{scan_jsonl_lem}
use privacy_proxy.Cli.Commands.{
  Failure, assertion_failed, no_json, at_lines, World, System, update, Outcome, load_config,
  open_reader, open_writer, reader_of, paths_clash, engine_for, outcome_of, redact_command,
  write_scan_output, scanned_then, with_scan, asserted, assert_command, print_line, redacted_to,
  write, file, try_then, try_then,
}

some_bytes : {a b : Bytes} → some a ≡ some b → a ≡ b
some_bytes e = cc

module _ (s : System) (x : External) where
  -- A configuration and an input that can be read, and the engine for them.
  pub record Prepared (world : World) (config_path : Bytes) (input : Option Bytes) : Type 0 where
    pub config : Config
    pub engine : Engine x
    pub source : Option ℕ
    pub loads : load_config s world config_path ≡ ok config
    pub builds : engine_for s x config ≡ ok engine
    pub opens : open_reader s world input ≡ ok source
    pub limited : config.max_line_bytes < u64_max

  -- How `assert` ends, by the scan.
  pub record Judged (world : World) (output : ScanOutput) (outcome : Outcome) : Type 0 where
    pub same_files : outcome.world.files ≡ world.files
    pub printed :
        (text : Bytes)
        → s.json_pretty output ≡ some text
        → (outcome.world.stdout ≡ world.stdout ++ (text ++ b'\n' ∷ []))
          × ((outcome.result ≡ ok tt) ↔ (output.detections.total ≡ 0))
    pub unprinted : s.json_pretty output ≡ none → outcome.result ≡ err no_json

  abbrev pub Ends : World → Fallible Problem ScanOutput → Outcome → Type 0
  Ends world (err problem) outcome =
      outcome ≡ record { world = world; result = err (at_lines problem) }
  Ends world (ok output) outcome = Judged world output outcome

  fail_if_iff :
      (detected : ℕ)
      → (◌≡◌ {A = Fallible Failure (Unit {0})} (fail_if (ltb 0 detected) assertion_failed) (ok tt))
        ↔ (detected ≡ 0)
  fail_if_iff detected = ground arith

  asserted-Judged :
      (world : World) (output : ScanOutput) (written : Option Bytes)
      → s.json_pretty output ≡ written
      → Judged world output (asserted s x output.detections.total (print_line written world))
  asserted-Judged world output none e = record {
    same_files = refl;
    printed = λ text f. cc;
    unprinted = λ f. refl;
  }
  asserted-Judged world output (some written) e = record {
    same_files = refl;
    printed = λ text f. (
      ap (λ t. world.stdout ++ (t ++ b'\n' ∷ [])) (some_bytes (sym e ∙ f)),
      fail_if_iff output.detections.total,
    );
    unprinted = λ f. cc;
  }

  -- A scan that is prepared comes to the scan of the lines.
  with_scan-Prepared :
      (fuel : ℕ) (config_path : Bytes) (input : Option Bytes) (world : World)
      (later : ScanOutput → Outcome) (p : Prepared world config_path input)
      → with_scan s x fuel config_path input world later
        ≡ scanned_then s x world later (
            scan_jsonl
              (scan_line x s.json_from_str p.engine)
              p.config.sample_limit
              p.config.max_line_bytes
              fuel
              (reader_of s world p.source))
  unfolding with_scan try_then
  with_scan-Prepared fuel config_path input world later p = rw (p.loads, p.builds, p.opens) refl

  scanned_then-Ends :
      (world : World) (scan : Fallible Problem ScanOutput)
      → (outcome : Outcome) × (scanned_then s x world
            (λ output. asserted s x output.detections.total (write_scan_output s x output world))
            (some scan)
          ≡ some outcome)
        × Ends world scan outcome
  unfolding write_scan_output
  scanned_then-Ends world (err problem) = (_, refl, refl)
  scanned_then-Ends world (ok output) = (_, refl, asserted-Judged world output _ refl)

-- With a configuration and an input that can be read, and more fuel than there are bytes in the
-- input: `assert` ends, with what follows from a scan of the lines of the input. If the scan is not
-- an error, its output is the merged report of the first lines of the input, with their count, and
-- truncated exactly when text is left over; an error is that of a line which is too long or cannot
-- be scanned. The files are as before. An error of the scan is the error of the command, and nothing
-- is printed. Otherwise, if the output can be written as JSON, it is printed, and the command
-- succeeds exactly if no detection was counted; if it cannot be written, the command fails.
pub assert_command_lem :
    (s : System) (x : External) (fuel : ℕ) (config_path : Bytes) (input : Option Bytes)
    (world : World) (p : Prepared s x world config_path input)
    → Readable (reader_of s world p.source)
    → length (contents (reader_of s world p.source)) < fuel
    → (scan : Fallible Problem ScanOutput) × (outcome : Outcome) × (assert_command s x fuel
          config_path input world
        ≡ some outcome)
      × Counts
          (scan_line x s.json_from_str p.engine)
          p.config.sample_limit
          p.config.max_line_bytes
          (contents (reader_of s world p.source))
          0
          default_report
          scan
      × Ends s x world scan outcome
unfolding assert_command
assert_command_lem s x fuel config_path input world p readable enough =
    let reader = reader_of s world p.source in
    let (scan, run, _, counts) =
      scan_jsonl_lem (scan_line x s.json_from_str p.engine) p.config.sample_limit
        p.config.max_line_bytes fuel reader reader readable readable refl p.limited enough in
    let later = λ (output : ScanOutput).
      asserted s x output.detections.total (write_scan_output s x output world) in
    let (outcome, ends, judged) = scanned_then-Ends s x world scan in
    (
      scan,
      outcome,
      with_scan-Prepared s x fuel config_path input world later p
          ∙ ap (scanned_then s x world later) run
          ∙ ends,
      counts,
      judged,
    )

pub update-same :
    (files : ℕ → Option Bytes) (f : ℕ) (content : Bytes) → update files f content f ≡ some content
update-same files f content = ground arith

pub update-other :
    (files : ℕ → Option Bytes) (f g : ℕ) (content : Bytes)
    → g ≢ f
    → update files f content g ≡ files g
update-other files f g content ne = ground (arith, ne)

-- An input that is not the output gives the same after the output was emptied.
reader_of-update :
    (s : System) (world : World) (source : Option ℕ) (f : ℕ)
    → source ≢ some f
    → reader_of s (record world { files = update world.files f [] }) source
      ≡ reader_of s world source
reader_of-update s world none f ne = refl
reader_of-update s world (some g) f ne =
    ap (λ o. elim o [ none ↦ [] | some content ↦ s.buffers content ])
      (update-other world.files f g [] (λ e. ne (ap some e)))

-- With a configuration and an input that can be read, an output file that may be made, is not written
-- as the same path, and is not the file of the input, and more fuel than there are bytes in the
-- input: `redact` ends. The output file then holds what the loop over the lines of the input wrote,
-- every other file, the input among them, is as before, as is standard output, and the result is
-- that of the loop.
pub redact_command_lem :
    (s : System) (x : External) (fuel : ℕ) (config_path output : Bytes) (input : Option Bytes)
    (world : World) (p : Prepared s x world config_path input)
    → paths_clash s input (some output) ≡ false
    → s.can_write output ≡ true
    → p.source ≢ some (s.file_at output)
    → Readable (reader_of s world p.source)
    → length (contents (reader_of s world p.source)) < fuel
    → (done : Finished) × (outcome : Outcome) × (redact_jsonl
          (redact_line x s.json_from_str p.engine)
          p.config.max_line_bytes
          fuel
          (reader_of s world p.source)
        ≡ some done)
      × (redact_command s x fuel config_path input (some output) world ≡ some outcome)
      × (outcome.world.files (s.file_at output) ≡ some done.written)
      × ((other : ℕ) → other ≢ s.file_at output → outcome.world.files other ≡ world.files other)
      × (outcome.world.stdout ≡ world.stdout)
      × (outcome.result ≡ outcome_of s done.outcome)
unfolding redact_command open_writer try_then
redact_command_lem s x fuel config_path output input world p distinct may differs readable enough =
    let f = s.file_at output in
    let opened = record world { files = update world.files f [] } in
    let reader = reader_of s world p.source in
    let (done, run, _) =
      redact_jsonl_lem (redact_line x s.json_from_str p.engine) p.config.max_line_bytes fuel reader
        reader readable readable refl p.limited enough in
    let final = write (file f) done.written opened in
    (
      done,
      record { world = final; result = outcome_of s done.outcome },
      run,
      rw (distinct, p.loads, p.builds, p.opens, may)
          (ap
              (λ r.
                redacted_to s (file f, opened)
                  (redact_jsonl (redact_line x s.json_from_str p.engine) p.config.max_line_bytes
                    fuel r))
              (reader_of-update s world p.source f differs)
            ∙ ap (redacted_to s (file f, opened)) run),
      update-same (update world.files f []) f _
          ∙ ap (λ o. some ((elim o [ none ↦ [] | some content ↦ content ]) ++ done.written))
              (update-same world.files f []),
      λ other ne.
          update-other (update world.files f []) f other _ ne
          ∙ update-other world.files f other [] ne,
      refl,
      refl,
    )
