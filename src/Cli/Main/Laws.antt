-- ===== src/Cli/Main/Laws.antt =====
-- Which file a command may change.
use privacy_proxy.Base.{
  ℕ, Bool, false, true, Option, none, some, List, [], ◌∷◌, ◌≡◌, ◌≢◌, refl, sym, ap, ◌∙◌, inl, inr,
  Bool-cases, arith,
}
use privacy_proxy.Text.{Bytes, codes}
use privacy_proxy.Error.{Fallible, ok, err, ok-injective}
use privacy_proxy.Stats.{ScanReport, merge, default_report}
use privacy_proxy.Config.{default_config}
use privacy_proxy.Cli.Lines.{redact_line, scan_line}
use privacy_proxy.External.{External}
use privacy_proxy.Engine.Patterns.{Engine}
use privacy_proxy.Cli.Reader.{Problem}
use privacy_proxy.Cli.Run.{Finished, ScanOutput}
use privacy_proxy.Cli.Commands.{
  Failure, World, System, Outcome, Writer, file, write, try_then, update, open_writer, print_line,
  redacted_to, scanned_then, with_scan, write_scan_output, scan_command, assert_command,
  redact_command, asserted,
}
use privacy_proxy.Cli.Commands.Laws.{update-other}
use privacy_proxy.Cli.Commands.Init.{init_config-Initialised}
use privacy_proxy.Cli.Init.{init_config}
use privacy_proxy.Cli.Main.{
  Command, demo, init, redact, scan, assert_, serve, completions, generate_corpus_, Services,
  demo_line, demo_loop, println, println_all, demo_logs, demo_output, run_demo, run,
}

abbrev output_file : System → Option Bytes → Option ℕ
output_file s none = none
output_file s (some path) = some (s.file_at path)

-- The file that a command writes to, if it writes to one.
abbrev pub target_of : (s : System) {Shell : Type 0} → Bytes → Command Shell → Option ℕ
target_of s config_path (init force) = some (s.file_at config_path)
target_of s config_path (redact input output) = output_file s output
target_of s config_path (generate_corpus_ lines output) = output_file s output
target_of s config_path _ = none

-- The content of a file is as it was.
abbrev Same : ℕ → World → Option Outcome → Type 0
Same other world run =
    (outcome : Outcome) → run ≡ some outcome → outcome.world.files other ≡ world.files other

outcome_same : {a b : Outcome} → some a ≡ some b → a ≡ b
outcome_same e = cc

Same-some :
    (other : ℕ) (world : World) (outcome : Outcome)
    → outcome.world.files other ≡ world.files other
    → Same other world (some outcome)
Same-some other world outcome h outcome' e =
    ap (λ o. o.world.files other) (sym (outcome_same e)) ∙ h

Same-try_then {ℓ} :
    {A : Type ℓ} (other : ℕ) (world : World) (first : Fallible Failure A)
    (later : A → Option Outcome)
    → ((a : A) → first ≡ ok a → Same other world (later a))
    → Same other world (try_then world first later)
unfolding try_then
Same-try_then other world (err failure) later h = Same-some other world _ refl
Same-try_then other world (ok a) later h = h a refl

module _ (s : System) (other : ℕ) (world : World) where
  refuses :
      (path : Bytes) (opened : Writer × World)
      → s.can_write path ≡ false
      → open_writer s world (some path) ≢ ok opened
  unfolding open_writer
  refuses path opened refused e = ground arith

  opens :
      (path : Bytes)
      → s.can_write path ≡ true
      → open_writer s world (some path)
        ≡ ok
            (file (s.file_at path), record world { files = update world.files (s.file_at path) [] })
  unfolding open_writer
  opens path may = rw may refl

  -- What is written to an output leaves the other files as they were.
  written_same :
      (output : Option Bytes) (opened : Writer × World)
      → open_writer s world output ≡ ok opened
      → output_file s output ≢ some other
      → (text : Bytes) → (write opened.0 text opened.1).files other ≡ world.files other
  unfolding open_writer
  written_same none opened e ne text =
      ap (λ (o : Writer × World). (write o.0 text o.1).files other) (sym (ok-injective e))
  written_same (some path) opened e ne text = elim (Bool-cases (s.can_write path)) [
    | inl may ↦
        let f = s.file_at path in
        let away : other ≢ f = λ same. ne (ap some (sym same)) in
        ap (λ (o : Writer × World). (write o.0 text o.1).files other)
          (sym (ok-injective (sym (opens path may) ∙ e)))
        ∙ update-other (update world.files f []) f other _ away
        ∙ update-other world.files f other [] away
    | inr refused ↦ absurd (refuses path opened refused e)
  ]

  redacted_to-Same :
      (opened : Writer × World) (done : Option Finished)
      → ((text : Bytes) → (write opened.0 text opened.1).files other ≡ world.files other)
      → Same other world (redacted_to s opened done)
  redacted_to-Same opened none h outcome e = cc
  redacted_to-Same opened (some done) h outcome e =
      Same-some other world _ (h done.written) outcome e

  module _ (x : External) where
    scanned_then-Same :
        (later : ScanOutput → Outcome) (scanned : Option (Fallible Problem ScanOutput))
        → ((output : ScanOutput) → (later output).world.files ≡ world.files)
        → Same other world (scanned_then s x world later scanned)
    scanned_then-Same later none h outcome e = cc
    scanned_then-Same later (some (err problem)) h outcome e =
        Same-some other world _ refl outcome e
    scanned_then-Same later (some (ok output)) h outcome e =
        Same-some other world _ (ap (λ f. f other) (h output)) outcome e

    print_line-files : (text : Option Bytes) (w : World) → (print_line text w).world.files ≡ w.files
    print_line-files none w = refl
    print_line-files (some text) w = refl

    with_scan-Same :
        (fuel : ℕ) (config_path : Bytes) (input : Option Bytes) (later : ScanOutput → Outcome)
        → ((output : ScanOutput) → (later output).world.files ≡ world.files)
        → Same other world (with_scan s x fuel config_path input world later)
    unfolding with_scan
    with_scan-Same fuel config_path input later h = Same-try_then other world _ _ (λ config loads.
        Same-try_then other world _ _ (λ engine builds.
          Same-try_then other world _ _ (λ source opens. scanned_then-Same later _ h)))

    asserted-files :
        (output : ScanOutput)
        → (asserted s x output.detections.total (write_scan_output s x output world)).world.files
          ≡ world.files
    unfolding write_scan_output
    asserted-files output = print_line-files (s.json_pretty output) world

    printed-files :
        (output : ScanOutput) → (write_scan_output s x output world).world.files ≡ world.files
    unfolding write_scan_output
    printed-files output = print_line-files (s.json_pretty output) world

    redact_command-Same :
        (fuel : ℕ) (config_path : Bytes) (input output : Option Bytes)
        → output_file s output ≢ some other
        → Same other world (redact_command s x fuel config_path input output world)
    unfolding redact_command
    redact_command-Same fuel config_path input output ne =
        Same-try_then other world _ _ (λ distinct _. Same-try_then other world _ _ (λ config loads.
          Same-try_then other world _ _ (λ engine builds.
            Same-try_then other world _ _ (λ source found.
              Same-try_then other world _ _
                (λ opened e. redacted_to-Same opened _ (written_same output opened e ne))))))

    println_all-files : (lines : List Bytes) (w : World) → (println_all lines w).files ≡ w.files
    println_all-files [] w = refl
    println_all-files (line ∷ lines) w = println_all-files lines (println line w)

    module _ (v : Services x) where
      demo_line-files :
          (w : World) (redacted : Fallible Problem Bytes) (report : Fallible Problem ScanReport)
          (later : World → ScanReport → Outcome)
          → ((w' : World) (counted : ScanReport)
              → w'.files ≡ w.files
              → (later w' counted).world.files ≡ w.files)
          → (demo_line s x v w redacted report later).world.files ≡ w.files
      demo_line-files w (err problem) report later h = refl
      demo_line-files w (ok redacted) (err problem) later h = refl
      demo_line-files w (ok redacted) (ok report) later h = h (println redacted w) report refl

      demo_loop-files :
          (engine : Engine x) (lines : List Bytes) (counted : ScanReport) (w : World)
          (later : ScanReport → World → Outcome)
          → ((counted' : ScanReport) (w' : World) → (later counted' w').world.files ≡ w'.files)
          → (demo_loop s x v engine lines counted w later).world.files ≡ w.files
      unfolding demo_loop
      demo_loop-files engine [] counted w later h = h counted w
      demo_loop-files engine (line ∷ lines) counted w later h =
          demo_line-files w (redact_line x s.json_from_str engine line)
            (scan_line x s.json_from_str engine line) _
            (λ w' report same.
              demo_loop-files engine lines (merge counted report) w' later h ∙ same)

      run_demo-Same : Same other world (run_demo s x v world)
      unfolding run_demo
      run_demo-Same = Same-try_then other world _ _ (λ engine builds. Same-some other world _ (
          ap (λ f. f other)
            (demo_loop-files engine demo_logs default_report _ (demo_output s x v default_config)
              (λ counted w.
                print_line-files _ (println_all ([] ∷ codes "scan statistics:" ∷ []) w)))))

-- `init` writes its configuration file or nothing.
init-Same :
    (s : System) (path : Bytes) (force : Bool) (world : World) (other : ℕ)
    → some (s.file_at path) ≢ some other
    → Same other world (some (init_config s path force world))
init-Same s path force world other ne = elim (init_config-Initialised s path force world) [
  | inl refused ↦ Same-some other world _ (ap (λ files. files other) refused.same_files)
  | inr (inl (_, _, stored, _, _)) ↦
      Same-some other world _ (stored.others other (λ same. ne (ap some (sym same))))
  | inr (inr (stored, _, _)) ↦
      Same-some other world _ (stored.others other (λ same. ne (ap some (sym same))))
]

-- Whatever the arguments are: a command changes no file but the one that it is told to write, which
-- is the configuration for `init`, and the output for `redact` and `generate-corpus`. The others
-- change none.
pub run-files :
    (s : System) (x : External) (v : Services x) (fuel : ℕ) (config_path : Bytes)
    (command : Command v.Shell) (world : World) (outcome : Outcome) (other : ℕ)
    → run s x v fuel config_path command world ≡ some outcome
    → target_of s config_path command ≢ some other
    → outcome.world.files other ≡ world.files other
unfolding run scan_command assert_command
run-files s x v fuel config_path demo world outcome other e ne =
    run_demo-Same s other world x v outcome e
run-files s x v fuel config_path (init force) world outcome other e ne =
    init-Same s config_path force world other ne outcome e
run-files s x v fuel config_path (redact input output) world outcome other e ne =
    redact_command-Same s other world x fuel config_path input output ne outcome e
run-files s x v fuel config_path (scan input) world outcome other e ne =
    with_scan-Same s other world x fuel config_path input _ (printed-files s other world x) outcome
      e
run-files s x v fuel config_path (assert_ input) world outcome other e ne =
    with_scan-Same s other world x fuel config_path input _ (asserted-files s other world x) outcome
      e
run-files s x v fuel config_path (serve target listen) world outcome other e ne =
    Same-try_then other world _ _ (λ config loads. Same-some other world _ refl) outcome e
run-files s x v fuel config_path (completions shell) world outcome other e ne =
    Same-some other world _ refl outcome e
run-files s x v fuel config_path (generate_corpus_ lines output) world outcome other e ne =
    Same-try_then other world _ _
      (λ opened found.
        Same-some other world _ (written_same s other world output opened found ne _))
      outcome e
