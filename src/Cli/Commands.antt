-- ===== src/Cli/Commands.antt =====
-- The subcommands: `run`, and the files that they read and write. A world is the content of the
-- files, the directories that there are, what standard input will give, and what was written to
-- standard output. Paths, and whether the system lets a directory or a file be made, are parameters;
-- but for `init`, a write to an open file that fails is not modelled, and a file that cannot be read
-- is as one that is not there.
pub mod Init
pub mod Laws
use privacy_proxy.Base.{
  ℕ, zero, suc, ◌+◌, Bool, true, false, ◌&&◌, Option, none, some, List, [], ◌∷◌, ◌++◌, ltb, ◌==◌,
  if◌then◌else◌,
}
use privacy_proxy.Text.{Bytes, codes}
use privacy_proxy.Text.Utf8.{is_utf8}
use privacy_proxy.Error.{Error, Fallible, ok, err, ◌>>=◌, ◌>>◌, fail_if, map_err}
use privacy_proxy.Stats.{ScanReport, merge, default_report}
use privacy_proxy.Config.{Config, from_toml_str}
use privacy_proxy.Json.{Value}
use privacy_proxy.External.{External}
use privacy_proxy.Engine.Patterns.{Engine, new_engine}
use privacy_proxy.Proxy.Server.{ServeError}
use privacy_proxy.Cli.Reader.{Problem, Reader}
use privacy_proxy.Cli.Lines.{redact_line, scan_line}
use privacy_proxy.Cli.Run.{Finished, redact_jsonl, ScanOutput, scan_jsonl}

-- The messages that `bail!` and `context` make, with the error below.
pub data Failure : Type 0 where
  same_paths assertion_failed no_lines no_json : Failure
  read_config open_input create_output create_directory open_config create_config write_config :
      Bytes → Failure
  parse_config : Bytes → Error → Failure
  bad_engine : Error → Failure
  at_lines : Problem → Failure
  serve_failed : ServeError → Failure

pub record World : Type 0 where
  pub files : ℕ → Option Bytes
  pub dirs : Bytes → Bool
  pub stdin : Reader
  pub stdout : Bytes

-- What the system says of paths: which are the same as written, the file that a path leads to, the
-- directory above a path, and what may be opened. `create_dir_all` gives the directories that there
-- are behind it, and whether it succeeded; `write_all` gives, if it fails, how many bytes of the text
-- it wrote. `buffers` is how a file's content is read.
pub record System : Type 0 where
  pub same_path : Bytes → Bytes → Bool
  pub file_at : Bytes → ℕ
  pub parent : Bytes → Option Bytes
  pub create_dir_all : Bytes → (Bytes → Bool) → (Bytes → Bool) × Bool
  pub can_write : Bytes → Bool
  pub write_all : Bytes → Bytes → Option ℕ
  pub buffers : Bytes → Reader
  pub toml_from_str : Bytes → Option Config
  pub json_from_str : Bytes → Option Value
  pub json_pretty : ScanOutput → Option Bytes

abbrev pub update : (ℕ → Option Bytes) → ℕ → Bytes → ℕ → Option Bytes
update files file content other = if other == file then some content else files other

-- The result of a command, and the world behind it.
pub record Outcome : Type 0 where
  pub world : World
  pub result : Fallible Failure (Unit {0})

-- A command that ends before it has changed anything, and one that goes on.
unfoldable pub try_then {ℓ} :
    {A : Type ℓ} → World → Fallible Failure A → (A → Option Outcome) → Option Outcome
try_then world (err failure) later = some (record { world = world; result = err failure })
try_then world (ok value) later = later value

-- Where an output goes: a file, or standard output.
pub data Writer : Type 0 where
  file : ℕ → Writer
  to_stdout : Writer

abbrev pub write : Writer → Bytes → World → World
write (file f) text world = record world {
  files =
      update world.files f ((elim (world.files f) [ none ↦ [] | some content ↦ content ]) ++ text);
}
write to_stdout text world = record world { stdout = world.stdout ++ text }

-- A JSON text and a line feed, on standard output.
abbrev pub print_line : Option Bytes → World → Outcome
print_line none world = record { world = world; result = err no_json }
print_line (some text) world = record {
  world = record world { stdout = world.stdout ++ (text ++ b'\n' ∷ []) };
  result = ok tt;
}

module _ (s : System) where
  unfoldable pub load_config : World → Bytes → Fallible Failure Config
  load_config world path = elim (world.files (s.file_at path)) [
    | none ↦ err (read_config path)
    | some raw ↦
        if is_utf8 raw
        then map_err (parse_config path) (from_toml_str s.toml_from_str raw)
        else err (read_config path)
  ]

  -- An input that is open: a file, or standard input.
  unfoldable pub open_reader : World → Option Bytes → Fallible Failure (Option ℕ)
  open_reader world none = ok none
  open_reader world (some path) = elim (world.files (s.file_at path)) [
    | none ↦ err (open_input path)
    | some content ↦ ok (some (s.file_at path))
  ]

  -- `File::create` empties a file that is there.
  unfoldable pub open_writer : World → Option Bytes → Fallible Failure (Writer × World)
  open_writer world none = ok (to_stdout, world)
  open_writer world (some path) =
      if s.can_write path
      then ok
          (file (s.file_at path), record world { files = update world.files (s.file_at path) [] })
      else err (create_output path)

  -- What an open input gives, at the time of the first read.
  abbrev pub reader_of : World → Option ℕ → Reader
  reader_of world none = world.stdin
  reader_of world (some f) = elim (world.files f) [ none ↦ [] | some content ↦ s.buffers content ]

  abbrev pub paths_clash : Option Bytes → Option Bytes → Bool
  paths_clash (some input) (some output) = s.same_path input output
  paths_clash _ _ = false

  abbrev pub outcome_of : Fallible Problem (Unit {0}) → Fallible Failure (Unit {0})
  outcome_of = map_err at_lines

  abbrev pub redacted_to : Writer × World → Option Finished → Option Outcome
  redacted_to (writer, world) none = none
  redacted_to (writer, world) (some done) =
      some (record { world = write writer done.written world; result = outcome_of done.outcome })

  module _ (x : External) where
    abbrev pub engine_for : Config → Fallible Failure (Engine x)
    engine_for config = map_err bad_engine (new_engine x config)

    -- `Command::Redact`
    unfoldable pub redact_command : ℕ → Bytes → Option Bytes → Option Bytes → World → Option Outcome
    unfolding load_config open_reader open_writer
    redact_command fuel config_path input output world =
        try_then world (fail_if (paths_clash input output) same_paths) (λ distinct.
          try_then world (load_config world config_path) (λ config.
            try_then world (engine_for config) (λ engine.
              try_then world (open_reader world input) (λ source.
                try_then world (open_writer world output) (λ opened. redacted_to opened (
                  redact_jsonl (redact_line x s.json_from_str engine) config.max_line_bytes fuel
                    (reader_of opened.1 source)))))))

    -- `write_scan_output`
    unfoldable pub write_scan_output : ScanOutput → World → Outcome
    write_scan_output output world = print_line (s.json_pretty output) world

    -- The scan that `Scan` and `Assert` start with, and what they do with its output.
    abbrev pub scanned_then :
        World → (ScanOutput → Outcome) → Option (Fallible Problem ScanOutput) → Option Outcome
    scanned_then world later none = none
    scanned_then world later (some (err problem)) =
        some (record { world = world; result = err (at_lines problem) })
    scanned_then world later (some (ok output)) = some (later output)

    unfoldable pub with_scan :
        ℕ → Bytes → Option Bytes → World → (ScanOutput → Outcome) → Option Outcome
    unfolding load_config open_reader
    with_scan fuel config_path input world later =
        try_then world (load_config world config_path) (λ config.
          try_then world (engine_for config) (λ engine.
            try_then world (open_reader world input) (λ source. scanned_then world later (
              scan_jsonl (scan_line x s.json_from_str engine) config.sample_limit
                config.max_line_bytes fuel (reader_of world source)))))

    -- `Command::Scan`
    unfoldable pub scan_command : ℕ → Bytes → Option Bytes → World → Option Outcome
    unfolding with_scan write_scan_output
    scan_command fuel config_path input world =
        with_scan fuel config_path input world (λ output. write_scan_output output world)

    -- The test behind the written output.
    abbrev pub asserted : ℕ → Outcome → Outcome
    asserted detected written = record written {
      result = written.result >> fail_if (ltb 0 detected) assertion_failed;
    }

    -- `Command::Assert`
    unfoldable pub assert_command : ℕ → Bytes → Option Bytes → World → Option Outcome
    unfolding with_scan write_scan_output
    assert_command fuel config_path input world =
        with_scan fuel config_path input world
          (λ output. asserted output.detections.total (write_scan_output output world))
