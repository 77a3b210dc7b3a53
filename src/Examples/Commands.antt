-- ===== src/Examples/Commands.antt =====
-- The subcommands on three files: a configuration, an input and an output.
use privacy_proxy.Base.{
  ℕ, ◌<◌, ◌==◌, if◌then◌else◌, true, false, none, some, [], ◌∷◌, ◌++◌, length, ◌≡◌, ◌≢◌, refl,
  arith,
}
use privacy_proxy.Text.{Bytes, codes, is_empty, trim, equal, split}
use privacy_proxy.Text.Utf8.{is_utf8}
use privacy_proxy.Error.{Fallible, ok}
use privacy_proxy.Stats.{default_report}
use privacy_proxy.Config.{default_config, validate, from_toml_str}
use privacy_proxy.Engine.Patterns.{Engine, new_engine, new_patterns}
use privacy_proxy.Cli.Reader.{Problem}
use privacy_proxy.Cli.Reader.Laws.{contents, Readable}
use privacy_proxy.Cli.Lines.{redact_line, scan_line}
use privacy_proxy.Cli.Run.{Finished, redact_jsonl, ScanOutput}
use privacy_proxy.Cli.Run.Counts.{Counts}
use privacy_proxy.Cli.Commands.{
  World, System, Outcome, load_config, open_reader, engine_for, outcome_of, redact_command,
  assert_command, reader_of,
}
use privacy_proxy.Cli.Commands.Laws.{Prepared, Ends, assert_command_lem, redact_command_lem}
use privacy_proxy.Cli.Commands.Init.{Initialised, init_config-Initialised}
use privacy_proxy.Cli.Init.{init_config}
use privacy_proxy.Cli.Corpus.{synthetic_record, generate_corpus}
use privacy_proxy.Cli.Corpus.Laws.{
  index_in, index_in-synthetic_record, record_lines, split-generate_corpus,
}
use privacy_proxy.Cli.Main.{Command, init, Services, run}
use privacy_proxy.Cli.Main.Laws.{target_of, run-files}
use privacy_proxy.Examples.Setting.{sample}

-- The path of a file is its number of bytes.
abbrev machine : System
machine = record {
  same_path = equal;
  file_at = λ path. length path;
  parent = λ path. none;
  create_dir_all = λ path dirs. (dirs, true);
  can_write = λ path. true;
  write_all = λ path text. none;
  buffers = λ content. if is_empty content then [] else some content ∷ [];
  toml_from_str = λ text. some default_config;
  json_from_str = λ text. none;
  json_pretty = λ output. some (codes "{}");
}

abbrev config_path : Bytes
config_path = codes "c"

abbrev disk : World
disk = record {
  files = λ file.
      if file == 1
      then some (codes "mode")
      else if file == 2
      then some (codes "to a@b.io\n")
      else none;
  dirs = λ path. true;
  stdin = [];
  stdout = [];
}

abbrev made : (engine : Engine sample) × (engine_for machine sample default_config ≡ ok engine)
unfolding new_engine new_patterns validate trim is_empty
made = (_, refl)

abbrev prepared : Prepared machine sample disk config_path (some (codes "in"))
unfolding load_config open_reader is_utf8 from_toml_str validate trim is_empty
prepared = record {
  config = default_config;
  engine = made.0;
  source = some 2;
  loads = refl;
  builds = made.1;
  opens = refl;
  limited = omega arith;
}

readable : Readable (reader_of machine disk prepared.source)
unfolding prepared is_empty
readable = (refl, tt)

enough : length (contents (reader_of machine disk prepared.source)) < 20
unfolding prepared is_empty
enough = omega arith

elsewhere : prepared.source ≢ some (machine.file_at (codes "out"))
unfolding prepared
elsewhere e = cc

distinct : equal (codes "in") (codes "out") ≡ false
unfolding equal
distinct = refl

assert_command_example :
    (scan : Fallible Problem ScanOutput) × (outcome : Outcome) × (assert_command machine sample 20
        config_path
        (some (codes "in"))
        disk
      ≡ some outcome)
    × Counts
        (scan_line sample machine.json_from_str prepared.engine)
        prepared.config.sample_limit
        prepared.config.max_line_bytes
        (contents (reader_of machine disk prepared.source))
        0
        default_report
        scan
    × Ends machine sample disk scan outcome
assert_command_example =
    assert_command_lem machine sample 20 config_path (some (codes "in")) disk prepared readable
      enough

redact_command_example :
    (done : Finished) × (outcome : Outcome) × (redact_jsonl
        (redact_line sample machine.json_from_str prepared.engine)
        prepared.config.max_line_bytes
        20
        (reader_of machine disk prepared.source)
      ≡ some done)
    × (redact_command machine sample 20 config_path (some (codes "in")) (some (codes "out")) disk
        ≡ some outcome)
    × (outcome.world.files 3 ≡ some done.written)
    × ((other : ℕ) → other ≢ 3 → outcome.world.files other ≡ disk.files other)
    × (outcome.world.stdout ≡ disk.stdout)
    × (outcome.result ≡ outcome_of machine done.outcome)
redact_command_example =
    redact_command_lem machine sample 20 config_path (codes "out") (some (codes "in")) disk prepared
      distinct refl elsewhere readable enough

init_config-Initialised_example :
    Initialised machine disk (codes "new!") false (init_config machine (codes "new!") false disk)
init_config-Initialised_example = init_config-Initialised machine (codes "new!") false disk

abbrev no_services : Services sample
no_services = record {
  Shell = Unit {0};
  Url = Bytes;
  host = record { parse_url = some; can_bind = λ listen. true; serves = λ state. true };
  completion_script = λ shell. [];
}

abbrev started : Outcome
started = init_config machine (codes "new!") false disk

abbrev start_command : Command no_services.Shell
start_command = init false

run_init : run machine sample no_services 20 (codes "new!") start_command disk ≡ some started
unfolding run
run_init = refl

not_one : target_of machine (codes "new!") start_command ≢ some 1
not_one e = cc

run-files_example : started.world.files 1 ≡ disk.files 1
run-files_example =
    run-files machine sample no_services 20 (codes "new!") start_command disk started 1 run_init
      not_one

index_in-synthetic_record_example : index_in (synthetic_record 123456789) ≡ 123456789
index_in-synthetic_record_example = index_in-synthetic_record 123456789

split-generate_corpus_example :
    ((generate_corpus (λ value. some (codes "{}")) 2).1 ≡ ok tt)
    × (split b'\n' (generate_corpus (λ value. some (codes "{}")) 2).0
        ≡ record_lines (λ value. codes "{}") 0 2 ++ [] ∷ [])
split-generate_corpus_example =
    split-generate_corpus (λ value. some (codes "{}")) (λ value. codes "{}") 2 (λ value. refl)
      (λ value. refl) refl
