-- ===== src/Lib.antt =====
-- privacy-proxy: redaction of sensitive data in JSON values and in text.
--
-- The program has three crates. `privacy_proxy_core` finds and replaces sensitive data;
-- `privacy_proxy_cli` runs it over the lines of a file, and `privacy_proxy_proxy` over the bodies
-- and headers of HTTP requests. An `Engine` is made from a validated `Config`. It walks over a JSON
-- value: an object's key that `FieldRules` calls sensitive has its whole value replaced (mode `mask`
-- and `hash`) or removed (mode `drop`), and every other string goes through a chain of text
-- detectors. Each replacement comes from a `ReplacementPolicy` and is counted in a `ScanReport`.
--
-- Which file models which part (paths from the repository's root):
--   Error       crates/privacy_proxy_core/src/error.rs: `Error`, `Result`
--   Config      crates/privacy_proxy_core/src/config.rs: `Config`, its defaults, `validate`
--   Stats       crates/privacy_proxy_core/src/stats.rs: `ScanReport`; `record` is `record_kind`
--               (Stats/Laws has its invariant, Stats/Counting what it counts)
--   FieldRules  crates/privacy_proxy_core/src/engine.rs: `FieldRules`, `normalize_field_name`
--   Policy      the same file: `ReplacementPolicy`, `load_hash_key`, `hex_lower`
--   Checksum    the same file: `is_luhn_valid`, `is_valid_iban`, `valid_iban_span`
--   Matches     the same file: `replace_matches`
--   Detector    the same file: `redact_cookie_body`, `redact_sensitive_url`, `looks_like_jwt`; and
--               the address parsers of the standard library that it calls
--   Engine      the same file: Patterns (`Patterns`, `Engine::new`), Replace and Ibans (the
--               `replace_*` methods), Text (`redact_str_with_policy`, `scan_str`), Walk
--               (`redact_value_inner`, `scan_value_inner`), Api (the public methods and functions);
--               below it, modules for what is proved: Total, Masking, Agreement, Hiding,
--               Removal, Reports
--   Json        `serde_json::Value`: its objects are sorted by key, and `insert` is that of its map
--   External    what the crate takes from others, as a record of functions
--   Base, Text, BTreeMap  shared helpers, texts as lists of UTF-8 bytes, and the ordered map
--   Examples    the theorems at concrete inputs
--   Cli         crates/privacy_proxy_cli/src/main.rs: Reader (`read_limited_line`,
--               `split_line_ending`), Lines (`redact_line`, `scan_line`), Run (`redact_jsonl`,
--               `scan_jsonl`), Commands (`load_config`, `open_reader`, `open_writer`, and the commands
--               `redact`, `scan` and `assert`), Init (`init_config`), Corpus
--               (`generate_corpus`, `synthetic_record`), Main (`Command`, `run`, `run_demo`)
--   Proxy       crates/privacy_proxy_proxy/src/lib.rs: Metrics (`ProxyMetrics`, and label values),
--               Headers (`apply_headers` and its rules), Body (`decode_request_body`,
--               `redact_body`), Target (`target_url`, `safe_target_label`, `convert_method`),
--               Response (`into_axum_response`, `plain_response`), Handler (`proxy`), Server
--               (`serve`), Render
--               (`render_prometheus_metrics` and the handlers that tell the state), Actions (the
--               accesses of a request to the shared counters), Schedule (requests that are handled at
--               the same time, as a step relation on those accesses)
--
-- How state is held: a `&mut ScanReport` is an argument and a part of the result; the variables of a
-- loop are a record; an early `return Err` or `?` is `err` in `Result`, whose monad has do blocks.
-- A text is the list of its UTF-8 bytes, so positions are byte positions as in the source. A u64
-- saturates at `u64_max` in reports, an atomic counter of the proxy wraps at `2 ^ 64`, and the u32
-- sum of the Luhn test at `2 ^ 32`.
--
-- Bounds and fuel: the walks and loops of the core are structural recursion, on the value, on the
-- list of matches and on the text; `trim` skips white space with fuel that is the text's length, and
-- each character it skips is at least one byte.
--
-- Not modelled: matching of regular expressions, HMAC-SHA256, TOML and the JSON reader and writer
-- (parameters, with what their documentation promises as hypotheses where a theorem needs it);
-- paths and permissions of the file system, and a write that fails, but for that of `init`; URLs, methods
-- and header maps of the proxy's crates (parameters as well); the server's loop, its routes and its log, the
-- parsing of arguments and the shell completions; and tests, benchmarks and fuzz targets. A snapshot
-- of the counters is taken with no other task in between. The loops over lines run on fuel, of which
-- more than there are bytes to read is enough, since every round reads a byte; the digits of a number
-- are made on fuel that is the number and one more, of which each digit takes one.
pub mod BTreeMap
pub mod Base
pub mod Checksum
pub mod Cli
pub mod Config
pub mod Detector
pub mod Engine
pub mod Error
pub mod Examples
pub mod External
pub mod FieldRules
pub mod Json
pub mod Matches
pub mod Policy
pub mod Proxy
pub mod Stats
pub mod Text
