-- ===== src/Cli/Lines.antt =====
-- `redact_line` and `scan_line`: a line is a JSON value or else a text.
pub mod Laws
use privacy_proxy.Base.{Option, none, some, if◌then◌else◌}
use privacy_proxy.Text.{Bytes, trim, is_empty}
use privacy_proxy.Error.{Result, Fallible, ok, err, ◌>>=◌, map_err}
use privacy_proxy.Stats.{ScanReport, default_report}
use privacy_proxy.Json.{Value}
use privacy_proxy.External.{External}
use privacy_proxy.Engine.Patterns.{Engine}
use privacy_proxy.Engine.Text.{scan_str}
use privacy_proxy.Engine.Api.{redact_value, scan_value, redact_str}
use privacy_proxy.Cli.Reader.{Problem, core, serialize_failed}

-- `serde_json::to_string(..).context(..)`
abbrev pub serialized : External → Value → Fallible Problem Bytes
serialized x value = elim (x.json_to_string value) [
  | none ↦ err serialize_failed
  | some text ↦ ok text
]

-- The parameter `json_from_str` is `serde_json::from_str`.
module _ (x : External) (json_from_str : Bytes → Option Value) (engine : Engine x) where
  unfoldable pub redact_json_line : Value → Fallible Problem Bytes
  redact_json_line value = do
    result ← map_err core (redact_value x engine value)
    serialized x result.0

  unfoldable pub redact_text_line : Bytes → Fallible Problem Bytes
  redact_text_line content = do result ← map_err core (redact_str x engine content); ok result.0

  unfoldable pub redact_line : Bytes → Fallible Problem Bytes
  unfolding redact_json_line redact_text_line
  redact_line content =
      if is_empty (trim content) then ok content else elim (json_from_str content) [
        | some value ↦ redact_json_line value
        | none ↦ redact_text_line content
      ]

  unfoldable pub scan_line : Bytes → Fallible Problem ScanReport
  scan_line content =
      if is_empty (trim content) then ok default_report else elim (json_from_str content) [
        | some value ↦ map_err core (scan_value x engine value)
        | none ↦ map_err core (scan_str x engine content)
      ]
