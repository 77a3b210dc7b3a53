-- ===== src/Engine/Api.antt =====
-- The public methods of `Engine`, and the functions of the crate that make an engine for one call.
use privacy_proxy.Text.{Bytes}
use privacy_proxy.Error.{Result, ◌>>=◌}
use privacy_proxy.Stats.{ScanReport}
use privacy_proxy.Config.{Config}
use privacy_proxy.Json.{Value}
use privacy_proxy.External.{External}
use privacy_proxy.Policy.{from_config, from_config_with_key}
use privacy_proxy.Engine.Patterns.{Engine, new_engine}
use privacy_proxy.Engine.Text.{redact_str_with_policy, scan_str}
use privacy_proxy.Engine.Walk.{redact_value_inner, scan_value_inner}

module _ (x : External) (engine : Engine x) where
  unfoldable pub redact_value : Value → Result (Value × ScanReport)
  redact_value value = do
    policy ← from_config x engine.config
    redact_value_inner x engine policy value

  unfoldable pub redact_value_with_hash_key : Value → Bytes → Result (Value × ScanReport)
  redact_value_with_hash_key value hash_key = do
    policy ← from_config_with_key engine.config hash_key
    redact_value_inner x engine policy value

  unfoldable pub scan_value : Value → Result ScanReport
  scan_value = scan_value_inner x engine

  unfoldable pub redact_str : Bytes → Result (Bytes × ScanReport)
  redact_str input = do
    policy ← from_config x engine.config
    redact_str_with_policy x engine policy input

  unfoldable pub redact_str_with_hash_key : Bytes → Bytes → Result (Bytes × ScanReport)
  redact_str_with_hash_key input hash_key = do
    policy ← from_config_with_key engine.config hash_key
    redact_str_with_policy x engine policy input

module _ (x : External) where
  -- `redact_value(value, config)`
  unfoldable pub redact_value_once : Value → Config → Result (Value × ScanReport)
  redact_value_once value config = do engine ← new_engine x config; redact_value x engine value

  -- `scan_value(value, config)`
  unfoldable pub scan_value_once : Value → Config → Result ScanReport
  scan_value_once value config = do engine ← new_engine x config; scan_value x engine value

  -- `redact_str(input, config)`
  unfoldable pub redact_str_once : Bytes → Config → Result (Bytes × ScanReport)
  redact_str_once input config = do engine ← new_engine x config; redact_str x engine input

  -- `scan_str(input, config)`
  unfoldable pub scan_str_once : Bytes → Config → Result ScanReport
  scan_str_once input config = do engine ← new_engine x config; scan_str x engine input
