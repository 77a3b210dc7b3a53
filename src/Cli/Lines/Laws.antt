-- ===== src/Cli/Lines/Laws.antt =====
-- Redaction and scanning of a line return a result.
use privacy_proxy.Base.{Option, ◌≡◌, refl}
use privacy_proxy.Text.{Bytes, trim, is_empty}
use privacy_proxy.Error.{
  Fallible, ok, ◌>>=◌, map_err, Returns, bind-Returns, if-Returns, option-Returns,
}
use privacy_proxy.Config.{DetectorKind}
use privacy_proxy.Json.{Value}
use privacy_proxy.External.{External}
use privacy_proxy.Policy.{from_config}
use privacy_proxy.Policy.Laws.{AcceptsKeys, from_config-IsPolicyOf, replacement_total}
use privacy_proxy.Engine.Patterns.{Engine}
use privacy_proxy.Engine.Text.{scan_str}
use privacy_proxy.Engine.Api.{redact_value, scan_value, redact_str}
use privacy_proxy.Engine.Total.Run.{
  WritesJson, redact_value_total, redact_str_total, scan_value_total, scan_str_total,
}
use privacy_proxy.Cli.Reader.{core}
use privacy_proxy.Cli.Lines.{serialized, redact_json_line, redact_text_line, redact_line, scan_line}

map_err-Returns :
    {E F : Type 0} {A : Type 0} (change : E → F) (r : Fallible E A)
    → Returns r
    → Returns (map_err change r)
map_err-Returns change r (a, e) = (a, rw e refl)

bind-made :
    {E : Type 0} {A B : Type 0} (r : Fallible E A) (f : A → Fallible E B) (a : A)
    → r ≡ ok a
    → Returns (f a)
    → Returns (r >>= f)
bind-made r f a e (b, q) = (b, rw e q)

serialized_total : (x : External) → WritesJson x → (value : Value) → Returns (serialized x value)
serialized_total x writes value = let (text, e) = writes value in (text, rw (e, serialized) refl)

module _ (x : External) (json_from_str : Bytes → Option Value) (engine : Engine x) where
  -- Scanning a line never fails.
  pub scan_line_total : (content : Bytes) → Returns (scan_line x json_from_str engine content)
  unfolding scan_line scan_value
  scan_line_total content =
      if-Returns (is_empty (trim content)) _ _ (_, refl)
        (option-Returns (json_from_str content) _ _
          (map_err-Returns core (scan_str x engine content) (scan_str_total x engine content))
          (λ value.
            map_err-Returns core (scan_value x engine value) (scan_value_total x engine value)))

  -- Redacting a line never fails if the policy can be made from the engine's configuration, HMAC
  -- accepts every key, and JSON values can be written.
  pub redact_line_total :
      AcceptsKeys x
      → WritesJson x
      → Returns (from_config x engine.config)
      → (content : Bytes) → Returns (redact_line x json_from_str engine content)
  unfolding redact_line redact_json_line redact_text_line redact_value redact_str
  redact_line_total accepts writes (policy, made) content =
      let p = from_config-IsPolicyOf x engine.config policy made in
      let replaces = λ (kind : DetectorKind) (secret : Bytes).
        replacement_total x engine.config policy kind secret accepts p in
      if-Returns (is_empty (trim content)) _ _ (_, refl)
        (option-Returns (json_from_str content) _ _
          (bind-Returns _ _
            (map_err-Returns core (redact_str x engine content) (
              bind-made (from_config x engine.config) _ policy made
                (redact_str_total x engine policy replaces content)))
            (λ r. (_, refl)))
          (λ value.
            bind-Returns _ _
              (map_err-Returns core (redact_value x engine value) (
                bind-made (from_config x engine.config) _ policy made
                  (redact_value_total x engine engine.config policy accepts writes p value)))
              (λ r. serialized_total x writes r.0)))
