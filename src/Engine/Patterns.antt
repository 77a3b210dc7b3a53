-- ===== src/Engine/Patterns.antt =====
-- `Patterns`, `Engine` and `Engine::new`.
use privacy_proxy.Base.{Bool, true, false, List, String, any}
use mathlib.Core.Logic.{ite}
use privacy_proxy.Error.{regex, Result, ok, ◌>>=◌, ◌>>◌}
use privacy_proxy.Config.{Config, DetectorKind, validate, or_err}
use privacy_proxy.Config.Laws.{DetectorKind-discrete}
use privacy_proxy.External.{External}
use privacy_proxy.FieldRules.{FieldRules, new as new_field_rules}

module _ (x : External) where
  pub record Patterns : Type 0 where
    pub bearer : x.Regex
    pub cookie_header : x.Regex
    pub cookie_assignment : x.Regex
    pub credit_card : x.Regex
    pub email : x.Regex
    pub iban : x.Regex
    pub ipv4 : x.Regex
    pub ipv6 : x.Regex
    pub jwt : x.Regex
    pub url : x.Regex

  abbrev pattern_of : String → Result x.Regex
  pattern_of text = or_err regex (x.regex_new text)

  -- `Patterns::new`
  unfoldable pub new_patterns : Result Patterns
  new_patterns = do
    bearer ← pattern_of "(?i)\\b(Bearer\\s+)([A-Za-z0-9._~+/=-]{8,})\\b"
    cookie_header ← pattern_of "(?i)\\b(set-cookie|cookie)\\s*:\\s*([^\\r\\n]+)"
    cookie_assignment ←
        pattern_of
          "(?i)\\b(cookie\\s+)([A-Za-z0-9_.-]+=[^;\\s]+(?:\\s*;\\s*[A-Za-z0-9_.-]+=[^;\\s]+)*)"
    credit_card ← pattern_of "\\b\\d(?:[ -]?\\d){12,18}\\b"
    email ← pattern_of "(?i)\\b[A-Z0-9._%+-]+@[A-Z0-9.-]+\\.[A-Z]{2,}\\b"
    iban ← pattern_of "(?i)\\b[A-Z]{2}\\d{2}"
    ipv4 ← pattern_of "\\b(?:\\d{1,3}\\.){3}\\d{1,3}\\b"
    ipv6 ← pattern_of "(?i)(?:[0-9a-f]{0,4}:){2,}[0-9a-f]{0,4}"
    jwt ← pattern_of "\\b[A-Za-z0-9_-]{10,}\\.[A-Za-z0-9_-]{10,}\\.[A-Za-z0-9_-]{10,}\\b"
    url ← pattern_of "(?i)\\bhttps?://[^\\s\"'<>]+"
    ok (record {
      bearer = bearer;
      cookie_header = cookie_header;
      cookie_assignment = cookie_assignment;
      credit_card = credit_card;
      email = email;
      iban = iban;
      ipv4 = ipv4;
      ipv6 = ipv6;
      jwt = jwt;
      url = url;
    })

  -- The set of enabled detectors is held as a list.
  pub record Engine : Type 0 where
    pub config : Config
    pub enabled : List DetectorKind
    pub field_rules : FieldRules
    pub patterns : Patterns

  -- `Engine::new`
  unfoldable pub new_engine : Config → Result Engine
  unfolding new_patterns
  new_engine config = do
    validate config
    patterns ← new_patterns
    ok (record {
      config = config;
      enabled = config.redact;
      field_rules = new_field_rules config;
      patterns = patterns;
    })

  unfoldable pub is_enabled : Engine → DetectorKind → Bool
  is_enabled engine kind = any (λ k. ite (DetectorKind-discrete k kind) true false) engine.enabled
