-- ===== src/Engine/Text.antt =====
-- `Engine::redact_str_with_policy` and `Engine::scan_str`: the detectors, one after another.
use privacy_proxy.Base.{Bool, true, false, List, [], ◌∷◌}
use privacy_proxy.Text.{Bytes}
use privacy_proxy.Error.{Result, ok, ◌>>=◌}
use privacy_proxy.Stats.{ScanReport, default_report}
use privacy_proxy.Config.{
  DetectorKind, email, ip, jwt, bearer_token, cookie, credit_card, iban, url_sensitive_params,
}
use privacy_proxy.External.{External}
use privacy_proxy.Policy.{ReplacementPolicy, Replace, replacement, scan_policy}
use privacy_proxy.Engine.Patterns.{Engine, is_enabled}
use privacy_proxy.Engine.Replace.{
  replace_bearer_tokens, replace_cookie_headers, replace_cookie_assignments,
  replace_sensitive_url_params, replace_jwts, replace_emails, replace_ipv4_addresses,
  replace_ipv6_addresses, replace_credit_cards,
}
use privacy_proxy.Engine.Ibans.{replace_ibans}

-- The text, and the report so far.
abbrev pub Pass : Type 0
Pass = Bytes → ScanReport → Result (Bytes × ScanReport)

-- `if self.is_enabled(kind) { … }`
abbrev pub when : Bool → Pass → Pass
when false pass text stats = ok (text, stats)
when true pass text stats = pass text stats

abbrev pub both : Pass → Pass → Pass
both first second text stats = do (text', stats') ← first text stats; second text' stats'

-- The passes take `policy.replacement`, all that they use of the policy.
module _ (x : External) (engine : Engine x) (replace : Replace) where
  unfoldable pub bearer_pass : Pass
  bearer_pass text = replace_bearer_tokens x engine text replace

  unfoldable pub cookie_pass : Pass
  cookie_pass =
      both (λ text. replace_cookie_headers x engine text replace)
        (λ text. replace_cookie_assignments x engine text replace)

  unfoldable pub ip_pass : Pass
  ip_pass =
      both (λ text. replace_ipv4_addresses x engine text replace)
        (λ text. replace_ipv6_addresses x engine text replace)

  -- The passes in their order, each with the detector that enables it.
  abbrev pub passes : List (DetectorKind × Pass)
  passes =
      (bearer_token, bearer_pass)
      ∷ (cookie, cookie_pass)
      ∷ (url_sensitive_params, λ text. replace_sensitive_url_params x engine text replace)
      ∷ (jwt, λ text. replace_jwts x engine text replace)
      ∷ (email, λ text. replace_emails x engine text replace)
      ∷ (ip, ip_pass)
      ∷ (iban, λ text. replace_ibans x engine text replace)
      ∷ (credit_card, λ text. replace_credit_cards x engine text replace)
      ∷ []

  unfoldable pub run_passes : List (DetectorKind × Pass) → Pass
  run_passes [] text stats = ok (text, stats)
  run_passes ((kind, pass) ∷ rest) text stats = do
    (text', stats') ← when (is_enabled x engine kind) pass text stats
    run_passes rest text' stats'

  unfoldable pub redact_text : Bytes → Result (Bytes × ScanReport)
  unfolding run_passes bearer_pass cookie_pass ip_pass
  redact_text input = run_passes passes input default_report

-- The text and the report of `RedactTextResult`.
unfoldable pub redact_str_with_policy :
    (x : External) → Engine x → ReplacementPolicy → Bytes → Result (Bytes × ScanReport)
unfolding redact_text
redact_str_with_policy x engine policy = redact_text x engine (replacement x policy)

unfoldable pub scan_str : (x : External) → Engine x → Bytes → Result ScanReport
scan_str x engine input = do
  (text, stats) ← redact_str_with_policy x engine scan_policy input
  ok stats
