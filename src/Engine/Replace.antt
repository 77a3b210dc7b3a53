-- ===== src/Engine/Replace.antt =====
-- The methods of `Engine` that rewrite the matches of one pattern.
use privacy_proxy.Base.{
  ℕ, not, ◌&&◌, ◌||◌, Option, none, some, [], ◌++◌, leb, if◌then◌else◌, length,
}
use privacy_proxy.Text.{Bytes, codes}
use privacy_proxy.Error.{Result, ok, ◌>>=◌}
use privacy_proxy.Stats.{ScanReport, record_kind}
use privacy_proxy.Config.{DetectorKind, email, ip, jwt, bearer_token, credit_card}
use privacy_proxy.External.{External, Match, Captures, group, match_text}
use privacy_proxy.Policy.{Replace}
use privacy_proxy.Matches.{Replacer, replace_matches}
use privacy_proxy.Checksum.Luhn.{digits_only, is_luhn_valid}
use privacy_proxy.Detector.Cookie.{redact_cookie_body}
use privacy_proxy.Detector.Url.{redact_sensitive_url}
use privacy_proxy.Detector.Jwt.{looks_like_jwt}
use privacy_proxy.Detector.Ip.{is_ipv4, is_ipv6}
use privacy_proxy.Engine.Patterns.{Engine}

-- `let Some(found) = captures.get(i) else { return Ok(None) }`
abbrev pub with_group :
    Captures
    → ℕ
    → ScanReport
    → (Match → Result (Option Bytes × ScanReport))
    → Result (Option Bytes × ScanReport)
with_group captures i stats body = elim (group captures i) [
  | none ↦ ok (none, stats)
  | some found ↦ body found
]

-- `prefix` before a text that may be missing.
abbrev pub prefixed : Bytes → Option Bytes × ScanReport → Option Bytes × ScanReport
prefixed prefix (none, stats) = (none, stats)
prefixed prefix (some body, stats) = (some (prefix ++ body), stats)

-- The closures take `policy.replacement`, all that they use of the policy, and the searched text.
module _ (replacement : Replace) (input : Bytes) where
  -- A detection of `kind` is recorded, and `secret` gets a replacement, `prefix` before it.
  unfoldable pub detected :
      DetectorKind → Bytes → Bytes → ScanReport → Result (Option Bytes × ScanReport)
  detected kind prefix secret stats = do
    text ← replacement kind secret
    ok (some (prefix ++ text), record_kind stats kind)

  unfoldable pub bearer_replacer : Replacer
  unfolding detected
  bearer_replacer captures stats = with_group captures 1 stats λ prefix.
      with_group captures 2 stats
        λ token. detected bearer_token (match_text input prefix) (match_text input token) stats

  unfoldable pub cookie_header_replacer : Replacer
  cookie_header_replacer captures stats = with_group captures 1 stats λ header.
      with_group captures 2 stats λ body. do
        redacted ← redact_cookie_body replacement (match_text input body) stats
        ok (prefixed (match_text input header ++ codes ": ") redacted)

  unfoldable pub cookie_assignment_replacer : Replacer
  cookie_assignment_replacer captures stats = with_group captures 1 stats λ prefix.
      with_group captures 2 stats λ body. do
        redacted ← redact_cookie_body replacement (match_text input body) stats
        ok (prefixed (match_text input prefix) redacted)

  unfoldable pub url_replacer : Replacer
  url_replacer captures stats =
      with_group captures 0 stats
        λ url. redact_sensitive_url replacement (match_text input url) stats

  unfoldable pub jwt_replacer : Replacer
  unfolding detected
  jwt_replacer captures stats = with_group captures 0 stats λ candidate.
      if not (looks_like_jwt (match_text input candidate))
      then ok (none, stats)
      else detected jwt [] (match_text input candidate) stats

  unfoldable pub email_replacer : Replacer
  unfolding detected
  email_replacer captures stats =
      with_group captures 0 stats λ found. detected email [] (match_text input found) stats

  unfoldable pub ipv4_replacer : Replacer
  unfolding detected
  ipv4_replacer captures stats = with_group captures 0 stats λ candidate.
      if not (is_ipv4 (match_text input candidate))
      then ok (none, stats)
      else detected ip [] (match_text input candidate) stats

  unfoldable pub ipv6_replacer : Replacer
  unfolding detected
  ipv6_replacer captures stats = with_group captures 0 stats λ candidate.
      if not (is_ipv6 (match_text input candidate))
      then ok (none, stats)
      else detected ip [] (match_text input candidate) stats

  unfoldable pub credit_card_replacer : Replacer
  unfolding detected
  credit_card_replacer captures stats = with_group captures 0 stats λ candidate.
      let digits = digits_only (match_text input candidate) in
      if not (leb 13 (length digits) && leb (length digits) 19) || not (is_luhn_valid digits)
      then ok (none, stats)
      else detected credit_card [] digits stats

module _ (x : External) (engine : Engine x) (input : Bytes) (replacement : Replace)
    (stats : ScanReport) where
  unfoldable pub replace_bearer_tokens : Result (Bytes × ScanReport)
  replace_bearer_tokens =
      replace_matches input (x.captures_iter engine.patterns.bearer input) stats
        (bearer_replacer replacement input)

  unfoldable pub replace_cookie_headers : Result (Bytes × ScanReport)
  replace_cookie_headers =
      replace_matches input (x.captures_iter engine.patterns.cookie_header input) stats
        (cookie_header_replacer replacement input)

  unfoldable pub replace_cookie_assignments : Result (Bytes × ScanReport)
  replace_cookie_assignments =
      replace_matches input (x.captures_iter engine.patterns.cookie_assignment input) stats
        (cookie_assignment_replacer replacement input)

  unfoldable pub replace_sensitive_url_params : Result (Bytes × ScanReport)
  replace_sensitive_url_params =
      replace_matches input (x.captures_iter engine.patterns.url input) stats
        (url_replacer replacement input)

  unfoldable pub replace_jwts : Result (Bytes × ScanReport)
  replace_jwts =
      replace_matches input (x.captures_iter engine.patterns.jwt input) stats
        (jwt_replacer replacement input)

  unfoldable pub replace_emails : Result (Bytes × ScanReport)
  replace_emails =
      replace_matches input (x.captures_iter engine.patterns.email input) stats
        (email_replacer replacement input)

  unfoldable pub replace_ipv4_addresses : Result (Bytes × ScanReport)
  replace_ipv4_addresses =
      replace_matches input (x.captures_iter engine.patterns.ipv4 input) stats
        (ipv4_replacer replacement input)

  unfoldable pub replace_ipv6_addresses : Result (Bytes × ScanReport)
  replace_ipv6_addresses =
      replace_matches input (x.captures_iter engine.patterns.ipv6 input) stats
        (ipv6_replacer replacement input)

  unfoldable pub replace_credit_cards : Result (Bytes × ScanReport)
  replace_credit_cards =
      replace_matches input (x.captures_iter engine.patterns.credit_card input) stats
        (credit_card_replacer replacement input)
