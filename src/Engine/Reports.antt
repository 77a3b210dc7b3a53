-- ===== src/Engine/Reports.antt =====
-- What the detectors do to a report: a property of reports that recording of a detector keeps is
-- kept by the passes of that detector.
pub mod Parsers
pub mod Replacers
pub mod Sound
pub mod Walk
use privacy_proxy.Base.{
  ℕ, zero, suc, ◌+◌, Bool, true, false, Option, none, some, List, [], ◌∷◌, ◌++◌, if◌then◌else◌,
  drop, ltb,
}
use privacy_proxy.Text.{Bytes, codes, split, find, trim, is_empty}
use privacy_proxy.Error.{
  Error, Result, ok, ◌>>=◌, Holds, ok-Holds, bind-Holds, if-Holds, option-Holds,
}
use privacy_proxy.Stats.{ScanReport, record_kind}
use privacy_proxy.Config.{
  DetectorKind, email, ip, jwt, bearer_token, cookie, credit_card, iban, url_sensitive_params,
}
use privacy_proxy.External.{External, Match, Captures, group, match_text}
use privacy_proxy.Policy.{Replace}
use privacy_proxy.Matches.{
  Replacer, Rewriting, start_rewriting, write_piece, replace_found, replace_step, replace_loop,
  replace_matches,
}
use privacy_proxy.Checksum.Iban.{valid_iban_span}
use privacy_proxy.Detector.Cookie.{
  CookieParts, redact_pair, redact_part, redact_parts, redact_all_parts, redact_cookie_body,
}
use privacy_proxy.Detector.Url.{
  Query, redact_param, redact_params, redact_all_params, redact_query, redact_sensitive_url,
  split_fragment, key_value, split_trailing_url_punctuation, is_sensitive_url_param,
}
use privacy_proxy.Engine.Patterns.{Engine}
use privacy_proxy.Engine.Replace.{
  detected, bearer_replacer, cookie_header_replacer, cookie_assignment_replacer, url_replacer,
  jwt_replacer, email_replacer, ipv4_replacer, ipv6_replacer, credit_card_replacer, with_group,
  prefixed,
}
use privacy_proxy.Engine.Ibans.{replace_iban_at, iban_step, iban_loop, replace_ibans}

module _ (P : ScanReport → Type 0) where
  -- Recording a detector keeps the property.
  abbrev pub Records : DetectorKind → Type 0
  Records kind = (stats : ScanReport) → P stats → P (record_kind stats kind)

  -- What a piece or a text comes with.
  abbrev pub Piece : {A : Type 0} → A × ScanReport → Type 0
  Piece result = P result.1

  abbrev pub Keeps : Replacer → Type 0
  Keeps replacer =
      (captures : Captures) (stats : ScanReport) → P stats → Holds Piece (replacer captures stats)

  abbrev pub Written : Rewriting → Type 0
  Written s = P s.stats

  module _ (input : Bytes) (replacer : Replacer) (keeps : Keeps replacer) where
    write_piece-Written :
        (start stop : ℕ) (s : Rewriting) (piece : Option Bytes × ScanReport)
        → P piece.1
        → Written (write_piece input start stop s piece)
    unfolding write_piece
    write_piece-Written start stop s (none, stats) p = p
    write_piece-Written start stop s (some text, stats) p = p

    replace_step-Written :
        (captures : Captures) (s : Rewriting)
        → Written s
        → Holds Written (replace_step input replacer captures s)
    unfolding replace_step replace_found
    replace_step-Written captures s p =
        option-Holds Written (group captures 0) _ _ (ok-Holds Written s p) (λ full_match.
          if-Holds Written (ltb full_match.start s.last_end) _ _ (ok-Holds Written s p) (
            bind-Holds Piece Written _ _ (keeps captures s.stats p) (λ piece q.
              ok-Holds Written _ (write_piece-Written full_match.start full_match.stop s piece q))))

    replace_loop-Written :
        (matches : List Captures) (s : Rewriting)
        → Written s
        → Holds Written (replace_loop input replacer matches s)
    unfolding replace_loop
    replace_loop-Written [] s p = ok-Holds Written s p
    replace_loop-Written (captures ∷ rest) s p =
        bind-Holds Written Written _ _ (replace_step-Written captures s p)
          (λ s' q. replace_loop-Written rest s' q)

    pub replace_matches-Piece :
        (matches : List Captures) (stats : ScanReport)
        → P stats
        → Holds Piece (replace_matches input matches stats replacer)
    unfolding replace_matches
    replace_matches-Piece matches stats p =
        bind-Holds Written Piece _ _ (replace_loop-Written matches (start_rewriting stats) p)
          (λ s q. ok-Holds Piece _ q)

  module _ (replace : Replace) where
    -- A replacement is got, and the detector recorded.
    pub after_replacement :
        {A : Type 0} (Q : A → Type 0) (kind : DetectorKind) (secret : Bytes) (f : Bytes → Result A)
        → ((text : Bytes) → Holds Q (f text))
        → Holds Q (replace kind secret >>= f)
    after_replacement Q kind secret f h =
        bind-Holds (λ text. Unit) Q (replace kind secret) f (λ text e. tt) (λ text t. h text)
