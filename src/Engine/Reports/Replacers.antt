-- ===== src/Engine/Reports/Replacers.antt =====
-- The closures of the detectors.
use privacy_proxy.Base.{ℕ, Option, none, some, List, [], ◌∷◌, drop}
use privacy_proxy.Text.{Bytes}
use privacy_proxy.Error.{Result, Holds, ok-Holds, bind-Holds, if-Holds, option-Holds}
use privacy_proxy.Stats.{ScanReport}
use privacy_proxy.Config.{
  DetectorKind, email, ip, jwt, bearer_token, cookie, credit_card, iban, url_sensitive_params,
}
use privacy_proxy.External.{External, Match, Captures, group}
use privacy_proxy.Policy.{Replace}
use privacy_proxy.Matches.{Rewriting, start_rewriting, write_piece}
use privacy_proxy.Checksum.Iban.{valid_iban_span}
use privacy_proxy.Engine.Patterns.{Engine}
use privacy_proxy.Engine.Replace.{
  detected, bearer_replacer, cookie_header_replacer, cookie_assignment_replacer, url_replacer,
  jwt_replacer, email_replacer, ipv4_replacer, ipv6_replacer, credit_card_replacer, with_group,
  prefixed,
}
use privacy_proxy.Engine.Ibans.{replace_iban_at, iban_step, iban_loop, replace_ibans}
use privacy_proxy.Engine.Reports.{Records, Piece, Written, Keeps, after_replacement}
use privacy_proxy.Engine.Reports.Parsers.{redact_cookie_body-Piece, redact_sensitive_url-Piece}

module _ (P : ScanReport → Type 0) where
  module _ (replace : Replace) where
    module _ (input : Bytes) where
      detected-Piece :
          (kind : DetectorKind) (prefix secret : Bytes) (stats : ScanReport)
          → Records P kind
          → P stats
          → Holds (Piece P) (detected replace input kind prefix secret stats)
      unfolding detected
      detected-Piece kind prefix secret stats records p =
          after_replacement P replace (Piece P) kind secret _
            (λ text. ok-Holds (Piece P) _ (records stats p))

      with_group-Piece :
          (captures : Captures) (i : ℕ) (stats : ScanReport)
          (body : Match → Result (Option Bytes × ScanReport))
          → P stats
          → ((found : Match) → Holds (Piece P) (body found))
          → Holds (Piece P) (with_group captures i stats body)
      with_group-Piece captures i stats body p h =
          option-Holds (Piece P) (group captures i) _ body (ok-Holds (Piece P) _ p) h

      prefixed-Piece :
          (prefix : Bytes) (result : Option Bytes × ScanReport)
          → P result.1
          → P (prefixed prefix result).1
      prefixed-Piece prefix (none, stats) p = p
      prefixed-Piece prefix (some body, stats) p = p

      pub bearer-Keeps : Records P bearer_token → Keeps P (bearer_replacer replace input)
      unfolding bearer_replacer
      bearer-Keeps records captures stats p = with_group-Piece captures 1 stats _ p λ prefix.
          with_group-Piece captures 2 stats _ p λ token. detected-Piece _ _ _ stats records p

      pub cookie_header-Keeps : Records P cookie → Keeps P (cookie_header_replacer replace input)
      unfolding cookie_header_replacer
      cookie_header-Keeps records captures stats p = with_group-Piece captures 1 stats _ p λ header.
          with_group-Piece captures 2 stats _ p λ body.
            bind-Holds (Piece P) (Piece P) _ _
              (redact_cookie_body-Piece P replace records _ stats p)
              (λ redacted q. ok-Holds (Piece P) _ (prefixed-Piece _ redacted q))

      pub cookie_assignment-Keeps :
          Records P cookie → Keeps P (cookie_assignment_replacer replace input)
      unfolding cookie_assignment_replacer
      cookie_assignment-Keeps records captures stats p =
          with_group-Piece captures 1 stats _ p λ prefix.
            with_group-Piece captures 2 stats _ p λ body.
              bind-Holds (Piece P) (Piece P) _ _
                (redact_cookie_body-Piece P replace records _ stats p)
                (λ redacted q. ok-Holds (Piece P) _ (prefixed-Piece _ redacted q))

      pub url-Keeps : Records P url_sensitive_params → Keeps P (url_replacer replace input)
      unfolding url_replacer
      url-Keeps records captures stats p =
          with_group-Piece captures 0 stats _ p
            λ url. redact_sensitive_url-Piece P replace records _ stats p

      pub jwt-Keeps : Records P jwt → Keeps P (jwt_replacer replace input)
      unfolding jwt_replacer
      jwt-Keeps records captures stats p = with_group-Piece captures 0 stats _ p λ candidate.
          if-Holds (Piece P) _ _ _ (ok-Holds (Piece P) _ p) (detected-Piece _ [] _ stats records p)

      pub email-Keeps : Records P email → Keeps P (email_replacer replace input)
      unfolding email_replacer
      email-Keeps records captures stats p =
          with_group-Piece captures 0 stats _ p λ found. detected-Piece _ [] _ stats records p

      pub ipv4-Keeps : Records P ip → Keeps P (ipv4_replacer replace input)
      unfolding ipv4_replacer
      ipv4-Keeps records captures stats p = with_group-Piece captures 0 stats _ p λ candidate.
          if-Holds (Piece P) _ _ _ (ok-Holds (Piece P) _ p) (detected-Piece _ [] _ stats records p)

      pub ipv6-Keeps : Records P ip → Keeps P (ipv6_replacer replace input)
      unfolding ipv6_replacer
      ipv6-Keeps records captures stats p = with_group-Piece captures 0 stats _ p λ candidate.
          if-Holds (Piece P) _ _ _ (ok-Holds (Piece P) _ p) (detected-Piece _ [] _ stats records p)

      pub credit_card-Keeps : Records P credit_card → Keeps P (credit_card_replacer replace input)
      unfolding credit_card_replacer
      credit_card-Keeps records captures stats p =
          with_group-Piece captures 0 stats _ p λ candidate.
            if-Holds (Piece P) _ _ _ (ok-Holds (Piece P) _ p)
              (detected-Piece _ [] _ stats records p)

      iban_step-Written :
          (m : Match) (s : Rewriting)
          → Records P iban
          → Written P s
          → Holds (Written P) (iban_step replace input m s)
      unfolding iban_step replace_iban_at write_piece
      iban_step-Written m s records p = if-Holds (Written P) _ _ _ (ok-Holds (Written P) s p) (
          option-Holds (Written P) (valid_iban_span (drop m.start input)) _ _
            (ok-Holds (Written P) s p)
            (λ n.
              after_replacement P replace (Written P) _ _ _
                (λ text. ok-Holds (Written P) _ (records s.stats p))))

      iban_loop-Written :
          (ms : List Match) (s : Rewriting)
          → Records P iban
          → Written P s
          → Holds (Written P) (iban_loop replace input ms s)
      unfolding iban_loop
      iban_loop-Written [] s records p = ok-Holds (Written P) s p
      iban_loop-Written (m ∷ rest) s records p =
          bind-Holds (Written P) (Written P) _ _ (iban_step-Written m s records p)
            (λ s' q. iban_loop-Written rest s' records q)

  pub ibans-Piece :
      (x : External) (engine : Engine x) (replace : Replace) (input : Bytes) (stats : ScanReport)
      → Records P iban
      → P stats
      → Holds (Piece P) (replace_ibans x engine input replace stats)
  unfolding replace_ibans
  ibans-Piece x engine replace input stats records p =
      bind-Holds (Written P) (Piece P) _ _
        (iban_loop-Written replace input (x.find_iter engine.patterns.iban input)
          (start_rewriting stats) records p)
        (λ s q. ok-Holds (Piece P) _ q)
