-- ===== src/Engine/Reports/Sound.antt =====
-- Sound reports, and those of a text.
use privacy_proxy.Base.{
  ◌==◌, Bool, true, false, some, List, [], ◌∷◌, ◌≡◌, ◌≢◌, refl, ◌∙◌, arith, inl, inr, Bool-cases,
}
use privacy_proxy.Text.{Bytes, equal}
use privacy_proxy.Text.Laws.{equal_iff}
use privacy_proxy.BTreeMap.{get}
use privacy_proxy.Error.{Holds, ok-Holds, bind-Holds}
use privacy_proxy.Stats.{ScanReport, default_report, merge, count_of}
use privacy_proxy.Stats.Laws.{
  IsReport, IsReport-default, record_kind-IsReport, merge-IsReport, count_of-record_kind,
  count_of-merge,
}
use privacy_proxy.Config.{
  DetectorKind, as_str, email, ip, jwt, bearer_token, cookie, credit_card, iban,
  url_sensitive_params,
}
use privacy_proxy.External.{External}
use privacy_proxy.Policy.{ReplacementPolicy, Replace, replacement, scan_policy}
use privacy_proxy.Engine.Patterns.{Engine, is_enabled}
use privacy_proxy.Engine.Replace.{
  replace_bearer_tokens, replace_cookie_headers, replace_cookie_assignments,
  replace_sensitive_url_params, replace_jwts, replace_emails, replace_ipv4_addresses,
  replace_ipv6_addresses, replace_credit_cards,
}
use privacy_proxy.Engine.Text.{
  Pass, when, both, bearer_pass, cookie_pass, ip_pass, passes, run_passes, redact_text,
  redact_str_with_policy, scan_str,
}
use privacy_proxy.Engine.Walk.{sensitive_key}
use privacy_proxy.Engine.Reports.{Records, Piece, replace_matches-Piece}
use privacy_proxy.Engine.Reports.Replacers.{
  bearer-Keeps, cookie_header-Keeps, cookie_assignment-Keeps, url-Keeps, jwt-Keeps, email-Keeps,
  ipv4-Keeps, ipv6-Keeps, credit_card-Keeps, ibans-Piece,
}

module _ (x : External) (engine : Engine x) where
  -- A well-formed report that names enabled detectors only.
  pub record Sound (report : ScanReport) : Type 0 where
    pub formed : IsReport report
    pub enabled :
        (name : Bytes)
        → count_of name report ≢ 0
        → (kind : DetectorKind) × (is_enabled x engine kind ≡ true) × (as_str kind ≡ name)

  pub default-Sound : Sound default_report
  unfolding get
  default-Sound = record {
    formed = IsReport-default;
    enabled = λ name some_count. absurd (some_count refl);
  }

  pub record_kind-Sound :
      (kind : DetectorKind) → is_enabled x engine kind ≡ true → Records Sound kind
  record_kind-Sound kind on report h = record {
    formed = record_kind-IsReport report kind h.formed;
    enabled = λ name some_count. elim (Bool-cases (equal (as_str kind) name)) [
      | inl same ↦ (kind, on, (equal_iff (as_str kind) name).0 same)
      | inr other ↦
          h.enabled name (λ e. some_count (count_of-record_kind report kind name ∙ rw other e))
    ];
  }

  pub merge-Sound :
      (report other : ScanReport) → Sound report → Sound other → Sound (merge report other)
  merge-Sound report other h k = record {
    formed = merge-IsReport report other h.formed k.formed;
    enabled = λ name some_count. elim (Bool-cases (count_of name report == 0)) [
      | inl none_here ↦
          k.enabled name
            (λ e. some_count (ground (arith, count_of-merge report other name h.formed k.formed)))
      | inr here ↦ h.enabled name (λ e. ground arith)
    ];
  }

  abbrev PassKeeps : Pass → Type 0
  PassKeeps pass =
      (text : Bytes) (stats : ScanReport) → Sound stats → Holds (Piece Sound) (pass text stats)

  when-Keeps : (b : Bool) (pass : Pass) → (b ≡ true → PassKeeps pass) → PassKeeps (when b pass)
  when-Keeps false pass h text stats p = ok-Holds (Piece Sound) _ p
  when-Keeps true pass h text stats p = h refl text stats p

  both-Keeps :
      (first second : Pass) → PassKeeps first → PassKeeps second → PassKeeps (both first second)
  both-Keeps first second h k text stats p =
      bind-Holds (Piece Sound) (Piece Sound) (first text stats) _ (h text stats p)
        (λ r q. k r.0 r.1 q)

  abbrev AllKeep : List (DetectorKind × Pass) → Type 0
  AllKeep [] = Unit
  AllKeep ((kind, pass) ∷ rest) = (is_enabled x engine kind ≡ true → PassKeeps pass) × AllKeep rest

  module _ (replace : Replace) where
    run_passes-Keeps :
        (ps : List (DetectorKind × Pass)) → AllKeep ps → PassKeeps (run_passes x engine replace ps)
    unfolding run_passes
    run_passes-Keeps [] h text stats p = ok-Holds (Piece Sound) _ p
    run_passes-Keeps ((kind, pass) ∷ rest) h text stats p =
        bind-Holds (Piece Sound) (Piece Sound) (when (is_enabled x engine kind) pass text stats) _
          (when-Keeps (is_enabled x engine kind) pass h.0 text stats p)
          (λ r q. run_passes-Keeps rest h.1 r.0 r.1 q)

    abbrev on : (kind : DetectorKind) → is_enabled x engine kind ≡ true → Records Sound kind
    on = record_kind-Sound

    passes-Keep : AllKeep (passes x engine replace)
    unfolding bearer_pass cookie_pass ip_pass replace_bearer_tokens replace_cookie_headers
        replace_cookie_assignments replace_sensitive_url_params replace_jwts replace_emails
        replace_ipv4_addresses replace_ipv6_addresses replace_credit_cards
    passes-Keep = (
      λ e text.
          replace_matches-Piece Sound text _ (bearer-Keeps Sound replace text (on bearer_token e))
            _,
      (
        λ e.
            both-Keeps _ _
              (λ text.
                replace_matches-Piece Sound text _
                  (cookie_header-Keeps Sound replace text (on cookie e)) _)
              (λ text.
                replace_matches-Piece Sound text _
                  (cookie_assignment-Keeps Sound replace text (on cookie e)) _),
        (
          λ e text.
              replace_matches-Piece Sound text _
                (url-Keeps Sound replace text (on url_sensitive_params e)) _,
          (
            λ e text.
                replace_matches-Piece Sound text _ (jwt-Keeps Sound replace text (on jwt e)) _,
            (
              λ e text.
                  replace_matches-Piece Sound text _ (email-Keeps Sound replace text (on email e))
                    _,
              (
                λ e.
                    both-Keeps _ _
                      (λ text.
                        replace_matches-Piece Sound text _ (ipv4-Keeps Sound replace text (on ip e))
                          _)
                      (λ text.
                        replace_matches-Piece Sound text _ (ipv6-Keeps Sound replace text (on ip e))
                          _),
                (
                  λ e text stats. ibans-Piece Sound x engine replace text stats (on iban e),
                  (
                    λ e text.
                        replace_matches-Piece Sound text _
                          (credit_card-Keeps Sound replace text (on credit_card e)) _,
                    tt,
                  ),
                ),
              ),
            ),
          ),
        ),
      ),
    )

    redact_text-Sound : (input : Bytes) → Holds (Piece Sound) (redact_text x engine replace input)
    unfolding redact_text
    redact_text-Sound input =
        run_passes-Keeps (passes x engine replace) passes-Keep input default_report default-Sound

  pub redact_str-Sound :
      (policy : ReplacementPolicy) (input : Bytes)
      → Holds (Piece Sound) (redact_str_with_policy x engine policy input)
  unfolding redact_str_with_policy
  redact_str-Sound policy = redact_text-Sound (replacement x policy)

  pub scan_str-Sound : (text : Bytes) → Holds Sound (scan_str x engine text)
  unfolding scan_str
  scan_str-Sound text =
      bind-Holds (Piece Sound) Sound _ _ (redact_str-Sound scan_policy text)
        (λ r q. ok-Holds Sound _ q)

  pub sensitive_key-enabled :
      (key : Bytes) (kind : DetectorKind)
      → sensitive_key x engine key ≡ some kind
      → is_enabled x engine kind ≡ true
  unfolding sensitive_key
  sensitive_key-enabled key kind e = ground arith
