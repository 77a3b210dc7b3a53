-- ===== src/Engine/Reports/Parsers.antt =====
-- The parsers behind two detectors, and the reports that they return.
use privacy_proxy.Base.{◌+◌, List, [], ◌∷◌, drop}
use privacy_proxy.Text.{Bytes, split, find, trim, is_empty}
use privacy_proxy.Error.{Holds, ok-Holds, bind-Holds, if-Holds, option-Holds}
use privacy_proxy.Stats.{ScanReport}
use privacy_proxy.Config.{cookie, url_sensitive_params}
use privacy_proxy.Policy.{Replace}
use privacy_proxy.Detector.Cookie.{
  CookieParts, redact_pair, redact_part, redact_parts, redact_all_parts, redact_cookie_body,
}
use privacy_proxy.Detector.Url.{
  Query, redact_param, redact_params, redact_all_params, redact_query, redact_sensitive_url,
  split_fragment, key_value, split_trailing_url_punctuation, is_sensitive_url_param,
}
use privacy_proxy.Engine.Reports.{Records, Piece, after_replacement}

module _ (P : ScanReport → Type 0) (replace : Replace) where
  module _ (records : Records P cookie) where
    abbrev In : CookieParts → Type 0
    In s = P s.stats

    redact_part-In : (part : Bytes) (s : CookieParts) → In s → Holds In (redact_part replace part s)
    unfolding redact_part redact_pair
    redact_part-In part s p = option-Holds In (find b'=' part) _ _ (ok-Holds In _ p) (λ i.
        if-Holds In (is_empty (trim (drop (i + 1) part))) _ _ (ok-Holds In _ p)
          (after_replacement P replace In _ _ _ (λ text. ok-Holds In _ (records s.stats p))))

    redact_parts-In :
        (parts : List Bytes) (s : CookieParts) → In s → Holds In (redact_parts replace parts s)
    unfolding redact_parts
    redact_parts-In [] s p = ok-Holds In s p
    redact_parts-In (part ∷ rest) s p =
        bind-Holds In In _ _ (redact_part-In part _ p) (λ s' q. redact_parts-In rest s' q)

    redact_all_parts-In :
        (parts : List Bytes) (s : CookieParts) → In s → Holds In (redact_all_parts replace parts s)
    unfolding redact_all_parts
    redact_all_parts-In [] s p = ok-Holds In s p
    redact_all_parts-In (part ∷ rest) s p =
        bind-Holds In In _ _ (redact_part-In part s p) (λ s' q. redact_parts-In rest s' q)

    pub redact_cookie_body-Piece :
        (body : Bytes) (stats : ScanReport)
        → P stats
        → Holds (Piece P) (redact_cookie_body replace body stats)
    unfolding redact_cookie_body
    redact_cookie_body-Piece body stats p =
        bind-Holds In (Piece P) _ _ (redact_all_parts-In (split b';' body) _ p)
          (λ s q. ok-Holds (Piece P) _ q)

  module _ (records : Records P url_sensitive_params) where
    abbrev Asked : Query → Type 0
    Asked s = P s.stats

    redact_param-Asked :
        (param : Bytes) (s : Query) → Asked s → Holds Asked (redact_param replace param s)
    unfolding redact_param
    redact_param-Asked param s p =
        if-Holds Asked (is_sensitive_url_param (key_value param).0) _ _
          (after_replacement P replace Asked _ _ _ (λ text. ok-Holds Asked _ (records s.stats p)))
          (ok-Holds Asked _ p)

    redact_params-Asked :
        (params : List Bytes) (s : Query) → Asked s → Holds Asked (redact_params replace params s)
    unfolding redact_params
    redact_params-Asked [] s p = ok-Holds Asked s p
    redact_params-Asked (param ∷ rest) s p =
        bind-Holds Asked Asked _ _ (redact_param-Asked param _ p)
          (λ s' q. redact_params-Asked rest s' q)

    redact_all_params-Asked :
        (params : List Bytes) (s : Query)
        → Asked s
        → Holds Asked (redact_all_params replace params s)
    unfolding redact_all_params
    redact_all_params-Asked [] s p = ok-Holds Asked s p
    redact_all_params-Asked (param ∷ rest) s p =
        bind-Holds Asked Asked _ _ (redact_param-Asked param s p)
          (λ s' q. redact_params-Asked rest s' q)

    redact_query-Piece :
        (base query fragment trailing : Bytes) (stats : ScanReport)
        → P stats
        → Holds (Piece P) (redact_query replace base query fragment trailing stats)
    unfolding redact_query
    redact_query-Piece base query fragment trailing stats p =
        bind-Holds Asked (Piece P) _ _ (redact_all_params-Asked (split b'&' query) _ p)
          (λ s q. ok-Holds (Piece P) _ q)

    pub redact_sensitive_url-Piece :
        (input : Bytes) (stats : ScanReport)
        → P stats
        → Holds (Piece P) (redact_sensitive_url replace input stats)
    unfolding redact_sensitive_url
    redact_sensitive_url-Piece input stats p =
        let (url, trailing) = split_trailing_url_punctuation input in
        option-Holds (Piece P) (find b'?' url) _ _ (ok-Holds (Piece P) _ p)
          (λ i. redact_query-Piece _ _ (split_fragment (drop (i + 1) url)).1 trailing stats p)
