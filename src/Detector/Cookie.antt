-- ===== src/Detector/Cookie.antt =====
-- `redact_cookie_body` of crates/privacy_proxy_core/src/engine.rs.
use privacy_proxy.Base.{
  ℕ, ◌+◌, Bool, true, false, Option, none, some, List, [], ◌∷◌, ◌++◌, if◌then◌else◌, take, drop,
}
use privacy_proxy.Text.{Bytes, codes, split, find, trim, is_empty}
use privacy_proxy.Error.{Result, ok, ◌>>=◌}
use privacy_proxy.Stats.{ScanReport, record_kind}
use privacy_proxy.Config.{cookie}
use privacy_proxy.Policy.{Replace}

-- The variables of the loop.
pub record CookieParts : Type 0 where
  pub output : Bytes
  pub changed : Bool
  pub stats : ScanReport

-- The functions take `policy.replacement`, all that they use of the policy.
module _ (replacement : Replace) where
  -- A part with `=` at `eq_index`, behind the output so far.
  unfoldable pub redact_pair : Bytes → ℕ → CookieParts → Result CookieParts
  redact_pair part eq_index s =
      let name_and_eq = take (eq_index + 1) part in
      let value = drop (eq_index + 1) part in
      if is_empty (trim value) then ok (record s { output = s.output ++ part }) else do
        text ← replacement cookie (trim value)
        ok (record {
          output = s.output ++ (name_and_eq ++ text);
          changed = true;
          stats = record_kind s.stats cookie;
        })

  unfoldable pub redact_part : Bytes → CookieParts → Result CookieParts
  unfolding redact_pair
  redact_part part s = elim (find b'=' part) [
    | none ↦ ok (record s { output = s.output ++ part })
    | some eq_index ↦ redact_pair part eq_index s
  ]

  -- The parts behind the first one: each has a `;` before it.
  unfoldable pub redact_parts : List Bytes → CookieParts → Result CookieParts
  unfolding redact_part
  redact_parts [] s = ok s
  redact_parts (part ∷ rest) s = do
    s' ← redact_part part (record s { output = s.output ++ codes ";" })
    redact_parts rest s'

  unfoldable pub redact_all_parts : List Bytes → CookieParts → Result CookieParts
  unfolding redact_parts
  redact_all_parts [] s = ok s
  redact_all_parts (part ∷ rest) s = do s' ← redact_part part s; redact_parts rest s'

  unfoldable pub redact_cookie_body : Bytes → ScanReport → Result (Option Bytes × ScanReport)
  unfolding redact_all_parts
  redact_cookie_body body stats = do
    s ← redact_all_parts (split b';' body) (record { output = []; changed = false; stats = stats })
    ok (if s.changed then some s.output else none, s.stats)
