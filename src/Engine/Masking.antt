-- ===== src/Engine/Masking.antt =====
-- In mode `mask`, what is written depends on nothing but what was detected: every policy redacts as
-- the scan does.
use privacy_proxy.Base.{◌≡◌, refl, ◌∙◌, ap, fun_ext}
use privacy_proxy.Text.{Bytes, codes}
use privacy_proxy.Error.{ok}
use privacy_proxy.Config.{mask, DetectorKind}
use privacy_proxy.External.{External}
use privacy_proxy.Engine.Total.{Replaces}
use privacy_proxy.Engine.Total.Run.{scan-Replaces}
use privacy_proxy.Policy.{
  ReplacementPolicy, Replace, replacement, replacement_in, scan_policy, bracketed,
}
use privacy_proxy.Engine.Patterns.{Engine}
use privacy_proxy.Engine.Text.{redact_text, redact_str_with_policy}

replacement-mask :
    (x : External) (policy : ReplacementPolicy)
    → policy.mode ≡ mask
    → replacement x policy ≡ replacement x scan_policy
unfolding replacement
replacement-mask x policy m = fun_ext λ kind. fun_ext λ secret. rw m (unfold replacement_in in refl)

-- Under a policy in mode `mask`, a text is redacted as the scan redacts it.
pub redact_str-mask :
    (x : External) (engine : Engine x) (policy : ReplacementPolicy)
    → policy.mode ≡ mask
    → (input : Bytes)
    → redact_str_with_policy x engine policy input
      ≡ redact_str_with_policy x engine scan_policy input
unfolding redact_str_with_policy
redact_str-mask x engine policy m input =
    ap (λ r. redact_text x engine r input) (replacement-mask x policy m)

-- So every secret has a replacement.
pub mask-Replaces :
    (x : External) (policy : ReplacementPolicy)
    → policy.mode ≡ mask
    → Replaces (replacement x policy)
mask-Replaces x policy m kind secret =
    let (text, e) = scan-Replaces x kind secret in
    (text, ap (λ (r : Replace). r kind secret) (replacement-mask x policy m) ∙ e)

-- The text for a detection in mode `mask`: `[REDACTED:kind]`.
abbrev pub mask_text : DetectorKind → Bytes
mask_text kind = bracketed (codes "REDACTED") kind (codes "]")

pub replacement-mask_text :
    (x : External) (policy : ReplacementPolicy)
    → policy.mode ≡ mask
    → (kind : DetectorKind) (secret : Bytes)
    → replacement x policy kind secret ≡ ok (mask_text kind)
unfolding replacement
replacement-mask_text x policy m kind secret = rw m (unfold replacement_in in refl)
