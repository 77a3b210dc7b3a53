-- ===== src/Detector/Jwt.antt =====
-- `looks_like_jwt` of crates/privacy_proxy_core/src/engine.rs.
use privacy_proxy.Base.{Bool, true, false, ◌&&◌, List, [], ◌∷◌, leb, length, ◌≡◌, refl}
use privacy_proxy.Text.{Bytes, codes, split, starts_with}

unfoldable pub looks_like_parts : List Bytes → Bool
looks_like_parts (header ∷ payload ∷ signature ∷ []) =
    starts_with header (codes "eyJ") && leb 8 (length payload) && leb 8 (length signature)
looks_like_parts _ = false

unfoldable pub looks_like_jwt : Bytes → Bool
unfolding looks_like_parts
looks_like_jwt candidate = looks_like_parts (split b'.' candidate)

jwt_runs : looks_like_jwt (codes "eyJhbGciOi.eyJzdWIiOi.abcdefghij") ≡ true
unfolding looks_like_jwt split starts_with
jwt_runs = refl
