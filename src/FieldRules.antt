-- ===== src/FieldRules.antt =====
-- crates/privacy_proxy_core/src/engine.rs: `FieldRules`, which decides by an object's key whether
-- its value is sensitive.
pub mod Laws
use privacy_proxy.Base.{
  ℕ, Bool, true, false, not, ◌&&◌, ◌||◌, Option, none, some, List, [], ◌∷◌, leb, if◌then◌else◌,
  length, any,
}
use privacy_proxy.Text.{
  Bytes, codes, equal, is_empty, contains, is_ascii_alphanumeric, to_ascii_lowercase,
}
use privacy_proxy.Config.{Config, DetectorKind, api_key, bearer_token, cookie}

unfoldable pub normalize_field_name : Bytes → Bytes
normalize_field_name [] = []
normalize_field_name (ch ∷ input) =
    let rest = normalize_field_name input in
    if is_ascii_alphanumeric ch then to_ascii_lowercase ch ∷ rest else rest

pub record FieldRules : Type 0 where
  pub deny : List Bytes
  pub allow : List Bytes

-- The normalised names that are not empty.
unfoldable pub normalized_names : List Bytes → List Bytes
normalized_names [] = []
normalized_names (name ∷ names) =
    let field = normalize_field_name name in
    let rest = normalized_names names in if not (is_empty field) then field ∷ rest else rest

-- `FieldRules::new`
unfoldable pub new : Config → FieldRules
unfolding normalized_names
new config = record {
  deny = normalized_names config.fields_deny;
  allow = normalized_names config.fields_allow;
}

-- One entry of the deny list against a normalised name.
unfoldable pub denies : Bytes → Bytes → Bool
denies normalized deny = equal normalized deny || (leb 5 (length deny) && contains normalized deny)

-- The detector that a denied field counts for.
unfoldable pub kind_of_name : Bytes → DetectorKind
kind_of_name normalized =
    if contains normalized (codes "cookie")
    then cookie
    else if contains normalized (codes "authorization") || contains normalized (codes "bearer")
    then bearer_token
    else api_key

unfoldable pub kind_for_field : FieldRules → Bytes → Option DetectorKind
kind_for_field rules field =
    let normalized = normalize_field_name field in
    if is_empty normalized || any (equal normalized) rules.allow
    then none
    else if not (any (denies normalized) rules.deny)
    then none
    else some (kind_of_name normalized)
