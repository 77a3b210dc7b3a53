-- ===== src/FieldRules/Laws.antt =====
-- Which keys `kind_for_field` reports, and that only the letters and digits of a key count.
use privacy_proxy.Base.{
  ℕ, ◌≤◌, Bool, true, ◌||◌, none, some, List, [], ◌∷◌, length, any, All, Any, ◌≡◌, ◌≢◌, ◌↔◌, ◌⊎◌,
  inl, inr, refl, sym, ap, arith, Bool-cases, ◌∙◌,
}
use privacy_proxy.Text.{
  Bytes, equal, is_ascii_alphanumeric, to_ascii_lowercase, is_ascii_lowercase, is_ascii_digit,
}
use privacy_proxy.Text.Laws.{equal_iff, is_empty_iff, Infix, contains-Infix, Infix-contains}
use privacy_proxy.Config.{Config, DetectorKind}
use privacy_proxy.FieldRules.{
  normalize_field_name, FieldRules, normalized_names, new, denies, kind_of_name, kind_for_field,
}

-- A lower case letter or a digit.
abbrev pub IsPlain : ℕ → Type 0
IsPlain c = (is_ascii_lowercase c || is_ascii_digit c) ≡ true

lowercase-IsPlain : (c : ℕ) → is_ascii_alphanumeric c ≡ true → IsPlain (to_ascii_lowercase c)
unfolding is_ascii_alphanumeric to_ascii_lowercase
lowercase-IsPlain c h = ground arith

IsPlain-kept : (c : ℕ) → IsPlain c → (is_ascii_alphanumeric c ≡ true) × (to_ascii_lowercase c ≡ c)
unfolding is_ascii_alphanumeric to_ascii_lowercase
IsPlain-kept c h = ground arith

normalize-IsPlain : (name : Bytes) → All IsPlain (normalize_field_name name)
unfolding normalize_field_name
normalize-IsPlain [] = tt
normalize-IsPlain (c ∷ name) = elim (Bool-cases (is_ascii_alphanumeric c)) [
  | inl h ↦ rw h (lowercase-IsPlain c h, normalize-IsPlain name)
  | inr h ↦ rw h (normalize-IsPlain name)
]

normalize-plain : (name : Bytes) → All IsPlain name → normalize_field_name name ≡ name
unfolding normalize_field_name
normalize-plain [] h = refl
normalize-plain (c ∷ name) h = ground (arith, IsPlain-kept c h.0, normalize-plain name h.1)

-- A normalised name holds lower case letters and digits only, and normalising it again changes
-- nothing.
pub normalize_idempotent :
    (name : Bytes)
    → All IsPlain (normalize_field_name name)
      × (normalize_field_name (normalize_field_name name) ≡ normalize_field_name name)
normalize_idempotent name =
    (normalize-IsPlain name, normalize-plain (normalize_field_name name) (normalize-IsPlain name))

any_iff :
    (p : Bytes → Bool) (P : Bytes → Type 0) (names : List Bytes)
    → ((a : Bytes) → (p a ≡ true) ↔ P a)
    → (any p names ≡ true) ↔ Any P names
any_iff p P [] h = ground arith
any_iff p P (a ∷ names) h = ground (arith, h a, any_iff p P names h)

-- One deny entry covers a name: it is the name, or it has five characters or more and stands in it.
abbrev pub Covers : Bytes → Bytes → Type 0
Covers name deny = (name ≡ deny) ⊎ ((5 ≤ length deny) × Infix name deny)

denies_iff : (name deny : Bytes) → (denies name deny ≡ true) ↔ Covers name deny
unfolding denies
denies_iff name deny =
    ground (arith, equal_iff name deny, contains-Infix name deny, Infix-contains name deny)

-- What it takes for a key to be sensitive, in terms of its normalised name.
pub record IsDenied (rules : FieldRules) (name : Bytes) : Type 0 where
  pub not_empty : name ≢ []
  pub not_allowed : ¬ Any (λ allowed. name ≡ allowed) rules.allow
  pub covered : Any (Covers name) rules.deny

kind_for_field-IsDenied :
    (rules : FieldRules) (field : Bytes) {kind : DetectorKind}
    → kind_for_field rules field ≡ some kind
    → IsDenied rules (normalize_field_name field)
      × (kind ≡ kind_of_name (normalize_field_name field))
unfolding kind_for_field
kind_for_field-IsDenied rules field h =
    let name = normalize_field_name field in
    let allowed = any_iff (equal name) (λ a. name ≡ a) rules.allow (λ a. equal_iff name a) in
    let denied = any_iff (denies name) (Covers name) rules.deny (denies_iff name) in
    ground (arith, is_empty_iff name, allowed, denied)

IsDenied-kind_for_field :
    (rules : FieldRules) (field : Bytes)
    → IsDenied rules (normalize_field_name field)
    → kind_for_field rules field ≡ some (kind_of_name (normalize_field_name field))
unfolding kind_for_field
IsDenied-kind_for_field rules field h =
    let name = normalize_field_name field in
    let allowed = any_iff (equal name) (λ a. name ≡ a) rules.allow (λ a. equal_iff name a) in
    let denied = any_iff (denies name) (Covers name) rules.deny (denies_iff name) in
    ground (arith, is_empty_iff name, allowed, denied)

-- `kind_for_field` reports a key exactly when the key's normalised name is not empty, is not an
-- allowed name, and is a denied name or holds one of at least five characters; the detector is then
-- the one that the name asks for.
pub kind_for_field_iff :
    (rules : FieldRules) (field : Bytes) (kind : DetectorKind)
    → (kind_for_field rules field ≡ some kind) ↔ (
        IsDenied rules (normalize_field_name field)
        × (kind ≡ kind_of_name (normalize_field_name field)))
kind_for_field_iff rules field kind = (
  λ h. kind_for_field-IsDenied rules field h,
  λ h. IsDenied-kind_for_field rules field h.0 ∙ ap some (sym h.1),
)

-- A name that is listed and not empty once normalised is among the normalised names.
Any-normalized :
    (names : List Bytes) (name : Bytes)
    → normalize_field_name name ≢ []
    → Any (λ listed. normalize_field_name listed ≡ normalize_field_name name) names
    → Any (λ allowed. normalize_field_name name ≡ allowed) (normalized_names names)
unfolding normalized_names
Any-normalized [] name ne h = h
Any-normalized (n ∷ names) name ne h =
    ground (arith, is_empty_iff (normalize_field_name n), Any-normalized names name ne)

-- Under the rules of a configuration, a key that normalises as one of `fields_allow` does is never
-- sensitive, whatever `fields_deny` says.
pub kind_for_field-allowed :
    (config : Config) (field : Bytes)
    → Any (λ listed. normalize_field_name listed ≡ normalize_field_name field) config.fields_allow
    → kind_for_field (new config) field ≡ none
unfolding kind_for_field new
kind_for_field-allowed config field h =
    let name = normalize_field_name field in
    let listed = normalized_names config.fields_allow in
    let allowed = any_iff (equal name) (λ a. name ≡ a) listed (λ a. equal_iff name a) in
    ground (
      arith,
      is_empty_iff name,
      allowed,
      λ (ne : name ≢ []). Any-normalized config.fields_allow field ne h,
    )
