-- ===== src/External.antt =====
-- What the core crate uses of other crates and of its environment: the crate `regex`, HMAC-SHA256,
-- the JSON writer of `serde_json`, and the variables of the process.
use privacy_proxy.Base.{ℕ, ◌≤◌, String, Option, none, some, List, [], ◌∷◌, get_elem?}
use privacy_proxy.Text.{Bytes, slice}
use privacy_proxy.Json.{Value}

-- `regex::Match`: byte positions in the searched text.
pub record Match : Type 0 where
  pub start : ℕ
  pub stop : ℕ

-- `regex::Captures`: group 0 is the whole match, and a group that took no part is `none`.
abbrev pub Captures : Type 0
Captures = List (Option Match)

abbrev pub group : Captures → ℕ → Option Match
group captures i = elim (get_elem? captures i) [ none ↦ none | some found ↦ found ]

-- `found.as_str()`, on the text that was searched
abbrev pub match_text : Bytes → Match → Bytes
match_text input found = slice input found.start found.stop

pub record External : Type 1 where
  pub Regex : Type 0
  -- `Regex::new`
  pub regex_new : String → Option Regex
  pub captures_iter : Regex → Bytes → List Captures
  pub find_iter : Regex → Bytes → List Match
  -- `HmacSha256`, from a key and a message to the digest
  pub hmac_sha256 : Bytes → Bytes → Option Bytes
  -- `serde_json::to_string`
  pub json_to_string : Value → Option Bytes
  -- `std::env::var`
  pub env_var : Bytes → Option Bytes

-- A match, if there is one, lies in a text of `size` bytes behind `from`, and `later` holds of where
-- it stops.
abbrev pub Lies : ℕ → ℕ → (ℕ → Type 0) → Option Match → Type 0
Lies from size later none = later from
Lies from size later (some found) =
    (from ≤ found.start) × (found.start ≤ found.stop) × (found.stop ≤ size) × later found.stop

-- As `regex` documents `captures_iter`: the matches are in the text, and in order, each starting no
-- earlier than the one before it ends.
abbrev pub InOrder : ℕ → ℕ → List Captures → Type 0
InOrder from size [] = Unit
InOrder from size (captures ∷ rest) = Lies from size (λ n. InOrder n size rest) (group captures 0)
