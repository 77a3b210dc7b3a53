-- ===== src/Proxy/Target.antt =====
-- Where a request is sent: `target_url`, `safe_target_label` and `convert_method`. A parsed URL is
-- that of the crate `url`, and a method that of `reqwest`.
pub mod Laws
use privacy_proxy.Base.{ℕ, Option, none, some, List, [], ◌∷◌, ◌++◌, ◌==◌, if◌then◌else◌, reverse}
use privacy_proxy.Text.{Bytes, codes, is_empty}
use privacy_proxy.Text.Number.{decimal}

pub record Urls : Type 1 where
  pub Url : Type 0
  pub Method : Type 0
  pub path : Url → Bytes
  pub query : Url → Option Bytes
  pub set_path : Bytes → Url → Url
  pub set_query : Option Bytes → Url → Url
  pub host_str : Url → Option Bytes
  pub scheme : Url → Bytes
  pub port : Url → Option ℕ
  pub method_from_bytes : Bytes → Option Method
  pub get_method : Method

-- `text.trim_start_matches(ch)` and `text.trim_end_matches(ch)`
unfoldable pub trim_start_matches : ℕ → Bytes → Bytes
trim_start_matches ch [] = []
trim_start_matches ch (c ∷ text) =
    let rest = trim_start_matches ch text in if c == ch then rest else c ∷ text

unfoldable pub trim_end_matches : ℕ → Bytes → Bytes
unfolding trim_start_matches
trim_end_matches ch text = reverse (trim_start_matches ch (reverse text))

-- The two paths, joined at one slash.
unfoldable pub combined_path : Bytes → Bytes → Bytes
unfolding trim_end_matches is_empty
combined_path base path =
    let base_path = trim_end_matches b'/' base in
    let request_path = trim_start_matches b'/' path in
    if is_empty base_path
    then b'/' ∷ request_path
    else if is_empty request_path
    then base_path
    else base_path ++ b'/' ∷ request_path

abbrev pub combined_query : Option Bytes → Option Bytes → Option Bytes
combined_query (some base_query) (some request_query) = some (base_query ++ b'&' ∷ request_query)
combined_query (some base_query) none = some base_query
combined_query none (some request_query) = some request_query
combined_query none none = none

module _ (u : Urls) where
  unfoldable pub target_url : u.Url → Bytes → Option Bytes → u.Url
  unfolding combined_path
  target_url base path query =
      u.set_query (combined_query (u.query base) query)
        (u.set_path (combined_path (u.path base) path) base)

  abbrev with_port : Bytes → Option ℕ → Bytes
  with_port label none = label
  with_port label (some port) = (label ++ codes ":") ++ decimal port

  abbrev pub label_of : Option Bytes → Bytes → Option ℕ → Bytes
  label_of none scheme port = codes "<invalid-target>"
  label_of (some host) scheme port = with_port ((scheme ++ codes "://") ++ host) port

  unfoldable pub safe_target_label : u.Url → Bytes
  safe_target_label target = label_of (u.host_str target) (u.scheme target) (u.port target)

  abbrev pub convert_method : Bytes → u.Method
  convert_method method = elim (u.method_from_bytes method) [
    | none ↦ u.get_method
    | some converted ↦ converted
  ]
