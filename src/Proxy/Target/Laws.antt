-- ===== src/Proxy/Target/Laws.antt =====
-- Every request goes to the configured origin, below the configured path.
use privacy_proxy.Base.{
  ℕ, zero, suc, Option, [], ◌∷◌, ◌++◌, if◌then◌else◌, reverse, ◌≡◌, refl, ap, ◌∙◌, reverse-append,
  reverse-cons,
}
use privacy_proxy.Text.{Bytes, is_empty}
use privacy_proxy.Proxy.Target.{
  Urls, trim_start_matches, trim_end_matches, combined_path, combined_query, target_url,
  safe_target_label, label_of,
}

abbrev pub slashes : ℕ → Bytes
slashes zero = []
slashes (suc k) = b'/' ∷ slashes k

trim_start-slashes :
    (k : ℕ) (text : Bytes)
    → trim_start_matches b'/' (slashes k ++ text) ≡ trim_start_matches b'/' text
unfolding trim_start_matches
trim_start-slashes zero text = refl
trim_start-slashes (suc k) text = trim_start-slashes k text

slashes-end : (k : ℕ) → slashes k ++ b'/' ∷ [] ≡ b'/' ∷ slashes k
slashes-end zero = refl
slashes-end (suc k) = ap (λ t. b'/' ∷ t) (slashes-end k)

reverse-slashes : (k : ℕ) → reverse (slashes k) ≡ slashes k
reverse-slashes zero = refl
reverse-slashes (suc k) =
    reverse-cons b'/' (slashes k) ∙ ap (λ t. t ++ b'/' ∷ []) (reverse-slashes k) ∙ slashes-end k

trim_end-slashes :
    (text : Bytes) (k : ℕ) → trim_end_matches b'/' (text ++ slashes k) ≡ trim_end_matches b'/' text
unfolding trim_end_matches
trim_end-slashes text k =
    ap (λ t. reverse (trim_start_matches b'/' t))
      (reverse-append text (slashes k) ∙ ap (λ t. t ++ reverse text) (reverse-slashes k))
    ∙ ap reverse (trim_start-slashes k (reverse text))

-- The two paths with one slash between them.
abbrev pub joined : Bytes → Bytes → Bytes
unfolding is_empty
joined base path =
    if is_empty base then b'/' ∷ path else if is_empty path then base else base ++ b'/' ∷ path

combined_path-slashes :
    (base path : Bytes) (m k : ℕ)
    → trim_end_matches b'/' base ≡ base
    → trim_start_matches b'/' path ≡ path
    → combined_path (base ++ slashes m) (slashes k ++ path) ≡ joined base path
unfolding combined_path joined
combined_path-slashes base path m k e f =
    rw (trim_end-slashes base m, trim_start-slashes k path, e, f) refl

-- As `url` documents: setting the path or the query keeps scheme, host and port, and setting the
-- query keeps the path.
pub record KeepsOrigin (u : Urls) : Type 0 where
  pub path_scheme : (path : Bytes) (url : u.Url) → u.scheme (u.set_path path url) ≡ u.scheme url
  pub path_host : (path : Bytes) (url : u.Url) → u.host_str (u.set_path path url) ≡ u.host_str url
  pub path_port : (path : Bytes) (url : u.Url) → u.port (u.set_path path url) ≡ u.port url
  pub query_scheme :
      (query : Option Bytes) (url : u.Url) → u.scheme (u.set_query query url) ≡ u.scheme url
  pub query_host :
      (query : Option Bytes) (url : u.Url) → u.host_str (u.set_query query url) ≡ u.host_str url
  pub query_port :
      (query : Option Bytes) (url : u.Url) → u.port (u.set_query query url) ≡ u.port url
  pub query_path :
      (query : Option Bytes) (url : u.Url) → u.path (u.set_query query url) ≡ u.path url

label_same :
    (u : Urls) (a b : u.Url)
    → u.scheme a ≡ u.scheme b
    → u.host_str a ≡ u.host_str b
    → u.port a ≡ u.port b
    → safe_target_label u a ≡ safe_target_label u b
unfolding safe_target_label
label_same u a b e f g =
    ap (λ scheme. label_of u (u.host_str a) scheme (u.port a)) e
    ∙ ap (λ host. label_of u host (u.scheme b) (u.port a)) f
    ∙ ap (λ port. label_of u (u.host_str b) (u.scheme b) port) g

-- If the URL operations keep what they do not set: whatever path and query a request has, it goes
-- to the configured scheme, host and port, and its path there is set to the configured path and the
-- request's path with one slash between them, however many slashes the first ends and the second
-- begins with; with neither path, to a slash.
pub target_url_lem :
    (u : Urls) (target : u.Url) (base path : Bytes) (m k : ℕ) (query : Option Bytes)
    → KeepsOrigin u
    → u.path target ≡ base ++ slashes m
    → trim_end_matches b'/' base ≡ base
    → trim_start_matches b'/' path ≡ path
    → (safe_target_label u (target_url u target (slashes k ++ path) query)
        ≡ safe_target_label u target)
      × (u.path (target_url u target (slashes k ++ path) query)
          ≡ u.path (u.set_path (joined base path) target))
unfolding target_url
target_url_lem u target base path m k query keeps e f g =
    let middle = u.set_path (combined_path (u.path target) (slashes k ++ path)) target in
    let asked = combined_query (u.query target) query in
    (
      label_same u (u.set_query asked middle) target
          (keeps.query_scheme asked middle ∙ keeps.path_scheme _ target)
          (keeps.query_host asked middle ∙ keeps.path_host _ target)
          (keeps.query_port asked middle ∙ keeps.path_port _ target),
      keeps.query_path asked middle
          ∙ ap (λ p. u.path (u.set_path p target))
              (ap (λ p. combined_path p (slashes k ++ path)) e
                ∙ combined_path-slashes base path m k f g),
    )
