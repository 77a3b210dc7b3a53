-- ===== src/Proxy/Response/Laws.antt =====
-- Which headers of the upstream's answer reach the client.
use privacy_proxy.Base.{
  false, List, [], ◌∷◌, if◌then◌else◌, ◌≡◌, refl, ap, ◌∙◌, arith, Bool-cases, inl, inr,
}
use privacy_proxy.Text.{Bytes, equal}
use privacy_proxy.Text.Laws.{equal_iff}
use privacy_proxy.Proxy.Headers.{Header, should_skip_response_header}
use privacy_proxy.Proxy.Response.{HeaderMaps, Upstream, copy_headers, into_axum_response}

-- As `http` documents `HeaderMap::insert`: the new value takes the place of all earlier ones.
pub record InsertReplaces (h : HeaderMaps) : Type 0 where
  pub empty_none : (name : Bytes) → h.get_all name h.empty ≡ []
  pub insert_same :
      (name value : Bytes) (m : h.HeaderMap) → h.get_all name (h.insert name value m) ≡ value ∷ []
  pub insert_other :
      (name other value : Bytes) (m : h.HeaderMap)
      → equal name other ≡ false
      → h.get_all other (h.insert name value m) ≡ h.get_all other m

-- The last value of a name, or else what is given.
abbrev pub last_value : Bytes → List Header → List Bytes → List Bytes
last_value name [] before = before
last_value name ((key, value) ∷ headers) before =
    last_value name headers (if equal key name then value ∷ [] else before)

module _ (h : HeaderMaps) (replaces : InsertReplaces h) where
  get_all-insert :
      (name key value : Bytes) (m : h.HeaderMap)
      → h.get_all name (h.insert key value m)
        ≡ (if equal key name then value ∷ [] else h.get_all name m)
  get_all-insert name key value m = elim (Bool-cases (equal key name)) [
    | inl same ↦ rw same (
        ap (λ k. h.get_all name (h.insert k value m)) ((equal_iff key name).0 same)
        ∙ replaces.insert_same name value m)
    | inr other ↦ rw other (replaces.insert_other key name value m other)
  ]

  get_all-copy_headers :
      (name : Bytes) (headers : List Header) (m : h.HeaderMap)
      → h.get_all name (copy_headers h headers m) ≡ (
          if should_skip_response_header name
          then h.get_all name m
          else last_value name headers (h.get_all name m))
  unfolding copy_headers
  get_all-copy_headers name [] m = ground arith
  get_all-copy_headers name ((key, value) ∷ headers) m = elim (Bool-cases (equal key name)) [
    | inl same ↦
        let e : should_skip_response_header key ≡ should_skip_response_header name =
          ap should_skip_response_header ((equal_iff key name).0 same) in
        elim (Bool-cases (should_skip_response_header name)) [
          | inl skip ↦ rw (e, skip) (get_all-copy_headers name headers m ∙ rw skip refl)
          | inr sent ↦
              rw (e, sent, same)
                (get_all-copy_headers name headers (h.insert key value m)
                  ∙ rw sent (
                      ap (last_value name headers)
                        (get_all-insert name key value m ∙ rw same refl)))
        ]
    | inr other ↦ elim (Bool-cases (should_skip_response_header key)) [
      | inl skip ↦ rw (skip, other) (get_all-copy_headers name headers m)
      | inr sent ↦
          rw (sent, other)
            (get_all-copy_headers name headers (h.insert key value m)
              ∙ ap
                  (λ values.
                    if should_skip_response_header name
                    then values
                    else last_value name headers values)
                  (replaces.insert_other key name value m other))
    ]
  ]

-- If inserting replaces: the client gets the status of the upstream's answer, none of the skipped
-- headers, and of each other header that the answer has one value, the last of its name.
pub into_axum_response_lem :
    (h : HeaderMaps) (response : Upstream) (name : Bytes)
    → InsertReplaces h
    → ((into_axum_response h response).status ≡ response.status)
      × (h.get_all name (into_axum_response h response).headers
          ≡ (if should_skip_response_header name then [] else last_value name response.headers []))
unfolding into_axum_response
into_axum_response_lem h response name replaces = (
  refl,
  get_all-copy_headers h replaces name response.headers h.empty
      ∙ ap
          (λ none_yet.
            if should_skip_response_header name
            then none_yet
            else last_value name response.headers none_yet)
          (replaces.empty_none name),
)
