-- ===== src/ProxyHeaders/Clean.antt =====
-- What is left of a response's headers.
use praeco_rs.Prelude.{
  Bool, ◌||◌, ◌≡◌, if◌then◌else◌, refl, sym, ◌∙◌, ◌⊎◌, inl, inr, Elem, Option, none, Bool-cases,
  ◌++◌, bytes_eq_iff, true, false, List, [], ◌∷◌, Bytes, bytes_eq, any, arith, codes,
}
use praeco_rs.Http.Headers.{HeaderMap}
use praeco_rs.ProxyHeaders.{remove_all, custom_hops, clean_response_headers, hop_by_hop_headers}
use praeco_rs.ProxyHeaders.Listed.{IsListed, custom_hops-Elem_iff}

if_or_or :
    (a b c : Bool) (v : Option Bytes)
    → (if c then none else if b then none else if a then none else v)
      ≡ (if a || (b || c) then none else v)
if_or_or a b c v = ground arith

if_listed :
    (a b c : Bool) (v : Option Bytes) → a ≡ true → (if a || (b || c) then none else v) ≡ none
if_listed a b c v h = ground arith

if_fixed :
    (a b c : Bool) (v : Option Bytes)
    → a ≡ false
    → (b || (c || false)) ≡ true
    → (if a || (b || c) then none else v) ≡ none
if_fixed a b c v h k = ground arith

if_kept :
    (a b c : Bool) (v : Option Bytes)
    → a ≡ false
    → (b || (c || false)) ≡ false
    → (if a || (b || c) then none else v) ≡ v
if_kept a b c v h k = ground arith

pub any-Elem :
    (name : Bytes) (names : List Bytes) → Elem name names → any (λ n. bytes_eq n name) names ≡ true
any-Elem name [] h = absurd h
any-Elem name (n ∷ names) h = ground (arith, bytes_eq_iff n name, any-Elem name names)

pub any-Elem_of :
    (name : Bytes) (names : List Bytes) → any (λ n. bytes_eq n name) names ≡ true → Elem name names
any-Elem_of name [] h = cc
any-Elem_of name (n ∷ names) h = ground (arith, bytes_eq_iff n name, any-Elem_of name names)

pub any-append :
    (name : Bytes) (xs ys : List Bytes)
    → any (λ n. bytes_eq n name) (xs ++ ys)
      ≡ (any (λ n. bytes_eq n name) xs || any (λ n. bytes_eq n name) ys)
any-append name [] ys = refl
any-append name (x ∷ xs) ys = ground (arith, any-append name xs ys)

-- The nine hop-by-hop headers, and `Server`.
abbrev pub dropped_names : List Bytes
dropped_names =
    codes "connection"
    ∷ codes "proxy-authenticate"
    ∷ codes "proxy-authorization"
    ∷ codes "te"
    ∷ codes "trailer"
    ∷ codes "transfer-encoding"
    ∷ codes "upgrade"
    ∷ codes "keep-alive"
    ∷ codes "proxy-connection"
    ∷ codes "server"
    ∷ []

module _ (http : HeaderMap) where
  pub get-remove_all :
      (names : List Bytes) (name : Bytes) (headers : http.Map)
      → http.get name (remove_all http names headers)
        ≡ (if any (λ n. bytes_eq n name) names then none else http.get name headers)
  unfolding remove_all
  get-remove_all [] name headers = refl
  get-remove_all (n ∷ names) name headers =
      ground
        (arith, get-remove_all names name (http.remove n headers), http.get-remove n name headers)

  get-clean_if :
      (name : Bytes) (headers : http.Map)
      → http.get name (clean_response_headers http headers) ≡ (
          if any (λ n. bytes_eq n name) (custom_hops http headers)
            || (any (λ n. bytes_eq n name) hop_by_hop_headers || bytes_eq (codes "server") name)
          then none
          else http.get name headers)
  unfolding clean_response_headers
  get-clean_if name headers =
      rw
        (
          http.get-remove (codes "server") name _,
          get-remove_all hop_by_hop_headers name _,
          get-remove_all (custom_hops http headers) name headers,
        )
        (let listed = any (λ (n : Bytes). bytes_eq n name) (custom_hops http headers) in
          let hop = any (λ (n : Bytes). bytes_eq n name) hop_by_hop_headers in
          if_or_or listed hop (bytes_eq (codes "server") name) (http.get name headers))

  abbrev pub IsDropped : http.Map → Bytes → Type 0
  IsDropped headers name = IsListed http headers name ⊎ Elem name dropped_names

  dropped-any :
      (name : Bytes)
      → any (λ n. bytes_eq n name) dropped_names ≡ (
          any (λ n. bytes_eq n name) hop_by_hop_headers
          || (bytes_eq (codes "server") name || false))
  dropped-any name = any-append name hop_by_hop_headers (codes "server" ∷ [])

  -- A response that is passed on has lost a header if the text of its first `Connection` header lists
  -- it, or it is one of the nine hop-by-hop headers or `Server`; every other header is as the upstream
  -- sent it.
  pub get-clean_response_headers :
      (name : Bytes) (headers : http.Map)
      → (IsDropped headers name × (http.get name (clean_response_headers http headers) ≡ none))
        ⊎ ((¬ IsDropped headers name)
            × (http.get name (clean_response_headers http headers) ≡ http.get name headers))
  get-clean_response_headers name headers =
      let equation = get-clean_if name headers in
      let listed_ = any (λ (n : Bytes). bytes_eq n name) (custom_hops http headers) in
      let hop = any (λ (n : Bytes). bytes_eq n name) hop_by_hop_headers in
      let server = bytes_eq (codes "server") name in
      let sent = http.get name headers in
      elim (Bool-cases (any (λ n. bytes_eq n name) (custom_hops http headers))) [
        | inl listed ↦ inl (
          inl (
              (custom_hops-Elem_iff http headers name).0
                (any-Elem_of name (custom_hops http headers) listed)),
          equation ∙ if_listed listed_ hop server sent listed,
        )
        | inr unlisted ↦ elim (Bool-cases (any (λ n. bytes_eq n name) dropped_names)) [
          | inl fixed ↦ inl (
            inr (any-Elem_of name dropped_names fixed),
            equation ∙ if_fixed listed_ hop server sent unlisted (sym (dropped-any name) ∙ fixed),
          )
          | inr other ↦ inr (
            λ dropped. elim dropped [
              | inl listed ↦ absurd (
                  ground (
                    arith,
                    unlisted,
                    any-Elem name (custom_hops http headers)
                        ((custom_hops-Elem_iff http headers name).1 listed),
                  ))
              | inr fixed ↦ absurd (ground (arith, other, any-Elem name dropped_names fixed))
            ],
            equation ∙ if_kept listed_ hop server sent unlisted (sym (dropped-any name) ∙ other),
          )
        ]
      ]
