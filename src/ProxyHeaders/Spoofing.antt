-- ===== src/ProxyHeaders/Spoofing.antt =====
-- What a client can make an upstream believe of who it is.
use praeco_rs.Prelude.{
  ℕ, Bool, true, ◌||◌, ◌≡◌, ◌≢◌, ◌∙◌, sym, if◌then◌else◌, refl, Option, none, some, List, ◌++◌,
  Bytes, bytes_eq, bytes_eq_iff, any, Elem, arith, codes, Bool-cases, inl, inr,
}
use praeco_rs.Net.{IpAddr, is_unspecified}
use praeco_rs.Http.Headers.{HeaderMap}
use praeco_rs.ProxyHeaders.{
  ClientCertForwardingConfig, HeaderConfig, Verified, Codec, prepared, names_of, configured_names,
  strip_client_headers, insert_text, insert_named, insert_configured, inject_client_ip, inject_host,
  inject_identity, inject_host_or, inject_jwt, inject_gateway_headers, prepare_with, digits,
  next_max_forwards, prepare_proxy_headers, identity_headers_denylist, forwarding_headers,
}
use praeco_rs.ProxyHeaders.Clean.{any-Elem, any-append, get-remove_all}

-- The names that speak for the client: the deny list, the configured ones and the forwarding
-- headers.
abbrev pub identity_names : HeaderMap → HeaderConfig → List Bytes
identity_names http config =
    names_of http identity_headers_denylist
    ++ (names_of http (configured_names config.client_cert_forwarding) ++ forwarding_headers)

-- `x-forwarded-host` is left out: it repeats the client's `Host`.
abbrev pub IsIdentityName : HeaderMap → HeaderConfig → Bytes → Type 0
IsIdentityName http config name =
    (name ≢ codes "x-forwarded-host") × Elem name (identity_names http config)

stripped :
    (a b c : Bool) (v : Option Bytes)
    → (a || (b || c)) ≡ true
    → (if c then none else if b then none else if a then none else v) ≡ none
stripped a b c v h = ground arith

module _ (http : HeaderMap) (name : Bytes) where
  any-split :
      (xs ys zs : List Bytes)
      → Elem name (xs ++ (ys ++ zs))
      → (any (λ n. bytes_eq n name) xs
          || (any (λ n. bytes_eq n name) ys || any (λ n. bytes_eq n name) zs))
        ≡ true
  any-split xs ys zs h =
      rw (← any-append name ys zs, ← any-append name xs (ys ++ zs)) (any-Elem name _ h)

  -- None of the names is left when the client's headers are stripped.
  get-strip_client_headers :
      (config : HeaderConfig) (headers : http.Map)
      → IsIdentityName http config name
      → http.get name (strip_client_headers http config headers) ≡ none
  unfolding strip_client_headers
  get-strip_client_headers config headers h =
      rw
        (
          get-remove_all http forwarding_headers name _,
          get-remove_all http (names_of http (configured_names config.client_cert_forwarding)) name
              _,
          get-remove_all http (names_of http identity_headers_denylist) name _,
        )
        (stripped (any (λ n. bytes_eq n name) (names_of http identity_headers_denylist))
          (any (λ n. bytes_eq n name)
            (names_of http (configured_names config.client_cert_forwarding)))
          (any (λ n. bytes_eq n name) forwarding_headers) _
          (any-split (names_of http identity_headers_denylist)
            (names_of http (configured_names config.client_cert_forwarding)) forwarding_headers
            h.1))

  -- The step treats two header maps alike at the name.
  abbrev Respects : (http.Map → http.Map) → Type 0
  Respects f =
      (a b : http.Map)
      → http.get name a ≡ http.get name b
      → http.get name (f a) ≡ http.get name (f b)

  insert-Respects : (n v : Bytes) → Respects (http.insert n v)
  insert-Respects n v a b same =
      ground (arith, http.get-insert n name v a, http.get-insert n name v b)

  insert_text-Respects : (n text : Bytes) → Respects (insert_text http n text)
  unfolding insert_text
  insert_text-Respects n text a b same =
      elim (http.to_value text)
        as (λ v.
          http.get name (elim v [ none ↦ a | some value ↦ http.insert n value a ])
          ≡ http.get name (elim v [ none ↦ b | some value ↦ http.insert n value b ])) [
            | none ↦ same
            | some value ↦ insert-Respects n value a b same
          ]

  insert_named-Respects : (n text : Bytes) → Respects (insert_named http n text)
  unfolding insert_named
  insert_named-Respects n text a b same =
      elim (http.to_name n)
        as (λ v.
          http.get name (elim v [ none ↦ a | some k ↦ insert_text http k text a ])
          ≡ http.get name (elim v [ none ↦ b | some k ↦ insert_text http k text b ])) [
            | none ↦ same
            | some k ↦ insert_text-Respects k text a b same
          ]

  insert_configured-Respects : (n text : Option Bytes) → Respects (insert_configured http n text)
  unfolding insert_configured
  insert_configured-Respects none text a b same = same
  insert_configured-Respects (some n) none a b same = same
  insert_configured-Respects (some n) (some text) a b same = insert_named-Respects n text a b same

  inject_client_ip-Respects :
      (codec : Codec) (addr : Option IpAddr) → Respects (inject_client_ip http codec addr)
  unfolding inject_client_ip
  inject_client_ip-Respects codec none a b same = same
  inject_client_ip-Respects codec (some ip) a b same = elim (Bool-cases (is_unspecified ip)) [
    | inl e ↦ rw e same
    | inr e ↦ rw e (
        insert_text-Respects (codes "x-forwarded-for") (codec.ip_text ip) _ _
          (insert_text-Respects (codes "x-real-ip") (codec.ip_text ip) a b same))
  ]

  inject_jwt-Respects : (token : Option Bytes) → Respects (inject_jwt http token)
  inject_jwt-Respects none a b same = same
  inject_jwt-Respects (some token) a b same = insert-Respects (codes "authorization") token a b same

  inject_identity-Respects :
      (codec : Codec) (f : Option ClientCertForwardingConfig) (verified : Verified)
      → Respects (inject_identity http codec f verified)
  unfolding inject_identity
  inject_identity-Respects codec none verified a b same = same
  inject_identity-Respects codec (some f) verified a b same =
      insert_configured-Respects f.header_client_ip _ _ _ (
        insert_configured-Respects f.header_roles _ _ _ (
          insert_configured-Respects f.header_san _ _ _
            (insert_configured-Respects f.header_cert _ a b same)))

  -- `Host` shows under `x-forwarded-host` only.
  insert_other :
      (n v : Bytes) (a : http.Map) → name ≢ n → http.get name (http.insert n v a) ≡ http.get name a
  insert_other n v a other = ground (arith, http.get-insert n name v a, bytes_eq_iff n name)

  insert_text_other :
      (n text : Bytes) (a : http.Map)
      → name ≢ n
      → http.get name (insert_text http n text a) ≡ http.get name a
  unfolding insert_text
  insert_text_other n text a other =
      elim (http.to_value text)
        as (λ v.
          http.get name (elim v [ none ↦ a | some value ↦ http.insert n value a ])
          ≡ http.get name a) [ none ↦ refl | some value ↦ insert_other n value a other ]

  inject_host_or_other :
      (sni : Option Bytes) (a : http.Map)
      → name ≢ codes "x-forwarded-host"
      → http.get name (inject_host_or http sni a) ≡ http.get name a
  inject_host_or_other none a other = refl
  inject_host_or_other (some sni) a other = insert_text_other (codes "x-forwarded-host") sni a other

  inject_host_other :
      (config : HeaderConfig) (a : http.Map)
      → name ≢ codes "x-forwarded-host"
      → http.get name (inject_host http config a) ≡ http.get name a
  unfolding inject_host
  inject_host_other config a other =
      elim (http.get (codes "host") a)
        as (λ v.
          http.get name (elim v [
            | some host ↦ http.insert (codes "x-forwarded-host") host a
            | none ↦ inject_host_or http config.sni_domain a
          ])
          ≡ http.get name a) [
            | some host ↦ insert_other (codes "x-forwarded-host") host a other
            | none ↦ inject_host_or_other config.sni_domain a other
          ]

  inject_gateway_headers-Respects :
      (codec : Codec) (config : HeaderConfig) (token : Option Bytes) (verified : Verified)
      → name ≢ codes "x-forwarded-host"
      → Respects (inject_gateway_headers http codec config token verified)
  unfolding inject_gateway_headers
  inject_gateway_headers-Respects codec config token verified other a b same =
      inject_identity-Respects codec config.client_cert_forwarding verified _ _ (
        inject_jwt-Respects token _ _ (
          inject_host_other config _ other
          ∙ insert-Respects (codes "x-forwarded-proto") _ _ _
              (inject_client_ip-Respects codec verified.addr a b same)
          ∙ sym (inject_host_other config _ other)))

  prepared_of :
      (codec : Codec) (config : HeaderConfig) (token : Option Bytes) (verified : Verified)
      (headers r : http.Map) (mf : Option ℕ)
      → prepare_with http codec config token verified headers mf ≡ prepared r
      → (h : http.Map) × (r
          ≡ inject_gateway_headers http codec config token verified
              (strip_client_headers http config h))
  unfolding prepare_with
  prepared_of codec config token verified headers r none e = cc
  prepared_of codec config token verified headers r (some mf) e =
      (http.insert (codes "max-forwards") (digits mf) headers, cc)

  -- What an upstream reads under a name that speaks for the client - of the deny list, of the
  -- configured certificate headers, `x-real-ip`, `x-forwarded-for`, `x-forwarded-proto` or
  -- `forwarded` - is the same whatever headers the client sent: it follows from the
  -- configuration and from what the gateway has verified.
  pub prepare_proxy_headers-identity :
      (codec : Codec) (config : HeaderConfig) (token : Option Bytes) (verified : Verified)
      (a b r s : http.Map)
      → IsIdentityName http config name
      → prepare_proxy_headers http codec config token verified a ≡ prepared r
      → prepare_proxy_headers http codec config token verified b ≡ prepared s
      → http.get name r ≡ http.get name s
  unfolding prepare_proxy_headers
  prepare_proxy_headers-identity codec config token verified a b r s h ra rb =
      let (x, ex) = prepared_of codec config token verified a r (next_max_forwards http a) ra in
      let (y, ey) = prepared_of codec config token verified b s (next_max_forwards http b) rb in
      rw (ex, ey)
        (inject_gateway_headers-Respects codec config token verified h.0 _ _
          (get-strip_client_headers config x h ∙ sym (get-strip_client_headers config y h)))
