-- ===== src/ProxyHeaders/Listed.antt =====
-- Which names the `Connection` header lists.
use praeco_rs.Prelude.{
  ◌≡◌, refl, sym, ap, subst, ◌∙◌, ◌↔◌, inl, inr, Elem, none, some, Option-cases, split_on, List, [],
  ◌∷◌, Bytes, arith, codes,
}
use praeco_rs.IpFilter.Parse.{trim}
use praeco_rs.Http.Headers.{HeaderMap}
use praeco_rs.ProxyHeaders.{custom_hops, names_of, trim_all}

module _ (http : HeaderMap) where
  -- The response's `Connection` header, if it is visible ASCII, has the name between its commas.
  abbrev pub IsListed : http.Map → Bytes → Type 0
  IsListed headers name =
      (value : Bytes) × (text : Bytes) × (token : Bytes) × (http.get (codes "connection") headers
        ≡ some value)
      × (http.to_str value ≡ some text)
      × Elem token (split_on b',' text)
      × (http.to_name (trim token) ≡ some name)

  names_of-Elem_iff :
      (texts : List Bytes) (name : Bytes)
      → Elem name (names_of http (trim_all http texts))
        ↔ ((token : Bytes) × Elem token texts × (http.to_name (trim token) ≡ some name))
  names_of-Elem_iff [] name = (λ h. absurd h, λ (token, m, e). absurd m)
  names_of-Elem_iff (text ∷ texts) name =
      let rest = names_of-Elem_iff texts name in
      elim (Option-cases (http.to_name (trim text))) [
        | inl bad ↦ rw bad (
          λ h. let (token, m, e) = rest.0 h in (token, inr m, e),
          λ (token, m, e). elim m [
            | inl same ↦
                absurd (ground (arith, bad, subst (λ t. http.to_name (trim t) ≡ some name) same e))
            | inr later ↦ rest.1 (token, later, e)
          ],
        )
        | inr (first, good) ↦ rw good (
          λ h. elim h [
            | inl same ↦ (text, inl refl, good ∙ ap some (sym same))
            | inr later ↦ let (token, m, e) = rest.0 later in (token, inr m, e)
          ],
          λ (token, m, e). elim m [
            | inl same ↦
                inl (ground (arith, good, subst (λ t. http.to_name (trim t) ≡ some name) same e))
            | inr later ↦ inr (rest.1 (token, later, e))
          ],
        )
      ]

  custom_hops_absent :
      (headers : http.Map)
      → http.get (codes "connection") headers ≡ none
      → custom_hops http headers ≡ []
  unfolding custom_hops
  custom_hops_absent headers e = rw (custom_hops, e) refl

  custom_hops_opaque :
      (headers : http.Map) (value : Bytes)
      → http.get (codes "connection") headers ≡ some value
      → http.to_str value ≡ none
      → custom_hops http headers ≡ []
  unfolding custom_hops
  custom_hops_opaque headers value e f = rw (custom_hops, e, f) refl

  custom_hops_text :
      (headers : http.Map) (value text : Bytes)
      → http.get (codes "connection") headers ≡ some value
      → http.to_str value ≡ some text
      → custom_hops http headers ≡ names_of http (trim_all http (split_on b',' text))
  unfolding custom_hops
  custom_hops_text headers value text e f = rw (custom_hops, e, f) refl

  pub custom_hops-Elem_iff :
      (headers : http.Map) (name : Bytes)
      → Elem name (custom_hops http headers) ↔ IsListed headers name
  custom_hops-Elem_iff headers name = elim (Option-cases (http.get (codes "connection") headers)) [
    | inl absent ↦
        rw (custom_hops_absent headers absent)
          (λ h. absurd h, λ (value, text, token, ev, et, m, e). absurd (ground (arith, ev, absent)))
    | inr (value, sent) ↦ elim (Option-cases (http.to_str value)) [
      | inl opaque ↦ rw (custom_hops_opaque headers value sent opaque) (
        λ h. absurd h,
        λ (other, text, token, ev, et, m, e).
            let same : value ≡ other = ground (arith, ev, sent) in
            absurd (ground (arith, opaque, subst (λ v. http.to_str v ≡ some text) (sym same) et)),
      )
      | inr (text, readable) ↦
          let split_ = names_of-Elem_iff (split_on b',' text) name in
          rw (custom_hops_text headers value text sent readable) (
            λ h. let (token, m, e) = split_.0 h in (value, text, token, sent, readable, m, e),
            λ (other, text', token, ev, et, m, e).
                let same : value ≡ other = ground (arith, ev, sent) in
                let et' = subst (λ v. http.to_str v ≡ some text') (sym same) et in
                let texts : text' ≡ text = ground (arith, readable, et') in
                split_.1 (token, subst (λ t. Elem token (split_on b',' t)) texts m, e),
          )
    ]
  ]
