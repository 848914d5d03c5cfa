-- ===== src/Upstreams/Fresh.antt =====
-- A retry goes to another node.
use praeco_rs.Prelude.{
  ℕ, ◌<◌, ◌≡◌, refl, sym, ap, subst, ◌↔◌, Bool, true, false, not, Option, some, List, [], ◌∷◌, map,
  length, filter, any, is_empty, Elem, Elem-filter, arith, Bool-cases, inl, inr, Distinct, Within,
  Distinct-length,
}
use praeco_rs.Circuit.{UpstreamNode}
use praeco_rs.Upstreams.{Chance, RouteTarget, is_usable, candidates, next_upstream}
use praeco_rs.Upstreams.Choice.{next_upstream_cases, pick-Elem_of_eq, candidates-pos}

abbrev pub uris_of : {Uri : Type 0} → List (UpstreamNode Uri) → List Uri
uris_of nodes = map (λ n. n.uri) nodes

pub length-uris_of :
    {Uri : Type 0} (nodes : List (UpstreamNode Uri)) → length (uris_of nodes) ≡ length nodes
length-uris_of [] = refl
length-uris_of (n ∷ nodes) = omega (arith, length-uris_of nodes)

module _ {Uri : Type 0} (uri_eq : Uri → Uri → Bool)
    (uri_eq_iff : (a b : Uri) → (uri_eq a b ≡ true) ↔ (a ≡ b)) where
  any-Elem : (uri : Uri) (failed : List Uri) → (any (uri_eq uri) failed ≡ true) ↔ Elem uri failed
  any-Elem uri [] = ground arith
  any-Elem uri (f ∷ failed) = ground (arith, uri_eq_iff uri f, any-Elem uri failed)

  fresh : (uri : Uri) (failed : List Uri) → not (any (uri_eq uri) failed) ≡ true → ¬ Elem uri failed
  fresh uri failed h k = ground (arith, any-Elem uri failed)

  all_failed :
      (failed : List Uri) (nodes : List (UpstreamNode Uri))
      → is_empty (filter (λ n. not (any (uri_eq n.uri) failed)) nodes) ≡ true
      → Within (uris_of nodes) failed
  all_failed failed [] h a k = absurd k
  all_failed failed (n ∷ nodes) h a (inl e) =
      subst (λ z. Elem z failed) (sym e) (ground (arith, any-Elem n.uri failed))
  all_failed failed (n ∷ nodes) h a (inr k) = all_failed failed nodes (ground arith) a k

  some_fresh :
      (failed : List Uri) (nodes : List (UpstreamNode Uri))
      → Distinct (uris_of nodes)
      → length failed < length nodes
      → is_empty (filter (λ n. not (any (uri_eq n.uri) failed)) nodes) ≡ false
  some_fresh failed nodes d few =
      elim (Bool-cases (is_empty (filter (λ n. not (any (uri_eq n.uri) failed)) nodes))) [
        | inl e ↦ absurd (
            omega (
              arith,
              Distinct-length (uris_of nodes) failed d (all_failed failed nodes e),
              length-uris_of nodes,
            ))
        | inr e ↦ e
      ]

  candidates-fresh :
      (now : ℕ) (failed : List Uri) (t : RouteTarget Uri) (n : UpstreamNode Uri)
      → Distinct (uris_of t.upstreams)
      → length failed < length t.upstreams
      → Elem n (candidates uri_eq now failed t)
      → ¬ Elem n.uri failed
  unfolding candidates is_usable
  candidates-fresh now failed t n d few h = fresh n.uri failed (
      ground (
        arith,
        some_fresh failed t.upstreams,
        Elem-filter (is_usable uri_eq now failed t) t.upstreams n,
        Elem-filter (λ (n : UpstreamNode Uri). not (any (uri_eq n.uri) failed)) t.upstreams n,
      ))

  -- While fewer nodes have failed a request than the target has, and it has several with
  -- different URIs, the next node is one that has not failed the request.
  pub next_upstream-fresh :
      {Ip : Type 0} (chance : Chance Ip) (now : ℕ) (client : Option Ip) (failed : List Uri)
      (t : RouteTarget Uri) (n : UpstreamNode Uri)
      → Distinct (uris_of t.upstreams)
      → length failed < length t.upstreams
      → 1 < length t.upstreams
      → (next_upstream uri_eq chance now client failed t).0 ≡ some n
      → ¬ Elem n.uri failed
  next_upstream-fresh chance now client failed t n d few many c =
      let of_candidate = candidates-fresh now failed t n d few in
      elim (next_upstream_cases uri_eq chance now client failed t n c) [
        | inl only ↦ absurd (ground (arith, ap length only))
        | inr (inl single) ↦ of_candidate (rw single (inl refl))
        | inr (inr picked) ↦ of_candidate (
            pick-Elem_of_eq uri_eq chance t.strategy t.rr_counter client _ n
              (candidates-pos uri_eq chance now failed t (omega arith)) picked)
      ]
