-- ===== src/Router/Health.antt =====
-- What the health check says of the upstream nodes.
use praeco_rs.Prelude.{
  any-Elem_iff, ℕ, ◌≡◌, ◌↔◌, ◌⊎◌, inl, inr, refl, true, Bool-cases, List, [], ◌∷◌, any, Elem, arith,
  is_empty, if◌then◌else◌, codes,
}
use praeco_rs.Circuit.{UpstreamNode, is_available}
use praeco_rs.Http.{build_error_response}
use praeco_rs.Http
use praeco_rs.Router.{ParsedRoute, RouterService, available_in, handle_health_check}

module _ {Uri : Type 0} (now : ℕ) where
  -- Some node of some route may be asked.
  abbrev pub HasAvailable : List (ParsedRoute Uri) → Type 0
  HasAvailable routes =
      (route : ParsedRoute Uri) × (node : UpstreamNode Uri) × Elem route routes
      × Elem node route.target.upstreams
      × (is_available route.target.cooldown_seconds now node ≡ true)

  any-HasAvailable_iff :
      (routes : List (ParsedRoute Uri))
      → (any (available_in now) routes ≡ true) ↔ HasAvailable routes
  any-HasAvailable_iff routes = (
    λ h.
        let (route, m, k) = (any-Elem_iff (available_in now) routes).0 h in
        let (node, n, l) = (any-Elem_iff _ route.target.upstreams).0 k in (route, node, m, n, l),
    λ (route, node, m, n, l).
        (any-Elem_iff (available_in now) routes).1
          (route, m, (any-Elem_iff _ route.target.upstreams).1 (node, n, l)),
  )

  answer_iff :
      (routes : List (ParsedRoute Uri))
      → ((if is_empty routes
            then build_error_response
                (codes "{\"score\": 100, \"message\": \"no routes configured\"}")
                Http.ok
            else if any (available_in now) routes
            then build_error_response
                (codes "{\"score\": 100, \"message\": \"nodes available\"}")
                Http.ok
            else build_error_response
                (codes "{\"score\": 0, \"message\": \"no upstream nodes available\"}")
                Http.service_unavailable).status
          ≡ Http.ok)
        ↔ ((routes ≡ []) ⊎ HasAvailable routes)
  unfolding build_error_response is_available
  answer_iff [] = (λ h. inl refl, λ h. refl)
  answer_iff (r ∷ routes) = elim (Bool-cases (any (available_in now) (r ∷ routes))) [
    | inl some_ ↦ rw some_ (λ h. inr ((any-HasAvailable_iff (r ∷ routes)).0 some_), λ h. refl)
    | inr none_ ↦ rw none_ (
      λ h. absurd (omega (arith, h)),
      λ h. elim h [
        | inl e ↦ absurd (ground (arith, e))
        | inr a ↦ absurd (ground (arith, none_, (any-HasAvailable_iff (r ∷ routes)).1 a))
      ],
    )
  ]

  -- The health check answers 200 exactly when the server has no route or some node of some route
  -- may be asked.
  pub handle_health_check-ok_iff :
      (s : RouterService Uri)
      → ((handle_health_check now s).status ≡ Http.ok)
        ↔ ((s.parsed_routes ≡ []) ⊎ HasAvailable s.parsed_routes)
  unfolding handle_health_check
  handle_health_check-ok_iff s = answer_iff s.parsed_routes
