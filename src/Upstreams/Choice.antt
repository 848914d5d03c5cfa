-- ===== src/Upstreams/Choice.antt =====
-- Which node `next_upstream` chooses.
use praeco_rs.Prelude.{
  ℕ, ◌%◌, ◌≤◌, ◌<◌, ◌≡◌, refl, inl, inr, ◌⊎◌, Bool, true, not, ◌==◌, Option, some, List, [], ◌∷◌,
  length, get_elem?, filter, any, Elem, get_elem?-Elem, Elem-filter, Elem-length, arith, Bool-cases,
}
use praeco_rs.Circuit.{UpstreamNode}
use praeco_rs.Upstreams.{
  LbStrategy, round_robin, random, least_connections, sticky, highest_score, Chance, RouteTarget,
  min_from, max_from, min_by_key, max_by_key, is_usable, candidates, pick, next_upstream,
  sticky_hash,
}

single-eq :
    {A : Type 0} (xs : List A) (x : A)
    → (length xs == 1) ≡ true
    → get_elem? xs 0 ≡ some x
    → xs ≡ x ∷ []
single-eq [] x h e = ground arith
single-eq (y ∷ []) x h e = ground arith
single-eq (y ∷ z ∷ ys) x h e = absurd (ground arith)

module _ {A : Type 0} (key : A → ℕ) where
  min_from_least :
      (best : A) (xs : List A) (y : A) → (y ≡ best) ⊎ Elem y xs → key (min_from key best xs) ≤ key y
  unfolding min_from
  min_from_least best [] y h = ground arith
  min_from_least best (x ∷ xs) y h = ground (
    arith,
    min_from_least x xs y,
    min_from_least best xs y,
    min_from_least x xs x,
    min_from_least best xs best,
  )

  max_from_greatest :
      (best : A) (xs : List A) (y : A) → (y ≡ best) ⊎ Elem y xs → key y ≤ key (max_from key best xs)
  unfolding max_from
  max_from_greatest best [] y h = ground arith
  max_from_greatest best (x ∷ xs) y h = ground (
    arith,
    max_from_greatest x xs y,
    max_from_greatest best xs y,
    max_from_greatest x xs x,
    max_from_greatest best xs best,
  )

  min_from-Elem : (best : A) (xs : List A) → Elem (min_from key best xs) (best ∷ xs)
  unfolding min_from
  min_from-Elem best [] = inl refl
  min_from-Elem best (x ∷ xs) = ground (arith, min_from-Elem x xs, min_from-Elem best xs)

  max_from-Elem : (best : A) (xs : List A) → Elem (max_from key best xs) (best ∷ xs)
  unfolding max_from
  max_from-Elem best [] = inl refl
  max_from-Elem best (x ∷ xs) = ground (arith, max_from-Elem x xs, max_from-Elem best xs)

module _ {Uri Ip : Type 0} (uri_eq : Uri → Uri → Bool) (chance : Chance Ip) where
  -- Every strategy picks an entry of a slice that has one.
  pick-Elem :
      (strategy : LbStrategy) (count : ℕ) (client : Option Ip) (slice : List (UpstreamNode Uri))
      → 0 < length slice
      → (n : UpstreamNode Uri) × (pick uri_eq chance strategy count client slice ≡ some n)
        × Elem n slice
  unfolding pick min_by_key max_by_key
  pick-Elem strategy count client [] h = elim h [ ]
  pick-Elem round_robin count client (x ∷ xs) h =
      get_elem?-Elem (x ∷ xs) (count % length (x ∷ xs)) (omega arith)
  pick-Elem random count client (x ∷ xs) h =
      get_elem?-Elem (x ∷ xs) (chance.gen_range (length (x ∷ xs))) (chance.gen_range-lt _ h)
  pick-Elem least_connections count client (x ∷ xs) h =
      (min_from (λ n. n.active_connections) x xs, refl, min_from-Elem _ x xs)
  pick-Elem sticky count client (x ∷ xs) h =
      get_elem?-Elem (x ∷ xs) (sticky_hash uri_eq chance client % length (x ∷ xs)) (omega arith)
  pick-Elem highest_score count client (x ∷ xs) h =
      (max_from (λ n. n.current_score) x xs, refl, max_from-Elem _ x xs)

  pub candidates-pos :
      (now : ℕ) (failed : List Uri) (t : RouteTarget Uri)
      → 0 < length t.upstreams
      → 0 < length (candidates uri_eq now failed t)
  unfolding candidates
  candidates-pos now failed t h = ground arith

  candidates-Elem :
      (now : ℕ) (failed : List Uri) (t : RouteTarget Uri) (n : UpstreamNode Uri)
      → Elem n (candidates uri_eq now failed t)
      → Elem n t.upstreams
  unfolding candidates
  candidates-Elem now failed t n h = ground (
    arith,
    Elem-filter (is_usable uri_eq now failed t) t.upstreams n,
    Elem-filter (λ (n : UpstreamNode Uri). not (any (uri_eq n.uri) failed)) t.upstreams n,
  )

  -- Once a node is usable, the candidates are the usable nodes.
  candidates-usable :
      (now : ℕ) (failed : List Uri) (t : RouteTarget Uri) (m : UpstreamNode Uri)
      → Elem m t.upstreams
      → is_usable uri_eq now failed t m ≡ true
      → candidates uri_eq now failed t ≡ filter (is_usable uri_eq now failed t) t.upstreams
  unfolding candidates
  candidates-usable now failed t m e u =
      ground (arith, Elem-filter (is_usable uri_eq now failed t) t.upstreams m)

  -- A target with at least one node always yields one of its nodes.
  pub next_upstream-Elem :
      (now : ℕ) (client : Option Ip) (failed : List Uri) (t : RouteTarget Uri)
      → 0 < length t.upstreams
      → (n : UpstreamNode Uri) × ((next_upstream uri_eq chance now client failed t).0 ≡ some n)
        × Elem n t.upstreams
  unfolding next_upstream
  next_upstream-Elem now client failed t h = elim (Bool-cases (length t.upstreams == 1)) [
    | inl one ↦ rw one (get_elem?-Elem t.upstreams 0 h)
    | inr many ↦
        let pos = candidates-pos now failed t h in
        elim (Bool-cases (length (candidates uri_eq now failed t) == 1)) [
          | inl single ↦
              let (n, e, m) = get_elem?-Elem (candidates uri_eq now failed t) 0 pos in
              rw (many, single) (n, e, candidates-Elem now failed t n m)
          | inr several ↦
              let (n, e, m) =
                pick-Elem t.strategy t.rr_counter client (candidates uri_eq now failed t) pos in
              rw (many, several) (n, e, candidates-Elem now failed t n m)
        ]
  ]

  -- The node comes from a single upstream, a single candidate, or the strategy.
  pub next_upstream_cases :
      (now : ℕ) (client : Option Ip) (failed : List Uri) (t : RouteTarget Uri)
      (n : UpstreamNode Uri)
      → (next_upstream uri_eq chance now client failed t).0 ≡ some n
      → (t.upstreams ≡ n ∷ [])
        ⊎ ((candidates uri_eq now failed t ≡ n ∷ [])
            ⊎ (pick uri_eq chance t.strategy t.rr_counter client (candidates uri_eq now failed t)
                ≡ some n))
  unfolding next_upstream
  next_upstream_cases now client failed t n c =
      ground (arith, single-eq t.upstreams n, single-eq (candidates uri_eq now failed t) n)

  pub pick-Elem_of_eq :
      (strategy : LbStrategy) (count : ℕ) (client : Option Ip) (slice : List (UpstreamNode Uri))
      (n : UpstreamNode Uri)
      → 0 < length slice
      → pick uri_eq chance strategy count client slice ≡ some n
      → Elem n slice
  pick-Elem_of_eq strategy count client slice n h c =
      let (k, e, m) = pick-Elem strategy count client slice h in
      let same : k ≡ n = cc in rw (← same) m

  -- If some node is available and has not failed this request, the chosen node is such a node.
  pub next_upstream-usable :
      (now : ℕ) (client : Option Ip) (failed : List Uri) (t : RouteTarget Uri)
      (m n : UpstreamNode Uri)
      → Elem m t.upstreams
      → is_usable uri_eq now failed t m ≡ true
      → (next_upstream uri_eq chance now client failed t).0 ≡ some n
      → is_usable uri_eq now failed t n ≡ true
  next_upstream-usable now client failed t m n e u c =
      let from_candidates = λ (h : Elem n (candidates uri_eq now failed t)).
        ((Elem-filter (is_usable uri_eq now failed t) t.upstreams n).0
          (rw (← candidates-usable now failed t m e u) h)).1 in
      elim (next_upstream_cases now client failed t n c) [
        | inl only ↦ ground arith
        | inr (inl single) ↦ from_candidates (rw single (inl refl))
        | inr (inr picked) ↦ from_candidates (
            pick-Elem_of_eq t.strategy t.rr_counter client _ n
              (candidates-pos now failed t (Elem-length t.upstreams m e)) picked)
      ]

  candidate-Elem :
      (now : ℕ) (failed : List Uri) (t : RouteTarget Uri) (m : UpstreamNode Uri)
      → Elem m t.upstreams
      → is_usable uri_eq now failed t m ≡ true
      → Elem m (candidates uri_eq now failed t)
  candidate-Elem now failed t m e u =
      rw (candidates-usable now failed t m e u)
        ((Elem-filter (is_usable uri_eq now failed t) t.upstreams m).1 (e, u))

  least_of_pick :
      (strategy : LbStrategy) (count : ℕ) (client : Option Ip) (slice : List (UpstreamNode Uri))
      (m n : UpstreamNode Uri)
      → Elem m slice
      → strategy ≡ least_connections
      → pick uri_eq chance strategy count client slice ≡ some n
      → n.active_connections ≤ m.active_connections
  unfolding pick min_by_key
  least_of_pick strategy count client [] m n e s c = absurd e
  least_of_pick strategy count client (x ∷ xs) m n e s c =
      ground (arith, min_from_least (λ (k : UpstreamNode Uri). k.active_connections) x xs m)

  greatest_of_pick :
      (strategy : LbStrategy) (count : ℕ) (client : Option Ip) (slice : List (UpstreamNode Uri))
      (m n : UpstreamNode Uri)
      → Elem m slice
      → strategy ≡ highest_score
      → pick uri_eq chance strategy count client slice ≡ some n
      → m.current_score ≤ n.current_score
  unfolding pick max_by_key
  greatest_of_pick strategy count client [] m n e s c = absurd e
  greatest_of_pick strategy count client (x ∷ xs) m n e s c =
      ground (arith, max_from_greatest (λ (k : UpstreamNode Uri). k.current_score) x xs m)

  -- With least connections, the chosen node has no more active connections than any usable node;
  -- with the highest score, no lower score.
  next_upstream-best :
      (now : ℕ) (client : Option Ip) (failed : List Uri) (t : RouteTarget Uri)
      (m n : UpstreamNode Uri)
      → Elem m t.upstreams
      → is_usable uri_eq now failed t m ≡ true
      → (next_upstream uri_eq chance now client failed t).0 ≡ some n
      → (t.strategy ≡ least_connections → n.active_connections ≤ m.active_connections)
        × (t.strategy ≡ highest_score → m.current_score ≤ n.current_score)
  next_upstream-best now client failed t m n e u c =
      elim (next_upstream_cases now client failed t n c) [
        | inl only ↦ ground arith
        | inr (inl single) ↦ ground (arith, candidate-Elem now failed t m e u)
        | inr (inr picked) ↦ (
          λ s.
              least_of_pick t.strategy t.rr_counter client _ m n (candidate-Elem now failed t m e u)
                s picked,
          λ s.
              greatest_of_pick t.strategy t.rr_counter client _ m n
                (candidate-Elem now failed t m e u) s picked,
        )
      ]
