-- ===== src/Failover/Targets.antt =====
-- No operation of the failover loop changes the URIs of a target.
use praeco_rs.Prelude.{
  ℕ, ◌<◌, ◌≡◌, refl, sym, ap, subst, ◌∙◌, Bool, true, false, if◌then◌else◌, Option, none, some,
  List, [], ◌∷◌, length, get_elem?, ◌==◌, wrapping_add, Elem, arith, Bool-cases, inl, inr, ◌⊎◌,
  Distinct,
}
use praeco_rs.Circuit.{
  UpstreamNode, ProbeGuard, guard_new, guard_drop, record_latency_ms, record_success,
  try_enter_half_open_probe,
}
use praeco_rs.Circuit
use praeco_rs.Upstreams.{
  Chance, RouteTarget, on_first, mark_dead, record_failure, open_connection, close_connection,
  next_upstream, candidates, counts, pick,
}
use praeco_rs.Upstreams.Choice.{next_upstream-Elem}
use praeco_rs.Upstreams.Fresh.{uris_of, length-uris_of, next_upstream-fresh}
use praeco_rs.Http.Headers.{HeaderMap}
use praeco_rs.Failover.Uris.{UriOps, build_upstream_uri}
use praeco_rs.Failover.Request.{Call, Policy, World, Progress, Verdict, finish, uri_error}
use praeco_rs.Failover.Nodes.{on_node, drop_probe, drop_guards, count_failover, claim_probe}
use praeco_rs.Failover.{dispatch, send, ask, attempt}

module _ {Uri : Type 0} (uris : UriOps Uri) where
  on_first-uris :
      (uri : Uri) (f : UpstreamNode Uri → UpstreamNode Uri) (nodes : List (UpstreamNode Uri))
      → ((n : UpstreamNode Uri) → (f n).uri ≡ n.uri)
      → uris_of (on_first uris.same uri f nodes) ≡ uris_of nodes
  unfolding on_first
  on_first-uris uri f [] same = refl
  on_first-uris uri f (n ∷ nodes) same = elim (Bool-cases (uris.same n.uri uri)) [
    | inl e ↦ rw e (ap (λ u. u ∷ uris_of nodes) (same n))
    | inr e ↦ rw e (ap (◌∷◌ n.uri) (on_first-uris uri f nodes same))
  ]

  -- The operation keeps the URIs of every target.
  abbrev pub KeepsUris : (RouteTarget Uri → RouteTarget Uri) → Type 0
  KeepsUris f = (t : RouteTarget Uri) → uris_of (f t).upstreams ≡ uris_of t.upstreams

  pub on_node-KeepsUris :
      (uri : Uri) (f : UpstreamNode Uri → UpstreamNode Uri)
      → ((n : UpstreamNode Uri) → (f n).uri ≡ n.uri)
      → KeepsUris (on_node uris uri f)
  on_node-KeepsUris uri f same t = on_first-uris uri f t.upstreams same

  guard_drop-uri : (g : ProbeGuard) (n : UpstreamNode Uri) → (guard_drop g n).uri ≡ n.uri
  unfolding guard_drop
  guard_drop-uri g n = ground arith

  record_failure-uri :
      (threshold now : ℕ) (n : UpstreamNode Uri)
      → (Circuit.record_failure threshold now n).0.uri ≡ n.uri
  unfolding Circuit.record_failure
  record_failure-uri threshold now n = ground arith

  pub record_success-uri : (n : UpstreamNode Uri) → (record_success n).uri ≡ n.uri
  unfolding record_success
  record_success-uri n = ground arith

  guard_new-uri :
      (cooldown now : ℕ) (n : UpstreamNode Uri) → (guard_new cooldown now n).0.uri ≡ n.uri
  unfolding guard_new
  guard_new-uri cooldown now n = ground arith

  pub drop_probe-KeepsUris :
      (probe : Option ProbeGuard) (uri : Uri) → KeepsUris (drop_probe uris probe uri)
  unfolding drop_probe
  drop_probe-KeepsUris none uri t = refl
  drop_probe-KeepsUris (some g) uri t = on_node-KeepsUris uri _ (guard_drop-uri g) t

  pub drop_guards-KeepsUris :
      (probe : Option ProbeGuard) (uri : Uri) → KeepsUris (drop_guards uris probe uri)
  unfolding drop_guards close_connection
  drop_guards-KeepsUris probe uri t =
      drop_probe-KeepsUris probe uri _ ∙ on_first-uris uri _ t.upstreams (λ n. refl)

  pub mark_dead-KeepsUris : (now : ℕ) (uri : Uri) → KeepsUris (mark_dead uris.same now uri)
  unfolding mark_dead Circuit.mark_dead
  mark_dead-KeepsUris now uri t = on_first-uris uri _ t.upstreams (λ n. refl)

  pub count_failover-KeepsUris : (uri : Uri) → KeepsUris (count_failover uris uri)
  unfolding count_failover
  count_failover-KeepsUris uri t = on_first-uris uri _ t.upstreams (λ n. refl)

  pub record_failure-KeepsUris :
      (now : ℕ) (uri : Uri) → KeepsUris (λ t. (record_failure uris.same now uri t).0)
  unfolding record_failure
  record_failure-KeepsUris now uri t =
      on_first-uris uri _ t.upstreams (record_failure-uri t.failure_threshold now)

  pub record_latency-KeepsUris :
      (ms : ℕ) (uri : Uri) → KeepsUris (on_node uris uri (record_latency_ms ms))
  unfolding record_latency_ms
  record_latency-KeepsUris ms uri t = on_first-uris uri _ t.upstreams (λ n. refl)

  claim_probe-KeepsUris :
      (is_multi_node : Bool) (now : ℕ) (n : UpstreamNode Uri)
      → KeepsUris (λ t. (claim_probe uris is_multi_node now n t).0)
  unfolding claim_probe
  claim_probe-KeepsUris true now n t =
      on_first-uris n.uri _ t.upstreams (guard_new-uri t.cooldown_seconds now)
  claim_probe-KeepsUris false now n t = refl

  open_connection-KeepsUris : (uri : Uri) → KeepsUris (open_connection uris.same uri)
  unfolding open_connection
  open_connection-KeepsUris uri t = on_first-uris uri _ t.upstreams (λ n. refl)

  next_target :
      (a b c : Bool) (x y z : Option (UpstreamNode Uri)) (t u : RouteTarget Uri)
      → u.upstreams ≡ t.upstreams
      → (if◌then◌else◌ {A = Option (UpstreamNode Uri) × RouteTarget Uri} a
          (x, t)
          (if b then (y, t) else (z, if c then u else t))).1.upstreams
        ≡ t.upstreams
  next_target true b c x y z t u e = refl
  next_target false true c x y z t u e = refl
  next_target false false true x y z t u e = e
  next_target false false false x y z t u e = refl

  next_upstream-KeepsUris :
      {Ip : Type 0} (chance : Chance Ip) (now : ℕ) (client : Option Ip) (failed : List Uri)
      → KeepsUris (λ t. (next_upstream uris.same chance now client failed t).1)
  unfolding next_upstream
  next_upstream-KeepsUris chance now client failed t = ap uris_of (
      next_target (length t.upstreams == 1) (length (candidates uris.same now failed t) == 1)
        (counts uris.same chance t.strategy) (get_elem? t.upstreams 0)
        (get_elem? (candidates uris.same now failed t) 0)
        (pick uris.same chance t.strategy t.rr_counter client (candidates uris.same now failed t)) t
        (record t { rr_counter = wrapping_add t.rr_counter 1 }) refl)

module _ {Uri Ip : Type 0} (uris : UriOps Uri) (http : HeaderMap) (policy : Policy http.Map)
    (world : World Uri Ip http.Map) (call : Call Uri Ip) (is_multi_node streaming : Bool)
    (max_retries : ℕ) where
  -- An attempt on a target that has nodes fails to build the URI, or asks one of the nodes.
  abbrev pub Asked : List Uri → Progress Uri http.Map → Verdict Uri http.Map → Type 0
  Asked us p v =
      ((q : Progress Uri http.Map) × (v ≡ finish uri_error q)
        × (q.sent ≡ p.sent)
        × (uri : Uri) × (build_upstream_uri uris uri call.rest call.original_uri ≡ none))
      ⊎ ((uri : Uri) × (target_uri : Uri) × (probe : Option ProbeGuard) × (opened : RouteTarget Uri)
          × (v
              ≡ dispatch uris http policy world call is_multi_node streaming max_retries uri
                  target_uri probe (record p { target = opened }))
          × (build_upstream_uri uris uri call.rest call.original_uri ≡ some target_uri)
          × Elem uri us
          × (¬ Elem uri p.failed_nodes)
          × (uris_of opened.upstreams ≡ us))

  send_cases :
      (us : List Uri) (uri : Uri) (probe : Option ProbeGuard) (opened : RouteTarget Uri)
      (built : Option Uri) (p : Progress Uri http.Map)
      → build_upstream_uri uris uri call.rest call.original_uri ≡ built
      → Elem uri us
      → ¬ Elem uri p.failed_nodes
      → uris_of opened.upstreams ≡ us
      → Asked us p (
          send uris http policy world call is_multi_node streaming max_retries uri probe opened
            built p)
  unfolding send
  send_cases us uri probe opened none p e m f k = inl (_, refl, refl, uri, e)
  send_cases us uri probe opened (some target_uri) p e m f k =
      inr (uri, target_uri, probe, opened, refl, e, m, f, k)

  ask_cases :
      (us : List Uri) (n : UpstreamNode Uri) (target : RouteTarget Uri) (p : Progress Uri http.Map)
      → Elem n.uri us
      → ¬ Elem n.uri p.failed_nodes
      → uris_of target.upstreams ≡ us
      → Asked us p
          (ask uris http policy world call is_multi_node streaming max_retries (some n) target p)
  unfolding ask
  ask_cases us n target p m f k =
      let claimed = claim_probe uris is_multi_node (world.select_at p.attempts) n target in
      send_cases us n.uri claimed.1 (open_connection uris.same n.uri claimed.0)
        (build_upstream_uri uris n.uri call.rest call.original_uri) p refl m f
        (open_connection-KeepsUris uris n.uri claimed.0
          ∙ claim_probe-KeepsUris uris is_multi_node _ n target
          ∙ k)

  Elem-uris_of :
      (n : UpstreamNode Uri) (nodes : List (UpstreamNode Uri))
      → Elem n nodes
      → Elem n.uri (uris_of nodes)
  Elem-uris_of n [] h = h
  Elem-uris_of n (m ∷ nodes) (inl e) = inl (ap (λ (k : UpstreamNode Uri). k.uri) e)
  Elem-uris_of n (m ∷ nodes) (inr h) = inr (Elem-uris_of n nodes h)

  pub attempt-Asked :
      (us : List Uri) (p : Progress Uri http.Map)
      → uris_of p.target.upstreams ≡ us
      → Distinct us
      → 0 < length us
      → (p.failed_nodes ≡ []) ⊎ ((1 < length us) × (length p.failed_nodes < length us))
      → Asked us p (attempt uris http policy world call is_multi_node streaming max_retries p)
  unfolding attempt
  attempt-Asked us p k d pos few =
      let chosen =
        next_upstream uris.same (world.chance p.attempts) (world.select_at p.attempts)
          call.client_addr p.failed_nodes p.target in
      let (n, e, m) =
        next_upstream-Elem uris.same (world.chance p.attempts) (world.select_at p.attempts)
          call.client_addr p.failed_nodes p.target
          (omega (arith, ap length k, length-uris_of p.target.upstreams)) in
      let size : length us ≡ length p.target.upstreams =
        omega (arith, ap length k, length-uris_of p.target.upstreams) in
      let fresh : ¬ Elem n.uri p.failed_nodes = elim few [
        | inl none_yet ↦ rw none_yet (λ h. h)
        | inr (many, fewer) ↦
            next_upstream-fresh uris.same uris.same_iff (world.chance p.attempts)
              (world.select_at p.attempts) call.client_addr p.failed_nodes p.target n
              (subst Distinct (sym k) d) (omega arith) (omega arith) e
      ] in
      rw e (
        ask_cases us n chosen.1 p (subst (Elem n.uri) k (Elem-uris_of n p.target.upstreams m)) fresh
          (next_upstream-KeepsUris uris (world.chance p.attempts) (world.select_at p.attempts)
              call.client_addr p.failed_nodes p.target
            ∙ k))
