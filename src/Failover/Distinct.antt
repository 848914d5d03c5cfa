-- ===== src/Failover/Distinct.antt =====
-- The failover loop asks no node twice.
use praeco_rs.Prelude.{
  ℕ, zero, suc, ◌≤◌, ◌<◌, ◌≡◌, refl, sym, ap, ◌∙◌, subst, Bool, true, ltb, some, List, [], ◌∷◌,
  ◌++◌, map, length, length-append, Elem, arith, inl, inr, ◌⊎◌, Distinct, Within, Distinct-snoc,
  Elem-append,
}
use praeco_rs.Upstreams.{RouteTarget}
use praeco_rs.Upstreams.Fresh.{uris_of, length-uris_of}
use praeco_rs.RetryBody.{RequestBody}
use praeco_rs.Http.Headers.{HeaderMap}
use praeco_rs.Failover.Uris.{UriOps}
use praeco_rs.Failover.Request.{
  Call, Policy, World, Sent, Progress, Ending, Verdict, retry, finish, is_stream,
}
use praeco_rs.Failover.Nodes.{max_retries_of}
use praeco_rs.Failover.{go_on, request_to, attempt, attempts_from, start, handle}
use praeco_rs.Failover.Targets.{KeepsUris, attempt-Asked}
use praeco_rs.Failover.Noted.{Noted, dispatch-Noted}
use praeco_rs.Failover.Attempts.{Attempted, dispatch-Attempted, Requested, dispatch-Requested}

module _ {Uri Ip : Type 0} (uris : UriOps Uri) (http : HeaderMap) (policy : Policy http.Map)
    (world : World Uri Ip http.Map) (call : Call Uri Ip) (is_multi_node streaming : Bool)
    (max_retries : ℕ) (others : (k : ℕ) → KeepsUris uris (world.meanwhile k)) where
  abbrev pub nodes_of : List (Sent Uri http.Map) → List Uri
  nodes_of sent = map (λ s. s.node) sent

  -- Between two attempts: the nodes asked so far are those that failed, all different.
  abbrev pub IsFresh : List Uri → Progress Uri http.Map → Type 0
  IsFresh us p =
      (uris_of p.target.upstreams ≡ us)
      × Distinct p.failed_nodes
      × Within p.failed_nodes us
      × (length p.failed_nodes ≡ p.attempts)
      × (nodes_of p.sent ≡ p.failed_nodes)

  nodes_of-append :
      (xs ys : List (Sent Uri http.Map)) → nodes_of (xs ++ ys) ≡ nodes_of xs ++ nodes_of ys
  nodes_of-append [] ys = refl
  nodes_of-append (x ∷ xs) ys = ap (◌∷◌ x.node) (nodes_of-append xs ys)

  nodes_of-snoc :
      (sent : List (Sent Uri http.Map)) (s : Sent Uri http.Map) (failed : List Uri)
      → nodes_of sent ≡ failed
      → nodes_of (sent ++ s ∷ []) ≡ failed ++ s.node ∷ []
  nodes_of-snoc sent s failed e = nodes_of-append sent (s ∷ []) ∙ ap (λ f. f ++ s.node ∷ []) e

  -- What an attempt at a node that has not failed leads to.
  abbrev pub Fresh : List Uri → Verdict Uri http.Map → Type 0
  Fresh us (retry q) = (q.attempts ≤ max_retries) × IsFresh us q
  Fresh us (finish ending q) = Distinct (nodes_of q.sent) × Within (nodes_of q.sent) us

  Within-snoc : (xs us : List Uri) (u : Uri) → Within xs us → Elem u us → Within (xs ++ u ∷ []) us
  Within-snoc xs us u w m a h = elim (Elem-append a xs (u ∷ []) h) [
    | inl k ↦ w a k
    | inr (inl e) ↦ subst (λ z. Elem z us) (sym e) m
    | inr (inr k) ↦ absurd k
  ]

  pub asked-Fresh :
      (us : List Uri) (uri target_uri : Uri) (p : Progress Uri http.Map) (v : Verdict Uri http.Map)
      → (0 < max_retries → is_multi_node ≡ true)
      → IsFresh us p
      → Elem uri us
      → ¬ Elem uri p.failed_nodes
      → Attempted uris http policy world call is_multi_node streaming max_retries p v
      → Requested uris http policy world call is_multi_node streaming max_retries uri target_uri p v
      → Noted is_multi_node uri p v
      → Fresh us v
  unfolding request_to
  asked-Fresh us uri target_uri p (retry q) multi h m f a r n =
      let more : q.failed_nodes ≡ p.failed_nodes ++ uri ∷ [] = n.0 (multi (omega (arith, a.0))) in
      (
        omega (arith, a.0, a.3),
        (
          n.1 ∙ h.0,
          subst Distinct (sym more) (Distinct-snoc p.failed_nodes uri h.1 f),
          subst (λ xs. Within xs us) (sym more) (Within-snoc p.failed_nodes us uri h.2 m),
          omega (arith, ap length more, length-append p.failed_nodes (uri ∷ []), h.3, a.3),
          ap nodes_of r ∙ (nodes_of-snoc p.sent _ p.failed_nodes h.4 ∙ sym more),
        ),
      )
  asked-Fresh us uri target_uri p (finish ending q) multi h m f a r n =
      let all = ap nodes_of r ∙ nodes_of-snoc p.sent _ p.failed_nodes h.4 in
      (
        subst Distinct (sym all) (Distinct-snoc p.failed_nodes uri h.1 f),
        subst (λ xs. Within xs us) (sym all) (Within-snoc p.failed_nodes us uri h.2 m),
      )

  module _ (us : List Uri) (multi : 0 < max_retries → is_multi_node ≡ true)
      (few : max_retries < length us) (different : Distinct us) where
    pub room :
        (p : Progress Uri http.Map)
        → p.attempts ≤ max_retries
        → length p.failed_nodes ≡ p.attempts
        → (p.failed_nodes ≡ []) ⊎ ((1 < length us) × (length p.failed_nodes < length us))
    room p k h = none_or p.failed_nodes (ground arith)
      where
        none_or :
            (xs : List Uri)
            → length xs ≤ max_retries
            → (xs ≡ []) ⊎ ((1 < length us) × (length xs < length us))
        none_or [] h = inl refl
        none_or (x ∷ xs) h = inr (omega arith, omega arith)

    attempt-Fresh :
        (p : Progress Uri http.Map)
        → p.attempts ≤ max_retries
        → IsFresh us p
        → Fresh us (attempt uris http policy world call is_multi_node streaming max_retries p)
    attempt-Fresh p k h =
        elim (attempt-Asked uris http policy world call is_multi_node streaming max_retries us p h.0
          different (omega arith) (room p k h.3)) [
            | inl (q, e, same, uri, no_uri) ↦
                rw (e, same)
                  (subst Distinct (sym h.4) h.1, subst (λ xs. Within xs us) (sym h.4) h.2)
            | inr (uri, target_uri, probe, opened, e, built, m, f, o) ↦ rw e (
                asked-Fresh us uri target_uri (record p { target = opened }) _ multi
                  (o, h.1, h.2, h.3, h.4) m f
                  (dispatch-Attempted uris http policy world call is_multi_node streaming
                    max_retries uri target_uri probe (record p { target = opened }))
                  (dispatch-Requested uris http policy world call is_multi_node streaming
                    max_retries uri target_uri probe (record p { target = opened }))
                  (dispatch-Noted uris http policy world call is_multi_node streaming max_retries
                    others uri target_uri probe (record p { target = opened })))
          ]

    loop-Fresh :
        (fuel : ℕ) (p q : Progress Uri http.Map) (ending : Ending http.Map)
        → p.attempts ≤ max_retries
        → IsFresh us p
        → attempts_from uris http policy world call fuel is_multi_node streaming max_retries p
          ≡ some (ending, q)
        → Distinct (nodes_of q.sent) × Within (nodes_of q.sent) us
    unfolding attempts_from
    loop-Fresh zero p q ending k h = λ e. absurd (cc)
    loop-Fresh (suc fuel) p q ending k h =
        elim (attempt uris http policy world call is_multi_node streaming max_retries p)
            as (λ v.
              Fresh us v
              → go_on
                  (attempts_from uris http policy world call fuel is_multi_node streaming
                    max_retries)
                  v
                ≡ some (ending, q)
              → Distinct (nodes_of q.sent) × Within (nodes_of q.sent) us) [
                | retry r ↦ λ a e. loop-Fresh fuel r q ending a.0 a.1 e
                | finish last r ↦ λ a e. let same : r ≡ q = cc in rw (← same) a
              ]
          (attempt-Fresh p k h)

-- On a target with nodes of different URIs, which others leave in place, the requests that the
-- handler sends for one client request go to different nodes, all of them nodes of the target.
pub handle-Distinct :
    {Uri Ip : Type 0} (uris : UriOps Uri) (http : HeaderMap) (policy : Policy http.Map)
    (world : World Uri Ip http.Map) (call : Call Uri Ip) (target : RouteTarget Uri)
    (body : RequestBody) (headers : http.Map) (ending : Ending http.Map) (q : Progress Uri http.Map)
    → ((k : ℕ) → KeepsUris uris (world.meanwhile k))
    → Distinct (uris_of target.upstreams)
    → 0 < length target.upstreams
    → handle uris http policy world call target body headers ≡ some (ending, q)
    → Distinct (map (λ s. s.node) q.sent)
      × Within (map (λ s. s.node) q.sent) (uris_of target.upstreams)
unfolding handle max_retries_of
handle-Distinct uris http policy world call target body headers ending q others d pos e =
    loop-Fresh uris http policy world call (ltb 1 (length target.upstreams)) (is_stream body)
      (max_retries_of target) others (uris_of target.upstreams) (ground arith)
      (ground (arith, length-uris_of target.upstreams)) d (suc (max_retries_of target))
      (start uris http policy world call target body headers) q ending (omega arith)
      (refl, tt, λ a h. absurd h, refl, refl) e
