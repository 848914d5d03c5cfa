-- ===== src/Failover/Attempts.antt =====
-- How often the failover loop asks, and with what.
use praeco_rs.Prelude.{
  ℕ, zero, suc, ◌+◌, ◌≤◌, ◌<◌, max, ◌≡◌, refl, ap, ◌∙◌, Bool, true, false, ltb, if◌then◌else◌,
  Option, none, some, [], ◌∷◌, ◌++◌, length, length-append, All, All-append, arith, inl, inr, ◌⊎◌,
}
use praeco_rs.Circuit.{UpstreamNode, ProbeGuard}
use praeco_rs.Upstreams.{RouteTarget, next_upstream, open_connection}
use praeco_rs.RetryBody.{RequestBody, buffered, stream}
use praeco_rs.Http.Headers.{HeaderMap}
use praeco_rs.Failover.Uris.{UriOps, build_upstream_uri}
use praeco_rs.Failover.Errors.{
  kind_payload_too_large, kind_decompression_limit, kind_client_aborted, kind_upstream_failure,
  error_kind,
}
use praeco_rs.Failover.Request.{
  Refusal, Answer, responded, broke, Call, Policy, World, Sent, Progress, Ending, Verdict, retry,
  finish, is_stream, taken, await_answer, with_host,
}
use praeco_rs.Failover.Nodes.{max_retries_of, claim_probe}
use praeco_rs.Failover.Settle.{node_failed, node_responded, node_broke, settle}
use praeco_rs.Failover.{
  go_on, send, ask, awaited, request_to, may_retry, dispatch, attempt, attempts_from, start, handle,
}

-- What stays of the progress when an attempt is settled: only a repeatable one goes on.
abbrev pub Settled : {Uri Map : Type 0} → Bool → Progress Uri Map → Verdict Uri Map → Type 0
Settled may_retry p (retry q) =
    (may_retry ≡ true)
    × (q.attempts ≡ p.attempts)
    × (q.headers ≡ p.headers)
    × (q.body ≡ p.body)
    × (q.sent ≡ p.sent)
Settled may_retry p (finish ending q) = (q.attempts ≡ p.attempts) × (q.sent ≡ p.sent)

module _ {Uri Map : Type 0} (uris : UriOps Uri) (policy : Policy Map) where
  node_failed-Settled :
      (may_retry : Bool) (refusal : Refusal) (uri : Uri) (probe : Option ProbeGuard) (now : ℕ)
      (p : Progress Uri Map)
      → Settled may_retry p (node_failed uris policy may_retry refusal uri probe now p)
  unfolding node_failed
  node_failed-Settled true refusal uri probe now p = (refl, refl, refl, refl, refl)
  node_failed-Settled false refusal uri probe now p = (refl, refl)

  responded-Settled :
      (outlier may_retry : Bool) (yes_ no_ : Verdict Uri Map) (last : Verdict Uri Map)
      (p : Progress Uri Map)
      → (may_retry ≡ true → Settled may_retry p yes_)
      → Settled may_retry p no_
      → Settled may_retry p last
      → Settled may_retry p (if outlier then if may_retry then yes_ else no_ else last)
  responded-Settled true true yes_ no_ last p a b c = a refl
  responded-Settled true false yes_ no_ last p a b c = b
  responded-Settled false may_retry yes_ no_ last p a b c = c

  settle-Settled :
      (is_multi_node may_retry : Bool) (end : Option (Answer Map)) (uri : Uri)
      (probe : Option ProbeGuard) (now elapsed_ms : ℕ) (p : Progress Uri Map)
      → Settled may_retry p
          (settle uris policy is_multi_node may_retry end uri probe now elapsed_ms p)
  unfolding settle
  settle-Settled is_multi_node may_retry none uri probe now elapsed_ms p =
      node_failed-Settled may_retry _ uri probe now p
  settle-Settled is_multi_node may_retry (some (responded status headers)) uri probe now elapsed_ms
        p =
      unfold node_responded in
      responded-Settled (policy.is_outlier status headers) may_retry _ _ _ p
        (λ e. (e, refl, refl, refl, refl)) (refl, refl) (refl, refl)
  settle-Settled is_multi_node may_retry (some (broke recorded e)) uri probe now elapsed_ms p =
      elim (error_kind recorded e)
        as (λ k. Settled may_retry p (node_broke uris policy may_retry k uri probe now p)) [
          | kind_upstream_failure ↦
              unfold node_broke in node_failed-Settled may_retry _ uri probe now p
          | kind_payload_too_large ↦ unfold node_broke in (refl, refl)
          | kind_decompression_limit ↦ unfold node_broke in (refl, refl)
          | kind_client_aborted reason ↦ unfold node_broke in (refl, refl)
        ]

module _ {Uri Ip : Type 0} (uris : UriOps Uri) (http : HeaderMap) (policy : Policy http.Map)
    (world : World Uri Ip http.Map) (call : Call Uri Ip) (is_multi_node streaming : Bool)
    (max_retries : ℕ) where
  -- The request carries the whole body and all the headers.
  abbrev pub Carries : RequestBody → http.Map → Sent Uri http.Map → Type 0
  Carries body headers s =
      (s.body ≡ body) × (s.headers ≡ policy.wire_headers (with_host uris http s.target_uri headers))

  abbrev pub Sends : Progress Uri http.Map → Progress Uri http.Map → Type 0
  Sends p q = (s : Sent Uri http.Map) × (q.sent ≡ p.sent ++ s ∷ []) × Carries p.body p.headers s

  -- What an attempt does to the progress.
  abbrev pub Attempted : Progress Uri http.Map → Verdict Uri http.Map → Type 0
  Attempted p (retry q) =
      (suc p.attempts ≤ max_retries)
      × (streaming ≡ false)
      × (policy.is_repeatable call.method ≡ true)
      × (q.attempts ≡ suc p.attempts)
      × (q.headers ≡ p.headers)
      × (q.body ≡ taken p.body)
      × Sends p q
  Attempted p (finish ending q) = (q.sent ≡ p.sent) ⊎ Sends p q

  Attempted-of_Settled :
      (uri target_uri : Uri) (p : Progress Uri http.Map) (v : Verdict Uri http.Map)
      → Settled
          (may_retry uris http policy world call streaming max_retries (suc p.attempts))
          (awaited uris http policy world call max_retries uri target_uri p)
          v
      → Attempted p v
  unfolding awaited request_to may_retry
  Attempted-of_Settled uri target_uri p (retry q) h = (
    ground arith,
    ground arith,
    ground arith,
    h.1,
    ground arith,
    h.3,
    (request_to uris http policy world call uri target_uri p, h.4, (refl, refl)),
  )
  Attempted-of_Settled uri target_uri p (finish ending q) h =
      inr (request_to uris http policy world call uri target_uri p, h.1, (refl, refl))

  pub dispatch-Attempted :
      (uri target_uri : Uri) (probe : Option ProbeGuard) (p : Progress Uri http.Map)
      → Attempted p (
          dispatch uris http policy world call is_multi_node streaming max_retries uri target_uri
            probe p)
  unfolding dispatch
  dispatch-Attempted uri target_uri probe p = Attempted-of_Settled uri target_uri p _ (
      settle-Settled uris policy is_multi_node
        (may_retry uris http policy world call streaming max_retries (suc p.attempts))
        (await_answer call.request_timeout (world.arrival p.attempts uri)) uri probe
        (world.settle_at p.attempts) (world.arrival p.attempts uri).after_ms
        (awaited uris http policy world call max_retries uri target_uri p))

  -- The request that is sent is the one to the node.
  abbrev pub Requested : Uri → Uri → Progress Uri http.Map → Verdict Uri http.Map → Type 0
  Requested uri target_uri p (retry q) =
      q.sent ≡ p.sent ++ request_to uris http policy world call uri target_uri p ∷ []
  Requested uri target_uri p (finish ending q) =
      q.sent ≡ p.sent ++ request_to uris http policy world call uri target_uri p ∷ []

  Requested-of_Settled :
      (may : Bool) (uri target_uri : Uri) (p : Progress Uri http.Map) (v : Verdict Uri http.Map)
      → Settled may (awaited uris http policy world call max_retries uri target_uri p) v
      → Requested uri target_uri p v
  unfolding awaited
  Requested-of_Settled may uri target_uri p (retry q) h = h.4
  Requested-of_Settled may uri target_uri p (finish ending q) h = h.1

  pub dispatch-Requested :
      (uri target_uri : Uri) (probe : Option ProbeGuard) (p : Progress Uri http.Map)
      → Requested uri target_uri p (
          dispatch uris http policy world call is_multi_node streaming max_retries uri target_uri
            probe p)
  unfolding dispatch
  dispatch-Requested uri target_uri probe p =
      Requested-of_Settled
        (may_retry uris http policy world call streaming max_retries (suc p.attempts)) uri
        target_uri p _
        (settle-Settled uris policy is_multi_node
          (may_retry uris http policy world call streaming max_retries (suc p.attempts))
          (await_answer call.request_timeout (world.arrival p.attempts uri)) uri probe
          (world.settle_at p.attempts) (world.arrival p.attempts uri).after_ms
          (awaited uris http policy world call max_retries uri target_uri p))

  send-Attempted :
      (uri : Uri) (probe : Option ProbeGuard) (opened : RouteTarget Uri) (target_uri : Option Uri)
      (p : Progress Uri http.Map)
      → Attempted p (
          send uris http policy world call is_multi_node streaming max_retries uri probe opened
            target_uri p)
  unfolding send
  send-Attempted uri probe opened none p = inl refl
  send-Attempted uri probe opened (some target_uri) p =
      dispatch-Attempted uri target_uri probe (record p { target = opened })

  ask-Attempted :
      (n : Option (UpstreamNode Uri)) (target : RouteTarget Uri) (p : Progress Uri http.Map)
      → Attempted p (ask uris http policy world call is_multi_node streaming max_retries n target p)
  unfolding ask
  ask-Attempted none target p = inl refl
  ask-Attempted (some n) target p =
      let claimed = claim_probe uris is_multi_node (world.select_at p.attempts) n target in
      send-Attempted n.uri claimed.1 (open_connection uris.same n.uri claimed.0)
        (build_upstream_uri uris n.uri call.rest call.original_uri) p

  attempt-Attempted :
      (p : Progress Uri http.Map)
      → Attempted p (attempt uris http policy world call is_multi_node streaming max_retries p)
  unfolding attempt
  attempt-Attempted p =
      let chosen =
        next_upstream uris.same (world.chance p.attempts) (world.select_at p.attempts)
          call.client_addr p.failed_nodes p.target in
      ask-Attempted chosen.0 chosen.1 p

  -- What holds of the progress between two attempts.
  abbrev IsOnTrack : RequestBody → http.Map → Progress Uri http.Map → Type 0
  IsOnTrack body headers p =
      (p.body ≡ body)
      × (p.headers ≡ headers)
      × (length p.sent ≡ p.attempts)
      × All (Carries body headers) p.sent
      × (p.attempts ≤ max_retries)
      × ((p.attempts ≡ 0) ⊎ ((streaming ≡ false) × (policy.is_repeatable call.method ≡ true)))

  -- What holds when the handler ends.
  abbrev IsEnded : RequestBody → http.Map → Progress Uri http.Map → Type 0
  IsEnded body headers q =
      (length q.sent ≤ suc max_retries)
      × All (Carries body headers) q.sent
      × ((length q.sent ≤ 1) ⊎ ((streaming ≡ false) × (policy.is_repeatable call.method ≡ true)))

  Sends-length : (p q : Progress Uri http.Map) → Sends p q → length q.sent ≡ length p.sent + 1
  Sends-length p q (s, e, c) = ap length e ∙ length-append p.sent (s ∷ [])

  Sends-All :
      (body : RequestBody) (headers : http.Map) (p q : Progress Uri http.Map)
      → p.body ≡ body
      → p.headers ≡ headers
      → All (Carries body headers) p.sent
      → Sends p q
      → All (Carries body headers) q.sent
  Sends-All body headers p q eb eh h (s, e, c) =
      rw e (All-append (Carries body headers) p.sent (s ∷ []) h ((c.0 ∙ eb, rw (← eh) c.1), tt))

  taken-buffered : (body : RequestBody) → is_stream body ≡ false → taken body ≡ body
  taken-buffered (buffered bytes) e = refl
  taken-buffered (stream body) e = cc

  Attempted-IsOnTrack :
      (body : RequestBody) (headers : http.Map) (p q : Progress Uri http.Map)
      → is_stream body ≡ streaming
      → IsOnTrack body headers p
      → Attempted p (retry q)
      → IsOnTrack body headers q
  Attempted-IsOnTrack body headers p q es h a = (
    a.5 ∙ (ap taken h.0 ∙ taken-buffered body (es ∙ a.1)),
    a.4 ∙ h.1,
    omega (arith, Sends-length p q a.6, a.3, h.2),
    Sends-All body headers p q h.0 h.1 h.3 a.6,
    omega (arith, a.0, a.3),
    inr (a.1, a.2),
  )

  Attempted-IsEnded :
      (body : RequestBody) (headers : http.Map) (ending : Ending http.Map)
      (p q : Progress Uri http.Map)
      → IsOnTrack body headers p
      → Attempted p (finish ending q)
      → IsEnded body headers q
  Attempted-IsEnded body headers ending p q h (inl same) =
      (ground (arith, ap length same), rw same h.3, ground (arith, ap length same))
  Attempted-IsEnded body headers ending p q h (inr a) = (
    omega (arith, Sends-length p q a, h.2, h.4),
    Sends-All body headers p q h.0 h.1 h.3 a,
    ground (arith, Sends-length p q a),
  )

  loop-IsEnded :
      (body : RequestBody) (headers : http.Map)
      → is_stream body ≡ streaming
      → (fuel : ℕ) (p : Progress Uri http.Map) → max_retries < p.attempts + fuel
      → IsOnTrack body headers p
      → (r : Ending http.Map × Progress Uri http.Map) × (attempts_from uris http policy world call
            fuel is_multi_node streaming max_retries p
          ≡ some r)
        × IsEnded body headers r.1
  unfolding attempts_from
  loop-IsEnded body headers es zero p enough h = absurd (omega (arith, h.4))
  loop-IsEnded body headers es (suc fuel) p enough h =
      elim (attempt uris http policy world call is_multi_node streaming max_retries p)
          as (λ v.
            Attempted p v
            → (r : Ending http.Map × Progress Uri http.Map) × (go_on
                  (attempts_from uris http policy world call fuel is_multi_node streaming
                    max_retries)
                  v
                ≡ some r)
              × IsEnded body headers r.1) [
                | retry q ↦ λ a.
                    loop-IsEnded body headers es fuel q (omega (arith, a.3))
                      (Attempted-IsOnTrack body headers p q es h a)
                | finish ending q ↦
                    λ a. ((ending, q), refl, Attempted-IsEnded body headers ending p q h a)
              ]
        (attempt-Attempted p)

module _ {Uri Ip : Type 0} (uris : UriOps Uri) (http : HeaderMap) (policy : Policy http.Map)
    (world : World Uri Ip http.Map) (call : Call Uri Ip) (target : RouteTarget Uri)
    (body : RequestBody) (headers : http.Map) where
  handle-IsEnded :
      (r : Ending http.Map × Progress Uri http.Map) × (handle uris http policy world call target
          body headers
        ≡ some r)
      × IsEnded uris http policy world call
          (ltb 1 (length target.upstreams))
          (is_stream body)
          (max_retries_of target)
          body
          headers
          r.1
  unfolding handle
  handle-IsEnded =
      loop-IsEnded uris http policy world call (ltb 1 (length target.upstreams)) (is_stream body)
        (max_retries_of target) body headers refl (suc (max_retries_of target))
        (start uris http policy world call target body headers) (omega arith)
        (refl, refl, refl, tt, omega arith, inl refl)

  -- The handler always ends, whatever the upstreams answer and others do meanwhile: it has sent at
  -- most one request more than `max_retries`, on a target with several nodes at most one request
  -- for each node, and each of them with the whole body and with the client's prepared headers.
  pub handle_ends :
      (r : Ending http.Map × Progress Uri http.Map) × (handle uris http policy world call target
          body headers
        ≡ some r)
      × (length r.1.sent ≤ suc target.max_retries)
      × (length r.1.sent ≤ max 1 (length target.upstreams))
      × All
          (λ s.
            (s.body ≡ body)
            × (s.headers ≡ policy.wire_headers (with_host uris http s.target_uri headers)))
          r.1.sent
  unfolding max_retries_of
  handle_ends = let (r, e, h) = handle-IsEnded in (r, e, ground arith, ground arith, h.1)

  -- A second request is sent only for a body that is at hand, not a stream, and for a method that
  -- the handler may repeat.
  pub handle-repeats :
      (ending : Ending http.Map) (q : Progress Uri http.Map)
      → handle uris http policy world call target body headers ≡ some (ending, q)
      → 1 < length q.sent
      → (is_stream body ≡ false) × (policy.is_repeatable call.method ≡ true)
  handle-repeats ending q h many =
      let (r, e, ended) = handle-IsEnded in
      let same : r.1 ≡ q = cc in
      ground (arith, ap (λ (t : Progress Uri http.Map). length t.sent) same)
