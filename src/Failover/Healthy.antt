-- ===== src/Failover/Healthy.antt =====
-- A healthy node is found.
use praeco_rs.Prelude.{
  ℕ, zero, suc, ◌≤◌, ◌<◌, ◌≡◌, ◌≢◌, refl, sym, subst, Bool, true, false, not, ◌&&◌, ltb,
  if◌then◌else◌, Option, none, some, List, [], ◌∷◌, ◌++◌, length, Elem, Elem-length, arith, inl,
  inr, ◌⊎◌, Distinct, Within, Elem-append, Distinct-length,
}
use praeco_rs.Circuit.{ProbeGuard}
use praeco_rs.Upstreams.{RouteTarget}
use praeco_rs.Upstreams.Fresh.{uris_of, length-uris_of}
use praeco_rs.RetryBody.{RequestBody}
use praeco_rs.Http.Headers.{HeaderMap}
use praeco_rs.Failover.Uris.{UriOps, build_upstream_uri}
use praeco_rs.Failover.Errors.{kind_upstream_failure, error_kind}
use praeco_rs.Failover.Request.{
  Refusal, Answer, responded, broke, Call, Policy, World, Progress, Ending, passed_on, Verdict,
  retry, finish, is_stream, await_answer,
}
use praeco_rs.Failover.Nodes.{max_retries_of}
use praeco_rs.Failover.Settle.{node_failed, node_responded, node_broke, settle}
use praeco_rs.Failover.{go_on, awaited, may_retry, dispatch, attempt, attempts_from, start, handle}
use praeco_rs.Failover.Targets.{KeepsUris, attempt-Asked}
use praeco_rs.Failover.Noted.{Noted, dispatch-Noted}
use praeco_rs.Failover.Attempts.{Attempted, dispatch-Attempted, dispatch-Requested, handle_ends}
use praeco_rs.Failover.Distinct.{IsFresh, Fresh, asked-Fresh, room}

module _ {Map : Type 0} (policy : Policy Map) where
  -- The wait ended with a response that is no outlier.
  abbrev pub IsGood : Option (Answer Map) → Type 0
  IsGood none = ⊥
  IsGood (some (broke recorded e)) = ⊥
  IsGood (some (responded status headers)) = policy.is_outlier status headers ≡ false

  -- The wait did not end with an error that is the client's fault.
  abbrev pub SparesClient : Option (Answer Map) → Type 0
  SparesClient (some (broke recorded e)) = error_kind recorded e ≡ kind_upstream_failure
  SparesClient _ = Unit

  -- The client gets a response that is no outlier.
  abbrev pub IsServed : Ending Map → Type 0
  IsServed ending =
      (status : ℕ) × (headers : Map) × (ending ≡ passed_on status (policy.clean_headers headers))
      × (policy.is_outlier status headers ≡ false)

  abbrev Judged : {Uri : Type 0} → Bool → Option (Answer Map) → Verdict Uri Map → Type 0
  Judged may end (retry q) = ¬ IsGood end
  Judged may end (finish ending q) = IsServed ending ⊎ ((may ≡ false) × (¬ IsGood end))

module _ {Uri Map : Type 0} (policy : Policy Map) (uris : UriOps Uri) where
  node_failed-Judged :
      (may : Bool) (end : Option (Answer Map)) (refusal : Refusal) (uri : Uri)
      (probe : Option ProbeGuard) (now : ℕ) (p : Progress Uri Map)
      → ¬ IsGood policy end
      → Judged policy may end (node_failed uris policy may refusal uri probe now p)
  unfolding node_failed
  node_failed-Judged true end refusal uri probe now p bad = bad
  node_failed-Judged false end refusal uri probe now p bad = inr (refl, bad)

  responded-Judged :
      (outlier may : Bool) (status : ℕ) (headers : Map) (again p q : Progress Uri Map)
      → policy.is_outlier status headers ≡ outlier
      → Judged policy may (some (responded status headers)) (
          if outlier
          then if may
            then retry again
            else finish (passed_on status (policy.clean_headers headers)) p
          else finish (passed_on status (policy.clean_headers headers)) q)
  responded-Judged true true status headers again p q e = λ good. cc
  responded-Judged true false status headers again p q e = inr (refl, λ good. cc)
  responded-Judged false may status headers again p q e = inl (status, headers, refl, e)

  settle-Judged :
      (is_multi_node may : Bool) (end : Option (Answer Map)) (uri : Uri) (probe : Option ProbeGuard)
      (now elapsed_ms : ℕ) (p : Progress Uri Map)
      → SparesClient policy end
      → Judged policy may end (settle uris policy is_multi_node may end uri probe now elapsed_ms p)
  unfolding settle
  settle-Judged is_multi_node may none uri probe now elapsed_ms p spares =
      node_failed-Judged may none _ uri probe now p (λ good. good)
  settle-Judged is_multi_node may (some (responded status headers)) uri probe now elapsed_ms p
        spares =
      unfold node_responded in
      responded-Judged (policy.is_outlier status headers) may status headers _ _ _ refl
  settle-Judged is_multi_node may (some (broke recorded e)) uri probe now elapsed_ms p spares =
      rw spares (
        unfold node_broke in
        node_failed-Judged may (some (broke recorded e)) _ uri probe now p (λ good. good))

module _ {Uri Ip : Type 0} (uris : UriOps Uri) (http : HeaderMap) (policy : Policy http.Map)
    (world : World Uri Ip http.Map) (call : Call Uri Ip) (is_multi_node streaming : Bool)
    (max_retries : ℕ) (others : (k : ℕ) → KeepsUris uris (world.meanwhile k))
    (spares : (k : ℕ) (uri : Uri)
      → SparesClient policy (await_answer call.request_timeout (world.arrival k uri)))
    (builds : (uri : Uri) → build_upstream_uri uris uri call.rest call.original_uri ≢ none)
    (us : List Uri) (multi : 0 < max_retries → is_multi_node ≡ true)
    (all_of : suc max_retries ≡ length us) (different : Distinct us)
    (again : (not streaming && policy.is_repeatable call.method) ≡ true) (m : Uri) (has : Elem m us)
    (good : (k : ℕ) → IsGood policy (await_answer call.request_timeout (world.arrival k m))) where
  dispatch-Judged :
      (uri target_uri : Uri) (probe : Option ProbeGuard) (p : Progress Uri http.Map)
      → Judged policy
          (may_retry uris http policy world call streaming max_retries (suc p.attempts))
          (await_answer call.request_timeout (world.arrival p.attempts uri))
          (dispatch uris http policy world call is_multi_node streaming max_retries uri target_uri
            probe p)
  unfolding dispatch
  dispatch-Judged uri target_uri probe p =
      settle-Judged policy uris is_multi_node
        (may_retry uris http policy world call streaming max_retries (suc p.attempts))
        (await_answer call.request_timeout (world.arrival p.attempts uri)) uri probe
        (world.settle_at p.attempts) (world.arrival p.attempts uri).after_ms
        (awaited uris http policy world call max_retries uri target_uri p) (spares p.attempts uri)

  abbrev Finds : Verdict Uri http.Map → Type 0
  Finds (retry q) =
      (q.attempts ≤ max_retries)
      × IsFresh uris http policy world call is_multi_node streaming max_retries others us q
      × (¬ Elem m q.failed_nodes)
  Finds (finish ending q) = IsServed policy ending

  -- With no retry left, all the others have failed.
  exhausted :
      (uri : Uri) (failed : List Uri)
      → Distinct failed
      → Within failed us
      → Elem uri us
      → ¬ Elem uri failed
      → ¬ Elem m failed
      → m ≢ uri
      → length failed < max_retries
  exhausted uri failed d w e0 f n other =
      let no_m : ¬ Elem m (uri ∷ failed) = λ h. elim h [ inl e ↦ other e | inr k ↦ n k ] in
      let all_within : Within (m ∷ uri ∷ failed) us = λ a h. elim h [
        | inl e ↦ subst (λ z. Elem z us) (sym e) has
        | inr (inl e) ↦ subst (λ z. Elem z us) (sym e) e0
        | inr (inr k) ↦ w a k
      ] in
      omega (arith, all_of, Distinct-length (m ∷ uri ∷ failed) us (no_m, (f, d)) all_within)

  asked-Finds :
      (uri : Uri) (p : Progress Uri http.Map) (v : Verdict Uri http.Map)
      → IsFresh uris http policy world call is_multi_node streaming max_retries others us p
      → ¬ Elem m p.failed_nodes
      → Elem uri us
      → ¬ Elem uri p.failed_nodes
      → Fresh uris http policy world call is_multi_node streaming max_retries others us v
      → Noted is_multi_node uri p v
      → Attempted uris http policy world call is_multi_node streaming max_retries p v
      → Judged policy
          (may_retry uris http policy world call streaming max_retries (suc p.attempts))
          (await_answer call.request_timeout (world.arrival p.attempts uri))
          v
      → Finds v
  unfolding may_retry
  asked-Finds uri p (retry q) h n e f fresh noted attempted bad =
      let more : q.failed_nodes ≡ p.failed_nodes ++ uri ∷ [] =
        noted.0 (multi (omega (arith, attempted.0))) in
      (
        fresh.0,
        fresh.1,
        rw more (λ k. elim (Elem-append m p.failed_nodes (uri ∷ []) k) [
          | inl old ↦ n old
          | inr (inl same) ↦ bad (
              subst
                (λ z.
                  IsGood policy (await_answer call.request_timeout (world.arrival p.attempts z)))
                same (good p.attempts))
          | inr (inr none_) ↦ none_
        ]),
      )
  asked-Finds uri p (finish ending q) h n e f fresh noted attempted (inl served) = served
  asked-Finds uri p (finish ending q) h n e f fresh noted attempted (inr (last, bad)) =
      let other : m ≢ uri = λ same. bad (
        subst (λ z. IsGood policy (await_answer call.request_timeout (world.arrival p.attempts z)))
          same (good p.attempts)) in
      let left : length p.failed_nodes < max_retries =
        exhausted uri p.failed_nodes h.1 h.2 e f n other in
      absurd (ground (arith, h.3))

  attempt-Finds :
      (p : Progress Uri http.Map)
      → p.attempts ≤ max_retries
      → IsFresh uris http policy world call is_multi_node streaming max_retries others us p
      → ¬ Elem m p.failed_nodes
      → Finds (attempt uris http policy world call is_multi_node streaming max_retries p)
  attempt-Finds p k h n =
      elim (attempt-Asked uris http policy world call is_multi_node streaming max_retries us p h.0
        different (omega (arith, all_of))
        (room uris http policy world call is_multi_node streaming max_retries others us multi
          (omega (arith, all_of)) different p k h.3)) [
            | inl (q, e, same, uri, no_uri) ↦ absurd (builds uri no_uri)
            | inr (uri, target_uri, probe, opened, e, built, e0, f, o) ↦
                let p' : Progress Uri http.Map = record p { target = opened } in
                let fresh : IsFresh uris http policy world call is_multi_node streaming max_retries
                    others us p' =
                  (o, h.1, h.2, h.3, h.4) in
                let noted =
                  dispatch-Noted uris http policy world call is_multi_node streaming max_retries
                    others uri target_uri probe p' in
                let tried =
                  dispatch-Attempted uris http policy world call is_multi_node streaming max_retries
                    uri target_uri probe p' in
                rw e (
                  asked-Finds uri p' _ fresh n e0 f
                    (asked-Fresh uris http policy world call is_multi_node streaming max_retries
                      others us uri target_uri p' _ multi fresh e0 f tried
                      (dispatch-Requested uris http policy world call is_multi_node streaming
                        max_retries uri target_uri probe p')
                      noted)
                    noted tried (dispatch-Judged uri target_uri probe p'))
          ]

  loop-Finds :
      (fuel : ℕ) (p q : Progress Uri http.Map) (ending : Ending http.Map)
      → p.attempts ≤ max_retries
      → IsFresh uris http policy world call is_multi_node streaming max_retries others us p
      → ¬ Elem m p.failed_nodes
      → attempts_from uris http policy world call fuel is_multi_node streaming max_retries p
        ≡ some (ending, q)
      → IsServed policy ending
  unfolding attempts_from
  loop-Finds zero p q ending k h n = λ e. absurd (cc)
  loop-Finds (suc fuel) p q ending k h n =
      elim (attempt uris http policy world call is_multi_node streaming max_retries p)
          as (λ v.
            Finds v
            → go_on
                (attempts_from uris http policy world call fuel is_multi_node streaming max_retries)
                v
              ≡ some (ending, q)
            → IsServed policy ending) [
              | retry r ↦ λ a e. loop-Finds fuel r q ending a.0 a.1 a.2 e
              | finish last r ↦ λ a e. let same : last ≡ ending = cc in rw (← same) a
            ]
        (attempt-Finds p k h n)

-- A buffered request with a method that the handler may repeat, on a target of nodes with different
-- URIs, at most one more of them than its `max_retries`, is answered by a node: if one node of the
-- target answers every attempt in time and with no outlier, no attempt on any node fails by the
-- client's fault, every URI can be built, and other requests leave the URIs of the target as they
-- are, then the handler passes on a response that is no outlier, whichever nodes are down or marked
-- so.
pub handle-healthy :
    {Uri Ip : Type 0} (uris : UriOps Uri) (http : HeaderMap) (policy : Policy http.Map)
    (world : World Uri Ip http.Map) (call : Call Uri Ip) (target : RouteTarget Uri)
    (body : RequestBody) (headers : http.Map) (m : Uri)
    → ((k : ℕ) → KeepsUris uris (world.meanwhile k))
    → ((k : ℕ) (uri : Uri)
        → SparesClient policy (await_answer call.request_timeout (world.arrival k uri)))
    → ((uri : Uri) → build_upstream_uri uris uri call.rest call.original_uri ≢ none)
    → Distinct (uris_of target.upstreams)
    → length target.upstreams ≤ suc target.max_retries
    → is_stream body ≡ false
    → policy.is_repeatable call.method ≡ true
    → Elem m (uris_of target.upstreams)
    → ((k : ℕ) → IsGood policy (await_answer call.request_timeout (world.arrival k m)))
    → (status : ℕ) × (answer : http.Map) × (q : Progress Uri http.Map) × (handle uris http policy
          world call target body headers
        ≡ some (passed_on status (policy.clean_headers answer), q))
      × (policy.is_outlier status answer ≡ false)
unfolding handle max_retries_of
handle-healthy uris http policy world call target body headers m others spares builds d few at_hand
      may has good =
    let ((ending, q), e, few_sent, one_each, whole) =
      handle_ends uris http policy world call target body headers in
    let pos : 0 < length target.upstreams =
      omega
        (arith, Elem-length (uris_of target.upstreams) m has, length-uris_of target.upstreams) in
    let size : suc (max_retries_of target) ≡ length (uris_of target.upstreams) =
      ground (arith, length-uris_of target.upstreams) in
    let (status, answer, is, fine) =
      loop-Finds uris http policy world call (ltb 1 (length target.upstreams)) (is_stream body)
        (max_retries_of target) others spares builds (uris_of target.upstreams) (ground arith) size
        d (rw (at_hand, may) refl) m has good (suc (max_retries_of target))
        (start uris http policy world call target body headers) q ending (omega arith)
        (refl, tt, λ a h. absurd h, refl, refl) (λ h. h) e in
    (status, answer, q, rw (← is) e, fine)
