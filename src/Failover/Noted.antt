-- ===== src/Failover/Noted.antt =====
-- What a retry notes: the node that failed.
use praeco_rs.Prelude.{
  ℕ, suc, ◌≡◌, refl, ◌∙◌, Bool, true, false, if◌then◌else◌, Option, none, some, [], ◌∷◌, ◌++◌,
}
use praeco_rs.Circuit.{ProbeGuard, record_latency_ms}
use praeco_rs.Upstreams.{RouteTarget, mark_dead, record_failure}
use praeco_rs.Upstreams.Fresh.{uris_of}
use praeco_rs.Http.Headers.{HeaderMap}
use praeco_rs.Failover.Uris.{UriOps}
use praeco_rs.Failover.Errors.{
  kind_payload_too_large, kind_decompression_limit, kind_client_aborted, kind_upstream_failure,
  error_kind,
}
use praeco_rs.Failover.Request.{
  Refusal, Answer, responded, broke, Call, Policy, World, Progress, Verdict, retry, finish,
  await_answer,
}
use praeco_rs.Failover.Nodes.{on_node, drop_guards, complete, count_failover}
use praeco_rs.Failover.Settle.{node_failed, node_responded, node_broke, settle}
use praeco_rs.Failover.{awaited, may_retry, dispatch}
use praeco_rs.Failover.Targets.{
  KeepsUris, drop_guards-KeepsUris, mark_dead-KeepsUris, count_failover-KeepsUris,
  record_failure-KeepsUris, record_latency-KeepsUris,
}

-- A retry has the node among those that failed, and leaves the target's URIs.
abbrev pub Noted : {Uri Map : Type 0} → Bool → Uri → Progress Uri Map → Verdict Uri Map → Type 0
Noted is_multi_node uri p (retry q) =
    (is_multi_node ≡ true → q.failed_nodes ≡ p.failed_nodes ++ uri ∷ [])
    × (uris_of q.target.upstreams ≡ uris_of p.target.upstreams)
Noted is_multi_node uri p (finish ending q) = Unit

module _ {Uri Map : Type 0} (uris : UriOps Uri) (policy : Policy Map) (uri : Uri) where
  close-KeepsUris :
      (probe : Option ProbeGuard) (f : RouteTarget Uri → RouteTarget Uri)
      → KeepsUris uris f
      → KeepsUris uris (λ t. drop_guards uris (complete probe) uri (count_failover uris uri (f t)))
  close-KeepsUris probe f keeps t =
      drop_guards-KeepsUris uris (complete probe) uri _
      ∙ (count_failover-KeepsUris uris uri (f t) ∙ keeps t)

  node_failed-Noted :
      (is_multi_node may : Bool) (refusal : Refusal) (probe : Option ProbeGuard) (now : ℕ)
      (p : Progress Uri Map)
      → Noted is_multi_node uri p (node_failed uris policy may refusal uri probe now p)
  unfolding node_failed
  node_failed-Noted is_multi_node true refusal probe now p = (
    λ m. refl,
    close-KeepsUris probe (mark_dead uris.same now uri) (mark_dead-KeepsUris uris now uri) p.target,
  )
  node_failed-Noted is_multi_node false refusal probe now p = tt

  responded-Noted :
      (is_multi_node outlier may : Bool) (again no_more last : Verdict Uri Map)
      (p : Progress Uri Map)
      → Noted is_multi_node uri p again
      → Noted is_multi_node uri p no_more
      → Noted is_multi_node uri p last
      → Noted is_multi_node uri p (if outlier then if may then again else no_more else last)
  responded-Noted is_multi_node true true again no_more last p a b c = a
  responded-Noted is_multi_node true false again no_more last p a b c = b
  responded-Noted is_multi_node false may again no_more last p a b c = c

  settle-Noted :
      (is_multi_node may : Bool) (end : Option (Answer Map)) (probe : Option ProbeGuard)
      (now elapsed_ms : ℕ) (p : Progress Uri Map)
      → Noted is_multi_node uri p
          (settle uris policy is_multi_node may end uri probe now elapsed_ms p)
  unfolding settle
  settle-Noted is_multi_node may none probe now elapsed_ms p =
      node_failed-Noted is_multi_node may _ probe now p
  settle-Noted is_multi_node may (some (responded status headers)) probe now elapsed_ms p =
      unfold node_responded in
      responded-Noted is_multi_node (policy.is_outlier status headers) may _ _ _ p
        (
          λ m. rw m refl,
          close-KeepsUris probe
              (λ t.
                (record_failure uris.same now uri
                  (on_node uris uri (record_latency_ms elapsed_ms) t)).0)
              (λ t.
                record_failure-KeepsUris uris now uri
                  (on_node uris uri (record_latency_ms elapsed_ms) t)
                ∙ record_latency-KeepsUris uris elapsed_ms uri t)
              p.target,
        )
        tt tt
  settle-Noted is_multi_node may (some (broke recorded e)) probe now elapsed_ms p =
      elim (error_kind recorded e)
        as (λ k. Noted is_multi_node uri p (node_broke uris policy may k uri probe now p)) [
          | kind_upstream_failure ↦
              unfold node_broke in node_failed-Noted is_multi_node may _ probe now p
          | kind_payload_too_large ↦ unfold node_broke in tt
          | kind_decompression_limit ↦ unfold node_broke in tt
          | kind_client_aborted reason ↦ unfold node_broke in tt
        ]

module _ {Uri Ip : Type 0} (uris : UriOps Uri) (http : HeaderMap) (policy : Policy http.Map)
    (world : World Uri Ip http.Map) (call : Call Uri Ip) (is_multi_node streaming : Bool)
    (max_retries : ℕ) (others : (k : ℕ) → KeepsUris uris (world.meanwhile k)) where
  pub dispatch-Noted :
      (uri target_uri : Uri) (probe : Option ProbeGuard) (p : Progress Uri http.Map)
      → Noted is_multi_node uri p (
          dispatch uris http policy world call is_multi_node streaming max_retries uri target_uri
            probe p)
  unfolding dispatch
  dispatch-Noted uri target_uri probe p = noted_of_awaited _ (
      settle-Noted uris policy uri is_multi_node
        (may_retry uris http policy world call streaming max_retries (suc p.attempts))
        (await_answer call.request_timeout (world.arrival p.attempts uri)) probe
        (world.settle_at p.attempts) (world.arrival p.attempts uri).after_ms
        (awaited uris http policy world call max_retries uri target_uri p))
    where
      noted_of_awaited :
          (v : Verdict Uri http.Map)
          → Noted is_multi_node uri
              (awaited uris http policy world call max_retries uri target_uri p)
              v
          → Noted is_multi_node uri p v
      noted_of_awaited (retry q) h = unfold awaited in (h.0, h.1 ∙ others p.attempts p.target)
      noted_of_awaited (finish ending q) h = tt
