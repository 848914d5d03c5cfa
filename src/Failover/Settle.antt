-- ===== src/Failover/Settle.antt =====
-- What an attempt does about the end of its wait: the arms after `client.request`.
use praeco_rs.Prelude.{ℕ, Bool, if◌then◌else◌, Option, none, some, [], ◌∷◌, ◌++◌}
use praeco_rs.Circuit.{ProbeGuard, guard_complete, record_latency_ms, record_success}
use praeco_rs.Upstreams.{mark_dead, record_failure}
use praeco_rs.Failover.Uris.{UriOps}
use praeco_rs.Failover.Errors.{
  ProxyErrorKind, kind_payload_too_large, kind_decompression_limit, kind_client_aborted,
  kind_upstream_failure, error_kind,
}
use praeco_rs.Failover.Request.{
  Refusal, gateway_timeout, payload_too_large, client_closed, bad_gateway, Answer, responded, broke,
  Policy, Progress, refused, passed_on, Verdict, retry, finish,
}
use praeco_rs.Failover.Nodes.{on_node, drop_probe, drop_guards, complete, count_failover}

module _ {Uri Map : Type 0} (uris : UriOps Uri) (policy : Policy Map) where
  -- The arms of an attempt whose node failed: timed out or unreachable.
  unfoldable pub node_failed :
      (may_retry : Bool)
      → Refusal
      → Uri
      → Option ProbeGuard
      → ℕ
      → Progress Uri Map
      → Verdict Uri Map
  unfolding drop_guards guard_complete mark_dead count_failover
  node_failed may_retry refusal uri probe now p =
      let dead = mark_dead uris.same now uri p.target in
      let failed = record p { failed_nodes = p.failed_nodes ++ uri ∷ [] } in
      let close = drop_guards uris (complete probe) uri in
      if may_retry
      then retry (record failed { target = close (count_failover uris uri dead) })
      else finish (refused (policy.refuse refusal)) (record failed { target = close dead })

  -- The arm of a response.
  unfoldable pub node_responded :
      (is_multi_node may_retry : Bool)
      → ℕ
      → Map
      → Uri
      → Option ProbeGuard
      → (now elapsed_ms : ℕ) → Progress Uri Map
      → Verdict Uri Map
  unfolding drop_guards drop_probe guard_complete record_failure record_latency_ms record_success
      count_failover
  node_responded is_multi_node may_retry status headers uri probe now elapsed_ms p =
      let timed = on_node uris uri (record_latency_ms elapsed_ms) p.target in
      let counted = (record_failure uris.same now uri timed).0 in
      let failed = record p {
        failed_nodes = if is_multi_node then p.failed_nodes ++ uri ∷ [] else p.failed_nodes;
      } in
      let pass_on = passed_on status (policy.clean_headers headers) in
      if policy.is_outlier status headers
      then if may_retry
        then retry (record failed {
          target = drop_guards uris (complete probe) uri (count_failover uris uri counted);
        })
        else finish pass_on
            (record failed { target = drop_probe uris (complete probe) uri counted })
      else finish pass_on (record p {
        target = drop_probe uris (complete probe) uri (on_node uris uri record_success timed);
      })

  -- The arms of an error, by its kind. The probe is left to the guard when the client is at
  -- fault.
  unfoldable pub node_broke :
      (may_retry : Bool)
      → ProxyErrorKind
      → Uri
      → Option ProbeGuard
      → ℕ
      → Progress Uri Map
      → Verdict Uri Map
  unfolding drop_guards node_failed
  node_broke may_retry kind_upstream_failure uri probe now p =
      node_failed may_retry bad_gateway uri probe now p
  node_broke may_retry kind_payload_too_large uri probe now p =
      finish (refused (policy.refuse payload_too_large))
        (record p { target = drop_guards uris probe uri p.target })
  node_broke may_retry kind_decompression_limit uri probe now p =
      finish (refused (policy.refuse payload_too_large))
        (record p { target = drop_guards uris probe uri p.target })
  node_broke may_retry (kind_client_aborted reason) uri probe now p =
      finish (refused (policy.refuse client_closed))
        (record p { target = drop_guards uris probe uri p.target })

  -- What is done about the end of the wait.
  unfoldable pub settle :
      (is_multi_node may_retry : Bool)
      → Option (Answer Map)
      → Uri
      → Option ProbeGuard
      → (now elapsed_ms : ℕ) → Progress Uri Map
      → Verdict Uri Map
  unfolding node_failed node_responded node_broke error_kind
  settle is_multi_node may_retry none uri probe now elapsed_ms p =
      node_failed may_retry gateway_timeout uri probe now p
  settle is_multi_node may_retry (some (responded status headers)) uri probe now elapsed_ms p =
      node_responded is_multi_node may_retry status headers uri probe now elapsed_ms p
  settle is_multi_node may_retry (some (broke recorded e)) uri probe now elapsed_ms p =
      node_broke may_retry (error_kind recorded e) uri probe now p
