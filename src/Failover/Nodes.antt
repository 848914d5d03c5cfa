-- ===== src/Failover/Nodes.antt =====
-- What an attempt does to the chosen node of the target.
use praeco_rs.Prelude.{
  ℕ, ◌-◌, min, Bool, ltb, if◌then◌else◌, Option, none, some, length, wrapping_add,
}
use praeco_rs.Circuit.{UpstreamNode, ProbeGuard, guard_new, guard_drop, guard_complete}
use praeco_rs.Upstreams.{RouteTarget, on_first, close_connection}
use praeco_rs.Failover.Uris.{UriOps}

unfoldable pub max_retries_of : {Uri : Type 0} → RouteTarget Uri → ℕ
max_retries_of t =
    if ltb 1 (length t.upstreams) then min t.max_retries (length t.upstreams - 1) else 0

abbrev pub complete : Option ProbeGuard → Option ProbeGuard
complete none = none
complete (some guard) = some (guard_complete guard)

module _ {Uri : Type 0} (uris : UriOps Uri) where
  abbrev pub on_node :
      Uri → (UpstreamNode Uri → UpstreamNode Uri) → RouteTarget Uri → RouteTarget Uri
  on_node uri f t = record t { upstreams = on_first uris.same uri f t.upstreams }

  -- The guards of an attempt, dropped at its end: the connection's, then the probe's.
  unfoldable pub drop_probe : Option ProbeGuard → Uri → RouteTarget Uri → RouteTarget Uri
  unfolding guard_drop
  drop_probe none uri t = t
  drop_probe (some guard) uri t = on_node uri (guard_drop guard) t

  unfoldable pub drop_guards : Option ProbeGuard → Uri → RouteTarget Uri → RouteTarget Uri
  unfolding drop_probe close_connection
  drop_guards probe uri t = drop_probe probe uri (close_connection uris.same uri t)

  unfoldable pub count_failover : Uri → RouteTarget Uri → RouteTarget Uri
  count_failover uri t =
      on_node uri (λ n. record n { failover_retries = wrapping_add n.failover_retries 1 }) t

  -- The probe is claimed on the chosen node itself.
  unfoldable pub claim_probe :
      Bool → ℕ → UpstreamNode Uri → RouteTarget Uri → RouteTarget Uri × Option ProbeGuard
  unfolding guard_new
  claim_probe is_multi_node now n t =
      if is_multi_node
      then (
        on_node n.uri (λ m. (guard_new t.cooldown_seconds now m).0) t,
        some (guard_new t.cooldown_seconds now n).1,
      )
      else (t, none)
