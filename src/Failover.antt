-- ===== src/Failover.antt =====
-- The failover loop of the proxy handlers: `handle_http_proxy` of
-- server/src/middleware/router/http_proxy.rs and `handle_grpc_passthrough` of grpc_passthrough.rs
-- beside it, which are one loop under two policies. It goes over the operations of the target
-- (Upstreams), of the breaker (Circuit) and of the request body (RetryBody).
-- The upstream, the clock, the random draws and what other requests do to the target while an
-- attempt waits are the record `World`. The reference to the chosen node is its URI, so a target
-- is taken to have no two entries with one URI. Log lines and the trace context are left out.
pub mod Uris
pub mod Request
pub mod Nodes
pub mod Settle
pub mod Errors
pub mod Classify
pub mod Http
pub mod Grpc
pub mod Attempts
pub mod Targets
pub mod Noted
pub mod Distinct
pub mod Healthy
mod Examples
use praeco_rs.Prelude.{
  ℕ, zero, suc, ◌+◌, ◌-◌, ◌<◌, min, Bool, true, false, not, ◌&&◌, leb, ltb, ◌==◌, if◌then◌else◌,
  Option, none, some, List, [], ◌∷◌, ◌++◌, length, wrapping_add, Bytes, codes,
}
use praeco_rs.Circuit.{
  UpstreamNode, ProbeGuard, guard_new, guard_drop, guard_complete, record_latency_ms,
  record_success,
}
use praeco_rs.Upstreams.{
  Chance, RouteTarget, on_first, mark_dead, record_failure, open_connection, close_connection,
  next_upstream,
}
use praeco_rs.RetryBody.{RequestBody, buffered, stream}
use praeco_rs.Http.{Method, ErrorResponse}
use praeco_rs.Http.Headers.{HeaderMap}
use praeco_rs.Failover.Uris.{UriOps, build_upstream_uri}
use praeco_rs.Failover.Request.{
  Refusal, gateway_timeout, payload_too_large, client_closed, bad_gateway, Answer, responded, broke,
  Arrival, Call, Policy, World, Sent, Progress, Ending, refused, passed_on, uri_error, panicked,
  Verdict, retry, finish, is_stream, taken, await_answer, with_host,
}
use praeco_rs.Failover.Nodes.{
  on_node, drop_probe, drop_guards, complete, count_failover, claim_probe, max_retries_of,
}
use praeco_rs.Failover.Settle.{settle}

-- A retry goes on with the loop.
abbrev go_on :
    {Uri Map : Type 0}
    → (Progress Uri Map → Option (Ending Map × Progress Uri Map))
    → Verdict Uri Map
    → Option (Ending Map × Progress Uri Map)
go_on loop (retry p) = loop p
go_on loop (finish ending p) = some (ending, p)

module _ {Uri Ip : Type 0} (uris : UriOps Uri) (http : HeaderMap) (policy : Policy http.Map)
    (world : World Uri Ip http.Map) (call : Call Uri Ip) where
  -- The request that an attempt sends to a node.
  unfoldable pub request_to : Uri → Uri → Progress Uri http.Map → Sent Uri http.Map
  unfolding with_host
  request_to uri target_uri p = record {
    node = uri;
    target_uri = target_uri;
    headers = policy.wire_headers (with_host uris http target_uri p.headers);
    body = p.body;
  }

  -- The progress once the wait is over: the headers are moved out at the last attempt.
  unfoldable pub awaited : ℕ → Uri → Uri → Progress Uri http.Map → Progress Uri http.Map
  unfolding request_to
  awaited max_retries uri target_uri p = record p {
    target = world.meanwhile p.attempts p.target;
    attempts = suc p.attempts;
    headers = if p.attempts == max_retries then http.empty else p.headers;
    body = taken p.body;
    sent = p.sent ++ request_to uri target_uri p ∷ [];
  }

  unfoldable pub may_retry : (streaming : Bool) → (max_retries attempts : ℕ) → Bool
  may_retry streaming max_retries attempts =
      not streaming && policy.is_repeatable call.method && leb attempts max_retries

  -- The request, the wait for its answer, and what is done about it.
  unfoldable pub dispatch :
      (is_multi_node streaming : Bool)
      → (max_retries : ℕ) → Uri
      → Uri
      → Option ProbeGuard
      → Progress Uri http.Map
      → Verdict Uri http.Map
  unfolding settle await_answer awaited may_retry
  dispatch is_multi_node streaming max_retries uri target_uri probe p =
      settle uris policy is_multi_node (may_retry streaming max_retries (suc p.attempts))
        (await_answer call.request_timeout (world.arrival p.attempts uri)) uri probe
        (world.settle_at p.attempts) (world.arrival p.attempts uri).after_ms
        (awaited max_retries uri target_uri p)

  -- The request to the node's URI, once it could be built; else the guards are dropped.
  unfoldable pub send :
      (is_multi_node streaming : Bool)
      → ℕ
      → Uri
      → Option ProbeGuard
      → RouteTarget Uri
      → Option Uri
      → Progress Uri http.Map
      → Verdict Uri http.Map
  unfolding drop_guards dispatch
  send is_multi_node streaming max_retries uri probe opened none p =
      finish uri_error
        (record p { target = drop_guards uris probe uri opened; attempts = suc p.attempts })
  send is_multi_node streaming max_retries uri probe opened (some target_uri) p =
      dispatch is_multi_node streaming max_retries uri target_uri probe
        (record p { target = opened })

  -- The guards on the chosen node, and the request to it.
  unfoldable pub ask :
      (is_multi_node streaming : Bool)
      → ℕ
      → Option (UpstreamNode Uri)
      → RouteTarget Uri
      → Progress Uri http.Map
      → Verdict Uri http.Map
  unfolding claim_probe open_connection build_upstream_uri send
  ask is_multi_node streaming max_retries none target p = finish panicked p
  ask is_multi_node streaming max_retries (some n) target p =
      let claimed = claim_probe uris is_multi_node (world.select_at p.attempts) n target in
      send is_multi_node streaming max_retries n.uri claimed.1
        (open_connection uris.same n.uri claimed.0)
        (build_upstream_uri uris n.uri call.rest call.original_uri) p

  -- One round of the loop. `streaming` is fixed before it.
  unfoldable pub attempt :
      (is_multi_node streaming : Bool)
      → (max_retries : ℕ) → Progress Uri http.Map
      → Verdict Uri http.Map
  unfolding next_upstream ask
  attempt is_multi_node streaming max_retries p =
      let chosen =
        next_upstream uris.same (world.chance p.attempts) (world.select_at p.attempts)
          call.client_addr p.failed_nodes p.target in
      ask is_multi_node streaming max_retries chosen.0 chosen.1 p

  -- The loop, on fuel; `none` means that the fuel ran out.
  unfoldable pub attempts_from :
      ℕ
      → (is_multi_node streaming : Bool) → (max_retries : ℕ) → Progress Uri http.Map
      → Option (Ending http.Map × Progress Uri http.Map)
  unfolding attempt
  attempts_from zero is_multi_node streaming max_retries p = none
  attempts_from (suc fuel) is_multi_node streaming max_retries p =
      go_on (attempts_from fuel is_multi_node streaming max_retries)
        (attempt is_multi_node streaming max_retries p)

  abbrev pub start : RouteTarget Uri → RequestBody → http.Map → Progress Uri http.Map
  start target body headers = record {
    target = target;
    failed_nodes = [];
    attempts = 0;
    headers = headers;
    body = body;
    sent = [];
  }

  -- The handler, with one round more than it may retry as fuel.
  unfoldable pub handle :
      RouteTarget Uri → RequestBody → http.Map → Option (Ending http.Map × Progress Uri http.Map)
  unfolding attempts_from max_retries_of
  handle target body headers =
      attempts_from (suc (max_retries_of target)) (ltb 1 (length target.upstreams)) (is_stream body)
        (max_retries_of target) (start target body headers)
