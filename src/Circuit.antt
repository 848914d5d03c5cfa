-- ===== src/Circuit.antt =====
-- The upstream node and its three-state circuit breaker: `UpstreamNode` of
-- server/src/configuration.rs and `CircuitState`, `is_outlier_status`, `ProbeGuard` of
-- server/src/middleware/router/circuit_breaker.rs.
-- Each atomic field is a field of the record and each method is one atomic step. The clock
-- (seconds since the epoch) is the argument `now`. The sum of a timestamp and a cooldown is exact,
-- where the code panics on a sum above u64::MAX. Log lines are left out.
pub mod Invariant
pub mod Probe
pub mod Threshold
mod Examples
use praeco_rs.Prelude.{
  ℕ, ◌+◌, ◌*◌, ◌/◌, max, Bool, true, false, not, ◌&&◌, ◌||◌, ltb, leb, ◌==◌, if◌then◌else◌,
  wrapping_add, saturated,
}

pub data CircuitState : Type 0 where
  closed opened half_open : CircuitState

unfoldable pub from_u8 : ℕ → CircuitState
from_u8 val = if val == 1 then opened else if val == 2 then half_open else closed

abbrev pub closed_u8 : ℕ
closed_u8 = 0

abbrev pub open_u8 : ℕ
open_u8 = 1

abbrev pub half_open_u8 : ℕ
half_open_u8 = 2

-- 502 Bad Gateway, 503 Service Unavailable, 504 Gateway Timeout.
unfoldable pub is_outlier_status : ℕ → Bool
is_outlier_status status = status == 502 || status == 503 || status == 504

pub record UpstreamNode (Uri : Type 0) : Type 0 where
  pub uri : Uri
  pub active_connections : ℕ
  pub is_alive : Bool
  pub last_failure_time : ℕ
  pub current_score : ℕ
  pub consecutive_failures : ℕ
  pub circuit_state : ℕ
  pub half_open_probe_in_flight : Bool
  pub total_requests : ℕ
  pub total_failures : ℕ
  pub circuit_trips : ℕ
  pub failover_retries : ℕ
  pub last_response_ms : ℕ
  pub ema_response_ms : ℕ

pub record ProbeGuard : Type 0 where
  pub is_probe : Bool
  pub completed : Bool

unfoldable pub guard_complete : ProbeGuard → ProbeGuard
guard_complete g = record g { completed = true }

module _ {Uri : Type 0} where
  unfoldable pub new_node : Uri → UpstreamNode Uri
  new_node uri = record {
    uri = uri;
    active_connections = 0;
    is_alive = true;
    last_failure_time = 0;
    current_score = 0;
    consecutive_failures = 0;
    circuit_state = closed_u8;
    half_open_probe_in_flight = false;
    total_requests = 0;
    total_failures = 0;
    circuit_trips = 0;
    failover_retries = 0;
    last_response_ms = 0;
    ema_response_ms = 0;
  }

  unfoldable pub record_latency_ms : ℕ → UpstreamNode Uri → UpstreamNode Uri
  record_latency_ms sample_ms n = record n {
    last_response_ms = sample_ms;
    ema_response_ms =
        if n.ema_response_ms == 0
        then sample_ms
        else saturated (saturated (n.ema_response_ms * 3) + sample_ms) / 4;
  }

  unfoldable pub state_of : UpstreamNode Uri → CircuitState
  unfolding from_u8
  state_of n = from_u8 n.circuit_state

  unfoldable pub mark_dead : ℕ → UpstreamNode Uri → UpstreamNode Uri
  mark_dead now n = record n {
    total_failures = wrapping_add n.total_failures 1;
    is_alive = false;
    circuit_state = open_u8;
    half_open_probe_in_flight = false;
    last_failure_time = now;
    circuit_trips =
        if n.is_alive || not (n.circuit_state == open_u8)
        then wrapping_add n.circuit_trips 1
        else n.circuit_trips;
  }

  unfoldable pub mark_alive : UpstreamNode Uri → UpstreamNode Uri
  mark_alive n = record n {
    consecutive_failures = 0;
    half_open_probe_in_flight = false;
    circuit_state = closed_u8;
    is_alive = true;
    last_failure_time = 0;
  }

  unfoldable pub record_success : UpstreamNode Uri → UpstreamNode Uri
  unfolding mark_alive
  record_success n = if not n.is_alive || ltb 0 n.consecutive_failures then mark_alive n else n

  -- The test of `record_failure`, on the counter before the call.
  unfoldable pub trips : ℕ → UpstreamNode Uri → Bool
  trips failure_threshold n =
      n.half_open_probe_in_flight
      || n.circuit_state == half_open_u8
      || leb (max failure_threshold 1) (wrapping_add n.consecutive_failures 1)

  -- The new node, and whether the circuit tripped.
  unfoldable pub record_failure : ℕ → ℕ → UpstreamNode Uri → UpstreamNode Uri × Bool
  unfolding trips mark_dead
  record_failure failure_threshold now n =
      let counted = record n {
        consecutive_failures = wrapping_add n.consecutive_failures 1;
        half_open_probe_in_flight = false;
      } in
      if trips failure_threshold n
      then (mark_dead now counted, true)
      else (record counted { total_failures = wrapping_add n.total_failures 1 }, false)

  -- The new node, and whether this caller claimed the probe.
  unfoldable pub try_enter_half_open_probe : ℕ → ℕ → UpstreamNode Uri → UpstreamNode Uri × Bool
  try_enter_half_open_probe cooldown_seconds now n =
      if n.is_alive
      then (n, false)
      else if n.last_failure_time == 0
      then (n, false)
      else if leb now (n.last_failure_time + cooldown_seconds)
      then (n, false)
      else if n.half_open_probe_in_flight
      then (n, false)
      else (record n { half_open_probe_in_flight = true; circuit_state = half_open_u8 }, true)

  unfoldable pub is_available : ℕ → ℕ → UpstreamNode Uri → Bool
  is_available cooldown_seconds now n =
      if n.is_alive
      then true
      else if n.half_open_probe_in_flight
      then false
      else if n.last_failure_time == 0
      then false
      else ltb (n.last_failure_time + cooldown_seconds) now

  -- `ProbeGuard::new` and `drop`. The guard's node is passed along.
  unfoldable pub guard_new : ℕ → ℕ → UpstreamNode Uri → UpstreamNode Uri × ProbeGuard
  unfolding try_enter_half_open_probe
  guard_new cooldown_seconds now n =
      let (n', claimed) = try_enter_half_open_probe cooldown_seconds now n in
      (n', record { is_probe = claimed; completed = false })

  unfoldable pub guard_drop : ProbeGuard → UpstreamNode Uri → UpstreamNode Uri
  guard_drop g n =
      if g.is_probe && not g.completed
      then record n { half_open_probe_in_flight = false; circuit_state = open_u8 }
      else n
