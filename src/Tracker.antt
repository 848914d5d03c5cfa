-- ===== src/Tracker.antt =====
-- The connection tracker: server/src/connection_tracker.rs.
-- Each call is one atomic step. The atomic counter wraps at 2 ^ 64; the checked `+= 1` and `-= 1`
-- on an entry are exact.
pub mod Guards
pub mod History
mod Examples
use praeco_rs.Prelude.{
  ℕ, ◌+◌, ◌-◌, Bool, true, false, ◌||◌, leb, if◌then◌else◌, Option, none, some, wrapping_add,
  wrapping_sub,
}
use praeco_rs.Net.{IpAddr, is_unspecified, canonical_client_ip}
use praeco_rs.DashMap.{DashMap}

pub data AcquireError : Type 0 where
  global_limit_reached : (current max : ℕ) → AcquireError
  ip_limit_reached : (ip : IpAddr) (current max : ℕ) → AcquireError

-- A guard is the address that it counts for. `granted` carries the new guard.
pub data Acquired : Type 0 where
  granted : Option IpAddr → Acquired
  refused : AcquireError → Acquired

-- `Option::map` and `unwrap_or(0)`.
abbrev pub canonical : Option IpAddr → Option IpAddr
canonical none = none
canonical (some ip) = some (canonical_client_ip ip)

abbrev pub or_zero : Option ℕ → ℕ
or_zero none = 0
or_zero (some n) = n

module _ (counts : DashMap IpAddr ℕ) where
  open counts use {Map, empty, get, insert, remove}

  pub record ConnectionTracker : Type 0 where
    pub current_connections : ℕ
    pub max_connections : ℕ
    pub ip_counts : Map
    pub max_connections_per_ip : ℕ

  unfoldable pub new_tracker : ℕ → ℕ → ConnectionTracker
  new_tracker max_connections max_connections_per_ip = record {
    current_connections = 0;
    max_connections = max_connections;
    ip_counts = empty;
    max_connections_per_ip = max_connections_per_ip;
  }

  -- `entry(ip).or_insert(0)`, the limit, and `+= 1`: the counts, and whether one was added.
  unfoldable pub count_up : ℕ → IpAddr → Map → Map × Bool
  count_up limit ip m =
      if leb limit (or_zero (get ip m))
      then (insert ip (or_zero (get ip m)) m, false)
      else (insert ip (or_zero (get ip m) + 1) m, true)

  -- The second half of `acquire`, after the global counter was raised.
  unfoldable pub acquire_ip : Option IpAddr → ConnectionTracker → ConnectionTracker × Acquired
  unfolding count_up is_unspecified
  acquire_ip none t = (t, granted none)
  acquire_ip (some ip) t =
      if is_unspecified ip
      then (t, granted (some ip))
      else let (m, added) = count_up t.max_connections_per_ip ip t.ip_counts in
        if added then (record t { ip_counts = m }, granted (some ip)) else (
          record t { ip_counts = m; current_connections = wrapping_sub t.current_connections 1 },
          refused (ip_limit_reached ip (or_zero (get ip t.ip_counts)) t.max_connections_per_ip),
        )

  unfoldable pub acquire : Option IpAddr → ConnectionTracker → ConnectionTracker × Acquired
  unfolding acquire_ip
  acquire ip t =
      let raised = record t { current_connections = wrapping_add t.current_connections 1 } in
      if leb t.max_connections t.current_connections
      then (
        record raised { current_connections = wrapping_sub raised.current_connections 1 },
        refused (global_limit_reached t.current_connections t.max_connections),
      )
      else acquire_ip (canonical ip) raised

  -- The occupied entry of `release`.
  unfoldable pub count_down : IpAddr → Map → Map
  count_down ip m = elim (get ip m) [
    | none ↦ m
    | some n ↦ if leb n 1 then remove ip m else insert ip (n - 1) m
  ]

  unfoldable pub release_ip : Option IpAddr → Map → Map
  unfolding count_down is_unspecified
  release_ip none m = m
  release_ip (some ip) m = if is_unspecified ip then m else count_down ip m

  -- `ConnectionGuard::drop`.
  unfoldable pub release : Option IpAddr → ConnectionTracker → ConnectionTracker
  unfolding release_ip
  release ip t = record t {
    current_connections = wrapping_sub t.current_connections 1;
    ip_counts = release_ip (canonical ip) t.ip_counts;
  }

  unfoldable pub connections_for_ip : IpAddr → ConnectionTracker → ℕ
  connections_for_ip ip t = or_zero (get (canonical_client_ip ip) t.ip_counts)

  abbrev is_bound : Option IpAddr → Bool
  is_bound none = false
  is_bound (some ip) = true

  -- `bind_ip` on a guard: the tracker, the guard, and the error if there is one.
  unfoldable pub bind_ip :
      IpAddr
      → Option IpAddr
      → ConnectionTracker
      → ConnectionTracker × Option IpAddr × Option AcquireError
  unfolding count_up is_unspecified
  bind_ip ip guard t =
      let key = canonical_client_ip ip in
      if is_unspecified key || is_bound guard
      then (t, guard, none)
      else let (m, added) = count_up t.max_connections_per_ip key t.ip_counts in
        if added then (record t { ip_counts = m }, some key, none) else (
          record t { ip_counts = m },
          guard,
          some (ip_limit_reached key (or_zero (get key t.ip_counts)) t.max_connections_per_ip),
        )
