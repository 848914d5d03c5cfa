-- ===== src/Relay/Limits.antt =====
-- How many clients are connected at once: `canonicalize_ip`, `RelayConnectionTracker` and
-- `RelayConnectionGuard` of relay-server/src/main.rs, one call after the other; the atomic
-- counter wraps at 2 ^ 64. A guard is the address that it counts for.
use praeco_rs.Prelude.{
  ℕ, ◌+◌, ◌-◌, ◌*◌, ◌/◌, ◌^◌, ◌==◌, leb, if◌then◌else◌, Bool, false, Option, none, some, List, [],
  ◌∷◌, get_elem?, erase_idx, wrapping_add, wrapping_sub,
}
use praeco_rs.Net.{IpAddr, v4, v6, to_ipv4_mapped}
use praeco_rs.DashMap.{DashMap}
use praeco_rs.Tracker.{or_zero}

unfoldable pub canonicalize_ip : IpAddr → IpAddr
unfolding to_ipv4_mapped
canonicalize_ip (v4 a) = v4 a
canonicalize_ip (v6 a) = elim (to_ipv4_mapped a) [ some m ↦ v4 m | none ↦ v6 (a / 2 ^ 64 * 2 ^ 64) ]

-- What a call answers. `granted` carries the new guard.
pub data Answer : Type 0 where
  granted : IpAddr → Answer
  global_limit ip_limit dropped : Answer
  counted : ℕ → Answer

-- A guard is named by its place among the live ones.
pub data Call : Type 0 where
  connect : (raw_ip : IpAddr) → Call
  disconnect : ℕ → Call
  ask_global : Call
  ask_ip : (raw_ip : IpAddr) → Call

module _ (counts : DashMap IpAddr ℕ) where
  open counts use {Map, empty, get, insert, remove}

  pub record RelayConnectionTracker : Type 0 where
    pub max_global : ℕ
    pub max_per_ip : ℕ
    pub global_count : ℕ
    pub ip_counts : Map

  unfoldable pub new_tracker : ℕ → ℕ → RelayConnectionTracker
  new_tracker max_global max_per_ip = record {
    max_global = max_global;
    max_per_ip = max_per_ip;
    global_count = 0;
    ip_counts = empty;
  }

  -- The second check, with the canonical address and after the global count was raised.
  unfoldable pub acquire_ip : IpAddr → RelayConnectionTracker → RelayConnectionTracker × Answer
  acquire_ip ip t =
      let entry = or_zero (get ip t.ip_counts) in
      if leb t.max_per_ip entry
      then (
        record t {
          ip_counts = insert ip entry t.ip_counts;
          global_count = wrapping_sub t.global_count 1;
        },
        ip_limit,
      )
      else (record t { ip_counts = insert ip (entry + 1) t.ip_counts }, granted ip)

  unfoldable pub acquire : IpAddr → RelayConnectionTracker → RelayConnectionTracker × Answer
  unfolding acquire_ip canonicalize_ip
  acquire raw_ip t =
      let raised = record t { global_count = wrapping_add t.global_count 1 } in
      if leb t.max_global t.global_count
      then (record raised { global_count = wrapping_sub raised.global_count 1 }, global_limit)
      else acquire_ip (canonicalize_ip raw_ip) raised

  -- The first hold of the entry in `drop`: the counts, and whether the entry is to be removed.
  abbrev pub lower_entry : IpAddr → Map → Option ℕ → Map × Bool
  lower_entry ip m none = (m, false)
  lower_entry ip m (some count) = (insert ip (count - 1) m, count - 1 == 0)

  -- With the removal, which is an operation of its own.
  abbrev pub lowered : IpAddr → Map → Option ℕ → Map
  lowered ip m o = let (n, gone) = lower_entry ip m o in if gone then remove ip n else n

  -- `drop` of a guard, where no other call comes between its operations.
  unfoldable pub drop_guard : IpAddr → RelayConnectionTracker → RelayConnectionTracker
  drop_guard ip t = record t {
    global_count = wrapping_sub t.global_count 1;
    ip_counts = lowered ip t.ip_counts (get ip t.ip_counts);
  }

  unfoldable pub current_for_ip : IpAddr → RelayConnectionTracker → ℕ
  unfolding canonicalize_ip
  current_for_ip raw_ip t = or_zero (get (canonicalize_ip raw_ip) t.ip_counts)

  -- The tracker with its live guards.
  pub record Server : Type 0 where
    pub tracker : RelayConnectionTracker
    pub guards : List IpAddr

  abbrev pub add_guard : Server → RelayConnectionTracker × Answer → Server × Answer
  add_guard s (t, granted ip) = (record { tracker = t; guards = ip ∷ s.guards }, granted ip)
  add_guard s (t, answer) = (record s { tracker = t }, answer)

  abbrev pub remove_guard : Server → ℕ → Option IpAddr → Server
  remove_guard s i none = s
  remove_guard s i (some ip) = record {
    tracker = drop_guard ip s.tracker;
    guards = erase_idx s.guards i;
  }

  unfoldable pub step : Server → Call → Server × Answer
  unfolding acquire drop_guard current_for_ip
  step s (connect raw_ip) = add_guard s (acquire raw_ip s.tracker)
  step s (disconnect i) = (remove_guard s i (get_elem? s.guards i), dropped)
  step s ask_global = (s, counted s.tracker.global_count)
  step s (ask_ip raw_ip) = (s, counted (current_for_ip raw_ip s.tracker))

  unfoldable pub answers : Server → List Call → List Answer
  unfolding step
  answers s [] = []
  answers s (call ∷ calls) = let (t, answer) = step s call in answer ∷ answers t calls
