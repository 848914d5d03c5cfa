-- ===== src/Relay/Overlap.antt =====
-- Calls of `RelayConnectionTracker` of relay-server/src/main.rs that overlap: each operation on the
-- counter or the map is a step, and steps of different calls come in any order. `workers` is how
-- many calls of `acquire` are under way at most.
use praeco_rs.Prelude.{
  ℕ, ◌+◌, ◌-◌, Bool, ltb, leb, if◌then◌else◌, Option, none, some, List, [], ◌∷◌, length, get_elem?,
  erase_idx, wrapping_add, wrapping_sub,
}
use praeco_rs.Net.{IpAddr}
use praeco_rs.DashMap.{DashMap}
use praeco_rs.Tracker.{or_zero}
use praeco_rs.Relay.Limits.{canonicalize_ip, RelayConnectionTracker, new_tracker, lower_entry}

-- A call is named by its place among those that wait for the same step.
pub data Event : Type 0 where
  -- `acquire`: the raise of the global count, the entry, and the raise taken back.
  raise : (raw_ip : IpAddr) → Event
  enter : ℕ → Event
  undo : Event
  -- `drop`: the global count, the entry, and its removal.
  leave : ℕ → Event
  lower : ℕ → Event
  remove_entry : ℕ → Event

module _ (counts : DashMap IpAddr ℕ) where
  open counts use {get, insert, remove}

  pub record Server : Type 0 where
    pub tracker : RelayConnectionTracker counts
    -- Past the global check; to take the raise back; alive; to lower an entry; to remove one.
    pub passed : List IpAddr
    pub undoing : ℕ
    pub guards : List IpAddr
    pub leaving : List IpAddr
    pub removing : List IpAddr

  abbrev pub raised : Server → IpAddr → (refused : Bool) → Server
  raised s raw_ip refused =
      let t = record s.tracker { global_count = wrapping_add s.tracker.global_count 1 } in
      if refused
      then record s { tracker = t; undoing = s.undoing + 1 }
      else record s { tracker = t; passed = canonicalize_ip raw_ip ∷ s.passed }

  abbrev pub entered : Server → ℕ → Option IpAddr → Server
  entered s i none = s
  entered s i (some ip) =
      let entry = or_zero (get ip s.tracker.ip_counts) in
      if leb s.tracker.max_per_ip entry
      then record s {
        tracker = record s.tracker { ip_counts = insert ip entry s.tracker.ip_counts };
        passed = erase_idx s.passed i;
        undoing = s.undoing + 1;
      }
      else record s {
        tracker = record s.tracker { ip_counts = insert ip (entry + 1) s.tracker.ip_counts };
        passed = erase_idx s.passed i;
        guards = ip ∷ s.guards;
      }

  abbrev pub left : Server → ℕ → Option IpAddr → Server
  left s i none = s
  left s i (some ip) = record s {
    tracker = record s.tracker { global_count = wrapping_sub s.tracker.global_count 1 };
    guards = erase_idx s.guards i;
    leaving = ip ∷ s.leaving;
  }

  abbrev pub lowered : Server → ℕ → Option IpAddr → Server
  lowered s i none = s
  lowered s i (some ip) =
      let (m, gone) = lower_entry counts ip s.tracker.ip_counts (get ip s.tracker.ip_counts) in
      record s {
        tracker = record s.tracker { ip_counts = m };
        leaving = erase_idx s.leaving i;
        removing = if gone then ip ∷ s.removing else s.removing;
      }

  abbrev pub removed : Server → ℕ → Option IpAddr → Server
  removed s i none = s
  removed s i (some ip) = record s {
    tracker = record s.tracker { ip_counts = remove ip s.tracker.ip_counts };
    removing = erase_idx s.removing i;
  }

  unfoldable pub step : (workers : ℕ) → Server → Event → Server
  unfolding canonicalize_ip
  step workers s (raise raw_ip) =
      if ltb (s.undoing + length s.passed) workers
      then raised s raw_ip (leb s.tracker.max_global s.tracker.global_count)
      else s
  step workers s (enter i) = entered s i (get_elem? s.passed i)
  step workers s undo =
      if ltb 0 s.undoing
      then record s {
        tracker = record s.tracker { global_count = wrapping_sub s.tracker.global_count 1 };
        undoing = s.undoing - 1;
      }
      else s
  step workers s (leave i) = left s i (get_elem? s.guards i)
  step workers s (lower i) = lowered s i (get_elem? s.leaving i)
  step workers s (remove_entry i) = removed s i (get_elem? s.removing i)

  unfoldable pub run : (workers : ℕ) → Server → List Event → Server
  unfolding step
  run workers s [] = s
  run workers s (e ∷ es) = run workers (step workers s e) es

  unfoldable pub empty_server : (max_global max_per_ip : ℕ) → Server
  unfolding new_tracker
  empty_server max_global max_per_ip = record {
    tracker = new_tracker counts max_global max_per_ip;
    passed = [];
    undoing = 0;
    guards = [];
    leaving = [];
    removing = [];
  }
