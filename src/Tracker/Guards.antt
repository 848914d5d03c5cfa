-- ===== src/Tracker/Guards.antt =====
-- The tracker with its live guards, as a server has them, and one entry of its table of counts.
use praeco_rs.Prelude.{
  ℕ, zero, suc, ◌+◌, ◌-◌, ◌≤◌, ◌<◌, ◌≡◌, refl, true, Option, none, some, List, [], ◌∷◌,
  if◌then◌else◌, length, get_elem?, set, erase_idx, sum_map, All, arith, leb,
}
use praeco_rs.Net.{IpAddr, is_unspecified}
use praeco_rs.Net.Canonical.{canonical_client_ip_idempotent}
use praeco_rs.DashMap.{DashMap}
use praeco_rs.Tracker.{
  Acquired, granted, refused, canonical, or_zero, ConnectionTracker, count_up, acquire, count_down,
  release, bind_ip,
}

pub data Event : Type 0 where
  connect : Option IpAddr → Event
  -- A guard, by its place among the live ones.
  bind : ℕ → IpAddr → Event
  disconnect : ℕ → Event

module _ (counts : DashMap IpAddr ℕ) where
  open counts use {
    Map, same, empty, get, insert, remove, same_iff, get-empty, get-insert, get-remove,
  }

  pub record Server : Type 0 where
    pub tracker : ConnectionTracker counts
    pub guards : List (Option IpAddr)

  unfoldable pub add_guard : Server → ConnectionTracker counts × Acquired → Server
  add_guard s (t, granted ip) = record { tracker = t; guards = ip ∷ s.guards }
  add_guard s (t, refused e) = record s { tracker = t }

  unfoldable pub bind_guard : Server → ℕ → IpAddr → Option (Option IpAddr) → Server
  bind_guard s i ip none = s
  bind_guard s i ip (some g) =
      let (t, g', e) = bind_ip counts ip g s.tracker in
      record { tracker = t; guards = set s.guards i g' }

  unfoldable pub drop_guard : Server → ℕ → Option (Option IpAddr) → Server
  drop_guard s i none = s
  drop_guard s i (some g) = record {
    tracker = release counts g s.tracker;
    guards = erase_idx s.guards i;
  }

  unfoldable pub step : Server → Event → Server
  unfolding add_guard bind_guard drop_guard acquire bind_ip release
  step s (connect ip) = add_guard s (acquire counts ip s.tracker)
  step s (bind i ip) = bind_guard s i ip (get_elem? s.guards i)
  step s (disconnect i) = drop_guard s i (get_elem? s.guards i)

  unfoldable pub run : Server → List Event → Server
  unfolding step
  run s [] = s
  run s (e ∷ es) = run (step s e) es

  -- Whether a guard counts for an address: one or none.
  unfoldable pub holds : IpAddr → Option IpAddr → ℕ
  holds ip none = 0
  holds ip (some j) = if is_unspecified j then 0 else if same j ip then 1 else 0

  unfoldable pub holders : IpAddr → List (Option IpAddr) → ℕ
  unfolding holds
  holders ip gs = sum_map (holds ip) gs

  -- A count of zero is no entry.
  abbrev pub entry_of : ℕ → Option ℕ
  entry_of zero = none
  entry_of (suc n) = some (suc n)

  abbrev pub IsCanonical : Option IpAddr → Type 0
  IsCanonical g = canonical g ≡ g

  pub record IsTracked (max_connections max_connections_per_ip : ℕ) (s : Server) : Type 0 where
    pub limit : s.tracker.max_connections ≡ max_connections
    pub limit_per_ip : s.tracker.max_connections_per_ip ≡ max_connections_per_ip
    pub total : s.tracker.current_connections ≡ length s.guards
    pub within : length s.guards ≤ max_connections
    pub each : (ip : IpAddr) → get ip s.tracker.ip_counts ≡ entry_of (holders ip s.guards)
    pub per_ip : (ip : IpAddr) → holders ip s.guards ≤ max_connections_per_ip
    pub keys : All IsCanonical s.guards

  pub canonical_idempotent : (ip : Option IpAddr) → IsCanonical (canonical ip)
  canonical_idempotent none = refl
  canonical_idempotent (some ip) = rw (canonical_client_ip_idempotent ip)

  pub or_zero-entry_of : (n : ℕ) → or_zero (entry_of n) ≡ n
  or_zero-entry_of zero = refl
  or_zero-entry_of (suc n) = refl

  pub entry_of-suc : (n : ℕ) → entry_of (n + 1) ≡ some (n + 1)
  entry_of-suc n = ground arith

  pub entry_of-pos : (n : ℕ) → 0 < n → entry_of n ≡ some n
  entry_of-pos zero h = absurd (omega arith)
  entry_of-pos (suc n) h = refl

  -- Counting up on an exact table keeps it exact, on both branches.
  pub count_up_exact :
      (limit : ℕ) (ip j : IpAddr) (m : Map) (n k : ℕ)
      → 0 < limit
      → get ip m ≡ entry_of n
      → get j m ≡ entry_of k
      → (same ip j ≡ true → n ≡ k)
      → n ≤ limit
      → get j (count_up counts limit ip m).0
        ≡ entry_of ((if leb limit n then 0 else if same ip j then 1 else 0) + k)
  unfolding count_up
  count_up_exact limit ip j m n k pos en ek agree le = ground (
    arith,
    get-insert ip j (or_zero (get ip m)) m,
    get-insert ip j (or_zero (get ip m) + 1) m,
    or_zero-entry_of n,
    or_zero-entry_of k,
    entry_of-suc n,
    entry_of-suc k,
    entry_of-pos n,
  )

  pub count_down_exact :
      (ip j : IpAddr) (m : Map) (n k : ℕ)
      → get ip m ≡ entry_of (suc n)
      → get j m ≡ entry_of k
      → (same ip j ≡ true → suc n ≡ k)
      → get j (count_down counts ip m) ≡ entry_of (k - (if same ip j then 1 else 0))
  unfolding count_down
  count_down_exact ip j m n k en ek agree = ground (
    arith,
    get-insert ip j n m,
    get-remove ip j m,
    entry_of-suc k,
    entry_of-pos n,
    entry_of-pos k,
  )
