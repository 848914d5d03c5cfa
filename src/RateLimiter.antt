-- ===== src/RateLimiter.antt =====
-- The fixed-window rate limiter: server/src/middleware/rate_limiter.rs. Times are in nanoseconds,
-- and a call runs at one instant, its argument `now`; `try_lock` succeeds as the arguments say.
-- The seconds to wait are exact for waits below 2 ^ 22 seconds, where the source's `f64` rounds
-- none of them across a whole second. Log lines and metrics are left out.
pub mod Key
pub mod Spacing
pub mod Capacity
mod Examples
use praeco_rs.Prelude.{
  ℕ, ◌+◌, ◌-◌, ◌*◌, ◌/◌, max, Bool, true, false, ◌&&◌, ltb, leb, if◌then◌else◌, Option, none, some,
  Bytes,
}
use praeco_rs.Net.{IpAddr}
use praeco_rs.DashMap.{DashMap}

abbrev pub second : ℕ
second = 1_000_000_000

pub data RateLimitKey : Type 0 where
  user : Bytes → RateLimitKey
  client_cert : Bytes → RateLimitKey
  ip : IpAddr → RateLimitKey
  global : RateLimitKey

pub record KeyedSimpleEntry : Type 0 where
  pub next_allowed : ℕ
  pub last_seen : ℕ

-- The wait in whole seconds, rounded up, at least one.
unfoldable pub wait_secs : ℕ → ℕ
wait_secs wait = max ((wait + 999_999_999) / second) 1

module _ (table : DashMap RateLimitKey KeyedSimpleEntry) where
  open table use {Map, empty, get, insert, retain, len}

  pub record KeyedSimpleRateLimitStore : Type 0 where
    pub entries : Map
    pub max_entries : ℕ
    pub ttl : ℕ
    pub last_cleanup : ℕ

  unfoldable pub new_limiter : (now max_entries ttl : ℕ) → KeyedSimpleRateLimitStore
  new_limiter now max_entries ttl = record {
    entries = empty;
    max_entries = max_entries;
    ttl = ttl;
    last_cleanup = now;
  }

  unfoldable pub cleanup : ℕ → KeyedSimpleRateLimitStore → KeyedSimpleRateLimitStore
  cleanup now s = record s { entries = retain (λ e. ltb (now - e.last_seen) s.ttl) s.entries }

  unfoldable pub maybe_cleanup :
      (locked : Bool) → ℕ → KeyedSimpleRateLimitStore → KeyedSimpleRateLimitStore
  unfolding cleanup
  maybe_cleanup locked now s =
      if locked && ltb (10 * second) (now - s.last_cleanup)
      then cleanup now (record s { last_cleanup = now })
      else s

  unfoldable pub maybe_cleanup_when_full :
      (locked : Bool) → ℕ → KeyedSimpleRateLimitStore → KeyedSimpleRateLimitStore
  unfolding cleanup
  maybe_cleanup_when_full locked now s =
      if locked && leb second (now - s.last_cleanup)
      then cleanup now (record s { last_cleanup = now })
      else s

  abbrev record_new : ℕ → RateLimitKey → ℕ → KeyedSimpleRateLimitStore → KeyedSimpleRateLimitStore
  record_new now key limit_duration s = record s {
    entries =
        insert key (record { next_allowed = now + limit_duration; last_seen = now }) s.entries;
  }

  -- The slow path: a key that is not in the table.
  unfoldable pub record_unknown :
      (locked : Bool)
      → ℕ
      → RateLimitKey
      → ℕ
      → KeyedSimpleRateLimitStore
      → KeyedSimpleRateLimitStore × Option ℕ
  unfolding maybe_cleanup_when_full
  record_unknown locked now key limit_duration s =
      let t = maybe_cleanup_when_full locked now s in
      if leb s.max_entries (len s.entries)
      then if leb t.max_entries (len t.entries)
        then (t, some 1)
        else (record_new now key limit_duration t, none)
      else (record_new now key limit_duration s, none)

  -- The store, with the cleanup done: the seconds to wait, if the request is refused.
  unfoldable pub check_key :
      (locked : Bool)
      → ℕ
      → RateLimitKey
      → ℕ
      → KeyedSimpleRateLimitStore
      → KeyedSimpleRateLimitStore × Option ℕ
  unfolding record_unknown wait_secs
  check_key locked now key limit_duration s = elim (get key s.entries) [
    | some e ↦
        if ltb now e.next_allowed
        then (
          record s { entries = insert key (record e { last_seen = now }) s.entries },
          some (wait_secs (e.next_allowed - now)),
        )
        else (record_new now key limit_duration s, none)
    | none ↦ record_unknown locked now key limit_duration s
  ]

  unfoldable pub check_and_record :
      (locked locked_again : Bool)
      → ℕ
      → RateLimitKey
      → ℕ
      → KeyedSimpleRateLimitStore
      → KeyedSimpleRateLimitStore × Option ℕ
  unfolding maybe_cleanup check_key
  check_and_record locked locked_again now key limit_duration s =
      check_key locked_again now key limit_duration (maybe_cleanup locked now s)
