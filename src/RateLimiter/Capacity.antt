-- ===== src/RateLimiter/Capacity.antt =====
-- The bound on the number of keys that the rate limiter keeps.
use praeco_rs.Prelude.{ℕ, ◌+◌, ◌≤◌, ◌≡◌, refl, Bool, inl, inr, Option-cases, arith}
use praeco_rs.DashMap.{DashMap}
use praeco_rs.RateLimiter.{
  RateLimitKey, KeyedSimpleEntry, KeyedSimpleRateLimitStore, maybe_cleanup, maybe_cleanup_when_full,
  cleanup, record_unknown, check_key, check_and_record,
}

module _ (table : DashMap RateLimitKey KeyedSimpleEntry) where
  open table use {get, insert, len, len-insert, len-retain-le, get-retain}

  abbrev pub IsBounded : KeyedSimpleRateLimitStore table → Type 0
  IsBounded s = len s.entries ≤ s.max_entries

  cleanup_le :
      (now : ℕ) (s : KeyedSimpleRateLimitStore table)
      → (len (cleanup table now s).entries ≤ len s.entries)
        × ((cleanup table now s).max_entries ≡ s.max_entries)
  unfolding cleanup
  cleanup_le now s = (len-retain-le _ s.entries, refl)

  maybe_cleanup_le :
      (locked : Bool) (now : ℕ) (s : KeyedSimpleRateLimitStore table)
      → (len (maybe_cleanup table locked now s).entries ≤ len s.entries)
        × ((maybe_cleanup table locked now s).max_entries ≡ s.max_entries)
  unfolding maybe_cleanup
  maybe_cleanup_le locked now s = ground (arith, cleanup_le now (record s { last_cleanup = now }))

  when_full_le :
      (locked : Bool) (now : ℕ) (s : KeyedSimpleRateLimitStore table)
      → (len (maybe_cleanup_when_full table locked now s).entries ≤ len s.entries)
        × ((maybe_cleanup_when_full table locked now s).max_entries ≡ s.max_entries)
  unfolding maybe_cleanup_when_full
  when_full_le locked now s = ground (arith, cleanup_le now (record s { last_cleanup = now }))

  record_unknown-IsBounded :
      (locked : Bool) (now : ℕ) (key : RateLimitKey) (limit : ℕ)
      (s : KeyedSimpleRateLimitStore table)
      → IsBounded s
      → IsBounded (record_unknown table locked now key limit s).0
        × ((record_unknown table locked now key limit s).0.max_entries ≡ s.max_entries)
  unfolding record_unknown
  record_unknown-IsBounded locked now key limit s b = ground (
    arith,
    when_full_le locked now s,
    len-insert key (record { next_allowed = now + limit; last_seen = now }) s.entries,
    len-insert key (record { next_allowed = now + limit; last_seen = now })
        (maybe_cleanup_when_full table locked now s).entries,
  )

  check_key-IsBounded :
      (locked : Bool) (now : ℕ) (key : RateLimitKey) (limit : ℕ)
      (s : KeyedSimpleRateLimitStore table)
      → IsBounded s
      → IsBounded (check_key table locked now key limit s).0
        × ((check_key table locked now key limit s).0.max_entries ≡ s.max_entries)
  unfolding check_key
  check_key-IsBounded locked now key limit s b = elim (Option-cases (get key s.entries)) [
    | inl new ↦ rw (new, check_key) (record_unknown-IsBounded locked now key limit s b)
    | inr (e, known) ↦ ground (
      arith,
      known,
      len-insert key (record { next_allowed = now + limit; last_seen = now }) s.entries,
      len-insert key (record e { last_seen = now }) s.entries,
    )
  ]

  -- However many keys ask, the table never holds more entries than its cap; a request keeps the cap
  -- as it is.
  check_and_record-IsBounded :
      (locked locked_again : Bool) (now : ℕ) (key : RateLimitKey) (limit : ℕ)
      (s : KeyedSimpleRateLimitStore table)
      → IsBounded s
      → IsBounded (check_and_record table locked locked_again now key limit s).0
        × ((check_and_record table locked locked_again now key limit s).0.max_entries
            ≡ s.max_entries)
  unfolding check_and_record
  check_and_record-IsBounded locked locked_again now key limit s b = ground (
    arith,
    maybe_cleanup_le locked now s,
    check_key-IsBounded locked_again now key limit (maybe_cleanup table locked now s),
  )
