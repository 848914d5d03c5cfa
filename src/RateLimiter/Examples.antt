-- ===== src/RateLimiter/Examples.antt =====
-- Requests at the fixed-window limiter, and its theorems at them.
use praeco_rs.Prelude.{
  ℕ, ◌+◌, ◌*◌, ◌≡◌, ◌↔◌, refl, Bool, true, false, Option, none, some, List, [], ◌∷◌, Bytes,
  bytes_eq, bytes_eq_iff, arith,
}
use praeco_rs.Net.{IpAddr, v4, ip_eq, ip_eq_iff}
use praeco_rs.DashMap.{DashMap, assoc}
use praeco_rs.RateLimiter.{
  second, RateLimitKey, user, client_cert, ip, global, KeyedSimpleEntry, KeyedSimpleRateLimitStore,
  new_limiter, check_and_record, wait_secs,
}
use praeco_rs.RateLimiter.Key.{Identified}
use praeco_rs.RateLimiter.Spacing.{Arrival, allowed_times}

abbrev key_eq : RateLimitKey → RateLimitKey → Bool
key_eq (user a) (user b) = bytes_eq a b
key_eq (client_cert a) (client_cert b) = bytes_eq a b
key_eq (ip a) (ip b) = ip_eq a b
key_eq global global = true
key_eq a b = false

key_eq_iff : (a b : RateLimitKey) → (key_eq a b ≡ true) ↔ (a ≡ b)
key_eq_iff (user a) (user b) = ground (arith, bytes_eq_iff a b)
key_eq_iff (user a) (client_cert b) = ground arith
key_eq_iff (user a) (ip b) = ground arith
key_eq_iff (user a) global = ground arith
key_eq_iff (client_cert a) (user b) = ground arith
key_eq_iff (client_cert a) (client_cert b) = ground (arith, bytes_eq_iff a b)
key_eq_iff (client_cert a) (ip b) = ground arith
key_eq_iff (client_cert a) global = ground arith
key_eq_iff (ip a) (user b) = ground arith
key_eq_iff (ip a) (client_cert b) = ground arith
key_eq_iff (ip a) (ip b) = ground (arith, ip_eq_iff a b)
key_eq_iff (ip a) global = ground arith
key_eq_iff global (user b) = ground arith
key_eq_iff global (client_cert b) = ground arith
key_eq_iff global (ip b) = ground arith
key_eq_iff global global = ground arith

abbrev table : DashMap RateLimitKey KeyedSimpleEntry
unfolding assoc
table = assoc key_eq key_eq_iff

abbrev limiter : KeyedSimpleRateLimitStore table
unfolding new_limiter
limiter = new_limiter table 0 2 (300 * second)

abbrev arrival : ℕ → RateLimitKey → Arrival
arrival now key = record { locked = true; locked_again = false; now = now; key = key }

abbrev arrivals : List Arrival
arrivals =
    arrival 5 (ip (v4 10))
    ∷ arrival 6 (ip (v4 10))
    ∷ arrival 7 global
    ∷ arrival second (ip (v4 11))
    ∷ arrival (2 * second) (ip (v4 10))
    ∷ []

-- The third key finds the table full; the second request of the first key comes too early.
let_through :
    (allowed_times table (ip (v4 10)) second arrivals limiter ≡ 5 ∷ 2 * second ∷ [])
    × (allowed_times table (ip (v4 11)) second arrivals limiter ≡ [])
    × (wait_secs (second + 1) ≡ 2)
unfolding allowed_times table limiter check_and_record wait_secs
let_through = (refl, refl, refl)

abbrev identified : Identified
identified = record {
  claims_sub = none;
  san = none;
  client = record { peer = some (v4 10); x_forwarded_for = none; x_real_ip = none };
}

abbrev parse_ip : Bytes → Option IpAddr
parse_ip text = some (v4 12)
