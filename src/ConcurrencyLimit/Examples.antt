-- ===== src/ConcurrencyLimit/Examples.antt =====
-- Two requests at a limit of one.
use praeco_rs.Prelude.{◌-◌, ◌≤◌, ◌≡◌, refl, true, none, [], ◌∷◌}
use praeco_rs.ConcurrencyLimit.{
  Limiter, processing, finished, with_config, call, called, Reach, here, next,
}
use praeco_rs.ConcurrencyLimit.Permits.{in_flight, Reach-in_flight_le}

abbrev busy : Limiter
busy = call (call (with_config 1 true none))

sheds : busy.requests ≡ processing ∷ finished ∷ []
unfolding call with_config
sheds = refl

busy_reached : Reach (with_config 1 true none) busy
busy_reached = next (next here (called _)) (called _)

Reach-in_flight_le_example : (in_flight busy ≤ 1) × (busy.free ≡ 1 - in_flight busy)
Reach-in_flight_le_example = Reach-in_flight_le 1 true none busy busy_reached
