-- ===== src/Circuit/Examples.antt =====
-- Runs of the breaker, and the theorems about it at concrete nodes.
use praeco_rs.Prelude.{ℕ, ◌≤◌, ◌≡◌, ◌⊎◌, refl, true, false, List, [], ◌∷◌}
use praeco_rs.Circuit.{UpstreamNode, ProbeGuard, new_node, is_available, state_of, closed, opened}
use praeco_rs.Circuit.Invariant.{
  IsConsistent, IsDesynced, Event, dead, alive, failure, probe, guard_dropped, run, has_late_drop,
  run-IsConsistent,
}
use praeco_rs.Circuit.Probe.{claims, claims-le-one}
use praeco_rs.Circuit.Threshold.{failures}

abbrev fresh : UpstreamNode ℕ
fresh = run (new_node 7) []

abbrev failed : UpstreamNode ℕ
failed = run (new_node 7) (dead 100 ∷ [])

abbrev abandoned : ProbeGuard
abandoned = record { is_probe = true; completed = false }

abbrev events : List Event
events = failure 3 50 ∷ dead 100 ∷ probe 10 111 ∷ failure 3 112 ∷ guard_dropped abandoned ∷ []

third_failure_opens :
    (state_of (failures 3 (1 ∷ 2 ∷ []) fresh) ≡ closed)
    × (state_of (failures 3 (1 ∷ 2 ∷ 3 ∷ []) fresh) ≡ opened)
unfolding run new_node failures state_of
third_failure_opens = (refl, refl)

cooldown_ends : (is_available 10 110 failed ≡ false) × (is_available 10 111 failed ≡ true)
unfolding run new_node is_available
cooldown_ends = (refl, refl)

-- The node is marked alive while its probe is out, which is then given up.
abbrev late_events : List Event
late_events = dead 100 ∷ probe 10 111 ∷ alive ∷ guard_dropped abandoned ∷ []

desynced : IsDesynced (run (new_node {Uri = ℕ} 7) late_events)
unfolding run new_node
desynced = (refl, refl, refl)

run-IsConsistent_example :
    IsConsistent (run (new_node {Uri = ℕ} 7) events)
    ⊎ (IsDesynced (run (new_node {Uri = ℕ} 7) events)
        × (has_late_drop (new_node {Uri = ℕ} 7) events ≡ true))
run-IsConsistent_example = run-IsConsistent 7 events

claims-le-one_example : claims ((10, 111) ∷ (10, 112) ∷ []) failed ≤ 1
claims-le-one_example = claims-le-one ((10, 111) ∷ (10, 112) ∷ []) failed
