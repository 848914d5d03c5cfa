-- ===== src/Circuit/Probe.antt =====
-- One probe at a time, given out exactly when the node is available, and given back when aborted.
use praeco_rs.Prelude.{
  ℕ, ◌+◌, ◌≤◌, ◌<◌, ◌≡◌, ◌≢◌, ◌↔◌, true, false, List, [], ◌∷◌, arith, refl, if◌then◌else◌,
}
use praeco_rs.Circuit.{UpstreamNode, try_enter_half_open_probe, is_available, guard_new, guard_drop}
use praeco_rs.Circuit.Invariant.{IsConsistent}

module _ {Uri : Type 0} where
  -- Callers that try one after the other, each with a cooldown and a time; how many claim a probe.
  pub claims : List (ℕ × ℕ) → UpstreamNode Uri → ℕ
  claims [] n = 0
  claims ((cooldown, now) ∷ rest) n =
      let (n', claimed) = try_enter_half_open_probe cooldown now n in
      (if claimed then 1 else 0) + claims rest n'

  claims-in_flight :
      (l : List (ℕ × ℕ)) (n : UpstreamNode Uri)
      → n.half_open_probe_in_flight ≡ true
      → claims l n ≡ 0
  unfolding claims try_enter_half_open_probe
  claims-in_flight [] n h = refl
  claims-in_flight ((cooldown, now) ∷ rest) n h = ground (arith, claims-in_flight rest n h)

  -- However many callers try to probe a node one after the other, at whatever times and with nothing
  -- else happening to the node between them, at most one of them claims the probe.
  pub claims-le-one : (l : List (ℕ × ℕ)) (n : UpstreamNode Uri) → claims l n ≤ 1
  unfolding claims try_enter_half_open_probe
  claims-le-one [] n = omega arith
  claims-le-one ((cooldown, now) ∷ rest) n = ground (
    arith,
    claims-le-one rest n,
    claims-in_flight rest (record n { half_open_probe_in_flight = true; circuit_state = 2 }),
  )

  -- A dead node is available exactly when a probe of it can be claimed, and that is exactly when it
  -- has a failure time, its cooldown is over and no probe is in flight.
  try_enter-iff-is_available :
      (cooldown now : ℕ) (n : UpstreamNode Uri)
      → n.is_alive ≡ false
      → ((try_enter_half_open_probe cooldown now n).1 ≡ is_available cooldown now n)
        × ((is_available cooldown now n ≡ true) ↔ (
            (n.last_failure_time ≢ 0)
            × (n.last_failure_time + cooldown < now)
            × (n.half_open_probe_in_flight ≡ false)))
  unfolding try_enter_half_open_probe is_available
  try_enter-iff-is_available cooldown now n h = ground arith

  -- A probe that is aborted before its verdict leaves no trace: dropping its guard gives back the
  -- node as it was when the probe was claimed.
  guard_drop-guard_new :
      (cooldown now : ℕ) (n : UpstreamNode Uri)
      → IsConsistent n
      → guard_drop (guard_new cooldown now n).1 (guard_new cooldown now n).0 ≡ n
  unfolding guard_drop guard_new try_enter_half_open_probe
  guard_drop-guard_new cooldown now n h = ground arith
