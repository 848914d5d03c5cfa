-- ===== src/Circuit/Threshold.antt =====
-- A closed circuit opens at the failure threshold, not before and not after.
use praeco_rs.Prelude.{
  ℕ, ◌+◌, ◌<◌, ◌≡◌, true, false, List, [], ◌∷◌, arith, max, ltb, leb, length, u64_mod,
}
use praeco_rs.Circuit.{UpstreamNode, record_failure, record_success, mark_alive, state_of, closed}
use praeco_rs.Circuit.Invariant.{IsConsistent}

module _ {Uri : Type 0} where
  -- Failures in a row, at the given times.
  unfoldable pub failures : ℕ → List ℕ → UpstreamNode Uri → UpstreamNode Uri
  unfolding record_failure
  failures threshold [] n = n
  failures threshold (now ∷ rest) n = failures threshold rest (record_failure threshold now n).0

  failures-below :
      (threshold : ℕ) (times : List ℕ) (n : UpstreamNode Uri)
      → n.is_alive ≡ true
      → n.circuit_state ≡ 0
      → n.half_open_probe_in_flight ≡ false
      → threshold < u64_mod
      → n.consecutive_failures + length times < max threshold 1
      → ((failures threshold times n).is_alive ≡ true)
        × ((failures threshold times n).circuit_state ≡ 0)
        × ((failures threshold times n).half_open_probe_in_flight ≡ false)
        × ((failures threshold times n).consecutive_failures
            ≡ n.consecutive_failures + length times)
  unfolding failures record_failure
  failures-below threshold [] n a s p t h = ground arith
  failures-below threshold (now ∷ rest) n a s p t h =
      ground (arith, failures-below threshold rest (record_failure threshold now n).0)

  -- From a success on, a node with a 64-bit threshold stays alive and closed while there have been
  -- fewer failures in a row than the threshold (at least one), and the failure that reaches it
  -- opens the circuit, marks the node dead and stores the time.
  failures-record_success :
      (threshold now : ℕ) (times : List ℕ) (n : UpstreamNode Uri)
      → IsConsistent n
      → threshold < u64_mod
      → length times < max threshold 1
      → let m = failures threshold times (record_success n) in
        (m.is_alive ≡ true)
        × (state_of m ≡ closed)
        × (m.consecutive_failures ≡ length times)
        × ((record_failure threshold now m).1 ≡ leb (max threshold 1) (length times + 1))
        × ((record_failure threshold now m).0.is_alive ≡ ltb (length times + 1) (max threshold 1))
  unfolding record_failure record_success mark_alive state_of
  failures-record_success threshold now times n c t h =
      ground (arith, failures-below threshold times (record_success n))
