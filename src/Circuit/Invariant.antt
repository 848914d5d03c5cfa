-- ===== src/Circuit/Invariant.antt =====
-- The flags of an upstream node under every operation of the breaker and of its guards.
use praeco_rs.Prelude.{
  ℕ, ◌≡◌, ◌⊎◌, inl, Bool, true, false, not, ◌&&◌, ◌||◌, List, [], ◌∷◌, subst, arith,
}
use praeco_rs.Circuit.{
  UpstreamNode, ProbeGuard, new_node, record_latency_ms, mark_dead, mark_alive, record_success,
  record_failure, try_enter_half_open_probe, guard_drop,
}

-- Closed, open, or half-open with its probe in flight.
abbrev pub IsConsistent : {Uri : Type 0} → UpstreamNode Uri → Type 0
IsConsistent n =
    ((n.is_alive ≡ true) × (n.circuit_state ≡ 0) × (n.half_open_probe_in_flight ≡ false))
    ⊎ (((n.is_alive ≡ false) × (n.circuit_state ≡ 1) × (n.half_open_probe_in_flight ≡ false))
        ⊎ ((n.is_alive ≡ false) × (n.circuit_state ≡ 2) × (n.half_open_probe_in_flight ≡ true)))

-- Alive, so that it is routed to, while its circuit state says open.
abbrev pub IsDesynced : {Uri : Type 0} → UpstreamNode Uri → Type 0
IsDesynced n = (n.is_alive ≡ true) × (n.circuit_state ≡ 1) × (n.half_open_probe_in_flight ≡ false)

-- What can happen to a node; `now` is the time of the call. A guard is dropped with what it is.
pub data Event : Type 0 where
  latency : ℕ → Event
  dead : (now : ℕ) → Event
  alive : Event
  success : Event
  failure : (threshold now : ℕ) → Event
  probe : (cooldown now : ℕ) → Event
  guard_dropped : ProbeGuard → Event

or_swap : (a b c : Bool) → ((b || a) || c) ≡ (a || (b || c))
or_swap a b c = ground arith

module _ {Uri : Type 0} where
  unfoldable pub step : UpstreamNode Uri → Event → UpstreamNode Uri
  unfolding record_latency_ms mark_dead mark_alive record_success record_failure
      try_enter_half_open_probe guard_drop
  step n (latency ms) = record_latency_ms ms n
  step n (dead now) = mark_dead now n
  step n alive = mark_alive n
  step n success = record_success n
  step n (failure threshold now) = (record_failure threshold now n).0
  step n (probe cooldown now) = (try_enter_half_open_probe cooldown now n).0
  step n (guard_dropped g) = guard_drop g n

  unfoldable pub run : UpstreamNode Uri → List Event → UpstreamNode Uri
  unfolding step
  run n [] = n
  run n (e ∷ es) = run (step n e) es

  -- A probe is given up on a node that was marked alive in the meantime.
  abbrev pub is_late : UpstreamNode Uri → Event → Bool
  is_late n (guard_dropped g) = n.is_alive && g.is_probe && not g.completed
  is_late n _ = false

  abbrev pub has_late_drop : UpstreamNode Uri → List Event → Bool
  has_late_drop n [] = false
  has_late_drop n (e ∷ es) = is_late n e || has_late_drop (step n e) es

  abbrev pub Holds : Bool → UpstreamNode Uri → Type 0
  Holds late n = IsConsistent n ⊎ (IsDesynced n × (late ≡ true))

  step-Holds :
      (n : UpstreamNode Uri) (e : Event) (late : Bool)
      → Holds late n
      → Holds (is_late n e || late) (step n e)
  unfolding step
  step-Holds n (latency ms) late h = ground arith
  step-Holds n (dead now) late h = ground arith
  step-Holds n alive late h = ground arith
  step-Holds n success late h = ground arith
  step-Holds n (failure threshold now) late h = ground arith
  step-Holds n (probe cooldown now) late h = ground arith
  step-Holds n (guard_dropped g) late h = ground arith

  run_from-Holds :
      (n : UpstreamNode Uri) (es : List Event) (late : Bool)
      → Holds late n
      → Holds (late || has_late_drop n es) (run n es)
  unfolding run
  run_from-Holds n [] late h = subst (λ b. Holds b n) (ground arith) h
  run_from-Holds n (e ∷ es) late h =
      subst (λ b. Holds b (run (step n e) es))
        (or_swap late (is_late n e) (has_late_drop (step n e) es))
        (run_from-Holds (step n e) es (is_late n e || late) (step-Holds n e late h))

  new_node-IsConsistent : (uri : Uri) → IsConsistent (new_node uri)
  unfolding new_node
  new_node-IsConsistent uri = ground arith

  -- After any sequence of operations on a new node, drops of probe guards included, its alive flag,
  -- its circuit state and its probe flag agree: it is closed, alive and without a probe, or open,
  -- dead and without a probe, or half-open, dead and with a probe in flight. The one exception, a
  -- node that is alive and without a probe and whose circuit state says open, comes only where the
  -- guard of an unfinished probe was dropped at a time when the node was alive.
  pub run-IsConsistent :
      (uri : Uri) (es : List Event)
      → IsConsistent (run (new_node uri) es)
        ⊎ (IsDesynced (run (new_node uri) es) × (has_late_drop (new_node uri) es ≡ true))
  run-IsConsistent uri es = run_from-Holds (new_node uri) es false (inl (new_node-IsConsistent uri))
