-- ===== src/Relay/Trials.antt =====
-- Two clients at a relay that permits one connection of an address, and a silent copying.
use praeco_rs.Prelude.{ℕ, ◌/◌, ◌+◌, ◌≤◌, ◌≡◌, ◌↔◌, length, refl, true, some, List, [], ◌∷◌, arith}
use praeco_rs.Net.{IpAddr, v4, v6, ip_eq, ip_eq_iff}
use praeco_rs.DashMap.{DashMap, assoc}
use praeco_rs.Relay.Idle.{
  io, tick, clean, idle_timeout, ends_idle, watch, copy_bidirectional_with_idle_timeout, has_run,
  silent_ticks, copy_bidirectional-silent,
}
use praeco_rs.Relay.Limits.{
  Call, connect, disconnect, ask_global, ask_ip, canonicalize_ip, new_tracker, granted,
  global_limit, ip_limit, dropped, counted, answers,
}
use praeco_rs.Relay.Contract.{contract_step, contract}
use praeco_rs.Relay.Overlap.{
  Event, raise, enter, leave, lower, remove_entry, run, step, empty_server,
}
use praeco_rs.Relay.Alive.{run-live_le}
use praeco_rs.Relay.Refinement.{answers-contract}

abbrev counts : DashMap IpAddr ℕ
counts = assoc ip_eq ip_eq_iff

-- 2001:db8::1 and 2001:db8::2, which share their network.
abbrev calls : List Call
calls =
    connect (v6 0x20010db8_00000000_00000000_00000001)
    ∷ connect (v6 0x20010db8_00000000_00000000_00000002)
    ∷ connect (v4 7)
    ∷ connect (v4 8)
    ∷ disconnect 1
    ∷ connect (v6 0x20010db8_00000000_00000000_00000002)
    ∷ ask_ip (v4 7)
    ∷ ask_global
    ∷ []

contract_answers :
    contract counts 2 1 [] calls
    ≡ granted (v6 0x20010db8_00000000_00000000_00000000)
      ∷ ip_limit
      ∷ granted (v4 7)
      ∷ global_limit
      ∷ dropped
      ∷ granted (v6 0x20010db8_00000000_00000000_00000000)
      ∷ counted 1
      ∷ counted 2
      ∷ []
unfolding contract contract_step canonicalize_ip assoc
contract_answers = refl

answers-contract_example :
    answers counts (record { tracker = new_tracker counts 2 1; guards = [] }) calls
    ≡ contract counts 2 1 [] calls
answers-contract_example = answers-contract counts 2 1 calls (omega arith)

-- A connection enters between the two holds of the entry by a drop, whose removal then takes its
-- count away: with one connection permitted for the address, two are alive.
abbrev race : List Event
race =
    raise (v4 7)
    ∷ enter 0
    ∷ leave 0
    ∷ lower 0
    ∷ raise (v4 7)
    ∷ enter 0
    ∷ remove_entry 0
    ∷ raise (v4 7)
    ∷ enter 0
    ∷ []

lost_count : (run counts 2 (empty_server counts 5 1) race).guards ≡ v4 7 ∷ v4 7 ∷ []
unfolding run step empty_server new_tracker canonicalize_ip assoc
lost_count = refl

run-live_le_example : length (run counts 2 (empty_server counts 5 1) race).guards ≤ 5
run-live_le_example = run-live_le counts 5 2 (omega arith) 1 race

-- Data may have come up to the tick before the two last: 10 seconds of silence end a copying whose
-- timeout is 19 seconds.
early : ends_idle 19 (tick ∷ io ∷ tick ∷ tick ∷ []) ≡ true
unfolding ends_idle watch
early = refl

copy_bidirectional-silent_example :
    (copy_bidirectional_with_idle_timeout
        (some 25)
        (tick ∷ io ∷ tick ∷ tick ∷ tick ∷ [])
        (clean 1 2)
      ≡ idle_timeout)
    ↔ ((secs : ℕ) × (some 25 ≡ some secs)
        × (has_run (silent_ticks (secs / 10) + 1) (tick ∷ io ∷ tick ∷ tick ∷ tick ∷ []) ≡ true))
copy_bidirectional-silent_example =
    copy_bidirectional-silent (some 25) (tick ∷ io ∷ tick ∷ tick ∷ tick ∷ []) 1 2
