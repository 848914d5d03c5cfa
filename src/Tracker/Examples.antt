-- ===== src/Tracker/Examples.antt =====
-- Runs of the tracker, and the theorem about histories at one of them.
use praeco_rs.Prelude.{ℕ, ◌≡◌, refl, none, some, List, [], ◌∷◌, length, arith}
use praeco_rs.Net.{IpAddr, v4, ip_eq, ip_eq_iff, canonical_client_ip}
use praeco_rs.DashMap.{DashMap, assoc}
use praeco_rs.Tracker.{ip_limit_reached, refused, new_tracker, acquire, connections_for_ip}
use praeco_rs.Tracker.Guards.{Event, connect, bind, disconnect, Server, run}
use praeco_rs.Tracker.History.{run-IsTracked}

abbrev counts : DashMap IpAddr ℕ
unfolding assoc
counts = assoc ip_eq ip_eq_iff

abbrev start : Server counts
start = record { tracker = new_tracker counts 3 2; guards = [] }

abbrev history : List Event
history =
    connect (some (v4 10))
    ∷ connect (some (v4 10))
    ∷ connect (some (v4 10))
    ∷ connect none
    ∷ bind 0 (v4 11)
    ∷ disconnect 2
    ∷ []

limits_hold :
    ((acquire counts
        (some (v4 10))
        (run counts start (connect (some (v4 10)) ∷ connect (some (v4 10)) ∷ [])).tracker).1
      ≡ refused (ip_limit_reached (v4 10) 2 2))
    × (connections_for_ip counts (v4 10) (run counts start history).tracker ≡ 1)
    × (connections_for_ip counts (v4 11) (run counts start history).tracker ≡ 1)
unfolding counts run new_tracker acquire connections_for_ip canonical_client_ip
limits_hold = (refl, refl, refl)

run-IsTracked_example :
    (run counts start history).tracker.current_connections
    ≡ length (run counts start history).guards
run-IsTracked_example = (run-IsTracked counts 3 2 (omega arith) (omega arith) history).total
