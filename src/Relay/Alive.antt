-- ===== src/Relay/Alive.antt =====
-- How many connections are alive where calls of the relay's tracker overlap.
use praeco_rs.Prelude.{
  ℕ, ◌+◌, ◌≤◌, ◌<◌, ◌≡◌, refl, ltb, leb, Bool-cases, inl, inr, Option, none, some, Option-cases,
  List, [], ◌∷◌, length, get_elem?, length-erase_idx, u64_mod, arith,
}
use praeco_rs.Net.{IpAddr}
use praeco_rs.DashMap.{DashMap}
use praeco_rs.Tracker.{or_zero}
use praeco_rs.Relay.Overlap.{
  Event, raise, enter, undo, leave, lower, remove_entry, Server, raised, entered, left, step, run,
  empty_server,
}

module _ (counts : DashMap IpAddr ℕ) where
  open counts use {get}

  record IsCounted (max_global workers : ℕ) (s : Server counts) : Type 0 where
    limit : s.tracker.max_global ≡ max_global
    total : s.tracker.global_count ≡ s.undoing + (length s.passed + length s.guards)
    running : s.undoing + length s.passed ≤ workers
    live : length s.passed + length s.guards ≤ max_global

  module _ (max_global workers : ℕ) (small : max_global + workers < u64_mod) where
    raised-IsCounted :
        (s : Server counts) (raw_ip : IpAddr)
        → IsCounted max_global workers s
        → s.undoing + length s.passed < workers
        → IsCounted max_global workers
            (raised counts s raw_ip (leb s.tracker.max_global s.tracker.global_count))
    raised-IsCounted s raw_ip c room =
        elim (Bool-cases (leb s.tracker.max_global s.tracker.global_count)) [
          | inl full ↦ rw full (record {
            limit = c.limit;
            total = omega (arith, c.total, c.live);
            running = omega arith;
            live = c.live;
          })
          | inr free ↦ rw free (record {
            limit = c.limit;
            total = omega (arith, c.total, c.live);
            running = omega arith;
            live = ground (arith, free, c.limit, c.total);
          })
        ]

    entered-IsCounted :
        (s : Server counts) (i : ℕ) (o : Option IpAddr)
        → get_elem? s.passed i ≡ o
        → IsCounted max_global workers s
        → IsCounted max_global workers (entered counts s i o)
    entered-IsCounted s i none e c = c
    entered-IsCounted s i (some ip) e c =
        let fewer = length-erase_idx s.passed i ip e in
        elim (Bool-cases (leb s.tracker.max_per_ip (or_zero (get ip s.tracker.ip_counts)))) [
          | inl full ↦ rw full (record {
            limit = c.limit;
            total = omega (arith, c.total, fewer);
            running = omega (arith, c.running, fewer);
            live = omega (arith, c.live, fewer);
          })
          | inr free ↦ rw free (record {
            limit = c.limit;
            total = omega (arith, c.total, fewer);
            running = omega (arith, c.running, fewer);
            live = omega (arith, c.live, fewer);
          })
        ]

    left-IsCounted :
        (s : Server counts) (i : ℕ) (o : Option IpAddr)
        → get_elem? s.guards i ≡ o
        → IsCounted max_global workers s
        → IsCounted max_global workers (left counts s i o)
    left-IsCounted s i none e c = c
    left-IsCounted s i (some ip) e c =
        let fewer = length-erase_idx s.guards i ip e in
        record {
          limit = c.limit;
          total = omega (arith, c.total, c.running, c.live, fewer);
          running = c.running;
          live = omega (arith, c.live, fewer);
        }

    step-IsCounted :
        (s : Server counts) (e : Event)
        → IsCounted max_global workers s
        → IsCounted max_global workers (step counts workers s e)
    unfolding step
    step-IsCounted s (raise raw_ip) c =
        elim (Bool-cases (ltb (s.undoing + length s.passed) workers)) [
          | inl room ↦ rw room (raised-IsCounted s raw_ip c (ground (arith, room)))
          | inr busy ↦ rw busy c
        ]
    step-IsCounted s (enter i) c = entered-IsCounted s i _ refl c
    step-IsCounted s undo c = elim (Bool-cases (ltb 0 s.undoing)) [
      | inr none_ ↦ rw none_ c
      | inl some_ ↦
          let pending : 0 < s.undoing = ground (arith, some_) in
          rw some_ (record {
            limit = c.limit;
            total = omega (arith, c.total, c.running, c.live, pending);
            running = omega (arith, c.running);
            live = c.live;
          })
    ]
    step-IsCounted s (leave i) c = left-IsCounted s i _ refl c
    step-IsCounted s (lower i) c = elim (Option-cases (get_elem? s.leaving i)) [
      | inl e ↦ rw e c
      | inr (ip, e) ↦
          rw e (record { limit = c.limit; total = c.total; running = c.running; live = c.live })
    ]
    step-IsCounted s (remove_entry i) c = elim (Option-cases (get_elem? s.removing i)) [
      | inl e ↦ rw e c
      | inr (ip, e) ↦
          rw e (record { limit = c.limit; total = c.total; running = c.running; live = c.live })
    ]

    run_from-IsCounted :
        (s : Server counts) (es : List Event)
        → IsCounted max_global workers s
        → IsCounted max_global workers (run counts workers s es)
    unfolding run
    run_from-IsCounted s [] c = c
    run_from-IsCounted s (e ∷ es) c =
        run_from-IsCounted (step counts workers s e) es (step-IsCounted s e c)

    -- In every interleaving of the atomic operations of connections and ends, the live guards never
    -- exceed `max_global`, as long as `max_global` and the calls of `acquire` under way together are
    -- below 2 ^ 64.
    pub run-live_le :
        (max_per_ip : ℕ) (es : List Event)
        → length (run counts workers (empty_server counts max_global max_per_ip) es).guards
          ≤ max_global
    unfolding empty_server
    run-live_le max_per_ip es =
        let start : IsCounted max_global workers (empty_server counts max_global max_per_ip) =
          record { limit = refl; total = refl; running = omega arith; live = omega arith } in
        omega (arith, (run_from-IsCounted _ es start).live)
