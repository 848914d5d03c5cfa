-- ===== src/Relay/Refinement.antt =====
-- The tracker implements its contract, where calls do not overlap.
use praeco_rs.Prelude.{
  ℕ, zero, suc, ◌+◌, ◌-◌, ◌<◌, ◌≡◌, refl, sym, ap, ap₂, true, false, leb, if◌then◌else◌, Bool-cases,
  inl, inr, Option, none, some, List, [], ◌∷◌, length, get_elem?, erase_idx, sum_map-erase_idx,
  length-erase_idx, Option-cases, wrapping_add, u64_mod, arith,
}
use praeco_rs.Net.{IpAddr}
use praeco_rs.DashMap.{DashMap}
use praeco_rs.Tracker.{or_zero}
use praeco_rs.Relay.Limits.{
  canonicalize_ip, Answer, granted, ip_limit, counted, Call, connect, disconnect, ask_global,
  ask_ip, new_tracker, acquire_ip, acquire, lowered, drop_guard, current_for_ip, Server, add_guard,
  remove_guard, step, answers,
}
use praeco_rs.Relay.Contract.{matches, holders, permitted, contract_step, contract, Implements}

module _ (counts : DashMap IpAddr ℕ) where
  open counts use {same, get, insert, remove, same_iff, get-empty, get-insert, get-remove}

  module _ (max_global max_per_ip : ℕ) where
    -- A tracker and the guards that the contract knows, with equal answers.
    abbrev Agrees : Server counts × Answer → List IpAddr × Answer → Type 0
    Agrees (s, answer) (gs, expected) =
        Implements counts max_global max_per_ip s gs × (answer ≡ expected)

    -- The entries after one of them was set.
    each-insert :
        (s : Server counts) (gs : List IpAddr) (ip : IpAddr) (v : ℕ) (more : IpAddr → ℕ)
        → Implements counts max_global max_per_ip s gs
        → ((j : IpAddr) → (if same ip j then v else holders counts j gs) ≡ more j)
        → (j : IpAddr) → or_zero (get j (insert ip v s.tracker.ip_counts)) ≡ more j
    each-insert s gs ip v more r h j =
        ground (arith, get-insert ip j v s.tracker.ip_counts, r.each j, h j)

    holders_same :
        (ip j : IpAddr) (gs : List IpAddr)
        → same ip j ≡ true
        → holders counts ip gs ≡ holders counts j gs
    holders_same ip j gs e = ap (λ (x : IpAddr). holders counts x gs) ((same_iff ip j).0 e)

    acquire_ip-Agrees :
        (s : Server counts) (gs : List IpAddr) (ip : IpAddr)
        → Implements counts max_global max_per_ip s gs
        → length gs < max_global
        → max_global < u64_mod
        → Agrees
            (add_guard counts s
              (acquire_ip counts ip (record s.tracker { global_count = length gs + 1 })))
            (if leb max_per_ip (holders counts ip gs)
              then (gs, ip_limit)
              else (ip ∷ gs, granted ip))
    unfolding acquire_ip
    acquire_ip-Agrees s gs ip r room small =
        elim (Bool-cases (leb max_per_ip (holders counts ip gs))) [
          | inl full ↦
              rw (r.per_ip, r.each ip, full)
                (
                  record {
                    guards = r.guards;
                    global = r.global;
                    per_ip = refl;
                    total = omega arith;
                    each =
                        each-insert s gs ip (holders counts ip gs) (λ j. holders counts j gs) r
                          (λ j. ground (arith, holders_same ip j gs));
                    within = r.within;
                  },
                  refl,
                )
          | inr free ↦
              rw (r.per_ip, r.each ip, free)
                (
                  record {
                    guards = ap (◌∷◌ ip) r.guards;
                    global = r.global;
                    per_ip = refl;
                    total = omega arith;
                    each =
                        each-insert s gs ip (holders counts ip gs + 1)
                          (λ j. holders counts j (ip ∷ gs)) r
                          (λ j. ground (arith, holders_same ip j gs));
                    within = omega arith;
                  },
                  refl,
                )
        ]

    acquire-Agrees :
        (s : Server counts) (gs : List IpAddr) (raw_ip : IpAddr)
        → Implements counts max_global max_per_ip s gs
        → max_global < u64_mod
        → Agrees
            (add_guard counts s (acquire counts raw_ip s.tracker))
            (permitted counts max_global max_per_ip gs (canonicalize_ip raw_ip))
    unfolding acquire
    acquire-Agrees s gs raw_ip r small = elim (Bool-cases (leb max_global (length gs))) [
      | inl full ↦
          let refused : leb s.tracker.max_global s.tracker.global_count ≡ true =
            ground (arith, r.global, r.total) in
          rw (refused, full)
            (
              record {
                guards = r.guards;
                global = r.global;
                per_ip = r.per_ip;
                total = ground (arith, r.total, r.within);
                each = r.each;
                within = r.within;
              },
              refl,
            )
      | inr room ↦
          let passed : leb s.tracker.max_global s.tracker.global_count ≡ false =
            ground (arith, r.global, r.total) in
          let raised : wrapping_add s.tracker.global_count 1 ≡ length gs + 1 =
            ground (arith, r.total, r.within) in
          rw (passed, room, raised)
            (acquire_ip-Agrees s gs (canonicalize_ip raw_ip) r (ground arith) small)
    ]

    holders-erase_idx :
        (gs : List IpAddr) (i : ℕ) (ip j : IpAddr)
        → get_elem? gs i ≡ some ip
        → holders counts j (erase_idx gs i) + matches counts j ip ≡ holders counts j gs
    holders-erase_idx gs i ip j e = sum_map-erase_idx (matches counts j) gs i ip e

    -- A guard's address loses one.
    each-lowered :
        (s : Server counts) (gs : List IpAddr) (i : ℕ) (ip : IpAddr)
        → Implements counts max_global max_per_ip s gs
        → get_elem? gs i ≡ some ip
        → (j : IpAddr)
        → or_zero (get j (lowered counts ip s.tracker.ip_counts (get ip s.tracker.ip_counts)))
          ≡ holders counts j (erase_idx gs i)
    each-lowered s gs i ip r e j = elim (Option-cases (get ip s.tracker.ip_counts)) [
      | inl missing ↦
          absurd
            (ground (arith, r.each ip, holders-erase_idx gs i ip ip e, (same_iff ip ip).1 refl))
      | inr (n, found) ↦ rw found (
          ground (
            arith,
            r.each ip,
            r.each j,
            get-remove ip j (insert ip (n - 1) s.tracker.ip_counts),
            get-insert ip j (n - 1) s.tracker.ip_counts,
            holders-erase_idx gs i ip j e,
            holders_same ip j gs,
            (same_iff ip ip).1 refl,
          ))
    ]

    erase_idx-none : (gs : List IpAddr) (i : ℕ) → get_elem? gs i ≡ none → erase_idx gs i ≡ gs
    erase_idx-none [] i e = refl
    erase_idx-none (g ∷ gs) zero e = absurd (ground arith)
    erase_idx-none (g ∷ gs) (suc i) e = ap (◌∷◌ g) (erase_idx-none gs i e)

    remove_guard-Implements :
        (s : Server counts) (gs : List IpAddr) (i : ℕ) (g : Option IpAddr)
        → Implements counts max_global max_per_ip s gs
        → max_global < u64_mod
        → get_elem? gs i ≡ g
        → Implements counts max_global max_per_ip (remove_guard counts s i g) (erase_idx gs i)
    unfolding drop_guard
    remove_guard-Implements s gs i none r small e = rw (erase_idx-none gs i e) r
    remove_guard-Implements s gs i (some ip) r small e = record {
      guards = ap (λ t. erase_idx t i) r.guards;
      global = r.global;
      per_ip = r.per_ip;
      total = ground (arith, r.total, r.within, length-erase_idx gs i ip e);
      each = each-lowered s gs i ip r e;
      within = omega (arith, r.within, length-erase_idx gs i ip e);
    }

    step-Agrees :
        (s : Server counts) (gs : List IpAddr) (call : Call)
        → Implements counts max_global max_per_ip s gs
        → max_global < u64_mod
        → Agrees (step counts s call) (contract_step counts max_global max_per_ip gs call)
    unfolding step contract_step current_for_ip
    step-Agrees s gs (connect raw_ip) r small = acquire-Agrees s gs raw_ip r small
    step-Agrees s gs (disconnect i) r small =
        (remove_guard-Implements s gs i _ r small (ap (λ t. get_elem? t i) (sym r.guards)), refl)
    step-Agrees s gs ask_global r small = (r, ap counted r.total)
    step-Agrees s gs (ask_ip raw_ip) r small = (r, ap counted (r.each (canonicalize_ip raw_ip)))

    answers-contract_from :
        (calls : List Call) (s : Server counts) (gs : List IpAddr)
        → Implements counts max_global max_per_ip s gs
        → max_global < u64_mod
        → answers counts s calls ≡ contract counts max_global max_per_ip gs calls
    unfolding answers contract
    answers-contract_from [] s gs r small = refl
    answers-contract_from (call ∷ calls) s gs r small =
        let (next_, same_answer) = step-Agrees s gs call r small in
        ap₂ ◌∷◌ same_answer (answers-contract_from calls _ _ next_ small)

    -- If `max_global` is below 2 ^ 64 and each call, the drop of a guard included, ends before the
    -- next one begins, the tracker's two counters, with their wrap-around, the raises taken back and
    -- the entries removed at zero, answer every sequence of connections, ends and questions as the
    -- machine does that keeps only the list of live guards: a connection is permitted exactly while
    -- fewer guards are alive than `max_global`, and fewer of its canonical address than `max_per_ip`.
    pub answers-contract :
        (calls : List Call)
        → max_global < u64_mod
        → answers counts
            (record { tracker = new_tracker counts max_global max_per_ip; guards = [] })
            calls
          ≡ contract counts max_global max_per_ip [] calls
    unfolding new_tracker
    answers-contract calls small =
        answers-contract_from calls _ []
          (record {
            guards = refl;
            global = refl;
            per_ip = refl;
            total = refl;
            each = λ ip. ap or_zero (get-empty ip);
            within = omega arith;
          })
          small
