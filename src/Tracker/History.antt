-- ===== src/Tracker/History.antt =====
-- Any history of connections: the tracker's counters are the numbers of live guards.
use praeco_rs.Prelude.{
  ℕ, ◌+◌, ◌-◌, ◌<◌, ◌≡◌, refl, ap, inl, inr, true, false, Option, none, some, List, [], ◌∷◌,
  if◌then◌else◌, length, get_elem?, erase_idx, sum_map-set, sum_map-erase_idx, length-set,
  length-erase_idx, All-set, All-erase_idx, All-get_elem?, arith, u64_mod, wrapping_add,
  Option-cases, leb, Bool-cases,
}
use praeco_rs.Net.{IpAddr, is_unspecified, canonical_client_ip}
use praeco_rs.DashMap.{DashMap}
use praeco_rs.Tracker.{canonical, new_tracker, count_up, acquire_ip, release_ip, release, bind_ip}
use praeco_rs.Tracker.Guards.{
  Event, connect, bind, disconnect, Server, add_guard, bind_guard, drop_guard, step, run, holds,
  holders, entry_of, IsCanonical, IsTracked, canonical_idempotent, or_zero-entry_of, count_up_exact,
  count_down_exact,
}

module _ (counts : DashMap IpAddr ℕ) where
  open counts use {
    Map, same, empty, get, insert, remove, same_iff, get-empty, get-insert, get-remove,
  }

  module _ (limit limit_per_ip : ℕ) (small : limit < u64_mod) (pos : 0 < limit_per_ip) where
    holders_same :
        (ip j : IpAddr) (gs : List (Option IpAddr))
        → same ip j ≡ true
        → holders counts ip gs ≡ holders counts j gs
    holders_same ip j gs e = ap (λ (x : IpAddr). holders counts x gs) ((same_iff ip j).0 e)

    -- The counts after `connect` for an address that is counted.
    counted :
        (s : Server counts) (ip j : IpAddr)
        → IsTracked counts limit limit_per_ip s
        → get j (count_up counts limit_per_ip ip s.tracker.ip_counts).0
          ≡ entry_of counts (
              (if leb limit_per_ip (holders counts ip s.guards)
                then 0
                else if same ip j
                then 1
                else 0)
              + holders counts j s.guards)
    counted s ip j v =
        count_up_exact counts limit_per_ip ip j s.tracker.ip_counts (holders counts ip s.guards)
          (holders counts j s.guards) pos (v.each ip) (v.each j) (holders_same ip j s.guards)
          (v.per_ip ip)

    acquire_ip-IsTracked :
        (s : Server counts) (g : Option IpAddr)
        → IsCanonical counts g
        → IsTracked counts limit limit_per_ip s
        → length s.guards < limit
        → IsTracked counts limit limit_per_ip (
            add_guard counts s (
              acquire_ip counts g (record s.tracker { current_connections = length s.guards + 1 })))
    unfolding acquire_ip add_guard holders
    acquire_ip-IsTracked s none c v room = record {
      limit = v.limit;
      limit_per_ip = v.limit_per_ip;
      total = omega arith;
      within = omega arith;
      each = λ j. ground (arith, v.each j);
      per_ip = λ j. ground (arith, v.per_ip j);
      keys = (c, v.keys);
    }
    acquire_ip-IsTracked s (some ip) c v room = elim (Bool-cases (is_unspecified ip)) [
      | inl u ↦ record {
        limit = ground (arith, v.limit);
        limit_per_ip = ground (arith, v.limit_per_ip);
        total = ground arith;
        within = ground (arith, v.within);
        each = λ j. ground (arith, v.each j);
        per_ip = λ j. ground (arith, v.per_ip j);
        keys = ground (arith, v.keys);
      }
      | inr n ↦ record {
        limit = ground (arith, v.limit);
        limit_per_ip = ground (arith, v.limit_per_ip);
        total = ground (arith);
        within = ground (arith, v.within);
        each = λ j. ground (
          arith,
          v.each j,
          v.each ip,
          v.limit_per_ip,
          counted s ip j v,
          or_zero-entry_of counts (holders counts ip s.guards),
        );
        per_ip = λ j. ground (
          arith,
          v.per_ip j,
          v.each ip,
          v.limit_per_ip,
          holders_same ip j s.guards,
          or_zero-entry_of counts (holders counts ip s.guards),
        );
        keys = ground (arith, v.keys);
      }
    ]

    connect-IsTracked :
        (s : Server counts) (ip : Option IpAddr)
        → IsTracked counts limit limit_per_ip s
        → IsTracked counts limit limit_per_ip (step counts s (connect ip))
    unfolding step
    connect-IsTracked s ip v = elim (Bool-cases (leb limit (length s.guards))) [
      | inl full ↦ record {
        limit = ground (arith, v.limit, v.total);
        limit_per_ip = ground (arith, v.limit, v.limit_per_ip, v.total);
        total = ground (arith, v.limit, v.total, v.within);
        within = ground (arith, v.limit, v.total, v.within);
        each = λ j. ground (arith, v.limit, v.total, v.each j);
        per_ip = λ j. ground (arith, v.limit, v.total, v.per_ip j);
        keys = ground (arith, v.limit, v.total, v.keys);
      }
      | inr room ↦
          let taken : leb s.tracker.max_connections s.tracker.current_connections ≡ false =
            ground (arith, v.limit, v.total) in
          let raised : wrapping_add s.tracker.current_connections 1 ≡ length s.guards + 1 =
            ground (arith, v.total, v.within) in
          rw (taken, raised)
            (acquire_ip-IsTracked s (canonical ip) (canonical_idempotent counts ip) v
              (ground arith))
    ]

    bind_guard-IsTracked :
        (s : Server counts) (i : ℕ) (ip : IpAddr) (g : Option IpAddr)
        → get_elem? s.guards i ≡ some g
        → IsTracked counts limit limit_per_ip s
        → IsTracked counts limit limit_per_ip (bind_guard counts s i ip (some g))
    unfolding bind_guard bind_ip holders
    bind_guard-IsTracked s i ip (some g) e v = record {
      limit = ground (arith, v.limit);
      limit_per_ip = ground (arith, v.limit_per_ip);
      total = ground (arith, v.total, length-set s.guards i (some g));
      within = ground (arith, v.within, length-set s.guards i (some g));
      each = λ j.
          ground (arith, v.each j, sum_map-set (holds counts j) s.guards i (some g) (some g) e);
      per_ip = λ j.
          ground (arith, v.per_ip j, sum_map-set (holds counts j) s.guards i (some g) (some g) e);
      keys = ground (
        arith,
        v.keys,
        All-set (IsCanonical counts) s.guards i (some g)
            (All-get_elem? (IsCanonical counts) s.guards i (some g) e v.keys) v.keys,
      );
    }
    bind_guard-IsTracked s i ip none e v =
        let key = canonical_client_ip ip in
        let set_none = λ (j : IpAddr). sum_map-set (holds counts j) s.guards i none none e in
        let set_key = λ (j : IpAddr). sum_map-set (holds counts j) s.guards i none (some key) e in
        let keys_none = All-set (IsCanonical counts) s.guards i none refl v.keys in
        let keys_key =
          All-set (IsCanonical counts) s.guards i (some key) (canonical_idempotent counts (some ip))
            v.keys in
        record {
          limit = ground (arith, v.limit);
          limit_per_ip = ground (arith, v.limit_per_ip);
          total =
              ground (arith, v.total, length-set s.guards i none, length-set s.guards i (some key));
          within =
              ground
                (arith, v.within, length-set s.guards i none, length-set s.guards i (some key));
          each = λ j. ground (
            arith,
            v.each j,
            v.each key,
            v.limit_per_ip,
            counted s key j v,
            or_zero-entry_of counts (holders counts key s.guards),
            set_none j,
            set_key j,
          );
          per_ip = λ j. ground (
            arith,
            v.per_ip j,
            v.each key,
            v.limit_per_ip,
            holders_same key j s.guards,
            or_zero-entry_of counts (holders counts key s.guards),
            set_none j,
            set_key j,
          );
          keys = ground (arith, v.keys, keys_none, keys_key);
        }

    release_exact :
        (g : Option IpAddr) (j : IpAddr) (m : Map) (gs : List (Option IpAddr)) (i : ℕ)
        → get_elem? gs i ≡ some g
        → ((ip : IpAddr) → get ip m ≡ entry_of counts (holders counts ip gs))
        → get j (release_ip counts g m) ≡ entry_of counts (holders counts j (erase_idx gs i))
    unfolding release_ip holders
    release_exact none j m gs i e each =
        ground (arith, each j, sum_map-erase_idx (holds counts j) gs i none e)
    release_exact (some ip) j m gs i e each = ground (
      arith,
      each j,
      each ip,
      same_iff ip ip,
      holders_same ip j gs,
      sum_map-erase_idx (holds counts j) gs i (some ip) e,
      sum_map-erase_idx (holds counts ip) gs i (some ip) e,
      count_down_exact counts ip j m (holders counts ip gs - 1) (holders counts j gs),
    )

    drop_guard-IsTracked :
        (s : Server counts) (i : ℕ) (g : Option IpAddr)
        → get_elem? s.guards i ≡ some g
        → IsTracked counts limit limit_per_ip s
        → IsTracked counts limit limit_per_ip (drop_guard counts s i (some g))
    unfolding drop_guard release holders
    drop_guard-IsTracked s i g e v =
        let same_key = All-get_elem? (IsCanonical counts) s.guards i g e v.keys in
        record {
          limit = v.limit;
          limit_per_ip = v.limit_per_ip;
          total = omega (arith, v.total, v.within, length-erase_idx s.guards i g e);
          within = omega (arith, v.within, length-erase_idx s.guards i g e);
          each = λ j. rw same_key (release_exact g j s.tracker.ip_counts s.guards i e v.each);
          per_ip =
              λ j. omega (arith, v.per_ip j, sum_map-erase_idx (holds counts j) s.guards i g e);
          keys = All-erase_idx (IsCanonical counts) s.guards i v.keys;
        }

    step-IsTracked :
        (s : Server counts) (e : Event)
        → IsTracked counts limit limit_per_ip s
        → IsTracked counts limit limit_per_ip (step counts s e)
    unfolding step
    step-IsTracked s (connect ip) v = connect-IsTracked s ip v
    step-IsTracked s (bind i ip) v = elim (Option-cases (get_elem? s.guards i)) [
      | inl e ↦ rw e v
      | inr (g, e) ↦ rw e (bind_guard-IsTracked s i ip g e v)
    ]
    step-IsTracked s (disconnect i) v = elim (Option-cases (get_elem? s.guards i)) [
      | inl e ↦ rw e v
      | inr (g, e) ↦ rw e (drop_guard-IsTracked s i g e v)
    ]

    run_from-IsTracked :
        (s : Server counts) (es : List Event)
        → IsTracked counts limit limit_per_ip s
        → IsTracked counts limit limit_per_ip (run counts s es)
    unfolding run
    run_from-IsTracked s [] v = v
    run_from-IsTracked s (e ∷ es) v = run_from-IsTracked (step counts s e) es (step-IsTracked s e v)

    -- After any history of connects, binds and disconnects on a new tracker with a 64-bit limit and
    -- a limit per address that is not 0: the global counter is the number of live guards and within
    -- its limit, the table has for each address exactly the number of guards that count for it, no
    -- entry where there is none, and that number is within the limit per address.
    pub run-IsTracked :
        (es : List Event)
        → IsTracked counts limit limit_per_ip (
            run counts (record { tracker = new_tracker counts limit limit_per_ip; guards = [] }) es)
    unfolding new_tracker holders
    run-IsTracked es = run_from-IsTracked _ es (record {
      limit = refl;
      limit_per_ip = refl;
      total = refl;
      within = omega arith;
      each = λ j. get-empty j;
      per_ip = λ j. omega arith;
      keys = tt;
    })
