-- ===== src/Session/RateLimit.antt =====
-- How many sessions one client can open in a window of a minute.
use praeco_rs.Prelude.{
  ℕ, ◌+◌, ◌-◌, ◌≤◌, ◌≡◌, Bool, true, false, ◌&&◌, Option, none, some, List, [], ◌∷◌, if◌then◌else◌,
  Bytes, arith, inl, inr, Option-cases, Bool-cases, leb, ltb, All,
}
use praeco_rs.Net.{IpAddr}
use praeco_rs.DashMap.{DashMap}
use praeco_rs.Session.{
  SessionInfo, SessionEntry, SessionStore, Result, ok, err, CreateSessionError, rate_limited,
  rate_limit_window, cleanup_expired_force, maybe_cleanup_expired, rates_full, count_request,
  check_rate, admit, canonical, create_session,
}

-- A call of `create_session`.
pub record Request : Type 0 where
  pub locked : Bool
  pub now : ℕ
  pub client_ip : Option IpAddr
  pub aud : Option Bytes
  pub info : SessionInfo

module _ (entries : DashMap Bytes SessionEntry) (rates : DashMap IpAddr (ℕ × ℕ)) where
  open rates use {get, same, same_iff, get-insert, get-retain}

  abbrev is_ok : {A E : Type 0} → Result A E → Bool
  is_ok (ok a) = true
  is_ok (err e) = false

  abbrev is_for : IpAddr → Option IpAddr → Bool
  is_for key none = false
  is_for key (some ip) = same ip key

  -- Whether a request is from the address and succeeds.
  abbrev opens : IpAddr → Request → Result SessionInfo CreateSessionError → ℕ
  opens key r result = if is_for key (canonical r.client_ip) && is_ok result then 1 else 0

  -- How many of the requests from an address succeed.
  unfoldable pub opened : IpAddr → List Request → SessionStore entries rates → ℕ
  opened key [] s = 0
  opened key (r ∷ rs) s =
      let (t, result) = create_session entries rates r.locked r.now r.client_ip r.aud r.info s in
      opens key r result + opened key rs t

  cleanup_keeps :
      (now : ℕ) (key : IpAddr) (s : SessionStore entries rates) (count start : ℕ)
      → get key s.ip_rate_limits ≡ some (count, start)
      → now ≤ start + rate_limit_window
      → get key (cleanup_expired_force entries rates now s).ip_rate_limits ≡ some (count, start)
  unfolding cleanup_expired_force
  cleanup_keeps now key s count start h w =
      ground
        (arith, get-retain (λ (r : ℕ × ℕ). leb (now - r.1) rate_limit_window) key s.ip_rate_limits)

  maybe_cleanup_keeps :
      (locked : Bool) (now : ℕ) (key : IpAddr) (s : SessionStore entries rates) (count start : ℕ)
      → get key s.ip_rate_limits ≡ some (count, start)
      → now ≤ start + rate_limit_window
      → get key (maybe_cleanup_expired entries rates locked now s).ip_rate_limits
        ≡ some (count, start)
  unfolding maybe_cleanup_expired
  maybe_cleanup_keeps locked now key s count start h w =
      ground (arith, cleanup_keeps now key (record s { last_cleanup = now }) count start)

  admit_keeps :
      (now : ℕ) (ip : Option IpAddr) (aud : Option Bytes) (info : SessionInfo) (key : IpAddr)
      (s : SessionStore entries rates) (count start : ℕ)
      → get key s.ip_rate_limits ≡ some (count, start)
      → now ≤ start + rate_limit_window
      → get key (admit entries rates now ip aud info s).0.ip_rate_limits ≡ some (count, start)
  unfolding admit
  admit_keeps now ip aud info key s count start h w =
      ground (arith, cleanup_keeps now key s count start)

  -- A request of the address itself counts, and is let through up to the fifteenth only; another
  -- address leaves the count alone.
  count_request_counts :
      (now : ℕ) (ip key : IpAddr) (s : SessionStore entries rates) (count start : ℕ)
      → get key s.ip_rate_limits ≡ some (count, start)
      → now ≤ start + rate_limit_window
      → (get key (count_request entries rates now ip s).0.ip_rate_limits
          ≡ some ((if same ip key then 1 else 0) + count, start))
        × (same ip key ≡ true
            → (count_request entries rates now ip s).1
              ≡ (if ltb 15 (count + 1) then some rate_limited else none))
  unfolding count_request
  count_request_counts now ip key s count start h w =
      elim (Option-cases (get ip s.ip_rate_limits)) [
        | inl new ↦ ground (
          arith,
          new,
          same_iff ip key,
          get-insert ip key (1, now) s.ip_rate_limits,
          get-insert ip key (0 + 1, now) s.ip_rate_limits,
        )
        | inr (r, old) ↦ ground (
          arith,
          old,
          same_iff ip key,
          get-insert ip key (1, now) s.ip_rate_limits,
          get-insert ip key (r.0 + 1, r.1) s.ip_rate_limits,
        )
      ]

  -- The count after a request from `ip`, and the refusal of one from the address itself.
  abbrev Counted :
      (ip key : IpAddr) (count start : ℕ)
      → SessionStore entries rates
      → Option CreateSessionError
      → Type 0
  Counted ip key count start t refusal =
      (later : ℕ) × (get key t.ip_rate_limits ≡ some (later, start))
      × (count ≤ later)
      × (same ip key ≡ true
          → (later ≡ count + 1)
            × (refusal ≡ (if ltb 15 (count + 1) then some rate_limited else none)))

  count_request-Counted :
      (now : ℕ) (ip key : IpAddr) (s : SessionStore entries rates) (count start : ℕ)
      → get key s.ip_rate_limits ≡ some (count, start)
      → now ≤ start + rate_limit_window
      → let (t, refusal) = count_request entries rates now ip s in
        Counted ip key count start t refusal
  count_request-Counted now ip key s count start h w =
      let (kept, answer) = count_request_counts now ip key s count start h w in
      ((if same ip key then 1 else 0) + count, kept, ground arith, λ e. (ground arith, answer e))

  check_rate-Counted :
      (now : ℕ) (ip key : IpAddr) (s : SessionStore entries rates) (count start : ℕ)
      → get key s.ip_rate_limits ≡ some (count, start)
      → now ≤ start + rate_limit_window
      → let (t, refusal) = check_rate entries rates now (some ip) s in
        Counted ip key count start t refusal
  unfolding check_rate
  check_rate-Counted now ip key s count start h w =
      let cleaned = cleanup_expired_force entries rates now s in
      let kept = cleanup_keeps now key s count start h w in
      elim (Bool-cases (rates_full entries rates ip s)) [
        | inl full ↦ elim (Bool-cases (rates_full entries rates ip cleaned)) [
          | inl still ↦
              rw (full, still)
                (
                  count,
                  kept,
                  omega arith,
                  λ e. unfold rates_full in ground (arith, same_iff ip key, full),
                )
          | inr room ↦ rw (full, room) (count_request-Counted now ip key cleaned count start kept w)
        ]
        | inr room ↦ rw room (count_request-Counted now ip key s count start h w)
      ]

  -- The part of `create_session` that follows the clean-up.
  abbrev served :
      Option IpAddr
      → Request
      → SessionStore entries rates
      → SessionStore entries rates × Result SessionInfo CreateSessionError
  served ip r s =
      let (t, refusal) = check_rate entries rates r.now ip s in
      elim refusal [ some e ↦ (t, err e) | none ↦ admit entries rates r.now ip r.aud r.info t ]

  abbrev Opened :
      (ip : Option IpAddr) (key : IpAddr)
      → Request
      → SessionStore entries rates
      → (count start : ℕ) → Type 0
  Opened ip key r s count start =
      let (t, result) = served ip r s in
      (later : ℕ) × (get key t.ip_rate_limits ≡ some (later, start))
      × ((if is_for key ip && is_ok result then 1 else 0) + (15 - later) ≤ 15 - count)

  checked-Opened :
      (ip : Option IpAddr) (key : IpAddr) (r : Request) (s : SessionStore entries rates)
      (count start : ℕ)
      → get key s.ip_rate_limits ≡ some (count, start)
      → r.now ≤ start + rate_limit_window
      → Opened ip key r s count start
  unfolding check_rate
  checked-Opened none key r s count start h w =
      (count, admit_keeps r.now none r.aud r.info key s count start h w, omega arith)
  checked-Opened (some ip) key r s count start h w =
      let (later, found, more, counted) = check_rate-Counted r.now ip key s count start h w in
      (
        later,
        ground (
          arith,
          admit_keeps r.now (some ip) r.aud r.info key
              (check_rate entries rates r.now (some ip) s).0 later start found w,
        ),
        ground arith,
      )

  create_session-opens :
      (r : Request) (key : IpAddr) (s : SessionStore entries rates) (count start : ℕ)
      → get key s.ip_rate_limits ≡ some (count, start)
      → r.now ≤ start + rate_limit_window
      → let (t, result) = create_session entries rates r.locked r.now r.client_ip r.aud r.info s in
        (later : ℕ) × (get key t.ip_rate_limits ≡ some (later, start))
        × (opens key r result + (15 - later) ≤ 15 - count)
  unfolding create_session
  create_session-opens r key s count start h w =
      checked-Opened (canonical r.client_ip) key r
        (maybe_cleanup_expired entries rates r.locked r.now s) count start
        (maybe_cleanup_keeps r.locked r.now key s count start h w) w

  -- While the window lasts that an address's entry has begun, no more than fifteen requests are
  -- let through for it, counting those the entry has counted; requests of other addresses, in any
  -- order between them, and cleanups do not change that.
  pub create_session-opened_le :
      (key : IpAddr) (rs : List Request) (s : SessionStore entries rates) (count start : ℕ)
      → get key s.ip_rate_limits ≡ some (count, start)
      → All (λ (r : Request). r.now ≤ start + rate_limit_window) rs
      → opened key rs s ≤ 15 - count
  unfolding opened
  create_session-opened_le key [] s count start h w = omega arith
  create_session-opened_le key (r ∷ rs) s count start h (w, ws) =
      let (later, found, room) = create_session-opens r key s count start h w in
      let rest =
        create_session-opened_le key rs
          (create_session entries rates r.locked r.now r.client_ip r.aud r.info s).0 later start
          found ws in
      omega (arith, room, rest)
