-- ===== src/Session/Overlap.antt =====
-- Calls of the session store that overlap, and which steps add no session. The check of `create_session` and its
-- insertion are steps of their own, between which steps of other calls can come; what it does for
-- the rate limit comes before both and adds no session. `workers` is how many calls of
-- `create_session` run at once at most.
use praeco_rs.Prelude.{
  ℕ, ◌+◌, ◌-◌, ◌≤◌, ◌<◌, ◌≡◌, refl, Bool, true, false, if◌then◌else◌, ltb, Option, none, some, List,
  [], ◌∷◌, Bytes, arith, inl, inr, Option-cases, Bool-cases, leb, ◌∙◌,
}
use praeco_rs.Net.{IpAddr}
use praeco_rs.DashMap.{DashMap}
use praeco_rs.Session.{
  Claims, SessionInfo, SessionEntry, SessionStore, CreateSessionError, confirmed, failed, with_aud,
  cleanup_expired_force, maybe_cleanup_expired, count_request, rates_full, check_rate,
  check_capacity, canonical, verify_session_code, attach, confirm_session, get_and_consume,
  insert_session,
}

-- A step of a call. A step of `create_session` for which no call is ready does nothing.
pub data Event : Type 0 where
  begin : (locked : Bool) (now : ℕ) (client_ip : Option IpAddr) → Event
  check : (now : ℕ) → Event
  store : (now : ℕ) (client_ip : Option IpAddr) (aud : Option Bytes) (info : SessionInfo) → Event
  verify : (now : ℕ) (id : Bytes) (code : Option Bytes) → Event
  confirm : (now : ℕ) (id : Bytes) (code : Option Bytes) (claims : Claims) → Event
  poll : (now : ℕ) (id secret : Bytes) → Event

module _ (entries : DashMap Bytes SessionEntry) (rates : DashMap IpAddr (ℕ × ℕ)) where
  open entries use {get, insert, len, len-empty, len-insert, len-remove, len-retain-le}

  -- The store, the calls of `create_session` that come to the check, and those that have passed it
  -- and come to the insertion.
  pub record Server : Type 0 where
    pub sessions : SessionStore entries rates
    pub checking : ℕ
    pub inserting : ℕ

  abbrev pub begun : Server → SessionStore entries rates × Option CreateSessionError → Server
  begun v (t, none) = record { sessions = t; checking = v.checking + 1; inserting = v.inserting }
  begun v (t, some refusal) = record v { sessions = t }

  abbrev pub checked : Server → SessionStore entries rates × Bool → Server
  checked v (t, true) = record {
    sessions = t;
    checking = v.checking - 1;
    inserting = v.inserting + 1;
  }
  checked v (t, false) = record { sessions = t; checking = v.checking - 1; inserting = v.inserting }

  unfoldable pub step : (workers : ℕ) → Server → Event → Server
  unfolding check_rate maybe_cleanup_expired check_capacity verify_session_code confirm_session
      get_and_consume
  step workers v (begin locked now ip) =
      if ltb (v.checking + v.inserting) workers
      then begun v (
          check_rate entries rates now (canonical ip)
            (maybe_cleanup_expired entries rates locked now v.sessions))
      else v
  step workers v (check now) =
      if ltb 0 v.checking then checked v (check_capacity entries rates now v.sessions) else v
  step workers v (store now ip aud info) =
      if ltb 0 v.inserting
      then record v {
        sessions = insert_session entries rates now (canonical ip) aud info v.sessions;
        inserting = v.inserting - 1;
      }
      else v
  step workers v (verify now id code) = record v {
    sessions = (verify_session_code entries rates now id code v.sessions).0;
  }
  step workers v (confirm now id code claims) = record v {
    sessions = (confirm_session entries rates now id code claims v.sessions).0;
  }
  step workers v (poll now id secret) = record v {
    sessions = (get_and_consume entries rates now id secret v.sessions).0;
  }

  unfoldable pub run : (workers : ℕ) → Server → List Event → Server
  unfolding step
  run workers v [] = v
  run workers v (e ∷ es) = run workers (step workers v e) es

  -- No session is added.
  pub record Keeps (s t : SessionStore entries rates) : Type 0 where
    pub limit : t.max_active_sessions ≡ s.max_active_sessions
    pub fewer : len t.sessions ≤ len s.sessions

  Keeps-refl : (s : SessionStore entries rates) → Keeps s s
  Keeps-refl s = record { limit = refl; fewer = omega arith }

  Keeps-if :
      (b : Bool) (s t u : SessionStore entries rates)
      → Keeps s t
      → Keeps s u
      → Keeps s (if b then t else u)
  Keeps-if true s t u h k = h
  Keeps-if false s t u h k = k

  pub Keeps-trans : (s t u : SessionStore entries rates) → Keeps s t → Keeps t u → Keeps s u
  Keeps-trans s t u h k = record {
    limit = k.limit ∙ h.limit;
    fewer = omega (arith, h.fewer, k.fewer);
  }

  cleanup-Keeps :
      (now : ℕ) (s : SessionStore entries rates)
      → Keeps s (cleanup_expired_force entries rates now s)
  unfolding cleanup_expired_force
  cleanup-Keeps now s = record { limit = refl; fewer = len-retain-le _ s.sessions }

  pub maybe_cleanup-Keeps :
      (locked : Bool) (now : ℕ) (s : SessionStore entries rates)
      → Keeps s (maybe_cleanup_expired entries rates locked now s)
  unfolding maybe_cleanup_expired cleanup_expired_force
  maybe_cleanup-Keeps locked now s =
      Keeps-if _ s _ s (record { limit = refl; fewer = len-retain-le _ s.sessions }) (Keeps-refl s)

  count_request-Keeps :
      (now : ℕ) (ip : IpAddr) (s : SessionStore entries rates)
      → Keeps s (count_request entries rates now ip s).0
  unfolding count_request
  count_request-Keeps now ip s = ground (arith, Keeps-refl s)

  pub check_rate-Keeps :
      (now : ℕ) (ip : Option IpAddr) (s : SessionStore entries rates)
      → Keeps s (check_rate entries rates now ip s).0
  unfolding check_rate
  check_rate-Keeps now none s = Keeps-refl s
  check_rate-Keeps now (some ip) s =
      let cleaned = cleanup_expired_force entries rates now s in
      let k = cleanup-Keeps now s in
      let counted = Keeps-trans s cleaned _ k (count_request-Keeps now ip cleaned) in
      elim (Bool-cases (rates_full entries rates ip s)) [
        | inr free ↦ rw free (count_request-Keeps now ip s)
        | inl full ↦ elim (Bool-cases (rates_full entries rates ip cleaned)) [
          | inl still ↦ rw (full, still) k
          | inr room ↦ rw (full, room) counted
        ]
      ]

  pub verify-Keeps :
      (now : ℕ) (id : Bytes) (code : Option Bytes) (s : SessionStore entries rates)
      → Keeps s (verify_session_code entries rates now id code s).0
  unfolding verify_session_code
  verify-Keeps now id code s = elim (Option-cases (get id s.sessions)) [
    | inl e ↦ rw (e, verify_session_code) (Keeps-refl s)
    | inr (e, found) ↦ ground (
      arith,
      found,
      len-insert id (failed e) s.sessions,
      len-remove id s.sessions,
      len-remove id (insert id (failed e) s.sessions),
    )
  ]

  attach-Keeps :
      (id : Bytes) (claims : Claims) (s : SessionStore entries rates)
      → Keeps s (attach entries rates id claims s).0
  unfolding attach
  attach-Keeps id claims s = elim (Option-cases (get id s.sessions)) [
    | inl e ↦ rw (e, attach) (Keeps-refl s)
    | inr (e, found) ↦ ground (
      arith,
      found,
      len-insert id (record e { status = confirmed (with_aud e.aud claims) }) s.sessions,
    )
  ]

  pub confirm-Keeps :
      (now : ℕ) (id : Bytes) (code : Option Bytes) (claims : Claims)
      (s : SessionStore entries rates)
      → Keeps s (confirm_session entries rates now id code claims s).0
  unfolding confirm_session
  confirm-Keeps now id code claims s =
      let v = verify-Keeps now id code s in
      let t = (verify_session_code entries rates now id code s).0 in
      ground (arith, v, Keeps-trans s t _ v (attach-Keeps id claims t))

  pub poll-Keeps :
      (now : ℕ) (id secret : Bytes) (s : SessionStore entries rates)
      → Keeps s (get_and_consume entries rates now id secret s).0
  unfolding get_and_consume
  poll-Keeps now id secret s = ground (arith, len-remove id s.sessions)

  pub check_capacity-Keeps :
      (now : ℕ) (s : SessionStore entries rates) → Keeps s (check_capacity entries rates now s).0
  unfolding check_capacity
  check_capacity-Keeps now s = elim (Bool-cases (leb s.max_active_sessions (len s.sessions))) [
    | inl full ↦ rw full (cleanup-Keeps now s)
    | inr free ↦ rw free (Keeps-refl s)
  ]

  -- What passes the check has found a free place.
  pub check_capacity-free :
      (now : ℕ) (s : SessionStore entries rates)
      → (check_capacity entries rates now s).1 ≡ true
      → len (check_capacity entries rates now s).0.sessions < s.max_active_sessions
  unfolding check_capacity
  check_capacity-free now s h = elim (Bool-cases (leb s.max_active_sessions (len s.sessions))) [
    | inl full ↦ rw full (ground (arith, full, h))
    | inr free ↦ rw free (ground (arith, free))
  ]
