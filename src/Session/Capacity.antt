-- ===== src/Session/Capacity.antt =====
-- How many sessions the store can hold when calls overlap.
use praeco_rs.Prelude.{
  ℕ, ◌+◌, ◌-◌, ◌≤◌, ◌<◌, ◌≡◌, refl, Bool, true, false, ltb, Option, none, some, List, [], ◌∷◌,
  Bytes, arith, inl, inr, Bool-cases, ◌∙◌,
}
use praeco_rs.Net.{IpAddr}
use praeco_rs.DashMap.{DashMap}
use praeco_rs.Session.{
  SessionInfo, SessionEntry, SessionStore, CreateSessionError, new_store, maybe_cleanup_expired,
  check_rate, check_capacity, canonical, insert_session,
}
use praeco_rs.Session.Overlap.{
  Event, begin, check, store, verify, confirm, poll, Keeps, Server, begun, checked, step, run,
  Keeps-trans, maybe_cleanup-Keeps, check_rate-Keeps, verify-Keeps, confirm-Keeps, poll-Keeps,
  check_capacity-Keeps, check_capacity-free,
}

module _ (entries : DashMap Bytes SessionEntry) (rates : DashMap IpAddr (ℕ × ℕ)) where
  open entries use {len, len-empty, len-insert}

  pub record IsBounded (max workers : ℕ) (v : Server entries rates) : Type 0 where
    pub limit : v.sessions.max_active_sessions ≡ max
    pub running : v.checking + v.inserting ≤ workers
    pub count : len v.sessions.sessions + v.inserting < max + workers

  module _ {max workers : ℕ} where
    -- A step that adds no session and passes no call on to the insertion.
    kept-IsBounded :
        (v : Server entries rates) (t : SessionStore entries rates) (checking : ℕ)
        → IsBounded max workers v
        → Keeps entries rates v.sessions t
        → checking + v.inserting ≤ workers
        → IsBounded max workers
            (record { sessions = t; checking = checking; inserting = v.inserting })
    kept-IsBounded v t checking b k fits = record {
      limit = k.limit ∙ b.limit;
      running = fits;
      count = omega (arith, b.count, k.fewer);
    }

    begun-IsBounded :
        (v : Server entries rates) (t : SessionStore entries rates)
        (refusal : Option CreateSessionError)
        → IsBounded max workers v
        → Keeps entries rates v.sessions t
        → v.checking + v.inserting < workers
        → IsBounded max workers (begun entries rates v (t, refusal))
    begun-IsBounded v t none b k room = kept-IsBounded v t (v.checking + 1) b k (omega arith)
    begun-IsBounded v t (some refusal) b k room = kept-IsBounded v t v.checking b k b.running

    checked-IsBounded :
        (v : Server entries rates) (t : SessionStore entries rates) (free : Bool)
        → IsBounded max workers v
        → Keeps entries rates v.sessions t
        → 0 < v.checking
        → (free ≡ true → len t.sessions < t.max_active_sessions)
        → IsBounded max workers (checked entries rates v (t, free))
    checked-IsBounded v t false b k ready h =
        kept-IsBounded v t (v.checking - 1) b k (omega (arith, b.running))
    checked-IsBounded v t true b k ready h = record {
      limit = k.limit ∙ b.limit;
      running = omega (arith, b.running);
      count = omega (arith, b.running, b.limit, k.limit, h refl);
    }

    stored-IsBounded :
        (v : Server entries rates) (now : ℕ) (ip : Option IpAddr) (aud : Option Bytes)
        (info : SessionInfo)
        → IsBounded max workers v
        → 0 < v.inserting
        → IsBounded max workers (record v {
          sessions = insert_session entries rates now ip aud info v.sessions;
          inserting = v.inserting - 1;
        })
    stored-IsBounded v now ip aud info b ready = record {
      limit = b.limit;
      running = omega (arith, b.running);
      count = omega (arith, b.count, len-insert info.session_id _ v.sessions.sessions);
    }

    step-IsBounded :
        (v : Server entries rates) (e : Event)
        → IsBounded max workers v
        → IsBounded max workers (step entries rates workers v e)
    unfolding step
    step-IsBounded v (begin locked now ip) b =
        elim (Bool-cases (ltb (v.checking + v.inserting) workers)) [
          | inr busy ↦ rw busy b
          | inl room ↦
              let cleaned = maybe_cleanup_expired entries rates locked now v.sessions in
              let rated = check_rate entries rates now (canonical ip) cleaned in
              rw room (
                begun-IsBounded v rated.0 rated.1 b
                  (Keeps-trans entries rates v.sessions cleaned rated.0
                    (maybe_cleanup-Keeps entries rates locked now v.sessions)
                    (check_rate-Keeps entries rates now (canonical ip) cleaned))
                  (ground (arith, room)))
        ]
    step-IsBounded v (check now) b = elim (Bool-cases (ltb 0 v.checking)) [
      | inr none_ ↦ rw none_ b
      | inl ready ↦
          let (t, free) = check_capacity entries rates now v.sessions in
          rw ready (
            checked-IsBounded v t free b (check_capacity-Keeps entries rates now v.sessions)
              (ground (arith, ready))
              (λ h. omega (
                arith,
                check_capacity-free entries rates now v.sessions h,
                (check_capacity-Keeps entries rates now v.sessions).limit,
              )))
    ]
    step-IsBounded v (store now ip aud info) b = elim (Bool-cases (ltb 0 v.inserting)) [
      | inr none_ ↦ rw none_ b
      | inl ready ↦
          rw ready (stored-IsBounded v now (canonical ip) aud info b (ground (arith, ready)))
    ]
    step-IsBounded v (verify now id code) b =
        kept-IsBounded v _ v.checking b (verify-Keeps entries rates now id code v.sessions)
          b.running
    step-IsBounded v (confirm now id code claims) b =
        kept-IsBounded v _ v.checking b (confirm-Keeps entries rates now id code claims v.sessions)
          b.running
    step-IsBounded v (poll now id secret) b =
        kept-IsBounded v _ v.checking b (poll-Keeps entries rates now id secret v.sessions)
          b.running

    run_from-IsBounded :
        (v : Server entries rates) (es : List Event)
        → IsBounded max workers v
        → IsBounded max workers (run entries rates workers v es)
    unfolding run
    run_from-IsBounded v [] b = b
    run_from-IsBounded v (e ∷ es) b =
        run_from-IsBounded (step entries rates workers v e) es (step-IsBounded v e b)

  -- A store without calls in progress.
  abbrev pub idle : SessionStore entries rates → Server entries rates
  idle s = record { sessions = s; checking = 0; inserting = 0 }

  -- In every interleaving of calls, where the check of `create_session` and its insertion are steps
  -- of their own and at most `workers` calls of `create_session` run at once, a new store holds
  -- fewer than 5000 + `workers` sessions: at most 5000 if they run one after the other.
  pub run-session_count :
      (now ttl_seconds workers : ℕ) (es : List Event)
      → 0 < workers
      → len
          (run entries rates workers
            (idle (new_store entries rates now ttl_seconds))
            es).sessions.sessions
        < 5000 + workers
  unfolding new_store
  run-session_count now ttl_seconds workers es some_ =
      let start : IsBounded 5000 workers (idle (new_store entries rates now ttl_seconds)) = record {
        limit = refl;
        running = omega arith;
        count = omega (arith, len-empty);
      } in
      omega (arith, (run_from-IsBounded _ es start).count)
