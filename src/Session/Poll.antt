-- ===== src/Session/Poll.antt =====
-- Who learns the claims of a session, and how often.
use praeco_rs.Prelude.{
  ℕ, ◌≡◌, ◌↔◌, inl, inr, Option-cases, All, refl, true, false, Option, none, some, Bytes, arith,
}
use praeco_rs.Net.{IpAddr}
use praeco_rs.DashMap.{DashMap}
use praeco_rs.Session.Text.{constant_time_eq, constant_time_eq_iff, IsByte}
use praeco_rs.Session.{
  Claims, SessionStatus, pending, confirmed, SessionEntry, PollError, unauthorized, ok, err, Result,
  with_aud, is_expired, code_matches, SessionStore, take_confirmed, get_and_consume,
  verify_session_code, confirm_session, attach,
}
use praeco_rs.Session

module _ (entries : DashMap Bytes SessionEntry) (rates : DashMap IpAddr (ℕ × ℕ)) where
  open entries use {get, same_iff, get-insert, get-remove}

  -- A poll that returns claims had the session's secret, before the session expired, and the session
  -- was confirmed with these claims; the session is gone, so that no later poll, with whatever
  -- secret, and no poll that had already seen it confirmed gets anything.
  pub get_and_consume_once :
      (now : ℕ) (id secret : Bytes) (s t : SessionStore entries rates) (c : Claims)
      → get_and_consume entries rates now id secret s ≡ (t, ok (confirmed c))
      → ((e : SessionEntry) × (get id s.sessions ≡ some e)
          × (constant_time_eq e.poll_secret secret ≡ true)
          × (is_expired s.ttl now e.created_at ≡ false)
          × (e.status ≡ confirmed c))
        × ((later : ℕ) (other : Bytes)
            → (get_and_consume entries rates later id other t
                ≡ (t, err Session.PollError.not_found))
              × (take_confirmed entries rates id other t ≡ (t, err Session.PollError.not_found)))
  unfolding get_and_consume
  get_and_consume_once now id secret s t c h = elim (Option-cases (get id s.sessions)) [
    | inl missing ↦ absurd (ground arith)
    | inr (e, found) ↦
        let gone : get id t.sessions ≡ none =
          ground (arith, get-remove id id s.sessions, same_iff id id) in
        ((e, found, ground arith, ground arith, ground arith), λ later other. ground (arith, gone))
  ]

  -- A confirmation succeeds exactly on a session that is there, not expired, not confirmed yet, and
  -- whose user code matches.
  confirm_session-ok_iff :
      (now : ℕ) (id : Bytes) (code : Option Bytes) (claims : Claims)
      (s : SessionStore entries rates) (e : SessionEntry)
      → get id s.sessions ≡ some e
      → ((confirm_session entries rates now id code claims s).1 ≡ none) ↔ (
          (is_expired s.ttl now e.created_at ≡ false)
          × (e.status ≡ pending)
          × (code_matches code e.user_code ≡ true))
  unfolding confirm_session verify_session_code attach
  confirm_session-ok_iff now id code claims s e h = ground arith

  -- After a confirmation, a poll with the session's secret before it expires returns the claims,
  -- with the audience that the session was created for if it had one.
  get_and_consume-confirm_session :
      (now later : ℕ) (id : Bytes) (code : Option Bytes) (claims : Claims)
      (s : SessionStore entries rates) (e : SessionEntry)
      → get id s.sessions ≡ some e
      → (confirm_session entries rates now id code claims s).1 ≡ none
      → All IsByte e.poll_secret
      → is_expired s.ttl later e.created_at ≡ false
      → (get_and_consume entries rates later id e.poll_secret
          (confirm_session entries rates now id code claims s).0).1
        ≡ ok (confirmed (with_aud e.aud claims))
  unfolding confirm_session verify_session_code attach get_and_consume
  get_and_consume-confirm_session now later id code claims s e h k b x = ground (
    arith,
    (constant_time_eq_iff e.poll_secret e.poll_secret b b).1 refl,
    get-insert id id (record e { status = confirmed (with_aud e.aud claims) }) s.sessions,
    same_iff id id,
  )
