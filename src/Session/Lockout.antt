-- ===== src/Session/Lockout.antt =====
-- Guessing the user code of a session.
use praeco_rs.Prelude.{
  ◌∙◌, refl, ℕ, ◌+◌, ◌≤◌, ◌<◌, ◌≡◌, false, true, Option, none, some, List, [], ◌∷◌, length, ltb,
  if◌then◌else◌, Bytes, arith, All,
}
use praeco_rs.Net.{IpAddr}
use praeco_rs.DashMap.{DashMap}
use praeco_rs.Session.{
  Claims, pending, SessionEntry, ConfirmError, expired, invalid_user_code, SessionStore,
  code_matches, is_expired, verify_session_code,
}
use praeco_rs.Session

module _ (entries : DashMap Bytes SessionEntry) (rates : DashMap IpAddr (ℕ × ℕ)) where
  open entries use {get, same_iff, get-insert, get-remove}

  -- Attempts with a user code, each at its time.
  unfoldable pub attempts :
      Bytes → List (ℕ × Option Bytes) → SessionStore entries rates → SessionStore entries rates
  unfolding verify_session_code
  attempts id [] s = s
  attempts id ((now, code) ∷ rest) s =
      attempts id rest (verify_session_code entries rates now id code s).0

  -- The attempt is in time and has a wrong code.
  abbrev pub IsWrong : (ttl created_at : ℕ) → (user_code : Bytes) → ℕ × Option Bytes → Type 0
  IsWrong ttl created_at user_code (now, code) =
      (is_expired ttl now created_at ≡ false) × (code_matches code user_code ≡ false)

  attempts-gone :
      (id : Bytes) (tries : List (ℕ × Option Bytes)) (s : SessionStore entries rates)
      → get id s.sessions ≡ none
      → get id (attempts id tries s).sessions ≡ none
  unfolding attempts
  attempts-gone id [] s h = h
  attempts-gone id ((now, code) ∷ rest) s h = ground (arith, attempts-gone id rest s)

  verify_session_code_ttl :
      (now : ℕ) (id : Bytes) (code : Option Bytes) (s : SessionStore entries rates)
      → (verify_session_code entries rates now id code s).0.ttl ≡ s.ttl
  unfolding verify_session_code
  verify_session_code_ttl now id code s = ground arith

  attempts_ttl :
      (id : Bytes) (tries : List (ℕ × Option Bytes)) (s : SessionStore entries rates)
      → (attempts id tries s).ttl ≡ s.ttl
  unfolding attempts
  attempts_ttl id [] s = refl
  attempts_ttl id ((now, code) ∷ rest) s =
      attempts_ttl id rest (verify_session_code entries rates now id code s).0
      ∙ verify_session_code_ttl now id code s

  attempts_from :
      (id : Bytes) (tries : List (ℕ × Option Bytes)) (s : SessionStore entries rates)
      (e : SessionEntry)
      → get id s.sessions ≡ some e
      → e.status ≡ pending
      → All (IsWrong s.ttl e.created_at e.user_code) tries
      → e.failed_attempts < 3
      → get id (attempts id tries s).sessions ≡ (
          if ltb (e.failed_attempts + length tries) 3
          then some (record e { failed_attempts = e.failed_attempts + length tries })
          else none)
  unfolding attempts
  attempts_from id [] s e h p w l = ground arith
  attempts_from id ((now, code) ∷ rest) s e h p w l = ground (
    arith,
    same_iff id id,
    get-insert id id (record e { failed_attempts = e.failed_attempts + 1 }) s.sessions,
    get-remove id id
        (entries.insert id (record e { failed_attempts = e.failed_attempts + 1 }) s.sessions),
    attempts-gone id rest (verify_session_code entries rates now id code s).0,
    attempts_from id rest (verify_session_code entries rates now id code s).0
        (record e { failed_attempts = e.failed_attempts + 1 }),
  )

  -- Three or more wrong user codes for a fresh session, tried before it expires, remove it: from
  -- then on every code, the right one too, is answered with not found.
  pub verify_session_code-lockout :
      (id : Bytes) (tries : List (ℕ × Option Bytes)) (s : SessionStore entries rates)
      (e : SessionEntry)
      → get id s.sessions ≡ some e
      → e.status ≡ pending
      → e.failed_attempts ≡ 0
      → All (IsWrong s.ttl e.created_at e.user_code) tries
      → 3 ≤ length tries
      → (get id (attempts id tries s).sessions ≡ none)
        × ((now : ℕ) (code : Option Bytes)
            → (verify_session_code entries rates now id code (attempts id tries s)).1
              ≡ some Session.ConfirmError.not_found)
  verify_session_code-lockout id tries s e h p z w l =
      let all = attempts_from id tries s e h p w (omega arith) in
      let gone : get id (attempts id tries s).sessions ≡ none = ground (arith, all) in
      (gone, λ now code. unfold verify_session_code in ground (arith, gone))

  -- One or two wrong user codes for a fresh session, tried before it expires, leave it as it was
  -- but for the number of failed attempts; the right code, sent before it expires, is then accepted
  -- and changes nothing.
  verify_session_code-attempts_left :
      (id : Bytes) (tries : List (ℕ × Option Bytes)) (s : SessionStore entries rates)
      (e : SessionEntry)
      → get id s.sessions ≡ some e
      → e.status ≡ pending
      → e.failed_attempts ≡ 0
      → All (IsWrong s.ttl e.created_at e.user_code) tries
      → length tries < 3
      → (now : ℕ) (code : Option Bytes) → is_expired s.ttl now e.created_at ≡ false
      → code_matches code e.user_code ≡ true
      → (get id (attempts id tries s).sessions ≡ some (record e { failed_attempts = length tries }))
        × (verify_session_code entries rates now id code (attempts id tries s)
            ≡ (attempts id tries s, none))
  verify_session_code-attempts_left id tries s e h p z w l now code x m =
      let all = attempts_from id tries s e h p w (omega arith) in
      let kept : get id (attempts id tries s).sessions
          ≡ some (record e { failed_attempts = length tries }) =
        ground (arith, all) in
      let same = attempts_ttl id tries s in
      (kept, unfold verify_session_code in ground (arith, kept, same))
