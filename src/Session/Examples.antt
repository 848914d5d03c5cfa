-- ===== src/Session/Examples.antt =====
-- Runs of the session store, and its theorems at them.
use praeco_rs.Prelude.{
  ℕ, ◌+◌, ◌*◌, ◌≤◌, ◌<◌, ◌≡◌, refl, ap, true, false, Option, none, some, List, [], ◌∷◌, Bytes,
  bytes_eq, bytes_eq_iff, arith,
}
use praeco_rs.Net.{IpAddr, v4, ip_eq, ip_eq_iff, canonical_client_ip}
use praeco_rs.DashMap.{DashMap, assoc}
use praeco_rs.Session.{
  second, Claims, SessionInfo, SessionEntry, SessionStore, pending, confirmed, SessionStatus, ok,
  err, PollError, unauthorized, ConfirmError, rate_limited, new_store, code_matches, create_session,
  check_rate, check_capacity, admit, maybe_cleanup_expired, verify_session_code, attach,
  confirm_session, get_and_consume, is_expired,
}
use praeco_rs.Session
use praeco_rs.Session.Text.{generate_user_code}
use praeco_rs.Session.Poll.{get_and_consume_once}
use praeco_rs.Session.Lockout.{attempts, verify_session_code-lockout}
use praeco_rs.Session.Overlap.{Event, begin, check, store, poll, run, step}
use praeco_rs.Session.Capacity.{idle, run-session_count}
use praeco_rs.Session.RateLimit.{Request, opened, create_session-opened_le}

abbrev entries : DashMap Bytes SessionEntry
unfolding assoc
entries = assoc bytes_eq bytes_eq_iff

abbrev rates : DashMap IpAddr (ℕ × ℕ)
unfolding assoc
rates = assoc ip_eq ip_eq_iff

abbrev id : Bytes
id = 1 ∷ []

abbrev secret : Bytes
secret = 7 ∷ 8 ∷ []

abbrev other : Bytes
other = 7 ∷ 9 ∷ []

abbrev info : SessionInfo
info = record { session_id = id; poll_secret = secret; user_code = b'A' ∷ b'B' ∷ b'-' ∷ b'C' ∷ [] }

abbrev claims : Claims
claims = record { sub = b'm' ∷ []; iss = b'i' ∷ []; aud = none; exp = 100; oids = []; jti = none }

abbrev code : Option Bytes
code = some (b'a' ∷ b'b' ∷ b'c' ∷ [])

abbrev wrong : Option Bytes
wrong = some (b'x' ∷ [])

abbrev Store : Type 0
Store = SessionStore entries rates

abbrev new : Store
unfolding new_store create_session check_rate admit maybe_cleanup_expired confirm_session
    verify_session_code attach
new = new_store entries rates 0 300

abbrev created : Store
unfolding new_store create_session check_rate admit maybe_cleanup_expired confirm_session
    verify_session_code attach new
created = (create_session entries rates true 0 (some (v4 10)) (some (b'a' ∷ [])) info new).0

abbrev done : Store
unfolding new_store create_session check_rate admit maybe_cleanup_expired confirm_session
    verify_session_code attach new created
done = (confirm_session entries rates second id code claims created).0

abbrev entry : SessionEntry
entry = record {
  created_at = 0;
  poll_secret = secret;
  user_code = info.user_code;
  failed_attempts = 0;
  aud = some (b'a' ∷ []);
  client_ip = some (v4 10);
  status = pending;
}

code_generated :
    generate_user_code (0 ∷ 1 ∷ 2 ∷ 3 ∷ 4 ∷ 31 ∷ [])
    ≡ b'2' ∷ b'3' ∷ b'4' ∷ b'-' ∷ b'5' ∷ b'6' ∷ b'Z' ∷ []
unfolding generate_user_code
code_generated = refl

created_entry : entries.get id created.sessions ≡ some entry
unfolding created entries rates canonical_client_ip
created_entry = refl

confirmed_now : (confirm_session entries rates second id code claims created).1 ≡ none
unfolding confirm_session verify_session_code attach created entries rates canonical_client_ip
confirmed_now = refl

get_and_consume_once_example :
    (get_and_consume entries rates
      (9 * second)
      id
      secret
      (get_and_consume entries rates (2 * second) id secret done).0).1
    ≡ err Session.PollError.not_found
unfolding get_and_consume done created entries rates canonical_client_ip
get_and_consume_once_example =
    ap (λ x. x.1)
      ((get_and_consume_once entries rates (2 * second) id secret done
          (get_and_consume entries rates (2 * second) id secret done).0
          (record claims { aud = some (b'a' ∷ []) }) refl).1
        (9 * second) secret).0

verify_session_code-lockout_example :
    entries.get id
      (attempts entries rates id ((1, wrong) ∷ (2, none) ∷ (3, wrong) ∷ []) created).sessions
    ≡ none
unfolding code_matches is_expired created rates
verify_session_code-lockout_example =
    (verify_session_code-lockout entries rates id ((1, wrong) ∷ (2, none) ∷ (3, wrong) ∷ []) created
      entry created_entry refl refl ((refl, refl), ((refl, refl), ((refl, refl), tt)))
      (omega arith)).0

abbrev steps : List Event
steps =
    begin true 1 (some (v4 10)) ∷ check 1 ∷ store 1 (some (v4 10)) none info ∷ poll 2 id secret ∷ []

run-session_count_example :
    entries.len
      (run entries rates 1
        (idle entries rates (new_store entries rates 0 300))
        steps).sessions.sessions
    < 5000 + 1
run-session_count_example = run-session_count entries rates 0 300 1 steps (omega arith)

-- Two calls check a store with one free place, and both insert.
abbrev twice : List Event
twice =
    begin false 1 none
    ∷ begin false 1 none
    ∷ check 1
    ∷ check 1
    ∷ store 1 none none info
    ∷ store 1 none none (record info { session_id = secret })
    ∷ []

over_capacity :
    entries.len
      (run entries rates 2
        (idle entries rates (record (new_store entries rates 0 300) { max_active_sessions = 1 }))
        twice).sessions.sessions
    ≡ 2
unfolding run step new_store check_rate maybe_cleanup_expired check_capacity assoc
over_capacity = refl

abbrev request : Request
request = record { locked = true; now = 5; client_ip = some (v4 10); aud = none; info = info }

create_session-opened_le_example :
    opened entries rates (v4 10) (request ∷ request ∷ []) created ≤ 14
unfolding created entries rates canonical_client_ip
create_session-opened_le_example =
    create_session-opened_le entries rates (v4 10) (request ∷ request ∷ []) created 1 0 refl
      (omega arith, (omega arith, tt))
