-- ===== src/Session.antt =====
-- The store of login sessions of the identity provider: server/src/middleware/idp/session.rs.
-- A text is the list of its UTF-8 bytes. Times are in nanoseconds; a method runs at one instant,
-- its argument `now`. What the random generator yields and whether `try_lock` succeeds are
-- arguments. Log lines are left out.
pub mod Text
pub mod Poll
pub mod Lockout
pub mod Overlap
pub mod Capacity
pub mod RateLimit
mod Examples
use praeco_rs.Prelude.{
  ℕ, ◌+◌, ◌-◌, ◌*◌, min, Bool, true, false, not, ◌&&◌, ltb, leb, if◌then◌else◌, Option, none, some,
  List, Bytes,
}
use praeco_rs.Net.{IpAddr, canonical_client_ip}
use praeco_rs.DashMap.{DashMap}
use Text.{constant_time_eq, is_blank, clean}

abbrev pub second : ℕ
second = 1_000_000_000

abbrev pub max_login_requests_per_minute : ℕ
max_login_requests_per_minute = 15

abbrev pub rate_limit_window : ℕ
rate_limit_window = 60 * second

abbrev pub default_max_active_sessions : ℕ
default_max_active_sessions = 5000

abbrev pub cleanup_throttle_interval : ℕ
cleanup_throttle_interval = 10 * second

abbrev pub max_confirm_attempts : ℕ
max_confirm_attempts = 3

pub record Claims : Type 0 where
  pub sub : Bytes
  pub iss : Bytes
  pub aud : Option Bytes
  pub exp : ℕ
  pub oids : List Bytes
  pub jti : Option Bytes

pub record SessionInfo : Type 0 where
  pub session_id : Bytes
  pub poll_secret : Bytes
  pub user_code : Bytes

pub data SessionStatus : Type 0 where
  pending : SessionStatus
  confirmed : Claims → SessionStatus

pub record SessionEntry : Type 0 where
  pub created_at : ℕ
  pub poll_secret : Bytes
  pub user_code : Bytes
  pub failed_attempts : ℕ
  pub aud : Option Bytes
  pub client_ip : Option IpAddr
  pub status : SessionStatus

pub data CreateSessionError : Type 0 where
  rate_limited capacity_exceeded : CreateSessionError

pub data PollError : Type 0 where
  not_found unauthorized : PollError

pub data ConfirmError : Type 0 where
  not_found expired invalid_user_code already_confirmed : ConfirmError

pub data Result (A E : Type 0) : Type 0 where
  ok : A → Result A E
  err : E → Result A E

abbrev is_confirmed : SessionStatus → Bool
is_confirmed pending = false
is_confirmed (confirmed c) = true

-- Whether the code that a device sends matches the code of a session.
unfoldable pub code_matches : Option Bytes → Bytes → Bool
unfolding constant_time_eq is_blank clean
code_matches none expected = false
code_matches (some code) expected =
    if is_blank code then false else constant_time_eq (clean code) (clean expected)

-- The claims of a confirmed session keep the audience that the session was created for.
abbrev pub with_aud : Option Bytes → Claims → Claims
with_aud none c = c
with_aud (some a) c = record c { aud = some a }

unfoldable pub is_expired : (ttl now created_at : ℕ) → Bool
is_expired ttl now created_at = ltb ttl (now - created_at)

abbrev pub is_absent : Option (ℕ × ℕ) → Bool
is_absent none = true
is_absent (some r) = false

abbrev pub rate_or_new : ℕ → Option (ℕ × ℕ) → ℕ × ℕ
rate_or_new now none = (0, now)
rate_or_new now (some r) = r

abbrev pub canonical : Option IpAddr → Option IpAddr
canonical none = none
canonical (some ip) = some (canonical_client_ip ip)

abbrev pub failed : SessionEntry → SessionEntry
failed e = record e { failed_attempts = min (e.failed_attempts + 1) 255 }

module _ (entries : DashMap Bytes SessionEntry) (rates : DashMap IpAddr (ℕ × ℕ)) where
  open entries use {Map, empty, get, insert, remove, retain, len}
  open rates use {
    Map as Rates, empty as no_rates, get as get_rate, insert as insert_rate, retain as retain_rates,
    len as len_rates,
  }

  pub record SessionStore : Type 0 where
    pub sessions : Map
    pub ip_rate_limits : Rates
    pub ttl : ℕ
    pub max_active_sessions : ℕ
    pub last_cleanup : ℕ

  unfoldable pub new_store : (now ttl_seconds : ℕ) → SessionStore
  new_store now ttl_seconds = record {
    sessions = empty;
    ip_rate_limits = no_rates;
    ttl = ttl_seconds * second;
    max_active_sessions = default_max_active_sessions;
    last_cleanup = now;
  }

  unfoldable pub cleanup_expired_force : ℕ → SessionStore → SessionStore
  unfolding is_expired
  cleanup_expired_force now s = record s {
    sessions = retain (λ e. not (is_expired s.ttl now e.created_at)) s.sessions;
    ip_rate_limits = retain_rates (λ r. leb (now - r.1) rate_limit_window) s.ip_rate_limits;
  }

  -- `locked` says whether `try_lock` succeeds.
  unfoldable pub maybe_cleanup_expired : (locked : Bool) → ℕ → SessionStore → SessionStore
  unfolding cleanup_expired_force
  maybe_cleanup_expired locked now s =
      if locked && leb cleanup_throttle_interval (now - s.last_cleanup)
      then cleanup_expired_force now (record s { last_cleanup = now })
      else s

  -- The address is new and the table of rates is full.
  unfoldable pub rates_full : IpAddr → SessionStore → Bool
  rates_full ip s =
      is_absent (get_rate ip s.ip_rate_limits)
      && leb (s.max_active_sessions * 2) (len_rates s.ip_rate_limits)

  -- The entry of an address counts one more request; a window that is over starts anew.
  unfoldable pub count_request :
      ℕ → IpAddr → SessionStore → SessionStore × Option CreateSessionError
  count_request now ip s =
      let (count, start) = rate_or_new now (get_rate ip s.ip_rate_limits) in
      if ltb rate_limit_window (now - start)
      then (record s { ip_rate_limits = insert_rate ip (1, now) s.ip_rate_limits }, none)
      else (
        record s { ip_rate_limits = insert_rate ip (count + 1, start) s.ip_rate_limits },
        if ltb max_login_requests_per_minute (count + 1) then some rate_limited else none,
      )

  unfoldable pub check_rate :
      ℕ → Option IpAddr → SessionStore → SessionStore × Option CreateSessionError
  unfolding rates_full count_request cleanup_expired_force
  check_rate now none s = (s, none)
  check_rate now (some ip) s =
      if rates_full ip s
      then if rates_full ip (cleanup_expired_force now s)
        then (cleanup_expired_force now s, some capacity_exceeded)
        else count_request now ip (cleanup_expired_force now s)
      else count_request now ip s

  abbrev insert_session :
      ℕ → Option IpAddr → Option Bytes → SessionInfo → SessionStore → SessionStore
  insert_session now ip aud info s = record s {
    sessions =
        insert info.session_id
          (record {
            created_at = now;
            poll_secret = info.poll_secret;
            user_code = info.user_code;
            failed_attempts = 0;
            aud = aud;
            client_ip = ip;
            status = pending;
          })
          s.sessions;
  }

  -- The capacity check: whether a session may be inserted, which is an operation of its own.
  unfoldable pub check_capacity : ℕ → SessionStore → SessionStore × Bool
  unfolding cleanup_expired_force
  check_capacity now s =
      if leb s.max_active_sessions (len s.sessions)
      then (
        cleanup_expired_force now s,
        ltb (len (cleanup_expired_force now s).sessions) s.max_active_sessions,
      )
      else (s, true)

  -- The check and the insertion, where no other call comes between them.
  unfoldable pub admit :
      ℕ
      → Option IpAddr
      → Option Bytes
      → SessionInfo
      → SessionStore
      → SessionStore × Result SessionInfo CreateSessionError
  unfolding check_capacity
  admit now ip aud info s =
      let (t, free) = check_capacity now s in
      if free then (insert_session now ip aud info t, ok info) else (t, err capacity_exceeded)

  -- `info` is what the generators yield.
  unfoldable pub create_session :
      (locked : Bool) (now : ℕ)
      → Option IpAddr
      → Option Bytes
      → SessionInfo
      → SessionStore
      → SessionStore × Result SessionInfo CreateSessionError
  create_session locked now client_ip aud info s =
      let (t, refusal) =
        check_rate now (canonical client_ip) (maybe_cleanup_expired locked now s) in
      elim refusal [ some e ↦ (t, err e) | none ↦ admit now (canonical client_ip) aud info t ]

  unfoldable pub verify_session_code :
      ℕ → Bytes → Option Bytes → SessionStore → SessionStore × Option ConfirmError
  unfolding code_matches is_expired
  verify_session_code now id user_code s = elim (get id s.sessions) [
    | none ↦ (s, some not_found)
    | some e ↦
        if is_expired s.ttl now e.created_at
        then (record s { sessions = remove id s.sessions }, some expired)
        else if is_confirmed e.status
        then (s, some already_confirmed)
        else if code_matches user_code e.user_code
        then (s, none)
        else (
          record s {
            sessions =
                if leb max_confirm_attempts (failed e).failed_attempts
                then remove id (insert id (failed e) s.sessions)
                else insert id (failed e) s.sessions;
          },
          some invalid_user_code,
        )
  ]

  unfoldable pub attach : Bytes → Claims → SessionStore → SessionStore × Option ConfirmError
  attach id claims s = elim (get id s.sessions) [
    | none ↦ (s, some not_found)
    | some e ↦ if is_confirmed e.status then (s, some already_confirmed) else (
      record s {
        sessions = insert id (record e { status = confirmed (with_aud e.aud claims) }) s.sessions;
      },
      none,
    )
  ]

  unfoldable pub confirm_session :
      ℕ → Bytes → Option Bytes → Claims → SessionStore → SessionStore × Option ConfirmError
  confirm_session now id user_code claims s =
      let (t, refusal) = verify_session_code now id user_code s in
      elim refusal [ some e ↦ (t, some e) | none ↦ attach id claims t ]

  -- The `remove_if` of `get_and_consume`, on the table as it is by then.
  unfoldable pub take_confirmed :
      Bytes → Bytes → SessionStore → SessionStore × Result SessionStatus PollError
  unfolding constant_time_eq
  take_confirmed id poll_secret s = elim (get id s.sessions) [
    | none ↦ (s, err not_found)
    | some e ↦
        if constant_time_eq e.poll_secret poll_secret && is_confirmed e.status
        then (record s { sessions = remove id s.sessions }, ok e.status)
        else (s, err not_found)
  ]

  unfoldable pub get_and_consume :
      ℕ → Bytes → Bytes → SessionStore → SessionStore × Result SessionStatus PollError
  unfolding constant_time_eq is_expired take_confirmed
  get_and_consume now id poll_secret s = elim (get id s.sessions) [
    | none ↦ (s, err not_found)
    | some e ↦
        if not (constant_time_eq e.poll_secret poll_secret)
        then (s, err unauthorized)
        else if is_expired s.ttl now e.created_at
        then (record s { sessions = remove id s.sessions }, err not_found)
        else if is_confirmed e.status
        then take_confirmed id poll_secret s
        else (s, ok pending)
  ]

  unfoldable pub get_session_user_code : ℕ → Bytes → SessionStore → Option Bytes
  unfolding is_expired
  get_session_user_code now id s = elim (get id s.sessions) [
    | none ↦ none
    | some e ↦ if is_expired s.ttl now e.created_at then none else some e.user_code
  ]
