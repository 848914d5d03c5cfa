-- ===== src/Jwt.antt =====
-- Authentication by tokens: `JwtRevocationStore` and `JwtAuthService` of
-- server/src/middleware/jwt.rs, `verify_jwt` of common/src/lib.rs. The signature check
-- (`jsonwebtoken::decode`) is a parameter. Times are UNIX seconds; a method reads the clock once,
-- and `won` says whether its `compare_exchange` succeeds. Log lines and metrics are left out.
pub mod Revoked
pub mod Logout
mod Examples
use praeco_rs.Prelude.{
  ℕ, ◌+◌, ◌-◌, Bool, true, false, not, ◌&&◌, ◌||◌, ltb, leb, ◌==◌, if◌then◌else◌, Option, none,
  some, List, [], ◌∷◌, ◌++◌, Bytes, bytes_eq, any, is_empty, length, drop, starts_with, codes,
  split_on, filter, map,
}
use praeco_rs.DashMap.{DashMap}
use praeco_rs.IpFilter.Parse.{trim}
use praeco_rs.Session.{Claims}

abbrev pub max_revoked_entries : ℕ
max_revoked_entries = 50_000

abbrev revocation_cleanup_interval_secs : ℕ
revocation_cleanup_interval_secs = 30

abbrev pub max_jti_len : ℕ
max_jti_len = 256

abbrev pub contains_key : Option ℕ → Bool
contains_key none = false
contains_key (some exp) = true

abbrev pub is_storable : Bytes → Bool
is_storable jti = not (is_empty jti || ltb max_jti_len (length jti))

module _ (table : DashMap Bytes ℕ) where
  open table use {Map, empty, get, insert, remove, retain, len}

  pub record JwtRevocationStore : Type 0 where
    pub revoked : Map
    pub last_cleanup : ℕ

  unfoldable pub new_revocations : JwtRevocationStore
  new_revocations = record { revoked = empty; last_cleanup = 0 }

  unfoldable pub cleanup_expired : ℕ → JwtRevocationStore → JwtRevocationStore
  cleanup_expired now s = record s { revoked = retain (λ exp. ltb now exp) s.revoked }

  -- The cleanup before a revocation.
  unfoldable pub clean_if_due : (won : Bool) → ℕ → JwtRevocationStore → JwtRevocationStore
  unfolding cleanup_expired
  clean_if_due won now s =
      if (leb max_revoked_entries (len s.revoked)
          || leb revocation_cleanup_interval_secs (now - s.last_cleanup))
        && won
      then cleanup_expired now (record s { last_cleanup = now })
      else s

  unfoldable pub insert_revoked : Bytes → ℕ → JwtRevocationStore → JwtRevocationStore
  insert_revoked jti expires_at s =
      if ltb (len s.revoked) max_revoked_entries || contains_key (get jti s.revoked)
      then record s { revoked = insert jti expires_at s.revoked }
      else s

  unfoldable pub revoke :
      (won : Bool) → ℕ → Bytes → (expires_at : ℕ) → JwtRevocationStore → JwtRevocationStore
  unfolding clean_if_due insert_revoked
  revoke won now jti expires_at s =
      if is_storable jti then insert_revoked jti expires_at (clean_if_due won now s) else s

  -- An expired entry is removed.
  unfoldable pub check_entry : ℕ → Bytes → JwtRevocationStore → Option ℕ → Bool × JwtRevocationStore
  check_entry now jti s none = (false, s)
  check_entry now jti s (some exp) =
      if ltb now exp then (true, s) else (false, record s { revoked = remove jti s.revoked })

  unfoldable pub is_revoked : ℕ → Bytes → JwtRevocationStore → Bool × JwtRevocationStore
  unfolding check_entry
  is_revoked now jti s = check_entry now jti s (get jti s.revoked)

-- The entries of a list that are not empty.
unfoldable pub name_list : Bytes → List Bytes
unfolding split_on trim
name_list text = filter (λ s. not (is_empty s)) (map trim (split_on b',' text))

-- `decode` checks a token against a key, the issuers and the audiences; no names, no check.
unfoldable pub try_keys : {Key : Type 0} → (Key → Option Claims) → List Key → Option Claims
try_keys decode [] = none
try_keys decode (key ∷ keys) =
    let rest = try_keys decode keys in elim (decode key) [ some claims ↦ some claims | none ↦ rest ]

unfoldable pub strip_prefix : Bytes → Bytes → Option Bytes
strip_prefix prefix text =
    if starts_with text prefix then some (drop (length prefix) text) else none

-- The value of the first cookie with the prefix.
unfoldable pub find_cookie : Bytes → List Bytes → Option Bytes
unfolding strip_prefix trim
find_cookie prefix [] = none
find_cookie prefix (cookie ∷ cookies) =
    let rest = find_cookie prefix cookies in
    elim (strip_prefix prefix (trim cookie)) [ some value ↦ some (trim value) | none ↦ rest ]

-- The `Cookie` headers, each with its text if that is readable.
unfoldable pub cookie_token : Bytes → List (Option Bytes) → Option Bytes
unfolding find_cookie split_on
cookie_token prefix [] = none
cookie_token prefix (none ∷ headers) = cookie_token prefix headers
cookie_token prefix (some text ∷ headers) =
    let rest = cookie_token prefix headers in
    elim (find_cookie prefix (split_on b';' text)) [ some token ↦ some token | none ↦ rest ]

abbrev pub bearer : Option Bytes → Option Bytes
bearer none = none
bearer (some text) = elim (strip_prefix (codes "Bearer ") text) [
  | none ↦ none
  | some token ↦ some (trim token)
]

abbrev fallback : Option Bytes → List (Option Bytes) → Option Bytes
fallback none cookies = none
fallback (some name) cookies = cookie_token (name ++ codes "=") cookies

-- The token of a request, from the header or else from the cookie.
unfoldable pub token_of : Option Bytes → Option Bytes → List (Option Bytes) → Option Bytes
unfolding strip_prefix trim cookie_token
token_of cookie_fallback authorization cookies = elim (bearer authorization) [
  | some token ↦ some token
  | none ↦ fallback cookie_fallback cookies
]

abbrev pub guest : Bytes
guest = codes "Guest"

-- The first role that the mapping gives a suffix, else guest.
unfoldable pub role_of : List (Bytes × Bytes) → Bytes → Bytes
role_of [] suffix = guest
role_of ((k, role) ∷ mapping) suffix = if bytes_eq k suffix then role else role_of mapping suffix

unfoldable pub map_roles : List (Bytes × Bytes) → List Bytes → List Bytes
unfolding role_of
map_roles mapping oids =
    let roles = filter (λ role. not (bytes_eq role guest)) (map (role_of mapping) oids) in
    if is_empty roles then guest ∷ [] else roles

pub record JwtAuthLayer (Key : Type 0) : Type 0 where
  pub decoding_keys : List Key
  pub oid_mapping : List (Bytes × Bytes)
  pub cookie_fallback : Option Bytes
  pub redirect_on_failure : Option Bytes
  pub expected_issuer : Bytes
  pub expected_audience : Bytes
  pub revoke_on_paths : List Bytes

pub record Request : Type 0 where
  pub path : Bytes
  pub authorization : Option Bytes
  pub cookies : List (Option Bytes)

-- 401, or 302 with a location.
pub data Outcome : Type 0 where
  unauthorized : Outcome
  redirected : (location : Bytes) → Outcome
  forwarded : Claims → (roles : List Bytes) → Outcome

-- `to_value` is `HeaderValue::from_str`.
unfoldable pub unauthorized_response : (Bytes → Option Bytes) → Option Bytes → Outcome
unauthorized_response to_value none = unauthorized
unauthorized_response to_value (some url) = elim (to_value url) [
  | none ↦ unauthorized
  | some location ↦ redirected location
]

module _ {Key : Type 0} (table : DashMap Bytes ℕ) (to_value : Bytes → Option Bytes)
    (decode : Key → (issuers audiences : List Bytes) → (token : Bytes) → Option Claims)
    (layer : JwtAuthLayer Key) where
  unfoldable pub verify_jwt : Bytes → Option Claims
  unfolding name_list try_keys
  verify_jwt token =
      try_keys
        (λ key.
          decode key (name_list layer.expected_issuer) (name_list layer.expected_audience) token)
        layer.decoding_keys

  -- A token without expiry is revoked for an hour.
  abbrev pub revoked_until : ℕ → Claims → ℕ
  revoked_until now claims = if ltb 0 claims.exp then claims.exp else now + 3600

  -- On a path that logs the client out the token is revoked.
  unfoldable pub revoke_on_logout :
      (won : Bool)
      → ℕ
      → Bytes
      → Option Bytes
      → Claims
      → JwtRevocationStore table
      → JwtRevocationStore table
  unfolding revoke
  revoke_on_logout won now path none claims s = s
  revoke_on_logout won now path (some jti) claims s =
      if any (λ p. bytes_eq p path) layer.revoke_on_paths
      then revoke table won now jti (revoked_until now claims) s
      else s

  unfoldable pub accept :
      (won : Bool)
      → ℕ
      → Bytes
      → Claims
      → Bool × JwtRevocationStore table
      → Outcome × JwtRevocationStore table
  unfolding unauthorized_response revoke_on_logout map_roles
  accept won now path claims (true, s) =
      (unauthorized_response to_value layer.redirect_on_failure, s)
  accept won now path claims (false, s) = (
    forwarded claims (map_roles layer.oid_mapping claims.oids),
    revoke_on_logout won now path claims.jti claims s,
  )

  unfoldable pub check_revoked :
      ℕ → Option Bytes → JwtRevocationStore table → Bool × JwtRevocationStore table
  unfolding is_revoked
  check_revoked now none s = (false, s)
  check_revoked now (some jti) s = is_revoked table now jti s

  -- After the verification.
  unfoldable pub verified :
      (won : Bool)
      → ℕ
      → Bytes
      → Option Claims
      → JwtRevocationStore table
      → Outcome × JwtRevocationStore table
  unfolding accept check_revoked unauthorized_response
  verified won now path none s = (unauthorized_response to_value layer.redirect_on_failure, s)
  verified won now path (some claims) s =
      accept won now path claims (check_revoked now claims.jti s)

  abbrev pub claims_of : Option Bytes → Option Claims
  claims_of none = none
  claims_of (some token) = verify_jwt token

  unfoldable pub call :
      (won : Bool) → ℕ → Request → JwtRevocationStore table → Outcome × JwtRevocationStore table
  unfolding verified token_of verify_jwt
  call won now req s =
      verified won now req.path
        (claims_of (token_of layer.cookie_fallback req.authorization req.cookies)) s
