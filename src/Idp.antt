-- ===== src/Idp.antt =====
-- The revocation of tokens at the identity provider: `POST /auth/revoke` in `IdpService::call` of
-- server/src/middleware/idp/mod.rs. `decode` is `jsonwebtoken::decode` with only the signature
-- checked; `won` is as in Jwt, once for each revocation.
pub mod Authority
mod Examples
use praeco_rs.Prelude.{
  ℕ, ◌+◌, Bool, true, false, not, ◌&&◌, ◌||◌, ltb, leb, if◌then◌else◌, Option, none, some, List, [],
  ◌∷◌, ◌++◌, Bytes, is_empty, length, starts_with, codes, split_on,
}
use praeco_rs.DashMap.{DashMap}
use praeco_rs.IpFilter.Parse.{trim}
use praeco_rs.Session.{Claims}
use praeco_rs.Jwt.{JwtRevocationStore, revoke, strip_prefix, bearer}

pub record IdpParams : Type 0 where
  pub cookie_name : Bytes
  pub cookie_domain : Option Bytes
  pub token_expiry_seconds : ℕ

-- `cookies` are the `Cookie` headers, each with its text if that is readable; `has_mtls` says that
-- the client has shown a certificate.
pub record RevokeRequest : Type 0 where
  pub authorization : Option Bytes
  pub cookies : List (Option Bytes)
  pub query : Bytes
  pub has_mtls : Bool

-- 401, or 200 with the cookie that clears the session.
pub data RevokeReply : Type 0 where
  mtls_required : RevokeReply
  done : (revoked_any : Bool) → (set_cookie : Bytes) → RevokeReply

unfoldable pub cookie_clear : IdpParams → Bytes
cookie_clear params =
    params.cookie_name
    ++ (codes "=; Path=/; Expires=Thu, 01 Jan 1970 00:00:00 GMT; Max-Age=0; HttpOnly; SameSite=Lax"
        ++ elim params.cookie_domain [
          | none ↦ []
          | some domain ↦
              if starts_with params.cookie_name (codes "__Host-")
              then []
              else codes "; Domain=" ++ domain
        ])

-- The first text with the prefix, without it.
unfoldable pub find_value : Bytes → List Bytes → Option Bytes
unfolding strip_prefix
find_value prefix [] = none
find_value prefix (text ∷ texts) =
    let rest = find_value prefix texts in
    elim (strip_prefix prefix text) [ some value ↦ some value | none ↦ rest ]

abbrev trim_each : List Bytes → List Bytes
trim_each [] = []
trim_each (text ∷ texts) = trim text ∷ trim_each texts

unfoldable pub token_in_cookies : Bytes → List (Option Bytes) → Option Bytes
unfolding find_value split_on trim
token_in_cookies prefix [] = none
token_in_cookies prefix (none ∷ headers) = token_in_cookies prefix headers
token_in_cookies prefix (some text ∷ headers) =
    let rest = token_in_cookies prefix headers in
    elim (find_value prefix (trim_each (split_on b';' text))) [
      | some token ↦ some token
      | none ↦ rest
    ]

unfoldable pub presented_token : IdpParams → RevokeRequest → Option Bytes
unfolding token_in_cookies strip_prefix trim
presented_token params req = elim (bearer req.authorization) [
  | some token ↦ some token
  | none ↦ token_in_cookies (params.cookie_name ++ codes "=") req.cookies
]

-- The `jti` of the query: the first pair with that name and an equals sign.
unfoldable pub explicit_jti : Bytes → Option Bytes
unfolding find_value split_on
explicit_jti query = find_value (codes "jti=") (split_on b'&' query)

-- Claims without an identifier are passed over.
unfoldable pub with_jti : Claims → Option Bytes → Option (Bytes × Claims) → Option (Bytes × Claims)
with_jti claims none rest = rest
with_jti claims (some jti) rest = some (jti, claims)

unfoldable pub or_next : Option Claims → Option (Bytes × Claims) → Option (Bytes × Claims)
unfolding with_jti
or_next none rest = rest
or_next (some claims) rest = with_jti claims claims.jti rest

module _ {Key : Type 0} (decode : Key → (token : Bytes) → Option Claims) where
  -- The claims with an identifier that the first key yields.
  unfoldable pub signed_claims : List Key → Bytes → Option (Bytes × Claims)
  unfolding or_next
  signed_claims [] token = none
  signed_claims (key ∷ keys) token = or_next (decode key token) (signed_claims keys token)

  abbrev pub signed_in : List Key → Option Bytes → Option (Bytes × Claims)
  signed_in keys none = none
  signed_in keys (some token) = signed_claims keys token

module _ (table : DashMap Bytes ℕ) where
  abbrev pub expiry : ℕ → IdpParams → Claims → ℕ
  expiry now params claims =
      if ltb 0 claims.exp then claims.exp else now + params.token_expiry_seconds

  unfoldable pub revoke_signed :
      (won : Bool)
      → ℕ
      → IdpParams
      → Option (Bytes × Claims)
      → JwtRevocationStore table
      → Bool × JwtRevocationStore table
  unfolding revoke
  revoke_signed won now params none s = (false, s)
  revoke_signed won now params (some (jti, claims)) s =
      (true, revoke table won now jti (expiry now params claims) s)

  -- The identifier of the query needs a certificate.
  unfoldable pub revoke_explicit :
      (won : Bool)
      → ℕ
      → IdpParams
      → (has_mtls : Bool) → Option Bytes
      → Bool × JwtRevocationStore table
      → RevokeReply × JwtRevocationStore table
  unfolding revoke cookie_clear
  revoke_explicit won now params has_mtls none (any, s) = (done any (cookie_clear params), s)
  revoke_explicit won now params false (some jti) (any, s) = (mtls_required, s)
  revoke_explicit won now params true (some jti) (any, s) =
      if not (is_empty jti) && leb (length jti) 256
      then (
        done true (cookie_clear params),
        revoke table won now jti (now + params.token_expiry_seconds) s,
      )
      else (done any (cookie_clear params), s)

  unfoldable pub handle_revoke :
      {Key : Type 0}
      → (Key → Bytes → Option Claims)
      → List Key
      → (won won_again : Bool) → ℕ
      → IdpParams
      → RevokeRequest
      → JwtRevocationStore table
      → RevokeReply × JwtRevocationStore table
  unfolding revoke_explicit revoke_signed presented_token explicit_jti signed_claims
  handle_revoke decode keys won won_again now params req s =
      revoke_explicit won_again now params req.has_mtls (explicit_jti req.query)
        (revoke_signed won now params (signed_in decode keys (presented_token params req)) s)
