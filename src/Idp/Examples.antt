-- ===== src/Idp/Examples.antt =====
-- A client without a certificate at the revocation endpoint.
use praeco_rs.Prelude.{
  ℕ, ◌≡◌, refl, Bool, true, false, Option, none, some, List, [], ◌∷◌, Bytes, bytes_eq, bytes_eq_iff,
  codes,
}
use praeco_rs.DashMap.{DashMap, assoc}
use praeco_rs.Session.{Claims}
use praeco_rs.Jwt.{JwtRevocationStore, new_revocations}
use praeco_rs.Idp.{IdpParams, RevokeRequest, mtls_required, done, presented_token, handle_revoke}
use praeco_rs.Idp.Authority.{Revokes, handle_revoke-signed}

abbrev table : DashMap Bytes ℕ
table = assoc bytes_eq bytes_eq_iff

-- The second key signed everything.
abbrev decode : Bool → Bytes → Option Claims
decode false token = none
decode true token = some (record {
  sub = codes "alice";
  iss = codes "praeco";
  aud = none;
  exp = 0;
  oids = [];
  jti = some token;
})

abbrev keys : List Bool
keys = false ∷ true ∷ []

abbrev params : IdpParams
params = record {
  cookie_name = codes "sid";
  cookie_domain = some (codes "example.org");
  token_expiry_seconds = 60;
}

abbrev by_cookie : Bytes → RevokeRequest
by_cookie query = record {
  authorization = none;
  cookies = some (codes "x=1; sid=t1") ∷ [];
  query = query;
  has_mtls = false;
}

abbrev start : JwtRevocationStore table
start = new_revocations table

abbrev cleared : Bytes
cleared =
    codes
      "sid=; Path=/; Expires=Thu, 01 Jan 1970 00:00:00 GMT; Max-Age=0; HttpOnly; SameSite=Lax; Domain=example.org"

logs_out :
    (handle_revoke table decode keys true true 40 params (by_cookie []) start).0 ≡ done true cleared
unfolding handle_revoke new_revocations assoc
logs_out = refl

-- The token is revoked for a minute.
is_stored :
    table.get
      (codes "t1")
      (handle_revoke table decode keys true true 40 params (by_cookie []) start).1.revoked
    ≡ some 100
unfolding handle_revoke new_revocations assoc
is_stored = refl

-- An identifier in the query is refused.
is_refused :
    (handle_revoke table decode keys true true 40 params (by_cookie (codes "a=b&jti=t2")) start).0
    ≡ mtls_required
unfolding handle_revoke new_revocations assoc
is_refused = refl

handle_revoke-signed_example :
    Revokes table decode keys true 40 params
      (presented_token params (by_cookie (codes "jti=t2")))
      start
      (handle_revoke table decode keys true true 40 params (by_cookie (codes "jti=t2")) start).1
handle_revoke-signed_example =
    handle_revoke-signed table decode keys true 40 params true (by_cookie (codes "jti=t2")) start
      refl
