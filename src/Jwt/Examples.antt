-- ===== src/Jwt/Examples.antt =====
-- A gateway whose tokens say their own identifier, and a client that logs out.
use praeco_rs.Prelude.{
  ℕ, ◌++◌, ◌≡◌, ◌≢◌, ◌<◌, refl, sym, ap, Bool, true, Option, none, some, List, [], ◌∷◌, Bytes,
  bytes_eq, bytes_eq_iff, codes, arith,
}
use praeco_rs.DashMap.{DashMap, assoc}
use praeco_rs.Session.{Claims}
use praeco_rs.Jwt.{
  JwtAuthLayer, Request, unauthorized, forwarded, JwtRevocationStore, new_revocations, call,
  verify_jwt, is_storable,
}
use praeco_rs.Jwt.Logout.{ExpiresAt, after, call-logged_out}

abbrev table : DashMap Bytes ℕ
table = assoc bytes_eq bytes_eq_iff

abbrev claims_for : Bytes → Claims
claims_for token = record {
  sub = codes "alice";
  iss = codes "praeco";
  aud = none;
  exp = 100;
  oids = codes "7" ∷ codes "8" ∷ [];
  jti = some token;
}

abbrev decode : ℕ → List Bytes → List Bytes → Bytes → Option Claims
decode key issuers audiences token = some (claims_for token)

abbrev to_value : Bytes → Option Bytes
to_value text = some text

abbrev layer : JwtAuthLayer ℕ
layer = record {
  decoding_keys = 1 ∷ [];
  oid_mapping = (codes "7", codes "dev") ∷ [];
  cookie_fallback = some (codes "session");
  redirect_on_failure = none;
  expected_issuer = codes "praeco, ";
  expected_audience = [];
  revoke_on_paths = codes "/logout" ∷ [];
}

abbrev visit : Bytes → Bytes → Request
visit path token = record {
  path = path;
  authorization = some (codes "Bearer " ++ token);
  cookies = [];
}

abbrev start : JwtRevocationStore table
start = new_revocations table

abbrev left : JwtRevocationStore table
left = (call table to_value decode layer true 40 (visit (codes "/logout") (codes "a")) start).1

abbrev visits : List (Bool × ℕ × Request)
visits =
    (true, 50, visit (codes "/api") (codes "a"))
    ∷ (true, 80, visit (codes "/logout") (codes "b"))
    ∷ []

logs_out :
    (call table to_value decode layer true 40 (visit (codes "/logout") (codes "a")) start).0
    ≡ forwarded (claims_for (codes "a")) (codes "dev" ∷ [])
unfolding call new_revocations assoc
logs_out = refl

-- The same token is refused then.
is_refused :
    (call table to_value decode layer true 50 (visit (codes "/api") (codes "a")) left).0
    ≡ unauthorized
unfolding call new_revocations assoc
is_refused = refl

-- The cookie is read when there is no header.
reads_cookie :
    (call table to_value decode layer true 40
      (record {
        path = codes "/api";
        authorization = none;
        cookies = none ∷ some (codes "x=1; session=c") ∷ [];
      })
      start).0
    ≡ forwarded (claims_for (codes "c")) (codes "dev" ∷ [])
unfolding call new_revocations assoc
reads_cookie = refl

another :
    (call table to_value decode layer true 90
      (visit (codes "/api") (codes "c"))
      (after table to_value decode layer (codes "a") 100 visits left)).0
    ≡ forwarded (claims_for (codes "c")) (codes "dev" ∷ [])
unfolding call new_revocations assoc
another = refl

abbrev exp_in : Option Claims → ℕ
exp_in none = 0
exp_in (some claims) = claims.exp

expires : ExpiresAt table to_value decode layer (codes "a") 100
unfolding verify_jwt
expires token claims e ej = sym (ap exp_in e)

room : table.len start.revoked < 50000
unfolding new_revocations assoc
room = omega arith

storable : is_storable (codes "a") ≡ true
storable = refl

call-logged_out_example : some (codes "c") ≢ some (codes "a")
call-logged_out_example =
    call-logged_out table to_value decode layer (codes "a") 100 true true 40 90
      (visit (codes "/logout") (codes "a")) (visit (codes "/api") (codes "c"))
      (claims_for (codes "a")) (claims_for (codes "c")) (codes "dev" ∷ []) (codes "dev" ∷ []) visits
      start (omega arith) expires storable refl room logs_out refl (omega arith, (omega arith, tt))
      (omega arith) another
