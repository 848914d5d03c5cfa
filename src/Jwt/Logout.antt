-- ===== src/Jwt/Logout.antt =====
-- After a logout the token is refused.
use praeco_rs.Prelude.{
  ℕ, ◌≤◌, ◌<◌, ◌≡◌, ◌≢◌, refl, sym, ap, ◌∙◌, subst, Bool, true, false, Option, none, some, List, [],
  ◌∷◌, Bytes, bytes_eq, any, All, arith,
}
use praeco_rs.DashMap.{DashMap}
use praeco_rs.Session.{Claims}
use praeco_rs.Jwt.{
  JwtAuthLayer, Request, Outcome, forwarded, JwtRevocationStore, max_revoked_entries, is_storable,
  revoked_until, revoke_on_logout, accept, check_revoked, verified, call, claims_of, verify_jwt,
  unauthorized_response,
}
use praeco_rs.Jwt.Revoked.{
  IsListed, if_either, revoke-IsListed, is_revoked-IsListed, is_revoked-listed, is_revoked_le,
  revoke-lists,
}

unauthorized_response_refuses :
    (to_value : Bytes → Option Bytes) (redirect : Option Bytes) (claims : Claims)
    (roles : List Bytes)
    → unauthorized_response to_value redirect ≢ forwarded claims roles
unfolding unauthorized_response
unauthorized_response_refuses to_value none claims roles e = absurd (ground (arith, e))
unauthorized_response_refuses to_value (some url) claims roles e = absurd (ground (arith, e))

module _ {Key : Type 0} (table : DashMap Bytes ℕ) (to_value : Bytes → Option Bytes)
    (decode : Key → (issuers audiences : List Bytes) → (token : Bytes) → Option Claims)
    (layer : JwtAuthLayer Key) (jti : Bytes) (exp : ℕ) where
  open table use {len}

  -- A token with the identifier expires then.
  abbrev pub Fits : Option Claims → Type 0
  Fits o = (claims : Claims) → o ≡ some claims → claims.jti ≡ some jti → claims.exp ≡ exp

  revoked_until_ge :
      (now : ℕ) (claims : Claims)
      → 0 < exp
      → claims.exp ≡ exp
      → exp ≤ revoked_until table to_value decode layer now claims
  revoked_until_ge now claims pos e = ground arith

  revoke_on_logout-IsListed :
      (won : Bool) (now : ℕ) (path : Bytes) (o : Option Bytes) (claims : Claims)
      (s : JwtRevocationStore table)
      → 0 < exp
      → now < exp
      → (o ≡ some jti → claims.exp ≡ exp)
      → IsListed table jti exp s
      → IsListed table jti exp
          (revoke_on_logout table to_value decode layer won now path o claims s)
  unfolding revoke_on_logout
  revoke_on_logout-IsListed won now path none claims s pos before fits h = h
  revoke_on_logout-IsListed won now path (some other) claims s pos before fits h =
      if_either (IsListed table jti exp) (any (λ p. bytes_eq p path) layer.revoke_on_paths)
        (λ t.
          revoke-IsListed table jti exp won now other _ s before
            (λ e. revoked_until_ge now claims pos (fits (ap some e))) h)
        (λ f. h)

  accept-IsListed :
      (won : Bool) (now : ℕ) (path : Bytes) (claims : Claims) (r : Bool × JwtRevocationStore table)
      → 0 < exp
      → now < exp
      → (claims.jti ≡ some jti → claims.exp ≡ exp)
      → IsListed table jti exp r.1
      → IsListed table jti exp (accept table to_value decode layer won now path claims r).1
  unfolding accept
  accept-IsListed won now path claims (true, s) pos before fits h = h
  accept-IsListed won now path claims (false, s) pos before fits h =
      revoke_on_logout-IsListed won now path claims.jti claims s pos before fits h

  check_revoked-IsListed :
      (now : ℕ) (o : Option Bytes) (s : JwtRevocationStore table)
      → now < exp
      → IsListed table jti exp s
      → IsListed table jti exp (check_revoked table to_value decode layer now o s).1
  unfolding check_revoked
  check_revoked-IsListed now none s before h = h
  check_revoked-IsListed now (some other) s before h =
      is_revoked-IsListed table jti exp now other s before h

  verified-IsListed :
      (won : Bool) (now : ℕ) (path : Bytes) (o : Option Claims) (s : JwtRevocationStore table)
      → 0 < exp
      → now < exp
      → Fits o
      → IsListed table jti exp s
      → IsListed table jti exp (verified table to_value decode layer won now path o s).1
  unfolding verified
  verified-IsListed won now path none s pos before fits h = h
  verified-IsListed won now path (some claims) s pos before fits h =
      accept-IsListed won now path claims _ pos before (fits claims refl)
        (check_revoked-IsListed now claims.jti s before h)

  accept-revoked :
      (won : Bool) (now : ℕ) (path : Bytes) (c claims : Claims) (roles : List Bytes)
      (r : Bool × JwtRevocationStore table)
      → r.0 ≡ true
      → (accept table to_value decode layer won now path c r).0 ≢ forwarded claims roles
  unfolding accept
  accept-revoked won now path c claims roles (true, s) e =
      unauthorized_response_refuses to_value layer.redirect_on_failure claims roles
  accept-revoked won now path c claims roles (false, s) e = absurd (ground (arith, e))

  abbrev claims_in : Claims → Outcome → Claims
  claims_in c (forwarded claims roles) = claims
  claims_in c _ = c

  accept_same :
      (won : Bool) (now : ℕ) (path : Bytes) (c claims : Claims) (roles : List Bytes)
      (r : Bool × JwtRevocationStore table)
      → (accept table to_value decode layer won now path c r).0 ≡ forwarded claims roles
      → c ≡ claims
  unfolding accept
  accept_same won now path c claims roles (true, s) e =
      absurd (unauthorized_response_refuses to_value layer.redirect_on_failure claims roles e)
  accept_same won now path c claims roles (false, s) e = ap (claims_in c) e

  check_revoked-listed :
      (now : ℕ) (o : Option Bytes) (s : JwtRevocationStore table)
      → now < exp
      → IsListed table jti exp s
      → some jti ≡ o
      → (check_revoked table to_value decode layer now o s).0 ≡ true
  unfolding check_revoked
  check_revoked-listed now o s before h e =
      subst (λ o. (check_revoked table to_value decode layer now o s).0 ≡ true) e
        (is_revoked-listed table jti exp now s before h)

  verified-refused :
      (won : Bool) (now : ℕ) (path : Bytes) (o : Option Claims) (claims : Claims)
      (roles : List Bytes) (s : JwtRevocationStore table)
      → now < exp
      → IsListed table jti exp s
      → (verified table to_value decode layer won now path o s).0 ≡ forwarded claims roles
      → claims.jti ≢ some jti
  unfolding verified
  verified-refused won now path none claims roles s before h e ej =
      unauthorized_response_refuses to_value layer.redirect_on_failure claims roles e
  verified-refused won now path (some c) claims roles s before h e ej =
      let same : c ≡ claims = accept_same won now path c claims roles _ e in
      accept-revoked won now path c claims roles _
        (check_revoked-listed now c.jti s before h (sym (ap (λ x. x.jti) same ∙ ej))) e

  revoke_on_logout-lists :
      (won : Bool) (now : ℕ) (path : Bytes) (o : Option Bytes) (claims : Claims)
      (s : JwtRevocationStore table)
      → 0 < exp
      → claims.exp ≡ exp
      → is_storable jti ≡ true
      → any (λ p. bytes_eq p path) layer.revoke_on_paths ≡ true
      → len s.revoked < max_revoked_entries
      → some jti ≡ o
      → IsListed table jti exp
          (revoke_on_logout table to_value decode layer won now path o claims s)
  unfolding revoke_on_logout
  revoke_on_logout-lists won now path o claims s pos ee ok logout room e =
      subst
        (λ o.
          IsListed table jti exp
            (revoke_on_logout table to_value decode layer won now path o claims s))
        e
        (if_either (IsListed table jti exp) (any (λ p. bytes_eq p path) layer.revoke_on_paths)
          (λ t. revoke-lists table jti exp won now _ s ok (revoked_until_ge now claims pos ee) room)
          (λ f. absurd (ground (arith, f, logout))))

  accept-lists :
      (won : Bool) (now : ℕ) (path : Bytes) (c claims : Claims) (roles : List Bytes)
      (r : Bool × JwtRevocationStore table)
      → 0 < exp
      → c.exp ≡ exp
      → is_storable jti ≡ true
      → any (λ p. bytes_eq p path) layer.revoke_on_paths ≡ true
      → len r.1.revoked < max_revoked_entries
      → c.jti ≡ some jti
      → (accept table to_value decode layer won now path c r).0 ≡ forwarded claims roles
      → IsListed table jti exp (accept table to_value decode layer won now path c r).1
  unfolding accept
  accept-lists won now path c claims roles (true, s) pos ee ok logout room ej e =
      absurd (unauthorized_response_refuses to_value layer.redirect_on_failure claims roles e)
  accept-lists won now path c claims roles (false, s) pos ee ok logout room ej e =
      revoke_on_logout-lists won now path c.jti c s pos ee ok logout room (sym ej)

  check_revoked_le :
      (now : ℕ) (o : Option Bytes) (s : JwtRevocationStore table)
      → len (check_revoked table to_value decode layer now o s).1.revoked ≤ len s.revoked
  unfolding check_revoked
  check_revoked_le now none s = omega arith
  check_revoked_le now (some other) s = is_revoked_le table jti exp now other s

  verified-lists :
      (won : Bool) (now : ℕ) (path : Bytes) (o : Option Claims) (claims : Claims)
      (roles : List Bytes) (s : JwtRevocationStore table)
      → 0 < exp
      → Fits o
      → is_storable jti ≡ true
      → any (λ p. bytes_eq p path) layer.revoke_on_paths ≡ true
      → len s.revoked < max_revoked_entries
      → (verified table to_value decode layer won now path o s).0 ≡ forwarded claims roles
      → claims.jti ≡ some jti
      → IsListed table jti exp (verified table to_value decode layer won now path o s).1
  unfolding verified
  verified-lists won now path none claims roles s pos fits ok logout room e ej =
      absurd (unauthorized_response_refuses to_value layer.redirect_on_failure claims roles e)
  verified-lists won now path (some c) claims roles s pos fits ok logout room e ej =
      let same : c ≡ claims = accept_same won now path c claims roles _ e in
      let mine : c.jti ≡ some jti = ap (λ x. x.jti) same ∙ ej in
      accept-lists won now path c claims roles _ pos (fits c refl mine) ok logout
        (omega (arith, check_revoked_le now c.jti s)) mine e

  -- The requests that come in between, each with its time.
  abbrev pub after : List (Bool × ℕ × Request) → JwtRevocationStore table → JwtRevocationStore table
  after [] s = s
  after ((won, now, req) ∷ visits) s =
      after visits (call table to_value decode layer won now req s).1

  abbrev pub ExpiresAt : Type 0
  ExpiresAt = (token : Bytes) → Fits (verify_jwt table to_value decode layer token)

  claims_of-Fits :
      (token : Option Bytes) → ExpiresAt → Fits (claims_of table to_value decode layer token)
  claims_of-Fits none x claims e = absurd (ground (arith, e))
  claims_of-Fits (some token) x claims e = x token claims e

  after-IsListed :
      (visits : List (Bool × ℕ × Request)) (s : JwtRevocationStore table)
      → 0 < exp
      → ExpiresAt
      → All (λ v. v.1 < exp) visits
      → IsListed table jti exp s
      → IsListed table jti exp (after visits s)
  unfolding call
  after-IsListed [] s pos x all h = h
  after-IsListed ((won, now, req) ∷ visits) s pos x (before, all) h =
      after-IsListed visits _ pos x all
        (verified-IsListed won now req.path _ s pos before (claims_of-Fits _ x) h)

  -- Once a request was forwarded on a path that logs out, with a token whose identifier can be
  -- stored and while the store had room, no request before the token's expiry, which is not 0, is
  -- forwarded with that identifier, whatever requests the service serves in between, if all tokens
  -- with the identifier expire at the same time and nothing else writes the store in between.
  pub call-logged_out :
      (won last_won : Bool) (now last_now : ℕ) (req last_req : Request)
      (claims last_claims : Claims) (roles last_roles : List Bytes)
      (visits : List (Bool × ℕ × Request)) (s : JwtRevocationStore table)
      → 0 < exp
      → ExpiresAt
      → is_storable jti ≡ true
      → any (λ p. bytes_eq p req.path) layer.revoke_on_paths ≡ true
      → len s.revoked < max_revoked_entries
      → (call table to_value decode layer won now req s).0 ≡ forwarded claims roles
      → claims.jti ≡ some jti
      → All (λ v. v.1 < exp) visits
      → last_now < exp
      → (call table to_value decode layer last_won last_now last_req
          (after visits (call table to_value decode layer won now req s).1)).0
        ≡ forwarded last_claims last_roles
      → last_claims.jti ≢ some jti
  unfolding call
  call-logged_out won last_won now last_now req last_req claims last_claims roles last_roles visits
        s pos x ok logout room e ej all before =
      verified-refused last_won last_now last_req.path _ last_claims last_roles _ before (
        after-IsListed visits _ pos x all (
          verified-lists won now req.path _ claims roles s pos (claims_of-Fits _ x) ok logout room e
            ej))
