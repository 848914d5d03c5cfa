-- ===== src/Idp/Authority.antt =====
-- Who may revoke what.
use praeco_rs.Prelude.{
  ℕ, ◌≡◌, ◌⊎◌, inl, inr, refl, sym, subst, Bool, false, Option, none, some, List, [], ◌∷◌, Bytes,
  Elem,
}
use praeco_rs.DashMap.{DashMap}
use praeco_rs.Session.{Claims}
use praeco_rs.Jwt.{JwtRevocationStore, revoke}
use praeco_rs.Idp.{
  IdpParams, RevokeRequest, with_jti, or_next, signed_claims, signed_in, presented_token,
  explicit_jti, expiry, revoke_signed, revoke_explicit, handle_revoke,
}

module _ {Key : Type 0} (decode : Key → (token : Bytes) → Option Claims) where
  -- One of the keys has signed the token with these claims.
  abbrev pub IsSigned : List Key → Bytes → Bytes → Claims → Type 0
  IsSigned keys token jti claims =
      (key : Key) × Elem key keys × (decode key token ≡ some claims) × (claims.jti ≡ some jti)

  abbrev AreSigned : List Key → Bytes → Option (Bytes × Claims) → Type 0
  AreSigned keys token none = Unit
  AreSigned keys token (some (jti, claims)) = IsSigned keys token jti claims

  later-AreSigned :
      (key : Key) (keys : List Key) (token : Bytes) (o : Option (Bytes × Claims))
      → AreSigned keys token o
      → AreSigned (key ∷ keys) token o
  later-AreSigned key keys token none h = tt
  later-AreSigned key keys token (some (jti, claims)) (k, m, e, ej) = (k, inr m, e, ej)

  with_jti-AreSigned :
      (key : Key) (keys : List Key) (token : Bytes) (claims : Claims) (o : Option Bytes)
      (rest : Option (Bytes × Claims))
      → decode key token ≡ some claims
      → claims.jti ≡ o
      → AreSigned keys token rest
      → AreSigned (key ∷ keys) token (with_jti claims o rest)
  unfolding with_jti
  with_jti-AreSigned key keys token claims none rest e ej h = later-AreSigned key keys token rest h
  with_jti-AreSigned key keys token claims (some jti) rest e ej h = (key, inl refl, e, ej)

  or_next-AreSigned :
      (key : Key) (keys : List Key) (token : Bytes) (o : Option Claims)
      (rest : Option (Bytes × Claims))
      → decode key token ≡ o
      → AreSigned keys token rest
      → AreSigned (key ∷ keys) token (or_next o rest)
  unfolding or_next
  or_next-AreSigned key keys token none rest e h = later-AreSigned key keys token rest h
  or_next-AreSigned key keys token (some claims) rest e h =
      with_jti-AreSigned key keys token claims claims.jti rest e refl h

  signed_claims-AreSigned :
      (keys : List Key) (token : Bytes) → AreSigned keys token (signed_claims decode keys token)
  unfolding signed_claims
  signed_claims-AreSigned [] token = tt
  signed_claims-AreSigned (key ∷ keys) token =
      or_next-AreSigned key keys token (decode key token) _ refl
        (signed_claims-AreSigned keys token)

module _ {Key : Type 0} (table : DashMap Bytes ℕ) (decode : Key → (token : Bytes) → Option Claims)
    (keys : List Key) (won : Bool) (now : ℕ) (params : IdpParams) where
  -- The store is as before, or one identifier of a presented and signed token is revoked.
  abbrev pub Revokes : Option Bytes → JwtRevocationStore table → JwtRevocationStore table → Type 0
  Revokes presented s t =
      (t ≡ s)
      ⊎ ((token : Bytes) × (jti : Bytes) × (claims : Claims) × (presented ≡ some token)
          × IsSigned decode keys token jti claims
          × (t ≡ revoke table won now jti (expiry table now params claims) s))

  signed-Revokes :
      (token : Bytes) (o : Option (Bytes × Claims)) (s : JwtRevocationStore table)
      → AreSigned decode keys token o
      → Revokes (some token) s (revoke_signed table won now params o s).1
  unfolding revoke_signed
  signed-Revokes token none s h = inl refl
  signed-Revokes token (some (jti, claims)) s h = inr (token, jti, claims, refl, h, refl)

  presented-Revokes :
      (presented : Option Bytes) (s : JwtRevocationStore table)
      → Revokes presented s
          (revoke_signed table won now params (signed_in decode keys presented) s).1
  unfolding revoke_signed
  presented-Revokes none s = inl refl
  presented-Revokes (some token) s =
      signed-Revokes token _ s (signed_claims-AreSigned decode keys token)

  explicit-kept :
      (won_again : Bool) (o : Option Bytes) (r : Bool × JwtRevocationStore table)
      → (revoke_explicit table won_again now params false o r).1 ≡ r.1
  unfolding revoke_explicit
  explicit-kept won_again none (any, s) = refl
  explicit-kept won_again (some jti) (any, s) = refl

  -- Without a certificate a client revokes nothing but the identifier in a token that it presents
  -- and that one of the keys has signed, whatever its query asks for.
  pub handle_revoke-signed :
      (won_again : Bool) (req : RevokeRequest) (s : JwtRevocationStore table)
      → req.has_mtls ≡ false
      → Revokes
          (presented_token params req)
          s
          (handle_revoke table decode keys won won_again now params req s).1
  unfolding handle_revoke
  handle_revoke-signed won_again req s plain =
      subst (Revokes (presented_token params req) s)
        (sym (
          subst
            (λ b.
              (revoke_explicit table won_again now params b (explicit_jti req.query) (
                revoke_signed table won now params
                  (signed_in decode keys (presented_token params req)) s)).1
              ≡ (revoke_signed table won now params
                  (signed_in decode keys (presented_token params req)) s).1)
            (sym plain) (explicit-kept won_again (explicit_jti req.query) _)))
        (presented-Revokes (presented_token params req) s)
