-- ===== src/Relay/Owners.antt =====
-- Every tunnel in the table is driven by a live connection.
use praeco_rs.Prelude.{
  ℕ, zero, suc, ◌≡◌, ◌≢◌, refl, sym, ap, ◌∙◌, subst, Bool, true, false, ◌==◌, Bool-cases, Option,
  none, some, List, [], ◌∷◌, ◌++◌, get_elem?, set, get_elem?-append, get_elem?-set, any, Bytes,
  arith, inl, inr,
}
use praeco_rs.DashMap.{DashMap}
use praeco_rs.Relay.Register.{UnicodeOps}
use praeco_rs.Relay.Tunnels.{
  TunnelRoute, Task, checked, driving, ending, holds, Relay, new_relay, may_register, register,
  removed_if, remove_own, Step, passed, registered, ended, dropped, Reach, here, next,
}

abbrev generation_of : Option TunnelRoute → ℕ
generation_of none = 0
generation_of (some route) = route.generation

module _ (table : DashMap Bytes TunnelRoute) where
  open table use {get, insert, remove, same, same_iff, get-empty, get-insert, get-remove}

  -- The entry's connection is still driven, under the same name.
  abbrev pub IsDriven : List Task → Bytes → Option TunnelRoute → Type 0
  IsDriven tasks sni none = Unit
  IsDriven tasks sni (some route) =
      (i : ℕ) × (get_elem? tasks i ≡ some (driving sni route.generation))

  abbrev pub IsOwned : Relay table → Type 0
  IsOwned s = (sni : Bytes) → IsDriven s.tasks sni (get sni s.tunnels)

  IsDriven-append :
      (tasks more : List Task) (sni : Bytes) (o : Option TunnelRoute)
      → IsDriven tasks sni o
      → IsDriven (tasks ++ more) sni o
  IsDriven-append tasks more sni none h = tt
  IsDriven-append tasks more sni (some route) (i, e) =
      (i, get_elem?-append tasks more i (driving sni route.generation) e)

  -- A task that drives no tunnel changes.
  IsDriven-set :
      (tasks : List Task) (i : ℕ) (old new : Task) (sni : Bytes) (o : Option TunnelRoute)
      → get_elem? tasks i ≡ some old
      → ((route : TunnelRoute) → o ≡ some route → old ≢ driving sni route.generation)
      → IsDriven tasks sni o
      → IsDriven (set tasks i new) sni o
  IsDriven-set tasks i old new sni none e other h = tt
  IsDriven-set tasks i old new sni (some route) e other (j, ej) = elim (Bool-cases (i == j)) [
    | inl same_ ↦
        let at : get_elem? tasks i ≡ some (driving sni route.generation) = ground arith in
        absurd (other route refl (ground (arith, e, at)))
    | inr differs ↦
        (j, get_elem?-set tasks i j (driving sni route.generation) new ej ∙ rw differs refl)
  ]

  register-IsOwned :
      (s : Relay table) (i : ℕ) (sni : Bytes) (supports_proxy_v2 : Bool)
      → get_elem? s.tasks i ≡ some (checked sni supports_proxy_v2)
      → IsOwned s
      → IsOwned (register table s i sni supports_proxy_v2)
  unfolding register
  register-IsOwned s i sni supports_proxy_v2 e h other =
      subst (IsDriven (set s.tasks i (driving sni s.next_generation)) other)
        (sym (get-insert sni other _ s.tunnels))
        (elim (Bool-cases (same sni other)) [
          | inl this ↦ rw this (
            i,
            get_elem?-set s.tasks i i (checked sni supports_proxy_v2)
                  (driving sni s.next_generation) e
                ∙ ground (arith, (same_iff sni other).0 this),
          )
          | inr elsewhere ↦ rw elsewhere (
              IsDriven-set s.tasks i (checked sni supports_proxy_v2) _ other _ e
                (λ route g d. ground (arith, d)) (h other))
        ])

  -- The entries after the tunnel of task `i` ended, if none of them is its own.
  without-IsDriven :
      (s : Relay table) (i : ℕ) (sni other : Bytes) (generation : ℕ)
      → get_elem? s.tasks i ≡ some (driving sni generation)
      → ((route : TunnelRoute)
          → get other s.tunnels ≡ some route
          → sni ≡ other
          → generation ≢ route.generation)
      → IsOwned s
      → IsDriven (set s.tasks i (ending generation)) other (get other s.tunnels)
  without-IsDriven s i sni other generation e foreign h =
      IsDriven-set s.tasks i (driving sni generation) _ other _ e
        (λ route g d. foreign route g (ground (arith, d)) (ground (arith, d))) (h other)

  removed_if-IsOwned :
      (s : Relay table) (i : ℕ) (sni other : Bytes) (generation : ℕ) (o : Option TunnelRoute)
      → get_elem? s.tasks i ≡ some (driving sni generation)
      → get sni s.tunnels ≡ o
      → IsOwned s
      → IsDriven
          (set s.tasks i (ending generation))
          other
          (get other (removed_if table generation sni s.tunnels o))
  removed_if-IsOwned s i sni other generation none e g h =
      without-IsDriven s i sni other generation e
        (λ route there same_ gen.
          ground (arith, subst (λ k. get k s.tunnels ≡ none) same_ g, there))
        h
  removed_if-IsOwned s i sni other generation (some r) e g h =
      elim (Bool-cases (r.generation == generation)) [
        | inl own ↦ rw own (
            subst (IsDriven (set s.tasks i (ending generation)) other)
              (sym (get-remove sni other s.tunnels))
              (elim (Bool-cases (same sni other)) [
                | inl this ↦ rw this tt
                | inr elsewhere ↦ rw elsewhere (
                    without-IsDriven s i sni other generation e
                      (λ route there same_ gen.
                        ground (arith, elsewhere, (same_iff sni other).1 same_))
                      h)
              ]))
        | inr newer ↦ rw newer (
            without-IsDriven s i sni other generation e
              (λ route there same_ gen.
                let mine : some r ≡ some route =
                  sym (subst (λ k. get k s.tunnels ≡ some r) same_ g) ∙ there in
                ground (arith, ap (generation_of) mine, newer))
              h)
      ]

  step-IsOwned :
      (unicode : UnicodeOps) (enable : Bool) {s t : Relay table}
      → Step table unicode enable s t
      → IsOwned s
      → IsOwned t
  unfolding remove_own
  step-IsOwned unicode enable (passed s line allowed_snis sni supports_proxy_v2 a free) h other =
      IsDriven-append s.tasks _ other _ (h other)
  step-IsOwned unicode enable (registered s i sni supports_proxy_v2 e) h other =
      register-IsOwned s i sni supports_proxy_v2 e h other
  step-IsOwned unicode enable (ended s i sni generation e) h other =
      removed_if-IsOwned s i sni other generation _ e refl h
  step-IsOwned unicode enable (dropped s i generation e) h other =
      IsDriven-set s.tasks i (ending generation) _ other _ e (λ route g d. ground (arith, d))
        (h other)

  Reach-IsOwned :
      (unicode : UnicodeOps) (enable : Bool) {t : Relay table}
      → Reach table unicode enable (new_relay table) t
      → IsOwned t
  unfolding new_relay
  Reach-IsOwned unicode enable here sni = subst (IsDriven [] sni) (sym (get-empty sni)) tt
  Reach-IsOwned unicode enable (next r st) sni =
      step-IsOwned unicode enable st (Reach-IsOwned unicode enable r) sni

  any-holds :
      (tasks : List Task) (i : ℕ) (sni : Bytes) (generation : ℕ)
      → get_elem? tasks i ≡ some (driving sni generation)
      → any (holds generation) tasks ≡ true
  any-holds [] i sni generation e = absurd (ground arith)
  any-holds (task ∷ tasks) zero sni generation e =
      let same_ : task ≡ driving sni generation = cc in rw same_ (ground arith)
  any-holds (task ∷ tasks) (suc i) sni generation e =
      ground (arith, any-holds tasks i sni generation e)

  -- In every order of registrations and ends, an entry of the table belongs to a connection that
  -- still drives its tunnel, under that name; so an ended connection leaves no entry behind, and
  -- while there is an entry no further connection passes the overwrite protection.
  pub Reach-driven :
      (unicode : UnicodeOps) (enable_proxy_protocol : Bool) (t : Relay table) (sni : Bytes)
      (route : TunnelRoute)
      → Reach table unicode enable_proxy_protocol (new_relay table) t
      → get sni t.tunnels ≡ some route
      → (may_register table t sni ≡ false)
        × ((i : ℕ) × (get_elem? t.tasks i ≡ some (driving sni route.generation)))
  unfolding may_register
  Reach-driven unicode enable_proxy_protocol t sni route r g =
      let (i, e) =
        subst (IsDriven t.tasks sni) g (Reach-IsOwned unicode enable_proxy_protocol r sni) in
      (rw (g, may_register, any-holds t.tasks i sni route.generation e) refl, (i, e))
