-- ===== src/Jwt/Revoked.antt =====
-- A revoked token stays revoked.
use praeco_rs.Prelude.{
  ℕ, ◌-◌, ◌≤◌, ◌<◌, ◌≡◌, refl, sym, subst, Bool, true, false, ltb, leb, ◌||◌, ◌&&◌, if◌then◌else◌,
  Option, none, some, Bytes, arith,
}
use praeco_rs.DashMap.{DashMap, kept}
use praeco_rs.Jwt.{
  JwtRevocationStore, max_revoked_entries, contains_key, is_storable, cleanup_expired, clean_if_due,
  insert_revoked, revoke, check_entry, is_revoked,
}

module _ {A : Type 0} (P : A → Type 0) where
  pub if_either :
      (b : Bool) {x y : A} → (b ≡ true → P x) → (b ≡ false → P y) → P (if b then x else y)
  if_either true p q = p refl
  if_either false p q = q refl

-- The entry is there, and lasts until then.
abbrev pub Lasts : ℕ → Option ℕ → Type 0
Lasts exp none = ⊥
Lasts exp (some e) = exp ≤ e

kept-Lasts :
    (exp now : ℕ) (o : Option ℕ) → now < exp → Lasts exp o → Lasts exp (kept (λ e. ltb now e) o)
kept-Lasts exp now none before h = h
kept-Lasts exp now (some e) before h =
    if_either (Lasts exp) (ltb now e) (λ t. h) (λ f. ground (arith, f))

module _ (table : DashMap Bytes ℕ) (jti : Bytes) (exp : ℕ) where
  open table use {
    get, insert, remove, retain, len, same, same_iff, get-insert, get-remove, get-retain,
    len-retain-le, len-remove,
  }

  -- The identifier is revoked at least until then.
  abbrev pub IsListed : JwtRevocationStore table → Type 0
  IsListed s = Lasts exp (get jti s.revoked)

  cleanup_expired-IsListed :
      (now : ℕ) (s : JwtRevocationStore table)
      → now < exp
      → IsListed s
      → IsListed (cleanup_expired table now s)
  unfolding cleanup_expired
  cleanup_expired-IsListed now s before h =
      subst (Lasts exp) (sym (get-retain (λ e. ltb now e) jti s.revoked))
        (kept-Lasts exp now (get jti s.revoked) before h)

  clean_if_due-IsListed :
      (won : Bool) (now : ℕ) (s : JwtRevocationStore table)
      → now < exp
      → IsListed s
      → IsListed (clean_if_due table won now s)
  unfolding clean_if_due
  clean_if_due-IsListed won now s before h =
      if_either IsListed
        ((leb max_revoked_entries (len s.revoked) || leb 30 (now - s.last_cleanup)) && won)
        (λ t. cleanup_expired-IsListed now (record s { last_cleanup = now }) before h) (λ f. h)

  insert-Lasts :
      (other : Bytes) (until : ℕ) (m : table.Map)
      → (other ≡ jti → exp ≤ until)
      → ((same other jti ≡ false) → Lasts exp (get jti m))
      → Lasts exp (get jti (insert other until m))
  insert-Lasts other until m later h =
      subst (Lasts exp) (sym (get-insert other jti until m))
        (if_either (Lasts exp) (same other jti) (λ t. later ((same_iff other jti).0 t)) h)

  insert_revoked-IsListed :
      (other : Bytes) (until : ℕ) (s : JwtRevocationStore table)
      → (other ≡ jti → exp ≤ until)
      → IsListed s
      → IsListed (insert_revoked table other until s)
  unfolding insert_revoked
  insert_revoked-IsListed other until s later h =
      if_either IsListed _ (λ t. insert-Lasts other until s.revoked later (λ f. h)) (λ f. h)

  pub revoke-IsListed :
      (won : Bool) (now : ℕ) (other : Bytes) (until : ℕ) (s : JwtRevocationStore table)
      → now < exp
      → (other ≡ jti → exp ≤ until)
      → IsListed s
      → IsListed (revoke table won now other until s)
  unfolding revoke
  revoke-IsListed won now other until s before later h =
      if_either IsListed (is_storable other)
        (λ t.
          insert_revoked-IsListed other until (clean_if_due table won now s) later
            (clean_if_due-IsListed won now s before h))
        (λ f. h)

  -- A check removes no entry that still counts.
  check_entry-IsListed :
      (now : ℕ) (other : Bytes) (s : JwtRevocationStore table) (o : Option ℕ)
      → now < exp
      → get other s.revoked ≡ o
      → IsListed s
      → IsListed (check_entry table now other s o).1
  unfolding check_entry
  check_entry-IsListed now other s none before g h = h
  check_entry-IsListed now other s (some e) before g h =
      if_either (λ (r : Bool × JwtRevocationStore table). IsListed r.1) (ltb now e) (λ t. h)
        (λ f. subst (Lasts exp) (sym (get-remove other jti s.revoked)) (
          if_either (Lasts exp) (same other jti)
            (λ t.
              let mine : get jti s.revoked ≡ some e =
                subst (λ k. get k s.revoked ≡ some e) ((same_iff other jti).0 t) g in
              let l : exp ≤ e = subst (Lasts exp) mine h in absurd (ground (arith, f)))
            (λ d. h)))

  pub is_revoked-IsListed :
      (now : ℕ) (other : Bytes) (s : JwtRevocationStore table)
      → now < exp
      → IsListed s
      → IsListed (is_revoked table now other s).1
  unfolding is_revoked
  is_revoked-IsListed now other s before h = check_entry-IsListed now other s _ before refl h

  check_entry-listed :
      (now : ℕ) (s : JwtRevocationStore table) (o : Option ℕ)
      → now < exp
      → Lasts exp o
      → (check_entry table now jti s o).0 ≡ true
  unfolding check_entry
  check_entry-listed now s none before h = absurd h
  check_entry-listed now s (some e) before h =
      if_either (λ (r : Bool × JwtRevocationStore table). r.0 ≡ true) (ltb now e) (λ t. refl)
        (λ f. absurd (ground (arith, f)))

  -- Before its expiry the identifier is found.
  pub is_revoked-listed :
      (now : ℕ) (s : JwtRevocationStore table)
      → now < exp
      → IsListed s
      → (is_revoked table now jti s).0 ≡ true
  unfolding is_revoked
  is_revoked-listed now s before h = check_entry-listed now s _ before h

  clean_if_due_le :
      (won : Bool) (now : ℕ) (s : JwtRevocationStore table)
      → len (clean_if_due table won now s).revoked ≤ len s.revoked
  unfolding clean_if_due cleanup_expired
  clean_if_due_le won now s =
      if_either (λ (t : JwtRevocationStore table). len t.revoked ≤ len s.revoked)
        ((leb max_revoked_entries (len s.revoked) || leb 30 (now - s.last_cleanup)) && won)
        (λ t. len-retain-le (λ e. ltb now e) s.revoked) (λ f. omega arith)

  check_entry_le :
      (now : ℕ) (other : Bytes) (s : JwtRevocationStore table) (o : Option ℕ)
      → len (check_entry table now other s o).1.revoked ≤ len s.revoked
  unfolding check_entry
  check_entry_le now other s none = omega arith
  check_entry_le now other s (some e) =
      if_either (λ (r : Bool × JwtRevocationStore table). len r.1.revoked ≤ len s.revoked)
        (ltb now e) (λ t. omega arith) (λ f. omega (arith, len-remove other s.revoked))

  pub is_revoked_le :
      (now : ℕ) (other : Bytes) (s : JwtRevocationStore table)
      → len (is_revoked table now other s).1.revoked ≤ len s.revoked
  unfolding is_revoked
  is_revoked_le now other s = check_entry_le now other s (get other s.revoked)

  insert_revoked-lists :
      (until : ℕ) (s : JwtRevocationStore table)
      → exp ≤ until
      → len s.revoked < max_revoked_entries
      → IsListed (insert_revoked table jti until s)
  unfolding insert_revoked
  insert_revoked-lists until s later room =
      if_either IsListed
        (ltb (len s.revoked) max_revoked_entries || contains_key (get jti s.revoked))
        (λ t.
          insert-Lasts jti until s.revoked (λ e. later)
            (λ f. absurd (ground (arith, f, (same_iff jti jti).1 refl))))
        (λ f. absurd (ground (arith, f)))

  -- A revocation that finds room is stored.
  pub revoke-lists :
      (won : Bool) (now : ℕ) (until : ℕ) (s : JwtRevocationStore table)
      → is_storable jti ≡ true
      → exp ≤ until
      → len s.revoked < max_revoked_entries
      → IsListed (revoke table won now jti until s)
  unfolding revoke
  revoke-lists won now until s ok later room =
      if_either IsListed (is_storable jti)
        (λ t.
          insert_revoked-lists until (clean_if_due table won now s) later
            (omega (arith, clean_if_due_le won now s)))
        (λ f. absurd (ground (arith, f, ok)))
