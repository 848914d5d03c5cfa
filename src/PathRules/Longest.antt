-- ===== src/PathRules/Longest.antt =====
-- Which prefix rule a path finds first.
use praeco_rs.Prelude.{
  ℕ, ◌≤◌, ◌≡◌, ◌↔◌, ◌⊎◌, inl, inr, ap, true, false, none, some, List, [], ◌∷◌, Bytes, length,
  starts_with, bytes_eq_iff, All, Elem, arith, Bool-cases, ltb, if◌then◌else◌,
}
use praeco_rs.PathRules.{
  is_wildcard, strip_last, exact_rules, prefix_rules, first_match, lookup, insert_by_length,
  sort_by_length,
}

module _ {V : Type 0} where
  abbrev pub IsDescending : List (Bytes × V) → Type 0
  IsDescending [] = Unit
  IsDescending (r ∷ rules) =
      All (λ (q : Bytes × V). length q.0 ≤ length r.0) rules × IsDescending rules

  insert-Elem_iff :
      (x r : Bytes × V) (rules : List (Bytes × V))
      → Elem x (insert_by_length r rules) ↔ ((x ≡ r) ⊎ Elem x rules)
  unfolding insert_by_length
  insert-Elem_iff x r [] = ground arith
  insert-Elem_iff x r (q ∷ rules) = ground (arith, insert-Elem_iff x r rules)

  pub sort-Elem_iff :
      (x : Bytes × V) (rules : List (Bytes × V)) → Elem x (sort_by_length rules) ↔ Elem x rules
  unfolding sort_by_length
  sort-Elem_iff x [] = ground arith
  sort-Elem_iff x (r ∷ rules) =
      ground (arith, sort-Elem_iff x rules, insert-Elem_iff x r (sort_by_length rules))

  insert-All :
      (n : ℕ) (r : Bytes × V) (rules : List (Bytes × V))
      → length r.0 ≤ n
      → All (λ (q : Bytes × V). length q.0 ≤ n) rules
      → All (λ (q : Bytes × V). length q.0 ≤ n) (insert_by_length r rules)
  unfolding insert_by_length
  insert-All n r [] h hs = (h, tt)
  insert-All n r (q ∷ rules) h (hq, hs) = ground (arith, insert-All n r rules h hs)

  weaken-All :
      (m n : ℕ) (rules : List (Bytes × V))
      → m ≤ n
      → All (λ (q : Bytes × V). length q.0 ≤ m) rules
      → All (λ (q : Bytes × V). length q.0 ≤ n) rules
  weaken-All m n [] l h = tt
  weaken-All m n (q ∷ rules) l (h, hs) = (omega arith, weaken-All m n rules l hs)

  insert-IsDescending :
      (r : Bytes × V) (rules : List (Bytes × V))
      → IsDescending rules
      → IsDescending (insert_by_length r rules)
  unfolding insert_by_length
  insert-IsDescending r [] h = (tt, tt)
  insert-IsDescending r (q ∷ rules) (h, hs) = elim (Bool-cases (ltb (length r.0) (length q.0))) [
    | inl shorter ↦
        rw (shorter, insert_by_length, IsDescending)
          (insert-All (length q.0) r rules (ground arith) h, insert-IsDescending r rules hs)
    | inr longer ↦
        rw (longer, insert_by_length, IsDescending)
          ((ground arith, weaken-All (length q.0) (length r.0) rules (ground arith) h), (h, hs))
  ]

  pub sort-IsDescending : (rules : List (Bytes × V)) → IsDescending (sort_by_length rules)
  unfolding sort_by_length
  sort-IsDescending [] = tt
  sort-IsDescending (r ∷ rules) =
      insert-IsDescending r (sort_by_length rules) (sort-IsDescending rules)

  All-Elem :
      (n : ℕ) (rules : List (Bytes × V)) (x : Bytes × V)
      → All (λ (q : Bytes × V). length q.0 ≤ n) rules
      → Elem x rules
      → length x.0 ≤ n
  All-Elem n [] x h e = absurd e
  All-Elem n (q ∷ rules) x (h, hs) (inl e) = rw e h
  All-Elem n (q ∷ rules) x (h, hs) (inr e) = All-Elem n rules x hs e

  -- In a list with descending prefixes the first match is the longest.
  pub first_match-longest :
      (path : Bytes) (rules : List (Bytes × V)) (v : V)
      → IsDescending rules
      → first_match path rules ≡ some v
      → (p : Bytes) × Elem (p, v) rules
        × (starts_with path p ≡ true)
        × ((q : Bytes) (w : V)
            → Elem (q, w) rules
            → starts_with path q ≡ true
            → length q ≤ length p)
  first_match-longest path [] v d h = absurd (ground arith)
  first_match-longest path ((p, w) ∷ rules) v (d, ds) h = elim (Bool-cases (starts_with path p)) [
    | inl here ↦
        (p, inl (ground arith), here, λ q u m e. ground (arith, All-Elem (length p) rules (q, u) d))
    | inr there ↦
        let (r, m, e, longest) = first_match-longest path rules v ds (rw there at h) in
        (r, inr m, e, λ q u k f. ground (arith, longest q u))
  ]

  pub first_match-none :
      (path : Bytes) (rules : List (Bytes × V))
      → first_match path rules ≡ none
      → (q : Bytes) (w : V) → Elem (q, w) rules
      → starts_with path q ≡ false
  first_match-none path [] h q w m = absurd m
  first_match-none path ((p, v) ∷ rules) h q w m = elim (Bool-cases (starts_with path p)) [
    | inl here ↦ absurd (ground (arith, here))
    | inr there ↦ ground (arith, there, first_match-none path rules (rw there at h) q w)
  ]

  pub prefix_rules-Elem :
      (pattern : Bytes) (v : V) (raw : List (Bytes × V))
      → Elem (pattern, v) raw
      → is_wildcard pattern ≡ true
      → Elem (strip_last pattern, v) (prefix_rules raw)
  unfolding prefix_rules
  prefix_rules-Elem pattern v [] m w = absurd m
  prefix_rules-Elem pattern v ((q, u) ∷ raw) (inl e) w =
      ground (arith, ap is_wildcard (ap (λ x. x.0) e), ap strip_last (ap (λ x. x.0) e))
  prefix_rules-Elem pattern v ((q, u) ∷ raw) (inr m) w =
      ground (arith, prefix_rules-Elem pattern v raw m w)

  pub Elem-prefix_rules :
      (p : Bytes) (v : V) (raw : List (Bytes × V))
      → Elem (p, v) (prefix_rules raw)
      → (pattern : Bytes) × Elem (pattern, v) raw
        × (is_wildcard pattern ≡ true)
        × (p ≡ strip_last pattern)
  unfolding prefix_rules
  Elem-prefix_rules p v [] m = absurd m
  Elem-prefix_rules p v ((pattern, u) ∷ raw) m = elim (Bool-cases (is_wildcard pattern)) [
    | inl wild ↦ elim (rw (wild, prefix_rules) at m) [
      | inl e ↦ (pattern, inl (ground arith), wild, ground arith)
      | inr n ↦ let (q, k, w, e) = Elem-prefix_rules p v raw n in (q, inr k, w, e)
    ]
    | inr exact ↦
        let (q, k, w, e) = Elem-prefix_rules p v raw (rw (exact, prefix_rules) at m) in
        (q, inr k, w, e)
  ]

  -- The exact rules are the entries that are no prefixes.
  pub lookup-exact_rules :
      (path : Bytes) (raw : List (Bytes × V))
      → lookup path (exact_rules raw) ≡ (if is_wildcard path then none else lookup path raw)
  unfolding exact_rules
  lookup-exact_rules path [] = ground arith
  lookup-exact_rules path ((pattern, v) ∷ raw) =
      ground (arith, bytes_eq_iff pattern path, lookup-exact_rules path raw)
