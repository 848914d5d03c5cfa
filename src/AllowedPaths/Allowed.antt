-- ===== src/AllowedPaths/Allowed.antt =====
-- Which requests the allowed paths let through.
use praeco_rs.Prelude.{
  ◌≡◌, ◌↔◌, inl, inr, refl, Bool, true, ◌&&◌, Option, none, some, List, [], ◌∷◌, any, Bytes,
  starts_with, Elem, arith, Bool-cases, ◌∙◌, ◌≢◌, and_true, if◌then◌else◌,
}
use praeco_rs.PathRules.{is_wildcard, strip_last, lookup, prefix_rules, sort_by_length}
use praeco_rs.PathRules.Longest.{
  lookup-exact_rules, sort-Elem_iff, prefix_rules-Elem, Elem-prefix_rules,
}
use praeco_rs.AllowedPaths.{
  matches, rules_allow, rules_of, CompiledAllowedPathes, Method, get_method, post_method,
  put_method, delete_method, patch_method, head_method, options_method, other_method, is_allowed,
  with_query,
}

any_iff :
    {A : Type 0} (p : A → Bool) (xs : List A)
    → (any p xs ≡ true) ↔ ((x : A) × Elem x xs × (p x ≡ true))
any_iff p [] = (λ h. absurd (ground arith), λ (x, m, h). absurd m)
any_iff p (x ∷ xs) = (
  λ h. elim (Bool-cases (p x)) [
    | inl here ↦ (x, inl refl, here)
    | inr there ↦ let (y, m, k) = (any_iff p xs).0 (ground (arith, there)) in (y, inr m, k)
  ],
  λ (y, m, h). elim m [
    | inl e ↦ let here : p x ≡ true = rw (← e) h in ground (arith, here)
    | inr n ↦ ground (arith, (any_iff p xs).1 (y, n, h))
  ],
)

module _ {Regex : Type 0} (is_match : Regex → Bytes → Bool) (compile : Bytes → Option Regex) where
  -- One of the expressions matches the text.
  abbrev pub IsMatched : List Regex → Bytes → Type 0
  IsMatched rules full_path = (re : Regex) × Elem re rules × (is_match re full_path ≡ true)

  -- An entry of the table for the path itself.
  abbrev pub written_for : List (Bytes × List Regex) → Bytes → Option (List Regex)
  written_for table path = if is_wildcard path then none else lookup path table

  exact_lookup :
      (table : List (Bytes × List Regex)) (path : Bytes)
      → lookup path (rules_of is_match compile table).exact ≡ written_for table path
  unfolding rules_of
  exact_lookup table path = lookup-exact_rules path table

  -- A path with an entry of its own is let through exactly if an expression of that entry matches:
  -- the prefixes do not count for it.
  rules_allow-exact_iff :
      (table : List (Bytes × List Regex)) (path full_path : Bytes) (rules : List Regex)
      → written_for table path ≡ some rules
      → (rules_allow is_match compile (rules_of is_match compile table) path full_path ≡ true)
        ↔ IsMatched rules full_path
  unfolding rules_allow
  rules_allow-exact_iff table path full_path rules h =
      rw (exact_lookup table path ∙ h, rules_allow) (any_iff (λ re. is_match re full_path) rules)

  -- Any other path is let through exactly if an expression matches of any prefix pattern that
  -- covers the path, the longest or not.
  pub rules_allow-prefix_iff :
      (table : List (Bytes × List Regex)) (path full_path : Bytes)
      → written_for table path ≡ none
      → (rules_allow is_match compile (rules_of is_match compile table) path full_path ≡ true) ↔ (
          (pattern : Bytes) × (rules : List Regex) × Elem (pattern, rules) table
          × (is_wildcard pattern ≡ true)
          × (starts_with path (strip_last pattern) ≡ true)
          × IsMatched rules full_path)
  unfolding rules_allow rules_of
  rules_allow-prefix_iff table path full_path h =
      let test : Bytes × List Regex → Bool =
        λ (p, rules). starts_with path p && matches is_match compile rules full_path in
      let sorted = sort_by_length (prefix_rules table) in
      let found = any_iff test sorted in
      rw (exact_lookup table path ∙ h, rules_allow)
        (
          λ a.
              let ((p, rules), m, t) = found.0 a in
              let (starts, matched) =
                and_true (starts_with path p) (matches is_match compile rules full_path) t in
              let (pattern, k, w, e) =
                Elem-prefix_rules p rules table
                  ((sort-Elem_iff (p, rules) (prefix_rules table)).0 m) in
              (
                pattern,
                rules,
                k,
                w,
                rw (← e) starts,
                (any_iff (λ re. is_match re full_path) rules).0 matched,
              ),
          λ (pattern, rules, k, w, starts, matched). found.1 (
            (strip_last pattern, rules),
            (sort-Elem_iff (strip_last pattern, rules) (prefix_rules table)).1
                (prefix_rules-Elem pattern rules table k w),
            ground (arith, starts, (any_iff (λ re. is_match re full_path) rules).1 matched),
          ),
        )

  options_other :
      (c : CompiledAllowedPathes is_match compile) (path query : Bytes)
      → is_allowed is_match compile c options_method path query ≡ true
      → (m : Method) × (m ≢ options_method) × (is_allowed is_match compile c m path query ≡ true)
  unfolding is_allowed
  options_other c path query h =
      elim (Bool-cases
        (rules_allow is_match compile c.get path (with_query is_match compile path query))) [
          | inl hit_get ↦ (get_method, λ e. ground arith, ground (arith, hit_get))
          | inr miss_get ↦
              elim (Bool-cases (
                rules_allow is_match compile c.post path
                  (with_query is_match compile path query))) [
                    | inl hit_post ↦ (post_method, λ e. ground arith, ground (arith, hit_post))
                    | inr miss_post ↦
                        elim (Bool-cases (
                          rules_allow is_match compile c.put path
                            (with_query is_match compile path query))) [
                              | inl hit_put ↦
                                  (put_method, λ e. ground arith, ground (arith, hit_put))
                              | inr miss_put ↦
                                  elim (Bool-cases (
                                    rules_allow is_match compile c.delete path
                                      (with_query is_match compile path query))) [
                                        | inl hit_delete ↦ (
                                          delete_method,
                                          λ e. ground arith,
                                          ground (arith, hit_delete),
                                        )
                                        | inr miss_delete ↦
                                            elim (Bool-cases (
                                              rules_allow is_match compile c.patch path
                                                (with_query is_match compile path query))) [
                                                  | inl hit_patch ↦ (
                                                    patch_method,
                                                    λ e. ground arith,
                                                    ground (arith, hit_patch),
                                                  )
                                                  | inr miss_patch ↦
                                                      (head_method, λ e. ground arith, ground arith)
                                                ]
                                      ]
                            ]
                  ]
        ]

  other_options :
      (c : CompiledAllowedPathes is_match compile) (path query : Bytes) (m : Method)
      → m ≢ options_method
      → is_allowed is_match compile c m path query ≡ true
      → is_allowed is_match compile c options_method path query ≡ true
  unfolding is_allowed
  other_options c path query get_method n h = ground arith
  other_options c path query post_method n h = ground arith
  other_options c path query put_method n h = ground arith
  other_options c path query delete_method n h = ground arith
  other_options c path query patch_method n h = ground arith
  other_options c path query head_method n h = ground arith
  other_options c path query options_method n h = h
  other_options c path query other_method n h = absurd (ground arith)

  -- An OPTIONS request is let through exactly if some other method is for the same path and query.
  is_allowed-options_iff :
      (c : CompiledAllowedPathes is_match compile) (path query : Bytes)
      → (is_allowed is_match compile c options_method path query ≡ true) ↔ (
          (m : Method) × (m ≢ options_method) × (is_allowed is_match compile c m path query ≡ true))
  unfolding is_allowed
  is_allowed-options_iff c path query =
      (λ h. options_other c path query h, λ (m, n, h). other_options c path query m n h)
