-- ===== src/Rbac/Match.antt =====
-- The rule that a path finds, against the table as it is written.
use praeco_rs.Prelude.{
  ◌≤◌, ◌≡◌, ap, ◌+◌, true, false, Option, none, some, List, [], ◌∷◌, Bytes, length, starts_with,
  Elem, arith, if◌then◌else◌,
}
use praeco_rs.PathRules.{is_wildcard, strip_last, prefix_rules, first_match, lookup, sort_by_length}
use praeco_rs.PathRules.Longest.{
  lookup-exact_rules, sort-Elem_iff, sort-IsDescending, first_match-longest, first_match-none,
  prefix_rules-Elem, Elem-prefix_rules,
}
use praeco_rs.Rbac.{from_raw, match_path}

-- An entry of the table for the path itself.
abbrev pub written_for : List (Bytes × List Bytes) → Bytes → Option (List Bytes)
written_for raw path = if is_wildcard path then none else lookup path raw

-- The prefix pattern covers the path.
abbrev pub Covers : List (Bytes × List Bytes) → Bytes → Bytes → List Bytes → Type 0
Covers raw path pattern roles =
    Elem (pattern, roles) raw
    × (is_wildcard pattern ≡ true)
    × (starts_with path (strip_last pattern) ≡ true)

length-strip_last : (p : Bytes) → is_wildcard p ≡ true → length (strip_last p) + 1 ≡ length p
unfolding is_wildcard strip_last
length-strip_last [] w = absurd (ground arith)
length-strip_last (b ∷ []) w = ground arith
length-strip_last (b ∷ c ∷ bs) w = omega (arith, length-strip_last (c ∷ bs) w)

exact_lookup :
    (raw : List (Bytes × List Bytes)) (path : Bytes)
    → lookup path (from_raw raw).exact ≡ written_for raw path
unfolding from_raw
exact_lookup raw path = lookup-exact_rules path raw

-- An entry for the path itself comes before every prefix.
match_path-exact :
    (raw : List (Bytes × List Bytes)) (path : Bytes) (roles : List Bytes)
    → written_for raw path ≡ some roles
    → match_path (from_raw raw) path ≡ some roles
unfolding match_path
match_path-exact raw path roles h = ground (arith, exact_lookup raw path)

-- The roles for a path that has no entry of its own come from a prefix pattern that covers it, and
-- no pattern that covers it is longer, in whatever order the table is iterated.
pub match_path-longest :
    (raw : List (Bytes × List Bytes)) (path : Bytes) (roles : List Bytes)
    → written_for raw path ≡ none
    → match_path (from_raw raw) path ≡ some roles
    → (pattern : Bytes) × Covers raw path pattern roles
      × ((other : Bytes) (others : List Bytes)
          → Covers raw path other others
          → length other ≤ length pattern)
unfolding match_path from_raw
match_path-longest raw path roles n h =
    let found : first_match path (sort_by_length (prefix_rules raw)) ≡ some roles =
      ground (arith, exact_lookup raw path) in
    let (p, m, starts, longest) =
      first_match-longest path (sort_by_length (prefix_rules raw)) roles
        (sort-IsDescending (prefix_rules raw)) found in
    let (pattern, k, wild, e) =
      Elem-prefix_rules p roles raw ((sort-Elem_iff (p, roles) (prefix_rules raw)).0 m) in
    (
      pattern,
      (k, wild, rw (← e) starts),
      λ other others (l, w, covers).
          let shorter =
            longest (strip_last other) others
              ((sort-Elem_iff (strip_last other, others) (prefix_rules raw)).1
                (prefix_rules-Elem other others raw l w))
              covers in
          omega (arith, ap length e, length-strip_last other w, length-strip_last pattern wild),
    )

-- A path that finds no rule has no entry and is covered by no prefix pattern.
match_path-none :
    (raw : List (Bytes × List Bytes)) (path : Bytes)
    → match_path (from_raw raw) path ≡ none
    → (written_for raw path ≡ none)
      × ((pattern : Bytes) (roles : List Bytes)
          → Elem (pattern, roles) raw
          → is_wildcard pattern ≡ true
          → starts_with path (strip_last pattern) ≡ false)
unfolding match_path from_raw
match_path-none raw path h =
    let nowhere : first_match path (sort_by_length (prefix_rules raw)) ≡ none =
      ground (arith, exact_lookup raw path) in
    (
      ground (arith, exact_lookup raw path),
      λ pattern roles m w.
          first_match-none path (sort_by_length (prefix_rules raw)) nowhere (strip_last pattern)
            roles
            ((sort-Elem_iff (strip_last pattern, roles) (prefix_rules raw)).1
              (prefix_rules-Elem pattern roles raw m w)),
    )
