-- ===== src/PathRules.antt =====
-- Rules for paths, as server/src/configuration.rs compiles them for access control and for the
-- inspection of paths: a pattern that ends in `*` is a prefix, another one an exact path. The raw
-- table is a list of its entries in the order in which they are iterated; its keys are distinct.
pub mod Longest
use praeco_rs.Prelude.{
  ℕ, Bool, true, false, ltb, ◌==◌, if◌then◌else◌, Option, none, some, List, [], ◌∷◌, Bytes,
  bytes_eq, length, starts_with,
}

-- `ends_with('*')`.
unfoldable pub is_wildcard : Bytes → Bool
is_wildcard [] = false
is_wildcard (b ∷ []) = b == b'*'
is_wildcard (b ∷ c ∷ bs) = is_wildcard (c ∷ bs)

-- `pattern[..pattern.len() - 1]`.
unfoldable pub strip_last : Bytes → Bytes
strip_last [] = []
strip_last (b ∷ []) = []
strip_last (b ∷ c ∷ bs) = b ∷ strip_last (c ∷ bs)

module _ {V : Type 0} where
  abbrev pub lookup : Bytes → List (Bytes × V) → Option V
  lookup path [] = none
  lookup path ((p, v) ∷ rules) = if bytes_eq p path then some v else lookup path rules

  -- The first prefix in the list that the path starts with.
  abbrev pub first_match : Bytes → List (Bytes × V) → Option V
  first_match path [] = none
  first_match path ((p, v) ∷ rules) = if starts_with path p then some v else first_match path rules

  unfoldable pub exact_rules : List (Bytes × V) → List (Bytes × V)
  unfolding is_wildcard
  exact_rules [] = []
  exact_rules ((pattern, v) ∷ raw) =
      if is_wildcard pattern then exact_rules raw else (pattern, v) ∷ exact_rules raw

  unfoldable pub prefix_rules : List (Bytes × V) → List (Bytes × V)
  unfolding is_wildcard strip_last
  prefix_rules [] = []
  prefix_rules ((pattern, v) ∷ raw) =
      if is_wildcard pattern then (strip_last pattern, v) ∷ prefix_rules raw else prefix_rules raw

  insert_by_length : Bytes × V → List (Bytes × V) → List (Bytes × V)
  insert_by_length r [] = r ∷ []
  insert_by_length r (q ∷ rules) =
      if ltb (length r.0) (length q.0) then q ∷ insert_by_length r rules else r ∷ q ∷ rules

  -- The stable sort by descending length.
  unfoldable pub sort_by_length : List (Bytes × V) → List (Bytes × V)
  unfolding insert_by_length
  sort_by_length [] = []
  sort_by_length (r ∷ rules) = insert_by_length r (sort_by_length rules)
