-- ===== src/AllowedPaths.antt =====
-- The paths that inspection lets through: `MethodRules` and `CompiledAllowedPathes` of
-- server/src/configuration.rs. The regular expressions are a parameter: `compile` is `Regex::new`
-- and `is_match` is `Regex::is_match`.
pub mod Allowed
mod Examples
use praeco_rs.Prelude.{
  Bool, true, false, ◌&&◌, ◌||◌, if◌then◌else◌, Option, none, some, List, [], ◌∷◌, ◌++◌, ◌>>=◌, any,
  is_empty, Bytes, bytes_eq, starts_with,
}
use praeco_rs.PathRules.{lookup, exact_rules, prefix_rules, sort_by_length}

-- The raw tables of the methods.
pub record AllowedPathes : Type 0 where
  pub get : Option (List (Bytes × List Bytes))
  pub post : Option (List (Bytes × List Bytes))
  pub put : Option (List (Bytes × List Bytes))
  pub delete : Option (List (Bytes × List Bytes))
  pub patch : Option (List (Bytes × List Bytes))
  pub head : Option (List (Bytes × List Bytes))

-- The names of methods that the source tells apart.
pub data Method : Type 0 where
  get_method post_method put_method delete_method patch_method head_method options_method
        other_method :
      Method

module _ {Regex : Type 0} (is_match : Regex → Bytes → Bool) (compile : Bytes → Option Regex) where
  pub record MethodRules : Type 0 where
    pub exact : List (Bytes × List Regex)
    pub prefix : List (Bytes × List Regex)

  -- One of the expressions matches.
  abbrev pub matches : List Regex → Bytes → Bool
  matches rules full_path = any (λ re. is_match re full_path) rules

  unfoldable pub rules_allow : MethodRules → (path full_path : Bytes) → Bool
  rules_allow m path full_path = elim (lookup path m.exact) [
    | some rules ↦ matches rules full_path
    | none ↦ any (λ (p, rules). starts_with path p && matches rules full_path) m.prefix
  ]

  -- An expression that does not compile ends the whole table.
  unfoldable pub compile_all : List Bytes → Option (List Regex)
  compile_all [] = some []
  compile_all (p ∷ ps) = do re ← compile p; rest ← compile_all ps; some (re ∷ rest)

  unfoldable pub compile_table : List (Bytes × List Bytes) → Option (List (Bytes × List Regex))
  unfolding compile_all
  compile_table [] = some []
  compile_table ((pattern, patterns) ∷ raw) = do
    rules ← compile_all patterns
    rest ← compile_table raw
    some ((pattern, rules) ∷ rest)

  unfoldable pub rules_of : List (Bytes × List Regex) → MethodRules
  unfolding exact_rules prefix_rules sort_by_length
  rules_of table = record {
    exact = exact_rules table;
    prefix = sort_by_length (prefix_rules table);
  }

  -- A method that the configuration leaves out has no rules.
  unfoldable pub compile_method_rules : Option (List (Bytes × List Bytes)) → Option MethodRules
  unfolding compile_table rules_of
  compile_method_rules none = some (rules_of [])
  compile_method_rules (some raw) = do table ← compile_table raw; some (rules_of table)

  pub record CompiledAllowedPathes : Type 0 where
    pub get : MethodRules
    pub post : MethodRules
    pub put : MethodRules
    pub delete : MethodRules
    pub patch : MethodRules
    pub head : MethodRules

  unfoldable pub with_query : (path query : Bytes) → Bytes
  with_query path query = if is_empty query then path else path ++ b'?' ∷ query

  unfoldable pub from_raw : AllowedPathes → Option CompiledAllowedPathes
  unfolding compile_method_rules
  from_raw raw = do
    g ← compile_method_rules raw.get
    p ← compile_method_rules raw.post
    u ← compile_method_rules raw.put
    d ← compile_method_rules raw.delete
    a ← compile_method_rules raw.patch
    h ← compile_method_rules raw.head
    some (record { get = g; post = p; put = u; delete = d; patch = a; head = h })

  unfoldable pub is_allowed : CompiledAllowedPathes → Method → (path query : Bytes) → Bool
  unfolding rules_allow with_query
  is_allowed c get_method path query = rules_allow c.get path (with_query path query)
  is_allowed c post_method path query = rules_allow c.post path (with_query path query)
  is_allowed c put_method path query = rules_allow c.put path (with_query path query)
  is_allowed c delete_method path query = rules_allow c.delete path (with_query path query)
  is_allowed c patch_method path query = rules_allow c.patch path (with_query path query)
  is_allowed c head_method path query =
      rules_allow c.head path (with_query path query)
      || rules_allow c.get path (with_query path query)
  is_allowed c options_method path query =
      rules_allow c.get path (with_query path query)
      || rules_allow c.post path (with_query path query)
      || rules_allow c.put path (with_query path query)
      || rules_allow c.delete path (with_query path query)
      || rules_allow c.patch path (with_query path query)
      || rules_allow c.head path (with_query path query)
  is_allowed c other_method path query = false
