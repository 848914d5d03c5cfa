-- ===== src/AllowedPaths/Examples.antt =====
-- A table of allowed paths, and the theorems about it. An expression stands for the texts that
-- start with it.
use praeco_rs.Prelude.{
  ◌≡◌, ◌↔◌, refl, Bool, true, false, Option, none, some, List, [], ◌∷◌, Bytes, starts_with, Elem,
}
use praeco_rs.PathRules.{is_wildcard, strip_last}
use praeco_rs.AllowedPaths.{
  AllowedPathes, CompiledAllowedPathes, MethodRules, rules_of, rules_allow, from_raw, is_allowed,
  get_method, head_method, post_method,
}
use praeco_rs.AllowedPaths.Allowed.{IsMatched, rules_allow-prefix_iff}

abbrev is_match : Bytes → Bytes → Bool
is_match re text = starts_with text re

abbrev compile : Bytes → Option Bytes
compile [] = none
compile (b ∷ bs) = some (b ∷ bs)

-- `/a*` allows what starts with `/a/b?x`, the longer `/a/*` only `/a/c`, and `/a/d` nothing.
abbrev table : List (Bytes × List Bytes)
table =
    (b'/' ∷ b'a' ∷ b'*' ∷ [], (b'/' ∷ b'a' ∷ b'/' ∷ b'b' ∷ b'?' ∷ b'x' ∷ []) ∷ [])
    ∷ (b'/' ∷ b'a' ∷ b'/' ∷ b'*' ∷ [], (b'/' ∷ b'a' ∷ b'/' ∷ b'c' ∷ []) ∷ [])
    ∷ (b'/' ∷ b'a' ∷ b'/' ∷ b'd' ∷ [], [])
    ∷ []

abbrev below : Bytes
below = b'/' ∷ b'a' ∷ b'/' ∷ b'b' ∷ []

abbrev entry : Bytes
entry = b'/' ∷ b'a' ∷ b'/' ∷ b'd' ∷ []

abbrev raw : AllowedPathes
raw = record { get = some table; post = none; put = none; delete = none; patch = none; head = none }

abbrev no_rules : MethodRules is_match compile
unfolding rules_of
no_rules = rules_of is_match compile []

abbrev compiled : CompiledAllowedPathes is_match compile
unfolding rules_of
compiled = record {
  get = rules_of is_match compile table;
  post = no_rules;
  put = no_rules;
  delete = no_rules;
  patch = no_rules;
  head = no_rules;
}

-- The shorter prefix lets through what the longer one does not.
decided :
    (from_raw is_match compile raw ≡ some compiled)
    × (is_allowed is_match compile compiled get_method below (b'x' ∷ []) ≡ true)
    × (is_allowed is_match compile compiled get_method below [] ≡ false)
    × (is_allowed is_match compile compiled head_method entry [] ≡ false)
    × (is_allowed is_match compile compiled post_method below (b'x' ∷ []) ≡ false)
unfolding from_raw compiled no_rules is_allowed
decided = (refl, refl, refl, refl, refl)

rules_allow-prefix_iff_example :
    (rules_allow is_match compile (rules_of is_match compile table) below below ≡ true) ↔ (
      (pattern : Bytes) × (rules : List Bytes) × Elem (pattern, rules) table
      × (is_wildcard pattern ≡ true)
      × (starts_with below (strip_last pattern) ≡ true)
      × IsMatched is_match compile rules below)
unfolding is_wildcard
rules_allow-prefix_iff_example = rules_allow-prefix_iff is_match compile table below below refl
