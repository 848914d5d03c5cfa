-- ===== src/Rbac/Examples.antt =====
-- A table of roles, and the theorems about it at some paths.
use praeco_rs.Prelude.{◌≤◌, ◌≡◌, ◌↔◌, ◌⊎◌, refl, none, some, List, [], ◌∷◌, Bytes, length, Elem}
use praeco_rs.PathRules.{is_wildcard}
use praeco_rs.Rbac.{
  from_raw, match_path, Extensions, extract_user_roles, allowed, forbidden, wildcard_role,
  enforce_rbac,
}
use praeco_rs.Rbac.Match.{Covers, match_path-longest}
use praeco_rs.Rbac.Enforce.{HasOneOf, enforce_rbac-rule_iff}

-- `/a*`, `/a/b*` and `/a/b`; the roles `x` and `y`.
abbrev raw : List (Bytes × List Bytes)
raw =
    (b'/' ∷ b'a' ∷ b'*' ∷ [], (b'x' ∷ []) ∷ [])
    ∷ (b'/' ∷ b'a' ∷ b'/' ∷ b'b' ∷ b'*' ∷ [], (b'y' ∷ []) ∷ [])
    ∷ (b'/' ∷ b'a' ∷ b'/' ∷ b'b' ∷ [], [])
    ∷ []

abbrev below : Bytes
below = b'/' ∷ b'a' ∷ b'/' ∷ b'b' ∷ b'/' ∷ []

abbrev entry : Bytes
entry = b'/' ∷ b'a' ∷ b'/' ∷ b'b' ∷ []

abbrev elsewhere : Bytes
elsewhere = b'/' ∷ []

abbrev no_roles : List Bytes
no_roles = []

abbrev holder : Extensions
holder = record { shared_role_vec = none; role_vec = some ((b'y' ∷ []) ∷ []); shared_vec = some [] }

found : match_path (from_raw raw) below ≡ some ((b'y' ∷ []) ∷ [])
unfolding match_path from_raw
found = refl

decided :
    (enforce_rbac below holder [] (some (from_raw raw)) ≡ allowed)
    × (enforce_rbac entry holder [] (some (from_raw raw)) ≡ forbidden)
    × (enforce_rbac elsewhere holder [] (some (from_raw raw)) ≡ allowed)
unfolding enforce_rbac from_raw
decided = (refl, refl, refl)

match_path-longest_example :
    (pattern : Bytes) × Covers raw below pattern ((b'y' ∷ []) ∷ [])
    × ((other : Bytes) (others : List Bytes)
        → Covers raw below other others
        → length other ≤ length pattern)
unfolding is_wildcard
match_path-longest_example = match_path-longest raw below ((b'y' ∷ []) ∷ []) refl found

enforce_rbac-rule_iff_example : (enforce_rbac below holder [] (some (from_raw raw)) ≡ allowed) ↔ (
    Elem wildcard_role ((b'y' ∷ []) ∷ []) ⊎ HasOneOf (extract_user_roles holder) ((b'y' ∷ []) ∷ []))
enforce_rbac-rule_iff_example =
    enforce_rbac-rule_iff below holder [] ((b'y' ∷ []) ∷ []) (some (from_raw raw)) found
