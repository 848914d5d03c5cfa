-- ===== src/Rbac.antt =====
-- Access control by roles: `CompiledRbac` of server/src/configuration.rs and
-- server/src/middleware/router/rbac.rs. A response is its verdict; the metrics, log lines and
-- the text of the response are left out.
pub mod Match
pub mod Enforce
mod Examples
use praeco_rs.Prelude.{
  Bool, true, false, if◌then◌else◌, Option, none, some, List, [], ◌∷◌, any, is_empty, Bytes,
  bytes_eq,
}
use praeco_rs.PathRules.{lookup, first_match, exact_rules, prefix_rules, sort_by_length}

pub record CompiledRbac : Type 0 where
  pub exact : List (Bytes × List Bytes)
  pub prefix : List (Bytes × List Bytes)

unfoldable pub from_raw : List (Bytes × List Bytes) → CompiledRbac
unfolding exact_rules prefix_rules sort_by_length
from_raw raw = record { exact = exact_rules raw; prefix = sort_by_length (prefix_rules raw) }

unfoldable pub match_path : CompiledRbac → Bytes → Option (List Bytes)
match_path rbac path = elim (lookup path rbac.exact) [
  | some roles ↦ some roles
  | none ↦ first_match path rbac.prefix
]

-- The extensions in which the roles of a client may stand.
pub record Extensions : Type 0 where
  pub shared_role_vec : Option (List Bytes)
  pub role_vec : Option (List Bytes)
  pub shared_vec : Option (List Bytes)

abbrev or_else : Option (List Bytes) → Option (List Bytes) → Option (List Bytes)
or_else none other = other
or_else (some roles) other = some roles

abbrev pub extract_user_roles : Extensions → Option (List Bytes)
extract_user_roles e = or_else (or_else e.shared_role_vec e.role_vec) e.shared_vec

pub data Verdict : Type 0 where
  allowed forbidden : Verdict

abbrev pub wildcard_role : Bytes
wildcard_role = b'*' ∷ []

abbrev pub contains_role : List Bytes → Bytes → Bool
contains_role required role = any (λ r. bytes_eq r role) required

-- The client has one of the roles.
abbrev pub has_role : Option (List Bytes) → List Bytes → Bool
has_role none required = false
has_role (some roles) required = any (contains_role required) roles

-- A rule for the path.
unfoldable pub enforce_rule : Option (List Bytes) → List Bytes → Verdict
enforce_rule user_roles required =
    if is_empty required
    then forbidden
    else if any (λ r. bytes_eq r wildcard_role) required
    then allowed
    else if has_role user_roles required
    then allowed
    else forbidden

-- The roles of the route.
unfoldable pub enforce_route : Option (List Bytes) → List Bytes → Verdict
enforce_route user_roles allowed_roles =
    if is_empty allowed_roles
    then allowed
    else if has_role user_roles allowed_roles
    then allowed
    else forbidden

abbrev pub rule_for : Option CompiledRbac → Bytes → Option (List Bytes)
rule_for none path = none
rule_for (some rbac) path = match_path rbac path

unfoldable pub enforce_rbac :
    (path : Bytes) → Extensions → (allowed_roles : List Bytes) → Option CompiledRbac → Verdict
unfolding match_path enforce_rule enforce_route
enforce_rbac path e allowed_roles compiled_rbac = elim (rule_for compiled_rbac path) [
  | some required ↦ enforce_rule (extract_user_roles e) required
  | none ↦ enforce_route (extract_user_roles e) allowed_roles
]
