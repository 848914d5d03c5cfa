-- ===== src/Rbac/Enforce.antt =====
-- Who is let through.
use praeco_rs.Prelude.{
  ◌≡◌, ◌↔◌, ◌⊎◌, inl, inr, refl, true, Option, none, some, List, [], ◌∷◌, Bytes, bytes_eq_iff, any,
  Elem, arith, Bool-cases,
}
use praeco_rs.Rbac.{
  CompiledRbac, Extensions, extract_user_roles, allowed, rule_for, wildcard_role, contains_role,
  has_role, enforce_rule, enforce_route, enforce_rbac,
}

-- A role that the client has is one of those.
abbrev pub HasOneOf : Option (List Bytes) → List Bytes → Type 0
HasOneOf none required = ⊥
HasOneOf (some roles) required = (role : Bytes) × Elem role roles × Elem role required

contains_role-Elem_iff :
    (required : List Bytes) (role : Bytes)
    → (contains_role required role ≡ true) ↔ Elem role required
contains_role-Elem_iff [] role = ground arith
contains_role-Elem_iff (r ∷ required) role =
    ground (arith, bytes_eq_iff r role, contains_role-Elem_iff required role)

some_role_iff :
    (roles required : List Bytes)
    → (any (contains_role required) roles ≡ true)
      ↔ ((role : Bytes) × Elem role roles × Elem role required)
some_role_iff [] required = (λ h. absurd (ground arith), λ (role, m, k). absurd m)
some_role_iff (r ∷ roles) required = (
  λ h. elim (Bool-cases (contains_role required r)) [
    | inl here ↦ (r, inl refl, (contains_role-Elem_iff required r).0 here)
    | inr there ↦
        let (role, m, k) = (some_role_iff roles required).0 (ground (arith, there)) in
        (role, inr m, k)
  ],
  λ (role, m, k). elim m [
    | inl e ↦ ground (arith, (contains_role-Elem_iff required r).1 (rw (← e) k))
    | inr n ↦ ground (arith, (some_role_iff roles required).1 (role, n, k))
  ],
)

has_role-HasOneOf_iff :
    (user_roles : Option (List Bytes)) (required : List Bytes)
    → (has_role user_roles required ≡ true) ↔ HasOneOf user_roles required
has_role-HasOneOf_iff none required = ground arith
has_role-HasOneOf_iff (some roles) required = some_role_iff roles required

-- Where a rule is found for the path, a request is let through exactly if the rule names a role
-- that the client has, or the role `*`; so a rule without roles lets nobody through, whatever the
-- roles of the route.
pub enforce_rbac-rule_iff :
    (path : Bytes) (e : Extensions) (allowed_roles required : List Bytes)
    (compiled_rbac : Option CompiledRbac)
    → rule_for compiled_rbac path ≡ some required
    → (enforce_rbac path e allowed_roles compiled_rbac ≡ allowed)
      ↔ (Elem wildcard_role required ⊎ HasOneOf (extract_user_roles e) required)
unfolding enforce_rbac enforce_rule
enforce_rbac-rule_iff path e allowed_roles [] compiled_rbac h =
    ground (arith, has_role-HasOneOf_iff (extract_user_roles e) [])
enforce_rbac-rule_iff path e allowed_roles (r ∷ required) compiled_rbac h = ground (
  arith,
  has_role-HasOneOf_iff (extract_user_roles e) (r ∷ required),
  contains_role-Elem_iff (r ∷ required) wildcard_role,
)

-- Where no rule is found, the roles of the route decide, and a route without roles is open.
enforce_rbac-route_iff :
    (path : Bytes) (e : Extensions) (allowed_roles : List Bytes)
    (compiled_rbac : Option CompiledRbac)
    → rule_for compiled_rbac path ≡ none
    → (enforce_rbac path e allowed_roles compiled_rbac ≡ allowed)
      ↔ ((allowed_roles ≡ []) ⊎ HasOneOf (extract_user_roles e) allowed_roles)
unfolding enforce_rbac enforce_route
enforce_rbac-route_iff path e [] compiled_rbac h = ground arith
enforce_rbac-route_iff path e (r ∷ allowed_roles) compiled_rbac h =
    ground (arith, has_role-HasOneOf_iff (extract_user_roles e) (r ∷ allowed_roles))
