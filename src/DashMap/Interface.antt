-- ===== src/DashMap/Interface.antt =====
-- The operations of the concurrent map and their laws.
use praeco_rs.Prelude.{ℕ, ◌+◌, ◌≤◌, ◌≡◌, ◌↔◌, Bool, true, Option, none, some, if◌then◌else◌}

-- What `retain` leaves of an entry.
abbrev pub kept {ℓ} : {V : Type ℓ} → (V → Bool) → Option V → Option V
kept p none = none
kept p (some v) = if p v then some v else none

-- An entry counts once.
abbrev pub weight {ℓ} : {V : Type ℓ} → Option V → ℕ
weight none = 0
weight (some v) = 1

pub record DashMap (K V : Type 0) : Type 1 where
  pub Map : Type 0
  pub same : K → K → Bool
  pub empty : Map
  pub get : K → Map → Option V
  pub insert : K → V → Map → Map
  pub remove : K → Map → Map
  pub retain : (V → Bool) → Map → Map
  pub len : Map → ℕ
  pub same_iff : (a b : K) → (same a b ≡ true) ↔ (a ≡ b)
  pub get-empty : (k : K) → get k empty ≡ none
  pub get-insert :
      (k j : K) (v : V) (m : Map) → get j (insert k v m) ≡ (if same k j then some v else get j m)
  pub get-remove : (k j : K) (m : Map) → get j (remove k m) ≡ (if same k j then none else get j m)
  pub get-retain : (p : V → Bool) (j : K) (m : Map) → get j (retain p m) ≡ kept p (get j m)
  pub len-empty : len empty ≡ 0
  pub len-insert : (k : K) (v : V) (m : Map) → len (insert k v m) + weight (get k m) ≡ len m + 1
  pub len-remove : (k : K) (m : Map) → len (remove k m) + weight (get k m) ≡ len m
  pub len-retain-le : (p : V → Bool) (m : Map) → len (retain p m) ≤ len m
