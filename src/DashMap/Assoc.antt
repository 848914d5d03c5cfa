-- ===== src/DashMap/Assoc.antt =====
-- Association lists with distinct keys meet the laws of the map.
use praeco_rs.Prelude.{
  ◌+◌, ◌≤◌, ◌≡◌, ◌↔◌, refl, Bool, true, Option, none, some, List, [], ◌∷◌, length, if◌then◌else◌,
  arith,
}
use praeco_rs.DashMap.Interface.{DashMap, kept, weight}

module _ {K V : Type 0} (same : K → K → Bool) where
  pub lookup : K → List (K × V) → Option V
  lookup k [] = none
  lookup k ((j, v) ∷ m) = if same j k then some v else lookup k m

  pub put : K → V → List (K × V) → List (K × V)
  put k v [] = (k, v) ∷ []
  put k v ((j, w) ∷ m) = if same j k then (j, v) ∷ m else (j, w) ∷ put k v m

  pub delete : K → List (K × V) → List (K × V)
  delete k [] = []
  delete k ((j, w) ∷ m) = if same j k then m else (j, w) ∷ delete k m

  pub keep : (V → Bool) → List (K × V) → List (K × V)
  keep p [] = []
  keep p ((j, w) ∷ m) = if p w then (j, w) ∷ keep p m else keep p m

  abbrev pub Distinct : List (K × V) → Type 0
  Distinct [] = Unit
  Distinct ((k, v) ∷ m) = (lookup k m ≡ none) × Distinct m

  module _ (same_iff : (a b : K) → (same a b ≡ true) ↔ (a ≡ b)) where
    pub lookup-put :
        (k j : K) (v : V) (m : List (K × V))
        → lookup j (put k v m) ≡ (if same k j then some v else lookup j m)
    unfolding lookup put
    lookup-put k j v [] = refl
    lookup-put k j v ((i, w) ∷ m) =
        ground (arith, same_iff k j, same_iff i k, same_iff i j, lookup-put k j v m)

    pub lookup-delete :
        (k j : K) (m : List (K × V))
        → Distinct m
        → lookup j (delete k m) ≡ (if same k j then none else lookup j m)
    unfolding lookup delete
    lookup-delete k j [] d = ground arith
    lookup-delete k j ((i, w) ∷ m) d =
        ground (arith, same_iff k j, same_iff i k, same_iff i j, lookup-delete k j m d.1)

    pub lookup-keep :
        (p : V → Bool) (j : K) (m : List (K × V))
        → Distinct m
        → lookup j (keep p m) ≡ kept p (lookup j m)
    unfolding lookup keep
    lookup-keep p j [] d = refl
    lookup-keep p j ((i, w) ∷ m) d = ground (arith, same_iff i j, lookup-keep p j m d.1)

    pub put-Distinct : (k : K) (v : V) (m : List (K × V)) → Distinct m → Distinct (put k v m)
    unfolding lookup put
    put-Distinct k v [] d = (refl, tt)
    put-Distinct k v ((i, w) ∷ m) d =
        ground (arith, same_iff k i, same_iff i k, lookup-put k i v m, put-Distinct k v m d.1)

    pub delete-Distinct : (k : K) (m : List (K × V)) → Distinct m → Distinct (delete k m)
    unfolding lookup delete
    delete-Distinct k [] d = tt
    delete-Distinct k ((i, w) ∷ m) d =
        ground (arith, same_iff k i, same_iff i k, lookup-delete k i m d.1, delete-Distinct k m d.1)

    pub keep-Distinct : (p : V → Bool) (m : List (K × V)) → Distinct m → Distinct (keep p m)
    unfolding lookup keep
    keep-Distinct p [] d = tt
    keep-Distinct p ((i, w) ∷ m) d = ground (arith, lookup-keep p i m d.1, keep-Distinct p m d.1)

    pub length-put :
        (k : K) (v : V) (m : List (K × V)) → length (put k v m) + weight (lookup k m) ≡ length m + 1
    unfolding lookup put
    length-put k v [] = omega arith
    length-put k v ((i, w) ∷ m) = ground (arith, length-put k v m)

    pub length-delete :
        (k : K) (m : List (K × V)) → length (delete k m) + weight (lookup k m) ≡ length m
    unfolding lookup delete
    length-delete k [] = omega arith
    length-delete k ((i, w) ∷ m) = ground (arith, length-delete k m)

    pub length-keep-le : (p : V → Bool) (m : List (K × V)) → length (keep p m) ≤ length m
    unfolding keep
    length-keep-le p [] = omega arith
    length-keep-le p ((i, w) ∷ m) = ground (arith, length-keep-le p m)

    unfoldable pub assoc : DashMap K V
    unfolding lookup put delete keep
    assoc = record {
      Map = (m : List (K × V)) × Distinct m;
      same = same;
      empty = ([], tt);
      get = λ k m. lookup k m.0;
      insert = λ k v m. (put k v m.0, put-Distinct k v m.0 m.1);
      remove = λ k m. (delete k m.0, delete-Distinct k m.0 m.1);
      retain = λ p m. (keep p m.0, keep-Distinct p m.0 m.1);
      len = λ m. length m.0;
      same_iff = same_iff;
      get-empty = λ k. refl;
      get-insert = λ k j v m. lookup-put k j v m.0;
      get-remove = λ k j m. lookup-delete k j m.0 m.1;
      get-retain = λ p j m. lookup-keep p j m.0 m.1;
      len-empty = refl;
      len-insert = λ k v m. length-put k v m.0;
      len-remove = λ k m. length-delete k m.0;
      len-retain-le = λ p m. length-keep-le p m.0;
    }
