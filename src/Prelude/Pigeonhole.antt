-- ===== src/Prelude/Pigeonhole.antt =====
-- Lists without repetition are no longer than what they are drawn from.
use Prim.Native.Nat.{◌+◌, ◌≤◌}
use mathlib.Core.Path.{◌≡◌, refl, sym, subst}
use mathlib.Core.Logic.{◌⊎◌, inl, inr}
use mathlib.Core.List.{List, [], ◌∷◌, ◌++◌}
use native.Mathlib.Omega.{arith}
use praeco_rs.Prelude.Lists.{length, Elem}

module _ {A : Type 0} where
  abbrev pub Distinct : List A → Type 0
  Distinct [] = Unit
  Distinct (x ∷ xs) = (¬ Elem x xs) × Distinct xs

  abbrev pub Within : List A → List A → Type 0
  Within xs ys = (a : A) → Elem a xs → Elem a ys

  -- A list without one occurrence of an entry.
  without : (a : A) (ys : List A) → Elem a ys → List A
  without a [] h = absurd h
  without a (y ∷ ys) (inl e) = ys
  without a (y ∷ ys) (inr h) = y ∷ without a ys h

  without-length : (a : A) (ys : List A) (h : Elem a ys) → length (without a ys h) + 1 ≡ length ys
  unfolding without
  without-length a [] h = absurd h
  without-length a (y ∷ ys) (inl e) = omega arith
  without-length a (y ∷ ys) (inr h) = omega (arith, without-length a ys h)

  without-Elem :
      (a b : A) (ys : List A) (h : Elem a ys) → Elem b ys → (b ≡ a) ⊎ Elem b (without a ys h)
  unfolding without
  without-Elem a b [] h k = absurd h
  without-Elem a b (y ∷ ys) (inl e) (inl k) = inl (cc)
  without-Elem a b (y ∷ ys) (inl e) (inr k) = inr k
  without-Elem a b (y ∷ ys) (inr h) (inl k) = inr (inl k)
  without-Elem a b (y ∷ ys) (inr h) (inr k) = elim (without-Elem a b ys h k) [
    | inl e ↦ inl e
    | inr m ↦ inr (inr m)
  ]

  pub Distinct-length : (xs ys : List A) → Distinct xs → Within xs ys → length xs ≤ length ys
  Distinct-length [] ys d w = omega arith
  Distinct-length (x ∷ xs) ys d w =
      let h = w x (inl refl) in
      omega (
        arith,
        without-length x ys h,
        Distinct-length xs (without x ys h) d.1 (λ b k. elim (without-Elem x b ys h (w b (inr k))) [
          | inl e ↦ absurd (d.0 (subst (λ z. Elem z xs) e k))
          | inr m ↦ m
        ]),
      )

  pub Elem-append : (a : A) (xs ys : List A) → Elem a (xs ++ ys) → Elem a xs ⊎ Elem a ys
  Elem-append a [] ys h = inr h
  Elem-append a (x ∷ xs) ys (inl e) = inl (inl e)
  Elem-append a (x ∷ xs) ys (inr h) = elim (Elem-append a xs ys h) [
    | inl k ↦ inl (inr k)
    | inr k ↦ inr k
  ]

  pub Distinct-snoc : (xs : List A) (a : A) → Distinct xs → ¬ Elem a xs → Distinct (xs ++ a ∷ [])
  Distinct-snoc [] a d n = (λ h. h, tt)
  Distinct-snoc (x ∷ xs) a d n = (
    λ h. elim (Elem-append x xs (a ∷ []) h) [
      | inl k ↦ d.0 k
      | inr (inl e) ↦ n (inl (sym e))
      | inr (inr k) ↦ k
    ],
    Distinct-snoc xs a d.1 (λ h. n (inr h)),
  )
