-- ===== src/RetryBody/Buffered.antt =====
-- What a buffer that holds a body says of the body.
use praeco_rs.Prelude.{
  ℕ, ◌+◌, ◌≤◌, ◌<◌, ◌≡◌, ◌≢◌, subst, refl, sym, ◌∙◌, ltb, Option, none, some, List, [], ◌∷◌, ◌++◌,
  length, length-append, append_assoc, append-nil, Bytes, saturated, u64_mod, arith, Bool-cases,
  inl, inr,
}
use praeco_rs.RetryBody.{
  data_frame, trailers, Item, frame, broken, RequestBody, buffered, stream, buffer_from,
  buffer_body_up_to,
}
use praeco_rs.RetryBody.Replay.{data_of, IsWhole}

-- The body is whole and fits, and the bytes are all its data.
abbrev pub IsHeld : Bytes → List Item → ℕ → Option RequestBody → Type 0
IsHeld accumulated body max (some (buffered bytes)) =
    IsWhole body × (bytes ≡ accumulated ++ data_of body) × (length bytes ≤ max)
IsHeld accumulated body max _ = Unit

IsHeld-frame :
    (f : Item) (accumulated more : Bytes) (body : List Item) (max : ℕ) (b : Option RequestBody)
    → f ≢ broken
    → (more ++ data_of body) ≡ (accumulated ++ data_of (f ∷ body))
    → IsHeld more body max b
    → IsHeld accumulated (f ∷ body) max b
IsHeld-frame f accumulated more body max none w e h = tt
IsHeld-frame f accumulated more body max (some (stream p)) w e h = tt
IsHeld-frame f accumulated more body max (some (buffered bytes)) w e (ws, same, l) =
    ((w, ws), same ∙ e, l)

buffer_from-IsHeld :
    (accumulated : Bytes) (body : List Item) (max : ℕ)
    → max + 1 < u64_mod
    → length accumulated ≤ max
    → IsHeld accumulated body max (buffer_from accumulated body max)
unfolding buffer_from
buffer_from-IsHeld accumulated [] max m l = (tt, sym (append-nil accumulated), l)
buffer_from-IsHeld accumulated (broken ∷ body) max m l = tt
buffer_from-IsHeld accumulated (frame trailers ∷ body) max m l =
    IsHeld-frame (frame trailers) accumulated accumulated body max _
      (λ e. absurd (ground (arith, e))) refl (buffer_from-IsHeld accumulated body max m l)
buffer_from-IsHeld accumulated (frame (data_frame d) ∷ body) max m l =
    elim (Bool-cases (ltb max (saturated (length accumulated + length d)))) [
      | inl over ↦ rw (over, buffer_from) tt
      | inr fits ↦
          rw (fits, buffer_from)
            (IsHeld-frame (frame (data_frame d)) accumulated (accumulated ++ d) body max _
              (λ e. absurd (ground (arith, e))) (append_assoc accumulated d (data_of body))
              (buffer_from-IsHeld (accumulated ++ d) body max m
                (ground (arith, length-append accumulated d, fits))))
    ]

-- A body that ends up in the buffer had no error, and all its data is in the buffer and fits.
pub buffer_body_up_to-IsHeld :
    (body : List Item) (max : ℕ) (bytes : Bytes)
    → max + 1 < u64_mod
    → buffer_body_up_to body max ≡ some (buffered bytes)
    → IsWhole body × (bytes ≡ data_of body) × (length bytes ≤ max)
unfolding buffer_body_up_to
buffer_body_up_to-IsHeld body max bytes m e =
    subst (IsHeld [] body max) e (buffer_from-IsHeld [] body max m (omega arith))
