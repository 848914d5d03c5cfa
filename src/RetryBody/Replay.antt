-- ===== src/RetryBody/Replay.antt =====
-- No byte of a body is lost or doubled by buffering it.
use praeco_rs.Prelude.{
  ℕ, zero, suc, ◌+◌, ◌≤◌, ◌<◌, ◌≡◌, refl, ap, sym, ◌∙◌, false, ltb, none, some, List, [], ◌∷◌, ◌++◌,
  length, length-append, append_assoc, append-nil, Bytes, saturated, u64_mod, arith, Bool-cases,
  All, ◌≢◌, inl, inr,
}
use praeco_rs.RetryBody.{
  data_frame, trailers, Item, frame, broken, PrefixedStreamBody, poll_frame, buffered, stream,
  buffer_from, buffer_body_up_to,
}

-- The bytes of all data frames.
abbrev pub data_of : List Item → Bytes
data_of [] = []
data_of (frame (data_frame bytes) ∷ items) = bytes ++ data_of items
data_of (frame trailers ∷ items) = data_of items
data_of (broken ∷ items) = data_of items

-- What so many polls of a stream yield.
unfoldable pub polled : ℕ → PrefixedStreamBody → List Item
unfolding poll_frame
polled zero p = []
polled (suc n) p =
    let (item, q) = poll_frame p in
    let rest = polled n q in elim item [ none ↦ [] | some i ↦ i ∷ rest ]

polled_remaining :
    (n : ℕ) (items : List Item)
    → length items ≤ n
    → polled n (record { prefix = none; remaining = items }) ≡ items
unfolding polled poll_frame
polled_remaining zero [] h = refl
polled_remaining zero (i ∷ items) h = absurd (omega arith)
polled_remaining (suc n) [] h = refl
polled_remaining (suc n) (i ∷ items) h = ap (◌∷◌ i) (polled_remaining n items (omega arith))

polled_step :
    (n : ℕ) (items : List Item)
    → length items ≤ n
    → polled (suc n) (record { prefix = some []; remaining = items }) ≡ items
unfolding polled poll_frame
polled_step n [] h = refl
polled_step n (i ∷ items) h = ap (◌∷◌ i) (polled_remaining n items (omega arith))

data_of-polled :
    (n : ℕ) (bytes : Bytes) (items : List Item)
    → length items < n
    → data_of (polled n (record { prefix = some bytes; remaining = items }))
      ≡ bytes ++ data_of items
unfolding polled poll_frame
data_of-polled zero bytes items h = absurd (omega arith)
data_of-polled (suc n) [] items h = ap data_of (polled_step n items (omega arith))
data_of-polled (suc n) (b ∷ bytes) items h =
    ap (λ rest. (b ∷ bytes) ++ data_of rest) (polled_remaining n items (omega arith))

abbrev pub IsWhole : List Item → Type 0
IsWhole body = All (λ i. i ≢ broken) body

fits_from :
    (accumulated : Bytes) (body : List Item) (max : ℕ)
    → max + 1 < u64_mod
    → IsWhole body
    → length accumulated + length (data_of body) ≤ max
    → buffer_from accumulated body max ≡ some (buffered (accumulated ++ data_of body))
unfolding buffer_from
fits_from accumulated [] max m w l =
    ap (λ bytes. some (buffered bytes)) (sym (append-nil accumulated))
fits_from accumulated (broken ∷ body) max m (w, ws) l = absurd (w refl)
fits_from accumulated (frame trailers ∷ body) max m (w, ws) l =
    fits_from accumulated body max m ws l
fits_from accumulated (frame (data_frame d) ∷ body) max m (w, ws) l =
    let total = length-append d (data_of body) in
    let fits : ltb max (saturated (length accumulated + length d)) ≡ false =
      ground (arith, total) in
    rw (fits, buffer_from)
      (fits_from (accumulated ++ d) body max m ws
          (omega (arith, total, length-append accumulated d))
        ∙ ap (λ bytes. some (buffered bytes)) (append_assoc accumulated d (data_of body)))

exceeds_from :
    (accumulated : Bytes) (body : List Item) (max : ℕ)
    → max + 1 < u64_mod
    → IsWhole body
    → length accumulated ≤ max
    → max < length accumulated + length (data_of body)
    → (p : PrefixedStreamBody) × (buffer_from accumulated body max ≡ some (stream p))
      × ((n : ℕ) → length body < n → data_of (polled n p) ≡ accumulated ++ data_of body)
unfolding buffer_from
exceeds_from accumulated [] max m w k l = absurd (omega arith)
exceeds_from accumulated (broken ∷ body) max m (w, ws) k l = absurd (w refl)
exceeds_from accumulated (frame trailers ∷ body) max m (w, ws) k l =
    let (p, e, whole) = exceeds_from accumulated body max m ws k l in
    (p, e, λ n h. whole n (omega arith))
exceeds_from accumulated (frame (data_frame d) ∷ body) max m (w, ws) k l =
    elim (Bool-cases (ltb max (saturated (length accumulated + length d)))) [
      | inl over ↦
          rw (over, buffer_from)
            (
              record { prefix = some (accumulated ++ d); remaining = body },
              refl,
              λ n h.
                  data_of-polled n (accumulated ++ d) body (omega arith)
                  ∙ append_assoc accumulated d (data_of body),
            )
      | inr fits ↦
          let (p, e, whole) =
            exceeds_from (accumulated ++ d) body max m ws
              (ground (arith, length-append accumulated d, fits))
              (omega (arith, length-append accumulated d, length-append d (data_of body))) in
          rw (fits, buffer_from)
            (p, e, λ n h. whole n (omega arith) ∙ append_assoc accumulated d (data_of body))
    ]

-- A body without an error, whose data fits the limit, is buffered: the buffer is its data.
buffer_body_up_to-fits :
    (body : List Item) (max : ℕ)
    → max + 1 < u64_mod
    → IsWhole body
    → length (data_of body) ≤ max
    → buffer_body_up_to body max ≡ some (buffered (data_of body))
unfolding buffer_body_up_to
buffer_body_up_to-fits body max m w l = fits_from [] body max m w (omega arith)

-- A body without an error, whose data exceeds the limit, is streamed: polled more often than the
-- body has frames, the stream yields the same data, none lost or doubled.
pub buffer_body_up_to-exceeds :
    (body : List Item) (max : ℕ)
    → max + 1 < u64_mod
    → IsWhole body
    → max < length (data_of body)
    → (p : PrefixedStreamBody) × (buffer_body_up_to body max ≡ some (stream p))
      × ((n : ℕ) → length body < n → data_of (polled n p) ≡ data_of body)
unfolding buffer_body_up_to
buffer_body_up_to-exceeds body max m w l = exceeds_from [] body max m w (omega arith) (omega arith)
