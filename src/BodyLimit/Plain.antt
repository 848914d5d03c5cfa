-- ===== src/BodyLimit/Plain.antt =====
-- The limit on a body that is not gRPC.
use praeco_rs.Prelude.{
  ℕ, ◌+◌, ◌≤◌, ◌<◌, ◌≡◌, ◌↔◌, refl, ap, ◌∙◌, ltb, Option, none, some, List, [], ◌∷◌, ◌++◌, length,
  length-append, arith, Bool-cases, inl, inr, ◌⊎◌,
}
use praeco_rs.RetryBody.{Frame, data_frame, trailers}
use praeco_rs.BodyLimit.{Checked, passed, over, LimitedBody, prepend, check_frames}
use praeco_rs.BodyLimit.Chunks.{bytes_of}

module _ (max_bytes : ℕ) where
  abbrev pub plain_body : ℕ → LimitedBody
  plain_body current = record { max_bytes = max_bytes; current_bytes = current; grpc_state = none }

  abbrev Through : ℕ → List Frame → Option (List Frame × Checked LimitedBody) → Type 0
  Through current frames r =
      (current + length (bytes_of frames) ≤ max_bytes)
      × (r ≡ some (frames, passed (plain_body (current + length (bytes_of frames)))))

  abbrev Stopped : ℕ → List Frame → Option (List Frame × Checked LimitedBody) → Type 0
  Stopped current frames r =
      (max_bytes < current + length (bytes_of frames))
      × ((out : List Frame) × (c : ℕ) × (r ≡ some (out, over c))
          × (current + length (bytes_of out) ≤ max_bytes))

  -- A data frame of `d` bytes before the rest.
  Through-data :
      (current : ℕ) (d : List ℕ) (frames : List Frame)
      (r : Option (List Frame × Checked LimitedBody))
      → Through (current + length d) frames r
      → Through current (data_frame d ∷ frames) (prepend (data_frame d) r)
  Through-data current d frames r h =
      let size : current + length d + length (bytes_of frames)
          ≡ current + length (d ++ bytes_of frames) =
        omega (arith, length-append d (bytes_of frames)) in
      (
        omega (arith, h.0, size),
        ap (prepend (data_frame d)) h.1
            ∙ ap (λ n. some (data_frame d ∷ frames, passed (plain_body n))) size,
      )

  Stopped-data :
      (current : ℕ) (d : List ℕ) (frames : List Frame)
      (r : Option (List Frame × Checked LimitedBody))
      → Stopped (current + length d) frames r
      → Stopped current (data_frame d ∷ frames) (prepend (data_frame d) r)
  Stopped-data current d frames r (big, (out, c, e, le)) = (
    omega (arith, big, length-append d (bytes_of frames)),
    (
      data_frame d ∷ out,
      c,
      ap (prepend (data_frame d)) e,
      omega (arith, le, length-append d (bytes_of out)),
    ),
  )

  plain_run :
      (current : ℕ) (frames : List Frame)
      → current ≤ max_bytes
      → Through current frames (check_frames (plain_body current) frames)
        ⊎ Stopped current frames (check_frames (plain_body current) frames)
  unfolding check_frames
  plain_run current [] h =
      inl (omega arith, ap (λ n. some ([], passed (plain_body n))) (omega arith))
  plain_run current (trailers ∷ frames) h = elim (plain_run current frames h) [
    | inl (le, e) ↦ inl (le, ap (prepend trailers) e)
    | inr (big, (out, c, e, le)) ↦ inr (big, (trailers ∷ out, c, ap (prepend trailers) e, le))
  ]
  plain_run current (data_frame d ∷ frames) h =
      elim (Bool-cases (ltb max_bytes (current + length d))) [
        | inl big ↦ rw big (
            inr (
              ground (arith, length-append d (bytes_of frames)),
              ([], current + length d, refl, omega arith),
            ))
        | inr fits ↦ rw fits (elim (plain_run (current + length d) frames (ground arith)) [
          | inl t ↦ inl (Through-data current d frames _ t)
          | inr s ↦ inr (Stopped-data current d frames _ s)
        ])
      ]

  -- A body that is not gRPC passes as it is exactly when it has at most `max_bytes` bytes.
  check_frames-plain_iff :
      (frames : List Frame)
      → ((body : LimitedBody) × (check_frames (plain_body 0) frames ≡ some (frames, passed body)))
        ↔ (length (bytes_of frames) ≤ max_bytes)
  check_frames-plain_iff frames = elim (plain_run 0 frames (omega arith)) [
    | inl (le, e) ↦ (λ p. omega (arith, le), λ k. (plain_body (0 + length (bytes_of frames)), e))
    | inr (big, (out, c, e, le)) ↦ (λ p. absurd (cc (p.1)), λ k. absurd (omega (arith, big)))
  ]

  -- The handler never reads more than `max_bytes` bytes of a body that is not gRPC.
  check_frames-plain_le :
      (frames out : List Frame) (end : Checked LimitedBody)
      → check_frames (plain_body 0) frames ≡ some (out, end)
      → length (bytes_of out) ≤ max_bytes
  check_frames-plain_le frames out end h = elim (plain_run 0 frames (omega arith)) [
    | inl (le, e) ↦ let same : frames ≡ out = cc in rw (← same) (omega (arith, le))
    | inr (big, (seen, c, e, le)) ↦ let same : seen ≡ out = cc in rw (← same) (omega (arith, le))
  ]
