-- ===== src/RetryBody/Examples.antt =====
-- Bodies, and the theorems about their buffer at them.
use praeco_rs.Prelude.{ℕ, ◌<◌, ◌≡◌, refl, none, some, List, [], ◌∷◌, length, arith}
use praeco_rs.RetryBody.{
  data_frame, trailers, Item, frame, broken, PrefixedStreamBody, buffered, stream,
  buffer_body_up_to,
}
use praeco_rs.RetryBody.Replay.{data_of, polled, buffer_body_up_to-exceeds}

abbrev body : List Item
body =
    frame (data_frame (1 ∷ 2 ∷ []))
    ∷ frame (data_frame (3 ∷ []))
    ∷ frame (data_frame (4 ∷ []))
    ∷ frame trailers
    ∷ []

-- With room for two bytes the third starts the stream, and an error ends the buffering.
bodies_read :
    (buffer_body_up_to body 4 ≡ some (buffered (1 ∷ 2 ∷ 3 ∷ 4 ∷ [])))
    × (buffer_body_up_to body 2
        ≡ some (
            stream (record {
              prefix = some (1 ∷ 2 ∷ 3 ∷ []);
              remaining = frame (data_frame (4 ∷ [])) ∷ frame trailers ∷ [];
            })))
    × (buffer_body_up_to (frame (data_frame (1 ∷ [])) ∷ broken ∷ []) 4 ≡ none)
unfolding buffer_body_up_to
bodies_read = (refl, refl, refl)

buffer_body_up_to-exceeds_example :
    (p : PrefixedStreamBody) × (buffer_body_up_to body 2 ≡ some (stream p))
    × ((n : ℕ) → length body < n → data_of (polled n p) ≡ data_of body)
buffer_body_up_to-exceeds_example =
    buffer_body_up_to-exceeds body 2 (omega arith)
      (λ e. ground arith, (λ e. ground arith, (λ e. ground arith, (λ e. ground arith, tt))))
      (omega arith)
