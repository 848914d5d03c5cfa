-- ===== src/RetryBody.antt =====
-- The bounded buffer for the body of a request that may be retried: `PrefixedStreamBody` and
-- `buffer_body_up_to` of server/src/middleware/router/circuit_breaker.rs. A body is the list of
-- what its stream yields, in order; waiting for a frame is left out.
pub mod Replay
pub mod Buffered
mod Examples
use praeco_rs.Prelude.{
  ℕ, zero, suc, ◌+◌, Bool, true, false, ltb, if◌then◌else◌, Option, none, some, List, [], ◌∷◌, ◌++◌,
  length, is_empty, Bytes, saturated,
}

pub data Frame : Type 0 where
  data_frame : Bytes → Frame
  trailers : Frame

-- What a stream yields: a frame, or an error.
pub data Item : Type 0 where
  frame : Frame → Item
  broken : Item

pub record PrefixedStreamBody : Type 0 where
  pub prefix : Option Bytes
  pub remaining : List Item

abbrev next_item : List Item → Option Item × List Item
next_item [] = (none, [])
next_item (i ∷ items) = (some i, items)

abbrev poll_remaining : List Item → Option Item × PrefixedStreamBody
poll_remaining items =
    ((next_item items).0, record { prefix = none; remaining = (next_item items).1 })

unfoldable pub poll_frame : PrefixedStreamBody → Option Item × PrefixedStreamBody
poll_frame p = elim p.prefix [
  | none ↦ poll_remaining p.remaining
  | some bytes ↦
      if is_empty bytes
      then poll_remaining p.remaining
      else (some (frame (data_frame bytes)), record p { prefix = none })
]

pub data RequestBody : Type 0 where
  buffered : Bytes → RequestBody
  stream : PrefixedStreamBody → RequestBody

-- The loop: `none` is the error of the stream.
unfoldable pub buffer_from : (accumulated : Bytes) → List Item → ℕ → Option RequestBody
buffer_from accumulated [] max_buffer_bytes = some (buffered accumulated)
buffer_from accumulated (broken ∷ body) max_buffer_bytes = none
buffer_from accumulated (frame trailers ∷ body) max_buffer_bytes =
    buffer_from accumulated body max_buffer_bytes
buffer_from accumulated (frame (data_frame data_) ∷ body) max_buffer_bytes =
    let rest = buffer_from (accumulated ++ data_) body max_buffer_bytes in
    if ltb max_buffer_bytes (saturated (length accumulated + length data_))
    then some (stream (record { prefix = some (accumulated ++ data_); remaining = body }))
    else rest

unfoldable pub buffer_body_up_to : List Item → ℕ → Option RequestBody
unfolding buffer_from
buffer_body_up_to body max_buffer_bytes = buffer_from [] body max_buffer_bytes
