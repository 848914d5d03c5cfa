-- ===== src/BodyLimit.antt =====
-- The limit on request bodies: `MaxPayloadService::call`, `LimitedBody` and `GrpcFramingState` of
-- server/src/middleware/limit.rs. A body is the list of the frames that its stream yields; waiting
-- is left out, and the byte count is exact, where a `usize` would wrap at 2^64. The five-byte
-- buffer with its position is the list of the bytes that it holds.
pub mod Bytewise
pub mod Chunks
pub mod Messages
pub mod Plain
mod Examples
use praeco_rs.Prelude.{
  ℕ, zero, suc, ◌+◌, ◌-◌, ◌*◌, min, Bool, true, false, ltb, ◌==◌, if◌then◌else◌, Option, none, some,
  List, [], ◌∷◌, ◌++◌, length, take, drop, map, Bytes, starts_with, codes,
}
use praeco_rs.BigEndian.{from_be}
use praeco_rs.RetryBody.{Frame, data_frame, trailers}
use praeco_rs.PathSanitizer.{to_ascii_lowercase}
use praeco_rs.IpFilter.Parse.{trim}
use praeco_rs.Http.{ErrorResponse, build_error_response}
use praeco_rs.Http
use praeco_rs.Http.Headers.{HeaderMap}
use praeco_rs.Http.Numbers.{parse_usize}

pub data GrpcFramingState : Type 0 where
  header : (buf : Bytes) → GrpcFramingState
  payload : (remaining : ℕ) → GrpcFramingState

-- What becomes of some bytes: they pass, or a message or the body is over the limit.
pub data Checked (S : Type 0) : Type 0 where
  passed : S → Checked S
  over : (current : ℕ) → Checked S

infixl 5 ◌>>=◌
abbrev pub ◌>>=◌ : {S T : Type 0} → Checked S → (S → Checked T) → Checked T
passed s >>= f = f s
over current >>= f = over current

-- Once the five bytes are there: the flag is not read, the length is a big-endian `u32`.
unfoldable pub header_done : (max_bytes : ℕ) → Bytes → Checked GrpcFramingState
unfolding from_be
header_done max_bytes buf =
    if length buf == 5
    then (let msg_len = from_be (drop 1 buf) in
        if ltb max_bytes msg_len then over msg_len else passed (payload msg_len))
    else passed (header buf)

unfoldable pub payload_done : ℕ → GrpcFramingState
payload_done remaining = if remaining == 0 then header [] else payload remaining

-- A message over the limit ends the loop.
abbrev pub go_on :
    (GrpcFramingState → Option (Checked GrpcFramingState))
    → Checked GrpcFramingState
    → Option (Checked GrpcFramingState)
go_on loop (passed state) = loop state
go_on loop (over current) = some (over current)

-- The loop over a frame, on fuel; `none` means that the fuel ran out.
unfoldable pub scan :
    ℕ → (max_bytes : ℕ) → GrpcFramingState → Bytes → Option (Checked GrpcFramingState)
unfolding header_done payload_done
scan fuel max_bytes state [] = some (passed state)
scan zero max_bytes state (b ∷ bs) = none
scan (suc fuel) max_bytes (header buf) (b ∷ bs) =
    let to_copy = min (5 - length buf) (length (b ∷ bs)) in
    go_on (λ state. scan fuel max_bytes state (drop to_copy (b ∷ bs)))
      (header_done max_bytes (buf ++ take to_copy (b ∷ bs)))
scan (suc fuel) max_bytes (payload remaining) (b ∷ bs) =
    let consumed = min (length (b ∷ bs)) remaining in
    scan fuel max_bytes (payload_done (remaining - consumed)) (drop consumed (b ∷ bs))

pub record LimitedBody : Type 0 where
  pub max_bytes : ℕ
  pub current_bytes : ℕ
  pub grpc_state : Option GrpcFramingState

-- A round moves on in the frame or takes the state from an empty payload to a header.
abbrev pub fuel_for : Bytes → ℕ
fuel_for data_ = 2 * length data_

abbrev pub after_scan :
    LimitedBody → Option (Checked GrpcFramingState) → Option (Checked LimitedBody)
after_scan body none = none
after_scan body (some (over current)) = some (over current)
after_scan body (some (passed state)) = some (passed (record body { grpc_state = some state }))

unfoldable pub check_data :
    LimitedBody → Option GrpcFramingState → Bytes → Option (Checked LimitedBody)
unfolding scan
check_data body (some state) data_ =
    after_scan body (scan (fuel_for data_) body.max_bytes state data_)
check_data body none data_ =
    let total = body.current_bytes + length data_ in
    if ltb body.max_bytes total
    then some (over total)
    else some (passed (record body { current_bytes = total }))

-- `poll_frame` for a frame that the inner body yields.
unfoldable pub check_frame : LimitedBody → Frame → Option (Checked LimitedBody)
unfolding check_data
check_frame body trailers = some (passed body)
check_frame body (data_frame data_) = check_data body body.grpc_state data_

abbrev pub prepend :
    Frame → Option (List Frame × Checked LimitedBody) → Option (List Frame × Checked LimitedBody)
prepend frame none = none
prepend frame (some (out, end)) = some (frame ∷ out, end)

-- A frame that passes is handed on; one that does not ends the body.
abbrev pub next_frame :
    (LimitedBody → Option (List Frame × Checked LimitedBody))
    → Frame
    → Option (Checked LimitedBody)
    → Option (List Frame × Checked LimitedBody)
next_frame rest frame none = none
next_frame rest frame (some (over current)) = some ([], over current)
next_frame rest frame (some (passed body)) = prepend frame (rest body)

-- A whole body: the frames that reach the handler, and what the last poll said.
unfoldable pub check_frames : LimitedBody → List Frame → Option (List Frame × Checked LimitedBody)
unfolding check_frame
check_frames body [] = some ([], passed body)
check_frames body (frame ∷ frames) =
    next_frame (λ b. check_frames b frames) frame (check_frame body frame)

-- What the service does with a request: it answers 413, or hands the body on, limited.
pub data Limiting : Type 0 where
  header_rejected : ErrorResponse → Limiting
  streaming : LimitedBody → Limiting

module _ (http : HeaderMap) where
  abbrev text_of : Option Bytes → Option Bytes
  text_of none = none
  text_of (some value) = http.to_str value

  -- A length that the header states; an unreadable one counts as none.
  unfoldable pub content_length : http.Map → Option ℕ
  unfolding parse_usize
  content_length headers = elim (text_of (http.get (codes "content-length") headers)) [
    | none ↦ none
    | some text ↦ parse_usize text
  ]

  unfoldable pub is_grpc : http.Map → Bool
  unfolding trim to_ascii_lowercase
  is_grpc headers = elim (text_of (http.get (codes "content-type") headers)) [
    | none ↦ false
    | some text ↦ starts_with (map to_ascii_lowercase (trim text)) (codes "application/grpc")
  ]

  unfoldable pub new_body : (max_bytes : ℕ) → http.Map → LimitedBody
  unfolding is_grpc
  new_body max_bytes headers = record {
    max_bytes = max_bytes;
    current_bytes = 0;
    grpc_state = if is_grpc headers then some (header []) else none;
  }

  unfoldable pub call : (max_bytes : ℕ) → http.Map → Limiting
  unfolding content_length new_body build_error_response
  call max_bytes headers = elim (content_length headers) [
    | none ↦ streaming (new_body max_bytes headers)
    | some length_ ↦
        if ltb max_bytes length_
        then header_rejected
            (build_error_response (codes "Payload too large (Header check)") Http.payload_too_large)
        else streaming (new_body max_bytes headers)
  ]
