-- ===== src/Transcoding/Frame.antt =====
-- The frame of a gRPC message in `handle_grpc_web` of server/src/middleware/router/grpc_web.rs: a
-- flag, the length in four bytes, and the payload.
use praeco_rs.Prelude.{
  ◌+◌, ◌%◌, ◌^◌, ◌<◌, ◌≡◌, ap, ◌∙◌, false, ltb, if◌then◌else◌, [], ◌∷◌, ◌++◌, Bytes, length, take,
  drop, length-append, take-append, arith,
}
use praeco_rs.BigEndian.{to_be, from_be, from_be-to_be, length-to_be}

-- The length is cut to 32 bits.
unfoldable pub grpc_frame : Bytes → Bytes
unfolding to_be
grpc_frame payload = 0 ∷ (to_be 4 (length payload % 2 ^ 32) ++ payload)

pub data Unframed : Type 0 where
  payload : Bytes → Unframed
  too_short truncated : Unframed

-- The first message of a response body; what follows it is not read.
unfoldable pub unframe : Bytes → Unframed
unfolding from_be
unframe bytes =
    let payload_len = from_be (take 4 (drop 1 bytes)) in
    if ltb (length bytes) 5
    then too_short
    else if ltb (length bytes) (5 + payload_len)
    then truncated
    else payload (take payload_len (drop 5 bytes))

unframe_header :
    (header p rest : Bytes)
    → length header ≡ 4
    → from_be header ≡ length p
    → unframe (0 ∷ ((header ++ p) ++ rest)) ≡ payload p
unfolding unframe
unframe_header (a ∷ b ∷ c ∷ d ∷ []) p rest l e =
    let long : ltb (length (0 ∷ a ∷ b ∷ c ∷ d ∷ (p ++ rest))) 5 ≡ false = ground arith in
    let whole : ltb (length (0 ∷ a ∷ b ∷ c ∷ d ∷ (p ++ rest))) (5 + length p) ≡ false =
      ground (arith, length-append p rest) in
    rw (e, long, whole) (ap payload (take-append p rest))
unframe_header (a ∷ b ∷ c ∷ d ∷ f ∷ header) p rest l e = absurd (omega arith)
unframe_header (a ∷ b ∷ c ∷ []) p rest l e = absurd (omega arith)
unframe_header (a ∷ b ∷ []) p rest l e = absurd (omega arith)
unframe_header (a ∷ []) p rest l e = absurd (omega arith)
unframe_header [] p rest l e = absurd (omega arith)

-- A frame is read back to the payload, whatever follows it.
pub unframe-grpc_frame :
    (bytes rest : Bytes)
    → length bytes < 2 ^ 32
    → unframe (grpc_frame bytes ++ rest) ≡ payload bytes
unfolding grpc_frame
unframe-grpc_frame bytes rest h =
    let fits : length bytes % 2 ^ 32 ≡ length bytes = omega arith in
    unframe_header (to_be 4 (length bytes % 2 ^ 32)) bytes rest
      (length-to_be 4 (length bytes % 2 ^ 32))
      (from_be-to_be 4 (length bytes % 2 ^ 32) (omega arith) ∙ fits)
