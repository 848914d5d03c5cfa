-- ===== src/Transcoding/Roundtrip.antt =====
-- What the client of a transcoded call gets.
use praeco_rs.Prelude.{
  ◌+◌, ◌^◌, ◌≤◌, ◌<◌, ◌≡◌, ltb, false, ap, Bytes, ◌++◌, length, length-append, arith, some, ◌%◌,
}
use praeco_rs.BigEndian.{to_be, length-to_be}
use praeco_rs.Http
use praeco_rs.Transcoding.Frame.{grpc_frame, unframe-grpc_frame}
use praeco_rs.Transcoding.{
  Schema, whole, reply, answer, write, written, transcoded, max_grpc_web_response_bytes,
}

length-grpc_frame : (bytes : Bytes) → length (grpc_frame bytes) ≡ 5 + length bytes
unfolding grpc_frame
length-grpc_frame bytes = omega (
  arith,
  length-append (to_be 4 (length bytes % 2 ^ 32)) bytes,
  length-to_be 4 (length bytes % 2 ^ 32),
)

module _ {Pool Desc Message : Type 0} (schema : Schema Pool Desc Message) (desc : Desc) where
  -- A message that the node encodes and frames reaches the client as its JSON, whatever comes after
  -- it in the body, when the body fits the limit of 16 MiB.
  pub reply-grpc_frame :
      (message : Message) (bytes json rest : Bytes)
      → schema.decode desc bytes ≡ some message
      → schema.write_json message ≡ some json
      → length (grpc_frame bytes ++ rest) ≤ max_grpc_web_response_bytes
      → reply schema desc Http.ok (whole (grpc_frame bytes ++ rest)) ≡ transcoded json
  unfolding reply answer write written
  reply-grpc_frame message bytes json rest ed ew fits =
      let all : ltb max_grpc_web_response_bytes (length (grpc_frame bytes ++ rest)) ≡ false =
        ground arith in
      let small : length bytes < 2 ^ 32 =
        omega (arith, length-append (grpc_frame bytes) rest, length-grpc_frame bytes) in
      rw (all, unframe-grpc_frame bytes rest small, ed) (ap written ew)
