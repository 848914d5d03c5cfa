-- ===== src/BodyLimit/Examples.antt =====
-- Limited bodies, and the theorems about them at concrete frames.
use praeco_rs.Prelude.{◌≤◌, ◌≡◌, ◌↔◌, refl, some, List, [], ◌∷◌, length, All, arith, codes}
use praeco_rs.BigEndian.{to_be}
use praeco_rs.RetryBody.{Frame, data_frame, trailers}
use praeco_rs.Http.Store.{assoc_headers}
use praeco_rs.BodyLimit.{
  header, payload, passed, over, LimitedBody, streaming, scan, fuel_for, check_frames, call,
}
use praeco_rs.BodyLimit.Bytewise.{byte_run, scan-bytewise}
use praeco_rs.BodyLimit.Chunks.{grpc_body}
use praeco_rs.BodyLimit.Messages.{Message, check_frames-messages}
use praeco_rs.BodyLimit.Plain.{plain_body}

-- A message of three bytes and an empty one, cut within the prefix of the first.
abbrev frames : List Frame
frames =
    data_frame (0 ∷ 0 ∷ 0 ∷ [])
    ∷ data_frame (0 ∷ 3 ∷ 7 ∷ 8 ∷ [])
    ∷ data_frame (9 ∷ 0 ∷ 0 ∷ 0 ∷ 0 ∷ 0 ∷ [])
    ∷ trailers
    ∷ []

abbrev messages : List Message
messages = record { flag = 0; content = 7 ∷ 8 ∷ 9 ∷ [] } ∷ record { flag = 0; content = [] } ∷ []

grpc_passes :
    check_frames (grpc_body 3 0 (header [])) frames
    ≡ some (frames, passed (grpc_body 3 0 (payload 0)))
unfolding check_frames
grpc_passes = refl

grpc_stops :
    check_frames (grpc_body 2 0 (header [])) frames
    ≡ some (data_frame (0 ∷ 0 ∷ 0 ∷ []) ∷ [], over 3)
unfolding check_frames
grpc_stops = refl

-- The content type is read without its case and its spaces.
grpc_call :
    call assoc_headers 3 ((codes "content-type", codes " Application/gRPC+proto") ∷ [])
    ≡ streaming (grpc_body 3 0 (header []))
unfolding call
grpc_call = refl

scan-bytewise_example :
    scan (fuel_for (0 ∷ 0 ∷ [])) 3 (header []) (0 ∷ 0 ∷ [])
    ≡ some (byte_run 3 (header []) (0 ∷ 0 ∷ []))
scan-bytewise_example = scan-bytewise 3 (header []) (0 ∷ 0 ∷ []) (omega arith)

check_frames-messages_example :
    ((body : LimitedBody) × (check_frames (grpc_body 3 0 (header [])) frames
        ≡ some (frames, passed body)))
    ↔ All (λ m. length m.content ≤ 3) messages
unfolding check_frames to_be
check_frames-messages_example = check_frames-messages 3 0 messages frames (omega arith) refl

plain_stops : check_frames (plain_body 5 0) frames ≡ some (data_frame (0 ∷ 0 ∷ 0 ∷ []) ∷ [], over 7)
unfolding check_frames
plain_stops = refl
