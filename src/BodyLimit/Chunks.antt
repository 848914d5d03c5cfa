-- ===== src/BodyLimit/Chunks.antt =====
-- A limited gRPC body reads its bytes, however they are cut into frames.
use praeco_rs.Prelude.{
  ℕ, zero, suc, ◌≡◌, refl, ap, Option, some, List, [], ◌∷◌, ◌++◌, length-append, Bytes, arith,
}
use praeco_rs.RetryBody.{Frame, data_frame, trailers}
use praeco_rs.BodyLimit.{
  GrpcFramingState, header, payload, Checked, passed, over, ◌>>=◌, payload_done, LimitedBody,
  prepend, next_frame, after_scan, check_frames,
}
use praeco_rs.BodyLimit.Bytewise.{
  byte_step, byte_run, byte_run-append, IsValid, header_done-IsValid, payload_done-IsValid,
  scan-bytewise,
}

-- The bytes of the data frames.
abbrev pub bytes_of : List Frame → Bytes
bytes_of [] = []
bytes_of (data_frame data_ ∷ frames) = data_ ++ bytes_of frames
bytes_of (trailers ∷ frames) = bytes_of frames

-- A body in a framing state.
abbrev pub grpc_body : (max_bytes current_bytes : ℕ) → GrpcFramingState → LimitedBody
grpc_body max_bytes current_bytes state = record {
  max_bytes = max_bytes;
  current_bytes = current_bytes;
  grpc_state = some state;
}

module _ (max_bytes : ℕ) where
  byte_step-IsValid :
      (state s : GrpcFramingState) (b : ℕ)
      → IsValid state
      → byte_step max_bytes state b ≡ passed s
      → IsValid s
  unfolding byte_step
  byte_step-IsValid (header buf) s b v e =
      header_done-IsValid max_bytes (buf ++ b ∷ []) s (omega (arith, length-append buf (b ∷ []))) e
  byte_step-IsValid (payload zero) s b v e =
      header_done-IsValid max_bytes (b ∷ []) s (omega arith) e
  byte_step-IsValid (payload (suc n)) s b v e =
      let same : payload_done n ≡ s = cc in rw (← same) (payload_done-IsValid max_bytes n)

  -- What the checks of a body's frames come to.
  abbrev pub Agrees :
      ℕ → List Frame → Checked GrpcFramingState → Option (List Frame × Checked LimitedBody) → Type 0
  Agrees n frames (passed s) r = r ≡ some (frames, passed (grpc_body max_bytes n s))
  Agrees n frames (over current) r = (out : List Frame) × (r ≡ some (out, over current))

  prepend-Agrees :
      (n : ℕ) (frame : Frame) (frames : List Frame) (c : Checked GrpcFramingState)
      (r : Option (List Frame × Checked LimitedBody))
      → Agrees n frames c r
      → Agrees n (frame ∷ frames) c (prepend frame r)
  prepend-Agrees n frame frames (passed s) r h = ap (prepend frame) h
  prepend-Agrees n frame frames (over current) r (out, h) = (frame ∷ out, ap (prepend frame) h)

  byte_run-IsValid :
      (state : GrpcFramingState) (xs : Bytes)
      → IsValid state
      → (s : GrpcFramingState) → byte_run max_bytes state xs ≡ passed s
      → IsValid s
  unfolding byte_run
  byte_run-IsValid state [] v = λ s e. let same : state ≡ s = cc in rw (← same) v
  byte_run-IsValid state (x ∷ xs) v =
      elim (byte_step max_bytes state x)
          as (λ c.
            byte_step max_bytes state x ≡ c
            → (s : GrpcFramingState) → (c >>= λ t. byte_run max_bytes t xs) ≡ passed s
            → IsValid s) [
              | passed t ↦ λ e. byte_run-IsValid t xs (byte_step-IsValid state t x v e)
              | over current ↦ λ e s r. absurd (cc)
            ]
        refl

  -- A gRPC body passes all its frames, or stops at one, as its bytes one after another do.
  pub check_frames-bytewise :
      (n : ℕ) (state : GrpcFramingState) (frames : List Frame)
      → IsValid state
      → Agrees n frames
          (byte_run max_bytes state (bytes_of frames))
          (check_frames (grpc_body max_bytes n state) frames)
  unfolding check_frames
  check_frames-bytewise n state [] v = unfold byte_run in refl
  check_frames-bytewise n state (trailers ∷ frames) v =
      prepend-Agrees n trailers frames (byte_run max_bytes state (bytes_of frames)) _
        (check_frames-bytewise n state frames v)
  check_frames-bytewise n state (data_frame data_ ∷ frames) v =
      rw
        (
          scan-bytewise max_bytes state data_ v,
          byte_run-append max_bytes state data_ (bytes_of frames),
        )
        (elim (byte_run max_bytes state data_)
            as (λ c.
              byte_run max_bytes state data_ ≡ c
              → Agrees n (data_frame data_ ∷ frames)
                  (c >>= λ s. byte_run max_bytes s (bytes_of frames))
                  (next_frame (λ b. check_frames b frames) (data_frame data_)
                    (after_scan (grpc_body max_bytes n state) (some c)))) [
                      | passed s ↦ λ e.
                          prepend-Agrees n (data_frame data_) frames
                            (byte_run max_bytes s (bytes_of frames)) _
                            (check_frames-bytewise n s frames (byte_run-IsValid state data_ v s e))
                      | over current ↦ λ e. ([], refl)
                    ]
          refl)
