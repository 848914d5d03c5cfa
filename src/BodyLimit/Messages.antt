-- ===== src/BodyLimit/Messages.antt =====
-- What the limit means for the messages of a gRPC body.
use praeco_rs.Prelude.{
  ℕ, zero, ◌^◌, ◌≤◌, ◌<◌, ◌≡◌, ◌↔◌, refl, sym, ap, ◌∙◌, subst, Bool, true, false, ltb,
  if◌then◌else◌, Option, some, List, [], ◌∷◌, ◌++◌, length, All, Bytes, arith, Bool-cases, inl, inr,
  ◌⊎◌,
}
use praeco_rs.BigEndian.{to_be, from_be-to_be, length-to_be}
use praeco_rs.RetryBody.{Frame}
use praeco_rs.BodyLimit.{
  GrpcFramingState, header, payload, Checked, passed, over, ◌>>=◌, header_done, payload_done,
  LimitedBody, check_frames,
}
use praeco_rs.BodyLimit.Bytewise.{
  byte_run, byte_run-append, byte_run-header, byte_run-payload, byte_run-empty_payload,
  payload_done_zero,
}
use praeco_rs.BodyLimit.Chunks.{bytes_of, grpc_body, Agrees, check_frames-bytewise}

-- A message as it travels: a flag, the length of the payload in four bytes, and the payload.
pub record Message : Type 0 where
  pub flag : ℕ
  pub content : Bytes

abbrev pub encode_message : Message → Bytes
encode_message m = (m.flag ∷ to_be 4 (length m.content)) ++ m.content

abbrev pub encode_messages : List Message → Bytes
encode_messages [] = []
encode_messages (m ∷ ms) = encode_message m ++ encode_messages ms

-- The length fits its four bytes.
abbrev pub IsEncodable : Message → Type 0
IsEncodable m = length m.content < 2 ^ 32

-- The states in which a message starts.
abbrev Starts : GrpcFramingState → Type 0
Starts state = (state ≡ header []) ⊎ (state ≡ payload zero)

taken_branch : {A : Type 0} (b : Bool) (x y : A) → b ≡ true → (if b then x else y) ≡ x
taken_branch b x y e = rw e refl

other_branch : {A : Type 0} (b : Bool) (x y : A) → b ≡ false → (if b then x else y) ≡ y
other_branch b x y e = rw e refl

module _ (max_bytes : ℕ) where
  start_header :
      (state : GrpcFramingState) (b : ℕ) (bs : Bytes)
      → Starts state
      → byte_run max_bytes state (b ∷ bs) ≡ byte_run max_bytes (header []) (b ∷ bs)
  start_header state b bs (inl e) = ap (λ s. byte_run max_bytes s (b ∷ bs)) e
  start_header state b bs (inr e) =
      ap (λ s. byte_run max_bytes s (b ∷ bs)) e ∙ byte_run-empty_payload max_bytes b bs

  -- The five bytes of a message's prefix.
  run_prefix :
      (flag n : ℕ)
      → n < 2 ^ 32
      → byte_run max_bytes (header []) (flag ∷ to_be 4 n)
        ≡ (if ltb max_bytes n then over n else passed (payload n))
  unfolding header_done
  run_prefix flag n h =
      byte_run-header max_bytes [] flag (to_be 4 n) (omega (arith, length-to_be 4 n))
      ∙ ground (arith, length-to_be 4 n, from_be-to_be 4 n)

  -- A payload that fits ends where the next message starts.
  run_content :
      (content : Bytes)
      → (s : GrpcFramingState) × (byte_run max_bytes (payload (length content)) content ≡ passed s)
        × Starts s
  unfolding byte_run
  run_content [] = (payload zero, refl, inr refl)
  run_content (b ∷ bs) = (
    payload_done 0,
    byte_run-payload max_bytes (length (b ∷ bs)) 0 b bs (omega arith),
    inl (payload_done_zero max_bytes),
  )

  -- A message at a start is over the limit, or leads to the next start.
  run_message :
      (state : GrpcFramingState) (m : Message)
      → Starts state
      → IsEncodable m
      → ((max_bytes < length m.content)
          × (byte_run max_bytes state (encode_message m) ≡ over (length m.content)))
        ⊎ ((length m.content ≤ max_bytes)
            × ((s : GrpcFramingState) × (byte_run max_bytes state (encode_message m) ≡ passed s)
                × Starts s))
  run_message state m st h =
      let prefix = run_prefix m.flag (length m.content) h in
      let split =
        start_header state m.flag (to_be 4 (length m.content) ++ m.content) st
        ∙ byte_run-append max_bytes (header []) (m.flag ∷ to_be 4 (length m.content)) m.content in
      elim (Bool-cases (ltb max_bytes (length m.content))) [
        | inl big ↦ inl (
          ground arith,
          split
              ∙ (ap (λ c. c >>= λ s. byte_run max_bytes s m.content)
                  (prefix ∙ taken_branch (ltb max_bytes (length m.content)) _ _ big)),
        )
        | inr fits ↦
            let (s, e, next) = run_content m.content in
            inr (
              ground arith,
              (
                s,
                split
                    ∙ (ap (λ c. c >>= λ t. byte_run max_bytes t m.content)
                          (prefix ∙ other_branch (ltb max_bytes (length m.content)) _ _ fits)
                        ∙ e),
                next,
              ),
            )
      ]

  -- A whole body of messages.
  run_messages :
      (state : GrpcFramingState) (ms : List Message)
      → Starts state
      → All IsEncodable ms
      → (((s : GrpcFramingState) × (byte_run max_bytes state (encode_messages ms) ≡ passed s))
          ↔ All (λ m. length m.content ≤ max_bytes) ms)
  unfolding byte_run
  run_messages state [] st h = (λ r. tt, λ a. (state, refl))
  run_messages state (m ∷ ms) st h =
      let split = byte_run-append max_bytes state (encode_message m) (encode_messages ms) in
      elim (run_message state m st h.0) [
        | inl (big, e) ↦
            let same = split ∙ ap (λ c. c >>= λ t. byte_run max_bytes t (encode_messages ms)) e in
            (
              λ r. let clash : over (length m.content) ≡ passed r.0 = sym same ∙ r.1 in absurd (cc),
              λ a. absurd (omega (arith, a.0)),
            )
        | inr (fits, (s, e, next)) ↦
            let rest = run_messages s ms next h.1 in
            let same = split ∙ ap (λ c. c >>= λ t. byte_run max_bytes t (encode_messages ms)) e in
            (
              λ r. (fits, rest.0 (r.0, sym same ∙ r.1)),
              λ a. ((rest.1 a.1).0, same ∙ (rest.1 a.1).1),
            )
      ]

  Agrees-iff :
      (n : ℕ) (frames : List Frame) (c : Checked GrpcFramingState)
      (r : Option (List Frame × Checked LimitedBody))
      → Agrees max_bytes n frames c r
      → ((body : LimitedBody) × (r ≡ some (frames, passed body)))
        ↔ ((s : GrpcFramingState) × (c ≡ passed s))
  Agrees-iff n frames (passed s) r h = (λ p. (s, refl), λ p. (grpc_body max_bytes n s, h))
  Agrees-iff n frames (over current) r (out, h) = (λ p. absurd (cc (p.1)), λ p. absurd (cc (p.1)))

  -- A gRPC body that carries whole messages, cut into frames anywhere, passes as it is exactly when
  -- no single message is longer than the limit; how long the body is does not matter.
  pub check_frames-messages :
      (n : ℕ) (ms : List Message) (frames : List Frame)
      → All IsEncodable ms
      → bytes_of frames ≡ encode_messages ms
      → ((body : LimitedBody) × (check_frames (grpc_body max_bytes n (header [])) frames
            ≡ some (frames, passed body)))
        ↔ All (λ m. length m.content ≤ max_bytes) ms
  check_frames-messages n ms frames h e =
      let agrees = check_frames-bytewise max_bytes n (header []) frames (omega arith) in
      let through =
        Agrees-iff n frames (byte_run max_bytes (header []) (bytes_of frames)) _ agrees in
      let messages = run_messages (header []) ms (inl refl) h in
      (
        λ p. messages.0 (
            subst (λ bs. (s : GrpcFramingState) × (byte_run max_bytes (header []) bs ≡ passed s)) e
              (through.0 p)),
        λ a. through.1 (
            subst (λ bs. (s : GrpcFramingState) × (byte_run max_bytes (header []) bs ≡ passed s))
              (sym e) (messages.1 a)),
      )
