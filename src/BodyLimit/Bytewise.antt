-- ===== src/BodyLimit/Bytewise.antt =====
-- The framing state machine a byte at a time, which the loop over a frame amounts to.
use praeco_rs.Prelude.{
  ℕ, zero, suc, ◌+◌, ◌-◌, ◌*◌, min, ◌≤◌, ◌<◌, ◌≡◌, refl, sym, ap, subst, ◌∙◌, ◌==◌, some, [], ◌∷◌,
  ◌++◌, append_assoc, length, length-append, take, drop, take-drop, length-take, length-drop, Bytes,
  arith, Bool-cases, inl, inr,
}
use mathlib.Core.Path.{fun_ext}
use praeco_rs.BodyLimit.{
  GrpcFramingState, header, payload, Checked, passed, over, ◌>>=◌, header_done, payload_done, go_on,
  scan, fuel_for,
}

-- What one byte does: a message starts at the first byte after an empty payload.
unfoldable pub byte_step : (max_bytes : ℕ) → GrpcFramingState → ℕ → Checked GrpcFramingState
unfolding header_done payload_done
byte_step max_bytes (header buf) b = header_done max_bytes (buf ++ b ∷ [])
byte_step max_bytes (payload zero) b = header_done max_bytes (b ∷ [])
byte_step max_bytes (payload (suc n)) b = passed (payload_done n)

unfoldable pub byte_run : (max_bytes : ℕ) → GrpcFramingState → Bytes → Checked GrpcFramingState
unfolding byte_step
byte_run max_bytes state [] = passed state
byte_run max_bytes state (b ∷ bs) = byte_step max_bytes state b >>= λ s. byte_run max_bytes s bs

-- The buffer of a header holds fewer than five bytes.
abbrev pub IsValid : GrpcFramingState → Type 0
IsValid (header buf) = length buf < 5
IsValid (payload remaining) = Unit

bind-passed : {S : Type 0} (c : Checked S) → (c >>= λ s. passed s) ≡ c
bind-passed (passed s) = refl
bind-passed (over current) = refl

bind_assoc :
    {S T R : Type 0} (c : Checked S) (f : S → Checked T) (g : T → Checked R)
    → ((c >>= f) >>= g) ≡ (c >>= λ s. f s >>= g)
bind_assoc (passed s) f g = refl
bind_assoc (over current) f g = refl

module _ (max_bytes : ℕ) where
  pub byte_run-append :
      (state : GrpcFramingState) (xs ys : Bytes)
      → byte_run max_bytes state (xs ++ ys)
        ≡ (byte_run max_bytes state xs >>= λ s. byte_run max_bytes s ys)
  unfolding byte_run
  byte_run-append state [] ys = refl
  byte_run-append state (x ∷ xs) ys =
      ap (λ f. byte_step max_bytes state x >>= f) (fun_ext (λ s. byte_run-append s xs ys))
      ∙ sym (
          bind_assoc (byte_step max_bytes state x) (λ s. byte_run max_bytes s xs)
            (λ s. byte_run max_bytes s ys))

  header_short : (buf : Bytes) → length buf < 5 → header_done max_bytes buf ≡ passed (header buf)
  unfolding header_done
  header_short buf h = ground arith

  -- Bytes that at most fill a header.
  pub byte_run-header :
      (buf : Bytes) (b : ℕ) (bs : Bytes)
      → length buf + length (b ∷ bs) ≤ 5
      → byte_run max_bytes (header buf) (b ∷ bs) ≡ header_done max_bytes (buf ++ b ∷ bs)
  unfolding byte_run byte_step
  byte_run-header buf b [] h = bind-passed _
  byte_run-header buf b (c ∷ cs) h =
      rw (header_short (buf ++ b ∷ []) (omega (arith, length-append buf (b ∷ [])))) (
        byte_run-header (buf ++ b ∷ []) c cs (omega (arith, length-append buf (b ∷ [])))
        ∙ ap (header_done max_bytes) (append_assoc buf (b ∷ []) (c ∷ cs)))

  payload_rest : (n : ℕ) → payload_done (suc n) ≡ payload (suc n)
  unfolding payload_done
  payload_rest n = ground arith

  -- Bytes that at most fill a payload, with `left` bytes of it to come.
  pub byte_run-payload :
      (remaining left b : ℕ) (bs : Bytes)
      → remaining ≡ left + length (b ∷ bs)
      → byte_run max_bytes (payload remaining) (b ∷ bs) ≡ passed (payload_done left)
  unfolding byte_run byte_step
  byte_run-payload zero left b bs h = absurd (omega arith)
  byte_run-payload (suc n) left b [] h = let e : n ≡ left = omega arith in rw e
  byte_run-payload (suc zero) left b (c ∷ cs) h = absurd (omega arith)
  byte_run-payload (suc (suc n)) left b (c ∷ cs) h =
      rw (payload_rest n) (byte_run-payload (suc n) left c cs (omega arith))

  pub header_done-IsValid :
      (buf : Bytes) (state : GrpcFramingState)
      → length buf ≤ 5
      → header_done max_bytes buf ≡ passed state
      → IsValid state
  unfolding header_done
  header_done-IsValid buf (header b) h e = elim (Bool-cases (length buf == 5)) [
    | inl full ↦ absurd (ground arith)
    | inr short ↦
        let same : passed (header buf) ≡ passed (header b) = rw short at e in
        let whole : buf ≡ b = cc in rw (← whole) (ground arith)
  ]
  header_done-IsValid buf (payload r) h e = tt

  pub payload_done-IsValid : (remaining : ℕ) → IsValid (payload_done remaining)
  unfolding payload_done
  payload_done-IsValid remaining = elim (Bool-cases (remaining == 0)) [
    | inl e ↦ rw e (omega arith)
    | inr e ↦ rw e tt
  ]

  -- How many rounds the loop over a frame takes at most.
  abbrev need : GrpcFramingState → Bytes → ℕ
  need (payload zero) xs = 2 * length xs
  need _ xs = 2 * length xs - 1

  -- A first piece of one byte or more, and the rest.
  byte_run-pieces :
      (state : GrpcFramingState) (n b : ℕ) (bs : Bytes)
      → byte_run max_bytes state (b ∷ bs)
        ≡ (byte_run max_bytes state (b ∷ take n bs) >>= λ s. byte_run max_bytes s (drop n bs))
  byte_run-pieces state n b bs =
      ap (λ xs. byte_run max_bytes state (b ∷ xs)) (sym (take-drop n bs))
      ∙ byte_run-append state (b ∷ take n bs) (drop n bs)

  scan-header :
      (fuel n : ℕ) (buf : Bytes) (b : ℕ) (bs : Bytes)
      → length buf + suc n ≤ 5
      → n ≤ length bs
      → ((state : GrpcFramingState)
          → IsValid state
          → scan fuel max_bytes state (drop n bs) ≡ some (byte_run max_bytes state (drop n bs)))
      → go_on
          (λ state. scan fuel max_bytes state (drop n bs))
          (header_done max_bytes (buf ++ b ∷ take n bs))
        ≡ some (byte_run max_bytes (header buf) (b ∷ bs))
  scan-header fuel n buf b bs room le ih =
      let len = length-take n bs le in
      rw
        (
          byte_run-pieces (header buf) n b bs,
          byte_run-header buf b (take n bs) (omega (arith, len)),
        )
        (elim (header_done max_bytes (buf ++ b ∷ take n bs))
            as (λ c.
              header_done max_bytes (buf ++ b ∷ take n bs) ≡ c
              → go_on (λ state. scan fuel max_bytes state (drop n bs)) c
                ≡ some (c >>= λ s. byte_run max_bytes s (drop n bs))) [
                  | over current ↦ λ e. refl
                  | passed state ↦ λ e. ih state (
                      header_done-IsValid (buf ++ b ∷ take n bs) state
                        (omega (arith, len, length-append buf (b ∷ take n bs))) e)
                ]
          refl)

  pub payload_done_zero : payload_done 0 ≡ header []
  unfolding payload_done
  payload_done_zero = refl

  pub byte_run-empty_payload :
      (b : ℕ) (bs : Bytes)
      → byte_run max_bytes (payload zero) (b ∷ bs) ≡ byte_run max_bytes (header []) (b ∷ bs)
  unfolding byte_run byte_step
  byte_run-empty_payload b bs = refl

  need-le : (state : GrpcFramingState) (xs : Bytes) → need state xs ≤ 2 * length xs
  need-le (header buf) xs = omega arith
  need-le (payload zero) xs = omega arith
  need-le (payload (suc n)) xs = omega arith

  need-payload_done : (left : ℕ) (xs : Bytes) → need (payload_done left) xs ≤ 2 * length xs - 1
  unfolding payload_done
  need-payload_done zero xs = omega arith
  need-payload_done (suc n) xs = rw (payload_rest n) (omega arith)

  scan-payload :
      (fuel n left r b : ℕ) (bs : Bytes)
      → r ≡ left + suc n
      → n ≤ length bs
      → scan fuel max_bytes (payload_done left) (drop n bs)
        ≡ some (byte_run max_bytes (payload_done left) (drop n bs))
      → scan fuel max_bytes (payload_done left) (drop n bs)
        ≡ some (byte_run max_bytes (payload r) (b ∷ bs))
  scan-payload fuel n left r b bs e le ih =
      rw
        (
          byte_run-pieces (payload r) n b bs,
          byte_run-payload r left b (take n bs) (omega (arith, length-take n bs le)),
        )
        ih

  scan-byte_run :
      (fuel : ℕ) (state : GrpcFramingState) (xs : Bytes)
      → IsValid state
      → need state xs ≤ fuel
      → scan fuel max_bytes state xs ≡ some (byte_run max_bytes state xs)
  unfolding scan
  scan-byte_run fuel state [] v h = unfold byte_run in refl
  scan-byte_run zero (header buf) (b ∷ bs) v h = absurd (omega arith)
  scan-byte_run zero (payload zero) (b ∷ bs) v h = absurd (omega arith)
  scan-byte_run zero (payload (suc n)) (b ∷ bs) v h = absurd (omega arith)
  scan-byte_run (suc fuel) (header buf) (b ∷ bs) v h =
      let n : ℕ = min (5 - length buf) (length (b ∷ bs)) - 1 in
      let e : min (5 - length buf) (length (b ∷ bs)) ≡ suc n = omega arith in
      subst
        (λ t.
          go_on (λ state. scan fuel max_bytes state (drop t (b ∷ bs)))
            (header_done max_bytes (buf ++ take t (b ∷ bs)))
          ≡ some (byte_run max_bytes (header buf) (b ∷ bs)))
        (sym e)
        (scan-header fuel n buf b bs (omega arith) (omega arith) (λ s vs.
          scan-byte_run fuel s (drop n bs) vs
            (omega (arith, need-le s (drop n bs), length-drop n bs))))
  scan-byte_run (suc fuel) (payload zero) (b ∷ bs) v h =
      let e : min (length (b ∷ bs)) 0 ≡ 0 = omega arith in
      subst
        (λ t.
          scan fuel max_bytes (payload_done (0 - t)) (drop t (b ∷ bs))
          ≡ some (byte_run max_bytes (payload zero) (b ∷ bs)))
        (sym e)
        (rw (payload_done_zero, byte_run-empty_payload b bs)
          (scan-byte_run fuel (header []) (b ∷ bs) (omega arith) (omega arith)))
  scan-byte_run (suc fuel) (payload (suc r)) (b ∷ bs) v h =
      let n : ℕ = min (length (b ∷ bs)) (suc r) - 1 in
      let e : min (length (b ∷ bs)) (suc r) ≡ suc n = omega arith in
      subst
        (λ t.
          scan fuel max_bytes (payload_done (suc r - t)) (drop t (b ∷ bs))
          ≡ some (byte_run max_bytes (payload (suc r)) (b ∷ bs)))
        (sym e)
        (scan-payload fuel n (suc r - suc n) (suc r) b bs (omega arith) (omega arith) (
          scan-byte_run fuel (payload_done (suc r - suc n)) (drop n bs)
            (payload_done-IsValid (suc r - suc n))
            (omega (arith, need-payload_done (suc r - suc n) (drop n bs), length-drop n bs))))

-- The loop over a frame ends within its fuel and does what its bytes do one after another: at a
-- header of fewer than five bytes, and within any payload.
pub scan-bytewise :
    (max_bytes : ℕ) (state : GrpcFramingState) (xs : Bytes)
    → IsValid state
    → scan (fuel_for xs) max_bytes state xs ≡ some (byte_run max_bytes state xs)
scan-bytewise max_bytes state xs v =
    scan-byte_run max_bytes (fuel_for xs) state xs v (need-le max_bytes state xs)
