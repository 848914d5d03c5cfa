-- ===== src/Relay/Fragments.antt =====
-- How the hello is cut into segments does not matter.
use praeco_rs.Prelude.{
  ℕ, zero, suc, ◌-◌, ◌≤◌, ◌<◌, min, ◌≡◌, refl, sym, ap, ap₂, ◌∙◌, false, ltb, List, [], ◌∷◌, ◌++◌,
  take, drop, Bytes, length, length-append, length-drop, take-drop, append_assoc, append-nil, arith,
}
use praeco_rs.BigEndian.{from_be}
use praeco_rs.Relay.Hello.{
  Segment, arrived, broken, paused, stalled, hello, Read, got, Filled, filled, put_back, read,
  after_read, fill, payload_read, max_record, read_record, header_read, read_client_hello_record,
}

abbrev tail_of : Bytes → Bytes
tail_of [] = []
tail_of (b ∷ bs) = bs

abbrev head_or : ℕ → Bytes → ℕ
head_or d [] = d
head_or d (b ∷ bs) = b

length-take_le : (n : ℕ) (bs : Bytes) → length (take n bs) ≤ n
length-take_le zero bs = omega arith
length-take_le (suc n) [] = omega arith
length-take_le (suc n) (b ∷ bs) = omega (arith, length-take_le n bs)

-- Nothing breaks or waits.
abbrev pub Flows : List Segment → Type 0
Flows [] = Unit
Flows (arrived b bs ∷ stream) = Flows stream
Flows (_ ∷ stream) = ⊥

abbrev pub bytes_of : List Segment → Bytes
bytes_of [] = []
bytes_of (arrived b bs ∷ stream) = b ∷ (bs ++ bytes_of stream)
bytes_of (_ ∷ stream) = bytes_of stream

put_back-Flows :
    (bytes : Bytes) (stream : List Segment) → Flows stream → Flows (put_back bytes stream)
put_back-Flows [] stream h = h
put_back-Flows (b ∷ bs) stream h = h

bytes_of-put_back :
    (bytes : Bytes) (stream : List Segment)
    → bytes_of (put_back bytes stream) ≡ bytes ++ bytes_of stream
bytes_of-put_back [] stream = refl
bytes_of-put_back (b ∷ bs) stream = refl

-- A read gets a first part of what is there, not empty, and leaves the others.
read-Flows :
    (size : ℕ) (stream : List Segment)
    → Flows stream
    → 0 < size
    → 0 < length (bytes_of stream)
    → (b : ℕ) × (bs : Bytes) × (rest : List Segment) × (read size stream ≡ (got (b ∷ bs), rest))
      × (length (b ∷ bs) ≤ size)
      × (bytes_of stream ≡ (b ∷ bs) ++ bytes_of rest)
      × Flows rest
unfolding read
read-Flows size [] h pos some_ = absurd (omega arith)
read-Flows zero (arrived b bs ∷ stream) h pos some_ = absurd (omega arith)
read-Flows (suc size) (arrived b bs ∷ stream) h pos some_ = (
  b,
  take size bs,
  put_back (drop size bs) stream,
  refl,
  omega (arith, length-take_le size bs),
  ap (◌∷◌ b) (
      ap (λ t. t ++ bytes_of stream) (sym (take-drop size bs))
      ∙ append_assoc (take size bs) (drop size bs) (bytes_of stream)
      ∙ ap (λ t. take size bs ++ t) (sym (bytes_of-put_back (drop size bs) stream))),
  put_back-Flows (drop size bs) stream h,
)
read-Flows size (broken ∷ stream) h pos some_ = absurd h
read-Flows size (paused ∷ stream) h pos some_ = absurd h
read-Flows size (stalled ∷ stream) h pos some_ = absurd h

-- A part that both start with.
common_start :
    (xs ys us vs : Bytes)
    → xs ++ ys ≡ us ++ vs
    → length xs ≤ length us
    → (us ≡ xs ++ drop (length xs) us) × (ys ≡ drop (length xs) us ++ vs)
common_start [] ys us vs e l = (refl, e)
common_start (x ∷ xs) ys [] vs e l = absurd (omega arith)
common_start (x ∷ xs) ys (u ∷ us) vs e l =
    let (a, b) = common_start xs ys us vs (ap tail_of e) (omega arith) in
    let same : u ≡ x = sym (ap (head_or 0) e) in (ap₂ ◌∷◌ same a, b)

grown : (buf bs tail wanted : Bytes) → wanted ≡ bs ++ tail → (buf ++ bs) ++ tail ≡ buf ++ wanted
grown buf bs tail wanted e = append_assoc buf bs tail ∙ ap (λ t. buf ++ t) (sym e)

after_read-got :
    (loop : ℕ → Bytes → List Segment → Filled × List Segment) (missing : ℕ) (buf : Bytes) (b : ℕ)
    (bs tail wanted : Bytes) (r : Read × List Segment) (next_ left : List Segment)
    → r ≡ (got (b ∷ bs), next_)
    → loop (missing - length (b ∷ bs)) (buf ++ b ∷ bs) next_
      ≡ (filled ((buf ++ b ∷ bs) ++ tail), left)
    → wanted ≡ (b ∷ bs) ++ tail
    → after_read loop missing buf r ≡ (filled (buf ++ wanted), left)
after_read-got loop missing buf b bs tail wanted r next_ left er el ew =
    ap (after_read loop missing buf) er
    ∙ el
    ∙ ap (λ t. (filled t, left)) (grown buf (b ∷ bs) tail wanted ew)

-- The loop gets exactly what is missing, if that much is there.
fill-Flows :
    (fuel chunk missing : ℕ) (buf : Bytes) (wanted rest : Bytes) (stream : List Segment)
    → Flows stream
    → 0 < chunk
    → missing ≤ fuel
    → length wanted ≡ missing
    → bytes_of stream ≡ wanted ++ rest
    → (left : List Segment) × (fill fuel chunk missing buf stream ≡ (filled (buf ++ wanted), left))
      × (bytes_of left ≡ rest)
      × Flows left
unfolding fill
fill-Flows zero chunk missing buf [] rest stream h pos enough l e =
    (stream, ap (λ b. (filled b, stream)) (sym (append-nil buf)), e, h)
fill-Flows zero chunk missing buf (w ∷ wanted) rest stream h pos enough l e = absurd (omega arith)
fill-Flows (suc fuel) chunk zero buf [] rest stream h pos enough l e =
    (stream, ap (λ b. (filled b, stream)) (sym (append-nil buf)), e, h)
fill-Flows (suc fuel) chunk zero buf (w ∷ wanted) rest stream h pos enough l e =
    absurd (omega arith)
fill-Flows (suc fuel) chunk (suc missing) buf wanted rest stream h pos enough l e =
    let (b, bs, next_, er, fits, eb, fl) =
      read-Flows (min (suc missing) chunk) stream h (omega arith)
        (omega (arith, ap length e, length-append wanted rest)) in
    let (ew, en) = common_start (b ∷ bs) (bytes_of next_) wanted rest (sym eb ∙ e) (omega arith) in
    let (left, ef, el, fin) =
      fill-Flows fuel chunk (suc missing - length (b ∷ bs)) (buf ++ b ∷ bs)
        (drop (length (b ∷ bs)) wanted) rest next_ fl pos (omega arith)
        (omega (arith, length-drop (length (b ∷ bs)) wanted)) en in
    (
      left,
      after_read-got (fill fuel chunk) (suc missing) buf b bs (drop (length (b ∷ bs)) wanted) wanted
          _ next_ left er ef ew,
      el,
      fin,
    )

-- A TLS record of a permitted length, cut into segments of any lengths, is read whole, and what
-- comes after it is left in the stream.
pub read_client_hello_record_whole :
    (a b hi lo : ℕ) (body rest : Bytes) (stream : List Segment)
    → Flows stream
    → bytes_of stream ≡ 0x16 ∷ a ∷ b ∷ hi ∷ lo ∷ (body ++ rest)
    → from_be (hi ∷ lo ∷ []) ≡ length body
    → length body ≤ max_record
    → (left : List Segment) × (read_client_hello_record stream
        ≡ (hello (0x16 ∷ a ∷ b ∷ hi ∷ lo ∷ body), left))
      × (bytes_of left ≡ rest)
unfolding read_client_hello_record header_read read_record payload_read
read_client_hello_record_whole a b hi lo body rest stream h e el small =
    let header = 0x16 ∷ a ∷ b ∷ hi ∷ lo ∷ [] in
    let (next_, ef, en, fl) =
      fill-Flows 5 5 5 [] header (body ++ rest) stream h (omega arith) (omega arith) refl e in
    let (left, eg, er, fin) =
      fill-Flows (length body) 4096 (length body) header body rest next_ fl (omega arith)
        (omega arith) refl en in
    let fits : ltb max_record (length body) ≡ false = ground arith in
    (left, ap header_read ef ∙ rw (el, fits) (ap payload_read eg), er)
