-- ===== src/PathSanitizer/Segments.antt =====
-- The segments of a sanitized path.
use praeco_rs.Prelude.{
  ℕ, ◌≡◌, ◌≢◌, ◌⊎◌, inl, inr, refl, Bool, true, false, List, [], ◌∷◌, ◌++◌, All, All-append, Bytes,
  bytes_eq, bytes_eq_iff, ap, arith, Bool-cases, sym, subst, append_assoc, append-nil, ◌∙◌,
  Option-cases, ◌+◌, ◌*◌, ◌==◌,
}
use praeco_rs.PathSanitizer.{
  Outcome, clean, rejected, panicked, map_outcome, slash, percent, as_char, decode_escape,
  normalize_segment, onto_first, split, dot, dotdot, push_segment, normalize_segments, join,
  assemble, has_trailing_slash, sanitize_and_normalize_path, hex_digit_to_val, is_unreserved,
  to_ascii_uppercase, forbidden, is_well_encoded,
}

abbrev pub HasNoSlash : Bytes → Type 0
HasNoSlash seg = All (λ b. b ≢ slash) seg

pub record IsPlain (seg : Bytes) : Type 0 where
  pub no_slash : HasNoSlash seg
  pub not_empty : seg ≢ []
  pub not_dot : seg ≢ dot
  pub not_dotdot : seg ≢ dotdot

-- What holds of a clean outcome.
abbrev pub Cleanly : {A : Type 0} → (A → Type 0) → Outcome A → Type 0
Cleanly P (clean a) = P a
Cleanly P (rejected e) = Unit
Cleanly P panicked = Unit

onto_first-HasNoSlash :
    (b : ℕ) (xs : List Bytes) → b ≢ slash → All HasNoSlash xs → All HasNoSlash (onto_first b xs)
onto_first-HasNoSlash b [] n h = ((n, tt), tt)
onto_first-HasNoSlash b (x ∷ xs) n (hx, hs) = ((n, hx), hs)

split-HasNoSlash : (bs : Bytes) → All HasNoSlash (split bs)
unfolding split
split-HasNoSlash [] = (tt, tt)
split-HasNoSlash (b ∷ bs) = ground (arith, split-HasNoSlash bs, onto_first-HasNoSlash b (split bs))

as_char-HasNoSlash : (b : ℕ) → b ≢ slash → HasNoSlash (as_char b)
unfolding as_char
as_char-HasNoSlash b n = ground arith

uppercase_not_slash : (b : ℕ) → b ≢ slash → to_ascii_uppercase b ≢ slash
unfolding to_ascii_uppercase
uppercase_not_slash b n = ground arith

unreserved_not_slash : (b : ℕ) → is_unreserved b ≡ true → b ≢ slash
unfolding is_unreserved
unreserved_not_slash b h = ground arith

escape-HasNoSlash :
    (h1 h2 : ℕ) (rest : Outcome Bytes)
    → h1 ≢ slash
    → h2 ≢ slash
    → Cleanly HasNoSlash rest
    → Cleanly HasNoSlash (decode_escape h1 h2 rest)
unfolding decode_escape
escape-HasNoSlash h1 h2 (clean text) n m h = elim (Option-cases (hex_digit_to_val h1)) [
  | inl bad ↦ ground (arith, bad)
  | inr (high, e) ↦ elim (Option-cases (hex_digit_to_val h2)) [
    | inl bad ↦ ground (arith, e, bad)
    | inr (low, f) ↦ ground (
      arith,
      e,
      f,
      uppercase_not_slash h1 n,
      uppercase_not_slash h2 m,
      unreserved_not_slash (high * 16 + low),
    )
  ]
]
escape-HasNoSlash h1 h2 (rejected e) n m h = ground arith
escape-HasNoSlash h1 h2 panicked n m h = ground arith

prepend-Cleanly :
    (b : ℕ) (o : Outcome Bytes)
    → b ≢ slash
    → Cleanly HasNoSlash o
    → Cleanly HasNoSlash (map_outcome (λ text. as_char b ++ text) o)
prepend-Cleanly b (clean text) n h = All-append _ (as_char b) text (as_char-HasNoSlash b n) h
prepend-Cleanly b (rejected e) n h = tt
prepend-Cleanly b panicked n h = tt

normalize_segment-HasNoSlash :
    (seg : Bytes) → HasNoSlash seg → Cleanly HasNoSlash (normalize_segment seg)
unfolding normalize_segment
normalize_segment-HasNoSlash [] h = tt
normalize_segment-HasNoSlash (b ∷ []) h = ground (arith, as_char-HasNoSlash b h.0)
normalize_segment-HasNoSlash (b ∷ c ∷ []) (n, (m, h)) = ground (
  arith,
  All-append (λ b. b ≢ slash) (as_char b) (as_char c) (as_char-HasNoSlash b n)
      (as_char-HasNoSlash c m),
)
normalize_segment-HasNoSlash (b ∷ c ∷ d ∷ rest) (n, (m, (l, h))) =
    elim (Bool-cases (b == percent)) [
      | inl escape ↦
          rw (escape, normalize_segment, Cleanly)
            (escape-HasNoSlash c d (normalize_segment rest) m l
              (normalize_segment-HasNoSlash rest h))
      | inr char ↦
          rw (char, normalize_segment, Cleanly)
            (prepend-Cleanly b (normalize_segment (c ∷ d ∷ rest)) n
              (normalize_segment-HasNoSlash (c ∷ d ∷ rest) (m, (l, h))))
    ]

cons-IsPlain :
    (seg : Bytes) (rest : Outcome (List Bytes))
    → IsPlain seg
    → Cleanly (All IsPlain) rest
    → Cleanly (All IsPlain) (map_outcome (◌∷◌ seg) rest)
cons-IsPlain seg (clean segs) p h = (p, h)
cons-IsPlain seg (rejected e) p h = tt
cons-IsPlain seg panicked p h = tt

push_segment-Cleanly :
    (o : Outcome Bytes) (rest : Outcome (List Bytes))
    → Cleanly HasNoSlash o
    → Cleanly (All IsPlain) rest
    → Cleanly (All IsPlain) (push_segment o rest)
unfolding push_segment
push_segment-Cleanly (rejected e) rest h hs = tt
push_segment-Cleanly panicked rest h hs = tt
push_segment-Cleanly (clean []) rest h hs = hs
push_segment-Cleanly (clean (b ∷ bs)) rest h hs = elim (Bool-cases (bytes_eq (b ∷ bs) dot)) [
  | inl is ↦ rw is hs
  | inr not_dot ↦ elim (Bool-cases (bytes_eq (b ∷ bs) dotdot)) [
    | inl is ↦ rw (not_dot, is) tt
    | inr not_dotdot ↦
        let plain : IsPlain (b ∷ bs) = record {
          no_slash = h;
          not_empty = ground arith;
          not_dot = ground (arith, not_dot, bytes_eq_iff (b ∷ bs) dot);
          not_dotdot = ground (arith, not_dotdot, bytes_eq_iff (b ∷ bs) dotdot);
        } in
        rw (not_dot, not_dotdot) (cons-IsPlain (b ∷ bs) rest plain hs)
  ]
]

normalize_segments-IsPlain :
    (raws : List Bytes) → All HasNoSlash raws → Cleanly (All IsPlain) (normalize_segments raws)
unfolding normalize_segments
normalize_segments-IsPlain [] h = tt
normalize_segments-IsPlain (raw ∷ raws) (h, hs) = ground (
  arith,
  normalize_segments-IsPlain raws hs,
  push_segment-Cleanly (normalize_segment raw) (normalize_segments raws)
      (normalize_segment-HasNoSlash raw h) (normalize_segments-IsPlain raws hs),
)

-- A segment and what follows it come apart at the slash.
split-append : (seg rest : Bytes) → HasNoSlash seg → split (seg ++ slash ∷ rest) ≡ seg ∷ split rest
unfolding split
split-append [] rest h = refl
split-append (b ∷ seg) rest (n, h) = ground (arith, split-append seg rest h)

split_end : (seg : Bytes) → HasNoSlash seg → split seg ≡ seg ∷ []
unfolding split
split_end [] h = refl
split_end (b ∷ seg) (n, h) = ground (arith, split_end seg h)

split-join :
    (seg : Bytes) (segs : List Bytes)
    → All IsPlain (seg ∷ segs)
    → split (seg ++ join segs) ≡ seg ∷ segs
unfolding join
split-join seg [] (p, ps) = rw append-nil (split_end seg p.no_slash)
split-join seg (x ∷ segs) (p, ps) =
    split-append seg (x ++ join segs) p.no_slash ∙ ap (◌∷◌ seg) (split-join x segs ps)

split-join_trailing :
    (seg : Bytes) (segs : List Bytes)
    → All IsPlain (seg ∷ segs)
    → split ((seg ++ join segs) ++ slash ∷ []) ≡ seg ∷ (segs ++ [] ∷ [])
unfolding join
split-join_trailing seg [] (p, ps) = rw append-nil (unfold split in split-append seg [] p.no_slash)
split-join_trailing seg (x ∷ segs) (p, ps) =
    ap split (append_assoc seg (slash ∷ x ++ join segs) (slash ∷ []))
    ∙ split-append seg ((x ++ join segs) ++ slash ∷ []) p.no_slash
    ∙ ap (◌∷◌ seg) (split-join_trailing x segs ps)

-- A text that starts with a slash, and the segments after that slash.
abbrev IsMadeOf : Bytes → Type 0
IsMadeOf p =
    (segs : List Bytes) × (tail : List Bytes) × (rest : Bytes) × (p ≡ slash ∷ rest)
    × (split p ≡ [] ∷ (segs ++ tail))
    × All IsPlain segs
    × ((tail ≡ []) ⊎ (tail ≡ [] ∷ []))

assemble-IsMadeOf :
    (trailing : Bool) (segs : List Bytes) → All IsPlain segs → IsMadeOf (assemble trailing segs)
unfolding assemble split join
assemble-IsMadeOf trailing [] h = ([], [] ∷ [], [], refl, refl, tt, inr refl)
assemble-IsMadeOf false (seg ∷ segs) h = (
  seg ∷ segs,
  [],
  seg ++ join segs,
  refl,
  ap (◌∷◌ []) (split-join seg segs h ∙ sym (append-nil (seg ∷ segs))),
  h,
  inl refl,
)
assemble-IsMadeOf true (seg ∷ segs) h = (
  seg ∷ segs,
  [] ∷ [],
  (seg ++ join segs) ++ slash ∷ [],
  refl,
  ap (◌∷◌ []) (split-join_trailing seg segs h),
  h,
  inr refl,
)

assembled-Cleanly :
    (trailing : Bool) (o : Outcome (List Bytes))
    → Cleanly (All IsPlain) o
    → Cleanly IsMadeOf (map_outcome (assemble trailing) o)
assembled-Cleanly trailing (clean segs) h = assemble-IsMadeOf trailing segs h
assembled-Cleanly trailing (rejected e) h = tt
assembled-Cleanly trailing panicked h = tt

sanitize-IsMadeOf : (raw : Bytes) → Cleanly IsMadeOf (sanitize_and_normalize_path raw)
unfolding sanitize_and_normalize_path
sanitize-IsMadeOf [] = assemble-IsMadeOf true [] tt
sanitize-IsMadeOf (b ∷ bs) =
    let made =
      assembled-Cleanly (has_trailing_slash (b ∷ bs)) (normalize_segments (split (b ∷ bs)))
        (normalize_segments-IsPlain (split (b ∷ bs)) (split-HasNoSlash (b ∷ bs))) in
    elim (Bool-cases (b == slash)) [
      | inr other ↦ rw (other, Cleanly) tt
      | inl starts ↦ elim (Option-cases (forbidden (b ∷ bs))) [
        | inr (e, bad) ↦ rw (starts, bad, Cleanly) tt
        | inl good ↦ elim (Bool-cases (is_well_encoded (b ∷ bs))) [
          | inr bad ↦ rw (starts, good, bad, Cleanly) tt
          | inl encoded ↦ rw (starts, good, encoded, Cleanly) made
        ]
      ]
    ]

-- A sanitized path is not empty and starts with a slash, and between its slashes stand texts that are neither empty
-- nor `.` nor `..`; only after the last slash there may be nothing.
pub sanitize_and_normalize_path-IsPlain :
    (raw p : Bytes)
    → sanitize_and_normalize_path raw ≡ clean p
    → (segs : List Bytes) × (tail : List Bytes) × (rest : Bytes) × (p ≡ slash ∷ rest)
      × (split p ≡ [] ∷ (segs ++ tail))
      × All IsPlain segs
      × ((tail ≡ []) ⊎ (tail ≡ [] ∷ []))
sanitize_and_normalize_path-IsPlain raw p h = subst (Cleanly IsMadeOf) h (sanitize-IsMadeOf raw)
