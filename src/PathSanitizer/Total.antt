-- ===== src/PathSanitizer/Total.antt =====
-- The sanitizer never reads past the end of a segment.
use praeco_rs.Prelude.{
  ℕ, ◌≡◌, ◌≢◌, inl, inr, refl, true, false, ◌&&◌, List, [], ◌∷◌, ◌++◌, All, Bytes, arith,
  Bool-cases, and_true, Option-cases, ◌==◌,
}
use praeco_rs.PathSanitizer.{
  Outcome, clean, rejected, panicked, map_outcome, slash, percent, as_char, decode_escape,
  normalize_segment, onto_first, split, push_segment, normalize_segments, assemble,
  has_trailing_slash, sanitize_and_normalize_path, is_ascii_hexdigit, is_well_encoded, forbidden,
}

abbrev IsEncoded : Bytes → Type 0
IsEncoded seg = is_well_encoded seg ≡ true

cons-IsEncoded : (b : ℕ) (x : Bytes) → (b == percent) ≡ false → IsEncoded x → IsEncoded (b ∷ x)
unfolding is_well_encoded
cons-IsEncoded b [] n h = ground arith
cons-IsEncoded b (c ∷ []) n h = ground arith
cons-IsEncoded b (c ∷ d ∷ rest) n h = ground arith

onto_first-IsEncoded :
    (b : ℕ) (xs : List Bytes)
    → (b == percent) ≡ false
    → All IsEncoded xs
    → All IsEncoded (onto_first b xs)
unfolding is_well_encoded
onto_first-IsEncoded b [] n h = (ground arith, tt)
onto_first-IsEncoded b (x ∷ xs) n (hx, hs) = (cons-IsEncoded b x n hx, hs)

escape-IsEncoded :
    (b c d : ℕ) (xs : List Bytes)
    → (b == percent) ≡ true
    → is_ascii_hexdigit c ≡ true
    → is_ascii_hexdigit d ≡ true
    → All IsEncoded xs
    → All IsEncoded (onto_first b (onto_first c (onto_first d xs)))
unfolding is_well_encoded
escape-IsEncoded b c d [] e hc hd h = (ground arith, tt)
escape-IsEncoded b c d (x ∷ xs) e hc hd (hx, hs) = (ground arith, hs)

percent_not_slash : (b : ℕ) → (b == percent) ≡ true → (b == slash) ≡ false
percent_not_slash b h = ground arith

split_char : (b : ℕ) (bs : Bytes) → (b == slash) ≡ false → split (b ∷ bs) ≡ onto_first b (split bs)
unfolding split
split_char b bs n = rw n refl

hex_not_slash : (b : ℕ) → is_ascii_hexdigit b ≡ true → (b == slash) ≡ false
unfolding is_ascii_hexdigit
hex_not_slash b h = ground arith

map_total : {A B : Type 0} (f : A → B) (o : Outcome A) → o ≢ panicked → map_outcome f o ≢ panicked
map_total f (clean a) h = ground arith
map_total f (rejected e) h = ground arith
map_total f panicked h = absurd (h refl)

escape_total :
    (h1 h2 : ℕ) (rest : Outcome Bytes) → rest ≢ panicked → decode_escape h1 h2 rest ≢ panicked
unfolding decode_escape
escape_total h1 h2 (clean text) h = ground arith
escape_total h1 h2 (rejected e) h = ground arith
escape_total h1 h2 panicked h = absurd (h refl)

IsEncoded-escape :
    (b c d : ℕ) (rest : Bytes)
    → (b == percent) ≡ true
    → IsEncoded (b ∷ c ∷ d ∷ rest)
    → (is_ascii_hexdigit c ≡ true) × (is_ascii_hexdigit d ≡ true) × IsEncoded rest
unfolding is_well_encoded
IsEncoded-escape b c d rest e h =
    let (hex, hr) =
      and_true (is_ascii_hexdigit c && is_ascii_hexdigit d) (is_well_encoded rest)
        (rw (e, is_well_encoded) at h) in
    let (hc, hd) = and_true (is_ascii_hexdigit c) (is_ascii_hexdigit d) hex in (hc, hd, hr)

IsEncoded-char :
    (b c d : ℕ) (rest : Bytes)
    → (b == percent) ≡ false
    → IsEncoded (b ∷ c ∷ d ∷ rest)
    → IsEncoded (c ∷ d ∷ rest)
unfolding is_well_encoded
IsEncoded-char b c d rest e h = rw (e, is_well_encoded) at h

normalize_segment_total : (seg : Bytes) → IsEncoded seg → normalize_segment seg ≢ panicked
unfolding normalize_segment is_well_encoded
normalize_segment_total [] h = ground arith
normalize_segment_total (b ∷ []) h = ground arith
normalize_segment_total (b ∷ c ∷ []) h = ground arith
normalize_segment_total (b ∷ c ∷ d ∷ rest) h = elim (Bool-cases (b == percent)) [
  | inl escape ↦
      rw (escape, normalize_segment)
        (escape_total c d (normalize_segment rest)
          (normalize_segment_total rest (IsEncoded-escape b c d rest escape h).2))
  | inr char ↦
      rw (char, normalize_segment)
        (map_total (λ text. as_char b ++ text) (normalize_segment (c ∷ d ∷ rest))
          (normalize_segment_total (c ∷ d ∷ rest) (IsEncoded-char b c d rest char h)))
]

push_segment_total :
    (o : Outcome Bytes) (rest : Outcome (List Bytes))
    → o ≢ panicked
    → rest ≢ panicked
    → push_segment o rest ≢ panicked
unfolding push_segment
push_segment_total (clean seg) rest h k = ground (arith, map_total (◌∷◌ seg) rest k)
push_segment_total (rejected e) rest h k = ground arith
push_segment_total panicked rest h k = absurd (h refl)

normalize_segments_total :
    (raws : List Bytes) → All IsEncoded raws → normalize_segments raws ≢ panicked
unfolding normalize_segments
normalize_segments_total [] h = ground arith
normalize_segments_total (raw ∷ raws) (h, hs) = ground (
  arith,
  normalize_segments_total raws hs,
  push_segment_total (normalize_segment raw) (normalize_segments raws)
      (normalize_segment_total raw h) (normalize_segments_total raws hs),
)

split_step :
    (b : ℕ) (bs : Bytes)
    → (b == percent) ≡ false
    → All IsEncoded (split bs)
    → All IsEncoded (split (b ∷ bs))
unfolding split is_well_encoded
split_step b bs n h = ground (arith, onto_first-IsEncoded b (split bs) n h)

split-IsEncoded : (bs : Bytes) → IsEncoded bs → All IsEncoded (split bs)
unfolding split is_well_encoded
split-IsEncoded [] h = (refl, tt)
split-IsEncoded (b ∷ []) h = ground arith
split-IsEncoded (b ∷ c ∷ []) h = ground arith
split-IsEncoded (b ∷ c ∷ d ∷ rest) h = elim (Bool-cases (b == percent)) [
  | inl escape ↦
      let (hc, hd, hr) = IsEncoded-escape b c d rest escape h in
      rw
        (
          split_char b (c ∷ d ∷ rest) (percent_not_slash b escape),
          split_char c (d ∷ rest) (hex_not_slash c hc),
          split_char d rest (hex_not_slash d hd),
        )
        (escape-IsEncoded b c d (split rest) escape hc hd (split-IsEncoded rest hr))
  | inr char ↦
      let later = split-IsEncoded (c ∷ d ∷ rest) (IsEncoded-char b c d rest char h) in
      split_step b (c ∷ d ∷ rest) char later
]

-- Whatever the path, the sanitizer answers with a path or an error: no index is out of range.
pub sanitize_and_normalize_path_total : (raw : Bytes) → sanitize_and_normalize_path raw ≢ panicked
unfolding sanitize_and_normalize_path
sanitize_and_normalize_path_total [] = ground arith
sanitize_and_normalize_path_total (b ∷ bs) = elim (Bool-cases (b == slash)) [
  | inr other ↦ rw (other, sanitize_and_normalize_path) (λ e. ground arith)
  | inl starts ↦ elim (Option-cases (forbidden (b ∷ bs))) [
    | inr (e, bad) ↦ rw (starts, bad, sanitize_and_normalize_path) (λ e. ground arith)
    | inl good ↦ elim (Bool-cases (is_well_encoded (b ∷ bs))) [
      | inr bad ↦ rw (starts, good, bad, sanitize_and_normalize_path) (λ e. ground arith)
      | inl encoded ↦
          rw (starts, good, encoded, sanitize_and_normalize_path)
            (map_total (assemble (has_trailing_slash (b ∷ bs)))
              (normalize_segments (split (b ∷ bs)))
              (normalize_segments_total (split (b ∷ bs)) (split-IsEncoded (b ∷ bs) encoded)))
    ]
  ]
]
