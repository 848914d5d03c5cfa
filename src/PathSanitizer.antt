-- ===== src/PathSanitizer.antt =====
-- The canonical form of a request path: server/src/middleware/path_sanitizer.rs.
-- A text is the list of its UTF-8 bytes. An index out of range, where the source panics, is a
-- result of its own.
pub mod Segments
pub mod Total
pub mod Uris
mod Examples
use praeco_rs.Prelude.{
  ℕ, ◌+◌, ◌-◌, ◌*◌, ◌/◌, ◌%◌, Bool, true, false, not, ◌&&◌, ◌||◌, ltb, leb, ◌==◌, if◌then◌else◌,
  Option, none, some, List, [], ◌∷◌, ◌++◌, map, Bytes, bytes_eq, is_empty, starts_with,
}

pub data PathSanitizeError : Type 0 where
  illegal_null_byte illegal_encoded_slash illegal_backslash : PathSanitizeError
  path_traversal invalid_encoding double_encoding invalid_path : PathSanitizeError
  uri_format_error : PathSanitizeError

pub data Outcome (A : Type 0) : Type 0 where
  clean : A → Outcome A
  rejected : PathSanitizeError → Outcome A
  panicked : Outcome A

abbrev pub map_outcome : {A B : Type 0} → (A → B) → Outcome A → Outcome B
map_outcome f (clean a) = clean (f a)
map_outcome f (rejected e) = rejected e
map_outcome f panicked = panicked

abbrev pub slash : ℕ
slash = b'/'

abbrev pub percent : ℕ
percent = b'%'

unfoldable pub contains : Bytes → Bytes → Bool
contains [] pattern = is_empty pattern
contains (b ∷ bs) pattern = starts_with (b ∷ bs) pattern || contains bs pattern

unfoldable pub to_ascii_lowercase : ℕ → ℕ
to_ascii_lowercase b = if leb b'A' b && leb b b'Z' then b + 32 else b

unfoldable pub is_ascii_hexdigit : ℕ → Bool
is_ascii_hexdigit b =
    (leb b'0' b && leb b b'9') || (leb b'a' b && leb b b'f') || (leb b'A' b && leb b b'F')

-- The loop over the percent signs.
unfoldable pub is_well_encoded : Bytes → Bool
unfolding is_ascii_hexdigit
is_well_encoded [] = true
is_well_encoded (b ∷ []) = not (b == percent)
is_well_encoded (b ∷ c ∷ []) = not (b == percent) && not (c == percent)
is_well_encoded (b ∷ c ∷ d ∷ rest) = elim (b == percent) [
  | true ↦ is_ascii_hexdigit c && is_ascii_hexdigit d && is_well_encoded rest
  | false ↦ is_well_encoded (c ∷ d ∷ rest)
]

unfoldable pub hex_digit_to_val : ℕ → Option ℕ
hex_digit_to_val b =
    if leb b'0' b && leb b b'9'
    then some (b - b'0')
    else if leb b'a' b && leb b b'f'
    then some (b - b'a' + 10)
    else if leb b'A' b && leb b b'F'
    then some (b - b'A' + 10)
    else none

unfoldable pub is_unreserved : ℕ → Bool
is_unreserved b =
    (leb b'a' b && leb b b'z')
    || (leb b'A' b && leb b b'Z')
    || (leb b'0' b && leb b b'9')
    || b == b'-'
    || b == b'.'
    || b == b'_'
    || b == b'~'

unfoldable pub to_ascii_uppercase : ℕ → ℕ
to_ascii_uppercase b = if leb b'a' b && leb b b'z' then b - 32 else b

-- `push(b as char)`: the UTF-8 bytes of the character with that number.
unfoldable pub as_char : ℕ → Bytes
as_char b = if ltb b 128 then b ∷ [] else (0xC0 + b / 64) ∷ (0x80 + b % 64) ∷ []

-- What the escape `%h1h2` adds to the segment.
unfoldable pub decode_escape : ℕ → ℕ → Outcome Bytes → Outcome Bytes
unfolding hex_digit_to_val is_unreserved to_ascii_uppercase
decode_escape h1 h2 rest = elim (hex_digit_to_val h1) [
  | none ↦ rejected invalid_encoding
  | some high ↦ elim (hex_digit_to_val h2) [
    | none ↦ rejected invalid_encoding
    | some low ↦
        if is_unreserved (high * 16 + low)
        then map_outcome (λ text. (high * 16 + low) ∷ text) rest
        else map_outcome (λ text. percent ∷ to_ascii_uppercase h1 ∷ to_ascii_uppercase h2 ∷ text)
            rest
  ]
]

unfoldable pub normalize_segment : Bytes → Outcome Bytes
unfolding decode_escape as_char
normalize_segment [] = clean []
normalize_segment (b ∷ []) = if b == percent then panicked else clean (as_char b)
normalize_segment (b ∷ c ∷ []) =
    if b == percent || c == percent then panicked else clean (as_char b ++ as_char c)
normalize_segment (b ∷ c ∷ d ∷ rest) = elim (b == percent) [
  | true ↦ decode_escape c d (normalize_segment rest)
  | false ↦ map_outcome (λ text. as_char b ++ text) (normalize_segment (c ∷ d ∷ rest))
]

abbrev pub onto_first : ℕ → List Bytes → List Bytes
onto_first b [] = (b ∷ []) ∷ []
onto_first b (x ∷ xs) = (b ∷ x) ∷ xs

-- `split('/')`.
unfoldable pub split : Bytes → List Bytes
split [] = [] ∷ []
split (b ∷ bs) = let rest = split bs in if b == slash then [] ∷ rest else onto_first b rest

abbrev pub dot : Bytes
dot = b'.' ∷ []

abbrev pub dotdot : Bytes
dotdot = b'.' ∷ b'.' ∷ []

unfoldable pub push_segment : Outcome Bytes → Outcome (List Bytes) → Outcome (List Bytes)
push_segment (rejected e) rest = rejected e
push_segment panicked rest = panicked
push_segment (clean seg) rest =
    if is_empty seg || bytes_eq seg dot
    then rest
    else if bytes_eq seg dotdot
    then rejected path_traversal
    else map_outcome (◌∷◌ seg) rest

-- The loop over the segments.
unfoldable pub normalize_segments : List Bytes → Outcome (List Bytes)
unfolding normalize_segment push_segment
normalize_segments [] = clean []
normalize_segments (raw ∷ raws) =
    let rest = normalize_segments raws in
    if is_empty raw then rest else push_segment (normalize_segment raw) rest

unfoldable pub join : List Bytes → Bytes
join [] = []
join (seg ∷ segs) = slash ∷ seg ++ join segs

unfoldable pub ends_with : Bytes → Bytes → Bool
ends_with [] suffix = is_empty suffix
ends_with (b ∷ bs) suffix = bytes_eq (b ∷ bs) suffix || ends_with bs suffix

-- The checks for raw characters and encodings.
unfoldable pub forbidden : Bytes → Option PathSanitizeError
unfolding contains to_ascii_lowercase
forbidden raw =
    let lower = map to_ascii_lowercase raw in
    let encoded = λ (c d : ℕ). contains lower (percent ∷ c ∷ d ∷ []) in
    let twice = λ (c d : ℕ). contains lower (percent ∷ b'2' ∷ b'5' ∷ c ∷ d ∷ []) in
    if contains raw (0 ∷ [])
    then some illegal_null_byte
    else if contains raw (b'\\' ∷ [])
    then some illegal_backslash
    else if encoded b'0' b'0'
    then some illegal_null_byte
    else if encoded b'2' b'f'
    then some illegal_encoded_slash
    else if encoded b'5' b'c'
    then some illegal_backslash
    else if twice b'2' b'e' || twice b'2' b'f' || twice b'0' b'0' || twice b'5' b'c'
    then some double_encoding
    else none

-- A path of one byte is the slash itself and has no trailing one.
unfoldable pub has_trailing_slash : Bytes → Bool
unfolding ends_with
has_trailing_slash [] = false
has_trailing_slash (b ∷ []) = false
has_trailing_slash (b ∷ c ∷ rest) =
    ends_with (b ∷ c ∷ rest) (slash ∷ []) || ends_with (b ∷ c ∷ rest) (slash ∷ b'.' ∷ [])

unfoldable pub assemble : Bool → List Bytes → Bytes
unfolding join
assemble trailing [] = slash ∷ []
assemble trailing (seg ∷ segs) =
    if trailing then join (seg ∷ segs) ++ slash ∷ [] else join (seg ∷ segs)

unfoldable pub sanitize_and_normalize_path : Bytes → Outcome Bytes
unfolding forbidden is_well_encoded split normalize_segments has_trailing_slash assemble
sanitize_and_normalize_path [] = clean (slash ∷ [])
sanitize_and_normalize_path (b ∷ bs) =
    if not (b == slash) then rejected invalid_path else elim (forbidden (b ∷ bs)) [
      | some e ↦ rejected e
      | none ↦
          if not (is_well_encoded (b ∷ bs))
          then rejected invalid_encoding
          else map_outcome (assemble (has_trailing_slash (b ∷ bs)))
              (normalize_segments (split (b ∷ bs)))
    ]
