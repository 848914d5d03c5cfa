-- ===== src/PathSanitizer/Examples.antt =====
-- Paths, and the theorems about their canonical form at some of them.
use praeco_rs.Prelude.{◌≡◌, ◌++◌, ◌⊎◌, All, List, refl, [], ◌∷◌, Bytes}
use praeco_rs.PathSanitizer.{
  clean, rejected, slash, split, path_traversal, double_encoding, sanitize_and_normalize_path,
}
use praeco_rs.PathSanitizer.Segments.{IsPlain, sanitize_and_normalize_path-IsPlain}

-- `/a//%2e/b/.`, `/%2e.`, `/%252e`, and the same dot encoded once more.
abbrev dotted : Bytes
dotted = b'/' ∷ b'a' ∷ b'/' ∷ b'/' ∷ b'%' ∷ b'2' ∷ b'e' ∷ b'/' ∷ b'b' ∷ b'/' ∷ b'.' ∷ []

abbrev climbing : Bytes
climbing = b'/' ∷ b'%' ∷ b'2' ∷ b'e' ∷ b'.' ∷ []

abbrev twice_encoded : Bytes
twice_encoded = b'/' ∷ b'%' ∷ b'2' ∷ b'5' ∷ b'2' ∷ b'e' ∷ []

abbrev hidden : Bytes
hidden = b'/' ∷ b'%' ∷ b'2' ∷ b'5' ∷ b'%' ∷ b'3' ∷ b'2' ∷ b'e' ∷ []

sanitized :
    (sanitize_and_normalize_path dotted ≡ clean (b'/' ∷ b'a' ∷ b'/' ∷ b'b' ∷ b'/' ∷ []))
    × (sanitize_and_normalize_path climbing ≡ rejected path_traversal)
    × (sanitize_and_normalize_path twice_encoded ≡ rejected double_encoding)
unfolding sanitize_and_normalize_path
sanitized = (refl, refl, refl)

-- The check for double encoding reads the raw path, and decoding gives what it rejects.
double_encoding_reappears : sanitize_and_normalize_path hidden ≡ clean twice_encoded
unfolding sanitize_and_normalize_path
double_encoding_reappears = refl

-- A raw `é` is the two bytes of UTF-8, each of which is encoded again.
not_ascii :
    sanitize_and_normalize_path (b'/' ∷ 0xC3 ∷ 0xA9 ∷ [])
    ≡ clean (b'/' ∷ 0xC3 ∷ 0x83 ∷ 0xC2 ∷ 0xA9 ∷ [])
unfolding sanitize_and_normalize_path
not_ascii = refl

sanitize_and_normalize_path-IsPlain_example :
    (segs : List Bytes) × (tail : List Bytes) × (rest : Bytes) × (b'/' ∷ b'a' ∷ b'/' ∷ b'b' ∷ b'/'
        ∷ []
      ≡ slash ∷ rest)
    × (split (b'/' ∷ b'a' ∷ b'/' ∷ b'b' ∷ b'/' ∷ []) ≡ [] ∷ (segs ++ tail))
    × All IsPlain segs
    × ((tail ≡ []) ⊎ (tail ≡ [] ∷ []))
sanitize_and_normalize_path-IsPlain_example =
    sanitize_and_normalize_path-IsPlain dotted (b'/' ∷ b'a' ∷ b'/' ∷ b'b' ∷ b'/' ∷ []) sanitized.0
