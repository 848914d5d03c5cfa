-- ===== src/Prelude/Text.antt =====
-- Texts of the source as byte strings.
use Prim.Native.Nat.{ℕ}
use Prim.Native.Char.{code}
use Prim.Native.String.{String}
use mathlib.Core.List.{List, [], ◌∷◌}
use praeco_rs.Prelude.Tests.{◌==◌, if◌then◌else◌}
use praeco_rs.Prelude.Lists.{Bytes}

-- The bytes of an ASCII text.
abbrev pub codes : String → Bytes
codes String.[] = []
codes (String.◌∷◌ c s) = code c ∷ codes s

onto_first : ℕ → List Bytes → List Bytes
onto_first b [] = (b ∷ []) ∷ []
onto_first b (x ∷ xs) = (b ∷ x) ∷ xs

-- `str::split` at a byte.
unfoldable pub split_on : ℕ → Bytes → List Bytes
unfolding onto_first
split_on sep [] = [] ∷ []
split_on sep (b ∷ bs) =
    let rest = split_on sep bs in if b == sep then [] ∷ rest else onto_first b rest
