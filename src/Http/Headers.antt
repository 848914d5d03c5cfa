-- ===== src/Http/Headers.antt =====
-- The header map: `HeaderMap`, `HeaderName` and `HeaderValue` of the `http` crate.
-- `get` reads the first value of a name, `insert` leaves one value, `remove` takes all away.
use praeco_rs.Prelude.{
  Bool, true, ◌&&◌, ◌||◌, leb, ◌==◌, ◌≡◌, if◌then◌else◌, Option, none, some, [], ◌∷◌, Bytes,
  bytes_eq,
}

-- A name of lower-case letters, digits and dashes.
abbrev pub is_lower_name : Bytes → Bool
is_lower_name [] = true
is_lower_name (b ∷ bs) =
    ((leb b'a' b && leb b b'z') || (leb b'0' b && leb b b'9') || b == b'-') && is_lower_name bs

-- `to_name` is `HeaderName::from_bytes`, `to_value` is `HeaderValue::from_str`, `to_str` reads a
-- value that is visible ASCII.
pub record HeaderMap : Type 1 where
  pub Map : Type 0
  pub empty : Map
  pub get : Bytes → Map → Option Bytes
  pub insert : Bytes → Bytes → Map → Map
  pub remove : Bytes → Map → Map
  pub to_name : Bytes → Option Bytes
  pub to_value : Bytes → Option Bytes
  pub to_str : Bytes → Option Bytes
  pub get-empty : (name : Bytes) → get name empty ≡ none
  pub get-insert :
      (name other value : Bytes) (map : Map)
      → get other (insert name value map)
        ≡ (if bytes_eq name other then some value else get other map)
  pub get-remove :
      (name other : Bytes) (map : Map)
      → get other (remove name map) ≡ (if bytes_eq name other then none else get other map)
  pub to_name_lower : (name : Bytes) → is_lower_name name ≡ true → to_name name ≡ some name
