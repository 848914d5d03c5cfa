-- ===== src/Http/Store.antt =====
-- A header map as an association list, which shows that the laws of the interface can hold.
use praeco_rs.Prelude.{
  true, ◌≡◌, refl, if◌then◌else◌, Option, none, some, List, [], ◌∷◌, Bytes, bytes_eq, bytes_eq_iff,
  arith,
}
use praeco_rs.Http.Headers.{HeaderMap, is_lower_name}

abbrev pub find : Bytes → List (Bytes × Bytes) → Option Bytes
find name [] = none
find name ((n, v) ∷ rest) = if bytes_eq n name then some v else find name rest

abbrev pub erase : Bytes → List (Bytes × Bytes) → List (Bytes × Bytes)
erase name [] = []
erase name ((n, v) ∷ rest) =
    let more = erase name rest in if bytes_eq n name then more else (n, v) ∷ more

pub find-erase :
    (name other : Bytes) (map : List (Bytes × Bytes))
    → find other (erase name map) ≡ (if bytes_eq name other then none else find other map)
find-erase name other [] = ground arith
find-erase name other ((n, v) ∷ rest) = ground (
  arith,
  find-erase name other rest,
  bytes_eq_iff n name,
  bytes_eq_iff n other,
  bytes_eq_iff name other,
)

pub find-empty : (name : Bytes) → find name [] ≡ none
find-empty name = refl

pub find-insert :
    (name other value : Bytes) (map : List (Bytes × Bytes))
    → find other ((name, value) ∷ map)
      ≡ (if bytes_eq name other then some value else find other map)
find-insert name other value map = refl

pub some_refl : (name : Bytes) → is_lower_name name ≡ true → some name ≡ some name
some_refl name h = refl

abbrev pub assoc_headers : HeaderMap
assoc_headers = record {
  Map = List (Bytes × Bytes);
  empty = [];
  get = find;
  insert = λ name value map. (name, value) ∷ map;
  remove = erase;
  to_name = λ name. some name;
  to_value = λ text. some text;
  to_str = λ value. some value;
  get-empty = find-empty;
  get-insert = find-insert;
  get-remove = find-erase;
  to_name_lower = some_refl;
}
