-- ===== src/Relay/Register.antt =====
-- The registration of a tunnel: the `REGISTER` line and its checks in `run_control_plane`, and
-- `is_valid_sni`, of relay-server/src/main.rs. The Unicode tables of the standard library are the
-- record `UnicodeOps`.
use praeco_rs.Prelude.{
  ℕ, zero, suc, Bool, true, false, not, ◌&&◌, ◌||◌, ltb, leb, ◌==◌, if◌then◌else◌, Option, none,
  some, List, [], ◌∷◌, ◌++◌, map, any, Bytes, bytes_eq, is_empty, length, codes, split_on,
  starts_with,
}
use praeco_rs.IpFilter.Parse.{trim, leading_space, white_space}
use praeco_rs.PathSanitizer.{to_ascii_lowercase, ends_with}

-- `is_utf8` is `String::from_utf8`, `is_alphanumeric` is `char::is_alphanumeric` on a character
-- outside ASCII.
pub record UnicodeOps : Type 0 where
  pub is_utf8 : Bytes → Bool
  pub is_alphanumeric : Bytes → Bool

-- The loop that reads the line byte by byte; the input ends where the connection does, or the
-- time. The line, and what is left unread.
unfoldable pub read_line : (room : ℕ) → (line : Bytes) → Bytes → Option (Bytes × Bytes)
read_line zero line input = none
read_line (suc room) line [] = none
read_line (suc room) line (b ∷ input) =
    let rest = read_line room (line ++ b ∷ []) input in
    if b == b'\n' then some (line, input) else rest

unfoldable pub read_register : Bytes → Option (Bytes × Bytes)
unfolding read_line
read_register input = read_line 1024 [] input

onto_word : ℕ → List Bytes → List Bytes
onto_word b [] = (b ∷ []) ∷ []
onto_word b (word ∷ words) = (b ∷ word) ∷ words

-- The words with a first one that may be empty; `skip` bytes of white space are to be dropped.
words_from : (skip : ℕ) → Bytes → List Bytes
unfolding onto_word leading_space
words_from skip [] = [] ∷ []
words_from (suc skip) (b ∷ bs) = words_from skip bs
words_from zero (b ∷ bs) = elim (leading_space white_space (b ∷ bs)) [
  | zero ↦ onto_word b (words_from zero bs)
  | suc more ↦ [] ∷ words_from more bs
]

abbrev without_empty : List Bytes → List Bytes
without_empty [] = []
without_empty (word ∷ words) =
    let rest = without_empty words in if is_empty word then rest else word ∷ rest

unfoldable pub split_whitespace : Bytes → List Bytes
unfolding words_from
split_whitespace text = without_empty (words_from 0 text)

abbrev pub lowercase : Bytes → Bytes
lowercase text = map to_ascii_lowercase text

unfoldable pub eq_ignore_ascii_case : Bytes → Bytes → Bool
unfolding to_ascii_lowercase
eq_ignore_ascii_case a b = bytes_eq (lowercase a) (lowercase b)

abbrev continues : Bytes → Bool
continues [] = false
continues (b ∷ bs) = leb 0x80 b && ltb b 0xC0

-- The characters of a text, each with its bytes.
unfoldable pub chars : Bytes → List Bytes
unfolding onto_word
chars [] = []
chars (b ∷ bs) = let rest = chars bs in if continues bs then onto_word b rest else (b ∷ []) ∷ rest

abbrev all_of : (Bytes → Bool) → List Bytes → Bool
all_of p [] = true
all_of p (x ∷ xs) = p x && all_of p xs

abbrev is_ascii_alphanumeric : ℕ → Bool
is_ascii_alphanumeric b =
    (leb b'0' b && leb b b'9') || (leb b'A' b && leb b b'Z') || (leb b'a' b && leb b b'z')

module _ (unicode : UnicodeOps) where
  abbrev is_label_char : Bytes → Bool
  is_label_char [] = false
  is_label_char (b ∷ []) = is_ascii_alphanumeric b || b == b'-'
  is_label_char (b ∷ c ∷ bs) = unicode.is_alphanumeric (b ∷ c ∷ bs)

  -- One label of a host name.
  unfoldable pub is_label : Bytes → Bool
  unfolding chars ends_with
  is_label label =
      not (is_empty label)
      && leb (length label) 63
      && all_of is_label_char (chars label)
      && not (starts_with label (codes "-"))
      && not (ends_with label (codes "-"))

  unfoldable pub is_valid_sni : Bytes → Bool
  unfolding is_label split_on
  is_valid_sni sni =
      not (is_empty sni) && leb (length sni) 253 && all_of is_label (split_on b'.' sni)

  -- After the line is split into words.
  unfoldable pub authorize_words :
      (enable_proxy_protocol : Bool) → (allowed_snis words : List Bytes) → Option (Bytes × Bool)
  unfolding is_valid_sni eq_ignore_ascii_case to_ascii_lowercase
  authorize_words enable_proxy_protocol allowed_snis (command ∷ name ∷ options) =
      if bytes_eq command (codes "REGISTER")
        && is_valid_sni (lowercase name)
        && any (λ allowed. eq_ignore_ascii_case allowed (lowercase name)) allowed_snis
      then some (
        lowercase name,
        any (λ option. bytes_eq option (codes "PROXY_V2")) options && enable_proxy_protocol,
      )
      else none
  authorize_words enable_proxy_protocol allowed_snis _ = none

  -- The name that a line registers, and whether its tunnel takes PROXY headers.
  unfoldable pub authorize :
      (enable_proxy_protocol : Bool)
      → (allowed_snis : List Bytes) → (line : Bytes) → Option (Bytes × Bool)
  unfolding authorize_words split_whitespace trim
  authorize enable_proxy_protocol allowed_snis line =
      if is_empty allowed_snis
      then none
      else if not (unicode.is_utf8 line)
      then none
      else authorize_words enable_proxy_protocol allowed_snis (split_whitespace (trim line))
