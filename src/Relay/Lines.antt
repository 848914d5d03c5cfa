-- ===== src/Relay/Lines.antt =====
-- Which names a control connection may register, and where its line ends.
use praeco_rs.Prelude.{
  ℕ, zero, suc, ◌<◌, ◌≡◌, ◌≢◌, sym, ap, ◌∙◌, Bool, true, false, ◌&&◌, ◌==◌, Bool-cases, Option,
  none, some, List, [], ◌∷◌, ◌++◌, any, All, Elem, Bytes, bytes_eq, bytes_eq_iff, is_empty, length,
  append_assoc, append-nil, any-Elem_iff, subst, arith, inl, inr, codes,
}
use praeco_rs.IpFilter.Parse.{trim}
use praeco_rs.Relay.Register.{
  UnicodeOps, read_line, read_register, split_whitespace, lowercase, eq_ignore_ascii_case,
  is_valid_sni, authorize_words, authorize,
}

-- The line ends at the first newline, and nothing after it is read.
read_line-room :
    (room : ℕ) (before line rest : Bytes)
    → All (λ b. b ≢ b'\n') line
    → length line < room
    → read_line room before (line ++ b'\n' ∷ rest) ≡ some (before ++ line, rest)
unfolding read_line
read_line-room zero before line rest h l = absurd (omega arith)
read_line-room (suc room) before [] rest h l = ap (λ t. some (t, rest)) (sym (append-nil before))
read_line-room (suc room) before (b ∷ line) rest (other, h) l =
    let differs : (b == b'\n') ≡ false = ground arith in
    rw (differs, read_line)
      (read_line-room room (before ++ b ∷ []) line rest h (omega arith)
        ∙ ap (λ t. some (t, rest)) (append_assoc before (b ∷ []) line))

-- A line below 1024 bytes is read up to its newline; what comes after it is left for the tunnel.
pub read_register-line :
    (line rest : Bytes)
    → All (λ b. b ≢ b'\n') line
    → length line < 1024
    → read_register (line ++ b'\n' ∷ rest) ≡ some (line, rest)
unfolding read_register
read_register-line line rest h l = read_line-room 1024 [] line rest h l

-- A name that can be registered is a valid host name, and the certificate has it, up to case.
abbrev pub IsAuthorized : UnicodeOps → List Bytes → Option (Bytes × Bool) → Type 0
IsAuthorized unicode allowed_snis none = Unit
IsAuthorized unicode allowed_snis (some (sni, supports_proxy_v2)) =
    (is_valid_sni unicode sni ≡ true)
    × ((allowed : Bytes) × Elem allowed allowed_snis × (lowercase allowed ≡ lowercase sni))

authorize_words-IsAuthorized :
    (unicode : UnicodeOps) (enable : Bool) (allowed_snis words : List Bytes)
    → IsAuthorized unicode allowed_snis (authorize_words unicode enable allowed_snis words)
unfolding authorize_words eq_ignore_ascii_case
authorize_words-IsAuthorized unicode enable allowed_snis [] = tt
authorize_words-IsAuthorized unicode enable allowed_snis (command ∷ []) = tt
authorize_words-IsAuthorized unicode enable allowed_snis (command ∷ name ∷ options) =
    let sni = lowercase name in
    let is_allowed = any (λ allowed. eq_ignore_ascii_case allowed sni) allowed_snis in
    elim (Bool-cases
      (bytes_eq command (codes "REGISTER") && is_valid_sni unicode sni && is_allowed)) [
        | inl good ↦
            let (allowed, m, e) =
              (any-Elem_iff (λ allowed. eq_ignore_ascii_case allowed sni) allowed_snis).0
                (ground (arith, good)) in
            rw good (
              ground (arith, good),
              (allowed, m, (bytes_eq_iff (lowercase allowed) (lowercase sni)).0 e),
            )
        | inr bad ↦ rw bad tt
      ]

authorize-IsAuthorized :
    (unicode : UnicodeOps) (enable : Bool) (allowed_snis : List Bytes) (line : Bytes)
    → IsAuthorized unicode allowed_snis (authorize unicode enable allowed_snis line)
unfolding authorize
authorize-IsAuthorized unicode enable allowed_snis line =
    elim (Bool-cases (is_empty allowed_snis)) [
      | inl nobody ↦ rw nobody tt
      | inr named ↦ elim (Bool-cases (unicode.is_utf8 line)) [
        | inr bad ↦ rw (named, bad) tt
        | inl good ↦
            rw (named, good)
              (authorize_words-IsAuthorized unicode enable allowed_snis
                (split_whitespace (trim line)))
      ]
    ]

-- A control connection registers only a valid host name that its certificate names, up to the case
-- of ASCII letters.
pub authorize-named :
    (unicode : UnicodeOps) (enable_proxy_protocol : Bool) (allowed_snis : List Bytes)
    (line sni : Bytes) (supports_proxy_v2 : Bool)
    → authorize unicode enable_proxy_protocol allowed_snis line ≡ some (sni, supports_proxy_v2)
    → (is_valid_sni unicode sni ≡ true)
      × ((allowed : Bytes) × Elem allowed allowed_snis × (lowercase allowed ≡ lowercase sni))
authorize-named unicode enable_proxy_protocol allowed_snis line sni supports_proxy_v2 e =
    subst (IsAuthorized unicode allowed_snis) e
      (authorize-IsAuthorized unicode enable_proxy_protocol allowed_snis line)
