-- ===== src/Failover/Uris.antt =====
-- The URI of a request to an upstream: `build_upstream_uri` of
-- server/src/middleware/router/upstreams.rs. `http::Uri` is an interface.
use praeco_rs.Prelude.{
  Bool, true, ◌||◌, ◌&&◌, ◌≡◌, ◌↔◌, if◌then◌else◌, Option, none, some, [], ◌∷◌, ◌++◌, Bytes,
  bytes_eq, any, is_empty, starts_with, ◌==◌, codes,
}
use praeco_rs.PathSanitizer.{contains, split, dotdot, slash}

-- `with_path_and_query` sets the path and query of a URI, and fails on a text that is none.
pub record UriOps (Uri : Type 0) : Type 0 where
  pub same : Uri → Uri → Bool
  pub path : Uri → Bytes
  pub query : Uri → Option Bytes
  pub authority : Uri → Option Bytes
  pub with_path_and_query : Bytes → Uri → Option Uri
  pub same_iff : (a b : Uri) → (same a b ≡ true) ↔ (a ≡ b)

-- `trim_end_matches('/')`.
unfoldable pub trim_end_slashes : Bytes → Bytes
trim_end_slashes [] = []
trim_end_slashes (b ∷ bs) =
    let rest = trim_end_slashes bs in if (b == slash) && is_empty rest then [] else b ∷ rest

unfoldable pub is_suspicious : Bytes → Bool
unfolding split contains
is_suspicious rest =
    any (λ seg. bytes_eq seg dotdot) (split rest)
    || contains rest (codes "%2f")
    || contains rest (codes "%2F")
    || contains rest (0 ∷ [])
    || contains rest (codes "%00")
    || contains rest (b'\\' ∷ [])
    || contains rest (codes "%5c")
    || contains rest (codes "%5C")

abbrev pub query_suffix : Option Bytes → Bytes
query_suffix none = []
query_suffix (some query) = b'?' ∷ query

module _ {Uri : Type 0} (uris : UriOps Uri) where
  -- The path before the query; `none` rejects the sub-path.
  unfoldable pub upstream_path : Bytes → Option Bytes → Option Bytes
  unfolding is_suspicious trim_end_slashes
  upstream_path base none =
      some (if is_empty (trim_end_slashes base) then slash ∷ [] else trim_end_slashes base)
  upstream_path base (some rest) =
      if is_suspicious rest
      then none
      else some
          (trim_end_slashes base ++ (if starts_with rest (slash ∷ []) then rest else slash ∷ rest))

  unfoldable pub build_upstream_uri : Uri → Option Bytes → Uri → Option Uri
  unfolding upstream_path
  build_upstream_uri base rest original = elim (upstream_path (uris.path base) rest) [
    | none ↦ none
    | some path ↦ uris.with_path_and_query (path ++ query_suffix (uris.query original)) base
  ]
