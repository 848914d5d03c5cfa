-- ===== src/PathSanitizer/Uris.antt =====
-- The URI with its path sanitized: `sanitize_and_normalize_uri` of
-- server/src/middleware/path_sanitizer.rs. The text of an error of the `http` crate is left out.
use praeco_rs.Prelude.{Option, none, some, ◌++◌, Bytes, codes}
use praeco_rs.PathSanitizer.{
  Outcome, clean, rejected, panicked, PathSanitizeError, illegal_null_byte, illegal_encoded_slash,
  illegal_backslash, path_traversal, invalid_encoding, double_encoding, invalid_path,
  uri_format_error, sanitize_and_normalize_path,
}
use praeco_rs.Failover.Uris.{UriOps, query_suffix}

unfoldable pub error_text : PathSanitizeError → Bytes
error_text illegal_null_byte = codes "Path contains illegal null byte"
error_text illegal_encoded_slash = codes "Path contains illegal encoded slash (%2f)"
error_text illegal_backslash = codes "Path contains illegal backslash"
error_text path_traversal = codes "Path traversal attempt detected (..)"
error_text invalid_encoding = codes "Path contains invalid percent-encoding"
error_text double_encoding = codes "Path contains suspicious double-encoding"
error_text invalid_path = codes "Path must start with '/'"
error_text uri_format_error = codes "Internal URI formatting error: "

module _ {Uri : Type 0} where
  unfoldable pub rebuilt : Option Uri → Outcome Uri
  rebuilt none = rejected uri_format_error
  rebuilt (some uri) = clean uri

module _ {Uri : Type 0} (uris : UriOps Uri) where
  unfoldable pub with_path : Uri → Outcome Bytes → Outcome Uri
  unfolding rebuilt
  with_path uri panicked = panicked
  with_path uri (rejected e) = rejected e
  with_path uri (clean path) =
      rebuilt (uris.with_path_and_query (path ++ query_suffix (uris.query uri)) uri)

  unfoldable pub sanitize_and_normalize_uri : Uri → Outcome Uri
  unfolding with_path sanitize_and_normalize_path
  sanitize_and_normalize_uri uri = with_path uri (sanitize_and_normalize_path (uris.path uri))
