-- ===== src/Failover/Errors.antt =====
-- Whose fault a failed request is: `SrvError` of server/src/error.rs, and `ProxyErrorKind`,
-- `classify_proxy_error` and `BodyErrorTracker` of server/src/middleware/router/http_proxy.rs.
-- An error of the client is the chain of its sources, each with what the code reads of it.
use praeco_rs.Prelude.{
  Bool, false, ◌||◌, if◌then◌else◌, Option, none, some, List, [], ◌∷◌, Bytes, codes, ℕ,
}
use praeco_rs.PathSanitizer.{contains}

-- The errors of the crates are carried as their text.
pub data SrvError : Type 0 where
  infallible : Bytes → SrvError
  hyper_error : Bytes → SrvError
  hyper_util_error : Bytes → SrvError
  too_large : (current limit : ℕ) → SrvError
  decompression_limit : (limit : ℕ) → SrvError
  client_aborted : Bytes → SrvError
  other : Bytes → SrvError

pub data IoKind : Type 0 where
  broken_pipe connection_reset connection_aborted unexpected_eof io_other : IoKind

-- An error in the chain: what its downcasts yield, and its text. `by_user` is
-- `is_user() || is_body_write_aborted()` of a hyper error.
pub record ErrorLink : Type 0 where
  pub srv : Option SrvError
  pub by_user : Bool
  pub io : Option (IoKind × Bytes)
  pub text : Bytes

pub record ProxyError : Type 0 where
  pub is_connect : Bool
  pub chain : List ErrorLink

pub data ProxyErrorKind : Type 0 where
  kind_payload_too_large kind_decompression_limit : ProxyErrorKind
  kind_client_aborted : Bytes → ProxyErrorKind
  kind_upstream_failure : ProxyErrorKind

-- The match on a typed error in the chain.
unfoldable pub kind_of_srv : Option SrvError → Option ProxyErrorKind
kind_of_srv (some (too_large current limit)) = some kind_payload_too_large
kind_of_srv (some (decompression_limit limit)) = some kind_decompression_limit
kind_of_srv (some (client_aborted reason)) = some (kind_client_aborted reason)
kind_of_srv _ = none

-- The match on the kind of an I/O error.
unfoldable pub kind_of_io : Option (IoKind × Bytes) → Option ProxyErrorKind
kind_of_io (some (broken_pipe, text)) = some (kind_client_aborted text)
kind_of_io (some (connection_reset, text)) = some (kind_client_aborted text)
kind_of_io (some (connection_aborted, text)) = some (kind_client_aborted text)
kind_of_io (some (unexpected_eof, text)) = some (kind_client_aborted text)
kind_of_io _ = none

-- The search of the error's text.
unfoldable pub kind_of_text : Bytes → Option ProxyErrorKind
unfolding contains
kind_of_text text =
    if contains text (codes "Payload Limit Exceeded")
    then some kind_payload_too_large
    else if contains text (codes "Decompressed payload exceeds maximum allowed size")
    then some kind_decompression_limit
    else if contains text (codes "sent by user") || contains text (codes "user body write aborted")
    then some (kind_client_aborted text)
    else none

abbrev pub first_of : Option ProxyErrorKind → Option ProxyErrorKind → Option ProxyErrorKind
first_of (some kind) later = some kind
first_of none later = later

abbrev pub or_later : Option ProxyErrorKind → ProxyErrorKind → ProxyErrorKind
or_later (some kind) later = kind
or_later none later = later

-- What one error of the chain says, once an error down to it was caused by the user or not.
unfoldable pub kind_of_link : (is_user_body : Bool) → ErrorLink → Option ProxyErrorKind
unfolding kind_of_srv kind_of_io kind_of_text
kind_of_link is_user_body link =
    first_of (kind_of_srv link.srv)
      (first_of (if is_user_body then kind_of_io link.io else none) (kind_of_text link.text))

-- The loop over the chain.
unfoldable pub classify_chain : (is_user_body : Bool) → List ErrorLink → ProxyErrorKind
unfolding kind_of_link
classify_chain is_user_body [] =
    if is_user_body
    then kind_client_aborted (codes "Client body write aborted")
    else kind_upstream_failure
classify_chain is_user_body (link ∷ links) =
    let later = classify_chain (is_user_body || link.by_user) links in
    or_later (kind_of_link (is_user_body || link.by_user) link) later

unfoldable pub classify_proxy_error : ProxyError → ProxyErrorKind
unfolding classify_chain
classify_proxy_error e =
    if e.is_connect then kind_upstream_failure else classify_chain false e.chain

-- What the tracker of a streamed body records of an error; `text` is the error's text.
unfoldable pub recorded_error : SrvError → (text : Bytes) → SrvError
unfolding contains
recorded_error (too_large current limit) text = too_large current limit
recorded_error (decompression_limit limit) text = decompression_limit limit
recorded_error (client_aborted reason) text = client_aborted reason
recorded_error _ text =
    if contains text (codes "Payload Limit Exceeded")
    then too_large 0 0
    else if contains text (codes "Decompressed payload")
    then decompression_limit 0
    else client_aborted text

-- An error of the client's body comes before what the error of the request says.
unfoldable pub error_kind : Option SrvError → ProxyError → ProxyErrorKind
unfolding classify_proxy_error
error_kind (some (too_large current limit)) e = kind_payload_too_large
error_kind (some (decompression_limit limit)) e = kind_decompression_limit
error_kind (some (client_aborted reason)) e = kind_client_aborted reason
error_kind (some _) e = kind_client_aborted (codes "Client stream error")
error_kind none e = classify_proxy_error e
