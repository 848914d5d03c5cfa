-- ===== src/Router.antt =====
-- The router: `RouterService` of server/src/middleware/router/mod.rs;
-- it puts the parts together: path sanitizer, access control, header preparation, retry buffer and
-- the handlers.
-- The route table (`matchit`) is the parameter `at`; answers of the administration interface and
-- of the transcoding handler are left to those.
pub mod Health
pub mod Guards
pub mod Retries
mod Examples
use praeco_rs.Prelude.{
  ℕ, ◌*◌, Bool, true, false, not, ◌||◌, ◌&&◌, ltb, ◌==◌, if◌then◌else◌, Option, none, some, List,
  [], ◌∷◌, ◌++◌, Bytes, bytes_eq, length, any, is_empty, codes,
}
use praeco_rs.Circuit.{is_available}
use praeco_rs.Upstreams.{RouteTarget}
use praeco_rs.Rbac.{CompiledRbac, Extensions, Verdict, allowed, forbidden, enforce_rbac}
use praeco_rs.PathSanitizer.{Outcome, clean, rejected, panicked, PathSanitizeError, contains}
use praeco_rs.PathSanitizer.Uris.{sanitize_and_normalize_uri, error_text}
use praeco_rs.RetryBody.{
  Frame, data_frame, trailers, Item, frame, broken, RequestBody, buffered, stream,
  buffer_body_up_to, PrefixedStreamBody,
}
use praeco_rs.Net.{IpAddr}
use praeco_rs.Http.{Method, get, is_idempotent, ErrorResponse, build_error_response}
use praeco_rs.Http
use praeco_rs.Http.Headers.{HeaderMap}
use praeco_rs.Http.Numbers.{parse_usize}
use praeco_rs.ProxyHeaders.{
  Codec, HeaderConfig, Verified, Prepared, prepared, refused, prepare_proxy_headers, inject_real_ip,
}
use praeco_rs.Failover.Errors.{SrvError, too_large, decompression_limit}
use praeco_rs.Failover.Request.{Call, World, Progress, Ending}
use praeco_rs.Failover.Uris.{UriOps}
use praeco_rs.Failover.Http.{handle_http_proxy}
use praeco_rs.Failover.Grpc.{handle_grpc_passthrough}

pub data RouteBackendType : Type 0 where
  rest grpc_transcoding grpc_passthrough admin : RouteBackendType

pub record ParsedRoute (Uri : Type 0) : Type 0 where
  pub backend_type : RouteBackendType
  pub allowed_roles : List Bytes
  pub target : RouteTarget Uri

-- `at` finds the route of a path and its sub-path. `server` is the configuration that
-- `prepare_proxy_headers` reads; `request_timeout_seconds` is 0 for none.
pub record RouterService (Uri : Type 0) : Type 0 where
  pub at : Bytes → Option (ParsedRoute Uri × Option Bytes)
  pub parsed_routes : List (ParsedRoute Uri)
  pub compiled_rbac : Option CompiledRbac
  pub server : HeaderConfig
  pub jwt_token : Option Bytes
  pub request_timeout_seconds : ℕ

-- `body_error` and `body_error_text` are what a broken body fails with.
pub record Request (Uri Map : Type 0) : Type 0 where
  pub method : Method
  pub uri : Uri
  pub headers : Map
  pub body : List Item
  pub body_error : SrvError
  pub body_error_text : Bytes
  pub roles : Extensions
  pub verified : Verified

-- A request on its way to a handler.
pub record Forward (Uri Map : Type 0) : Type 0 where
  pub route : ParsedRoute Uri
  pub method : Method
  pub uri : Uri
  pub sub_path : Option Bytes
  pub headers : Map
  pub body : RequestBody
  pub request_timeout : Option ℕ

-- What the router does with a request: answer it, ask the administration interface, or hand it
-- to the handler of the route's backend. `failed` is a panic of the sanitizer.
pub data Action (Uri Map : Type 0) : Type 0 where
  answered : ErrorResponse → Action Uri Map
  administered : Method → Uri → Map → Action Uri Map
  dispatched : Forward Uri Map → Action Uri Map
  failed : Action Uri Map

abbrev available_in : {Uri : Type 0} → ℕ → ParsedRoute Uri → Bool
available_in now route = any (is_available route.target.cooldown_seconds now) route.target.upstreams

unfoldable pub handle_health_check : {Uri : Type 0} → ℕ → RouterService Uri → ErrorResponse
unfolding is_available build_error_response
handle_health_check now s =
    if is_empty s.parsed_routes
    then build_error_response (codes "{\"score\": 100, \"message\": \"no routes configured\"}")
        Http.ok
    else if any (available_in now) s.parsed_routes
    then build_error_response (codes "{\"score\": 100, \"message\": \"nodes available\"}") Http.ok
    else build_error_response (codes "{\"score\": 0, \"message\": \"no upstream nodes available\"}")
        Http.service_unavailable

-- `body.collect()`: `none` is the error of the stream.
unfoldable pub collect : List Item → Option Bytes
collect [] = some []
collect (broken ∷ body) = none
collect (frame trailers ∷ body) = collect body
collect (frame (data_frame data_) ∷ body) = elim (collect body) [
  | none ↦ none
  | some later ↦ some (data_ ++ later)
]

abbrev is_limit_error : SrvError → Bool
is_limit_error (too_large current limit) = true
is_limit_error (decompression_limit limit) = true
is_limit_error _ = false

-- The answer to a body that fails.
unfoldable pub body_refusal : SrvError → Bytes → ErrorResponse
unfolding contains build_error_response
body_refusal e text =
    if is_limit_error e
      || contains text (codes "Payload Limit Exceeded")
      || contains text (codes "Decompressed payload")
    then build_error_response (codes "Payload Too Large") Http.payload_too_large
    else build_error_response (codes "Bad Request") Http.bad_request

abbrev is_transcoding : RouteBackendType → Bool
is_transcoding grpc_transcoding = true
is_transcoding _ = false

abbrev is_passthrough : RouteBackendType → Bool
is_passthrough grpc_passthrough = true
is_passthrough _ = false

abbrev pub timeout_of : ℕ → Option ℕ
timeout_of seconds = if seconds == 0 then none else some (seconds * 1000)

abbrev is_get : Method → Bool
is_get get = true
is_get _ = false

-- No buffer is needed, or the body is known not to fit.
unfoldable pub can_stream : {Uri : Type 0} → ParsedRoute Uri → Method → Bool → Bool
unfolding is_idempotent
can_stream route method content_length_exceeds =
    (not (ltb 1 (length route.target.upstreams))
      || route.target.max_retries == 0
      || (not (is_passthrough route.backend_type) && not (is_idempotent method))
      || content_length_exceeds)
    && not (is_transcoding route.backend_type)

-- The body that the handler gets; `none` is an error of the stream.
unfoldable pub request_body :
    {Uri : Type 0} → ParsedRoute Uri → Method → Bool → List Item → Option RequestBody
unfolding can_stream collect buffer_body_up_to
request_body route method content_length_exceeds body =
    if can_stream route method content_length_exceeds
    then some (stream (record { prefix = none; remaining = body }))
    else if is_transcoding route.backend_type
    then elim (collect body) [ none ↦ none | some bytes ↦ some (buffered bytes) ]
    else buffer_body_up_to body route.target.max_retry_buffer_bytes

module _ (http : HeaderMap) where
  unfoldable pub content_length_exceeds_retry_buf : ℕ → http.Map → Bool
  unfolding parse_usize
  content_length_exceeds_retry_buf max headers = elim (http.get (codes "content-length") headers) [
    | none ↦ false
    | some value ↦ elim (http.to_str value) [
      | none ↦ false
      | some text ↦ elim (parse_usize text) [ none ↦ false | some len ↦ ltb max len ]
    ]
  ]

module _ {Uri : Type 0} (uris : UriOps Uri) (http : HeaderMap) where
  -- A request without `host` gets the authority of its URI.
  unfoldable pub host_from_authority : Uri → http.Map → http.Map
  host_from_authority uri headers = elim (http.get (codes "host") headers) [
    | some host ↦ headers
    | none ↦ elim (uris.authority uri) [
      | none ↦ headers
      | some authority ↦ elim (http.to_value authority) [
        | none ↦ headers
        | some value ↦ http.insert (codes "host") value headers
      ]
    ]
  ]

  module _ (codec : Codec) (s : RouterService Uri) where
    -- With the body that the handler gets.
    unfoldable pub forward :
        Request Uri http.Map
        → ParsedRoute Uri
        → Option Bytes
        → Uri
        → http.Map
        → Option RequestBody
        → Action Uri http.Map
    unfolding body_refusal
    forward req route sub_path uri headers none =
        answered (body_refusal req.body_error req.body_error_text)
    forward req route sub_path uri headers (some body) = dispatched (record {
      route = route;
      method = req.method;
      uri = uri;
      sub_path = sub_path;
      headers = headers;
      body = body;
      request_timeout = timeout_of s.request_timeout_seconds;
    })

    -- After the headers are prepared.
    unfoldable pub with_headers :
        Request Uri http.Map
        → ParsedRoute Uri
        → Option Bytes
        → Uri
        → Prepared http.Map
        → Action Uri http.Map
    unfolding forward request_body content_length_exceeds_retry_buf
    with_headers req route sub_path uri (refused response) = answered response
    with_headers req route sub_path uri (prepared headers) =
        forward req route sub_path uri headers (
          request_body route req.method
            (content_length_exceeds_retry_buf http route.target.max_retry_buffer_bytes headers)
            req.body)

    -- Not the administration interface.
    unfoldable pub to_backend :
        Request Uri http.Map → Uri → http.Map → ParsedRoute Uri → Option Bytes → Action Uri http.Map
    unfolding with_headers host_from_authority prepare_proxy_headers
    to_backend req uri headers route sub_path = with_headers req route sub_path uri (
        prepare_proxy_headers http codec s.server s.jwt_token req.verified
          (host_from_authority uri headers))

    -- After access control; `headers` are the request's with its real address.
    unfoldable pub admitted :
        Request Uri http.Map
        → Uri
        → http.Map
        → ParsedRoute Uri
        → Option Bytes
        → RouteBackendType
        → Verdict
        → Action Uri http.Map
    unfolding to_backend build_error_response
    admitted req uri headers route sub_path backend_type forbidden =
        answered (build_error_response (codes "Forbidden") Http.forbidden)
    admitted req uri headers route sub_path admin allowed = administered req.method uri headers
    admitted req uri headers route sub_path rest allowed = to_backend req uri headers route sub_path
    admitted req uri headers route sub_path grpc_transcoding allowed =
        to_backend req uri headers route sub_path
    admitted req uri headers route sub_path grpc_passthrough allowed =
        to_backend req uri headers route sub_path

    -- With the route of the path.
    unfoldable pub on_route :
        Request Uri http.Map
        → Uri
        → http.Map
        → Option (ParsedRoute Uri × Option Bytes)
        → Action Uri http.Map
    unfolding admitted enforce_rbac build_error_response
    on_route req uri headers none =
        answered (build_error_response (codes "Not Found") Http.not_found)
    on_route req uri headers (some (route, sub_path)) =
        admitted req uri headers route sub_path route.backend_type
          (enforce_rbac (uris.path uri) req.roles route.allowed_roles s.compiled_rbac)

    -- After the path is sanitized.
    unfoldable pub on_path : Request Uri http.Map → http.Map → Outcome Uri → Action Uri http.Map
    unfolding on_route build_error_response error_text
    on_path req headers panicked = failed
    on_path req headers (rejected e) =
        answered (build_error_response (codes "Bad Request: " ++ error_text e) Http.bad_request)
    on_path req headers (clean uri) = on_route req uri headers (s.at (uris.path uri))

    unfoldable pub call : ℕ → Request Uri http.Map → Action Uri http.Map
    unfolding on_path handle_health_check sanitize_and_normalize_uri inject_real_ip
    call now req =
        if bytes_eq (uris.path req.uri) (codes "/health") && is_get req.method
        then answered (handle_health_check now s)
        else on_path req (inject_real_ip http codec req.verified.addr req.headers)
            (sanitize_and_normalize_uri uris req.uri)

  abbrev pub call_of : {Ip : Type 0} → Option Ip → Forward Uri http.Map → Call Uri Ip
  call_of client_addr f = record {
    method = f.method;
    client_addr = client_addr;
    rest = f.sub_path;
    original_uri = f.uri;
    request_timeout = f.request_timeout;
  }

  -- The dispatch to the two handlers that pass a request on; `none` is left to another one.
  unfoldable pub proxy_by :
      {Ip : Type 0}
      → World Uri Ip http.Map
      → Option Ip
      → Forward Uri http.Map
      → RouteBackendType
      → Option (Option (Ending http.Map × Progress Uri http.Map))
  unfolding handle_http_proxy handle_grpc_passthrough
  proxy_by world client_addr f rest =
      some
        (handle_http_proxy http uris world (call_of client_addr f) f.route.target f.body f.headers)
  proxy_by world client_addr f grpc_passthrough = some (
      handle_grpc_passthrough http uris world (call_of client_addr f) f.route.target f.body
        f.headers)
  proxy_by world client_addr f grpc_transcoding = none
  proxy_by world client_addr f admin = none

  unfoldable pub proxy :
      {Ip : Type 0}
      → World Uri Ip http.Map
      → Option Ip
      → Forward Uri http.Map
      → Option (Option (Ending http.Map × Progress Uri http.Map))
  unfolding proxy_by
  proxy world client_addr f = proxy_by world client_addr f f.route.backend_type
