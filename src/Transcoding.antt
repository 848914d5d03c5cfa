-- ===== src/Transcoding.antt =====
-- The transcoding of a JSON request to a gRPC call: `handle_grpc_web` of
-- server/src/middleware/router/grpc_web.rs. The descriptors of a service (`prost-reflect`, with
-- `serde_json`) are the record `Schema`; what the network, the clock and other requests do at
-- attempt `k` is the record `Web`. In a text that quotes an error of a crate the error is left out.
pub mod Frame
pub mod Ends
pub mod Roundtrip
mod Examples
use praeco_rs.Prelude.{
  ℕ, zero, suc, ◌+◌, ◌-◌, Bool, true, false, not, ◌||◌, ltb, leb, ◌==◌, if◌then◌else◌, Option, none,
  some, List, [], ◌∷◌, ◌++◌, Bytes, length, codes, split_on, wrapping_add,
}
use praeco_rs.Circuit.{UpstreamNode, record_latency_ms}
use praeco_rs.Upstreams.{
  Chance, RouteTarget, on_first, next_upstream, mark_dead, open_connection, close_connection,
}
use praeco_rs.RetryBody.{RequestBody, buffered, stream}
use praeco_rs.PathSanitizer.{slash}
use praeco_rs.Http.{Method, post, ErrorResponse, build_error_response}
use praeco_rs.Http
use praeco_rs.Http.Headers.{HeaderMap}
use praeco_rs.Failover.Uris.{UriOps}
use praeco_rs.Failover.Request.{with_host}
use praeco_rs.Failover.Nodes.{on_node, count_failover}
use praeco_rs.Transcoding.Frame.{grpc_frame, Unframed, payload, too_short, truncated, unframe}

pub data Lookup (Desc : Type 0) : Type 0 where
  found : Desc → Lookup Desc
  no_service no_method : Lookup Desc

-- `read_json` and `encode` make the payload of a request, `decode` and `write_json` the answer.
pub record Schema (Pool Desc Message : Type 0) : Type 0 where
  pub lookup : Pool → (service method : Bytes) → Lookup Desc
  pub read_json : Desc → Bytes → Option Message
  pub encode : Message → Option Bytes
  pub decode : Desc → Bytes → Option Message
  pub write_json : Message → Option Bytes

pub data Collected : Type 0 where
  whole : Bytes → Collected
  unreadable late : Collected

pub data Exchange : Type 0 where
  timed_out unreachable : Exchange
  replied : (after_ms status : ℕ) → Collected → Exchange

pub record CachedDescriptorPool (Pool : Type 0) : Type 0 where
  pub pool : Pool
  pub created_at : ℕ

-- `build_grpc_pool k` asks a node for its descriptors; `others k` is what other requests leave in
-- the cache while this one waits for the lock.
pub record Web (Uri Ip Pool : Type 0) : Type 0 where
  pub chance : ℕ → Chance Ip
  pub clock : ℕ → ℕ
  pub build_grpc_pool : ℕ → Uri → Option Pool
  pub others : ℕ → Option (CachedDescriptorPool Pool) → Option (CachedDescriptorPool Pool)
  pub exchange : ℕ → Uri → Bytes → Exchange

pub data Reply : Type 0 where
  refused : ErrorResponse → Reply
  transcoded : (json : Bytes) → Reply
  panicked : Reply

pub record Sent (Uri Map : Type 0) : Type 0 where
  pub node : Uri
  pub target_uri : Uri
  pub headers : Map
  pub framed : Bytes

pub record Progress (Uri Map Pool : Type 0) : Type 0 where
  pub target : RouteTarget Uri
  pub grpc_pool : Option (CachedDescriptorPool Pool)
  pub failed_nodes : List Uri
  pub attempts : ℕ
  pub headers : Map
  pub sent : List (Sent Uri Map)

pub data Verdict (Uri Map Pool : Type 0) : Type 0 where
  retry : Progress Uri Map Pool → Verdict Uri Map Pool
  finish : Reply → Progress Uri Map Pool → Verdict Uri Map Pool

-- `trim_start_matches('/')`.
abbrev trim_start_slashes : Bytes → Bytes
trim_start_slashes [] = []
trim_start_slashes (b ∷ bs) =
    let rest = trim_start_slashes bs in if b == slash then rest else b ∷ bs

abbrev last_two : List Bytes → Option (Bytes × Bytes)
last_two [] = none
last_two (part ∷ []) = none
last_two (service ∷ method ∷ []) = some (service, method)
last_two (part ∷ service ∷ method ∷ parts) = last_two (service ∷ method ∷ parts)

abbrev is_post : Method → Bool
is_post post = true
is_post _ = false

-- The service and the method that a path names.
unfoldable pub named : Method → Bytes → Option (Bytes × Bytes)
unfolding split_on
named method path =
    if is_post method then last_two (split_on b'/' (trim_start_slashes path)) else none

abbrev pub max_grpc_web_response_bytes : ℕ
max_grpc_web_response_bytes = 16777216

abbrev pub refuse : Bytes → ℕ → Reply
refuse message status = refused (build_error_response message status)

-- The call that a request makes, or why it makes none.
pub data Checked (Desc : Type 0) : Type 0 where
  call_of : (service method : Bytes) → Desc → (framed : Bytes) → Checked Desc
  denied : Reply → Checked Desc

unfoldable pub written : Option Bytes → Reply
unfolding build_error_response
written none = refuse (codes "JSON encode error: ") Http.internal_server_error
written (some json) = transcoded json

module _ {Pool Desc Message : Type 0} (schema : Schema Pool Desc Message) where
  unfoldable pub framed : Bytes → Bytes → Desc → Option Bytes → Checked Desc
  unfolding grpc_frame build_error_response
  framed service method desc none =
      denied (refuse (codes "Encode error: ") Http.internal_server_error)
  framed service method desc (some protobuf_payload) =
      call_of service method desc (grpc_frame protobuf_payload)

  unfoldable pub encoded : Bytes → Bytes → Desc → Option Message → Checked Desc
  unfolding framed build_error_response
  encoded service method desc none =
      denied (refuse (codes "Invalid JSON payload: ") Http.bad_request)
  encoded service method desc (some message) = framed service method desc (schema.encode message)

  unfoldable pub with_method : Bytes → Bytes → RequestBody → Lookup Desc → Checked Desc
  unfolding encoded build_error_response
  with_method service method body no_service =
      denied (refuse (codes "gRPC Service Not Found") Http.not_found)
  with_method service method body no_method =
      denied (refuse (codes "gRPC Method Not Found") Http.not_found)
  with_method service method (stream body) (found desc) =
      denied (
        refuse (codes "Streaming not supported for gRPC transcoding yet")
          Http.internal_server_error)
  with_method service method (buffered bytes) (found desc) =
      encoded service method desc (schema.read_json desc bytes)

  unfoldable pub check_call : Pool → RequestBody → Option (Bytes × Bytes) → Checked Desc
  unfolding with_method build_error_response
  check_call pool body none =
      denied
        (refuse (codes "Please use POST /Fully.Qualified.Service/Method for gRPC") Http.bad_request)
  check_call pool body (some (service, method)) =
      with_method service method body (schema.lookup pool service method)

  unfoldable pub write : Option Message → Reply
  unfolding written build_error_response
  write none = refuse (codes "Parse error: ") Http.bad_gateway
  write (some message) = written (schema.write_json message)

  unfoldable pub answer : Desc → Unframed → Reply
  unfolding write build_error_response
  answer desc too_short = refuse (codes "Invalid gRPC Response") Http.bad_gateway
  answer desc truncated = refuse (codes "Truncated gRPC Response") Http.bad_gateway
  answer desc (payload raw_protobuf_res) = write (schema.decode desc raw_protobuf_res)

  -- What the client gets of a response.
  unfoldable pub reply : Desc → (status : ℕ) → Collected → Reply
  unfolding answer unframe build_error_response
  reply desc status collected =
      if not (status == Http.ok) then refuse (codes "Backend Error: ") status else elim collected [
        | unreadable ↦ refuse (codes "Failed to read gRPC body: ") Http.bad_gateway
        | late ↦ refuse (codes "Gateway Timeout reading gRPC response body") Http.gateway_timeout
        | whole bytes ↦
            if ltb max_grpc_web_response_bytes (length bytes)
            then refuse (codes "Failed to read gRPC body: ") Http.bad_gateway
            else answer desc (unframe bytes)
      ]

module _ {Pool : Type 0} where
  -- The cached pool, if it is young enough.
  unfoldable pub fresh : (ttl now : ℕ) → Option (CachedDescriptorPool Pool) → Option Pool
  fresh ttl now none = none
  fresh ttl now (some cached) = if ltb (now - cached.created_at) ttl then some cached.pool else none

  -- A pool that the node sent, else the old one.
  unfoldable pub refreshed :
      ℕ
      → Option Pool
      → Option (CachedDescriptorPool Pool)
      → Option Pool × Option (CachedDescriptorPool Pool)
  refreshed now (some new_pool) cache =
      (some new_pool, some (record { pool = new_pool; created_at = now }))
  refreshed now none none = (none, none)
  refreshed now none (some cached) = (some cached.pool, some cached)

-- What the configuration says: `max_retries` is the target's, and the context of the trace is
-- written into the headers by `inject_context`.
pub record Config (Map : Type 0) : Type 0 where
  pub inject_context : Map → Map
  pub reflection_ttl : ℕ
  pub max_retries : ℕ

pub record Call (Uri Ip : Type 0) : Type 0 where
  pub method : Method
  pub original_uri : Uri
  pub client_addr : Option Ip
  pub body : RequestBody

module _ (http : HeaderMap) where
  -- `x-trace-id` is the trace of the request, unless it is set.
  unfoldable pub trace_id : http.Map → http.Map
  trace_id headers = elim (http.get (codes "traceparent") headers) [
    | none ↦ headers
    | some trace ↦ elim (http.get (codes "x-trace-id") headers) [
      | some id ↦ headers
      | none ↦ http.insert (codes "x-trace-id") trace headers
    ]
  ]

module _ {Uri : Type 0} (uris : UriOps Uri) (http : HeaderMap) where
  unfoldable pub wire_headers : (http.Map → http.Map) → Uri → http.Map → http.Map
  unfolding with_host trace_id
  wire_headers inject_context uri headers = trace_id http (
      inject_context (
        http.insert (codes "te") (codes "trailers") (
          http.insert (codes "content-type") (codes "application/grpc") (
            http.remove (codes "upgrade") (
              http.remove (codes "transfer-encoding") (
                http.remove (codes "connection")
                  (http.remove (codes "content-length") (with_host uris http uri headers))))))))

module _ {Uri Map Pool : Type 0} where
  abbrev pub go_on :
      (Progress Uri Map Pool → Option (Reply × Progress Uri Map Pool))
      → Verdict Uri Map Pool
      → Option (Reply × Progress Uri Map Pool)
  go_on loop (retry p) = loop p
  go_on loop (finish reply p) = some (reply, p)

  abbrev pub start :
      RouteTarget Uri → Option (CachedDescriptorPool Pool) → Map → Progress Uri Map Pool
  start target cache headers = record {
    target = target;
    grpc_pool = cache;
    failed_nodes = [];
    attempts = 0;
    headers = headers;
    sent = [];
  }

module _ {Uri Map Pool : Type 0} (uris : UriOps Uri) where
  -- At the end of an attempt the connection is closed.
  unfoldable pub ended : Uri → Progress Uri Map Pool → Progress Uri Map Pool
  unfolding close_connection
  ended uri p = record p { target = close_connection uris.same uri p.target }

  -- The node could not be reached: it is marked dead, and the request goes to the next one.
  unfoldable pub node_failed : ℕ → Uri → ℕ → Progress Uri Map Pool → Verdict Uri Map Pool
  unfolding ended mark_dead count_failover build_error_response
  node_failed max_retries uri now p =
      let dead = mark_dead uris.same now uri p.target in
      let noted = record p { target = dead; failed_nodes = p.failed_nodes ++ uri ∷ [] } in
      if leb p.attempts max_retries
      then retry (ended uri (record noted { target = count_failover uris uri dead }))
      else finish (refuse (codes "Bad Gateway") Http.bad_gateway) (ended uri noted)

module _ {Uri Ip Pool Desc Message : Type 0} (uris : UriOps Uri) (http : HeaderMap)
    (schema : Schema Pool Desc Message) (web : Web Uri Ip Pool) (config : Config http.Map)
    (call : Call Uri Ip) where
  -- The descriptors for attempt `k`: from the cache, else under the lock.
  unfoldable pub descriptors :
      ℕ
      → Uri
      → Option (CachedDescriptorPool Pool)
      → Option Pool × Option (CachedDescriptorPool Pool)
  unfolding fresh refreshed
  descriptors k uri cache = elim (fresh config.reflection_ttl (web.clock k) cache) [
    | some pool ↦ (some pool, cache)
    | none ↦ elim (fresh config.reflection_ttl (web.clock k) (web.others k cache)) [
      | some pool ↦ (some pool, web.others k cache)
      | none ↦ refreshed (web.clock k) (web.build_grpc_pool k uri) (web.others k cache)
    ]
  ]

  -- What is done about what came back.
  unfoldable pub settle :
      Desc → Uri → ℕ → Exchange → Progress Uri http.Map Pool → Verdict Uri http.Map Pool
  unfolding node_failed ended reply record_latency_ms build_error_response
  settle desc uri now timed_out p =
      finish (refuse (codes "Gateway Timeout") Http.gateway_timeout) (ended uris uri p)
  settle desc uri now unreachable p = node_failed uris config.max_retries uri now p
  settle desc uri now (replied after_ms status collected) p =
      finish (reply schema desc status collected) (
        ended uris uri
          (record p { target = on_node uris uri (record_latency_ms after_ms) p.target }))

  -- The request to the URI of the method at the node.
  unfoldable pub send :
      ℕ → Uri → Desc → Bytes → Option Uri → Progress Uri http.Map Pool → Verdict Uri http.Map Pool
  unfolding settle wire_headers ended build_error_response
  send k uri desc framed none p =
      finish (refuse (codes "Invalid gRPC target path: ") Http.bad_request) (ended uris uri p)
  send k uri desc framed (some target_uri) p =
      settle desc uri (web.clock k) (web.exchange k uri framed) (record p {
        sent =
            p.sent
            ++ record {
              node = uri;
              target_uri = target_uri;
              headers = wire_headers uris http config.inject_context uri p.headers;
              framed = framed;
            }
              ∷ [];
        headers = if k == config.max_retries then http.empty else p.headers;
      })

  unfoldable pub dispatch :
      ℕ → Uri → Checked Desc → Progress Uri http.Map Pool → Verdict Uri http.Map Pool
  unfolding send ended
  dispatch k uri (denied reply) p = finish reply (ended uris uri p)
  dispatch k uri (call_of service name desc framed) p =
      send k uri desc framed (uris.with_path_and_query (slash ∷ (service ++ (slash ∷ name))) uri) p

  -- With the descriptors.
  unfoldable pub described :
      ℕ → Uri → Option Pool → Progress Uri http.Map Pool → Verdict Uri http.Map Pool
  unfolding dispatch check_call named ended build_error_response
  described k uri none p =
      finish (refuse (codes "Failed to fetch gRPC schema") Http.bad_gateway) (ended uris uri p)
  described k uri (some pool) p =
      dispatch k uri
        (check_call schema pool call.body (named call.method (uris.path call.original_uri))) p

  -- With the node of attempt `k`.
  unfoldable pub ask :
      ℕ
      → Option (UpstreamNode Uri)
      → RouteTarget Uri
      → Progress Uri http.Map Pool
      → Verdict Uri http.Map Pool
  unfolding described descriptors open_connection
  ask k none target p = finish panicked p
  ask k (some n) target p =
      let got = descriptors k n.uri p.grpc_pool in
      described k n.uri got.0 (record p {
        target = open_connection uris.same n.uri target;
        grpc_pool = got.1;
        attempts = suc p.attempts;
      })

  unfoldable pub attempt : Progress Uri http.Map Pool → Verdict Uri http.Map Pool
  unfolding next_upstream ask
  attempt p =
      let chosen =
        next_upstream uris.same (web.chance p.attempts) (web.clock p.attempts) call.client_addr
          p.failed_nodes p.target in
      ask p.attempts chosen.0 chosen.1 p

  -- The loop, on fuel; `none` means that the fuel ran out.
  unfoldable pub attempts_from :
      ℕ → Progress Uri http.Map Pool → Option (Reply × Progress Uri http.Map Pool)
  unfolding attempt
  attempts_from zero p = none
  attempts_from (suc fuel) p = go_on (attempts_from fuel) (attempt p)

  -- The handler, with one round more than it may retry as fuel.
  unfoldable pub handle_grpc_web :
      RouteTarget Uri
      → Option (CachedDescriptorPool Pool)
      → http.Map
      → Option (Reply × Progress Uri http.Map Pool)
  unfolding attempts_from
  handle_grpc_web target cache headers =
      attempts_from (suc config.max_retries) (start target cache headers)
