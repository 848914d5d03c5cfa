-- ===== src/Failover/Grpc.antt =====
-- The gRPC passthrough: `handle_grpc_passthrough` of
-- server/src/middleware/router/grpc_passthrough.rs and `is_grpc_outlier_response` of
-- circuit_breaker.rs beside it.
use praeco_rs.Prelude.{
  ℕ, Bool, true, false, if◌then◌else◌, Option, none, some, Bytes, bytes_eq, codes,
}
use praeco_rs.Circuit.{is_outlier_status}
use praeco_rs.Upstreams.{RouteTarget}
use praeco_rs.RetryBody.{RequestBody}
use praeco_rs.IpFilter.Parse.{trim}
use praeco_rs.Http.{ErrorResponse}
use praeco_rs.Http
use praeco_rs.Http.Headers.{HeaderMap}
use praeco_rs.ProxyHeaders.{clean_response_headers}
use praeco_rs.Failover.{handle}
use praeco_rs.Failover.Uris.{UriOps}
use praeco_rs.Failover.Request.{
  Refusal, gateway_timeout, payload_too_large, client_closed, bad_gateway, Call, Policy, World,
  Progress, Ending,
}

-- A trailers-only answer, which a gRPC client understands.
unfoldable pub build_grpc_error_response : Bytes → (http_status : ℕ) → Bytes → ErrorResponse
build_grpc_error_response message http_status grpc_status = record {
  status = http_status;
  grpc_status = some grpc_status;
  message = message;
}

-- 4 is DEADLINE_EXCEEDED, 8 RESOURCE_EXHAUSTED, 1 CANCELLED, 14 UNAVAILABLE.
unfoldable pub grpc_refuse : Refusal → ErrorResponse
unfolding build_grpc_error_response
grpc_refuse gateway_timeout =
    build_grpc_error_response (codes "Gateway Timeout") Http.gateway_timeout (codes "4")
grpc_refuse payload_too_large =
    build_grpc_error_response (codes "Payload Too Large") Http.payload_too_large (codes "8")
grpc_refuse client_closed =
    build_grpc_error_response (codes "Client Closed Request") Http.bad_request (codes "1")
grpc_refuse bad_gateway =
    build_grpc_error_response (codes "Bad Gateway") Http.bad_gateway (codes "14")

module _ (http : HeaderMap) where
  unfoldable pub is_grpc_outlier_response : ℕ → http.Map → Bool
  unfolding is_outlier_status trim
  is_grpc_outlier_response status headers =
      if is_outlier_status status then true else elim (http.get (codes "grpc-status") headers) [
        | none ↦ false
        | some value ↦ elim (http.to_str value) [
          | none ↦ false
          | some text ↦ bytes_eq (trim text) (codes "14")
        ]
      ]

  -- The headers that hyper's HTTP/2 client refuses go, and `te` says `trailers`.
  unfoldable pub grpc_wire_headers : http.Map → http.Map
  grpc_wire_headers headers = http.insert (codes "te") (codes "trailers") (
      http.remove (codes "te") (
        http.remove (codes "upgrade")
          (http.remove (codes "transfer-encoding") (http.remove (codes "connection") headers))))

  -- Every call may be repeated while its body is at hand: gRPC calls are all `POST`.
  unfoldable pub grpc_policy : Policy http.Map
  unfolding is_grpc_outlier_response grpc_wire_headers grpc_refuse clean_response_headers
  grpc_policy = record {
    is_repeatable = λ method. true;
    is_outlier = is_grpc_outlier_response;
    wire_headers = grpc_wire_headers;
    clean_headers = clean_response_headers http;
    refuse = grpc_refuse;
  }

  unfoldable pub handle_grpc_passthrough :
      {Uri Ip : Type 0}
      → UriOps Uri
      → World Uri Ip http.Map
      → Call Uri Ip
      → RouteTarget Uri
      → RequestBody
      → http.Map
      → Option (Ending http.Map × Progress Uri http.Map)
  unfolding grpc_policy handle
  handle_grpc_passthrough uris world call target body headers =
      handle uris http grpc_policy world call target body headers
