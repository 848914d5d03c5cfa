-- ===== src/Failover/Http.antt =====
-- The HTTP proxy: `handle_http_proxy` of server/src/middleware/router/http_proxy.rs.
use praeco_rs.Prelude.{Option, codes}
use praeco_rs.Circuit.{is_outlier_status}
use praeco_rs.Upstreams.{RouteTarget}
use praeco_rs.RetryBody.{RequestBody}
use praeco_rs.Http.{ErrorResponse, build_error_response, is_idempotent}
use praeco_rs.Http
use praeco_rs.Http.Headers.{HeaderMap}
use praeco_rs.ProxyHeaders.{clean_response_headers}
use praeco_rs.Failover.{handle}
use praeco_rs.Failover.Uris.{UriOps}
use praeco_rs.Failover.Request.{
  Refusal, gateway_timeout, payload_too_large, client_closed, bad_gateway, Call, Policy, World,
  Progress, Ending,
}

unfoldable pub http_refuse : Refusal → ErrorResponse
unfolding build_error_response
http_refuse gateway_timeout = build_error_response (codes "Gateway Timeout") Http.gateway_timeout
http_refuse payload_too_large =
    build_error_response (codes "Payload Too Large") Http.payload_too_large
http_refuse client_closed = build_error_response (codes "Client Closed Request") Http.bad_request
http_refuse bad_gateway = build_error_response (codes "Bad Gateway") Http.bad_gateway

module _ (http : HeaderMap) where
  unfoldable pub http_policy : Policy http.Map
  unfolding is_idempotent is_outlier_status http_refuse clean_response_headers
  http_policy = record {
    is_repeatable = is_idempotent;
    is_outlier = λ status headers. is_outlier_status status;
    wire_headers = λ headers. headers;
    clean_headers = clean_response_headers http;
    refuse = http_refuse;
  }

  unfoldable pub handle_http_proxy :
      {Uri Ip : Type 0}
      → UriOps Uri
      → World Uri Ip http.Map
      → Call Uri Ip
      → RouteTarget Uri
      → RequestBody
      → http.Map
      → Option (Ending http.Map × Progress Uri http.Map)
  unfolding http_policy handle
  handle_http_proxy uris world call target body headers =
      handle uris http http_policy world call target body headers
