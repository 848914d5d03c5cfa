-- ===== src/Router/Examples.antt =====
-- A small gateway with one replicated route, and the theorems about the router at it.
use praeco_rs.Prelude.{
  ℕ, ◌≡◌, ◌≢◌, ◌↔◌, ◌⊎◌, refl, true, false, Option, none, some, List, [], ◌∷◌, ◌<◌, ◌≤◌, suc,
  length, codes, Bytes, bytes_eq, bytes_eq_iff, arith, if◌then◌else◌, ◌==◌,
}
use praeco_rs.Circuit.{new_node}
use praeco_rs.Upstreams.{Chance, RouteTarget, round_robin}
use praeco_rs.RetryBody.{Item, data_frame, trailers, frame, buffered}
use praeco_rs.RetryBody.Replay.{data_of, IsWhole}
use praeco_rs.Http.{Method, get, post, is_idempotent}
use praeco_rs.Http
use praeco_rs.Http.Store.{assoc_headers}
use praeco_rs.Net.{IpAddr}
use praeco_rs.ProxyHeaders.{Codec}
use praeco_rs.Failover.Uris.{UriOps}
use praeco_rs.Failover.Errors.{other}
use praeco_rs.Failover.Request.{Answer, responded, broke, World, Progress, Ending, uri_error}
use praeco_rs.Failover.{start}
use praeco_rs.Failover.Http.{http_policy}
use praeco_rs.Router.{
  rest, grpc_passthrough, admin, ParsedRoute, RouterService, Request, Forward, answered, dispatched,
  call, proxy, call_of, handle_health_check,
}
use praeco_rs.Router.Health.{HasAvailable, handle_health_check-ok_iff}
use praeco_rs.Router.Guards.{IsClean, IsAdmitted, IsHandled, call-dispatched}
use praeco_rs.Router.Retries.{HaveBody, proxy-repeats}

-- A URI is its path.
abbrev uris : UriOps Bytes
uris = record {
  same = bytes_eq;
  path = λ u. u;
  query = λ u. none;
  authority = λ u. none;
  with_path_and_query = λ path u. some path;
  same_iff = bytes_eq_iff;
}

abbrev codec : Codec
codec = record { ip_text = λ ip. []; url_encode = λ text. text }

abbrev target : RouteTarget Bytes
target = record {
  upstreams = new_node (codes "a") ∷ new_node (codes "b") ∷ [];
  strategy = round_robin;
  rr_counter = 0;
  cooldown_seconds = 10;
  max_retries = 1;
  failure_threshold = 3;
  max_retry_buffer_bytes = 8;
  active_health_check_interval = 0;
}

abbrev api : ParsedRoute Bytes
api = record { backend_type = rest; allowed_roles = codes "dev" ∷ []; target = target }

abbrev status_page : ParsedRoute Bytes
status_page = record { backend_type = admin; allowed_roles = codes "ops" ∷ []; target = target }

abbrev table : Bytes → Option (ParsedRoute Bytes × Option Bytes)
table path =
    if bytes_eq path (codes "/api")
    then some (api, none)
    else if bytes_eq path (codes "/admin")
    then some (status_page, none)
    else none

abbrev gateway : RouterService Bytes
gateway = record {
  at = table;
  parsed_routes = api ∷ status_page ∷ [];
  compiled_rbac = none;
  server = record { is_https = true; sni_domain = none; client_cert_forwarding = none };
  jwt_token = none;
  request_timeout_seconds = 30;
}

abbrev body : List Item
body = frame (data_frame (codes "abc")) ∷ frame (data_frame (codes "de")) ∷ frame trailers ∷ []

abbrev put_to : Bytes → Method → Request Bytes (List (Bytes × Bytes))
put_to uri method = record {
  method = method;
  uri = uri;
  headers = [];
  body = body;
  body_error = other [];
  body_error_text = [];
  roles = record { shared_role_vec = some (codes "dev" ∷ []); role_vec = none; shared_vec = none };
  verified = record { addr = none; pem = none; san = none; roles = none };
}

abbrev request : Request Bytes (List (Bytes × Bytes))
request = put_to (codes "/./api") get

abbrev forwarded : Forward Bytes (List (Bytes × Bytes))
forwarded = record {
  route = api;
  method = get;
  uri = codes "/api";
  sub_path = none;
  headers = (codes "x-forwarded-proto", codes "https") ∷ (codes "max-forwards", codes "10") ∷ [];
  body = buffered (codes "abcde");
  request_timeout = some 30000;
}

call_forwards : call uris assoc_headers codec gateway 0 request ≡ dispatched forwarded
unfolding call
call_forwards = refl

unknown_path :
    call uris assoc_headers codec gateway 0 (put_to (codes "/nowhere") get)
    ≡ answered (record { status = Http.not_found; grpc_status = none; message = codes "Not Found" })
unfolding call
unknown_path = refl

first_draw-lt : (n : ℕ) → 0 < n → 0 < n
first_draw-lt n h = h

abbrev chance : Chance IpAddr
chance = record {
  gen_range = λ n. 0;
  any_usize = 5;
  hash_ip = λ ip. 7;
  gen_range-lt = first_draw-lt;
}

-- The first request breaks, the second one is answered.
abbrev answers : ℕ → Answer (List (Bytes × Bytes))
answers k = elim (k == 0) [
  | true ↦ broke none (record { is_connect = true; chain = [] })
  | false ↦ responded 200 []
]

abbrev world : World Bytes IpAddr (List (Bytes × Bytes))
world = record {
  chance = λ k. chance;
  select_at = λ k. 100;
  settle_at = λ k. 101;
  arrival = λ k uri. record { after_ms = 7; answer = answers k };
  meanwhile = λ k t. t;
}

abbrev Run : Type 0
Run = Ending (List (Bytes × Bytes)) × Progress Bytes (List (Bytes × Bytes))

abbrev unsent : Run
unsent = (
  uri_error,
  start uris assoc_headers (http_policy assoc_headers) world
      (call_of uris assoc_headers none forwarded) target forwarded.body [],
)

abbrev run_of : Option (Option Run) → Run
run_of (some (some r)) = r
run_of _ = unsent

abbrev ended : Run
ended = run_of (proxy uris assoc_headers world none forwarded)

ends : proxy uris assoc_headers world none forwarded ≡ some (some (ended.0, ended.1))
unfolding proxy new_node http_policy
ends = refl

twice : 1 < length ended.1.sent
unfolding proxy new_node http_policy
twice = omega arith

proxy-repeats_example :
    ((rest ≡ grpc_passthrough) ⊎ (is_idempotent get ≡ true))
    × (1 < length target.upstreams)
    × (length ended.1.sent ≤ suc 1)
    × (target.max_retries ≢ 0)
    × IsWhole body
    × (length (data_of body) ≤ 8)
    × HaveBody (buffered (data_of body)) ended.1.sent
proxy-repeats_example =
    proxy-repeats uris assoc_headers codec gateway request world none 0 forwarded ended.0 ended.1
      (omega arith) call_forwards ends twice

call-dispatched_example :
    IsClean uris assoc_headers codec gateway request (codes "/api")
    × IsAdmitted uris assoc_headers codec gateway request (codes "/api") api none
    × (rest ≢ admin)
    × IsHandled uris assoc_headers codec gateway request api forwarded
call-dispatched_example =
    call-dispatched uris assoc_headers codec gateway request 0 forwarded call_forwards

handle_health_check-ok_iff_example :
    ((handle_health_check 0 gateway).status ≡ Http.ok)
    ↔ ((gateway.parsed_routes ≡ []) ⊎ HasAvailable 0 gateway.parsed_routes)
handle_health_check-ok_iff_example = handle_health_check-ok_iff 0 gateway
