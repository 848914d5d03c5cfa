-- ===== src/Failover/Examples.antt =====
-- A target with a dead and a healthy node, and the theorems about the failover loop at it.
use praeco_rs.Prelude.{
  ℕ, ◌≤◌, ◌<◌, ◌≡◌, ◌≢◌, ◌↔◌, refl, inl, inr, ◌⊎◌, Bool, true, false, Option, none, some, List, [],
  ◌∷◌, map, length, All, Distinct, Within, arith, ◌==◌, codes, Bytes,
}
use praeco_rs.Circuit.{new_node}
use praeco_rs.Upstreams.{Chance, RouteTarget, round_robin}
use praeco_rs.Upstreams.Fresh.{uris_of}
use praeco_rs.RetryBody.{RequestBody, buffered}
use praeco_rs.Http.{get}
use praeco_rs.Http.Store.{assoc_headers}
use praeco_rs.Failover.Uris.{UriOps, build_upstream_uri}
use praeco_rs.Failover.Errors.{
  ErrorLink, ProxyError, kind_upstream_failure, error_kind, classify_proxy_error,
}
use praeco_rs.Failover.Classify.{IsUpstreamLink, classify_proxy_error-upstream_iff}
use praeco_rs.Failover.Request.{
  Answer, responded, broke, Call, World, Progress, Ending, passed_on, uri_error, await_answer,
  with_host,
}
use praeco_rs.Failover.{handle, start}
use praeco_rs.Failover.Http.{http_policy, handle_http_proxy}
use praeco_rs.Failover.Grpc.{handle_grpc_passthrough}
use praeco_rs.Failover.Targets.{KeepsUris}
use praeco_rs.Failover.Attempts.{handle_ends}
use praeco_rs.Failover.Distinct.{handle-Distinct}
use praeco_rs.Failover.Healthy.{SparesClient, handle-healthy}

abbrev same : ℕ → ℕ → Bool
same a b = a == b

same_iff : (a b : ℕ) → (same a b ≡ true) ↔ (a ≡ b)
same_iff a b = ground arith

abbrev uris : UriOps ℕ
uris = record {
  same = same;
  path = λ uri. codes "/api";
  query = λ uri. none;
  authority = λ uri. some (codes "backend");
  with_path_and_query = λ text uri. some uri;
  same_iff = same_iff;
}

first_draw-lt : (n : ℕ) → 0 < n → 0 < n
first_draw-lt n h = h

abbrev chance : Chance ℕ
chance = record {
  gen_range = λ n. 0;
  any_usize = 5;
  hash_ip = λ ip. ip;
  gen_range-lt = first_draw-lt;
}

abbrev refused_connection : ProxyError
refused_connection = record { is_connect = true; chain = [] }

-- Node 2 answers 200, every other node refuses the connection.
abbrev answers : ℕ → Answer (List (Bytes × Bytes))
answers uri = elim (uri == 2) [ true ↦ responded 200 [] | false ↦ broke none refused_connection ]

abbrev world : World ℕ ℕ (List (Bytes × Bytes))
world = record {
  chance = λ k. chance;
  select_at = λ k. 100;
  settle_at = λ k. 101;
  arrival = λ k uri. record { after_ms = 7; answer = answers uri };
  meanwhile = λ k t. t;
}

abbrev call : Call ℕ ℕ
call = record {
  method = get;
  client_addr = none;
  rest = some (codes "users");
  original_uri = 9;
  request_timeout = some 50;
}

abbrev target : RouteTarget ℕ
target = record {
  upstreams = new_node 1 ∷ new_node 2 ∷ [];
  strategy = round_robin;
  rr_counter = 0;
  cooldown_seconds = 10;
  max_retries = 1;
  failure_threshold = 3;
  max_retry_buffer_bytes = 65536;
  active_health_check_interval = 0;
}

abbrev body : RequestBody
body = buffered (codes "hello")

abbrev Headers : Type 0
Headers = List (Bytes × Bytes)

abbrev Run : Type 0
Run = Ending Headers × Progress ℕ Headers

-- How a run ends, which nodes it asked, and which nodes are alive then.
abbrev summary : Option Run → Option (Ending Headers × (List ℕ × List Bool))
summary none = none
summary (some (ending, q)) =
    some (ending, (map (λ s. s.node) q.sent, map (λ n. n.is_alive) q.target.upstreams))

-- The first node refuses and is marked dead, the second one serves.
fails_over :
    summary (handle_http_proxy assoc_headers uris world call target body [])
    ≡ some (passed_on 200 [], (1 ∷ 2 ∷ [], false ∷ true ∷ []))
unfolding handle_http_proxy new_node
fails_over = refl

-- The same for a gRPC call.
grpc_fails_over :
    summary (handle_grpc_passthrough assoc_headers uris world call target body [])
    ≡ some (passed_on 200 [], (1 ∷ 2 ∷ [], false ∷ true ∷ []))
unfolding handle_grpc_passthrough new_node
grpc_fails_over = refl

handle_ends_example :
    (r : Run) × (handle uris assoc_headers (http_policy assoc_headers) world call target body []
      ≡ some r)
    × (length r.1.sent ≤ 2)
    × (length r.1.sent ≤ 2)
    × All
        (λ s.
          (s.body ≡ body)
          × (s.headers
              ≡ (http_policy assoc_headers).wire_headers
                  (with_host uris assoc_headers s.target_uri [])))
        r.1.sent
handle_ends_example =
    handle_ends uris assoc_headers (http_policy assoc_headers) world call target body []

abbrev ended : Run
ended = elim (handle_http_proxy assoc_headers uris world call target body []) [
  | some r ↦ r
  | none ↦
      (uri_error, start uris assoc_headers (http_policy assoc_headers) world call target body [])
]

ends :
    handle uris assoc_headers (http_policy assoc_headers) world call target body []
    ≡ some (ended.0, ended.1)
unfolding handle http_policy new_node handle_http_proxy
ends = refl

keeps_uris : (k : ℕ) → KeepsUris uris (world.meanwhile k)
keeps_uris k t = refl

different : Distinct (uris_of target.upstreams)
unfolding new_node
different = omega arith

handle-Distinct_example :
    Distinct (map (λ s. s.node) ended.1.sent)
    × Within (map (λ s. s.node) ended.1.sent) (uris_of target.upstreams)
handle-Distinct_example =
    handle-Distinct uris assoc_headers (http_policy assoc_headers) world call target body [] ended.0
      ended.1 keeps_uris different (omega arith) ends

spares :
    (k uri : ℕ)
    → SparesClient
        (http_policy assoc_headers)
        (await_answer call.request_timeout (world.arrival k uri))
unfolding http_policy await_answer error_kind
spares k uri =
    elim (uri == 2)
      as (λ b.
        SparesClient (http_policy assoc_headers)
          (some (elim b [ true ↦ responded 200 [] | false ↦ broke none refused_connection ]))) [
            | true ↦ tt
            | false ↦ refl
          ]

builds : (uri : ℕ) → build_upstream_uri uris uri call.rest call.original_uri ≢ none
unfolding build_upstream_uri
builds uri e = cc

handle-healthy_example :
    (status : ℕ) × (answer : Headers) × (q : Progress ℕ Headers) × (handle uris assoc_headers
        (http_policy assoc_headers)
        world
        call
        target
        body
        []
      ≡ some (passed_on status ((http_policy assoc_headers).clean_headers answer), q))
    × ((http_policy assoc_headers).is_outlier status answer ≡ false)
unfolding http_policy await_answer new_node
handle-healthy_example =
    handle-healthy uris assoc_headers (http_policy assoc_headers) world call target body [] 2
      keeps_uris spares builds different (omega arith) refl refl (inr (inl refl)) (λ k. refl)

abbrev timed_out_write : ErrorLink
timed_out_write = record { srv = none; by_user = false; io = none; text = codes "timed out" }

classify_proxy_error-upstream_iff_example :
    (classify_proxy_error (record { is_connect = false; chain = timed_out_write ∷ [] })
      ≡ kind_upstream_failure)
    ↔ ((false ≡ true) ⊎ All IsUpstreamLink (timed_out_write ∷ []))
classify_proxy_error-upstream_iff_example =
    classify_proxy_error-upstream_iff (record { is_connect = false; chain = timed_out_write ∷ [] })
