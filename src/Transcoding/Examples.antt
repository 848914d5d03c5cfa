-- ===== src/Transcoding/Examples.antt =====
-- A service that echoes, behind a dead and a healthy node, and the theorems at it.
use praeco_rs.Prelude.{
  ℕ, ◌≡◌, ◌<◌, ◌≤◌, refl, true, false, Option, none, some, List, [], ◌∷◌, ◌++◌, suc, length, codes,
  Bytes, bytes_eq, bytes_eq_iff, arith, ◌==◌,
}
use praeco_rs.Circuit.{new_node}
use praeco_rs.Upstreams.{Chance, RouteTarget, round_robin}
use praeco_rs.RetryBody.{buffered}
use praeco_rs.Http.{post, get}
use praeco_rs.Http
use praeco_rs.Http.Store.{assoc_headers}
use praeco_rs.Failover.Uris.{UriOps}
use praeco_rs.Transcoding.{
  Schema, found, Exchange, unreachable, replied, whole, Web, Config, Call, Reply, transcoded,
  refused, Progress, handle_grpc_web, reply,
}
use praeco_rs.Transcoding.Frame.{grpc_frame}
use praeco_rs.Transcoding.Ends.{nodes_of, handle_grpc_web_ends}
use praeco_rs.Transcoding.Roundtrip.{reply-grpc_frame}

-- A node is a text without a path, which goes in front of the path.
abbrev uris : UriOps Bytes
uris = record {
  same = bytes_eq;
  path = λ u. u;
  query = λ u. none;
  authority = λ u. some u;
  with_path_and_query = λ path u. some (u ++ path);
  same_iff = bytes_eq_iff;
}

abbrev schema : Schema ℕ ℕ Bytes
schema = record {
  lookup = λ pool service method. found 1;
  read_json = λ desc bytes. some bytes;
  encode = λ message. some message;
  decode = λ desc bytes. some bytes;
  write_json = λ message. some message;
}

first_draw-lt : (n : ℕ) → 0 < n → 0 < n
first_draw-lt n h = h

abbrev chance : Chance ℕ
chance = record {
  gen_range = λ n. 0;
  any_usize = 5;
  hash_ip = λ ip. ip;
  gen_range-lt = first_draw-lt;
}

-- The first attempt finds no one, the second one is echoed.
abbrev exchange : ℕ → Bytes → Bytes → Exchange
exchange k uri framed = elim (k == 0) [ true ↦ unreachable | false ↦ replied 7 200 (whole framed) ]

abbrev web : Web Bytes ℕ ℕ
web = record {
  chance = λ k. chance;
  clock = λ k. 100;
  build_grpc_pool = λ k uri. some 3;
  others = λ k cache. cache;
  exchange = exchange;
}

abbrev config : Config (List (Bytes × Bytes))
config = record { inject_context = λ headers. headers; reflection_ttl = 600; max_retries = 1 }

abbrev call : Call Bytes ℕ
call = record {
  method = post;
  original_uri = codes "/echo.Echo/Say";
  client_addr = none;
  body = buffered (codes "hi");
}

abbrev target : RouteTarget Bytes
target = record {
  upstreams = new_node (codes "a") ∷ new_node (codes "b") ∷ [];
  strategy = round_robin;
  rr_counter = 0;
  cooldown_seconds = 10;
  max_retries = 1;
  failure_threshold = 3;
  max_retry_buffer_bytes = 8;
  active_health_check_interval = 0;
}

abbrev Run : Type 0
Run = Reply × Progress Bytes (List (Bytes × Bytes)) ℕ

abbrev summary : Option Run → Option (Reply × (List Bytes × List Bytes))
summary none = none
summary (some (reply, q)) = some (reply, (nodes_of q.sent, q.failed_nodes))

fails_over :
    summary (handle_grpc_web uris assoc_headers schema web config call target none [])
    ≡ some (transcoded (codes "hi"), (codes "a" ∷ codes "b" ∷ [], codes "a" ∷ []))
unfolding handle_grpc_web new_node
fails_over = refl

-- A `GET` is refused before anything is sent.
refuses_get :
    summary (
      handle_grpc_web uris assoc_headers schema web config
        (record call { method = get })
        target
        none
        [])
    ≡ some (
      refused (record {
        status = Http.bad_request;
        grpc_status = none;
        message = codes "Please use POST /Fully.Qualified.Service/Method for gRPC";
      }),
      ([], []),
    )
unfolding handle_grpc_web new_node
refuses_get = refl

handle_grpc_web_ends_example :
    (r : Run) × (handle_grpc_web uris assoc_headers schema web config call target none [] ≡ some r)
    × (length (nodes_of r.1.sent) ≤ suc 1)
    × ((last : List Bytes) × (nodes_of r.1.sent ≡ r.1.failed_nodes ++ last) × (length last ≤ 1))
handle_grpc_web_ends_example =
    handle_grpc_web_ends uris assoc_headers schema web config call target none []

short : length (grpc_frame (codes "hi") ++ codes "more") ≤ 16777216
unfolding grpc_frame
short = omega arith

reply-grpc_frame_example :
    reply schema 1 Http.ok (whole (grpc_frame (codes "hi") ++ codes "more"))
    ≡ transcoded (codes "hi")
reply-grpc_frame_example =
    reply-grpc_frame schema 1 (codes "hi") (codes "hi") (codes "hi") (codes "more") refl refl short
