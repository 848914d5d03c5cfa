-- ===== src/Router/Retries.antt =====
-- How often a request that the router hands on goes out, and with what body: the router, the retry
-- buffer and the failover loop together.
use praeco_rs.Prelude.{
  ℕ, suc, ◌+◌, ◌≤◌, ◌<◌, max, ◌≡◌, ◌≢◌, ◌⊎◌, inl, inr, refl, subst, ap, Bool, true, false, ltb,
  Option, some, List, [], ◌∷◌, Bytes, not, ◌||◌, ◌&&◌, ◌==◌, if◌then◌else◌, length, All, u64_mod,
  arith,
}
use praeco_rs.Upstreams.{RouteTarget}
use praeco_rs.RetryBody.{Item, PrefixedStreamBody, RequestBody, buffered, stream}
use praeco_rs.RetryBody.Replay.{data_of, IsWhole}
use praeco_rs.RetryBody.Buffered.{buffer_body_up_to-IsHeld}
use praeco_rs.Http.{Method, is_idempotent}
use praeco_rs.Http.Headers.{HeaderMap}
use praeco_rs.Failover.{handle}
use praeco_rs.Failover.Uris.{UriOps}
use praeco_rs.Failover.Request.{Call, Policy, World, Sent, Progress, Ending, is_stream}
use praeco_rs.Failover.Attempts.{handle_ends, handle-repeats}
use praeco_rs.Failover.Http.{handle_http_proxy, http_policy}
use praeco_rs.Failover.Grpc.{handle_grpc_passthrough, grpc_policy}
use praeco_rs.ProxyHeaders.{Codec}
use praeco_rs.Router.{
  RouteBackendType, rest, grpc_transcoding, grpc_passthrough, admin, ParsedRoute, RouterService,
  Request, Forward, dispatched, call, proxy_by, proxy, call_of, request_body, can_stream,
  is_transcoding, is_passthrough,
}
use praeco_rs.Router.Guards.{call-dispatched}

-- All bodies that went out are the same.
abbrev pub HaveBody : {Uri Map : Type 0} → RequestBody → List (Sent Uri Map) → Type 0
HaveBody body sent = All (λ s. s.body ≡ body) sent

module _ {Uri Ip : Type 0} (uris : UriOps Uri) (http : HeaderMap) (policy : Policy http.Map)
    (world : World Uri Ip http.Map) (c : Call Uri Ip) (target : RouteTarget Uri)
    (body : RequestBody) (headers : http.Map) where
  All-HaveBody :
      (P : Sent Uri http.Map → Type 0) (sent : List (Sent Uri http.Map))
      → All (λ s. (s.body ≡ body) × P s) sent
      → HaveBody body sent
  All-HaveBody P [] h = tt
  All-HaveBody P (s ∷ sent) ((e, p), h) = (e, All-HaveBody P sent h)

  handle-repeated :
      (ending : Ending http.Map) (q : Progress Uri http.Map)
      → handle uris http policy world c target body headers ≡ some (ending, q)
      → 1 < length q.sent
      → (is_stream body ≡ false)
        × (policy.is_repeatable c.method ≡ true)
        × (1 < length target.upstreams)
        × (length q.sent ≤ suc target.max_retries)
        × HaveBody body q.sent
  handle-repeated ending q e many =
      let (r, er, a, b, all) = handle_ends uris http policy world c target body headers in
      let (still, may) =
        handle-repeats uris http policy world c target body headers ending q e many in
      let same : r.1 ≡ q = cc in
      let one : length q.sent ≤ suc target.max_retries =
        subst (λ t. length t.sent ≤ suc target.max_retries) same a in
      let two : length q.sent ≤ max 1 (length target.upstreams) =
        subst (λ t. length t.sent ≤ max 1 (length target.upstreams)) same b in
      (
        still,
        may,
        ground arith,
        one,
        subst (λ t. HaveBody body t.sent) same (All-HaveBody _ r.1.sent all),
      )

abbrev IsHeldBy : {Uri : Type 0} → ParsedRoute Uri → Method → List Item → RequestBody → Type 0
IsHeldBy route method items body =
    (route.target.max_retries ≢ 0)
    × ((is_passthrough route.backend_type ≡ true) ⊎ (is_idempotent method ≡ true))
    × IsWhole items
    × (body ≡ buffered (data_of items))
    × (length (data_of items) ≤ route.target.max_retry_buffer_bytes)

held_by_test :
    (st tr : Bool) (p : PrefixedStreamBody) (y z : Option RequestBody) (bytes : Bytes)
    → (if st then some (stream p) else if tr then y else z) ≡ some (buffered bytes)
    → tr ≡ false
    → (st ≡ false) × (z ≡ some (buffered bytes))
held_by_test true tr p y z bytes e t = absurd (ground (arith, e))
held_by_test false true p y z bytes e t = absurd (ground (arith, t))
held_by_test false false p y z bytes e t = (refl, e)

repeatable_by_test :
    (many none_left passing repeatable exceeds tr : Bool)
    → ((not many || none_left || (not passing && not repeatable) || exceeds) && not tr) ≡ false
    → tr ≡ false
    → (none_left ≡ false) × ((passing ≡ true) ⊎ (repeatable ≡ true))
repeatable_by_test many none_left passing repeatable exceeds tr e t = ground arith

module _ {Uri : Type 0} (route : ParsedRoute Uri) (method : Method) (exceeds : Bool)
    (items : List Item) where
  request_body-IsHeldBy :
      (body : RequestBody)
      → route.target.max_retry_buffer_bytes + 1 < u64_mod
      → is_transcoding route.backend_type ≡ false
      → request_body route method exceeds items ≡ some body
      → is_stream body ≡ false
      → IsHeldBy route method items body
  unfolding request_body can_stream
  request_body-IsHeldBy (stream p) m t e h = absurd (ground (arith, h))
  request_body-IsHeldBy (buffered bytes) m t e h =
      let (held, eb) = held_by_test (can_stream route method exceeds) _ _ _ _ bytes e t in
      let (left, may) =
        repeatable_by_test (ltb 1 (length route.target.upstreams)) (route.target.max_retries == 0)
          (is_passthrough route.backend_type) (is_idempotent method) exceeds
          (is_transcoding route.backend_type) held t in
      let (whole, same, fits) = buffer_body_up_to-IsHeld items _ bytes m eb in
      (
        ground (arith, left),
        may,
        whole,
        ap buffered same,
        subst (λ b. length b ≤ route.target.max_retry_buffer_bytes) same fits,
      )

module _ {Uri Ip : Type 0} (uris : UriOps Uri) (http : HeaderMap) (codec : Codec)
    (s : RouterService Uri) (req : Request Uri http.Map) (world : World Uri Ip http.Map)
    (client_addr : Option Ip) where
  abbrev IsRepeated : Forward Uri http.Map → Progress Uri http.Map → Type 0
  IsRepeated f q =
      (1 < length f.route.target.upstreams)
      × (length q.sent ≤ suc f.route.target.max_retries)
      × (f.route.target.max_retries ≢ 0)
      × IsWhole req.body
      × (length (data_of req.body) ≤ f.route.target.max_retry_buffer_bytes)
      × HaveBody (buffered (data_of req.body)) q.sent

  handled-IsRepeated :
      (policy : Policy http.Map) (now : ℕ) (f : Forward Uri http.Map) (ending : Ending http.Map)
      (q : Progress Uri http.Map)
      → f.route.target.max_retry_buffer_bytes + 1 < u64_mod
      → call uris http codec s now req ≡ dispatched f
      → is_transcoding f.route.backend_type ≡ false
      → handle uris http policy world
          (call_of uris http client_addr f)
          f.route.target
          f.body
          f.headers
        ≡ some (ending, q)
      → 1 < length q.sent
      → (policy.is_repeatable req.method ≡ true) × IsRepeated f q
  handled-IsRepeated policy now f ending q m e t eh many =
      let (c, a, n, (em, ep, eb)) = call-dispatched uris http codec s req now f e in
      let (still, may, several, bound, bodies) =
        handle-repeated uris http policy world (call_of uris http client_addr f) f.route.target
          f.body f.headers ending q eh many in
      let (left, able, whole, same, fits) =
        request_body-IsHeldBy f.route f.method _ req.body f.body m t eb still in
      (
        subst (λ x. policy.is_repeatable x ≡ true) em may,
        (several, bound, left, whole, fits, subst (λ b. HaveBody b q.sent) same bodies),
      )

  proxy_by-IsRepeated :
      (b : RouteBackendType) (now : ℕ) (f : Forward Uri http.Map) (ending : Ending http.Map)
      (q : Progress Uri http.Map)
      → f.route.target.max_retry_buffer_bytes + 1 < u64_mod
      → call uris http codec s now req ≡ dispatched f
      → f.route.backend_type ≡ b
      → proxy_by uris http world client_addr f b ≡ some (some (ending, q))
      → 1 < length q.sent
      → ((b ≡ grpc_passthrough) ⊎ (is_idempotent req.method ≡ true)) × IsRepeated f q
  unfolding proxy_by handle_http_proxy handle_grpc_passthrough
  proxy_by-IsRepeated grpc_transcoding now f ending q m e eb ep many = absurd (ground (arith, ep))
  proxy_by-IsRepeated admin now f ending q m e eb ep many = absurd (ground (arith, ep))
  proxy_by-IsRepeated rest now f ending q m e eb ep many =
      let (may, h) =
        handled-IsRepeated (http_policy http) now f ending q m e (rw eb refl) (cc) many in
      (inr (unfold http_policy in may), h)
  proxy_by-IsRepeated grpc_passthrough now f ending q m e eb ep many =
      let (may, h) =
        handled-IsRepeated (grpc_policy http) now f ending q m e (rw eb refl) (cc) many in
      (inl refl, h)

  -- A request that the router hands on is sent a second time only over a gRPC passthrough route or
  -- with an idempotent method, on a route with several nodes and retries; its body came whole and
  -- fits the retry buffer, whose size is below 2^64 - 1; at most `max_retries` more requests go out,
  -- and each of them carries all the data of the client's body.
  pub proxy-repeats :
      (now : ℕ) (f : Forward Uri http.Map) (ending : Ending http.Map) (q : Progress Uri http.Map)
      → f.route.target.max_retry_buffer_bytes + 1 < u64_mod
      → call uris http codec s now req ≡ dispatched f
      → proxy uris http world client_addr f ≡ some (some (ending, q))
      → 1 < length q.sent
      → ((f.route.backend_type ≡ grpc_passthrough) ⊎ (is_idempotent req.method ≡ true))
        × (1 < length f.route.target.upstreams)
        × (length q.sent ≤ suc f.route.target.max_retries)
        × (f.route.target.max_retries ≢ 0)
        × IsWhole req.body
        × (length (data_of req.body) ≤ f.route.target.max_retry_buffer_bytes)
        × HaveBody (buffered (data_of req.body)) q.sent
  unfolding proxy
  proxy-repeats now f ending q m e ep many =
      let (may, h) = proxy_by-IsRepeated f.route.backend_type now f ending q m e refl ep many in
      (may, h.0, h.1, h.2, h.3, h.4, h.5)
