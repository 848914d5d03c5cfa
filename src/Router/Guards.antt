-- ===== src/Router/Guards.antt =====
-- What a request has passed before it reaches a handler.
use praeco_rs.Prelude.{
  ℕ, ◌≡◌, ◌≢◌, refl, Bool-cases, inl, inr, Option, none, some, Bytes, ◌++◌, bytes_eq, codes, arith,
  ◌&&◌, subst, sym,
}
use praeco_rs.PathSanitizer.{Outcome, clean, rejected, panicked, sanitize_and_normalize_path}
use praeco_rs.PathSanitizer.Uris.{rebuilt, with_path, sanitize_and_normalize_uri}
use praeco_rs.PathSanitizer.Total.{sanitize_and_normalize_path_total}
use praeco_rs.Rbac.{Verdict, allowed, forbidden, enforce_rbac}
use praeco_rs.Http.{Method}
use praeco_rs.Http.Headers.{HeaderMap}
use praeco_rs.ProxyHeaders.{
  Codec, Prepared, prepared, refused, prepare_proxy_headers, inject_real_ip,
}
use praeco_rs.RetryBody.{RequestBody}
use praeco_rs.Failover.Uris.{UriOps, query_suffix}
use praeco_rs.Router.{
  RouteBackendType, rest, grpc_transcoding, grpc_passthrough, admin, ParsedRoute, RouterService,
  Request, Forward, Action, answered, administered, dispatched, failed, request_body,
  host_from_authority, content_length_exceeds_retry_buf, forward, with_headers, to_backend,
  admitted, on_route, on_path, call, is_get,
}

module _ {Uri : Type 0} (uris : UriOps Uri) (http : HeaderMap) (codec : Codec)
    (s : RouterService Uri) (req : Request Uri http.Map) where
  -- The headers that are prepared: the request's, with its real address and a host.
  abbrev pub own_headers : Uri → http.Map
  own_headers uri =
      host_from_authority uris http uri (inject_real_ip http codec req.verified.addr req.headers)

  abbrev pub IsHandled : ParsedRoute Uri → Forward Uri http.Map → Type 0
  IsHandled route f =
      (f.method ≡ req.method)
      × (prepare_proxy_headers http codec s.server s.jwt_token req.verified (own_headers f.uri)
          ≡ prepared f.headers)
      × (request_body f.route f.method
            (content_length_exceeds_retry_buf http f.route.target.max_retry_buffer_bytes f.headers)
            req.body
          ≡ some f.body)

  -- The request's clean URI, the route of its path, and that the route lets the client in.
  abbrev pub IsAdmitted : Uri → ParsedRoute Uri → Option Bytes → Type 0
  IsAdmitted uri route sub_path =
      (s.at (uris.path uri) ≡ some (route, sub_path))
      × (enforce_rbac (uris.path uri) req.roles route.allowed_roles s.compiled_rbac ≡ allowed)

  abbrev Guarded : Uri → Action Uri http.Map → Type 0
  Guarded uri (answered response) = Unit
  Guarded uri failed = ⊥
  Guarded uri (administered method u headers) =
      (u ≡ uri)
      × ((route : ParsedRoute Uri) × (sub_path : Option Bytes) × IsAdmitted u route sub_path
          × (route.backend_type ≡ admin))
  Guarded uri (dispatched f) =
      (f.uri ≡ uri)
      × IsAdmitted f.uri f.route f.sub_path
      × (f.route.backend_type ≢ admin)
      × IsHandled f.route f

  forward-Guarded :
      (uri : Uri) (route : ParsedRoute Uri) (sub_path : Option Bytes) (headers : http.Map)
      (body : Option RequestBody)
      → prepare_proxy_headers http codec s.server s.jwt_token req.verified (own_headers uri)
        ≡ prepared headers
      → request_body route req.method
          (content_length_exceeds_retry_buf http route.target.max_retry_buffer_bytes headers)
          req.body
        ≡ body
      → IsAdmitted uri route sub_path
      → route.backend_type ≢ admin
      → Guarded uri (forward uris http codec s req route sub_path uri headers body)
  unfolding forward
  forward-Guarded uri route sub_path headers none ep eb a n = tt
  forward-Guarded uri route sub_path headers (some body) ep eb a n = (refl, a, n, (refl, ep, eb))

  with_headers-Guarded :
      (uri : Uri) (route : ParsedRoute Uri) (sub_path : Option Bytes) (p : Prepared http.Map)
      → prepare_proxy_headers http codec s.server s.jwt_token req.verified (own_headers uri) ≡ p
      → IsAdmitted uri route sub_path
      → route.backend_type ≢ admin
      → Guarded uri (with_headers uris http codec s req route sub_path uri p)
  unfolding with_headers
  with_headers-Guarded uri route sub_path (refused response) ep a n = tt
  with_headers-Guarded uri route sub_path (prepared headers) ep a n =
      forward-Guarded uri route sub_path headers _ ep refl a n

  admitted-Guarded :
      (uri : Uri) (route : ParsedRoute Uri) (sub_path : Option Bytes) (b : RouteBackendType)
      (v : Verdict)
      → route.backend_type ≡ b
      → enforce_rbac (uris.path uri) req.roles route.allowed_roles s.compiled_rbac ≡ v
      → s.at (uris.path uri) ≡ some (route, sub_path)
      → Guarded uri (
          admitted uris http codec s req uri
            (inject_real_ip http codec req.verified.addr req.headers)
            route
            sub_path
            b
            v)
  unfolding admitted to_backend
  admitted-Guarded uri route sub_path b forbidden eb ev em = tt
  admitted-Guarded uri route sub_path admin allowed eb ev em =
      (refl, (route, sub_path, (em, ev), eb))
  admitted-Guarded uri route sub_path rest allowed eb ev em =
      with_headers-Guarded uri route sub_path _ refl (em, ev) (ground (arith, eb))
  admitted-Guarded uri route sub_path grpc_transcoding allowed eb ev em =
      with_headers-Guarded uri route sub_path _ refl (em, ev) (ground (arith, eb))
  admitted-Guarded uri route sub_path grpc_passthrough allowed eb ev em =
      with_headers-Guarded uri route sub_path _ refl (em, ev) (ground (arith, eb))

  on_route-Guarded :
      (uri : Uri) (matched : Option (ParsedRoute Uri × Option Bytes))
      → s.at (uris.path uri) ≡ matched
      → Guarded uri (
          on_route uris http codec s req uri
            (inject_real_ip http codec req.verified.addr req.headers)
            matched)
  unfolding on_route
  on_route-Guarded uri none em = tt
  on_route-Guarded uri (some (route, sub_path)) em =
      admitted-Guarded uri route sub_path _ _ refl refl em

  -- The URI with its path in canonical form.
  abbrev pub IsClean : Uri → Type 0
  IsClean uri =
      (path : Bytes) × (sanitize_and_normalize_path (uris.path req.uri) ≡ clean path)
      × (uris.with_path_and_query (path ++ query_suffix (uris.query req.uri)) req.uri ≡ some uri)

  abbrev Reached : Action Uri http.Map → Type 0
  Reached (answered response) = Unit
  Reached failed = ⊥
  Reached (administered method uri headers) =
      IsClean uri × Guarded uri (administered method uri headers)
  Reached (dispatched f) = IsClean f.uri × Guarded f.uri (dispatched f)

  Guarded-Reached : (uri : Uri) (a : Action Uri http.Map) → IsClean uri → Guarded uri a → Reached a
  Guarded-Reached uri (answered response) c g = tt
  Guarded-Reached uri failed c g = g
  Guarded-Reached uri (administered method u headers) c g = (subst IsClean (sym g.0) c, (refl, g.1))
  Guarded-Reached uri (dispatched f) c (same, a, n, h) =
      (subst IsClean (sym same) c, (refl, a, n, h))

  rebuilt-Reached :
      (path : Bytes) (o : Option Uri)
      → sanitize_and_normalize_path (uris.path req.uri) ≡ clean path
      → uris.with_path_and_query (path ++ query_suffix (uris.query req.uri)) req.uri ≡ o
      → Reached (
          on_path uris http codec s req
            (inject_real_ip http codec req.verified.addr req.headers)
            (rebuilt o))
  unfolding on_path rebuilt
  rebuilt-Reached path none ep eo = tt
  rebuilt-Reached path (some uri) ep eo =
      Guarded-Reached uri _ (path, ep, eo) (on_route-Guarded uri _ refl)

  on_path-Reached :
      (o : Outcome Bytes)
      → sanitize_and_normalize_path (uris.path req.uri) ≡ o
      → Reached (
          on_path uris http codec s req
            (inject_real_ip http codec req.verified.addr req.headers)
            (with_path uris req.uri o))
  unfolding on_path with_path
  on_path-Reached panicked e = sanitize_and_normalize_path_total (uris.path req.uri) e
  on_path-Reached (rejected error) e = tt
  on_path-Reached (clean path) e = rebuilt-Reached path _ e refl

  call-Reached : (now : ℕ) → Reached (call uris http codec s now req)
  unfolding call sanitize_and_normalize_uri
  call-Reached now =
      elim (Bool-cases (bytes_eq (uris.path req.uri) (codes "/health") && is_get req.method)) [
        | inl health ↦ rw health tt
        | inr other ↦ rw other (on_path-Reached _ refl)
      ]

  -- A request that is handed to a handler has a URI whose path the sanitizer made; its route is the
  -- route of that path, lets the client in and is no administration route; its headers are
  -- prepared, without a loop; and its body is what `request_body` makes of the client's: the stream
  -- as it comes, unread, where the route and the method allow that, or a body that was read without
  -- an error.
  pub call-dispatched :
      (now : ℕ) (f : Forward Uri http.Map)
      → call uris http codec s now req ≡ dispatched f
      → IsClean f.uri
        × IsAdmitted f.uri f.route f.sub_path
        × (f.route.backend_type ≢ admin)
        × IsHandled f.route f
  call-dispatched now f e =
      let (c, (same, a, n, h)) = subst Reached e (call-Reached now) in (c, a, n, h)

  -- A request reaches the administration interface only with a URI whose path the sanitizer made,
  -- over an administration route of that path, which lets the client in.
  pub call-administered :
      (now : ℕ) (method : Method) (uri : Uri) (headers : http.Map)
      → call uris http codec s now req ≡ administered method uri headers
      → IsClean uri
        × ((route : ParsedRoute Uri) × (sub_path : Option Bytes) × IsAdmitted uri route sub_path
            × (route.backend_type ≡ admin))
  call-administered now method uri headers e =
      let (c, (same, a)) = subst Reached e (call-Reached now) in (c, a)
