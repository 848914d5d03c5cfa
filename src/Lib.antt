-- ===== src/Lib.antt =====
-- Verification library for praeco-rs, an API gateway and reverse proxy in Rust.
--
-- A request passes the connection tracker and, if it comes through a relay, the PROXY protocol
-- reader; then the layers that its server enables: the path sanitizer, the IP filter, the rate
-- limiter, the inspection of allowed paths, the authentication by token, the login of the identity
-- provider. The router sanitizes the path again, finds the route, checks the roles of the client,
-- prepares the headers, buffers a body that may be repeated, and hands the request to a handler,
-- which chooses a node of the route's target, whose circuit breaker counts the failures and lets
-- probes through. The library models these parts, each in a module:
--
-- - Circuit: `UpstreamNode` of server/src/configuration.rs, with the atomic fields of its circuit
--   breaker, and `ProbeGuard` of server/src/middleware/router/circuit_breaker.rs.
-- - Upstreams: `RouteTarget` of server/src/configuration.rs, above all `next_upstream` with its five
--   strategies, and `ConnectionGuard` of server/src/middleware/router/upstreams.rs. Stands on
--   Circuit.
-- - Failover: the loop of `handle_http_proxy` and `handle_grpc_passthrough`, in http_proxy.rs and
--   grpc_passthrough.rs of server/src/middleware/router, with `classify_proxy_error` and
--   `build_upstream_uri`. Stands on Upstreams, Circuit, RetryBody and ProxyHeaders.
-- - Router: `RouterService` of server/src/middleware/router/mod.rs: the health check and all of
--   `call`, which puts PathSanitizer, Rbac, ProxyHeaders, RetryBody and Failover together.
-- - Transcoding: `handle_grpc_web` of server/src/middleware/router/grpc_web.rs. Stands on Upstreams
--   and Failover, whose parts it uses.
-- - ProxyHeaders: server/src/middleware/router/headers.rs.
-- - BodyLimit, ConcurrencyLimit: the two limits of server/src/middleware/limit.rs.
-- - Http: methods, status codes and the interface of the header map, with an association list that
--   fills it.
-- - RetryBody: `buffer_body_up_to` and `PrefixedStreamBody` of
--   server/src/middleware/router/circuit_breaker.rs.
-- - Tracker: `ConnectionTracker` and its guards, server/src/connection_tracker.rs.
-- - Session: `SessionStore` of server/src/middleware/idp/session.rs.
-- - Jwt: the revocation store and the service of server/src/middleware/jwt.rs, and `verify_jwt` of
--   common/src/lib.rs.
-- - Idp: `POST /auth/revoke` of server/src/middleware/idp/mod.rs, on the revocation store of Jwt.
-- - RateLimiter: the keys and the fixed-window store of server/src/middleware/rate_limiter.rs.
-- - IpFilter: server/src/middleware/ip_filter.rs.
-- - PathSanitizer: server/src/middleware/path_sanitizer.rs.
-- - PathRules, Rbac, AllowedPaths: `CompiledRbac`, `MethodRules` and `CompiledAllowedPathes` of
--   server/src/configuration.rs, and server/src/middleware/router/rbac.rs.
-- - ProxyProtocol: common/src/proxy_protocol.rs.
-- - Relay: relay-server/src/main.rs, the relay in front of gateways behind a firewall. Register and
--   Tunnels: the control connections, as steps on a shared state; Hello and Route: what happens to a
--   client; Limits and Overlap: `RelayConnectionTracker`; Idle: the watchdog of a copying. Stands on
--   ProxyProtocol, whose reader gets what the relay writes.
-- - Net: IP addresses, `canonical_client_ip` of common/src/lib.rs, and what a request says of its
--   client. Tracker, Session, RateLimiter and IpFilter stand on it.
-- - DashMap: the interface of the concurrent map, with an association list that fills it.
-- - BigEndian: numbers as bytes, for ProxyProtocol and BodyLimit.
-- - Prelude: names of the libraries and the helpers that the modules share.
--
-- Conventions. A text is the list of its UTF-8 bytes, an address its number. A definition has the
-- name of the Rust item in snake case; a piece of a function that became a definition of its own
-- says so. A method that changes shared state takes the state and returns it with the result. Each
-- method is one step, and concurrent use is a sequence of steps in any order; Session.Overlap and
-- Relay.Overlap take the operations within a method as steps, where others can come between them. Times are arguments,
-- in seconds for the circuit breaker and in nanoseconds for the session store and the rate limiter;
-- in seconds for tokens too; so are the outcomes of random draws, of `try_lock` and of
-- `compare_exchange`. Machine words keep their width where the source lets them wrap or saturate;
-- the counts of one address and the sums of times are exact, since they would need 2^32 connections
-- or requests, or times past 2^64, to overflow.
--
-- Most recursion is structural. The failover loops
-- take as fuel one round more than they may retry, the loop over a frame of BodyLimit two rounds
-- for each byte; that this is enough is part of handle_ends, handle_grpc_web_ends and
-- scan-bytewise. `fill` of Relay takes the bytes that are missing, since a read gets one at least;
-- the 1024 of `read_line` is the bound of the code. `polled` of RetryBody takes the number of
-- polls, for which one more than the frames of the body is enough.
--
-- Code that is not in the repository is a parameter: `DashMap` with its laws, the regular
-- expressions, the descriptors of gRPC services and their JSON form, the parser of IP addresses,
-- the hash and the random draws of the load balancer, the header map and the URI of the `http`
-- crate, the router's table (`matchit`), the answers of the upstreams, the parser of the TLS hello.
-- The Unicode tables are one too. A hypothesis on one stands among the hypotheses of the theorem.
--
-- Not modelled: the servers and their sockets, TLS, the gRPC reflection query, the signatures of
-- tokens, the token bucket and the other users of floating-point numbers, the loading of
-- configuration files, the yamux streams of the relay, the clients; metrics, logs and the texts of
-- responses throughout.
mod Prelude
pub mod Circuit
pub mod Upstreams
pub mod DashMap
pub mod Net
pub mod Tracker
pub mod ProxyProtocol
pub mod Session
pub mod RateLimiter
pub mod PathSanitizer
pub mod PathRules
pub mod Rbac
pub mod AllowedPaths
pub mod IpFilter
pub mod RetryBody
pub mod Http
pub mod Failover
pub mod ProxyHeaders
pub mod BigEndian
pub mod BodyLimit
pub mod ConcurrencyLimit
pub mod Router
pub mod Transcoding
pub mod Jwt
pub mod Idp
pub mod Relay
