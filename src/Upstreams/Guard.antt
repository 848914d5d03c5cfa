-- ===== src/Upstreams/Guard.antt =====
-- The connection counters of a target, and its round-robin counter.
use praeco_rs.Prelude.{◌<◌, ◌≡◌, refl, Bool, List, [], ◌∷◌, map, All, arith, u64_mod}
use praeco_rs.Circuit.{UpstreamNode}
use praeco_rs.Upstreams.{RouteTarget, on_first, open_connection, close_connection}

-- No connection counter is out of the range of `usize`.
abbrev pub InRange : {Uri : Type 0} → List (UpstreamNode Uri) → Type 0
InRange ns = All (λ n. n.active_connections < u64_mod) ns

module _ {Uri : Type 0} (uri_eq : Uri → Uri → Bool) where
  close-open_first :
      (uri : Uri) (f g : UpstreamNode Uri → UpstreamNode Uri) (ns : List (UpstreamNode Uri))
      → ((n : UpstreamNode Uri) → (f n).uri ≡ n.uri)
      → ((n : UpstreamNode Uri)
          → n.active_connections < u64_mod
          → (g (f n)).active_connections ≡ n.active_connections)
      → InRange ns
      → map (λ n. n.active_connections) (on_first uri_eq uri g (on_first uri_eq uri f ns))
        ≡ map (λ n. n.active_connections) ns
  unfolding on_first
  close-open_first uri f g [] keep back h = refl
  close-open_first uri f g (n ∷ ns) keep back h =
      ground (arith, keep n, back n h.0, close-open_first uri f g ns keep back h.1)

  -- A connection guard that is created and dropped leaves every node of the target with the number
  -- of active connections that it had, if these numbers fit in a `usize`.
  close_connection-open_connection :
      (uri : Uri) (t : RouteTarget Uri)
      → InRange t.upstreams
      → map
          (λ n. n.active_connections)
          (close_connection uri_eq uri (open_connection uri_eq uri t)).upstreams
        ≡ map (λ n. n.active_connections) t.upstreams
  unfolding open_connection close_connection
  close_connection-open_connection uri t h =
      close-open_first uri _ _ t.upstreams (λ n. refl) (λ n k. omega arith) h
