-- ===== src/Transcoding/Ends.antt =====
-- How often a transcoded call is sent, and to whom.
use praeco_rs.Prelude.{
  ℕ, zero, suc, ◌+◌, ◌≤◌, ◌<◌, ◌≡◌, refl, ap, sym, ◌∙◌, true, leb, Bool-cases, Option, none, some,
  List, [], ◌∷◌, ◌++◌, map, Bytes, length, length-append, append_assoc, append-nil, arith, inl, inr,
}
use praeco_rs.Upstreams.{RouteTarget}
use praeco_rs.Circuit.{UpstreamNode, record_latency_ms}
use praeco_rs.Failover.Nodes.{on_node}
use praeco_rs.Http.Headers.{HeaderMap}
use praeco_rs.Failover.Uris.{UriOps}
use praeco_rs.Transcoding.{
  Schema, Exchange, timed_out, unreachable, replied, CachedDescriptorPool, Web, Reply, panicked,
  Sent, Progress, Verdict, retry, finish, Checked, call_of, denied, node_failed, settle, send,
  dispatch, described, ask, attempt, go_on, attempts_from, start, handle_grpc_web, ended, Config,
  Call,
}

abbrev pub nodes_of : {Uri Map : Type 0} → List (Sent Uri Map) → List Uri
nodes_of sent = map (λ s. s.node) sent

failed_then :
    {Uri : Type 0} (new old : List Uri) (uri : Uri)
    → new ≡ old ++ []
    → new ++ uri ∷ [] ≡ old ++ uri ∷ []
failed_then new old uri e = ap (λ l. l ++ uri ∷ []) (e ∙ append-nil old)

nodes_of_snoc :
    {Uri Map : Type 0} (sent : List (Sent Uri Map)) (s : Sent Uri Map)
    → nodes_of (sent ++ s ∷ []) ≡ nodes_of sent ++ s.node ∷ []
nodes_of_snoc [] s = refl
nodes_of_snoc (x ∷ sent) s = ap (◌∷◌ x.node) (nodes_of_snoc sent s)

module _ {Uri Map Pool : Type 0} where
  -- What an attempt sends, and which of it failed.
  abbrev Sends : Progress Uri Map Pool → Progress Uri Map Pool → List Uri → List Uri → Type 0
  Sends p q asked failed =
      (nodes_of q.sent ≡ nodes_of p.sent ++ asked) × (q.failed_nodes ≡ p.failed_nodes ++ failed)

  abbrev Adds : Progress Uri Map Pool → Progress Uri Map Pool → List Uri → List Uri → Type 0
  Adds p q asked failed =
      (q.attempts ≡ suc p.attempts)
      × (nodes_of q.sent ≡ nodes_of p.sent ++ asked)
      × (q.failed_nodes ≡ p.failed_nodes ++ failed)

  abbrev Attempted : ℕ → Progress Uri Map Pool → Verdict Uri Map Pool → Type 0
  Attempted max_retries p (retry q) =
      (uri : Uri) × Adds p q (uri ∷ []) (uri ∷ []) × (leb q.attempts max_retries ≡ true)
  Attempted max_retries p (finish reply q) =
      (failed : List Uri) × (last : List Uri) × Sends p q (failed ++ last) failed
      × (length (failed ++ last) ≤ 1)

module _ {Uri Map Pool : Type 0} (uris : UriOps Uri) (max_retries : ℕ) where
  -- A finish that sends to the nodes of `last`, none of which failed.
  ended-Attempted :
      (uri : Uri) (reply : Reply) (last : List Uri) (p q : Progress Uri Map Pool)
      → Adds p q last []
      → length last ≤ 1
      → Attempted max_retries p (finish reply (ended uris uri q))
  unfolding ended
  ended-Attempted uri reply last p q a l = ([], last, (a.1, a.2), l)

  node_failed-Attempted :
      (uri : Uri) (now : ℕ) (p q : Progress Uri Map Pool)
      → Adds p q (uri ∷ []) []
      → Attempted max_retries p (node_failed uris max_retries uri now q)
  unfolding node_failed ended
  node_failed-Attempted uri now p q (ea, es, ef) = elim (Bool-cases (leb q.attempts max_retries)) [
    | inl again ↦ rw again (uri, (ea, es, failed_then q.failed_nodes p.failed_nodes uri ef), again)
    | inr over ↦
        rw over (uri ∷ [], [], (es, failed_then q.failed_nodes p.failed_nodes uri ef), omega arith)
  ]

module _ {Uri Ip Pool Desc Message : Type 0} (uris : UriOps Uri) (http : HeaderMap)
    (schema : Schema Pool Desc Message) (web : Web Uri Ip Pool) (config : Config http.Map)
    (call : Call Uri Ip) where
  settle-Attempted :
      (desc : Desc) (uri : Uri) (now : ℕ) (e : Exchange) (p q : Progress Uri http.Map Pool)
      → Adds p q (uri ∷ []) []
      → Attempted config.max_retries p (settle uris http schema web config call desc uri now e q)
  unfolding settle
  settle-Attempted desc uri now timed_out p q a =
      ended-Attempted uris config.max_retries uri panicked (uri ∷ []) p q a (omega arith)
  settle-Attempted desc uri now unreachable p q a =
      node_failed-Attempted uris config.max_retries uri now p q a
  settle-Attempted desc uri now (replied after_ms status collected) p q a =
      ended-Attempted uris config.max_retries uri panicked (uri ∷ []) p
        (record q { target = on_node uris uri (record_latency_ms after_ms) q.target }) a
        (omega arith)

  abbrev Opened : Progress Uri http.Map Pool → Progress Uri http.Map Pool → Type 0
  Opened p q = (q.attempts ≡ suc p.attempts) × (q.sent ≡ p.sent) × (q.failed_nodes ≡ p.failed_nodes)

  Opened-Adds : (p q : Progress Uri http.Map Pool) → Opened p q → Adds p q [] []
  Opened-Adds p q (ea, es, ef) = (ea, ap nodes_of es ∙ sym (append-nil _), ef ∙ sym (append-nil _))

  unsent-Attempted :
      (uri : Uri) (reply : Reply) (p q : Progress Uri http.Map Pool)
      → Opened p q
      → Attempted config.max_retries p (finish reply (ended uris uri q))
  unsent-Attempted uri reply p q o =
      ended-Attempted uris config.max_retries uri reply [] p q (Opened-Adds p q o) (omega arith)

  send-Attempted :
      (k : ℕ) (uri : Uri) (desc : Desc) (framed : Bytes) (target_uri : Option Uri)
      (p q : Progress Uri http.Map Pool)
      → Opened p q
      → Attempted config.max_retries p
          (send uris http schema web config call k uri desc framed target_uri q)
  unfolding send
  send-Attempted k uri desc framed none p q o = unsent-Attempted uri panicked p q o
  send-Attempted k uri desc framed (some target_uri) p q (ea, es, ef) =
      settle-Attempted desc uri _ _ p _ (
        ea,
        nodes_of_snoc q.sent _ ∙ ap (λ sent. nodes_of sent ++ uri ∷ []) es,
        ef ∙ sym (append-nil _),
      )

  dispatch-Attempted :
      (k : ℕ) (uri : Uri) (c : Checked Desc) (p q : Progress Uri http.Map Pool)
      → Opened p q
      → Attempted config.max_retries p (dispatch uris http schema web config call k uri c q)
  unfolding dispatch
  dispatch-Attempted k uri (denied reply) p q o = unsent-Attempted uri reply p q o
  dispatch-Attempted k uri (call_of service name desc framed) p q o =
      send-Attempted k uri desc framed _ p q o

  described-Attempted :
      (k : ℕ) (uri : Uri) (pool : Option Pool) (p q : Progress Uri http.Map Pool)
      → Opened p q
      → Attempted config.max_retries p (described uris http schema web config call k uri pool q)
  unfolding described
  described-Attempted k uri none p q o = unsent-Attempted uri panicked p q o
  described-Attempted k uri (some pool) p q o = dispatch-Attempted k uri _ p q o

  ask-Attempted :
      (n : Option (UpstreamNode Uri)) (target : RouteTarget Uri) (p : Progress Uri http.Map Pool)
      → Attempted config.max_retries p (ask uris http schema web config call p.attempts n target p)
  unfolding ask
  ask-Attempted none target p =
      ([], [], (sym (append-nil (nodes_of p.sent)), sym (append-nil p.failed_nodes)), omega arith)
  ask-Attempted (some n) target p = described-Attempted p.attempts n.uri _ p _ (refl, refl, refl)

  attempt-Attempted :
      (p : Progress Uri http.Map Pool)
      → Attempted config.max_retries p (attempt uris http schema web config call p)
  unfolding attempt
  attempt-Attempted p = ask-Attempted _ _ p

  -- All requests so far went to the failed nodes.
  abbrev IsOnTrack : Progress Uri http.Map Pool → Type 0
  IsOnTrack p = (nodes_of p.sent ≡ p.failed_nodes) × (length (nodes_of p.sent) ≤ p.attempts)

  abbrev pub IsEnded : Progress Uri http.Map Pool → Type 0
  IsEnded q =
      (length (nodes_of q.sent) ≤ suc config.max_retries)
      × ((last : List Uri) × (nodes_of q.sent ≡ q.failed_nodes ++ last) × (length last ≤ 1))

  finish-IsEnded :
      (reply : Reply) (p q : Progress Uri http.Map Pool)
      → IsOnTrack p
      → p.attempts ≤ config.max_retries
      → Attempted config.max_retries p (finish reply q)
      → IsEnded q
  finish-IsEnded reply p q (en, l) k (failed, last, (es, ef), one) =
      let joined : nodes_of q.sent ≡ q.failed_nodes ++ last =
        es
        ∙ ap (λ t. t ++ (failed ++ last)) en
        ∙ sym (append_assoc p.failed_nodes failed last)
        ∙ ap (λ t. t ++ last) (sym ef) in
      (
        omega (arith, length-append (nodes_of p.sent) (failed ++ last), ap length es),
        (last, joined, omega (arith, length-append failed last)),
      )

  retry-IsOnTrack :
      (p q : Progress Uri http.Map Pool)
      → IsOnTrack p
      → Attempted config.max_retries p (retry q)
      → IsOnTrack q × (q.attempts ≡ suc p.attempts) × (q.attempts ≤ config.max_retries)
  retry-IsOnTrack p q (en, l) (uri, (ea, es, ef), again) = (
    (
      es ∙ ap (λ t. t ++ uri ∷ []) en ∙ sym ef,
      omega (arith, length-append (nodes_of p.sent) (uri ∷ []), ap length es),
    ),
    ea,
    ground arith,
  )

  loop-IsEnded :
      (fuel : ℕ) (p : Progress Uri http.Map Pool)
      → config.max_retries < p.attempts + fuel
      → p.attempts ≤ config.max_retries
      → IsOnTrack p
      → (r : Reply × Progress Uri http.Map Pool) × (attempts_from uris http schema web config call
            fuel p
          ≡ some r)
        × IsEnded r.1
  unfolding attempts_from
  loop-IsEnded zero p enough k h = absurd (omega arith)
  loop-IsEnded (suc fuel) p enough k h =
      elim (attempt uris http schema web config call p)
          as (λ v.
            Attempted config.max_retries p v
            → (r : Reply × Progress Uri http.Map Pool) × (go_on
                  (attempts_from uris http schema web config call fuel) v
                ≡ some r)
              × IsEnded r.1) [
                | retry q ↦ λ a.
                    let (track, ea, room) = retry-IsOnTrack p q h a in
                    loop-IsEnded fuel q (omega arith) room track
                | finish reply q ↦ λ a. ((reply, q), refl, finish-IsEnded reply p q h k a)
              ]
        (attempt-Attempted p)

  -- The handler always ends, whatever the upstreams and the other requests do: it has sent at most
  -- one request more than `max_retries`, and all of them but the last one went to nodes that could
  -- not be reached, which are the failed nodes in their order.
  pub handle_grpc_web_ends :
      (target : RouteTarget Uri) (cache : Option (CachedDescriptorPool Pool)) (headers : http.Map)
      → (r : Reply × Progress Uri http.Map Pool) × (handle_grpc_web uris http schema web config call
            target cache headers
          ≡ some r)
        × (length (nodes_of r.1.sent) ≤ suc config.max_retries)
        × ((last : List Uri) × (nodes_of r.1.sent ≡ r.1.failed_nodes ++ last) × (length last ≤ 1))
  unfolding handle_grpc_web
  handle_grpc_web_ends target cache headers =
      let (r, e, (l, tail)) =
        loop-IsEnded (suc config.max_retries) (start target cache headers) (omega arith)
          (omega arith) (refl, omega arith) in
      (r, e, l, tail)
