-- ===== src/Upstreams.antt =====
-- The load-balanced target of a route: `LbStrategy`, `RouteTarget` of server/src/configuration.rs
-- and `ConnectionGuard` of server/src/middleware/router/upstreams.rs.
-- A URI is an unknown type with a Boolean equality. The gRPC descriptor cache of a target and its
-- lock are left out. `rand` and the hasher of sticky sessions enter by the record `Chance`.
pub mod Choice
pub mod Fresh
pub mod Guard
mod Examples
use praeco_rs.Prelude.{
  ℕ, ◌%◌, ◌<◌, Bool, true, false, not, ◌&&◌, ltb, leb, ◌==◌, if◌then◌else◌, Option, none, some,
  List, [], ◌∷◌, length, get_elem?, filter, any, is_empty, wrapping_add, wrapping_sub,
}
use praeco_rs.Circuit.{UpstreamNode, is_available}
use praeco_rs.Circuit

pub data LbStrategy : Type 0 where
  round_robin random least_connections sticky highest_score : LbStrategy

-- `gen_range n` is a draw from `0..n`, `any_usize` a draw from all of `usize`; `hash_ip` is the
-- standard hasher on a client's address.
pub record Chance (Ip : Type 0) : Type 0 where
  pub gen_range : ℕ → ℕ
  pub any_usize : ℕ
  pub hash_ip : Ip → ℕ
  pub gen_range-lt : (n : ℕ) → 0 < n → gen_range n < n

pub record RouteTarget (Uri : Type 0) : Type 0 where
  pub upstreams : List (UpstreamNode Uri)
  pub strategy : LbStrategy
  pub rr_counter : ℕ
  pub cooldown_seconds : ℕ
  pub max_retries : ℕ
  pub failure_threshold : ℕ
  pub max_retry_buffer_bytes : ℕ
  pub active_health_check_interval : ℕ

module _ {A : Type 0} where
  -- `Iterator::min_by_key` keeps the first of equal entries, `max_by_key` the last.
  min_from : (A → ℕ) → A → List A → A
  min_from key best [] = best
  min_from key best (x ∷ xs) = min_from key (if ltb (key x) (key best) then x else best) xs

  max_from : (A → ℕ) → A → List A → A
  max_from key best [] = best
  max_from key best (x ∷ xs) = max_from key (if leb (key best) (key x) then x else best) xs

  unfoldable pub min_by_key : (A → ℕ) → List A → Option A
  unfolding min_from
  min_by_key key [] = none
  min_by_key key (x ∷ xs) = some (min_from key x xs)

  unfoldable pub max_by_key : (A → ℕ) → List A → Option A
  unfolding max_from
  max_by_key key [] = none
  max_by_key key (x ∷ xs) = some (max_from key x xs)

module _ {Uri : Type 0} (uri_eq : Uri → Uri → Bool) where
  -- The loops over `upstreams` stop at the first node with the URI.
  unfoldable pub on_first :
      Uri
      → (UpstreamNode Uri → UpstreamNode Uri)
      → List (UpstreamNode Uri)
      → List (UpstreamNode Uri)
  on_first uri f [] = []
  on_first uri f (n ∷ ns) = if uri_eq n.uri uri then f n ∷ ns else n ∷ on_first uri f ns

  unfoldable pub find_first : Uri → List (UpstreamNode Uri) → Option (UpstreamNode Uri)
  find_first uri [] = none
  find_first uri (n ∷ ns) = if uri_eq n.uri uri then some n else find_first uri ns

  unfoldable pub mark_dead : ℕ → Uri → RouteTarget Uri → RouteTarget Uri
  unfolding on_first Circuit.mark_dead
  mark_dead now uri t = record t { upstreams = on_first uri (Circuit.mark_dead now) t.upstreams }

  unfoldable pub mark_alive : Uri → RouteTarget Uri → RouteTarget Uri
  unfolding on_first Circuit.mark_alive
  mark_alive uri t = record t { upstreams = on_first uri Circuit.mark_alive t.upstreams }

  unfoldable pub record_failure : ℕ → Uri → RouteTarget Uri → RouteTarget Uri × Bool
  unfolding on_first find_first Circuit.record_failure
  record_failure now uri t = (
    record t {
      upstreams =
          on_first uri (λ n. (Circuit.record_failure t.failure_threshold now n).0) t.upstreams;
    },
    elim (find_first uri t.upstreams) [
      | none ↦ false
      | some n ↦ (Circuit.record_failure t.failure_threshold now n).1
    ],
  )

  -- `ConnectionGuard::new` and `drop`.
  unfoldable pub open_connection : Uri → RouteTarget Uri → RouteTarget Uri
  unfolding on_first
  open_connection uri t = record t {
    upstreams =
        on_first uri
          (λ n. record n {
            active_connections = wrapping_add n.active_connections 1;
            total_requests = wrapping_add n.total_requests 1;
          })
          t.upstreams;
  }

  unfoldable pub close_connection : Uri → RouteTarget Uri → RouteTarget Uri
  unfolding on_first
  close_connection uri t = record t {
    upstreams =
        on_first uri (λ n. record n { active_connections = wrapping_sub n.active_connections 1 })
          t.upstreams;
  }

  -- The first filter of `next_upstream`.
  unfoldable pub is_usable : ℕ → List Uri → RouteTarget Uri → UpstreamNode Uri → Bool
  unfolding is_available
  is_usable now failed t n =
      is_available t.cooldown_seconds now n && not (any (uri_eq n.uri) failed)

  -- The candidates: the usable nodes, else those that have not failed this request, else all.
  unfoldable pub candidates : ℕ → List Uri → RouteTarget Uri → List (UpstreamNode Uri)
  unfolding is_usable
  candidates now failed t =
      let available = filter (is_usable now failed t) t.upstreams in
      let f1 = filter (λ n. not (any (uri_eq n.uri) failed)) t.upstreams in
      if not (is_empty available) then available else if is_empty f1 then t.upstreams else f1

  module _ {Ip : Type 0} (chance : Chance Ip) where
    unfoldable pub sticky_hash : Option Ip → ℕ
    sticky_hash none = chance.any_usize
    sticky_hash (some ip) = chance.hash_ip ip

    -- The `match` on the strategy; `none` is a panic, on an empty slice only.
    unfoldable pub pick :
        LbStrategy → ℕ → Option Ip → List (UpstreamNode Uri) → Option (UpstreamNode Uri)
    unfolding min_by_key max_by_key sticky_hash
    pick round_robin count client slice = get_elem? slice (count % length slice)
    pick random count client slice = get_elem? slice (chance.gen_range (length slice))
    pick least_connections count client slice = min_by_key (λ n. n.active_connections) slice
    pick sticky count client slice = get_elem? slice (sticky_hash client % length slice)
    pick highest_score count client slice = max_by_key (λ n. n.current_score) slice

    abbrev pub counts : LbStrategy → Bool
    counts round_robin = true
    counts _ = false

    -- The chosen node, and the target with its round-robin counter moved on where it was used.
    unfoldable pub next_upstream :
        ℕ → Option Ip → List Uri → RouteTarget Uri → Option (UpstreamNode Uri) × RouteTarget Uri
    unfolding candidates pick
    next_upstream now client failed t =
        if length t.upstreams == 1
        then (get_elem? t.upstreams 0, t)
        else let slice = candidates now failed t in
          if length slice == 1 then (get_elem? slice 0, t) else (
            pick t.strategy t.rr_counter client slice,
            if counts t.strategy then record t { rr_counter = wrapping_add t.rr_counter 1 } else t,
          )
