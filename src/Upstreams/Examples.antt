-- ===== src/Upstreams/Examples.antt =====
-- Choices of an upstream, and the theorems about them at a concrete target.
use praeco_rs.Prelude.{ℕ, ◌<◌, ◌≡◌, refl, inl, inr, Bool, true, false, none, some, [], ◌∷◌, ◌==◌}
use praeco_rs.Circuit.{UpstreamNode, new_node}
use praeco_rs.Circuit
use praeco_rs.Upstreams.{
  LbStrategy, round_robin, random, least_connections, highest_score, Chance, RouteTarget,
  next_upstream, is_usable,
}
use praeco_rs.Upstreams.Choice.{next_upstream-usable}

abbrev same : ℕ → ℕ → Bool
same a b = a == b

first_draw-lt : (n : ℕ) → 0 < n → 0 < n
first_draw-lt n h = h

abbrev chance : Chance ℕ
chance = record {
  gen_range = λ n. 0;
  any_usize = 5;
  hash_ip = λ ip. ip;
  gen_range-lt = first_draw-lt;
}

abbrev node : ℕ → ℕ → UpstreamNode ℕ
node uri active = record {
  uri = uri;
  active_connections = active;
  is_alive = true;
  last_failure_time = 0;
  current_score = uri;
  consecutive_failures = 0;
  circuit_state = 0;
  half_open_probe_in_flight = false;
  total_requests = 0;
  total_failures = 0;
  circuit_trips = 0;
  failover_retries = 0;
  last_response_ms = 0;
  ema_response_ms = 0;
}

abbrev down : UpstreamNode ℕ
down = Circuit.mark_dead 100 (node 1 0)

abbrev target : LbStrategy → RouteTarget ℕ
target strategy = record {
  upstreams = down ∷ node 2 9 ∷ node 3 4 ∷ [];
  strategy = strategy;
  rr_counter = 1;
  cooldown_seconds = 10;
  max_retries = 2;
  failure_threshold = 3;
  max_retry_buffer_bytes = 65536;
  active_health_check_interval = 0;
}

strategies_choose :
    ((next_upstream same chance 105 none [] (target round_robin)).0 ≡ some (node 3 4))
    × ((next_upstream same chance 105 none [] (target least_connections)).0 ≡ some (node 3 4))
    × ((next_upstream same chance 105 none [] (target random)).0 ≡ some (node 2 9))
    × ((next_upstream same chance 105 none (3 ∷ []) (target highest_score)).0 ≡ some (node 2 9))
unfolding next_upstream Circuit.mark_dead
strategies_choose = (refl, refl, refl, refl)

next_upstream-usable_example : is_usable same 105 [] (target least_connections) (node 3 4) ≡ true
unfolding next_upstream Circuit.mark_dead
next_upstream-usable_example =
    next_upstream-usable same chance 105 none [] (target least_connections) (node 2 9) (node 3 4)
      (inr (inl refl)) refl refl
