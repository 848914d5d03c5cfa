-- ===== src/ConcurrencyLimit/Permits.antt =====
-- Permits are neither lost nor made.
use praeco_rs.Prelude.{
  ℕ, ◌+◌, ◌-◌, ◌≤◌, ◌≡◌, refl, ◌∙◌, Bool, Option, List, [], ◌∷◌, ◌++◌, sum_map, sum_map-set, arith,
}
use praeco_rs.ConcurrencyLimit.{
  Phase, waiting, processing, responding, finished, Limiter, with_config, call, Step, called,
  granted, timed_out, responded, failed, body_ended, cancelled_waiting, cancelled_processing, Reach,
  here, next,
}

-- The permits that a request holds.
abbrev pub held : Phase → ℕ
held waiting = 0
held processing = 1
held responding = 1
held finished = 0

-- Requests that are served: in the inner service, or with a body that is not over.
abbrev pub in_flight : Limiter → ℕ
in_flight s = sum_map held s.requests

abbrev pub IsBalanced : Limiter → Type 0
IsBalanced s = s.free + in_flight s ≡ s.max_requests

sum_map-snoc :
    (xs : List Phase) (x : Phase) → sum_map held (xs ++ x ∷ []) ≡ sum_map held xs + held x
sum_map-snoc [] x = omega arith
sum_map-snoc (y ∷ xs) x = omega (arith, sum_map-snoc xs x)

call-IsBalanced : (s : Limiter) → IsBalanced s → IsBalanced (call s)
unfolding call
call-IsBalanced s h = ground (
  arith,
  sum_map-snoc s.requests processing,
  sum_map-snoc s.requests finished,
  sum_map-snoc s.requests waiting,
)

step-IsBalanced : {s t : Limiter} → Step s t → IsBalanced s → IsBalanced t
step-IsBalanced (called s) h = call-IsBalanced s h
step-IsBalanced (granted s i e free) h =
    omega (arith, h, free, sum_map-set held s.requests i waiting processing e)
step-IsBalanced (timed_out s i limit e q) h =
    omega (arith, h, sum_map-set held s.requests i waiting finished e)
step-IsBalanced (responded s i e) h =
    omega (arith, h, sum_map-set held s.requests i processing responding e)
step-IsBalanced (failed s i e) h =
    omega (arith, h, sum_map-set held s.requests i processing finished e)
step-IsBalanced (body_ended s i e) h =
    omega (arith, h, sum_map-set held s.requests i responding finished e)
step-IsBalanced (cancelled_waiting s i e) h =
    omega (arith, h, sum_map-set held s.requests i waiting finished e)
step-IsBalanced (cancelled_processing s i e) h =
    omega (arith, h, sum_map-set held s.requests i processing finished e)

step-max_requests : {s t : Limiter} → Step s t → t.max_requests ≡ s.max_requests
unfolding call
step-max_requests (called s) = ground arith
step-max_requests (granted s i e free) = refl
step-max_requests (timed_out s i limit e q) = refl
step-max_requests (responded s i e) = refl
step-max_requests (failed s i e) = refl
step-max_requests (body_ended s i e) = refl
step-max_requests (cancelled_waiting s i e) = refl
step-max_requests (cancelled_processing s i e) = refl

Reach-IsBalanced :
    {s t : Limiter} → Reach s t → IsBalanced s → IsBalanced t × (t.max_requests ≡ s.max_requests)
Reach-IsBalanced here h = (h, refl)
Reach-IsBalanced (next r st) h =
    let (b, m) = Reach-IsBalanced r h in (step-IsBalanced st b, step-max_requests st ∙ m)

-- Whatever requests come, wait, time out, are answered, fail, or are given up, in any order: the
-- requests that are served, those whose response is still being streamed included, never exceed
-- the limit, and the other permits are free.
pub Reach-in_flight_le :
    (max_requests : ℕ) (load_shed : Bool) (queue_timeout : Option ℕ) (t : Limiter)
    → Reach (with_config max_requests load_shed queue_timeout) t
    → (in_flight t ≤ max_requests) × (t.free ≡ max_requests - in_flight t)
unfolding with_config
Reach-in_flight_le max_requests load_shed queue_timeout t r =
    let (b, m) = Reach-IsBalanced r (omega arith) in (omega (arith, b, m), omega (arith, b, m))
