-- ===== src/ConcurrencyLimit.antt =====
-- The limit on concurrent requests: `ConcurrencyLimitService`, `ConcurrencyLimitFuture` and
-- `PermittedBody` of server/src/middleware/limit.rs.
-- All requests of a server are the entries of a list, which steps of any of them change in any
-- order. tokio's semaphore is the number of its free permits: it hands out a permit only if one is
-- free, to any waiting request, and takes it back when its holder drops it. The order in which the
-- semaphore serves its waiters is left out, and so are the responses' contents.
pub mod Permits
mod Examples
use praeco_rs.Prelude.{
  ℕ, ◌+◌, ◌-◌, ◌<◌, ◌≡◌, Bool, true, false, ltb, if◌then◌else◌, Option, none, some, List, [], ◌∷◌,
  ◌++◌, get_elem?, set,
}

-- Where a request is: `waiting` for a permit, `processing` with one in the inner service,
-- `responding` with the permit in the body of its response, `finished` without one.
pub data Phase : Type 0 where
  waiting processing responding finished : Phase

pub record Limiter : Type 0 where
  pub max_requests : ℕ
  pub free : ℕ
  pub load_shed : Bool
  pub queue_timeout : Option ℕ
  pub requests : List Phase

-- `with_config`.
unfoldable pub with_config : (max_requests : ℕ) → Bool → Option ℕ → Limiter
with_config max_requests load_shed queue_timeout = record {
  max_requests = max_requests;
  free = max_requests;
  load_shed = load_shed;
  queue_timeout = queue_timeout;
  requests = [];
}

-- `call` of the service: with load shedding a request takes a permit at once or is answered 503,
-- else it waits.
unfoldable pub call : Limiter → Limiter
call s =
    if s.load_shed
    then if ltb 0 s.free
      then record s { free = s.free - 1; requests = s.requests ++ processing ∷ [] }
      else record s { requests = s.requests ++ finished ∷ [] }
    else record s { requests = s.requests ++ waiting ∷ [] }

abbrev move_to : Limiter → ℕ → Phase → Limiter
move_to s i phase = record s { requests = set s.requests i phase }

abbrev release_to : Limiter → ℕ → Phase → Limiter
release_to s i phase = record s { free = s.free + 1; requests = set s.requests i phase }

-- What can happen next.
pub data Step : Limiter → Limiter → Type 0 where
  -- A new request.
  called : (s : Limiter) → Step s (call s)
  -- The semaphore gives a waiting request a permit, and its future goes on to the inner service.
  granted :
      (s : Limiter) (i : ℕ)
      → get_elem? s.requests i ≡ some waiting
      → 0 < s.free
      → Step s (record s { free = s.free - 1; requests = set s.requests i processing })
  -- The queue timeout passes: 503.
  timed_out :
      (s : Limiter) (i limit : ℕ)
      → get_elem? s.requests i ≡ some waiting
      → s.queue_timeout ≡ some limit
      → Step s (move_to s i finished)
  -- The inner service responds, and the permit moves into the body.
  responded :
      (s : Limiter) (i : ℕ)
      → get_elem? s.requests i ≡ some processing
      → Step s (move_to s i responding)
  -- The inner service fails.
  failed :
      (s : Limiter) (i : ℕ)
      → get_elem? s.requests i ≡ some processing
      → Step s (release_to s i finished)
  -- The body ends, fails, or is dropped.
  body_ended :
      (s : Limiter) (i : ℕ)
      → get_elem? s.requests i ≡ some responding
      → Step s (release_to s i finished)
  -- The client goes away before there is a response: the future is dropped.
  cancelled_waiting :
      (s : Limiter) (i : ℕ) → get_elem? s.requests i ≡ some waiting → Step s (move_to s i finished)
  cancelled_processing :
      (s : Limiter) (i : ℕ)
      → get_elem? s.requests i ≡ some processing
      → Step s (release_to s i finished)

pub data Reach (s : Limiter) : Limiter → Type 0 where
  here : Reach s s
  next : {t u : Limiter} → Reach s t → Step t u → Reach s u
