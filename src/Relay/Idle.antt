-- ===== src/Relay/Idle.antt =====
-- The copying between client and tunnel: `CopyResult`, `ActivityTracker` and
-- `copy_bidirectional_with_idle_timeout` of relay-server/src/main.rs. An event is a read or write
-- that succeeds on either side, or a tick of the interval: at once, and every 10 seconds.
use praeco_rs.Prelude.{
  ℕ, zero, suc, ◌+◌, ◌-◌, ◌≤◌, ◌<◌, ◌/◌, ◌≡◌, ◌↔◌, refl, sym, ap, ◌∙◌, subst, Bool, true, false,
  ◌||◌, leb, if◌then◌else◌, Bool-cases, inl, inr, Option, none, some, List, [], ◌∷◌, arith,
}

pub data CopyResult : Type 0 where
  clean : (up down : ℕ) → CopyResult
  idle_timeout : CopyResult
  error : CopyResult

pub data Event : Type 0 where
  io tick : Event

-- Whether the watchdog's loop breaks. A read or write sets the flag, a tick takes it.
unfoldable pub watch : (max_idle_ticks idle_ticks : ℕ) (had_activity : Bool) → List Event → Bool
watch m idle_ticks flag [] = false
watch m idle_ticks flag (io ∷ events) = watch m idle_ticks true events
watch m idle_ticks true (tick ∷ events) = watch m 0 false events
watch m idle_ticks false (tick ∷ events) =
    let rest = watch m (idle_ticks + 1) false events in
    if leb m (idle_ticks + 1) then true else rest

unfoldable pub ends_idle : (timeout_secs : ℕ) → List Event → Bool
unfolding watch
ends_idle timeout_secs events = watch (timeout_secs / 10) 0 true events

-- The result, if the copying ends with `outcome` after the events.
unfoldable pub copy_bidirectional_with_idle_timeout :
    Option ℕ → List Event → (outcome : CopyResult) → CopyResult
unfolding ends_idle
copy_bidirectional_with_idle_timeout none events outcome = outcome
copy_bidirectional_with_idle_timeout (some timeout_secs) events outcome =
    if ends_idle timeout_secs events then idle_timeout else outcome

-- The events start with this many ticks.
abbrev pub starts : ℕ → List Event → Bool
starts zero events = true
starts (suc n) (tick ∷ events) = starts n events
starts (suc n) _ = false

-- Somewhere, this many ticks follow one another.
abbrev pub has_run : ℕ → List Event → Bool
has_run n [] = starts n []
has_run n (event ∷ events) = starts n (event ∷ events) || has_run n events

-- How many silent ticks end the copying.
abbrev pub silent_ticks : ℕ → ℕ
silent_ticks m = if leb m 1 then 1 else m

starts-io : (n : ℕ) (events : List Event) → 0 < n → starts n (io ∷ events) ≡ false
starts-io zero events pos = absurd (omega arith)
starts-io (suc n) events pos = refl

starts-tick :
    (n j : ℕ) (events : List Event) → n ≡ j + 1 → starts n (tick ∷ events) ≡ starts j events
starts-tick zero j events e = absurd (omega arith)
starts-tick (suc n) j events e = ap (λ t. starts t events) (omega arith)

starts-nothing : (n : ℕ) → 0 < n → starts n [] ≡ false
starts-nothing zero pos = absurd (omega arith)
starts-nothing (suc n) pos = refl

starts-le :
    (n k : ℕ) (events : List Event) → n ≤ k → starts k events ≡ true → starts n events ≡ true
starts-le zero k events le h = refl
starts-le (suc n) zero events le h = absurd (omega arith)
starts-le (suc n) (suc k) [] le h = absurd (ground arith)
starts-le (suc n) (suc k) (io ∷ events) le h = absurd (ground arith)
starts-le (suc n) (suc k) (tick ∷ events) le h = starts-le n k events (omega arith) h

-- In a run of ticks, the first of which took the flag `idle_ticks` ticks ago.
watch-run :
    (m idle_ticks : ℕ) (events : List Event)
    → idle_ticks < silent_ticks m
    → (watch m idle_ticks false events
        ≡ starts (silent_ticks m - idle_ticks) events || has_run (silent_ticks m + 1) events)
      × (watch m idle_ticks true events ≡ has_run (silent_ticks m + 1) events)
unfolding watch
watch-run m i [] l =
    let none_ = starts-nothing (silent_ticks m + 1) (omega arith) in
    (ground (arith, none_, starts-nothing (silent_ticks m - i) (omega arith)), sym none_)
watch-run m i (io ∷ events) l =
    let active = (watch-run m i events l).1 in
    let cut = starts-io (silent_ticks m + 1) events (omega arith) in
    (
      ground (arith, active, cut, starts-io (silent_ticks m - i) events (omega arith)),
      ground (arith, active, cut),
    )
watch-run m i (tick ∷ events) l =
    let k = silent_ticks m in
    let all = starts-tick (k + 1) k events refl in
    (
      elim (Bool-cases (leb m (i + 1))) [
        | inl last ↦
            let one : k ≡ i + 1 = ground arith in
            let done_ : starts (k - i) (tick ∷ events) ≡ true =
              starts-tick (k - i) 0 events (omega arith) in
            ground (arith, last, done_)
        | inr more ↦
            let room : i + 1 < k = ground arith in
            let (silent, active) = watch-run m (i + 1) events room in
            ground (
              arith,
              more,
              all,
              silent,
              starts-tick (k - i) (k - (i + 1)) events (omega arith),
              starts-le (k - (i + 1)) k events (omega arith),
            )
      ],
      ground (arith, all, (watch-run m 0 events (ground arith)).0),
    )

-- The watchdog ends a copying with an idle timeout exactly when ticks follow one another without a
-- successful read or write between, one more of them than the timeout has whole tens of seconds (two
-- at least); a copying without a timeout it never ends.
pub copy_bidirectional-silent :
    (idle_timeout_secs : Option ℕ) (events : List Event) (up down : ℕ)
    → (copy_bidirectional_with_idle_timeout idle_timeout_secs events (clean up down) ≡ idle_timeout)
      ↔ ((secs : ℕ) × (idle_timeout_secs ≡ some secs)
          × (has_run (silent_ticks (secs / 10) + 1) events ≡ true))
unfolding copy_bidirectional_with_idle_timeout ends_idle
copy_bidirectional-silent none events up down =
    (λ e. absurd (ground arith), λ h. absurd (ground (arith, h.1)))
copy_bidirectional-silent (some secs) events up down =
    let ends : watch (secs / 10) 0 true events ≡ has_run (silent_ticks (secs / 10) + 1) events =
      (watch-run (secs / 10) 0 events (ground arith)).1 in
    elim (Bool-cases (watch (secs / 10) 0 true events)) [
      | inl idle ↦ (λ e. (secs, refl, sym ends ∙ idle), λ h. rw idle refl)
      | inr busy ↦ (
        λ e. absurd (ground (arith, busy, e)),
        λ (n, same_, h).
            let this : n ≡ secs = ground (arith, same_) in
            absurd (
              ground (
                arith,
                busy,
                ends,
                subst (λ t. has_run (silent_ticks (t / 10) + 1) events ≡ true) this h,
              )),
      )
    ]
