-- ===== src/RateLimiter/Spacing.antt =====
-- The time between two requests that the fixed-window limiter lets through for one key.
use praeco_rs.Prelude.{
  ℕ, ◌+◌, ◌≤◌, ◌≡◌, ◌⊎◌, Bool, true, false, ◌&&◌, Option, none, some, List, [], ◌∷◌, if◌then◌else◌,
}
use praeco_rs.DashMap.{DashMap}
use praeco_rs.RateLimiter.{
  RateLimitKey, KeyedSimpleEntry, KeyedSimpleRateLimitStore, check_and_record,
}

pub record Arrival : Type 0 where
  pub locked : Bool
  pub locked_again : Bool
  pub now : ℕ
  pub key : RateLimitKey

-- The clock does not run backwards.
abbrev pub IsOrdered : ℕ → List Arrival → Type 0
IsOrdered t [] = Unit
IsOrdered t (r ∷ rs) = (t ≤ r.now) × IsOrdered r.now rs

abbrev pub IsSpaced : ℕ → List ℕ → Type 0
IsSpaced limit [] = Unit
IsSpaced limit (a ∷ []) = Unit
IsSpaced limit (a ∷ b ∷ ts) = (a + limit ≤ b) × IsSpaced limit (b ∷ ts)

abbrev is_allowed : Option ℕ → Bool
is_allowed none = true
is_allowed (some wait) = false

module _ (table : DashMap RateLimitKey KeyedSimpleEntry) where
  open table use {get, insert, same, same_iff, get-insert, get-retain}

  -- The times at which requests with the key are let through.
  unfoldable pub allowed_times :
      RateLimitKey → ℕ → List Arrival → KeyedSimpleRateLimitStore table → List ℕ
  allowed_times key limit [] s = []
  allowed_times key limit (r ∷ rs) s =
      let (t, refusal) = check_and_record table r.locked r.locked_again r.now r.key limit s in
      let rest = allowed_times key limit rs t in
      if same r.key key && is_allowed refusal then r.now ∷ rest else rest

  -- After a request at time `a`: the entry still stands, or its time is over at `t`.
  abbrev HeldBy : (limit a t : ℕ) → Option KeyedSimpleEntry → Type 0
  HeldBy limit a t none = a + limit ≤ t
  HeldBy limit a t (some e) = ((a + limit ≤ e.next_allowed) × (a ≤ e.last_seen)) ⊎ (a + limit ≤ t)

  abbrev Held : RateLimitKey → (limit a t : ℕ) → KeyedSimpleRateLimitStore table → Type 0
  Held key limit a t s = HeldBy limit a t (get key s.entries)

  -- One request, after the cleanup: an allowed one of the key itself comes late enough and holds
  -- the key anew, any other leaves it held.
  abbrev Step :
      (key k : RateLimitKey) (gap limit a now : ℕ)
      → KeyedSimpleRateLimitStore table
      → Option ℕ
      → Type 0
  Step key k gap limit a now t refusal =
      ((same k key && is_allowed refusal) ≡ true → (a + gap ≤ now) × Held key limit now now t)
      × ((same k key && is_allowed refusal) ≡ false → Held key gap a now t)
