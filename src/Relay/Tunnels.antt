-- ===== src/Relay/Tunnels.antt =====
-- The table of tunnels and the control connections that fill it: `TunnelRoute`, `SessionMap` and
-- the tasks of `run_control_plane` in relay-server/src/main.rs.
-- All tasks are the entries of a list, which steps of any of them change in any order; a call on
-- the table is one step, the registration with the generation that it draws. A route's control is the generation of its task: its channel is closed
-- when the task is over. The generation counter is exact, where the code's would need 2 ^ 64
-- registrations to wrap.
use praeco_rs.Prelude.{
  ℕ, ◌+◌, ◌≡◌, Bool, true, false, ◌==◌, if◌then◌else◌, Option, none, some, List, [], ◌∷◌, ◌++◌,
  get_elem?, set, any, Bytes,
}
use praeco_rs.DashMap.{DashMap}
use praeco_rs.Relay.Register.{UnicodeOps, authorize}

pub record TunnelRoute : Type 0 where
  pub generation : ℕ
  pub supports_proxy_v2 : Bool

-- Where a control connection is: `checked` before its registration, `driving` its tunnel, `ending`
-- with its entry removed and its channel still open, and over.
pub data Task : Type 0 where
  checked : (sni : Bytes) (supports_proxy_v2 : Bool) → Task
  driving : (sni : Bytes) (generation : ℕ) → Task
  ending : (generation : ℕ) → Task
  over : Task

-- The task holds the receiving end of this control.
abbrev pub holds : ℕ → Task → Bool
holds generation (driving sni g) = g == generation
holds generation (ending g) = g == generation
holds generation _ = false

module _ (table : DashMap Bytes TunnelRoute) where
  open table use {Map, empty, get, insert, remove}

  pub record Relay : Type 0 where
    pub tunnels : Map
    pub next_generation : ℕ
    pub tasks : List Task

  unfoldable pub new_relay : Relay
  new_relay = record { tunnels = empty; next_generation = 1; tasks = [] }

  -- `control.tx.is_closed()`, negated.
  abbrev pub is_open : Relay → TunnelRoute → Bool
  is_open s route = any (holds route.generation) s.tasks

  -- The overwrite protection.
  unfoldable pub may_register : Relay → Bytes → Bool
  may_register s sni = elim (get sni s.tunnels) [
    | none ↦ true
    | some existing ↦ if is_open s existing then false else true
  ]

  unfoldable pub register : Relay → ℕ → Bytes → Bool → Relay
  register s i sni supports_proxy_v2 = record {
    tunnels =
        insert sni
          (record { generation = s.next_generation; supports_proxy_v2 = supports_proxy_v2 })
          s.tunnels;
    next_generation = s.next_generation + 1;
    tasks = set s.tasks i (driving sni s.next_generation);
  }

  abbrev pub removed_if : ℕ → Bytes → Map → Option TunnelRoute → Map
  removed_if generation sni m none = m
  removed_if generation sni m (some route) =
      if route.generation == generation then remove sni m else m

  -- `remove_if` with the generation of the task.
  unfoldable pub remove_own : ℕ → Bytes → Map → Map
  remove_own generation sni m = removed_if generation sni m (get sni m)

  -- What can happen next.
  pub data Step (unicode : UnicodeOps) (enable_proxy_protocol : Bool) : Relay → Relay → Type 0 where
    -- A `REGISTER` line is authorized by the names of the certificate, and the name is free.
    passed :
        (s : Relay) (line : Bytes) (allowed_snis : List Bytes) (sni : Bytes)
        (supports_proxy_v2 : Bool)
        → authorize unicode enable_proxy_protocol allowed_snis line ≡ some (sni, supports_proxy_v2)
        → may_register s sni ≡ true
        → Step unicode enable_proxy_protocol s
            (record s { tasks = s.tasks ++ checked sni supports_proxy_v2 ∷ [] })
    registered :
        (s : Relay) (i : ℕ) (sni : Bytes) (supports_proxy_v2 : Bool)
        → get_elem? s.tasks i ≡ some (checked sni supports_proxy_v2)
        → Step unicode enable_proxy_protocol s (register s i sni supports_proxy_v2)
    -- The tunnel fails or closes.
    ended :
        (s : Relay) (i : ℕ) (sni : Bytes) (generation : ℕ)
        → get_elem? s.tasks i ≡ some (driving sni generation)
        → Step unicode enable_proxy_protocol s (record s {
          tunnels = remove_own generation sni s.tunnels;
          tasks = set s.tasks i (ending generation);
        })
    dropped :
        (s : Relay) (i generation : ℕ)
        → get_elem? s.tasks i ≡ some (ending generation)
        → Step unicode enable_proxy_protocol s (record s { tasks = set s.tasks i over })

  pub data Reach (unicode : UnicodeOps) (enable_proxy_protocol : Bool) (s : Relay)
      : Relay → Type 0 where
    here : Reach unicode enable_proxy_protocol s s
    next :
        {t u : Relay}
        → Reach unicode enable_proxy_protocol s t
        → Step unicode enable_proxy_protocol t u
        → Reach unicode enable_proxy_protocol s u
