-- ===== src/Relay/Contract.antt =====
-- What the tracker promises: a machine that knows only the live guards.
use praeco_rs.Prelude.{ℕ, ◌≤◌, ◌≡◌, leb, if◌then◌else◌, List, [], ◌∷◌, length, erase_idx, sum_map}
use praeco_rs.Net.{IpAddr}
use praeco_rs.DashMap.{DashMap}
use praeco_rs.Tracker.{or_zero}
use praeco_rs.Relay.Limits.{
  canonicalize_ip, Answer, granted, global_limit, ip_limit, dropped, counted, Call, connect,
  disconnect, ask_global, ask_ip, Server,
}

module _ (counts : DashMap IpAddr ℕ) where
  open counts use {same, get}

  abbrev pub matches : IpAddr → IpAddr → ℕ
  matches ip j = if same j ip then 1 else 0

  -- The live guards of an address.
  abbrev pub holders : IpAddr → List IpAddr → ℕ
  holders ip gs = sum_map (matches ip) gs

  module _ (max_global max_per_ip : ℕ) where
    abbrev pub permitted : List IpAddr → IpAddr → List IpAddr × Answer
    permitted gs ip =
        if leb max_global (length gs)
        then (gs, global_limit)
        else if leb max_per_ip (holders ip gs)
        then (gs, ip_limit)
        else (ip ∷ gs, granted ip)

    unfoldable pub contract_step : List IpAddr → Call → List IpAddr × Answer
    contract_step gs (connect raw_ip) = permitted gs (canonicalize_ip raw_ip)
    contract_step gs (disconnect i) = (erase_idx gs i, dropped)
    contract_step gs ask_global = (gs, counted (length gs))
    contract_step gs (ask_ip raw_ip) = (gs, counted (holders (canonicalize_ip raw_ip) gs))

    unfoldable pub contract : List IpAddr → List Call → List Answer
    unfolding contract_step
    contract gs [] = []
    contract gs (call ∷ calls) =
        let (next_, answer) = contract_step gs call in answer ∷ contract next_ calls

    -- The tracker's counters are the numbers of live guards.
    pub record Implements (s : Server counts) (gs : List IpAddr) : Type 0 where
      pub guards : s.guards ≡ gs
      pub global : s.tracker.max_global ≡ max_global
      pub per_ip : s.tracker.max_per_ip ≡ max_per_ip
      pub total : s.tracker.global_count ≡ length gs
      pub each : (ip : IpAddr) → or_zero (get ip s.tracker.ip_counts) ≡ holders ip gs
      pub within : length gs ≤ max_global
