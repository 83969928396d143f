-- ===== src/Agent/System.antt =====
-- crates/node-agent/src/system.rs: the network counters of a node. The totals over its interfaces come
-- from the system at each call; processor, memory and load are floating-point readings and left out.
pub mod Traffic
use emorelay.Base.{ℕ, ◌-◌, Bool, true, false, not, if◌then◌else◌, ltb}
use emorelay.Base.Signed.{ℤ, pos, negsuc, pos_part}
use emorelay.Base.Words.{mod64, mod63}
use emorelay.Agent.Stats.{RpcEnd, answered, not_committed, answer_lost}

pub record Inner : Type 0 where
  pub last_rx_total : ℕ
  pub last_tx_total : ℕ
  pub primed : Bool

pub record SystemSample : Type 0 where
  pub rx_bytes_delta : ℤ
  pub tx_bytes_delta : ℤ

-- `as i64` of a u64.
abbrev pub as_i64 : ℕ → ℤ
as_i64 n = if ltb n mod63 then pos n else negsuc (mod64 - 1 - n)

-- What has been counted since the last drain; nothing at the first. The difference saturates.
pub drain : Inner → ℕ → ℕ → Inner × SystemSample
drain g rx_now tx_now =
    let g' : Inner = record { last_rx_total = rx_now; last_tx_total = tx_now; primed = true } in
    if g.primed
    then (
      g',
      record {
        rx_bytes_delta = as_i64 (rx_now - g.last_rx_total);
        tx_bytes_delta = as_i64 (tx_now - g.last_tx_total);
      },
    )
    else (g', record { rx_bytes_delta = pos 0; tx_bytes_delta = pos 0 })

pub restore_traffic : Inner → ℤ → ℤ → Inner
restore_traffic g rx_delta tx_delta = record g {
  last_rx_total = g.last_rx_total - pos_part rx_delta;
  last_tx_total = g.last_tx_total - pos_part tx_delta;
}

-- crates/node-agent/src/agent.rs, `report_node_stats`: nothing happens if the clock is before the
-- epoch; a report whose call ends in an error is taken back. The sample is what the panel commits.
pub report_node_stats : Inner → Bool → ℕ → ℕ → RpcEnd → Inner × SystemSample
unfolding drain restore_traffic
report_node_stats g clock_ok rx_now tx_now rpc =
    let nothing : SystemSample = record { rx_bytes_delta = pos 0; tx_bytes_delta = pos 0 } in
    let (g', sample) = drain g rx_now tx_now in
    if not clock_ok then (g, nothing) else (elim rpc [
      | answered ↦ (g', sample)
      | not_committed ↦ (restore_traffic g' sample.rx_bytes_delta sample.tx_bytes_delta, nothing)
      | answer_lost ↦ (restore_traffic g' sample.rx_bytes_delta sample.tx_bytes_delta, sample)
    ])
