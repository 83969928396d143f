-- ===== src/Agent/Stats.antt =====
-- crates/node-agent/src/stats.rs: the traffic counters of each rule. A counter is the bit pattern
-- of its `AtomicI64`, and `fetch_add` wraps. The counters stand in the map itself: a relay task
-- that still holds the `Arc` of a counter removed from the map is not modelled.
pub mod Conservation
mod Tests
use emorelay.Base.{
  ℕ, Bool, true, false, not, Option, none, some, List, [], ◌∷◌, ◌==◌, ◌&&◌, if◌then◌else◌, contains,
}
use emorelay.Base.Dict
use emorelay.Base.Words.{wrapping_add}

pub record CounterSnapshot : Type 0 where
  pub rule_id : ℕ
  pub rx_bytes : ℕ
  pub tx_bytes : ℕ
  pub connection_count : ℕ
  pub error_count : ℕ

pub record RuleCounter : Type 0 where
  pub rx_bytes : ℕ
  pub tx_bytes : ℕ
  pub connection_count : ℕ
  pub error_count : ℕ

pub record StatsCollector : Type 0 where
  pub counters : List (ℕ × RuleCounter)

-- `RuleCounter::default()`
abbrev pub zero_counter : RuleCounter
zero_counter = record { rx_bytes = 0; tx_bytes = 0; connection_count = 0; error_count = 0 }

pub new : StatsCollector
new = record { counters = [] }

-- The counter of the rule, made if it is missing.
unfoldable pub ensure : StatsCollector → ℕ → StatsCollector × RuleCounter
ensure s rule_id = elim (Dict.lookup rule_id s.counters) [
  | some c ↦ (s, c)
  | none ↦ (record { counters = Dict.insert rule_id zero_counter s.counters }, zero_counter)
]

pub remove : StatsCollector → ℕ → StatsCollector
remove s rule_id = record { counters = Dict.remove rule_id s.counters }

pub retain : StatsCollector → List ℕ → StatsCollector
retain s keep_ids = record { counters = Dict.retain_keys (contains keep_ids) s.counters }

abbrev is_empty : List CounterSnapshot → Bool
is_empty [] = true
is_empty (s ∷ snapshot) = false

abbrev pub is_zero : RuleCounter → Bool
is_zero c = c.rx_bytes == 0 && (c.tx_bytes == 0 && (c.connection_count == 0 && c.error_count == 0))

abbrev pub snapshot_of : ℕ → RuleCounter → CounterSnapshot
snapshot_of rule_id c = record {
  rule_id = rule_id;
  rx_bytes = c.rx_bytes;
  tx_bytes = c.tx_bytes;
  connection_count = c.connection_count;
  error_count = c.error_count;
}

-- `swap(0)` of every counter; the ones that were all zero are left out.
pub drain_counters : List (ℕ × RuleCounter) → List (ℕ × RuleCounter) × List CounterSnapshot
drain_counters [] = ([], [])
drain_counters ((rule_id, c) ∷ m) =
    let (m', out) = drain_counters m in
    ((rule_id, zero_counter) ∷ m', if is_zero c then out else snapshot_of rule_id c ∷ out)

pub drain_snapshot : StatsCollector → StatsCollector × List CounterSnapshot
unfolding drain_counters
drain_snapshot s = let (m, out) = drain_counters s.counters in (record { counters = m }, out)

-- The four `fetch_add`s.
abbrev pub fetch_add : RuleCounter → CounterSnapshot → RuleCounter
fetch_add c s = record {
  rx_bytes = wrapping_add c.rx_bytes s.rx_bytes;
  tx_bytes = wrapping_add c.tx_bytes s.tx_bytes;
  connection_count = wrapping_add c.connection_count s.connection_count;
  error_count = wrapping_add c.error_count s.error_count;
}

restore_one : StatsCollector → CounterSnapshot → StatsCollector
unfolding ensure
restore_one t s =
    let (t', c) = ensure t s.rule_id in
    record { counters = Dict.insert s.rule_id (fetch_add c s) t'.counters }

pub restore : StatsCollector → List CounterSnapshot → StatsCollector
unfolding restore_one
restore t [] = t
restore t (s ∷ snapshot) = restore (restore_one t s) snapshot

-- How the report's call ends: the panel commits it and its answer arrives; the panel does not commit
-- it; or the panel commits it and the answer is lost, which the node cannot tell from the second.
pub data RpcEnd : Type 0 where
  answered : RpcEnd
  not_committed : RpcEnd
  answer_lost : RpcEnd

-- What is left in the counters, and what the panel has committed.
abbrev end_report :
    StatsCollector → List CounterSnapshot → RpcEnd → StatsCollector × List CounterSnapshot
end_report drained snapshot answered = (drained, snapshot)
end_report drained snapshot not_committed = (restore drained snapshot, [])
end_report drained snapshot answer_lost = (restore drained snapshot, snapshot)

-- crates/node-agent/src/agent.rs, `report_stats`: nothing happens if the clock is before the epoch;
-- a report whose call ends in an error is restored.
pub report_stats : StatsCollector → Bool → RpcEnd → StatsCollector × List CounterSnapshot
unfolding drain_snapshot restore
report_stats s clock_ok rpc =
    let (drained, snapshot) = drain_snapshot s in
    if not clock_ok
    then (s, [])
    else (if is_empty snapshot then (drained, []) else end_report drained snapshot rpc)
