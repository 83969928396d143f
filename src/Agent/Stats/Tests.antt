-- ===== src/Agent/Stats/Tests.antt =====
-- crates/node-agent/src/stats.rs: a report of one rule's counters.
use emorelay.Base.{[], ◌∷◌}
use emorelay.Agent.Stats.{RuleCounter, StatsCollector}

abbrev counter : RuleCounter
counter = record { rx_bytes = 100; tx_bytes = 20; connection_count = 1; error_count = 0 }

abbrev collector : StatsCollector
collector = record { counters = (7, counter) ∷ [] }
