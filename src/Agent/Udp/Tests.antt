-- ===== src/Agent/Udp/Tests.antt =====
-- crates/node-agent/src/relay/udp.rs: two clients on a table with room for one.
use emorelay.Base.{true, false, List, [], ◌∷◌}
use emorelay.Agent.Udp.{idle, Event, packet, connect_ends, ends, recv_error}
use emorelay.Agent.Udp.Table.{IsTable, run, run-IsSessionTable}

-- Both clients connect at once; the second finds the table full.
abbrev busy : List Event
busy =
    packet 1 0 true true
    ∷ packet 2 1 true true
    ∷ connect_ends 1 2 true true
    ∷ connect_ends 2 3 true true
    ∷ packet 1 4 true true
    ∷ ends 1
    ∷ packet 1 5 true false
    ∷ connect_ends 1 6 true true
    ∷ recv_error
    ∷ []

run-IsSessionTable_example : IsTable 1 (run 1 idle busy)
run-IsSessionTable_example = run-IsSessionTable 1 busy
