-- ===== src/Agent/ConnLimit/Tests.antt =====
-- crates/node-agent/src/limit/conn_limit.rs: a rule that allows two connections.
use emorelay.Base.{◌≤◌, true, false, List, [], ◌∷◌}
use emorelay.Base.Signed.{pos}
use emorelay.Agent.ConnLimit.{Event, accepted, accept_error, closed}
use emorelay.Agent.ConnLimit.Cap.{open_after, open_connections_bound}

abbrev busy : List Event
busy = accepted ∷ accept_error true ∷ accepted ∷ accepted ∷ closed false ∷ accepted ∷ []

open_connections_bound_example : open_after (pos 2) busy ≤ 2
open_connections_bound_example = open_connections_bound 1 busy
