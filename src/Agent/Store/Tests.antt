-- ===== src/Agent/Store/Tests.antt =====
-- crates/node-agent/src/store.rs: three saves, of which the second stops after a byte and the
-- flush of the third fails.
use emorelay.Base.{true, none, List, [], ◌∷◌, ◌≡◌, refl}
use emorelay.Proto.{Rule}
use emorelay.Agent.Store.{Disk, Ending, completes, write_stops, flush_fails, load}
use emorelay.Agent.Store.RoundTrip.{saves, last_saved, load-saves}
use emorelay.Agent.Sample.{web, to_vec, from_slice}

abbrev empty : Disk
empty = record { state = none; tmp = none }

abbrev three : List (List Rule × Ending)
three = (web ∷ [], completes) ∷ ([], write_stops 1) ∷ (web ∷ [], flush_fails 0) ∷ []

load-saves_example :
    load from_slice true (saves to_vec empty three)
    ≡ last_saved to_vec from_slice (load from_slice true empty) three
load-saves_example = load-saves to_vec from_slice empty three (refl, (refl, (refl, tt)))
