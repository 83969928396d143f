-- ===== src/Agent/Relay/Tests.antt =====
-- crates/node-agent/src/relay/tcp.rs: a name that resolves to an internal address first.
use emorelay.Base.{ℕ, Bool, true, Option, none, List, [], ◌∷◌, String, All}
use emorelay.Base.Ip.{IpAddr, v4}
use emorelay.Agent.Relay.{connect_targets}
use emorelay.Agent.Relay.Guard.{Allowed, connect_targets-Allowed}

abbrev pool : List (String × ℕ)
pool = ("example.com", 443) ∷ []

abbrev parse : String → Option IpAddr
parse host = none

abbrev resolve : String → List IpAddr
resolve host =
    v4 (record { a = 10; b = 0; c = 0; d = 1 })
    ∷ v4 (record { a = 93; b = 184; c = 216; d = 34 })
    ∷ []

abbrev connect : IpAddr → ℕ → Bool
connect ip port = true

connect_targets-Allowed_example :
    All (Allowed parse pool "v4") (connect_targets parse resolve connect pool "v4" (0 ∷ [])).1
connect_targets-Allowed_example = connect_targets-Allowed parse resolve connect pool "v4" (0 ∷ [])
