-- ===== src/Agent/Dns/Tests.antt =====
-- crates/node-agent/src/dns.rs: a name whose address changes.
use emorelay.Base.{ℕ, Option, none, some, List, [], ◌∷◌, String, ltb, if◌then◌else◌}
use emorelay.Base.Ip.{IpAddr, v4}
use emorelay.Agent.Dns.{resolve_target}
use emorelay.Agent.Dns.Cached.{run, Answer, resolve_target-Answer}

abbrev parse : String → Option IpAddr
parse host = none

abbrev resolve : String → ℕ → Option (List IpAddr)
resolve host t =
    if ltb t 100
    then some (v4 (record { a = 93; b = 184; c = 216; d = 34 }) ∷ [])
    else some (v4 (record { a = 93; b = 184; c = 216; d = 35 }) ∷ [])

abbrev calls : List (String × (ℕ × ℕ))
calls = ("example.com", (90, 91)) ∷ ("example.org", (92, 105)) ∷ ("example.com", (120, 121)) ∷ []

resolve_target-Answer_example :
    Answer parse resolve "example.com" 130 131
      (resolve_target parse resolve (run parse resolve [] calls) "example.com" 130 131).1
resolve_target-Answer_example = resolve_target-Answer parse resolve calls "example.com" 130 131
