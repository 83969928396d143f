-- ===== src/Agent/Dns.antt =====
-- crates/node-agent/src/dns.rs: the cache of resolved names. Instants are in seconds; what a name
-- resolves to at an instant, and which texts are address literals, are arguments.
pub mod Cached
mod Tests
use emorelay.Base.{
  ℕ, ◌-◌, Bool, true, false, not, Option, none, some, List, [], ◌∷◌, String, str_eq, ltb, length,
  retain, if◌then◌else◌,
}
use emorelay.Base.Ip.{IpAddr}

abbrev pub ttl : ℕ
ttl = 60

abbrev pub max_entries : ℕ
max_entries = 1024

pub record Entry : Type 0 where
  pub host : String
  pub ips : List IpAddr
  pub at : ℕ

abbrev pub find : String → List Entry → Option Entry
find host [] = none
find host (e ∷ es) = if str_eq e.host host then some e else find host es

-- `at.elapsed() < TTL`
abbrev pub is_fresh : ℕ → Entry → Bool
is_fresh now e = ltb (now - e.at) ttl

pub cache_get : List Entry → String → ℕ → Option (List IpAddr)
cache_get cache host now = elim (find host cache) [
  | none ↦ none
  | some e ↦ if is_fresh now e then some e.ips else none
]

-- `HashMap::insert`
abbrev pub insert : Entry → List Entry → List Entry
insert e es = e ∷ retain (λ o. not (str_eq o.host e.host)) es

-- A full cache is first cleared of what is stale; if it is still full, nothing is added.
pub cache_put : List Entry → String → List IpAddr → ℕ → List Entry
cache_put cache host ips now =
    let fresh = retain (is_fresh now) cache in
    let e : Entry = record { host = host; ips = ips; at = now } in
    if ltb (length cache) max_entries
    then insert e cache
    else (if ltb (length fresh) max_entries then insert e fresh else fresh)

module _ (parse : String → Option IpAddr) (resolve : String → ℕ → Option (List IpAddr)) where
  -- What an answer does to the cache: no error and no empty answer is kept.
  pub remember : List Entry → String → ℕ → List Entry
  unfolding cache_put
  remember cache host done = elim (resolve host done) [
    | none ↦ cache
    | some ips ↦ elim ips [ [] ↦ cache | ip ∷ rest ↦ cache_put cache host (ip ∷ rest) done ]
  ]

  -- A call that asks the cache at `now`, and gets its answer at `done` if the cache has none.
  pub resolve_target : List Entry → String → ℕ → ℕ → List Entry × Option (List IpAddr)
  unfolding cache_get remember
  resolve_target cache host now done = elim (parse host) [
    | some ip ↦ (cache, some (ip ∷ []))
    | none ↦ elim (cache_get cache host now) [
      | some ips ↦ (cache, some ips)
      | none ↦ (remember cache host done, resolve host done)
    ]
  ]
