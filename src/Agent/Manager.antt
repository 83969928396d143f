-- ===== src/Agent/Manager.antt =====
-- crates/node-agent/src/manager.rs: the rules that run on a node. A listener is a task of the
-- runtime; whether one starts is the operating system's choice and enters as an argument.
pub mod Tasks
pub mod Upkeep
pub mod Outcome
pub mod Restart
pub mod Success
mod Tests
use emorelay.Base.{
  ℕ, suc, ◌-◌, Bool, true, false, not, ◌&&◌, Option, none, some, List, [], ◌∷◌, String, str_eq,
  ◌==◌, if◌then◌else◌, contains, retain,
}
use emorelay.Base.Dict
use emorelay.Proto.{Rule}
use emorelay.Agent.Stats
use emorelay.Agent.Stats.{StatsCollector}

pub data Kind : Type 0 where
  tcp udp tunnel : Kind

abbrev pub same_kind : Kind → Kind → Bool
same_kind tcp tcp = true
same_kind udp udp = true
same_kind tunnel tunnel = true
same_kind _ _ = false

-- Which handles a rule holds.
pub record RuleHandles : Type 0 where
  pub rule : Rule
  pub tcp : Bool
  pub udp : Bool
  pub tunnel : Bool

-- One call of a `start`: whether its task runs afterwards, and whether it came to `stats.ensure`.
pub record Start : Type 0 where
  pub started : Bool
  pub counted : Bool

-- What the operating system and the credentials on disk answer.
pub record Env : Type 0 where
  pub start : Kind → Rule → Start
  pub make_transport : Rule → Bool

-- `live id kind` counts the tasks of that kind that run for the rule.
pub record RuleManager : Type 0 where
  pub handles : List (ℕ × RuleHandles)
  pub stats : StatsCollector
  pub live : ℕ → Kind → ℕ

unfoldable pub new : RuleManager
new = record { handles = []; stats = record { counters = [] }; live = λ id k. 0 }

abbrev pub has_handle : RuleHandles → Kind → Bool
has_handle h tcp = h.tcp
has_handle h udp = h.udp
has_handle h tunnel = h.tunnel

-- `stop` of one handle: its task ends.
abbrev pub stop_live : (ℕ → Kind → ℕ) → ℕ → Kind → ℕ → Kind → ℕ
stop_live live id kind j k = if id == j && same_kind kind k then live j k - 1 else live j k

abbrev pub start_live : (ℕ → Kind → ℕ) → ℕ → Kind → ℕ → Kind → ℕ
start_live live id kind j k = if id == j && same_kind kind k then suc (live j k) else live j k

-- `stop_all`: every handle that is there is stopped.
abbrev pub stop_all : (ℕ → Kind → ℕ) → ℕ → RuleHandles → ℕ → Kind → ℕ
stop_all live id h j k = if id == j && has_handle h k then live j k - 1 else live j k

-- Take the rule's handles out of the map and stop them.
unfoldable pub drop_rule : RuleManager → ℕ → RuleManager
drop_rule m id = elim (Dict.lookup id m.handles) [
  | none ↦ m
  | some h ↦ record m { handles = Dict.remove id m.handles; live = stop_all m.live id h }
]

-- One `start`: the manager afterwards and whether the task runs.
unfoldable pub start_task : Env → RuleManager → Kind → Rule → RuleManager × Bool
start_task env m kind rule =
    let s = env.start kind rule in
    let stats = if s.counted then (Stats.ensure m.stats rule.id).0 else m.stats in
    if s.started
    then (record m { stats = stats; live = start_live m.live rule.id kind }, true)
    else (record m { stats = stats }, false)

abbrev pub keep_handles : RuleManager → Rule → Bool → Bool → Bool → RuleManager
keep_handles m rule t u v = record m {
  handles = Dict.insert rule.id (record { rule = rule; tcp = t; udp = u; tunnel = v }) m.handles;
}

-- A single listener.
unfoldable pub start_one : Env → RuleManager → Kind → Rule → RuleManager × Bool
start_one env m kind rule =
    let (m', ok) = start_task env m kind rule in
    if ok
    then (
      keep_handles m' rule (same_kind kind tcp) (same_kind kind udp) (same_kind kind tunnel),
      true,
    )
    else (m', false)

-- TCP and UDP: if the second does not start, the first is stopped again.
unfoldable pub start_both : Env → RuleManager → Rule → RuleManager × Bool
start_both env m rule =
    let (m₁, tcp_ok) = start_task env m tcp rule in
    let (m₂, udp_ok) = start_task env m₁ udp rule in
    if not tcp_ok
    then (m₁, false)
    else (if udp_ok
        then (keep_handles m₂ rule true true false, true)
        else (record m₂ { live = stop_live m₂.live rule.id tcp }, false))

unfoldable pub start_protocol : Env → RuleManager → Rule → RuleManager × Bool
unfolding start_one start_both
start_protocol env m rule =
    if str_eq rule.protocol "tcp"
    then start_one env m tcp rule
    else (if str_eq rule.protocol "udp"
        then start_one env m udp rule
        else (if str_eq rule.protocol "tcp_udp" then start_both env m rule else (m, true)))

-- The part of `apply` after the old handles are gone. The flag is false for an error.
unfoldable pub start_rule : Env → RuleManager → Rule → RuleManager × Bool
unfolding start_protocol start_one
start_rule env m rule = if not rule.enabled then (m, true) else elim rule.tunnel [
  | some ctx ↦ if env.make_transport rule then start_one env m tunnel rule else (m, false)
  | none ↦ start_protocol env m rule
]

unfoldable pub apply : Env → RuleManager → Rule → RuleManager × Bool
unfolding drop_rule start_rule
apply env m rule = start_rule env (drop_rule m rule.id) rule

unfoldable pub remove : RuleManager → ℕ → RuleManager
unfolding drop_rule
remove m id = let m' = drop_rule m id in record m' { stats = Stats.remove m'.stats id }

drop_rules : RuleManager → List ℕ → RuleManager
unfolding drop_rule
drop_rules m [] = m
drop_rules m (id ∷ ids) = drop_rules (drop_rule m id) ids

-- The manager and the ids of the orphans that were dropped.
unfoldable pub reconcile : RuleManager → List ℕ → RuleManager × List ℕ
unfolding drop_rules
reconcile m keep_ids =
    let orphans = retain (λ id. not (contains keep_ids id)) (Dict.keys m.handles) in
    let m' = drop_rules m orphans in (record m' { stats = Stats.retain m'.stats keep_ids }, orphans)

unfoldable pub restart : Env → RuleManager → ℕ → RuleManager × Bool
unfolding drop_rule apply
restart env m id = elim (Dict.lookup id m.handles) [
  | none ↦ (m, true)
  | some h ↦ apply env (drop_rule m id) h.rule
]

abbrev pub rules_of : List (ℕ × RuleHandles) → List Rule
rules_of [] = []
rules_of ((id, h) ∷ m) = h.rule ∷ rules_of m

unfoldable pub current_rules : RuleManager → List Rule
current_rules m = rules_of m.handles
