-- ===== src/Panel/Ports.antt =====
-- crates/panel-server/src/routes/rules.rs and the unique index of migrations/0001_init.sql: which rules may
-- listen on the same port of a node.
pub mod Exclusion
pub mod Free
pub mod Table
pub mod History
mod Tests
use emorelay.Base.{
  ℕ, zero, suc, ◌+◌, ◌-◌, Bool, true, false, not, ◌&&◌, ◌||◌, Option, none, some, List, [], ◌∷◌,
  ◌++◌, String, str_eq, ◌==◌, if◌then◌else◌, leb, ltb, contains, any, is_some,
}
use emorelay.Panel.Db.{
  Db, DbRule, Node, Tunnel, TunnelHop, Fields, with_fields, update_rule, find_tunnel,
}

unfoldable pub validate_protocol : String → Bool
validate_protocol p = str_eq p "tcp" || (str_eq p "udp" || str_eq p "tcp_udp")

-- The protocols that `ensure_no_protocol_conflict` looks for.
abbrev pub excludes : String → String → Bool
excludes new_protocol p =
    if str_eq new_protocol "tcp"
    then str_eq p "tcp_udp"
    else (if str_eq new_protocol "udp"
        then str_eq p "tcp_udp"
        else (if str_eq new_protocol "tcp_udp" then str_eq p "tcp" || str_eq p "udp" else false))

-- A live rule on the same node, address and port.
abbrev pub same_port : ℕ → String → ℕ → DbRule → Bool
same_port node_id listen_ip listen_port r =
    not r.deleted
    && (r.node_id == node_id && (str_eq r.listen_ip listen_ip && r.listen_port == listen_port))

abbrev pub is_excluded : Option ℕ → DbRule → Bool
is_excluded none r = false
is_excluded (some id) r = r.id == id

unfoldable pub ensure_no_protocol_conflict : List DbRule → ℕ → String → ℕ → String → Option ℕ → Bool
ensure_no_protocol_conflict rules node_id listen_ip listen_port new_protocol exclude_id = not (
    any
      (λ r.
        same_port node_id listen_ip listen_port r
        && (excludes new_protocol r.protocol && not (is_excluded exclude_id r)))
      rules)

-- The unique index: no other live rule has the same node, protocol, address and port.
unfoldable pub is_unique : List DbRule → DbRule → Bool
is_unique rules r = not (
    any
      (λ o.
        not (o.id == r.id)
        && (same_port r.node_id r.listen_ip r.listen_port o && str_eq o.protocol r.protocol))
      rules)

-- `Rule::create` after the check; nothing is inserted if the index refuses.
unfoldable pub insert_rule : Db → DbRule → Option Db
unfolding is_unique
insert_rule db r =
    let row = record r { id = db.next_rule_id; deleted = false } in
    if is_unique db.rules row
    then some (record db { rules = db.rules ++ (row ∷ []); next_rule_id = suc db.next_rule_id })
    else none

unfoldable pub create_checked : Db → DbRule → Option Db
unfolding insert_rule ensure_no_protocol_conflict
create_checked db r =
    if ensure_no_protocol_conflict db.rules r.node_id r.listen_ip r.listen_port r.protocol none
    then insert_rule db r
    else none

-- What the automatic choice of a port counts as a conflict.
abbrev pub conflicts : String → String → Bool
conflicts protocol existing =
    if str_eq protocol "tcp"
    then str_eq existing "tcp" || str_eq existing "tcp_udp"
    else (if str_eq protocol "udp"
        then str_eq existing "udp" || str_eq existing "tcp_udp"
        else true)

abbrev pub blocked_by_rules : List DbRule → Node → String → String → ℕ → Bool
blocked_by_rules rules node listen_ip protocol port =
    any (λ r. same_port node.id listen_ip port r && conflicts protocol r.protocol) rules

abbrev pub inter_port_is : Option ℕ → ℕ → Bool
inter_port_is none port = false
inter_port_is (some p) port = p == port

-- A hop of a live tunnel holds its port for every protocol.
abbrev pub blocked_by_tunnels : Db → Node → ℕ → Bool
blocked_by_tunnels db node port =
    any
      (λ h.
        h.node_id == node.id
        && (inter_port_is h.inter_port port && is_some (find_tunnel db h.tunnel_id)))
      db.hops

abbrev pub is_free : Db → Node → String → String → List ℕ → ℕ → Bool
is_free db node listen_ip protocol reserved port =
    not (contains reserved port)
    && (not (blocked_by_rules db.rules node listen_ip protocol port)
        && not (blocked_by_tunnels db node port))

-- The first port of `count` from `port` on that passes.
unfoldable pub first_port : (ℕ → Bool) → ℕ → ℕ → Option ℕ
first_port free port zero = none
first_port free port (suc count) =
    let rest = first_port free (suc port) count in if free port then some port else rest

unfoldable pub allocate_port : Db → Node → String → String → List ℕ → Option ℕ
unfolding first_port
allocate_port db node listen_ip protocol reserved =
    first_port (is_free db node listen_ip protocol reserved) node.port_pool_min
      (suc node.port_pool_max - node.port_pool_min)

-- The port of a new rule. A request for a port is held to the pool, except by an administrator for a
-- tunnel, and to the reserved ports always; without a request a port is chosen.
unfoldable pub choose_port :
    Db → Node → String → String → List ℕ → Option ℕ → Bool → Bool → Option ℕ
unfolding allocate_port
choose_port db node listen_ip protocol reserved none is_tunnel is_admin =
    allocate_port db node listen_ip protocol reserved
choose_port db node listen_ip protocol reserved (some p) is_tunnel is_admin =
    if not (is_tunnel && is_admin) && (ltb p node.port_pool_min || ltb node.port_pool_max p)
    then none
    else (if contains reserved p then none else some p)

-- `update` of a rule's address and port, with its checks.
unfoldable pub update_checked : Db → Node → List ℕ → DbRule → Fields → Option Db
unfolding ensure_no_protocol_conflict is_unique
update_checked db node reserved existing u =
    let new = with_fields u existing in
    if ltb new.listen_port node.port_pool_min || ltb node.port_pool_max new.listen_port
    then none
    else (if contains reserved new.listen_port
        then none
        else (if ensure_no_protocol_conflict db.rules existing.node_id new.listen_ip new.listen_port
              existing.protocol (some existing.id)
            then (if is_unique db.rules new
                then some (update_rule (with_fields u) db existing.id).0
                else none)
            else none))
