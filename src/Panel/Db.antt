-- ===== src/Panel/Db.antt =====
-- crates/panel-server/src/models: the tables that decide what runs on a node, and their queries. A table is
-- the list of its rows in the order of their ids, and of ordinals for the hops; the deleted rows stay.
-- The columns that no operation here reads, such as the time stamps, are left out.
pub mod Updates
use emorelay.Base.{
  ℕ, zero, suc, ◌+◌, Bool, true, false, not, ◌&&◌, Option, none, some, List, [], ◌∷◌, ◌++◌, map,
  String, str_eq, ◌==◌, if◌then◌else◌, retain, contains, is_some, unwrap_or, any,
}
use emorelay.Base.Signed.{ℤ, pos, pos_part}

pub record DbRule : Type 0 where
  pub id : ℕ
  pub user_id : ℕ
  pub node_id : ℕ
  pub name : String
  pub protocol : String
  pub listen_ip : String
  pub listen_port : ℕ
  pub target_host : String
  pub target_port : ℕ
  pub enabled : Bool
  pub bandwidth_profile_id : Option ℕ
  pub bandwidth_mbps : Option ℤ
  pub tunnel_id : Option ℕ
  pub max_connections : Option ℤ
  pub extra_targets : Option String
  pub lb_strategy : String
  pub send_proxy_protocol : Bool
  pub remote_af : String
  pub deleted : Bool

-- `traffic_ratio` is in millionths.
pub record Tunnel : Type 0 where
  pub id : ℕ
  pub transport : String
  pub billing_mode : ℕ
  pub traffic_ratio : ℕ
  pub deleted : Bool

pub record TunnelHop : Type 0 where
  pub tunnel_id : ℕ
  pub ordinal : ℕ
  pub node_id : ℕ
  pub inter_port : Option ℕ

pub record Node : Type 0 where
  pub id : ℕ
  pub public_ip : String
  pub port_pool_min : ℕ
  pub port_pool_max : ℕ
  pub block_protocols : ℤ
  pub deleted : Bool

pub record BandwidthProfile : Type 0 where
  pub id : ℕ
  pub bandwidth_mbps : ℤ
  pub deleted : Bool

pub record Db : Type 0 where
  pub rules : List DbRule
  pub tunnels : List Tunnel
  pub hops : List TunnelHop
  pub nodes : List Node
  pub profiles : List BandwidthProfile
  pub next_rule_id : ℕ

-- `fetch_optional`
abbrev pub first {ℓ} : {A : Type ℓ} → (A → Bool) → List A → Option A
first p [] = none
first p (x ∷ xs) = if p x then some x else first p xs

abbrev pub opt_is : Option ℕ → ℕ → Bool
opt_is none n = false
opt_is (some m) n = m == n

-- models/rule.rs

abbrev pub find_rule : Db → ℕ → Option DbRule
find_rule db id = first (λ r. r.id == id && not r.deleted) db.rules

abbrev pub find_profile : Db → ℕ → Option BandwidthProfile
find_profile db id = first (λ p. p.id == id && not p.deleted) db.profiles

-- RULE_COLUMNS: every query of rules takes the column `bandwidth_mbps` from the live profile.
abbrev pub profile_mbps : Db → Option ℕ → Option ℤ
profile_mbps db none = none
profile_mbps db (some id) = elim (find_profile db id) [
  | none ↦ none
  | some p ↦ some p.bandwidth_mbps
]

abbrev pub with_columns : Db → DbRule → DbRule
with_columns db r = record r { bandwidth_mbps = profile_mbps db r.bandwidth_profile_id }

pub list_active_for_node : Db → ℕ → List DbRule
list_active_for_node db node_id =
    map (with_columns db) (retain (λ r. r.node_id == node_id && not r.deleted) db.rules)

pub list_active_for_tunnel : Db → ℕ → List DbRule
list_active_for_tunnel db tunnel_id =
    map (with_columns db) (retain (λ r. opt_is r.tunnel_id tunnel_id && not r.deleted) db.rules)

-- Every live row of the id is changed; the number of those is `rows_affected`.
abbrev pub update_rows : (DbRule → DbRule) → ℕ → List DbRule → List DbRule × ℕ
update_rows f id [] = ([], 0)
update_rows f id (r ∷ rs) =
    let (rest, n) = update_rows f id rs in
    if r.id == id && not r.deleted then (f r ∷ rest, suc n) else (r ∷ rest, n)

abbrev pub update_rule : (DbRule → DbRule) → Db → ℕ → Db × ℕ
update_rule f db id = let (rules, n) = update_rows f id db.rules in (record db { rules = rules }, n)

abbrev pub set_remote_af : Db → ℕ → String → Db × ℕ
set_remote_af db id remote_af = update_rule (λ r. record r { remote_af = remote_af }) db id

abbrev pub set_send_proxy_protocol : Db → ℕ → Bool → Db × ℕ
set_send_proxy_protocol db id enabled =
    update_rule (λ r. record r { send_proxy_protocol = enabled }) db id

abbrev pub set_targets : Db → ℕ → Option String → String → Db × ℕ
set_targets db id extra_targets lb_strategy =
    update_rule (λ r. record r { extra_targets = extra_targets; lb_strategy = lb_strategy }) db id

abbrev pub set_enabled : Db → ℕ → Bool → Db × ℕ
set_enabled db id enabled = update_rule (λ r. record r { enabled = enabled }) db id

abbrev pub soft_delete_rule : Db → ℕ → Db × ℕ
soft_delete_rule db id = update_rule (λ r. record r { deleted = true }) db id

-- COALESCE
abbrev pub coalesce {ℓ} : {A : Type ℓ} → Option A → A → A
coalesce none old = old
coalesce (some a) old = a

-- CASE WHEN ? IS NULL THEN old WHEN ? = 0 THEN NULL ELSE ? END
abbrev pub clear_or_set : Option ℕ → Option ℕ → Option ℕ
clear_or_set none old = old
clear_or_set (some zero) old = none
clear_or_set (some (suc n)) old = some (suc n)

abbrev pub clear_or_set_int : Option ℤ → Option ℤ → Option ℤ
clear_or_set_int none old = old
clear_or_set_int (some (pos zero)) old = none
clear_or_set_int (some z) old = some z

pub record Fields : Type 0 where
  pub name : Option String
  pub listen_ip : Option String
  pub listen_port : Option ℕ
  pub target_host : Option String
  pub target_port : Option ℕ
  pub bandwidth_profile_id : Option ℕ
  pub max_connections : Option ℤ

unfoldable pub with_fields : Fields → DbRule → DbRule
with_fields u r = record r {
  name = coalesce u.name r.name;
  listen_ip = coalesce u.listen_ip r.listen_ip;
  listen_port = coalesce u.listen_port r.listen_port;
  target_host = coalesce u.target_host r.target_host;
  target_port = coalesce u.target_port r.target_port;
  bandwidth_profile_id = clear_or_set u.bandwidth_profile_id r.bandwidth_profile_id;
  max_connections = clear_or_set_int u.max_connections r.max_connections;
}

-- models/tunnel.rs

abbrev pub find_tunnel : Db → ℕ → Option Tunnel
find_tunnel db id = first (λ t. t.id == id && not t.deleted) db.tunnels

unfoldable pub list_for_tunnel : Db → ℕ → List TunnelHop
list_for_tunnel db tunnel_id = retain (λ h. h.tunnel_id == tunnel_id) db.hops

abbrev pub hop_ids : List TunnelHop → List ℕ
hop_ids [] = []
hop_ids (h ∷ hs) = h.node_id ∷ hop_ids hs

abbrev pub tunnel_ids : List Tunnel → List ℕ
tunnel_ids [] = []
tunnel_ids (t ∷ ts) = t.id ∷ tunnel_ids ts

-- DISTINCT t.id, in the order of the tunnels.
pub list_tunnel_ids_for_node : Db → ℕ → List ℕ
list_tunnel_ids_for_node db node_id = tunnel_ids (
    retain (λ t. not t.deleted && any (λ h. h.tunnel_id == t.id && h.node_id == node_id) db.hops)
      db.tunnels)

pub find_hop_for_node : Db → ℕ → ℕ → Option TunnelHop
find_hop_for_node db tunnel_id node_id =
    first (λ h. h.tunnel_id == tunnel_id && h.node_id == node_id) db.hops

abbrev pub mark_deleted : ℕ → List Tunnel → List Tunnel
mark_deleted id [] = []
mark_deleted id (t ∷ ts) =
    let rest = mark_deleted id ts in
    if t.id == id && not t.deleted then record t { deleted = true } ∷ rest else t ∷ rest

-- The hops of a deleted tunnel are really removed.
pub soft_delete_tunnel : Db → ℕ → Db
soft_delete_tunnel db id = elim (first (λ t. t.id == id && not t.deleted) db.tunnels) [
  | none ↦ db
  | some t ↦ record db {
    tunnels = mark_deleted id db.tunnels;
    hops = retain (λ h. not (h.tunnel_id == id)) db.hops;
  }
]

-- models/node.rs

unfoldable pub find_node : Db → ℕ → Option Node
find_node db id = first (λ n. n.id == id && not n.deleted) db.nodes
