-- ===== src/Panel/Grants.antt =====
-- crates/panel-server/src/models/grant.rs: which users may use which nodes and tunnels. The tables are
-- the lists of their rows.
pub mod Replace
mod Tests
use emorelay.Base.{
  ℕ, Bool, true, false, not, ◌&&◌, Option, none, some, List, [], ◌∷◌, ◌++◌, ◌==◌, if◌then◌else◌,
  retain, is_some, contains, any,
}
use emorelay.Base.Signed.{ℤ}
use emorelay.Panel.Db.{Db, first, find_node, find_tunnel}
use emorelay.Panel.Dispatcher.{lock_order}

pub record NodeGrant : Type 0 where
  pub user_id : ℕ
  pub node_id : ℕ

pub record TunnelGrant : Type 0 where
  pub user_id : ℕ
  pub tunnel_id : ℕ
  pub forward_rules_limit_in_tunnel : Option ℤ

pub record Grants : Type 0 where
  pub nodes : List NodeGrant
  pub tunnels : List TunnelGrant

unfoldable pub node_granted : Grants → ℕ → ℕ → Bool
node_granted g user_id node_id =
    is_some (first (λ r. r.user_id == user_id && r.node_id == node_id) g.nodes)

unfoldable pub tunnel_granted : Grants → ℕ → ℕ → Bool
tunnel_granted g user_id tunnel_id =
    is_some (first (λ r. r.user_id == user_id && r.tunnel_id == tunnel_id) g.tunnels)

-- No row and no limit are the same here.
unfoldable pub tunnel_grant_num : Grants → ℕ → ℕ → Option ℤ
tunnel_grant_num g user_id tunnel_id =
    elim (first (λ r. r.user_id == user_id && r.tunnel_id == tunnel_id) g.tunnels) [
      | none ↦ none
      | some r ↦ r.forward_rules_limit_in_tunnel
    ]

-- The `HashSet` keeps the first grant of each tunnel.
unfoldable pub dedup_grants : List ℕ → List (ℕ × Option ℤ) → List (ℕ × Option ℤ)
dedup_grants seen [] = []
dedup_grants seen ((tid, num) ∷ grants) =
    let fresh = dedup_grants (tid ∷ seen) grants in
    let rest = dedup_grants seen grants in if contains seen tid then rest else (tid, num) ∷ fresh

-- Rows for nodes that are gone are not inserted.
abbrev pub node_rows : Db → ℕ → List ℕ → List NodeGrant
node_rows db user_id [] = []
node_rows db user_id (nid ∷ nids) =
    let rest = node_rows db user_id nids in
    if is_some (find_node db nid) then record { user_id = user_id; node_id = nid } ∷ rest else rest

abbrev pub tunnel_rows : Db → ℕ → List (ℕ × Option ℤ) → List TunnelGrant
tunnel_rows db user_id [] = []
tunnel_rows db user_id ((tid, num) ∷ grants) =
    let rest = tunnel_rows db user_id grants in
    if is_some (find_tunnel db tid)
    then record { user_id = user_id; tunnel_id = tid; forward_rules_limit_in_tunnel = num } ∷ rest
    else rest

unfoldable pub set_node_grants : Db → Grants → ℕ → List ℕ → Grants
set_node_grants db g user_id node_ids = record g {
  nodes =
      retain (λ r. not (r.user_id == user_id)) g.nodes
      ++ node_rows db user_id (lock_order node_ids);
}

unfoldable pub set_tunnel_grants : Db → Grants → ℕ → List (ℕ × Option ℤ) → Grants
set_tunnel_grants db g user_id grants = record g {
  tunnels =
      retain (λ r. not (r.user_id == user_id)) g.tunnels
      ++ tunnel_rows db user_id (dedup_grants [] grants);
}
