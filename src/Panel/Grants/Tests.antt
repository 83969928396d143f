-- ===== src/Panel/Grants/Tests.antt =====
-- crates/panel-server/src/models/grant.rs: grants of a small table.
use emorelay.Base.{◌≡◌, ◌&&◌, [], ◌∷◌, ◌==◌, is_some, contains, if◌then◌else◌}
use emorelay.Panel.Db.{find_node}
use emorelay.Panel.Sample.{db}
use emorelay.Panel.Grants.{Grants, node_granted, set_node_grants}
use emorelay.Panel.Grants.Replace.{set_node_grants-node_granted}

abbrev grants : Grants
grants = record {
  nodes = record { user_id = 2; node_id = 1 } ∷ record { user_id = 5; node_id = 1 } ∷ [];
  tunnels = [];
}

set_node_grants-node_granted_example :
    node_granted (set_node_grants db grants 2 (4 ∷ 9 ∷ 4 ∷ [])) 2 4 ≡ (
      if 2 == 2
      then contains (4 ∷ 9 ∷ 4 ∷ []) 4 && is_some (find_node db 4)
      else node_granted grants 2 4)
set_node_grants-node_granted_example = set_node_grants-node_granted db 2 grants (4 ∷ 9 ∷ 4 ∷ []) 2 4
