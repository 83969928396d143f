-- ===== src/Panel/Sessions.antt =====
-- crates/panel-server/src/grpc/session.rs: the sessions of the nodes.
pub mod Revocation
mod Tests
use emorelay.Base.{
  ℕ, Bool, not, Option, none, some, List, [], ◌∷◌, String, str_eq, ◌==◌, ltb, if◌then◌else◌,
}

pub record SessionInfo : Type 0 where
  pub node_id : ℕ
  pub expires_at_unix : ℕ
  pub issuing_fp : Option String

pub record SessionRegistry : Type 0 where
  pub sessions : List (String × SessionInfo)

abbrev pub get : List (String × SessionInfo) → String → Option SessionInfo
get [] token = none
get ((t, s) ∷ m) token = if str_eq t token then some s else get m token

abbrev pub drop_token : List (String × SessionInfo) → String → List (String × SessionInfo)
drop_token [] token = []
drop_token ((t, s) ∷ m) token =
    if str_eq t token then drop_token m token else (t, s) ∷ drop_token m token

abbrev pub retain_other_nodes : List (String × SessionInfo) → ℕ → List (String × SessionInfo)
retain_other_nodes [] node_id = []
retain_other_nodes ((t, s) ∷ m) node_id =
    if not (s.node_id == node_id)
    then (t, s) ∷ retain_other_nodes m node_id
    else retain_other_nodes m node_id

pub new : SessionRegistry
new = record { sessions = [] }

pub insert : SessionRegistry → String → SessionInfo → SessionRegistry
insert r token info = record { sessions = (token, info) ∷ drop_token r.sessions token }

pub verify : SessionRegistry → String → ℕ → Option SessionInfo
verify r token now_unix = elim (get r.sessions token) [
  | none ↦ none
  | some s ↦ if ltb now_unix s.expires_at_unix then some s else none
]

pub revoke_node : SessionRegistry → ℕ → SessionRegistry
revoke_node r node_id = record { sessions = retain_other_nodes r.sessions node_id }
