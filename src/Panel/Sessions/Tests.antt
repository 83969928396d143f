-- ===== src/Panel/Sessions/Tests.antt =====
-- crates/panel-server/src/grpc/session.rs: runs of the registry.
use emorelay.Base.{ℕ, ◌≡◌, refl, none, List, [], ◌∷◌}
use emorelay.Panel.Sessions.{SessionInfo, new, verify, insert, revoke_node}
use emorelay.Panel.Sessions.Revocation.{Call, inserts, revokes, run}

abbrev session : ℕ → SessionInfo
session node_id = record { node_id = node_id; expires_at_unix = 100; issuing_fp = none }

abbrev calls : List Call
calls = inserts "a" (session 1) ∷ inserts "b" (session 2) ∷ revokes 1 ∷ inserts "c" (session 1) ∷ []

revoked : verify (run new calls) "a" 50 ≡ none
unfolding verify new insert revoke_node
revoked = refl
