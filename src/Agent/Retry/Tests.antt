-- ===== src/Agent/Retry/Tests.antt =====
-- crates/node-agent/src/retry.rs: a rule whose commands fail.

use emorelay.Base.{◌≡◌, refl, some}
use emorelay.Agent.Retry.{rule_id_of, body_rule_id}
use emorelay.Agent.Sample.{restart_web}

about_web : rule_id_of restart_web ≡ some 7
unfolding rule_id_of body_rule_id
about_web = refl
