-- ===== src/Panel/Split/Tests.antt =====
-- crates/panel-server/src/grpc/tunnel_split.rs: a chain of three hops.
use emorelay.Base.{refl, true, none, some, [], ◌∷◌}
use emorelay.Base.Signed.{pos}
use emorelay.Panel.Split.{SplitInput, HopInput}
use emorelay.Panel.Split.Chain.{Linked, split_tunnel_rule-Linked}

abbrev input : SplitInput
input = record {
  rule_id = 9;
  protocol = "tcp";
  listen_ip = "0.0.0.0";
  listen_port = 20001;
  target_host = "example.com";
  target_port = 443;
  enabled = true;
  bandwidth_mbps = pos 30;
  max_connections = pos 8;
  tunnel_id = 3;
  transport = "tls";
  remote_af = "auto";
}

abbrev entry : HopInput
entry = record { node_id = 1; inter_port = none; addr = "198.51.100.1" }

abbrev middle : HopInput
middle = record { node_id = 4; inter_port = some 30001; addr = "198.51.100.4" }

abbrev exit : HopInput
exit = record { node_id = 5; inter_port = some 30002; addr = "198.51.100.5" }

split_tunnel_rule-Linked_example : Linked input (entry ∷ middle ∷ exit ∷ []) 1 middle exit
split_tunnel_rule-Linked_example =
    split_tunnel_rule-Linked input (entry ∷ middle ∷ exit ∷ []) 1 middle exit refl refl
