-- ===== src/Panel/Sample.antt =====
-- Data for the tests: a node with a plain rule, and a tunnel of three hops with a rule. No code stands
-- behind it.
use emorelay.Base.{ℕ, true, false, Option, none, some, List, [], ◌∷◌, String}
use emorelay.Base.Signed.{pos}
use emorelay.Proto.{TargetEndpoint, TunnelCredentials}
use emorelay.Panel.Db.{Db, DbRule, TunnelHop, Node}

abbrev pub row : DbRule
row = record {
  id = 7;
  user_id = 2;
  node_id = 1;
  name = "web";
  protocol = "tcp_udp";
  listen_ip = "0.0.0.0";
  listen_port = 20000;
  target_host = "example.com";
  target_port = 443;
  enabled = true;
  bandwidth_profile_id = none;
  bandwidth_mbps = some (pos 30);
  tunnel_id = none;
  max_connections = none;
  extra_targets = none;
  lb_strategy = "fifo";
  send_proxy_protocol = false;
  remote_af = "auto";
  deleted = false;
}

abbrev pub tunnel_row : DbRule
tunnel_row = record row {
  id = 9;
  name = "far";
  protocol = "tcp";
  listen_port = 20001;
  tunnel_id = some 3;
}

abbrev pub node : ℕ → Node
node id = record {
  id = id;
  public_ip = "198.51.100.1";
  port_pool_min = 20000;
  port_pool_max = 20003;
  block_protocols = pos 1;
  deleted = false;
}

abbrev pub hop : ℕ → ℕ → Option ℕ → TunnelHop
hop ordinal node_id inter_port = record {
  tunnel_id = 3;
  ordinal = ordinal;
  node_id = node_id;
  inter_port = inter_port;
}

abbrev pub db : Db
db = record {
  rules = row ∷ tunnel_row ∷ [];
  tunnels =
      record {
        id = 3;
        transport = "tls";
        billing_mode = 1;
        traffic_ratio = 1000000;
        deleted = false;
      }
      ∷ [];
  hops = hop 0 1 none ∷ hop 1 4 (some 30001) ∷ hop 2 5 (some 30002) ∷ [];
  nodes = node 1 ∷ node 4 ∷ node 5 ∷ [];
  profiles = record { id = 4; bandwidth_mbps = pos 30; deleted = false } ∷ [];
  next_rule_id = 10;
}

abbrev pub from_str : String → Option (List TargetEndpoint)
from_str s = none

abbrev pub issue : ℕ → ℕ → Option TunnelCredentials
issue tunnel_id ordinal = some (record {
  tunnel_id = tunnel_id;
  ordinal = pos ordinal;
  server_cert_pem = "S";
  server_key_pem = "SK";
  client_cert_pem = "C";
  client_key_pem = "CK";
  ca_pem = "CA";
})
