-- ===== src/Agent/Sample.antt =====
-- Data for the tests: two rules and what a system may answer. No code stands behind it.
use emorelay.Base.{
  ℕ, Bool, true, false, Option, none, some, List, [], ◌∷◌, ◌==◌, if◌then◌else◌, length,
}
use emorelay.Base.Signed.{pos}
use emorelay.Proto.{Rule, Command, apply_rule, restart_rule}
use emorelay.Agent.Manager
use emorelay.Agent.Manager.{Env, Kind, tcp, udp, tunnel}
use emorelay.Agent.Creds.{all_written, removed}
use emorelay.Agent.Retry
use emorelay.Agent.Store.{RuleJson, completes, json_of_rule}
use emorelay.Agent.Command.{World, Agent}
use emorelay.Agent.Session.{Session}

abbrev pub web : Rule
web = record {
  id = 7;
  protocol = "tcp_udp";
  listen_ip = "0.0.0.0";
  listen_port = 20000;
  target_host = "example.com";
  target_port = 443;
  enabled = true;
  bandwidth_mbps = pos 30;
  tunnel = none;
  max_connections = pos 0;
  blocked_protocols = 0;
  extra_targets = record { host = "backup.example.com"; port = 443 } ∷ [];
  lb_strategy = "fifo";
  send_proxy_protocol = false;
  remote_af = "auto";
}

abbrev pub relayed : Rule
relayed = record web {
  id = 9;
  protocol = "tcp";
  listen_port = 20001;
  tunnel = some (record {
    tunnel_id = 3;
    role = 1;
    next_hop_addr = "10.0.0.3";
    next_hop_inter_port = 30001;
    self_inter_port = 0;
    transport = "tls";
    self_ordinal = 0;
  });
}

-- Everything starts.
abbrev pub starts : Env
starts = record {
  start = λ k r. record { started = true; counted = true };
  make_transport = λ r. true;
}

-- No UDP socket can be bound.
abbrev pub no_udp : Env
no_udp = record {
  start = λ k r. record { started = not_udp k; counted = true };
  make_transport = λ r. true;
}
  where
    not_udp : Kind → Bool
    not_udp udp = false
    not_udp _ = true

abbrev pub fine : World
fine = record { env = starts; ending = completes; writes = all_written; removal = removed }

abbrev pub poor : World
poor = record { env = no_udp; ending = completes; writes = all_written; removal = removed }

abbrev pub blank : Agent
blank = record {
  manager = Manager.new;
  disk = record { state = none; tmp = none };
  creds = λ t o n. none;
  upgrading = false;
  upgrades = [];
}

abbrev pub idle : Session
idle = record { agent = blank; retry = Retry.new; probes = 0; session_over = false }

-- A codec for lists of at most one rule, of which it knows one.
abbrev pub to_vec : List RuleJson → List ℕ
to_vec rules = length rules ∷ []

abbrev pub from_slice : List ℕ → Option (List RuleJson)
from_slice [] = none
from_slice (n ∷ bytes) =
    if n == 0 then some [] else (if n == 1 then some (json_of_rule web ∷ []) else none)

abbrev pub apply_web : Command
apply_web = record { body = some (apply_rule (some web)) }

abbrev pub restart_web : Command
restart_web = record { body = some (restart_rule 7) }
