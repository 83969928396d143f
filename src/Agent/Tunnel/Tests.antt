-- ===== src/Agent/Tunnel/Tests.antt =====
-- crates/node-agent/src/tunnel/task.rs: tunnels with two middle hops.
use emorelay.Base.{
  ℕ, ◌≡◌, refl, Bool, true, false, Option, none, some, List, [], ◌∷◌, String, arith,
}
use emorelay.Base.Dict
use emorelay.Base.Ip.{IpAddr, v4}
use emorelay.Base.Result.{ok, err}
use emorelay.Base.Signed.{pos}
use emorelay.Proto.{Rule, TunnelContext}
use emorelay.Agent.Frame.{write_frame}
use emorelay.Agent.Frame.RoundTrip.{write_all}
use emorelay.Agent.Relay.{filter_af, guard_resolved_target, is_internal_addr, internal_v4, try_ips}
use emorelay.Agent.ConnLimit.{conn_limiter}
use emorelay.Agent.Tunnel.{
  Ports, start, start_entry, start_relay_hop, entry_task, hop_task, exit, bad_target_port,
  unspecified_role,
}
use emorelay.Agent.Tunnel.Stream.{through, copy_raw, entry_udp_stream}
use emorelay.Agent.Tunnel.Exit.{handle_exit, sends}
use emorelay.Agent.Tunnel.Delivery.{Datagrams, through-Datagrams, through-arrives}
use emorelay.Agent.Tunnel.Entry.{
  Event, packet, recv_error, tick, writes_next, run, idle, EntryUdp, UdpTunnelSession,
}
use emorelay.Agent.Tunnel.Table.{IsTable, run-IsEntryTable}
use emorelay.Agent.Tunnel.Recovery.{dead_session-replaced}
use emorelay.Agent.Tunnel.Target.{Reaches, handle_exit-Reaches}

abbrev public : IpAddr
public = v4 (record { a = 198; b = 51; c = 100; d = 7 })

abbrev private_ip : IpAddr
private_ip = v4 (record { a = 10; b = 0; c = 0; d = 1 })

abbrev parse : String → Option IpAddr
parse s = none

-- The name has an internal address and a public one.
abbrev resolve : String → Option (List IpAddr)
resolve s = some (private_ip ∷ public ∷ [])

abbrev connects : IpAddr → ℕ → Bool
connects ip port = true

abbrev sent_all : ℕ → Bool
sent_all n = true

abbrev payloads : List (List ℕ)
payloads = (1 ∷ 2 ∷ []) ∷ [] ∷ (3 ∷ []) ∷ []

abbrev frames : List ℕ
frames = 0 ∷ 2 ∷ 1 ∷ 2 ∷ 0 ∷ 0 ∷ 0 ∷ 1 ∷ 3 ∷ []

abbrev hops : List (List ℕ)
hops = (0 ∷ 2 ∷ 6 ∷ []) ∷ (9 ∷ []) ∷ []

written : write_all payloads ≡ some frames
unfolding write_frame
written = refl

drained : through hops (entry_udp_stream frames) ≡ entry_udp_stream frames
unfolding through copy_raw
drained = refl

through-Datagrams_example :
    Datagrams parse resolve connects connects sent_all "t.example" 53 "auto" payloads (
      handle_exit parse resolve connects connects sent_all "t.example" 53 "auto"
        (through ((0 ∷ 2 ∷ []) ∷ []) (entry_udp_stream frames)))
through-Datagrams_example =
    through-Datagrams parse resolve connects connects sent_all "t.example" 53 "auto"
      ((0 ∷ 2 ∷ []) ∷ []) payloads frames written

families : filter_af (private_ip ∷ public ∷ []) "v4" ≡ private_ip ∷ public ∷ []
unfolding filter_af
families = refl

tried : (try_ips parse connects "t.example" 53 (private_ip ∷ public ∷ [])).0 ≡ some public
unfolding try_ips guard_resolved_target is_internal_addr internal_v4
tried = refl

through-arrives_example :
    handle_exit parse resolve connects connects sent_all "t.example" 53 "v4"
      (through hops (entry_udp_stream frames))
    ≡ sends public payloads
through-arrives_example =
    through-arrives parse resolve connects connects sent_all "t.example" 53 "v4" hops payloads
      frames (private_ip ∷ public ∷ []) private_ip (public ∷ []) public (λ n. refl) written
      (omega arith, (omega arith, tt)) refl families tried

handle_exit-Reaches_example : Reaches parse "t.example" "v4" (
    handle_exit parse resolve connects connects sent_all "t.example" 53 "v4"
      (entry_udp_stream frames))
handle_exit-Reaches_example =
    handle_exit-Reaches parse resolve connects connects sent_all "t.example" 53 "v4"
      (entry_udp_stream frames)

abbrev day : List Event
day =
    packet 5 0 true true true (1 ∷ [])
    ∷ packet 5 1 true true true (2 ∷ [])
    ∷ writes_next 5 false
    ∷ recv_error
    ∷ packet 6 2 false true true (3 ∷ [])
    ∷ tick 200
    ∷ []

run-IsEntryTable_example : IsTable (run idle day)
run-IsEntryTable_example = run-IsEntryTable day

abbrev dead : UdpTunnelSession
dead = record { last_seen = 0; queued = []; writer_gone = true }

abbrev one_dead : EntryUdp
one_dead = record idle { sessions = (5, dead) ∷ [] }

one_dead-IsTable : IsTable one_dead
one_dead-IsTable = record { is_map = (refl, tt); within = omega arith; queues = (omega arith, tt) }

dead_session-replaced_example :
    Dict.lookup 5
      (run one_dead
        (packet 5 10 true true true (1 ∷ []) ∷ packet 5 11 true true true (2 ∷ []) ∷ [])).sessions
    ≡ some (record { last_seen = 11; queued = (2 ∷ []) ∷ []; writer_gone = false })
dead_session-replaced_example =
    dead_session-replaced one_dead 5 10 11 true true (1 ∷ []) (2 ∷ []) dead one_dead-IsTable refl
      refl

-- A rule of each role, and one whose target port is no port.
abbrev context : ℕ → TunnelContext
context role = record {
  tunnel_id = 3;
  role = role;
  next_hop_addr = "198.51.100.2";
  next_hop_inter_port = 30001;
  self_inter_port = 30000;
  transport = "tcp";
  self_ordinal = 0;
}

abbrev rule : ℕ → ℕ → Rule
rule role target_port = record {
  id = 9;
  protocol = "tcp_udp";
  listen_ip = "0.0.0.0";
  listen_port = 20001;
  target_host = "t.example";
  target_port = target_port;
  enabled = true;
  bandwidth_mbps = pos 0;
  tunnel = some (context role);
  max_connections = pos 0;
  blocked_protocols = 0;
  extra_targets = [];
  lb_strategy = "fifo";
  send_proxy_protocol = false;
  remote_af = "auto";
}

abbrev open_ports : Ports
open_ports = record { tcp_free = λ p. true; udp_free = λ p. true }

starts_entry :
    start (λ s. some public) open_ports (rule 1 443)
    ≡ ok (entry_task (public, 20001) true true ("198.51.100.2", 30001) none)
unfolding start start_entry conn_limiter
starts_entry = refl

starts_exit :
    start parse open_ports (rule 3 443)
    ≡ ok (hop_task 30000 ("198.51.100.2", 30001) (exit "t.example" 443 "auto"))
unfolding start start_relay_hop
starts_exit = refl

refuses_port : start parse open_ports (rule 3 70000) ≡ err bad_target_port
unfolding start
refuses_port = refl

refuses_role : start parse open_ports (rule 0 443) ≡ err unspecified_role
unfolding start
refuses_role = refl
