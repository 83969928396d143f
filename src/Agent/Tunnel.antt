-- ===== src/Agent/Tunnel.antt =====
-- crates/node-agent/src/tunnel/task.rs: what `start` makes of a rule with a tunnel. Which binds succeed is
-- an argument; the cancelling of connections when a task stops is left out.
pub mod Stream
pub mod Entry
pub mod Hop
pub mod Exit
pub mod Prefix
pub mod Delivery
pub mod Table
pub mod Recovery
pub mod Slots
pub mod Target
mod Tests
use emorelay.Base.{
  ℕ, ◌%◌, Bool, true, false, ◌||◌, Option, none, some, String, str_eq, ◌==◌, leb, is_some,
  if◌then◌else◌,
}
use emorelay.Base.Ip.{IpAddr}
use emorelay.Base.Result.{Result, ok, err, guard, require, ok_or, ◌>>=◌, ◌>>◌}
use emorelay.Proto.{Rule, TunnelContext}
use emorelay.Agent.ConnLimit.{conn_limiter}

-- `TunnelRole`
abbrev pub role_entry : ℕ
role_entry = 1

abbrev pub role_mid : ℕ
role_mid = 2

abbrev pub role_exit : ℕ
role_exit = 3

-- `u16::try_from`
abbrev pub to_u16 : ℕ → Option ℕ
to_u16 n = if leb n 65535 then some n else none

pub data HopMode : Type 0 where
  mid : HopMode
  exit : String → ℕ → String → HopMode

-- A task that runs: its listeners and where its connections go next.
pub data Task : Type 0 where
  entry_task : IpAddr × ℕ → Bool → Bool → String × ℕ → Option ℕ → Task
  hop_task : ℕ → String × ℕ → HopMode → Task

pub data StartError : Type 0 where
  no_context unspecified_role bad_target_port bad_listen_ip bad_listen_port bind_failed : StartError

-- Whether a port of the node can be bound, for TCP and for UDP.
pub record Ports : Type 0 where
  pub tcp_free : ℕ → Bool
  pub udp_free : ℕ → Bool

abbrev pub wants_tcp : String → Bool
wants_tcp p = str_eq p "tcp" || str_eq p "tcp_udp"

abbrev pub wants_udp : String → Bool
wants_udp p = str_eq p "udp" || str_eq p "tcp_udp"

-- `ctx.next_hop_inter_port as u16` keeps the low bits.
abbrev pub next_hop : TunnelContext → String × ℕ
next_hop ctx = (ctx.next_hop_addr, ctx.next_hop_inter_port % 65536)

module _ (parse : String → Option IpAddr) (ports : Ports) where
  unfoldable pub start_entry : Rule → TunnelContext → Result StartError Task
  start_entry rule ctx = do
    listen_ip ← ok_or (parse rule.listen_ip) bad_listen_ip
    listen_port ← ok_or (to_u16 rule.listen_port) bad_listen_port
    let tcp = wants_tcp rule.protocol
    let udp = wants_udp rule.protocol
    guard (if tcp then ports.tcp_free listen_port else true) bind_failed
    guard (if udp then ports.udp_free listen_port else true) bind_failed
    ok (
        entry_task (listen_ip, listen_port) tcp udp (next_hop ctx)
          (conn_limiter rule.max_connections))

  unfoldable pub start_relay_hop : TunnelContext → HopMode → Result StartError Task
  start_relay_hop ctx mode = do
    guard (ports.tcp_free ctx.self_inter_port) bind_failed
    ok (hop_task ctx.self_inter_port (next_hop ctx) mode)

  abbrev start_exit : Rule → TunnelContext → Result StartError Task
  start_exit rule ctx = do
    target_port ← ok_or (to_u16 rule.target_port) bad_target_port
    start_relay_hop ctx (exit rule.target_host target_port rule.remote_af)

  abbrev start_role : Rule → TunnelContext → Result StartError Task
  start_role rule ctx =
      if ctx.role == role_entry
      then start_entry rule ctx
      else (if ctx.role == role_mid
          then start_relay_hop ctx mid
          else (if ctx.role == role_exit then start_exit rule ctx else err unspecified_role))

  unfoldable pub start : Rule → Result StartError Task
  start rule = do ctx ← ok_or rule.tunnel no_context; start_role rule ctx
