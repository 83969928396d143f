-- ===== src/Agent/Tunnel/Entry.antt =====
-- crates/node-agent/src/tunnel/task.rs: the UDP loop at the entry of a tunnel, and the sessions that it alone
-- holds. A client's address is a number; instants are in seconds. A connect that takes longer than five
-- seconds counts as one that fails.
use emorelay.Base.{
  ℕ, ◌-◌, Bool, true, not, none, some, List, [], ◌∷◌, ◌++◌, length, leb, if◌then◌else◌,
}
use emorelay.Base.Dict
use emorelay.Base.Words.{wrapping_add}
use emorelay.Agent.Frame.{write_frame}

abbrev pub udp_session_timeout : ℕ
udp_session_timeout = 120

abbrev pub max_udp_sessions : ℕ
max_udp_sessions = 4096

-- The channel to the writer.
abbrev pub channel_capacity : ℕ
channel_capacity = 64

-- `queued` waits in the channel; `writer_gone` is the end of the writer, after which the channel is
-- closed.
pub record UdpTunnelSession : Type 0 where
  pub last_seen : ℕ
  pub queued : List (List ℕ)
  pub writer_gone : Bool

pub record EntryUdp : Type 0 where
  pub sessions : List (ℕ × UdpTunnelSession)
  pub tx_bytes : ℕ
  pub connection_count : ℕ
  pub error_count : ℕ

pub data TrySend : Type 0 where
  sent : UdpTunnelSession → TrySend
  full closed : TrySend

unfoldable pub try_send : UdpTunnelSession → List ℕ → TrySend
try_send s payload =
    if s.writer_gone
    then closed
    else (if leb channel_capacity (length s.queued)
        then full
        else sent (record s { queued = s.queued ++ (payload ∷ []) }))

abbrev pub count_error : EntryUdp → EntryUdp
count_error e = record e { error_count = wrapping_add e.error_count 1 }

abbrev pub put : EntryUdp → ℕ → UdpTunnelSession → EntryUdp
put e client s = record e { sessions = Dict.insert client s e.sessions }

-- A packet for a session that is there.
unfoldable pub forward : EntryUdp → ℕ → ℕ → UdpTunnelSession → List ℕ → EntryUdp
forward e client now s payload =
    let seen = record s { last_seen = now } in
    elim (try_send seen payload) [
      | sent s' ↦ put e client s'
      | full ↦ count_error (put e client seen)
      | closed ↦ count_error (record e { sessions = Dict.remove client e.sessions })
    ]

-- A packet of a new client: `opened` is whether the next hop was reached in time, and `writes` whether
-- the writer still runs when the first payload is sent to it.
unfoldable pub open_session : EntryUdp → ℕ → ℕ → Bool → Bool → List ℕ → EntryUdp
open_session e client now opened writes payload =
    if not opened
    then count_error e
    else let counted = record e { connection_count = wrapping_add e.connection_count 1 } in
      let fresh : UdpTunnelSession = record {
        last_seen = now;
        queued = [];
        writer_gone = not writes;
      } in
      elim (try_send fresh payload) [
        | sent s ↦ put counted client s
        | full ↦ count_error (put counted client fresh)
        | closed ↦ count_error (put counted client fresh)
      ]

-- `recv_from` has returned: the bytes are counted, and then the bucket decides.
unfoldable pub on_packet : EntryUdp → ℕ → ℕ → Bool → Bool → Bool → List ℕ → EntryUdp
on_packet e client now admitted opened writes payload =
    let counted = record e { tx_bytes = wrapping_add e.tx_bytes (length payload) } in
    if not admitted then count_error counted else elim (Dict.lookup client e.sessions) [
      | some s ↦ forward counted client now s payload
      | none ↦
          if leb max_udp_sessions (length e.sessions)
          then count_error counted
          else open_session counted client now opened writes payload
    ]

-- `sessions.retain`
unfoldable pub sweep : ℕ → List (ℕ × UdpTunnelSession) → List (ℕ × UdpTunnelSession)
sweep now [] = []
sweep now ((client, s) ∷ m) =
    let rest = sweep now m in
    if leb (now - s.last_seen) udp_session_timeout then (client, s) ∷ rest else rest

-- The writer takes the next payload and writes its frame; a payload that is no frame, or a write that
-- fails, ends it. What it has written is the second result.
unfoldable pub writer_step : UdpTunnelSession → Bool → UdpTunnelSession × List ℕ
writer_step s writes = elim s.queued [
  | [] ↦ (s, [])
  | payload ∷ rest ↦ if s.writer_gone then (s, []) else elim (write_frame payload) [
    | none ↦ (record s { queued = rest; writer_gone = true }, [])
    | some out ↦
        if writes
        then (record s { queued = rest }, out)
        else (record s { queued = rest; writer_gone = true }, [])
  ]
]

pub data Event : Type 0 where
  packet : ℕ → ℕ → Bool → Bool → Bool → List ℕ → Event
  recv_error : Event
  tick : ℕ → Event
  writes_next : ℕ → Bool → Event

unfoldable pub step : EntryUdp → Event → EntryUdp
step e (packet client now admitted opened writes payload) =
    on_packet e client now admitted opened writes payload
step e recv_error = count_error e
step e (tick now) = record e { sessions = sweep now e.sessions }
step e (writes_next client writes) = elim (Dict.lookup client e.sessions) [
  | none ↦ e
  | some s ↦ put e client (writer_step s writes).0
]

abbrev pub run : EntryUdp → List Event → EntryUdp
run e [] = e
run e (v ∷ vs) = run (step e v) vs

abbrev pub idle : EntryUdp
idle = record { sessions = []; tx_bytes = 0; connection_count = 0; error_count = 0 }
