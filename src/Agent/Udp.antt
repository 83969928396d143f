-- ===== src/Agent/Udp.antt =====
-- crates/node-agent/src/relay/udp.rs: the table of sessions of a UDP listener. A client's address is a
-- number; instants are in seconds; `running` counts the tasks that carry answers back. A connect
-- happens outside the lock, so that a packet is two steps, between which others may come.
pub mod Table
mod Tests
use emorelay.Base.{
  ℕ, zero, suc, ◌+◌, ◌-◌, Bool, true, false, not, ◌&&◌, Option, none, some, List, [], ◌∷◌,
  if◌then◌else◌, leb, ltb, length, is_some,
}
use emorelay.Base.Dict
use emorelay.Base.Words.{wrapping_add}

abbrev pub session_timeout : ℕ
session_timeout = 120

abbrev pub max_udp_sessions : ℕ
max_udp_sessions = 4096

-- `finished` is `upstream_task.is_finished()`.
pub record Session : Type 0 where
  pub last_seen : ℕ
  pub finished : Bool

pub record UdpRelay : Type 0 where
  pub sessions : List (ℕ × Session)
  pub running : ℕ
  pub connection_count : ℕ
  pub error_count : ℕ

abbrev pub idle : UdpRelay
idle = record { sessions = []; running = 0; connection_count = 0; error_count = 0 }

abbrev pub count_error : UdpRelay → UdpRelay
count_error r = record r { error_count = wrapping_add r.error_count 1 }

-- What becomes of a packet in the first critical section.
pub data Verdict : Type 0 where
  limited sent failed full connects : Verdict

-- A session whose task has ended is removed.
abbrev pub drop_finished : UdpRelay → ℕ → UdpRelay
drop_finished r client = elim (Dict.lookup client r.sessions) [
  | none ↦ r
  | some s ↦ if s.finished then record r { sessions = Dict.remove client r.sessions } else r
]

abbrev pub touch : UdpRelay → ℕ → ℕ → Session → UdpRelay
touch r client now s = record r {
  sessions = Dict.insert client (record s { last_seen = now }) r.sessions;
}

-- Before the connect: the bucket, the session that is there, and the limit. `sends` is whether the send
-- on an existing session succeeds.
pub begin : ℕ → UdpRelay → ℕ → ℕ → Bool → Bool → UdpRelay × Verdict
begin max_sessions r client now admitted sends =
    let kept = drop_finished r client in
    if not admitted then (count_error r, limited) else elim (Dict.lookup client kept.sessions) [
      | some s ↦
          if sends
          then (touch kept client now s, sent)
          else (count_error (touch kept client now s), failed)
      | none ↦
          if leb max_sessions (length kept.sessions)
          then (count_error kept, full)
          else (kept, connects)
    ]

abbrev pub spawn : UdpRelay → UdpRelay
spawn r = record r { running = suc r.running }

abbrev pub abort : UdpRelay → UdpRelay
abort r = record r { running = r.running - 1 }

abbrev pub establish : UdpRelay → ℕ → ℕ → UdpRelay
establish r client now = record r {
  sessions = Dict.insert client (record { last_seen = now; finished = false }) r.sessions;
  connection_count = wrapping_add r.connection_count 1;
}

-- The second critical section, with the new task running: a session that came meanwhile is used if its
-- task runs; the limit is judged again.
pub settle : ℕ → UdpRelay → ℕ → ℕ → Bool → UdpRelay
settle max_sessions r client now sends = elim (Dict.lookup client r.sessions) [
  | some s ↦
      if s.finished
      then establish r client now
      else (if sends
          then touch (abort r) client now s
          else count_error (touch (abort r) client now s))
  | none ↦
      if leb max_sessions (length r.sessions) then count_error (abort r) else establish r client now
]

-- After the connect: no address could be connected in time or the first packet was not sent, or the
-- task is spawned.
pub finish : ℕ → UdpRelay → ℕ → ℕ → Bool → Bool → UdpRelay
unfolding settle
finish max_sessions r client now connected sends =
    if connected then settle max_sessions (spawn r) client now sends else count_error r

-- A task that carried answers back ends by itself, after an error.
pub task_ends : UdpRelay → ℕ → UdpRelay
task_ends r client = elim (Dict.lookup client r.sessions) [
  | none ↦ r
  | some s ↦
      if s.finished
      then r
      else abort
          (record r { sessions = Dict.insert client (record s { finished = true }) r.sessions })
]

abbrev pub is_expired : ℕ → Session → Bool
is_expired now s = ltb session_timeout (now - s.last_seen)

-- The sessions that stay, and the tasks that still run.
pub sweep_sessions : ℕ → List (ℕ × Session) → ℕ → List (ℕ × Session) × ℕ
sweep_sessions now [] running = ([], running)
sweep_sessions now ((client, s) ∷ m) running =
    let (kept, left) = sweep_sessions now m running in
    if is_expired now s
    then (kept, if s.finished then left else left - 1)
    else ((client, s) ∷ kept, left)

pub sweep_expired : UdpRelay → ℕ → UdpRelay
unfolding sweep_sessions
sweep_expired r now =
    let (kept, left) = sweep_sessions now r.sessions r.running in
    record r { sessions = kept; running = left }

pub drain_sessions : List (ℕ × Session) → ℕ → ℕ
drain_sessions [] running = running
drain_sessions ((client, s) ∷ m) running =
    let left = drain_sessions m running in if s.finished then left else left - 1

-- The end of the listener: every task is aborted.
pub stop : UdpRelay → UdpRelay
unfolding drain_sessions
stop r = record r { sessions = []; running = drain_sessions r.sessions r.running }

pub data Event : Type 0 where
  packet : ℕ → ℕ → Bool → Bool → Event
  connect_ends : ℕ → ℕ → Bool → Bool → Event
  ends : ℕ → Event
  sweep : ℕ → Event
  recv_error : Event

pub step : ℕ → UdpRelay → Event → UdpRelay
unfolding begin finish task_ends sweep_expired
step max r (packet client now admitted sends) = (begin max r client now admitted sends).0
step max r (connect_ends client now connected sends) = finish max r client now connected sends
step max r (ends client) = task_ends r client
step max r (sweep now) = sweep_expired r now
step max r recv_error = count_error r
