-- ===== src/Agent/Tunnel/Hop.antt =====
-- crates/node-agent/src/tunnel/task.rs: the accept loop of a middle hop or exit. A connection holds one of
-- the places for handshakes until its handshake ends, well or badly.
use emorelay.Base.{ℕ, suc, ◌-◌, Bool, List, [], ◌∷◌, ◌==◌, if◌then◌else◌}

abbrev pub hop_handshake_concurrency : ℕ
hop_handshake_concurrency = 256

pub record HopLoop : Type 0 where
  pub free : ℕ
  pub shaking : ℕ
  pub bridged : ℕ

abbrev pub new : HopLoop
new = record { free = hop_handshake_concurrency; shaking = 0; bridged = 0 }

-- A TCP connection comes; a handshake ends, and the connection is then handled if it went well; a
-- connection that is handled ends; the accept fails.
pub data Event : Type 0 where
  pending : Event
  handshake_ends : Bool → Event
  conn_ends accept_error : Event

unfoldable pub step : HopLoop → Event → HopLoop
step h pending = if h.free == 0 then h else record h { free = h.free - 1; shaking = suc h.shaking }
step h (handshake_ends good) = if h.shaking == 0 then h else record {
  free = suc h.free;
  shaking = h.shaking - 1;
  bridged = if good then suc h.bridged else h.bridged;
}
step h conn_ends = record h { bridged = h.bridged - 1 }
step h accept_error = h

abbrev pub run : HopLoop → List Event → HopLoop
run h [] = h
run h (e ∷ es) = run (step h e) es
