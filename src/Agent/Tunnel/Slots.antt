-- ===== src/Agent/Tunnel/Slots.antt =====
-- crates/node-agent/src/tunnel/task.rs: the places for handshakes.
use emorelay.Base.{◌+◌, ◌≡◌, refl, List, [], ◌∷◌, arith}
use emorelay.Agent.Tunnel.Hop.{
  HopLoop, hop_handshake_concurrency, new, Event, pending, handshake_ends, conn_ends, accept_error,
  step, run,
}

abbrev pub Balanced : HopLoop → Type 0
Balanced h = h.free + h.shaking ≡ hop_handshake_concurrency

step-Balanced : (h : HopLoop) (e : Event) → Balanced h → Balanced (step h e)
unfolding step
step-Balanced h pending b = ground (arith, b)
step-Balanced h (handshake_ends good) b = ground (arith, b)
step-Balanced h conn_ends b = b
step-Balanced h accept_error b = b

run_from-Balanced : (h : HopLoop) (es : List Event) → Balanced h → Balanced (run h es)
run_from-Balanced h [] b = b
run_from-Balanced h (e ∷ es) b = run_from-Balanced (step h e) es (step-Balanced h e b)

-- Through any connections, handshakes that end well or badly, and errors: the free places and the running
-- handshakes make 256 together. So no more than 256 handshakes run, the connections that are past their
-- handshake hold no place, and a connection is dropped only while 256 handshakes run.
pub run-Balanced : (es : List Event) → Balanced (run new es)
run-Balanced es = run_from-Balanced new es refl
