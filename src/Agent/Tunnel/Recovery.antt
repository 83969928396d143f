-- ===== src/Agent/Tunnel/Recovery.antt =====
-- crates/node-agent/src/tunnel/task.rs: a session whose connection has died does not last.
use emorelay.Base.{
  ℕ, suc, ◌≤◌, ◌≡◌, refl, ap, ◌∙◌, Bool, true, false, none, some, List, [], ◌∷◌, length, leb,
  if◌then◌else◌, ==_refl, arith,
}
use emorelay.Base.Dict
use emorelay.Agent.Tunnel.Entry.{
  UdpTunnelSession, EntryUdp, max_udp_sessions, try_send, forward, open_session, on_packet, packet,
  step, run,
}
use emorelay.Agent.Tunnel.Table.{IsTable, length-remove_found}

dead-removed :
    (e : EntryUdp) (c now : ℕ) (opened writes : Bool) (p : List ℕ) (s : UdpTunnelSession)
    → Dict.lookup c e.sessions ≡ some s
    → s.writer_gone ≡ true
    → (on_packet e c now true opened writes p).sessions ≡ Dict.remove c e.sessions
unfolding on_packet forward try_send
dead-removed e c now opened writes p s f g =
    rw (f, on_packet, g, forward, try_send, if◌then◌else◌) refl

new-queued :
    (e : EntryUdp) (c now : ℕ) (p : List ℕ)
    → Dict.lookup c e.sessions ≡ none
    → suc (length e.sessions) ≤ max_udp_sessions
    → Dict.lookup c (on_packet e c now true true true p).sessions
      ≡ some (record { last_seen = now; queued = p ∷ []; writer_gone = false })
unfolding on_packet open_session try_send
new-queued e c now p f room =
    let below : leb max_udp_sessions (length e.sessions) ≡ false = ground (arith, room) in
    rw (f, below, ==_refl c, if◌then◌else◌) refl

-- A client whose tunnel connection has died is not cut off: the packet that finds this out is lost, and
-- the next one, if the bucket admits it and the next hop is reached, waits in a new session.
pub dead_session-replaced :
    (e : EntryUdp) (c first second : ℕ) (opened writes : Bool) (p q : List ℕ) (s : UdpTunnelSession)
    → IsTable e
    → Dict.lookup c e.sessions ≡ some s
    → s.writer_gone ≡ true
    → Dict.lookup c
        (run e
          (packet c first true opened writes p ∷ packet c second true true true q ∷ [])).sessions
      ≡ some (record { last_seen = second; queued = q ∷ []; writer_gone = false })
unfolding step
dead_session-replaced e c first second opened writes p q s t f g =
    let e' = on_packet e c first true opened writes p in
    let removed = dead-removed e c first opened writes p s f g in
    let gone : Dict.lookup c e'.sessions ≡ none =
      ap (Dict.lookup c) removed
      ∙ Dict.lookup-remove c c e.sessions
      ∙ rw (==_refl c, if◌then◌else◌) refl in
    let size = ap length removed in
    new-queued e' c second q gone
      (omega (arith, size, length-remove_found c e.sessions s f, t.within))
