-- ===== src/Agent/Tunnel/Table.antt =====
-- crates/node-agent/src/tunnel/task.rs: the table of sessions at the entry keeps its limits.
use emorelay.Base.{
  ℕ, suc, ◌-◌, ◌≤◌, ◌≡◌, refl, sym, ap, subst, ◌∙◌, Bool, true, false, some, List, [], ◌∷◌, ◌++◌,
  length, length-append, leb, if◌then◌else◌, ◌==◌, contains, All, arith, Bool-cases, Option-cases,
  List-cases, inl, inr, unwrap_or,
}
use emorelay.Base.Dict
use emorelay.Base.Words.{wrapping_add}
use emorelay.Agent.Frame.{write_frame}
use emorelay.Agent.Tunnel.Entry.{
  UdpTunnelSession, EntryUdp, max_udp_sessions, channel_capacity, try_send, put, forward,
  open_session, on_packet, sweep, udp_session_timeout, writer_step, Event, packet, recv_error, tick,
  writes_next, step, run, idle,
}

-- One session for each client, no more sessions than the limit, and no more payloads in a channel than
-- it holds.
pub record IsTable (e : EntryUdp) : Type 0 where
  pub is_map : Dict.IsMap e.sessions
  pub within : length e.sessions ≤ max_udp_sessions
  pub queues : All (λ (p : ℕ × UdpTunnelSession). length p.1.queued ≤ channel_capacity) e.sessions

abbrev Queues : List (ℕ × UdpTunnelSession) → Type 0
Queues m = All (λ (p : ℕ × UdpTunnelSession). length p.1.queued ≤ channel_capacity) m

remove-Queues : (c : ℕ) (m : List (ℕ × UdpTunnelSession)) → Queues m → Queues (Dict.remove c m)
remove-Queues c [] q = tt
remove-Queues c ((j, s) ∷ m) (a, q) = elim (Bool-cases (j == c)) [
  | inl e ↦ rw (e, if◌then◌else◌) (remove-Queues c m q)
  | inr e ↦ rw (e, if◌then◌else◌) (a, remove-Queues c m q)
]

lookup-Queues :
    (c : ℕ) (m : List (ℕ × UdpTunnelSession)) (s : UdpTunnelSession)
    → Queues m
    → Dict.lookup c m ≡ some s
    → length s.queued ≤ channel_capacity
lookup-Queues c [] s q e = absurd (ground (arith, e))
lookup-Queues c ((j, t) ∷ m) s (a, q) e = elim (Bool-cases (j == c)) [
  | inl f ↦
      let same : some t ≡ some s = ap (λ b. if b then some t else Dict.lookup c m) (sym f) ∙ e in
      subst (λ (x : UdpTunnelSession). length x.queued ≤ channel_capacity)
        (ap (λ o. unwrap_or o t) same) a
  | inr f ↦ lookup-Queues c m s q (ap (λ b. if b then some t else Dict.lookup c m) (sym f) ∙ e)
]

length-remove : (c : ℕ) (m : List (ℕ × UdpTunnelSession)) → length (Dict.remove c m) ≤ length m
length-remove c [] = omega arith
length-remove c ((j, s) ∷ m) = ground (arith, length-remove c m)

pub length-remove_found :
    (c : ℕ) (m : List (ℕ × UdpTunnelSession)) (s : UdpTunnelSession)
    → Dict.lookup c m ≡ some s
    → suc (length (Dict.remove c m)) ≤ length m
length-remove_found c [] s e = absurd (ground (arith, e))
length-remove_found c ((j, t) ∷ m) s e = elim (Bool-cases (j == c)) [
  | inl f ↦ rw (f, if◌then◌else◌) (omega (arith, length-remove c m))
  | inr f ↦
      rw (f, if◌then◌else◌)
        (omega (
          arith,
          length-remove_found c m s (ap (λ b. if b then some t else Dict.lookup c m) (sym f) ∙ e),
        ))
]

put-IsTable :
    (e : EntryUdp) (c : ℕ) (s : UdpTunnelSession)
    → IsTable e
    → suc (length (Dict.remove c e.sessions)) ≤ max_udp_sessions
    → length s.queued ≤ channel_capacity
    → IsTable (put e c s)
put-IsTable e c s t room q = record {
  is_map = Dict.insert-IsMap c s e.sessions t.is_map;
  within = room;
  queues = (q, remove-Queues c e.sessions t.queues);
}

replace-room :
    (e : EntryUdp) (c : ℕ) (s : UdpTunnelSession)
    → IsTable e
    → Dict.lookup c e.sessions ≡ some s
    → suc (length (Dict.remove c e.sessions)) ≤ max_udp_sessions
replace-room e c s t f = omega (arith, length-remove_found c e.sessions s f, t.within)

remove-IsTable :
    (e : EntryUdp) (c : ℕ) → IsTable e → IsTable (record e { sessions = Dict.remove c e.sessions })
remove-IsTable e c t = record {
  is_map = Dict.remove-IsMap c e.sessions t.is_map;
  within = omega (arith, length-remove c e.sessions, t.within);
  queues = remove-Queues c e.sessions t.queues;
}

-- The counters do not matter.
same-IsTable : (e f : EntryUdp) → e.sessions ≡ f.sessions → IsTable e → IsTable f
same-IsTable e f s t = record {
  is_map = subst Dict.IsMap s t.is_map;
  within = subst (λ m. length m ≤ max_udp_sessions) s t.within;
  queues = subst Queues s t.queues;
}

forward-IsTable :
    (e : EntryUdp) (c now : ℕ) (s : UdpTunnelSession) (payload : List ℕ)
    → IsTable e
    → Dict.lookup c e.sessions ≡ some s
    → IsTable (forward e c now s payload)
unfolding forward try_send
forward-IsTable e c now s payload t f =
    let q = lookup-Queues c e.sessions s t.queues f in
    let room = replace-room e c s t f in
    elim (Bool-cases s.writer_gone) [
      | inl g ↦
          rw (g, forward, try_send, if◌then◌else◌)
            (same-IsTable (record e { sessions = Dict.remove c e.sessions }) _ refl
              (remove-IsTable e c t))
      | inr g ↦ elim (Bool-cases (leb channel_capacity (length s.queued))) [
        | inl h ↦
            rw (g, h, forward, try_send, if◌then◌else◌)
              (same-IsTable (put e c (record s { last_seen = now })) _ refl
                (put-IsTable e c (record s { last_seen = now }) t room q))
        | inr h ↦
            let grown = length-append s.queued (payload ∷ []) in
            rw (g, h, forward, try_send, if◌then◌else◌)
              (put-IsTable e c
                (record s {
                  last_seen = now;
                  queued = s.queued ++ (payload ∷ []);
                  writer_gone = false;
                })
                t room (ground (arith, h, grown)))
      ]
    ]

open_session-IsTable :
    (e : EntryUdp) (c now : ℕ) (opened writes : Bool) (payload : List ℕ)
    → IsTable e
    → suc (length e.sessions) ≤ max_udp_sessions
    → IsTable (open_session e c now opened writes payload)
unfolding open_session try_send
open_session-IsTable e c now false writes payload t room = same-IsTable e _ refl t
open_session-IsTable e c now true true payload t room =
    put-IsTable (record e { connection_count = wrapping_add e.connection_count 1 }) c
      (record { last_seen = now; queued = payload ∷ []; writer_gone = false })
      (same-IsTable e _ refl t) (omega (arith, length-remove c e.sessions, room)) (omega arith)
open_session-IsTable e c now true false payload t room =
    let counted = record e { connection_count = wrapping_add e.connection_count 1 } in
    same-IsTable (put counted c (record { last_seen = now; queued = []; writer_gone = true })) _
      refl
      (put-IsTable counted c (record { last_seen = now; queued = []; writer_gone = true })
        (same-IsTable e counted refl t) (omega (arith, length-remove c e.sessions, room))
        (omega arith))

on_packet-IsTable :
    (e : EntryUdp) (c now : ℕ) (admitted opened writes : Bool) (payload : List ℕ)
    → IsTable e
    → IsTable (on_packet e c now admitted opened writes payload)
unfolding on_packet
on_packet-IsTable e c now false opened writes payload t = same-IsTable e _ refl t
on_packet-IsTable e c now true opened writes payload t =
    let counted = record e { tx_bytes = wrapping_add e.tx_bytes (length payload) } in
    let k = same-IsTable e counted refl t in
    elim (Option-cases (Dict.lookup c e.sessions)) [
      | inr (s, f) ↦ rw f (forward-IsTable counted c now s payload k f)
      | inl f ↦ elim (Bool-cases (leb max_udp_sessions (length e.sessions))) [
        | inl g ↦ rw (f, g) (same-IsTable e _ refl t)
        | inr g ↦
            rw (f, g)
              (open_session-IsTable counted c now opened writes payload k (ground (arith, g)))
      ]
    ]

sweep-absent :
    (now j : ℕ) (m : List (ℕ × UdpTunnelSession))
    → contains (Dict.keys m) j ≡ false
    → contains (Dict.keys (sweep now m)) j ≡ false
unfolding sweep
sweep-absent now j [] h = refl
sweep-absent now j ((c, s) ∷ m) h = ground (arith, h, sweep-absent now j m)

sweep-IsMap : (now : ℕ) (m : List (ℕ × UdpTunnelSession)) → Dict.IsMap m → Dict.IsMap (sweep now m)
unfolding sweep
sweep-IsMap now [] u = tt
sweep-IsMap now ((c, s) ∷ m) (n, u) =
    elim (Bool-cases (leb (now - s.last_seen) udp_session_timeout)) [
      | inl e ↦ rw (e, if◌then◌else◌) (sweep-absent now c m n, sweep-IsMap now m u)
      | inr e ↦ rw (e, if◌then◌else◌) (sweep-IsMap now m u)
    ]

sweep-Queues :
    (now : ℕ) (m : List (ℕ × UdpTunnelSession))
    → Queues m
    → Queues (sweep now m) × (length (sweep now m) ≤ length m)
unfolding sweep
sweep-Queues now [] q = (tt, omega arith)
sweep-Queues now ((c, s) ∷ m) (a, q) =
    let (rest, short) = sweep-Queues now m q in
    elim (Bool-cases (leb (now - s.last_seen) udp_session_timeout)) [
      | inl e ↦ rw (e, if◌then◌else◌) ((a, rest), omega (arith, short))
      | inr e ↦ rw (e, if◌then◌else◌) (rest, omega (arith, short))
    ]

writer_step-queued :
    (s : UdpTunnelSession) (writes : Bool)
    → length (writer_step s writes).0.queued ≤ length s.queued
unfolding writer_step
writer_step-queued s writes = elim (List-cases s.queued) [
  | inl e ↦ rw (e, writer_step) (ground (arith, e))
  | inr (payload, rest, e) ↦ elim (Bool-cases s.writer_gone) [
    | inl g ↦ rw (e, g, writer_step) (ground (arith, e))
    | inr g ↦ elim (Option-cases (write_frame payload)) [
      | inl h ↦ rw (e, g, h, writer_step) (ground (arith, e))
      | inr (out, h) ↦ elim (Bool-cases writes) [
        | inl i ↦ rw (e, g, h, i, writer_step) (ground (arith, e))
        | inr i ↦ rw (e, g, h, i, writer_step) (ground (arith, e))
      ]
    ]
  ]
]

step-IsTable : (e : EntryUdp) (v : Event) → IsTable e → IsTable (step e v)
unfolding step
step-IsTable e (packet c now admitted opened writes payload) t =
    on_packet-IsTable e c now admitted opened writes payload t
step-IsTable e recv_error t = same-IsTable e _ refl t
step-IsTable e (tick now) t =
    let (queues, short) = sweep-Queues now e.sessions t.queues in
    record {
      is_map = sweep-IsMap now e.sessions t.is_map;
      within = omega (arith, short, t.within);
      queues = queues;
    }
step-IsTable e (writes_next c writes) t = elim (Option-cases (Dict.lookup c e.sessions)) [
  | inl f ↦ rw (f, step) t
  | inr (s, f) ↦
      rw (f, step)
        (put-IsTable e c (writer_step s writes).0 t (replace-room e c s t f)
          (omega (arith, writer_step-queued s writes, lookup-Queues c e.sessions s t.queues f)))
]

run_from-IsTable : (e : EntryUdp) (vs : List Event) → IsTable e → IsTable (run e vs)
run_from-IsTable e [] t = t
run_from-IsTable e (v ∷ vs) t = run_from-IsTable (step e v) vs (step-IsTable e v t)

-- Through any packets, errors, sweeps and writes: the entry holds one session for each client, never more
-- than the 4096 sessions of its limit, and never more payloads for a writer than the 64 of its channel.
pub run-IsEntryTable : (vs : List Event) → IsTable (run idle vs)
run-IsEntryTable vs =
    run_from-IsTable idle vs (record { is_map = tt; within = omega arith; queues = tt })
