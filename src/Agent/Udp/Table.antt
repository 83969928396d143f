-- ===== src/Agent/Udp/Table.antt =====
-- The table stays within its limit, and no task runs that the table does not hold.
use emorelay.Base.{
  ℕ, suc, ◌+◌, ◌-◌, ◌≤◌, ◌≡◌, refl, subst, Bool, true, false, none, some, List, [], ◌∷◌,
  if◌then◌else◌, leb, ◌==◌, ==_iff, length, contains, arith, Bool-cases, Option-cases, inl, inr,
}
use emorelay.Base.Dict
use emorelay.Agent.Udp.{
  Session, UdpRelay, idle, count_error, drop_finished, touch, begin, settle, finish, task_ends,
  is_expired, sweep_sessions, sweep_expired, drain_sessions, stop, Event, packet, connect_ends,
  ends, sweep, recv_error, step,
}

abbrev pub alive : Session → ℕ
alive s = if s.finished then 0 else 1

abbrev pub count_alive : List (ℕ × Session) → ℕ
count_alive [] = 0
count_alive ((c, s) ∷ m) = alive s + count_alive m

pub record IsTable (max : ℕ) (r : UdpRelay) : Type 0 where
  pub is_map : Dict.IsMap r.sessions
  pub within : length r.sessions ≤ max
  pub owned : r.running ≡ count_alive r.sessions

absent-remove :
    (c : ℕ) (m : List (ℕ × Session))
    → Dict.lookup c m ≡ none
    → (count_alive (Dict.remove c m) ≡ count_alive m) × (length (Dict.remove c m) ≡ length m)
absent-remove c [] e = (refl, refl)
absent-remove c ((j, s) ∷ m) e = ground (arith, e, absent-remove c m)

absent :
    (c : ℕ) (m : List (ℕ × Session)) → contains (Dict.keys m) c ≡ false → Dict.lookup c m ≡ none
absent c m h = elim (Option-cases (Dict.lookup c m)) [
  | inl e ↦ e
  | inr (s, e) ↦ ground (arith, e, h, Dict.contains-keys c m)
]

present-remove :
    (c : ℕ) (s : Session) (m : List (ℕ × Session))
    → Dict.IsMap m
    → Dict.lookup c m ≡ some s
    → (count_alive (Dict.remove c m) + alive s ≡ count_alive m)
      × (suc (length (Dict.remove c m)) ≡ length m)
present-remove c s [] u e = ground (arith, e)
present-remove c s ((j, t) ∷ m) (n, u) e = elim (Bool-cases (j == c)) [
  | inl h ↦
      let gone : Dict.lookup c m ≡ none =
        absent c m (subst (λ i. contains (Dict.keys m) i ≡ false) ((==_iff j c).0 h) n) in
      ground (arith, e, h, absent-remove c m gone)
  | inr h ↦ ground (arith, e, h, present-remove c s m u)
]

count_error-IsTable : (max : ℕ) (r : UdpRelay) → IsTable max r → IsTable max (count_error r)
count_error-IsTable max r i = record { is_map = i.is_map; within = i.within; owned = i.owned }

drop_finished-IsTable :
    (max : ℕ) (r : UdpRelay) (c : ℕ) → IsTable max r → IsTable max (drop_finished r c)
drop_finished-IsTable max r c i = elim (Option-cases (Dict.lookup c r.sessions)) [
  | inl e ↦ rw (e, drop_finished) i
  | inr (s, e) ↦ elim (Bool-cases s.finished) [
    | inr f ↦ rw (e, f, drop_finished) i
    | inl f ↦
        rw (e, f, drop_finished)
          (record {
            is_map = Dict.remove-IsMap c r.sessions i.is_map;
            within = omega (arith, present-remove c s r.sessions i.is_map e, i.within);
            owned = ground (arith, f, present-remove c s r.sessions i.is_map e, i.owned);
          })
  ]
]

-- A session is replaced by one that keeps the count.
replace-IsTable :
    (max : ℕ) (r : UdpRelay) (c running : ℕ) (s t : Session)
    → IsTable max r
    → Dict.lookup c r.sessions ≡ some s
    → running + alive s ≡ r.running + alive t
    → IsTable max (record r { sessions = Dict.insert c t r.sessions; running = running })
replace-IsTable max r c running s t i e b =
    let p = present-remove c s r.sessions i.is_map e in
    record {
      is_map = Dict.insert-IsMap c t r.sessions i.is_map;
      within = omega (arith, p, i.within);
      owned = omega (arith, p, i.owned, b);
    }

touch-IsTable :
    (max : ℕ) (r : UdpRelay) (c now : ℕ) (s : Session)
    → IsTable max r
    → Dict.lookup c r.sessions ≡ some s
    → IsTable max (touch r c now s)
touch-IsTable max r c now s i e =
    replace-IsTable max r c r.running s (record s { last_seen = now }) i e refl

begin-IsTable :
    (max : ℕ) (r : UdpRelay) (c now : ℕ) (admitted sends : Bool)
    → IsTable max r
    → IsTable max (begin max r c now admitted sends).0
unfolding begin
begin-IsTable max r c now false sends i = count_error-IsTable max r i
begin-IsTable max r c now true sends i =
    let kept = drop_finished r c in
    let k = drop_finished-IsTable max r c i in
    elim (Option-cases (Dict.lookup c kept.sessions)) [
      | inr (s, e) ↦
          let t = touch-IsTable max kept c now s k e in
          elim (Bool-cases sends) [
            | inl f ↦ rw (e, f) t
            | inr f ↦ rw (e, f) (count_error-IsTable max (touch kept c now s) t)
          ]
      | inl e ↦ elim (Bool-cases (leb max (length kept.sessions))) [
        | inl f ↦ rw (e, f) (count_error-IsTable max kept k)
        | inr f ↦ rw (e, f) k
      ]
    ]

-- While a new task runs that no session holds yet.
settle-IsTable :
    (max : ℕ) (r : UdpRelay) (c now : ℕ) (sends : Bool)
    → IsTable max r
    → IsTable max (settle max (record r { running = suc r.running }) c now sends)
unfolding settle
settle-IsTable max r c now sends i = elim (Option-cases (Dict.lookup c r.sessions)) [
  | inr (s, e) ↦
      let t = touch-IsTable max r c now s i e in
      elim (Bool-cases s.finished) [
        | inl f ↦
            rw (e, f, settle)
              (let q =
                  replace-IsTable max r c (suc r.running) s
                    (record { last_seen = now; finished = false }) i e (ground (arith, f)) in
                record { is_map = q.is_map; within = q.within; owned = q.owned })
        | inr f ↦ elim (Bool-cases sends) [
          | inl g ↦
              rw (e, f, g, settle)
                (record {
                  is_map = t.is_map;
                  within = t.within;
                  owned = ground (arith, t.owned, f);
                })
          | inr g ↦
              rw (e, f, g, settle)
                (record {
                  is_map = t.is_map;
                  within = t.within;
                  owned = ground (arith, t.owned, f);
                })
        ]
      ]
  | inl e ↦
      let a = absent-remove c r.sessions e in
      elim (Bool-cases (leb max (length r.sessions))) [
        | inl f ↦
            rw (e, f, settle)
              (record { is_map = i.is_map; within = i.within; owned = omega (arith, i.owned) })
        | inr f ↦
            rw (e, f, settle)
              (record {
                is_map =
                    Dict.insert-IsMap c (record { last_seen = now; finished = false }) r.sessions
                      i.is_map;
                within = ground (arith, f, a);
                owned = omega (arith, a, i.owned);
              })
      ]
]

finish-IsTable :
    (max : ℕ) (r : UdpRelay) (c now : ℕ) (connected sends : Bool)
    → IsTable max r
    → IsTable max (finish max r c now connected sends)
unfolding finish
finish-IsTable max r c now false sends i = count_error-IsTable max r i
finish-IsTable max r c now true sends i = settle-IsTable max r c now sends i

task_ends-IsTable : (max : ℕ) (r : UdpRelay) (c : ℕ) → IsTable max r → IsTable max (task_ends r c)
unfolding task_ends
task_ends-IsTable max r c i = elim (Option-cases (Dict.lookup c r.sessions)) [
  | inl e ↦ rw (e, task_ends) i
  | inr (s, e) ↦ elim (Bool-cases s.finished) [
    | inl f ↦ rw (e, f, task_ends) i
    | inr f ↦
        rw (e, f, task_ends)
          (replace-IsTable max r c (r.running - 1) s (record s { finished = true }) i e
            (ground (arith, f, i.owned, present-remove c s r.sessions i.is_map e)))
  ]
]

sweep-absent :
    (now j : ℕ) (m : List (ℕ × Session)) (n : ℕ)
    → contains (Dict.keys m) j ≡ false
    → contains (Dict.keys (sweep_sessions now m n).0) j ≡ false
unfolding sweep_sessions
sweep-absent now j [] n h = refl
sweep-absent now j ((c, s) ∷ m) n h = ground (arith, h, sweep-absent now j m n)

sweep-IsMap :
    (now : ℕ) (m : List (ℕ × Session)) (n : ℕ)
    → Dict.IsMap m
    → Dict.IsMap (sweep_sessions now m n).0
unfolding sweep_sessions
sweep-IsMap now [] n u = tt
sweep-IsMap now ((c, s) ∷ m) n (h, u) = elim (Bool-cases (is_expired now s)) [
  | inl e ↦ rw e (sweep-IsMap now m n u)
  | inr e ↦ rw e (sweep-absent now c m n h, sweep-IsMap now m n u)
]

-- The tasks of other sessions, `other` of them, go on.
sweep_counts :
    (now : ℕ) (m : List (ℕ × Session)) (running other : ℕ)
    → running ≡ other + count_alive m
    → let (kept, left) = sweep_sessions now m running in
      (length kept ≤ length m) × (left ≡ other + count_alive kept)
unfolding sweep_sessions
sweep_counts now [] running other e = (omega arith, e)
sweep_counts now ((c, s) ∷ m) running other e =
    let ih = sweep_counts now m running (other + alive s) (omega (arith, e)) in
    elim (Bool-cases (is_expired now s)) [
      | inr x ↦ rw x (omega (arith, ih), omega (arith, ih))
      | inl x ↦ elim (Bool-cases s.finished) [
        | inl f ↦ rw (x, f) (omega (arith, ih), ground (arith, f, ih))
        | inr f ↦ rw (x, f) (omega (arith, ih), ground (arith, f, ih))
      ]
    ]

sweep_expired-IsTable :
    (max : ℕ) (r : UdpRelay) (now : ℕ) → IsTable max r → IsTable max (sweep_expired r now)
unfolding sweep_expired
sweep_expired-IsTable max r now i =
    let counts = sweep_counts now r.sessions r.running 0 (omega (arith, i.owned)) in
    record {
      is_map = sweep-IsMap now r.sessions r.running i.is_map;
      within = omega (arith, counts, i.within);
      owned = omega (arith, counts);
    }

step-IsTable : (max : ℕ) (r : UdpRelay) (e : Event) → IsTable max r → IsTable max (step max r e)
unfolding step
step-IsTable max r (packet c now admitted sends) i = begin-IsTable max r c now admitted sends i
step-IsTable max r (connect_ends c now connected sends) i =
    finish-IsTable max r c now connected sends i
step-IsTable max r (ends c) i = task_ends-IsTable max r c i
step-IsTable max r (sweep now) i = sweep_expired-IsTable max r now i
step-IsTable max r recv_error i = count_error-IsTable max r i

abbrev pub run : ℕ → UdpRelay → List Event → UdpRelay
run max r [] = r
run max r (e ∷ es) = run max (step max r e) es

run_from-IsTable :
    (max : ℕ) (r : UdpRelay) (es : List Event) → IsTable max r → IsTable max (run max r es)
run_from-IsTable max r [] i = i
run_from-IsTable max r (e ∷ es) i = run_from-IsTable max (step max r e) es (step-IsTable max r e i)

idle-IsTable : (max : ℕ) → IsTable max idle
idle-IsTable max = record { is_map = tt; within = omega arith; owned = refl }

-- Through any packets, ends of connects in any order, ends of tasks and sweeps: a client has at most one
-- session, the sessions are never more than the limit, and the tasks that run are exactly those of the
-- sessions of the table.
pub run-IsSessionTable : (max : ℕ) (es : List Event) → IsTable max (run max idle es)
run-IsSessionTable max es = run_from-IsTable max idle es (idle-IsTable max)

drained :
    (m : List (ℕ × Session)) (running other : ℕ)
    → running ≡ other + count_alive m
    → drain_sessions m running ≡ other
unfolding drain_sessions
drained [] running other e = omega (arith, e)
drained ((c, s) ∷ m) running other e =
    ground (arith, drained m running (other + alive s) (omega (arith, e)))

-- After any events, a stop leaves no session and no task.
pub stop-run :
    (max : ℕ) (es : List Event)
    → ((stop (run max idle es)).sessions ≡ []) × ((stop (run max idle es)).running ≡ 0)
unfolding stop
stop-run max es =
    let r = run max idle es in
    let i = run_from-IsTable max idle es (idle-IsTable max) in
    (refl, drained r.sessions r.running 0 (omega (arith, i.owned)))

sweep-lookup :
    (now c : ℕ) (m : List (ℕ × Session)) (n : ℕ)
    → Dict.IsMap m
    → Dict.lookup c (sweep_sessions now m n).0
      ≡ elim (Dict.lookup c m) [ none ↦ none | some s ↦ if is_expired now s then none else some s ]
unfolding sweep_sessions
sweep-lookup now c [] n u = refl
sweep-lookup now c ((j, s) ∷ m) n (h, u) = elim (Bool-cases (j == c)) [
  | inl e ↦
      let gone : Dict.lookup c m ≡ none =
        absent c m (subst (λ i. contains (Dict.keys m) i ≡ false) ((==_iff j c).0 e) h) in
      ground (arith, e, gone, sweep-lookup now c m n u)
  | inr e ↦ ground (arith, e, sweep-lookup now c m n u)
]

-- A sweep after any events removes exactly the sessions that were last seen more than the timeout ago.
pub sweep_expired-lookup :
    (max : ℕ) (es : List Event) (now c : ℕ)
    → let r = run max idle es in
      Dict.lookup c (sweep_expired r now).sessions ≡ elim (Dict.lookup c r.sessions) [
        | none ↦ none
        | some s ↦ if is_expired now s then none else some s
      ]
unfolding sweep_expired
sweep_expired-lookup max es now c =
    let r = run max idle es in
    sweep-lookup now c r.sessions r.running (run_from-IsTable max idle es (idle-IsTable max)).is_map
