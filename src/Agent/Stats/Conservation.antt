-- ===== src/Agent/Stats/Conservation.antt =====
-- No count is lost when a report fails.
use emorelay.Base.{
  ℕ, ◌<◌, ◌≡◌, refl, sym, ap, ◌∙◌, Bool, true, false, List, [], ◌∷◌, ◌==◌, if◌then◌else◌, arith,
  unwrap_or, contains, Bool-cases, ==_iff, inl, inr,
}
use emorelay.Base.Dict
use emorelay.Base.Words.{mod64}
use emorelay.Agent.Stats.{
  CounterSnapshot, RuleCounter, StatsCollector, zero_counter, drain_counters, drain_snapshot,
  fetch_add, restore_one, restore, is_zero, snapshot_of, RpcEnd, answer_lost,
}

-- What the collector holds for a rule; a missing counter counts as zero.
abbrev pub total : StatsCollector → ℕ → RuleCounter
total s id = unwrap_or (Dict.lookup id s.counters) zero_counter

abbrev pub add_one : RuleCounter → CounterSnapshot → ℕ → RuleCounter
add_one c s id = if s.rule_id == id then fetch_add c s else c

-- What a snapshot adds to a rule's counter.
abbrev pub add_all : RuleCounter → List CounterSnapshot → ℕ → RuleCounter
add_all c [] id = c
add_all c (s ∷ snapshot) id = add_all (add_one c s id) snapshot id

total-restore_one :
    (t : StatsCollector) (s : CounterSnapshot) (id : ℕ)
    → total (restore_one t s) id ≡ add_one (total t id) s id
unfolding restore_one
total-restore_one t s id = ground (
  arith,
  Dict.lookup-remove s.rule_id id t.counters,
  Dict.lookup-insert s.rule_id id zero_counter t.counters,
  Dict.lookup-remove s.rule_id id (Dict.insert s.rule_id zero_counter t.counters),
)

total-restore :
    (t : StatsCollector) (snapshot : List CounterSnapshot) (id : ℕ)
    → total (restore t snapshot) id ≡ add_all (total t id) snapshot id
unfolding restore
total-restore t [] id = refl
total-restore t (s ∷ snapshot) id =
    total-restore (restore_one t s) snapshot id
    ∙ ap (λ (c : RuleCounter). add_all c snapshot id) (total-restore_one t s id)

abbrev pub IsCounter : RuleCounter → Type 0
IsCounter c =
    (c.rx_bytes < mod64)
    × (c.tx_bytes < mod64)
    × (c.connection_count < mod64)
    × (c.error_count < mod64)

abbrev pub AllCounters : List (ℕ × RuleCounter) → Type 0
AllCounters [] = Unit
AllCounters ((id, c) ∷ m) = IsCounter c × AllCounters m

total-drain_counters :
    (m : List (ℕ × RuleCounter)) (id : ℕ)
    → unwrap_or (Dict.lookup id (drain_counters m).0) zero_counter ≡ zero_counter
unfolding drain_counters
total-drain_counters [] id = refl
total-drain_counters ((j, c) ∷ m) id = ground (arith, total-drain_counters m id)

fetch_add-zero :
    (id : ℕ) (c d : RuleCounter)
    → IsCounter c
    → is_zero d ≡ true
    → fetch_add c (snapshot_of id d) ≡ c
fetch_add-zero id c d h z = ground arith

zero-fetch_add :
    (id : ℕ) (c : RuleCounter) → IsCounter c → fetch_add zero_counter (snapshot_of id c) ≡ c
zero-fetch_add id c h = ground arith

fetch_add-IsCounter : (c : RuleCounter) (s : CounterSnapshot) → IsCounter (fetch_add c s)
fetch_add-IsCounter c s = omega arith

fetch_add_comm :
    (c : RuleCounter) (s t : CounterSnapshot)
    → fetch_add (fetch_add c s) t ≡ fetch_add (fetch_add c t) s
fetch_add_comm c s t = ground arith

-- The part of a drained counter, whether or not it was left out as all zero.
abbrev drained_one : ℕ → RuleCounter → List CounterSnapshot → List CounterSnapshot
drained_one j d out = if is_zero d then out else snapshot_of j d ∷ out

add_all-drained_one :
    (c d : RuleCounter) (out : List CounterSnapshot) (j id : ℕ)
    → IsCounter c
    → add_all c (drained_one j d out) id ≡ add_all (add_one c (snapshot_of j d) id) out id
add_all-drained_one c d out j id h = elim (Bool-cases (is_zero d)) [
  | inl e ↦
      let z : add_one c (snapshot_of j d) id ≡ c = ground arith in
      rw e (ap (λ (b : RuleCounter). add_all b out id) (sym z))
  | inr e ↦ rw e refl
]

add_all-absent :
    (m : List (ℕ × RuleCounter)) (c : RuleCounter) (id : ℕ)
    → IsCounter c
    → contains (Dict.keys m) id ≡ false
    → add_all c (drain_counters m).1 id ≡ c
unfolding drain_counters
add_all-absent [] c id b h = refl
add_all-absent ((j, d) ∷ m) c id b h =
    let other : add_one c (snapshot_of j d) id ≡ c = ground arith in
    add_all-drained_one c d (drain_counters m).1 j id b
    ∙ ap (λ (x : RuleCounter). add_all x (drain_counters m).1 id) other
    ∙ add_all-absent m c id b (ground arith)

add_all-drain_counters :
    (m : List (ℕ × RuleCounter)) (c : RuleCounter) (id : ℕ)
    → Dict.IsMap m
    → AllCounters m
    → IsCounter c
    → add_all c (drain_counters m).1 id
      ≡ fetch_add c (snapshot_of id (unwrap_or (Dict.lookup id m) zero_counter))
unfolding drain_counters
add_all-drain_counters [] c id u a h = sym (fetch_add-zero id c zero_counter h refl)
add_all-drain_counters ((j, d) ∷ m) c id u a h =
    add_all-drained_one c d (drain_counters m).1 j id h
    ∙ rest (add_all-drain_counters m c id u.1 a.1 h)
  where
    rest :
        add_all c (drain_counters m).1 id
          ≡ fetch_add c (snapshot_of id (unwrap_or (Dict.lookup id m) zero_counter))
        → add_all (add_one c (snapshot_of j d) id) (drain_counters m).1 id
          ≡ fetch_add c (snapshot_of id (unwrap_or (Dict.lookup id ((j, d) ∷ m)) zero_counter))
    rest ih = elim (Bool-cases (j == id)) [
      | inl e ↦ ground (
        arith,
        add_all-absent m (fetch_add c (snapshot_of j d)) id
            (fetch_add-IsCounter c (snapshot_of j d)),
        ap (contains (Dict.keys m)) ((==_iff j id).0 e),
      )
      | inr e ↦ ground arith
    ]

add_one-IsCounter :
    (c : RuleCounter) (s : CounterSnapshot) (id : ℕ) → IsCounter c → IsCounter (add_one c s id)
add_one-IsCounter c s id h = ground arith

add_all-IsCounter :
    (c : RuleCounter) (adds : List CounterSnapshot) (id : ℕ)
    → IsCounter c
    → IsCounter (add_all c adds id)
add_all-IsCounter c [] id h = h
add_all-IsCounter c (s ∷ adds) id h =
    add_all-IsCounter (add_one c s id) adds id (add_one-IsCounter c s id h)

fetch_add-add_one :
    (c : RuleCounter) (s t : CounterSnapshot) (id : ℕ)
    → fetch_add (add_one c s id) t ≡ add_one (fetch_add c t) s id
fetch_add-add_one c s t id = ground arith

fetch_add-add_all :
    (c : RuleCounter) (adds : List CounterSnapshot) (t : CounterSnapshot) (id : ℕ)
    → fetch_add (add_all c adds id) t ≡ add_all (fetch_add c t) adds id
fetch_add-add_all c [] t id = refl
fetch_add-add_all c (s ∷ adds) t id =
    fetch_add-add_all (add_one c s id) adds t id
    ∙ ap (λ (d : RuleCounter). add_all d adds id) (fetch_add-add_one c s t id)

AllCounters-lookup :
    (m : List (ℕ × RuleCounter)) (id : ℕ)
    → AllCounters m
    → IsCounter (unwrap_or (Dict.lookup id m) zero_counter)
AllCounters-lookup [] id a = omega arith
AllCounters-lookup ((j, c) ∷ m) id a = ground (arith, AllCounters-lookup m id a.1)

-- A report that fails after its counters were drained: once the snapshot is restored, each rule
-- has what it would have had with no report, whatever traffic was counted in between.
pub restore-drain_snapshot :
    (s : StatsCollector) (traffic : List CounterSnapshot) (id : ℕ)
    → Dict.IsMap s.counters
    → AllCounters s.counters
    → total (restore (restore (drain_snapshot s).0 traffic) (drain_snapshot s).1) id
      ≡ total (restore s traffic) id
unfolding drain_snapshot
restore-drain_snapshot s traffic id u a =
    let snapshot = (drain_counters s.counters).1 in
    let before = total s id in
    let drained : StatsCollector = record { counters = (drain_counters s.counters).0 } in
    total-restore (restore drained traffic) snapshot id
    ∙ ap (λ (c : RuleCounter). add_all c snapshot id)
        (total-restore drained traffic id
          ∙ ap (λ (c : RuleCounter). add_all c traffic id) (total-drain_counters s.counters id))
    ∙ add_all-drain_counters s.counters (add_all zero_counter traffic id) id u a
        (add_all-IsCounter zero_counter traffic id (omega arith))
    ∙ fetch_add-add_all zero_counter traffic (snapshot_of id before) id
    ∙ ap (λ (c : RuleCounter). add_all c traffic id)
        (zero-fetch_add id before (AllCounters-lookup s.counters id a))
    ∙ sym (total-restore s traffic id)

-- What a report counts a second time.
abbrev pub counted_again : StatsCollector → Bool → RpcEnd → List CounterSnapshot
counted_again s true answer_lost = (drain_snapshot s).1
counted_again s _ _ = []
