-- ===== src/Agent/Retry/Queue.antt =====
-- At most one retry waits per rule, each within its attempts.

use emorelay.Base.{
  ℕ, suc, ◌+◌, ◌≤◌, ◌<◌, ◌≡◌, Bool, some, not, List, [], ◌∷◌, ◌++◌, leb, ltb, ◌==◌, Bool-cases,
  if◌then◌else◌, retain, arith, Option-cases, inl, inr,
}
use emorelay.Proto.{Command}
use emorelay.Agent.Retry.{
  Entry, RetryQueue, rule_id_of, is_rule, new, drop_rule, push_rule, push_failed, supersede,
  take_due, is_due, max_attempts, retry_delay,
}

-- How many retries of a rule wait.
abbrev pub count_rule : ℕ → List Entry → ℕ
count_rule rid [] = 0
count_rule rid (e ∷ es) =
    if is_rule (rule_id_of e.cmd) rid then suc (count_rule rid es) else count_rule rid es

abbrev pub InBounds : List Entry → Type 0
InBounds [] = Unit
InBounds (e ∷ es) = (0 < e.attempts) × (e.attempts < max_attempts) × InBounds es

pub record IsQueue (q : RetryQueue) : Type 0 where
  pub unique : (rid : ℕ) → count_rule rid q.items ≤ 1
  pub bounded : InBounds q.items

retain-InBounds : (p : Entry → Bool) (es : List Entry) → InBounds es → InBounds (retain p es)
retain-InBounds p [] h = tt
retain-InBounds p (e ∷ es) h = ground (arith, retain-InBounds p es h.2)

append-InBounds :
    (es : List Entry) (e : Entry)
    → InBounds es
    → 0 < e.attempts
    → e.attempts < max_attempts
    → InBounds (es ++ e ∷ [])
append-InBounds [] e h p q = (p, q, tt)
append-InBounds (x ∷ es) e h p q = (h.0, h.1, append-InBounds es e h.2 p q)

pub count_rule-retain :
    (p : Entry → Bool) (rid : ℕ) (es : List Entry)
    → count_rule rid (retain p es) ≤ count_rule rid es
count_rule-retain p rid [] = omega arith
count_rule-retain p rid (e ∷ es) = ground (arith, count_rule-retain p rid es)

pub count_rule-drop_rule :
    (rid j : ℕ) (es : List Entry)
    → count_rule j (drop_rule rid es) ≡ (if rid == j then 0 else count_rule j es)
count_rule-drop_rule rid j [] = ground arith
count_rule-drop_rule rid j (e ∷ es) = ground (arith, count_rule-drop_rule rid j es)

pub count_rule-append :
    (rid : ℕ) (xs ys : List Entry)
    → count_rule rid (xs ++ ys) ≡ count_rule rid xs + count_rule rid ys
count_rule-append rid [] ys = omega arith
count_rule-append rid (x ∷ xs) ys = ground (arith, count_rule-append rid xs ys)

push_rule-count :
    (q : RetryQueue) (cmd : Command) (rid prev now j : ℕ)
    → rule_id_of cmd ≡ some rid
    → count_rule j (push_rule q cmd rid prev now).0.items
      ≡ (if rid == j then (if ltb (suc prev) max_attempts then 1 else 0) else count_rule j q.items)
unfolding push_rule
push_rule-count q cmd rid prev now j e =
    let fresh : Entry = record { cmd = cmd; due = now + retry_delay; attempts = prev + 1 } in
    ground (
      arith,
      count_rule-append j (drop_rule rid q.items) (fresh ∷ []),
      count_rule-drop_rule rid j q.items,
    )

push_rule-bounded :
    (q : RetryQueue) (cmd : Command) (rid prev now : ℕ)
    → InBounds q.items
    → InBounds (push_rule q cmd rid prev now).0.items
unfolding push_rule
push_rule-bounded q cmd rid prev now b =
    let kept = retain-InBounds (λ e. not (is_rule (rule_id_of e.cmd) rid)) q.items b in
    elim (Bool-cases (leb max_attempts (prev + 1))) [
      | inl e ↦ rw e kept
      | inr e ↦ rw e (append-InBounds (drop_rule rid q.items) _ kept (ground arith) (ground arith))
    ]

-- A failed command of a rule: the answer says whether it may be tried again, that is whether it
-- has failed fewer than five times, and then one retry of the rule waits, else none; the other
-- rules' retries are as many as before.
pub push_failed-counts :
    (q : RetryQueue) (cmd : Command) (rid prev now j : ℕ)
    → rule_id_of cmd ≡ some rid
    → ((push_failed q cmd prev now).1 ≡ ltb (suc prev) max_attempts)
      × (count_rule j (push_failed q cmd prev now).0.items ≡ (
          if rid == j
          then (if ltb (suc prev) max_attempts then 1 else 0)
          else count_rule j q.items))
unfolding push_failed
push_failed-counts q cmd rid prev now j e = (
  rw (e, push_failed) (ground arith),
  rw (e, push_failed) (push_rule-count q cmd rid prev now j e),
)

pub push_failed-IsQueue :
    (q : RetryQueue) (cmd : Command) (prev now : ℕ)
    → IsQueue q
    → IsQueue (push_failed q cmd prev now).0
unfolding push_failed
push_failed-IsQueue q cmd prev now v = elim (Option-cases (rule_id_of cmd)) [
  | inl e ↦ rw (e, push_failed) v
  | inr (rid, e) ↦ record {
    unique = λ j. ground (arith, push_failed-counts q cmd rid prev now j e, v.unique j);
    bounded = rw (e, push_failed) (push_rule-bounded q cmd rid prev now v.bounded);
  }
]

pub retain-IsQueue :
    (p : Entry → Bool) (q : RetryQueue) → IsQueue q → IsQueue (record { items = retain p q.items })
retain-IsQueue p q v = record {
  unique = λ j. omega (arith, count_rule-retain p j q.items, v.unique j);
  bounded = retain-InBounds p q.items v.bounded;
}

pub supersede-IsQueue : (q : RetryQueue) (cmd : Command) → IsQueue q → IsQueue (supersede q cmd)
unfolding supersede
supersede-IsQueue q cmd v = elim (Option-cases (rule_id_of cmd)) [
  | inl e ↦ rw (e, supersede) v
  | inr (rid, e) ↦ rw (e, supersede) (retain-IsQueue _ q v)
]

pub take_due-IsQueue : (q : RetryQueue) (now : ℕ) → IsQueue q → IsQueue (take_due q now).0
unfolding take_due
take_due-IsQueue q now v = retain-IsQueue (λ e. not (is_due now e)) q v

pub new-IsQueue : IsQueue new
unfolding new
new-IsQueue = record { unique = λ j. omega arith; bounded = tt }

-- What a session does with its queue.
pub data Call : Type 0 where
  push : Command → ℕ → ℕ → Call
  replace : Command → Call
  take : ℕ → Call

abbrev pub step : RetryQueue → Call → RetryQueue
step q (push cmd prev now) = (push_failed q cmd prev now).0
step q (replace cmd) = supersede q cmd
step q (take now) = (take_due q now).0

abbrev pub run : RetryQueue → List Call → RetryQueue
run q [] = q
run q (c ∷ cs) = run (step q c) cs

step-IsQueue : (q : RetryQueue) (c : Call) → IsQueue q → IsQueue (step q c)
unfolding take_due
step-IsQueue q (push cmd prev now) v = push_failed-IsQueue q cmd prev now v
step-IsQueue q (replace cmd) v = supersede-IsQueue q cmd v
step-IsQueue q (take now) v = retain-IsQueue _ q v

run_from-IsQueue : (q : RetryQueue) (cs : List Call) → IsQueue q → IsQueue (run q cs)
run_from-IsQueue q [] v = v
run_from-IsQueue q (c ∷ cs) v = run_from-IsQueue (step q c) cs (step-IsQueue q c v)

-- After any calls on an empty queue, each rule has at most one retry waiting, and each retry has
-- failed at least once and fewer than five times.
pub run-IsQueue : (cs : List Call) → IsQueue (run new cs)
unfolding new
run-IsQueue cs = run_from-IsQueue new cs (record { unique = λ j. omega arith; bounded = tt })
