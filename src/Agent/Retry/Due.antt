-- ===== src/Agent/Retry/Due.antt =====
-- None of the retries is lost or early.
use mathlib.Core.List.{Perm, perm_middle}
use mathlib.Core.List.Perm
use emorelay.Base.{
  ℕ, suc, ◌+◌, ◌≤◌, ◌<◌, ◌≡◌, refl, ap, ◌∙◌, Bool, true, false, some, not, List, [], ◌∷◌, ◌++◌, leb,
  Bool-cases, if◌then◌else◌, retain, retain-append, arith, inl, inr,
}
use emorelay.Proto.{Command}
use emorelay.Agent.Retry.{
  Entry, PendingCommand, RetryQueue, rule_id_of, is_rule, drop_rule, push_rule, push_failed,
  supersede, take_due, is_due, pending_of, max_attempts, retry_delay,
}
use emorelay.Agent.Retry.Queue.{
  count_rule, count_rule-retain, count_rule-drop_rule, count_rule-append,
}

pending_of-append : (xs ys : List Entry) → pending_of (xs ++ ys) ≡ pending_of xs ++ pending_of ys
pending_of-append [] ys = refl
pending_of-append (x ∷ xs) ys = ground (arith, pending_of-append xs ys)

-- Taking loses nothing and takes each entry once: the commands taken and those of the entries that
-- stay are together the commands of the queue.
pub take_due-perm :
    (q : RetryQueue) (now : ℕ)
    → Perm ((take_due q now).1 ++ pending_of (take_due q now).0.items) (pending_of q.items)
unfolding take_due
take_due-perm q now = split q.items
  where
    split :
        (es : List Entry)
        → Perm
            (pending_of (retain (is_due now) es)
              ++ pending_of (retain (λ e. not (is_due now e)) es))
            (pending_of es)
    split [] = Perm.refl []
    split (e ∷ es) = elim (Bool-cases (is_due now e)) [
      | inl due ↦ rw due (Perm.cons _ (split es))
      | inr later ↦ rw later (
          Perm.trans (perm_middle (pending_of (retain (is_due now) es)) _) (Perm.cons _ (split es)))
    ]

module _ (q : RetryQueue) (cmd : Command) (rid prev now : ℕ) (e : rule_id_of cmd ≡ some rid) where
  abbrev waiting : Entry
  waiting = record { cmd = cmd; due = now + retry_delay; attempts = suc prev }

  push_failed-eq :
      suc prev < max_attempts
      → (push_failed q cmd prev now).0 ≡ record { items = drop_rule rid q.items ++ waiting ∷ [] }
  unfolding push_failed push_rule
  push_failed-eq h =
      let more : leb max_attempts (prev + 1) ≡ false = ground arith in
      let one : prev + 1 ≡ suc prev = omega arith in rw (e, push_failed) (rw (more, one))

  count_rule-kept :
      (p : Entry → Bool)
      → count_rule rid (retain p (drop_rule rid q.items ++ waiting ∷ []))
        ≡ (if p waiting then 1 else 0)
  count_rule-kept p = ground (
    arith,
    retain-append p (drop_rule rid q.items) (waiting ∷ []),
    count_rule-append rid (retain p (drop_rule rid q.items)) (retain p (waiting ∷ [])),
    count_rule-retain p rid (drop_rule rid q.items),
    count_rule-drop_rule rid rid q.items,
  )

  pending_of-kept :
      (p : Entry → Bool)
      → p waiting ≡ true
      → pending_of (retain p (drop_rule rid q.items ++ waiting ∷ []))
        ≡ pending_of (retain p (drop_rule rid q.items))
          ++ record { cmd = cmd; attempts = suc prev } ∷ []
  pending_of-kept p h = ground (
    arith,
    retain-append p (drop_rule rid q.items) (waiting ∷ []),
    pending_of-append (retain p (drop_rule rid q.items)) (waiting ∷ []),
  )

-- A failed command that may be tried again is not taken before its delay of 30 s is over, and then
-- it is taken, with its attempts counted one up, and waits no longer.
pub take_due-push_failed :
    (q : RetryQueue) (cmd : Command) (rid prev now t : ℕ)
    → rule_id_of cmd ≡ some rid
    → suc prev < max_attempts
    → let later = take_due (push_failed q cmd prev now).0 t in
      (t < now + retry_delay → count_rule rid later.0.items ≡ 1)
      × (now + retry_delay ≤ t
          → (count_rule rid later.0.items ≡ 0)
            × ((others : List PendingCommand) × (later.1
                  ≡ others ++ record { cmd = cmd; attempts = suc prev } ∷ [])))
unfolding take_due
take_due-push_failed q cmd rid prev now t e h = rw (push_failed-eq q cmd rid prev now e h) (
  λ early. ground (arith, count_rule-kept q cmd rid prev now e (λ x. not (is_due t x))),
  λ due. (
    ground (arith, count_rule-kept q cmd rid prev now e (λ x. not (is_due t x))),
    (_, pending_of-kept q cmd rid prev now e (is_due t) (ground arith)),
  ),
)

-- The entries of a rule.
abbrev pub of_rule : ℕ → List Entry → List Entry
of_rule rid = retain λ e. is_rule (rule_id_of e.cmd) rid

of_rule-drop_rule : (rid : ℕ) (es : List Entry) → of_rule rid (drop_rule rid es) ≡ []
of_rule-drop_rule rid [] = refl
of_rule-drop_rule rid (e ∷ es) = ground (arith, of_rule-drop_rule rid es)

pub supersede-of_rule :
    (q : RetryQueue) (cmd : Command) (rid : ℕ)
    → rule_id_of cmd ≡ some rid
    → of_rule rid (supersede q cmd).items ≡ []
unfolding supersede
supersede-of_rule q cmd rid e = rw (e, supersede) (of_rule-drop_rule rid q.items)

pub push_failed-of_rule :
    (q : RetryQueue) (cmd : Command) (rid prev now : ℕ)
    → rule_id_of cmd ≡ some rid
    → of_rule rid (push_failed q cmd prev now).0.items ≡ (
        if leb max_attempts (prev + 1)
        then []
        else record { cmd = cmd; due = now + retry_delay; attempts = prev + 1 } ∷ [])
unfolding push_failed push_rule
push_failed-of_rule q cmd rid prev now e =
    let fresh : Entry = record { cmd = cmd; due = now + retry_delay; attempts = prev + 1 } in
    let P : Entry → Bool = λ e. is_rule (rule_id_of e.cmd) rid in
    let kept : of_rule rid (drop_rule rid q.items ++ (fresh ∷ [])) ≡ of_rule rid (fresh ∷ []) =
      retain-append P (drop_rule rid q.items) (fresh ∷ [])
      ∙ ap (λ es. es ++ of_rule rid (fresh ∷ [])) (of_rule-drop_rule rid q.items) in
    rw (e, push_failed)
      (elim (Bool-cases (leb max_attempts (prev + 1))) [
        | inl f ↦ rw f (of_rule-drop_rule rid q.items)
        | inr f ↦ rw f (kept ∙ ground (arith, e))
      ])
