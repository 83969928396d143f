-- ===== src/Agent/Retry.antt =====
-- crates/node-agent/src/retry.rs: commands that failed and wait for another try. Instants are in
-- seconds.
pub mod Queue
pub mod Due
mod Tests
use emorelay.Base.{
  ℕ, ◌+◌, Bool, true, false, Option, none, some, not, List, [], ◌∷◌, ◌++◌, leb, ◌==◌, if◌then◌else◌,
  retain,
}
use emorelay.Proto.{Body, Command, apply_rule, remove_rule, restart_rule, enable_rule, disable_rule}

abbrev pub max_attempts : ℕ
max_attempts = 5

abbrev pub retry_delay : ℕ
retry_delay = 30

pub record PendingCommand : Type 0 where
  pub cmd : Command
  pub attempts : ℕ

pub record Entry : Type 0 where
  pub cmd : Command
  pub due : ℕ
  pub attempts : ℕ

pub record RetryQueue : Type 0 where
  pub items : List Entry

unfoldable pub body_rule_id : Body → Option ℕ
body_rule_id (apply_rule none) = none
body_rule_id (apply_rule (some r)) = some r.id
body_rule_id (remove_rule id) = some id
body_rule_id (restart_rule id) = some id
body_rule_id (enable_rule id) = some id
body_rule_id (disable_rule id) = some id
body_rule_id _ = none

-- Credentials, upgrades and empty commands have no rule, and are never retried.
unfoldable pub rule_id_of : Command → Option ℕ
rule_id_of c = elim c.body [ none ↦ none | some b ↦ body_rule_id b ]

-- `rule_id_of(..) == Some(rid)`
abbrev pub is_rule : Option ℕ → ℕ → Bool
is_rule none rid = false
is_rule (some id) rid = id == rid

pub new : RetryQueue
new = record { items = [] }

abbrev pub drop_rule : ℕ → List Entry → List Entry
drop_rule rid = retain λ e. not (is_rule (rule_id_of e.cmd) rid)

push_rule : RetryQueue → Command → ℕ → ℕ → ℕ → RetryQueue × Bool
push_rule q cmd rid prev_attempts now =
    let kept = drop_rule rid q.items in
    let attempts = prev_attempts + 1 in
    if leb max_attempts attempts then (record { items = kept }, false) else (
      record {
        items = kept ++ (record { cmd = cmd; due = now + retry_delay; attempts = attempts } ∷ []);
      },
      true,
    )

pub push_failed : RetryQueue → Command → ℕ → ℕ → RetryQueue × Bool
unfolding push_rule
push_failed q cmd prev_attempts now = elim (rule_id_of cmd) [
  | none ↦ (q, false)
  | some rid ↦ push_rule q cmd rid prev_attempts now
]

pub supersede : RetryQueue → Command → RetryQueue
supersede q cmd = elim (rule_id_of cmd) [
  | none ↦ q
  | some rid ↦ record { items = drop_rule rid q.items }
]

abbrev pub is_due : ℕ → Entry → Bool
is_due now e = leb e.due now

abbrev pub pending_of : List Entry → List PendingCommand
pending_of [] = []
pending_of (e ∷ es) = record { cmd = e.cmd; attempts = e.attempts } ∷ pending_of es

-- The queue that stays and the commands that have come due.
pub take_due : RetryQueue → ℕ → RetryQueue × List PendingCommand
take_due q now = (
  record { items = retain (λ e. not (is_due now e)) q.items },
  pending_of (retain (is_due now) q.items),
)
