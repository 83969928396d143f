-- ===== src/Agent/Session/Retries.antt =====
-- What a command does to the retries of its rule.
use emorelay.Base.{ℕ, ◌+◌, ◌≡◌, false, some, List, [], ◌∷◌, if◌then◌else◌, Bool-cases, inl, inr}
use emorelay.Proto.{Command}
use emorelay.Agent.Retry.{rule_id_of, retry_delay, supersede}
use emorelay.Agent.Retry.Due.{of_rule, supersede-of_rule, push_failed-of_rule}
use emorelay.Agent.Store.{RuleJson}
use emorelay.Agent.Command.{World, handle_command}
use emorelay.Agent.Session.{Session, on_message, is_probe}

-- After a command about a rule was handled, no older command about the rule waits for a retry: if it
-- succeeded, nothing waits, and if it failed, just this command, to be tried after the delay.
pub on_message-retries :
    (to_vec : List RuleJson → List ℕ) (s : Session) (now : ℕ) (w : World) (cmd : Command) (rid : ℕ)
    → rule_id_of cmd ≡ some rid
    → is_probe cmd ≡ false
    → of_rule rid (on_message to_vec s now w cmd).retry.items ≡ (
        if (handle_command to_vec w s.agent cmd).1
        then []
        else record { cmd = cmd; due = now + retry_delay; attempts = 1 } ∷ [])
unfolding on_message
on_message-retries to_vec s now w cmd rid e n =
    elim (Bool-cases (handle_command to_vec w s.agent cmd).1) [
      | inl f ↦ rw (n, f) (supersede-of_rule s.retry cmd rid e)
      | inr f ↦ rw (n, f) (push_failed-of_rule (supersede s.retry cmd) cmd rid 0 now e)
    ]
