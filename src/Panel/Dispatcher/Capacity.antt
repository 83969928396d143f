-- ===== src/Panel/Dispatcher/Capacity.antt =====
-- A channel never holds more than its capacity, and an old stream's end does not cut off a new one.
use emorelay.Base.{
  ℕ, ◌≤◌, ◌≡◌, ap, ◌∙◌, not, none, List, [], ◌∷◌, ◌==◌, if◌then◌else◌, length, length-append, arith,
  Bool-cases, Option-cases, List-cases, inl, inr,
}
use emorelay.Base.Dict
use emorelay.Proto.{Command}
use emorelay.Panel.Dispatcher.{
  CommandDispatcher, channel_capacity, subscribe, try_send, poll_send, dispatch, unsubscribe_if,
  receive, close, new,
}
use emorelay.Panel.Dispatcher.Channels.{
  Event, subscribes, dispatches, replays, unsubscribes, receives, closes, step, run, dispatch-filed,
  dispatch-absent,
}

abbrev pub IsBounded : CommandDispatcher → Type 0
IsBounded d = (g : ℕ) → length (d.channel g).waiting ≤ channel_capacity

try_send-IsBounded :
    (d : CommandDispatcher) (h : ℕ) (cmd : Command) → IsBounded d → IsBounded (try_send d h cmd).0
unfolding try_send
try_send-IsBounded d h cmd b g = ground (arith, b g, length-append (d.channel h).waiting (cmd ∷ []))

dispatch-IsBounded :
    (d : CommandDispatcher) (n : ℕ) (cmd : Command) → IsBounded d → IsBounded (dispatch d n cmd).0
dispatch-IsBounded d n cmd b = elim (Option-cases (Dict.lookup n d.channels)) [
  | inl e ↦ rw (dispatch-absent d n cmd e) b
  | inr (h, e) ↦ rw (dispatch-filed d n cmd h e) (try_send-IsBounded d h cmd b)
]

receive-IsBounded : (d : CommandDispatcher) (h : ℕ) → IsBounded d → IsBounded (receive d h).0
unfolding receive
receive-IsBounded d h b g = elim (List-cases (d.channel h).waiting) [
  | inl e ↦ rw (e, receive) (b g)
  | inr (cmd, cmds, e) ↦ rw (e, receive) (ground (arith, b g, b h, ap length e))
]

step-IsBounded : (d : CommandDispatcher) (e : Event) → IsBounded d → IsBounded (step d e)
unfolding subscribe unsubscribe_if close poll_send
step-IsBounded d (subscribes n) b g = ground (arith, b g)
step-IsBounded d (dispatches n cmd) b g = dispatch-IsBounded d n cmd b g
step-IsBounded d (replays h cmd) b g = try_send-IsBounded d h cmd b g
step-IsBounded d (unsubscribes n h) b g = ground (arith, b g)
step-IsBounded d (receives h) b g = receive-IsBounded d h b g
step-IsBounded d (closes h) b g = ground (arith, b g, b h)

run_from-IsBounded : (d : CommandDispatcher) (es : List Event) → IsBounded d → IsBounded (run d es)
run_from-IsBounded d [] b = b
run_from-IsBounded d (e ∷ es) b = run_from-IsBounded (step d e) es (step-IsBounded d e b)

-- Whatever a node does or fails to do, at most 1024 commands wait in each channel.
pub run-IsBounded :
    (es : List Event) (g : ℕ) → length ((run new es).channel g).waiting ≤ channel_capacity
unfolding new
run-IsBounded es g = run_from-IsBounded new es (λ g. omega arith) g

-- A node subscribes, and then some stream ends and unsubscribes: a dispatch to the node succeeds if
-- and only if that stream was not the new one, and then the command waits in the new channel.
pub dispatch-resubscribed :
    (d : CommandDispatcher) (n g : ℕ) (cmd : Command)
    → let e = unsubscribe_if (subscribe d n).0 n g in
      let (f, ok) = dispatch e n cmd in
      (ok ≡ not (d.next_gen == g))
      × ((f.channel d.next_gen).waiting ≡ (if ok then cmd ∷ [] else []))
unfolding subscribe unsubscribe_if dispatch try_send
dispatch-resubscribed d n g cmd = elim (Bool-cases (d.next_gen == g)) [
  | inl e ↦ (ground (arith, e, gone), ground (arith, e, gone))
  | inr e ↦ (ground (arith, e), ground (arith, e))
]
  where
    gone : Dict.lookup n (Dict.remove n (Dict.insert n d.next_gen d.channels)) ≡ none
    gone = Dict.lookup-remove n n (Dict.insert n d.next_gen d.channels) ∙ ground arith
