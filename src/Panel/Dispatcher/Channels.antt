-- ===== src/Panel/Dispatcher/Channels.antt =====
-- What the channels hold and whom a dispatch reaches.
use emorelay.Base.{
  ℕ, suc, ◌+◌, ◌≤◌, ◌<◌, ◌≡◌, refl, sym, ap, ap₂, ◌∙◌, Bool, false, Option, none, some, List, [],
  ◌∷◌, ◌++◌, ◌==◌, leb, if◌then◌else◌, length, arith, Bool-cases, Option-cases, inl, inr, ==_iff,
  ==_refl, List-cases, subst,
}
use emorelay.Base.Dict
use emorelay.Base.Words.{mod64}
use emorelay.Proto.{Command}
use emorelay.Panel.Dispatcher.{
  CommandDispatcher, Channel, channel_capacity, subscribe, try_send, poll_send, dispatch,
  unsubscribe_if, receive, close,
}
use mathlib.Core.List.{append_assoc, append-nil}

pub data Event : Type 0 where
  subscribes : ℕ → Event
  dispatches : ℕ → Command → Event
  replays : ℕ → Command → Event
  unsubscribes : ℕ → ℕ → Event
  receives : ℕ → Event
  closes : ℕ → Event

abbrev pub step : CommandDispatcher → Event → CommandDispatcher
step d (subscribes node_id) = (subscribe d node_id).0
step d (dispatches node_id cmd) = (dispatch d node_id cmd).0
step d (replays sender cmd) = (poll_send d sender cmd).0
step d (unsubscribes node_id generation) = unsubscribe_if d node_id generation
step d (receives generation) = (receive d generation).0
step d (closes generation) = close d generation

abbrev pub sent_into : Option ℕ → Bool → Command → ℕ → List Command
sent_into none ok cmd g = []
sent_into (some h) ok cmd g = if h == g then (if ok then cmd ∷ [] else []) else []

abbrev pub is_sent : Option Bool → Bool
is_sent none = false
is_sent (some ok) = ok

-- The command that the step reports as sent into a channel, by a dispatch or by the replay.
abbrev pub sent : CommandDispatcher → Event → ℕ → List Command
sent d (dispatches node_id cmd) g =
    sent_into (Dict.lookup node_id d.channels) (dispatch d node_id cmd).1 cmd g
sent d (replays sender cmd) g = sent_into (some sender) (is_sent (poll_send d sender cmd).1) cmd g
sent d _ g = []

-- The commands that the step takes out of a channel: the one that the stream receives, or those that are
-- discarded when it is dropped.
abbrev pub removed : CommandDispatcher → Event → ℕ → List Command
removed d (receives h) g =
    if h == g then (elim (receive d h).1 [ none ↦ [] | some cmd ↦ cmd ∷ [] ]) else []
removed d (closes h) g = if h == g then (d.channel g).waiting else []
removed d _ g = []

-- What `try_send` does to the channel that it is given, and to the others.
try_send_self :
    (d : CommandDispatcher) (cmd : Command) (g : ℕ)
    → ((try_send d g cmd).0.channel g).waiting
      ≡ (d.channel g).waiting ++ (if (try_send d g cmd).1 then cmd ∷ [] else [])
unfolding try_send
try_send_self d cmd g = elim (Bool-cases (d.channel g).closed) [
  | inl e ↦ rw (e, if◌then◌else◌) (sym (append-nil (d.channel g).waiting))
  | inr e ↦ elim (Bool-cases (leb channel_capacity (length (d.channel g).waiting))) [
    | inl f ↦ rw (e, f, if◌then◌else◌) (sym (append-nil (d.channel g).waiting))
    | inr f ↦ rw (e, f, ==_refl g, if◌then◌else◌) refl
  ]
]

try_send-other :
    (d : CommandDispatcher) (h : ℕ) (cmd : Command) (g : ℕ)
    → (h == g) ≡ false
    → (try_send d h cmd).0.channel g ≡ d.channel g
unfolding try_send
try_send-other d h cmd g o = ground (arith, o)

try_send-waiting :
    (d : CommandDispatcher) (h : ℕ) (cmd : Command) (g : ℕ)
    → ((try_send d h cmd).0.channel g).waiting
      ≡ (d.channel g).waiting
        ++ (if h == g then (if (try_send d h cmd).1 then cmd ∷ [] else []) else [])
try_send-waiting d h cmd g = elim (Bool-cases (h == g)) [
  | inl e ↦
      rw (e, if◌then◌else◌)
        (subst
          (λ x.
            ((try_send d x cmd).0.channel g).waiting
            ≡ (d.channel g).waiting ++ (if (try_send d x cmd).1 then cmd ∷ [] else []))
          (sym ((==_iff h g).0 e)) (try_send_self d cmd g))
  | inr e ↦
      rw (e, if◌then◌else◌)
        (ap (λ (c : Channel). c.waiting) (try_send-other d h cmd g e)
          ∙ sym (append-nil (d.channel g).waiting))
]

pub dispatch-filed :
    (d : CommandDispatcher) (n : ℕ) (cmd : Command) (h : ℕ)
    → Dict.lookup n d.channels ≡ some h
    → dispatch d n cmd ≡ try_send d h cmd
unfolding dispatch
dispatch-filed d n cmd h e = rw (e, dispatch) refl

pub dispatch-absent :
    (d : CommandDispatcher) (n : ℕ) (cmd : Command)
    → Dict.lookup n d.channels ≡ none
    → dispatch d n cmd ≡ (d, false)
unfolding dispatch
dispatch-absent d n cmd e = rw (e, dispatch) refl

dispatch-waiting :
    (d : CommandDispatcher) (n : ℕ) (cmd : Command) (g : ℕ)
    → ((dispatch d n cmd).0.channel g).waiting
      ≡ (d.channel g).waiting ++ sent d (dispatches n cmd) g
dispatch-waiting d n cmd g = elim (Option-cases (Dict.lookup n d.channels)) [
  | inl e ↦
      ap (λ (r : CommandDispatcher × Bool). (r.0.channel g).waiting) (dispatch-absent d n cmd e)
      ∙ sym (append-nil (d.channel g).waiting)
      ∙ ap (λ o. (d.channel g).waiting ++ sent_into o (dispatch d n cmd).1 cmd g) (sym e)
  | inr (h, e) ↦
      ap (λ (r : CommandDispatcher × Bool). (r.0.channel g).waiting) (dispatch-filed d n cmd h e)
      ∙ try_send-waiting d h cmd g
      ∙ ap₂ (λ o ok. (d.channel g).waiting ++ sent_into o ok cmd g) (sym e)
          (ap (λ (r : CommandDispatcher × Bool). r.1) (sym (dispatch-filed d n cmd h e)))
]

poll_send-waiting :
    (d : CommandDispatcher) (h : ℕ) (cmd : Command) (g : ℕ)
    → ((poll_send d h cmd).0.channel g).waiting ≡ (d.channel g).waiting ++ sent d (replays h cmd) g
unfolding poll_send
poll_send-waiting d h cmd g =
    let ok : is_sent (poll_send d h cmd).1 ≡ (try_send d h cmd).1 = ground arith in
    try_send-waiting d h cmd g
    ∙ ap (λ b. (d.channel g).waiting ++ sent_into (some h) b cmd g) (sym ok)

receive_self :
    (d : CommandDispatcher) (g : ℕ)
    → removed d (receives g) g ++ ((receive d g).0.channel g).waiting ≡ (d.channel g).waiting
unfolding receive
receive_self d g = elim (List-cases (d.channel g).waiting) [
  | inl e ↦ rw (e, ==_refl g, receive) e
  | inr (cmd, cmds, e) ↦ rw (e, ==_refl g, receive) refl
]

receive-other :
    (d : CommandDispatcher) (h g : ℕ) → (h == g) ≡ false → (receive d h).0.channel g ≡ d.channel g
unfolding receive
receive-other d h g o = ground (arith, o)

receive-waiting :
    (d : CommandDispatcher) (h g : ℕ)
    → removed d (receives h) g ++ ((receive d h).0.channel g).waiting ≡ (d.channel g).waiting
receive-waiting d h g = elim (Bool-cases (h == g)) [
  | inl e ↦
      subst
        (λ x.
          removed d (receives x) g ++ ((receive d x).0.channel g).waiting ≡ (d.channel g).waiting)
        (sym ((==_iff h g).0 e)) (receive_self d g)
  | inr e ↦ rw (e, if◌then◌else◌) (ap (λ (c : Channel). c.waiting) (receive-other d h g e))
]

step-waiting :
    (d : CommandDispatcher) (e : Event) (g : ℕ)
    → g < d.next_gen
    → removed d e g ++ ((step d e).channel g).waiting ≡ (d.channel g).waiting ++ sent d e g
unfolding subscribe unsubscribe_if close
step-waiting d (subscribes n) g l = ground (arith, append-nil (d.channel g).waiting)
step-waiting d (dispatches n cmd) g l = dispatch-waiting d n cmd g
step-waiting d (replays h cmd) g l = poll_send-waiting d h cmd g
step-waiting d (unsubscribes n h) g l = ground (arith, append-nil (d.channel g).waiting)
step-waiting d (receives h) g l = receive-waiting d h g ∙ sym (append-nil (d.channel g).waiting)
step-waiting d (closes h) g l = elim (Bool-cases (h == g)) [
  | inl e ↦ ground (arith, e, append-nil (d.channel g).waiting)
  | inr e ↦ ground (arith, e, append-nil (d.channel g).waiting)
]

abbrev pub run : CommandDispatcher → List Event → CommandDispatcher
run d [] = d
run d (e ∷ es) = run (step d e) es

abbrev pub all_sent : CommandDispatcher → List Event → ℕ → List Command
all_sent d [] g = []
all_sent d (e ∷ es) g = sent d e g ++ all_sent (step d e) es g

abbrev pub all_removed : CommandDispatcher → List Event → ℕ → List Command
all_removed d [] g = []
all_removed d (e ∷ es) g = removed d e g ++ all_removed (step d e) es g

step-next_gen :
    (d : CommandDispatcher) (e : Event) (n : ℕ)
    → d.next_gen + suc n < mod64
    → (d.next_gen ≤ (step d e).next_gen) × ((step d e).next_gen + n < mod64)
unfolding subscribe dispatch try_send poll_send unsubscribe_if receive close
step-next_gen d (subscribes m) n l = ground arith
step-next_gen d (dispatches m cmd) n l = ground arith
step-next_gen d (replays h cmd) n l = ground arith
step-next_gen d (unsubscribes m h) n l = ground arith
step-next_gen d (receives h) n l = ground arith
step-next_gen d (closes h) n l = ground arith

-- The commands of a channel that has been opened leave it in the order in which they were sent into it,
-- and none twice: through any subscriptions, dispatches, replays of a reconciliation, ends of streams and
-- receptions, the commands that the stream has received or that its end has discarded, and then those
-- that still wait, are those that waited at first and then those whose dispatch or replay reported
-- that they were sent; as long as the counter of generations does not wrap.
pub run-waiting :
    (d : CommandDispatcher) (es : List Event) (g : ℕ)
    → g < d.next_gen
    → d.next_gen + length es < mod64
    → all_removed d es g ++ ((run d es).channel g).waiting
      ≡ (d.channel g).waiting ++ all_sent d es g
run-waiting d [] g l b = sym (append-nil (d.channel g).waiting)
run-waiting d (e ∷ es) g l b =
    let d' = step d e in
    let (grows, room) = step-next_gen d e (length es) b in
    append_assoc (removed d e g) (all_removed d' es g) ((run d' es).channel g).waiting
    ∙ ap (λ cs. removed d e g ++ cs) (run-waiting d' es g (omega (arith, l, grows)) room)
    ∙ sym (append_assoc (removed d e g) (d'.channel g).waiting (all_sent d' es g))
    ∙ ap (λ cs. cs ++ all_sent d' es g) (step-waiting d e g l)
    ∙ append_assoc (d.channel g).waiting (sent d e g) (all_sent d' es g)
