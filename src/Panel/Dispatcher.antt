-- ===== src/Panel/Dispatcher.antt =====
-- crates/panel-server/src/grpc/dispatcher.rs: the channel to each node that is connected, and the locks
-- that serialise the work on a node.
pub mod Channels
pub mod Locks
pub mod Progress
pub mod Capacity
mod Tests
use emorelay.Base.{
  ℕ, suc, Bool, true, false, Option, none, some, List, [], ◌∷◌, ◌++◌, ◌==◌, ltb, leb, if◌then◌else◌,
  length,
}
use emorelay.Base.Dict
use emorelay.Base.Words.{wrapping_add}
use emorelay.Proto.{Command}

abbrev pub channel_capacity : ℕ
channel_capacity = 1024

-- A channel is known by its generation: what waits in it, and whether its receiver is gone.
pub record Channel : Type 0 where
  pub waiting : List Command
  pub closed : Bool

pub record CommandDispatcher : Type 0 where
  pub channels : List (ℕ × ℕ)
  pub next_gen : ℕ
  pub channel : ℕ → Channel

abbrev pub empty_channel : Channel
empty_channel = record { waiting = []; closed = false }

abbrev pub set_channel : (ℕ → Channel) → ℕ → Channel → ℕ → Channel
set_channel channel generation c g = if generation == g then c else channel g

unfoldable pub new : CommandDispatcher
new = record { channels = []; next_gen = 0; channel = λ g. empty_channel }

-- `(rx, tx, generation)`: the two handles are the generation of the channel that they belong to.
pub record Subscription : Type 0 where
  pub receiver : ℕ
  pub sender : ℕ
  pub generation : ℕ

unfoldable pub subscribe : CommandDispatcher → ℕ → CommandDispatcher × Subscription
subscribe d node_id = (
  record {
    channels = Dict.insert node_id d.next_gen d.channels;
    next_gen = wrapping_add d.next_gen 1;
    channel = set_channel d.channel d.next_gen empty_channel;
  },
  record { receiver = d.next_gen; sender = d.next_gen; generation = d.next_gen },
)

-- `try_send`: refused when the receiver is gone or the channel is full.
unfoldable pub try_send : CommandDispatcher → ℕ → Command → CommandDispatcher × Bool
try_send d generation cmd =
    let c = d.channel generation in
    if c.closed
    then (d, false)
    else (if leb channel_capacity (length c.waiting) then (d, false) else (
      record d {
        channel = set_channel d.channel generation (record c { waiting = c.waiting ++ (cmd ∷ []) });
      },
      true,
    ))

-- A poll of `send` on the sender that `subscribe` gave out, with which the reconciliation is replayed:
-- nothing while the channel is full, and then whether the command was sent.
unfoldable pub poll_send : CommandDispatcher → ℕ → Command → CommandDispatcher × Option Bool
unfolding try_send
poll_send d sender cmd =
    let (d', ok) = try_send d sender cmd in
    (d', if ok then some true else (if (d.channel sender).closed then some false else none))

unfoldable pub dispatch : CommandDispatcher → ℕ → Command → CommandDispatcher × Bool
unfolding try_send
dispatch d node_id cmd = elim (Dict.lookup node_id d.channels) [
  | none ↦ (d, false)
  | some generation ↦ try_send d generation cmd
]

pub unsubscribe_if : CommandDispatcher → ℕ → ℕ → CommandDispatcher
unsubscribe_if d node_id generation = elim (Dict.lookup node_id d.channels) [
  | none ↦ d
  | some g ↦ if g == generation then record d { channels = Dict.remove node_id d.channels } else d
]

-- The stream takes the next command.
pub receive : CommandDispatcher → ℕ → CommandDispatcher × Option Command
receive d generation = elim (d.channel generation).waiting [
  | [] ↦ (d, none)
  | cmd ∷ cmds ↦ (
    record d {
      channel = set_channel d.channel generation (record (d.channel generation) { waiting = cmds });
    },
    some cmd,
  )
]

-- The stream is dropped with its receiver, and what waits in the channel is discarded.
pub close : CommandDispatcher → ℕ → CommandDispatcher
close d generation = record d {
  channel = set_channel d.channel generation (record { waiting = []; closed = true });
}

-- `sort_unstable` and `dedup`.
pub place : ℕ → List ℕ → List ℕ
place a [] = a ∷ []
place a (b ∷ bs) = if leb a b then a ∷ b ∷ bs else b ∷ place a bs

pub sort : List ℕ → List ℕ
unfolding place
sort [] = []
sort (a ∷ ns) = place a (sort ns)

pub dedup : List ℕ → List ℕ
dedup [] = []
dedup (a ∷ []) = a ∷ []
dedup (a ∷ b ∷ bs) = let rest = dedup (b ∷ bs) in if a == b then rest else a ∷ rest

-- The order in which `lock_nodes` takes its locks.
pub lock_order : List ℕ → List ℕ
unfolding sort dedup
lock_order node_ids = dedup (sort node_ids)
