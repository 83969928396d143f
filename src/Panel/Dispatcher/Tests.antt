-- ===== src/Panel/Dispatcher/Tests.antt =====
-- crates/panel-server/src/grpc/dispatcher.rs: runs of the channels and the locks.
use emorelay.Base.{◌≡◌, refl, true, false, List, [], ◌∷◌, ◌++◌, any, arith}
use emorelay.Agent.Sample.{apply_web, restart_web}
use emorelay.Panel.Dispatcher.{CommandDispatcher, lock_order, place, sort, dedup}
use emorelay.Panel.Dispatcher.Progress.{Task, can_move, lock_order-progress}
use emorelay.Panel.Dispatcher.Channels.{
  Event, subscribes, dispatches, replays, unsubscribes, receives, closes, run, all_sent,
  all_removed, run-waiting,
}

order_of_three : lock_order (5 ∷ 1 ∷ 4 ∷ 1 ∷ []) ≡ 1 ∷ 4 ∷ 5 ∷ []
unfolding lock_order sort place dedup
order_of_three = refl

-- One task holds 1 and waits for 4, the other holds 4 and waits for 5.
abbrev low : Task
low = record { node_ids = 4 ∷ 1 ∷ []; taken = 1 }

abbrev high : Task
high = record { node_ids = 5 ∷ 4 ∷ []; taken = 1 }

lock_order-progress_example : any (can_move (low ∷ high ∷ [])) (low ∷ high ∷ []) ≡ true
lock_order-progress_example = lock_order-progress low (high ∷ [])

abbrev d : CommandDispatcher
d = record {
  channels = (7, 0) ∷ [];
  next_gen = 1;
  channel = λ g. record { waiting = restart_web ∷ []; closed = false };
}

abbrev events : List Event
events =
    dispatches 7 apply_web
    ∷ replays 0 restart_web
    ∷ receives 0
    ∷ dispatches 8 apply_web
    ∷ subscribes 7
    ∷ closes 0
    ∷ unsubscribes 7 0
    ∷ []

run-waiting_example :
    all_removed d events 0 ++ ((run d events).channel 0).waiting
    ≡ (d.channel 0).waiting ++ all_sent d events 0
run-waiting_example = run-waiting d events 0 (omega arith) (omega arith)
