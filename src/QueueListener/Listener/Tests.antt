-- ===== src/QueueListener/Listener/Tests.antt =====
-- Tests and instances for queuelistener/listener.go: one connection at a time, two may wait.
use skipper.Prelude.{◌≡◌, refl, List, [], ◌∷◌, none, some, arith, true}
use skipper.QueueListener.Ring.{
  new_ring, peek, peek_oldest, enqueue, dequeue, dequeue_oldest, range_over, visit,
}
use skipper.QueueListener.Ring.Deque.{new_ring-IsDeque}
use skipper.QueueListener.Listener.{
  Config, Conns, Listener, Event, arrives, hands_out, releases, times_out, closes, quits, start,
  step_open, step, run, expire, without, with_deadline,
}
use skipper.QueueListener.Listener.View.{View, move}
use skipper.QueueListener.Listener.Refine.{Agrees, with_ring, step_open-Agrees}
use skipper.QueueListener.Listener.Conserve.{IsSound, run-start-IsSound}

abbrev cfg : Config
cfg = record { max_concurrency = 1; max_queue_size = 2; queue_timeout = 10 }

-- The third connection makes the first give way; the newest is handed out; the second times out.
abbrev events : List Event
events =
    arrives 1 0
    ∷ arrives 2 1
    ∷ arrives 3 2
    ∷ hands_out
    ∷ times_out 12
    ∷ arrives 4 13
    ∷ releases 3
    ∷ hands_out
    ∷ arrives 5 14
    ∷ closes
    ∷ quits
    ∷ []

abbrev conns : Conns
conns = record {
  active = 4 ∷ [];
  closed = 5 ∷ 3 ∷ 2 ∷ 1 ∷ [];
  deadline =
      (with_deadline cfg 5 14 (
        with_deadline cfg 4 13 (
          with_deadline cfg 3 2
            (with_deadline cfg 2 1 (with_deadline cfg 1 0 (start cfg).conns))))).deadline;
  error = none;
  quit = true;
  ended = true;
}

abbrev last : Listener
last = record {
  queue = record { connections = some 5 ∷ none ∷ []; next = 1; size = 1 };
  concurrency = 1;
  conns = conns;
}

runs : run cfg (start cfg) events ≡ some last
unfolding run step step_open start expire without peek peek_oldest enqueue dequeue dequeue_oldest
    range_over visit new_ring
runs = refl

run-start-IsSound_example : IsSound cfg (5 ∷ 4 ∷ 3 ∷ 2 ∷ 1 ∷ []) last
run-start-IsSound_example = run-start-IsSound cfg events last (omega arith) runs

abbrev nothing : View
nothing = record { waiting = []; conns = (start cfg).conns }

step_open-Agrees_example :
    Agrees 2
      (move cfg nothing (arrives 1 0))
      (step_open cfg (with_ring nothing (new_ring 2)) (arrives 1 0))
step_open-Agrees_example =
    step_open-Agrees cfg [] (start cfg).conns (new_ring 2) (arrives 1 0)
      (new_ring-IsDeque 2 (omega arith)) (omega arith)
