-- ===== src/Scheduler/Fifo/Tests.antt =====
-- Tests and instances for fifoQueue: a queue for one running and one waiting request.
use skipper.Prelude.{
  ℕ, ◌+◌, ◌-◌, ◌≡◌, refl, List, [], ◌∷◌, none, some, ltb, if◌then◌else◌, get_elem?, All, arith,
  true,
}
use skipper.Scheduler.Fifo.{
  Semaphore, IsSemaphore, Config, Shared, Event, arrives, proceeds, reconfigures, closes, canceled,
  queue_full, returned, new_fifo_queue, run, step, transit, moved, reconfigure, close, arrive,
  is_full,
}
use skipper.Scheduler.Fifo.Sound.{IsLimited, run-IsLimited, run-drained, is_returned}

-- A semaphore that only counts.
record Weighted : Type 0 where
  size : ℕ
  held : ℕ

abbrev sem : Semaphore Weighted
sem = record {
  new_weighted = λ n. record { size = n; held = 0 };
  acquire = λ m. if ltb m.held m.size then some (record m { held = m.held + 1 }) else none;
  release = λ m. record m { held = m.held - 1 };
}

law : IsSemaphore sem
law = record {
  size = λ m. m.size;
  held = λ m. m.held;
  new-size = λ n. refl;
  new-held = λ n. refl;
  acquire-held = λ s t h. ground arith;
  acquire-size = λ s t h. ground arith;
  release-held = λ s h. ground arith;
  release-size = λ s. refl;
}

abbrev config : Config
config = record { max_concurrency = 1; max_queue_size = 1; timeout = 100; close_timeout = 0 }

abbrev go : ℕ → Event
go i = proceeds i none

-- Two get in, of which one runs and one waits; the third finds the queue full.
abbrev busy : List Event
busy = arrives ∷ arrives ∷ arrives ∷ go 0 ∷ go 1 ∷ go 2 ∷ go 0 ∷ go 1 ∷ go 2 ∷ go 0 ∷ []

runs : (s : Shared Weighted) × (run sem (new_fifo_queue sem config) busy ≡ some s)
unfolding run step new_fifo_queue arrive transit moved is_full
runs = (_, refl)

third_is_refused :
    get_elem? (runs.0).requests 2
    ≡ some (record {
      counter = 0;
      sem = 0;
      max_concurrency = 1;
      max_queue_size = 1;
      phase = returned (some queue_full);
    })
unfolding runs run step new_fifo_queue arrive transit moved is_full
third_is_refused = refl

run-IsLimited_example : IsLimited law runs.0
run-IsLimited_example = run-IsLimited law config busy runs.0 runs.1

-- The queue is reconfigured while a request runs; then all requests come to an end.
abbrev all_done : List Event
all_done =
    arrives
    ∷ go 0
    ∷ go 0
    ∷ go 0
    ∷ reconfigures
        (record { max_concurrency = 2; max_queue_size = 0; timeout = 5; close_timeout = 0 })
    ∷ arrives
    ∷ go 1
    ∷ go 1
    ∷ proceeds 1 (some canceled)
    ∷ go 1
    ∷ go 0
    ∷ go 0
    ∷ closes
    ∷ []

runs_all : (s : Shared Weighted) × (run sem (new_fifo_queue sem config) all_done ≡ some s)
unfolding run step new_fifo_queue arrive transit moved is_full reconfigure close
runs_all = (_, refl)

ended : All (λ r. is_returned r.phase ≡ true) (runs_all.0).requests
unfolding runs_all run step new_fifo_queue arrive transit moved is_full reconfigure close
ended = (refl, (refl, tt))

run-drained_example : ((runs_all.0).counters 1 ≡ 0) × (law.held ((runs_all.0).sems 1) ≡ 0)
run-drained_example = run-drained law config all_done runs_all.0 runs_all.1 ended 1
