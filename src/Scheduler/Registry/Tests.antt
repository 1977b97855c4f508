-- ===== src/Scheduler/Registry/Tests.antt =====
-- Tests and instances for the Registry of scheduler/scheduler.go: one route with a fifo filter, whose
-- queue is busy when the routes are updated.
use skipper.Prelude.{ℕ, ◌≡◌, refl, true, false, [], ◌∷◌, List, none, arith}
use skipper.Prelude.Map.{lookup}
use skipper.Scheduler.Fifo.{Semaphore, Config, Shared, new_fifo_queue}
use skipper.Scheduler.Pool.{QueueId, Kind, Object}
use skipper.Scheduler.Pool.Keeps.{Has}
use skipper.Scheduler.Registry.{
  Registry, RoutedFilters, fifo, lifo, config_eq, fifo_kind, do_routes,
}
use skipper.Scheduler.Registry.Serve.{is_set, do_routes-Has}
use skipper.Scheduler.Registry.Closing.{AreValid}

-- A semaphore that never lets anyone in, and a LIFO queue that is only its configuration.
abbrev sem : Semaphore ℕ
sem = record { new_weighted = λ n. 0; acquire = λ m. none; release = λ m. m }

abbrev kf : Kind Config (Shared ℕ)
kf = fifo_kind sem

abbrev kl : Kind Config Config
kl = record { make = λ c. c; reconfigure = λ c q. c; close = λ q. q }

abbrev config : ℕ → Config
config n = record { max_concurrency = n; max_queue_size = 0; timeout = 1; close_timeout = 0 }

abbrev id : QueueId
id = record { name = "r"; grouped = false }

-- The counter of the queue is at 1.
abbrev busy : Object Config (Shared ℕ)
busy = record {
  config = config 1;
  queue = record (new_fifo_queue sem (config 1)) { counters = λ j. 1 };
}

abbrev registry : Registry Config (Shared ℕ) Config
registry = record {
  fifo_queues = record { queues = (id, 0) ∷ []; deleted = []; objects = λ j. busy; made = 1 };
  lifo_queues = record {
    queues = [];
    deleted = [];
    objects = λ j. record { config = config 0; queue = config 0 };
    made = 0;
  };
}

valid : AreValid kf kl registry
unfolding lookup
valid = record {
  fifo_valid = ((λ q. id), ((refl, omega arith, refl), tt), tt);
  lifo_valid = ((λ q. id), tt, tt);
}

abbrev routes : List (RoutedFilters Config)
routes =
    record { id = "other"; filters = fifo 8 (config 2) ∷ [] }
    ∷ record { id = "r"; filters = lifo 6 (config 5) ∷ fifo 7 (config 1) ∷ [] }
    ∷ []

has : Has registry.fifo_queues id 0 busy
unfolding lookup
has = (refl, refl)

do_routes-Has_example :
    Has (do_routes kf kl (config 0) 5 registry routes).registry.fifo_queues id 0 busy
    × (is_set 7 0 (do_routes kf kl (config 0) 5 registry routes).fifo_set ≡ true)
do_routes-Has_example =
    do_routes-Has kf kl (config 0) 5 registry routes id 0 7 busy valid.fifo_valid has refl refl
