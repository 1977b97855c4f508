-- ===== src/Scheduler/Filter/Tests.antt =====
-- Tests and instances for the fifo filter of filters/scheduler/fifo.go.
use skipper.Prelude.{ℕ, ◌≡◌, refl, List, [], ◌∷◌, none, some, length}
use skipper.Prelude.Int.{pos}
use skipper.Scheduler.Fifo.{Config, queue_full}
use skipper.Scheduler.Filter.{
  Argument, number, text, let_through, rejected, FilterContext, request, response, Nested,
  no_filters, filter, run_nested, create_filter, checked_config,
}
use skipper.Scheduler.Filter.Release.{count, taken, run_nested-released}

abbrev arguments : List Argument
arguments = number (pos 2) ∷ number (pos 0) ∷ text (some (pos 3000000)) ∷ []

abbrev config : Config
config = record { max_concurrency = 2; max_queue_size = 0; timeout = 3000000; close_timeout = 0 }

accepts : create_filter arguments ≡ some config
unfolding create_filter checked_config
accepts = refl

refuses_short : create_filter (number (pos 2) ∷ number (pos 0) ∷ text (some (pos 5)) ∷ []) ≡ none
unfolding create_filter checked_config
refuses_short = refl

-- A route with a fifo filter loops back to one whose queue is full, and then to one that is not.
abbrev looped : Nested
looped =
    filter (let_through 4)
      (filter (rejected queue_full) no_filters (filter (let_through 5) no_filters no_filters))
      no_filters

abbrev start : FilterContext
start = record { pending = []; released = []; served = [] }

releases_all :
    run_nested start looped ≡ record { pending = []; released = 5 ∷ 4 ∷ []; served = 503 ∷ [] }
unfolding run_nested request response
releases_all = refl

run_nested-released_example :
    (length (run_nested start looped).pending ≡ 0)
    × ((d : ℕ) → count d (run_nested start looped).released ≡ count d (taken looped))
run_nested-released_example = run_nested-released looped
