-- ===== src/Scheduler/Fifo/Count.antt =====
-- The requests of a fifoQueue by the counter and the semaphore that they use.
use skipper.Prelude.{ℕ, Bool, true, false, not, ◌&&◌, ◌==◌}
use skipper.Scheduler.Fifo.{Phase, counted, waiting, failed, running, leaving, Request, is_full}

-- Between the Add(1) and the Add(-1) of a request.
unfoldable pub is_counted : Phase → Bool
is_counted (counted all) = true
is_counted waiting = true
is_counted (failed e) = true
is_counted running = true
is_counted _ = false

-- Between the Acquire and the Release.
unfoldable pub is_holding : Phase → Bool
is_holding running = true
is_holding leaving = true
is_holding _ = false

-- Counted, and not about to be refused.
unfoldable pub is_admitted : Request → Phase → Bool
is_admitted r (counted all) = not (is_full r all)
is_admitted r p = is_counted p

abbrev pub counts_in : ℕ → Request → Bool
counts_in g r = r.counter == g && is_counted r.phase

abbrev pub holds_in : ℕ → Request → Bool
holds_in g r = r.sem == g && is_holding r.phase

abbrev pub admitted_in : ℕ → Request → Bool
admitted_in g r = r.counter == g && is_admitted r r.phase
