-- ===== src/Scheduler/Fifo.antt =====
-- scheduler/scheduler.go: fifoQueue. The requests that wait in it run at the same time; a step is
-- one access to what they share, which is the counter, the semaphore and the fields under the lock.
-- `reconfigure` puts a new counter and a new semaphore in place, while requests hold the old ones,
-- so both are pointers into a store. golang.org/x/sync/semaphore is a parameter. The sizes are the
-- int64 that the fifo filter lets through: the concurrency at least 1, the queue size at least 0.
pub mod Count
pub mod Balance
pub mod Invariant
pub mod Steps
pub mod Sound
mod Tests
use skipper.Prelude.{
  ℕ, zero, suc, ◌+◌, ◌-◌, ◌^◌, ◌≤◌, ◌<◌, ◌≡◌, Bool, true, false, List, [], ◌∷◌, ◌++◌, Option, none,
  some, ltb, leb, ◌==◌, if◌then◌else◌, get_elem?, set, ◌>>=◌,
}

-- NewWeighted, an Acquire(ctx, 1) that succeeds, which is none while it blocks, and Release(1).
pub record Semaphore (S : Type 0) : Type 0 where
  pub new_weighted : ℕ → S
  pub acquire : S → Option S
  pub release : S → S

-- What the package documents: never more is acquired than the size.
pub record IsSemaphore {S : Type 0} (sem : Semaphore S) : Type 0 where
  pub size : S → ℕ
  pub held : S → ℕ
  pub new-size : (n : ℕ) → size (sem.new_weighted n) ≡ n
  pub new-held : (n : ℕ) → held (sem.new_weighted n) ≡ 0
  pub acquire-held : (s t : S) → sem.acquire s ≡ some t → (held t ≡ held s + 1) × (held s < size s)
  pub acquire-size : (s t : S) → sem.acquire s ≡ some t → size t ≡ size s
  pub release-held : (s : S) → 0 < held s → held (sem.release s) + 1 ≡ held s
  pub release-size : (s : S) → size (sem.release s) ≡ size s

-- The errors of a context, and those of wait.
pub data ContextError : Type 0 where
  deadline_exceeded : ContextError
  canceled : ContextError
  unknown : ℕ → ContextError

pub data WaitError : Type 0 where
  queue_full : WaitError
  queue_timeout : WaitError
  client_canceled : WaitError
  other : ℕ → WaitError

unfoldable pub wait_error : ContextError → WaitError
wait_error deadline_exceeded = queue_timeout
wait_error canceled = client_canceled
wait_error (unknown e) = other e

pub record Config : Type 0 where
  pub max_concurrency : ℕ
  pub max_queue_size : ℕ
  pub timeout : ℕ
  pub close_timeout : ℕ

-- The fields of a fifoQueue; the counter and the semaphore are pointers.
pub record FifoQueue : Type 0 where
  pub counter : ℕ
  pub sem : ℕ
  pub timeout : ℕ
  pub max_queue_size : ℕ
  pub max_concurrency : ℕ
  pub closed : Bool

-- Where a call of wait is, and then the request that it let through.
pub data Phase : Type 0 where
  -- The fields are read.
  entering : Phase
  -- `all := cnt.Add(1)` is done.
  counted : ℕ → Phase
  -- In sem.Acquire.
  waiting : Phase
  -- sem.Acquire has failed.
  failed : WaitError → Phase
  -- wait has returned the function to be called when the request is done.
  running : Phase
  -- That function has counted the request out and has to release the semaphore.
  leaving : Phase
  -- wait has returned an error, or the request is done.
  returned : Option WaitError → Phase

-- The variables of a call of wait.
pub record Request : Type 0 where
  pub counter : ℕ
  pub sem : ℕ
  pub max_concurrency : ℕ
  pub max_queue_size : ℕ
  pub phase : Phase

pub record Shared (S : Type 0) : Type 0 where
  pub queue : FifoQueue
  pub counters : ℕ → ℕ
  pub sems : ℕ → S
  -- How many counters and semaphores were made.
  pub allocated : ℕ
  pub requests : List Request

pub data Event : Type 0 where
  -- wait is called, and reads the fields.
  arrives : Event
  -- Request i makes its next access, while its context has the error or none.
  proceeds : ℕ → Option ContextError → Event
  reconfigures : Config → Event
  closes : Event

abbrev pub update : {A : Type 0} → (ℕ → A) → ℕ → A → ℕ → A
update f i a j = if j == i then a else f j

-- `all > maxConcurrency+maxQueueSize`, where the sum of the int64 wraps to a negative one.
unfoldable pub is_full : Request → ℕ → Bool
is_full r all =
    let sum = r.max_concurrency + r.max_queue_size in if leb (2 ^ 63) sum then true else ltb sum all

abbrev pub in_phase : Request → Phase → Request
in_phase r p = record r { phase = p }

pub record QueueStatus : Type 0 where
  pub active_requests : ℕ
  pub queued_requests : ℕ
  pub closed : Bool

unfoldable pub status : {S : Type 0} → Shared S → QueueStatus
status s =
    let all = s.counters s.queue.counter in
    let over = ltb s.queue.max_concurrency all in
    record {
      active_requests = if over then s.queue.max_concurrency else all;
      queued_requests = if over then all - s.queue.max_concurrency else 0;
      closed = s.queue.closed;
    }

unfoldable pub close : {S : Type 0} → Shared S → Shared S
close s = record s { queue = record (s.queue) { closed = true } }

-- The fields that a call of wait reads under the lock.
unfoldable pub arrive : {S : Type 0} → Shared S → Request
arrive s = record {
  counter = s.queue.counter;
  sem = s.queue.sem;
  max_concurrency = s.queue.max_concurrency;
  max_queue_size = s.queue.max_queue_size;
  phase = entering;
}

module _ {S : Type 0} (sem : Semaphore S) where
  -- newFifoQueue.
  unfoldable pub new_fifo_queue : Config → Shared S
  new_fifo_queue c = record {
    queue = record {
      counter = 0;
      sem = 0;
      timeout = c.timeout;
      max_queue_size = c.max_queue_size;
      max_concurrency = c.max_concurrency;
      closed = false;
    };
    counters = λ j. 0;
    sems = λ j. sem.new_weighted c.max_concurrency;
    allocated = 1;
    requests = [];
  }

  unfoldable pub reconfigure : Config → Shared S → Shared S
  reconfigure c s = record s {
    queue = record (s.queue) {
      counter = s.allocated;
      sem = s.allocated;
      timeout = c.timeout;
      max_queue_size = c.max_queue_size;
      max_concurrency = c.max_concurrency;
    };
    counters = update s.counters s.allocated 0;
    sems = update s.sems s.allocated (sem.new_weighted c.max_concurrency);
    allocated = s.allocated + 1;
  }

  -- The request and the two shared things that an access changes.
  unfoldable pub moved : Shared S → ℕ → Request → Phase → ℕ → S → Shared S
  moved s i r p n m = record s {
    requests = set s.requests i (in_phase r p);
    counters = update s.counters r.counter n;
    sems = update s.sems r.sem m;
  }

  -- The next access of a request, by its phase and the error of its context: the phase after it,
  -- and the values of its counter and its semaphore. It is none while Acquire blocks, and when
  -- nothing is left to do.
  unfoldable pub transit : Request → Phase → Option ContextError → ℕ → S → Option (Phase × ℕ × S)
  transit r entering (some e) n m = some (returned (some (wait_error e)), n, m)
  transit r entering none n m = some (counted (n + 1), n + 1, m)
  transit r (counted all) x n m =
      if is_full r all then some (returned (some queue_full), n - 1, m) else some (waiting, n, m)
  transit r waiting (some e) n m = some (failed (wait_error e), n, m)
  transit r waiting none n m = elim (sem.acquire m) [
    | none ↦ none
    | some m' ↦ some (running, n, m')
  ]
  transit r (failed e) x n m = some (returned (some e), n - 1, m)
  transit r running x n m = some (leaving, n - 1, m)
  transit r leaving x n m = some (returned none, n, sem.release m)
  transit r (returned e) x n m = none

  unfoldable pub step : Shared S → Event → Option (Shared S)
  step s arrives = some (record s { requests = s.requests ++ arrive s ∷ [] })
  step s (reconfigures c) = some (reconfigure c s)
  step s closes = some (close s)
  step s (proceeds i x) = do
    r ← get_elem? s.requests i
    (p, n, m) ← transit r r.phase x (s.counters r.counter) (s.sems r.sem)
    some (moved s i r p n m)

  unfoldable pub run : Shared S → List Event → Option (Shared S)
  run s [] = some s
  run s (e ∷ es) = do s' ← step s e; run s' es
