-- ===== src/Scheduler/Fifo/Sound.antt =====
-- What a fifoQueue promises to the requests: how many run and how many wait, whatever happens.
use skipper.Prelude.{
  ℕ, ◌+◌, ◌≤◌, ◌≡◌, refl, Bool, true, false, ◌&&◌, not, List, [], ◌∷◌, some, ◌==◌, get_elem?,
  count_of, All, All-get_elem?, arith,
}
use skipper.Scheduler.Fifo.{
  Semaphore, IsSemaphore, Phase, entering, counted, waiting, failed, running, leaving, returned,
  Request, Shared, Event, Config, run, new_fifo_queue, status, arrive,
}
use skipper.Scheduler.Fifo.Count.{
  is_counted, is_holding, is_admitted, counts_in, holds_in, admitted_in,
}
use skipper.Scheduler.Fifo.Balance.{is_admitted-counted}
use skipper.Scheduler.Fifo.Invariant.{Invariant, Known}
use skipper.Scheduler.Fifo.Steps.{new_fifo_queue-IsValid, run-IsValid}

-- Counted, and about to be refused.
abbrev pub refused_in : ℕ → Request → Bool
refused_in g r = r.counter == g && (is_counted r.phase && not (is_admitted r r.phase))

abbrev pub is_returned : Phase → Bool
is_returned (returned e) = true
is_returned _ = false

-- No more of the requests that came in the generation of r hold the semaphore than the concurrency
-- that r read, and no more are let in than the concurrency and the queue size together.
abbrev pub Limited : List Request → Request → Type 0
Limited rs r =
    (count_of (holds_in r.sem) rs ≤ r.max_concurrency)
    × (count_of (admitted_in r.counter) rs ≤ r.max_concurrency + r.max_queue_size)

module _ {S : Type 0} {sem : Semaphore S} (law : IsSemaphore sem) where
  -- The limits hold for every request there is and for the one that would come next.
  abbrev pub IsLimited : Shared S → Type 0
  IsLimited s =
      ((i : ℕ) (r : Request) → get_elem? s.requests i ≡ some r → Limited s.requests r)
      × Limited s.requests (arrive s)

  Known-Limited :
      (caps lims : ℕ → ℕ) (s : Shared S) (r : Request)
      → Invariant law caps lims s
      → Known s.allocated caps lims r
      → Limited s.requests r
  Known-Limited caps lims s r inv (c, h, size, limit) = (
    omega (arith, inv.held r.sem, inv.within r.sem, inv.sized r.sem h, size),
    omega (arith, inv.admitted r.counter, limit),
  )

  -- After any run of the requests, their contexts and reconfigurations, no more requests that came
  -- in one generation of the queue hold its semaphore than its concurrency, and no more are let in
  -- than its concurrency and its queue size together.
  pub run-IsLimited :
      (c : Config) (es : List Event) (s : Shared S)
      → run sem (new_fifo_queue sem c) es ≡ some s
      → IsLimited s
  run-IsLimited c es s h =
      let (caps, lims, inv) = run-IsValid law _ s es (new_fifo_queue-IsValid law c) h in
      (
        (λ i r there.
            Known-Limited caps lims s r inv
              (All-get_elem? (Known s.allocated caps lims) s.requests i r inv.known there)),
        Known-Limited caps lims s (arrive s) inv inv.current,
      )

  none-counted :
      (p : ℕ → Request → Bool) (g : ℕ) (rs : List Request)
      → ((r : Request) → is_returned r.phase ≡ true → p g r ≡ false)
      → All (λ r. is_returned r.phase ≡ true) rs
      → count_of (p g) rs ≡ 0
  none-counted p g [] h a = refl
  none-counted p g (r ∷ rs) h a = ground (arith, h r a.0, none-counted p g rs h a.1)

  phase-counted :
      (p : Phase) → is_returned p ≡ true → (is_counted p ≡ false) × (is_holding p ≡ false)
  unfolding is_counted is_holding
  phase-counted (returned e) h = (refl, refl)
  phase-counted entering h = ground arith
  phase-counted (counted all) h = ground arith
  phase-counted waiting h = ground arith
  phase-counted (failed e) h = ground arith
  phase-counted running h = ground arith
  phase-counted leaving h = ground arith

  -- When every call of wait has returned, and every request that was let through is done, each
  -- counter is 0 and nothing of a semaphore is held.
  pub run-drained :
      (c : Config) (es : List Event) (s : Shared S)
      → run sem (new_fifo_queue sem c) es ≡ some s
      → All (λ r. is_returned r.phase ≡ true) s.requests
      → (g : ℕ) → (s.counters g ≡ 0) × (law.held (s.sems g) ≡ 0)
  run-drained c es s h done g =
      let (caps, lims, inv) = run-IsValid law _ s es (new_fifo_queue-IsValid law c) h in
      (
        omega (
          arith,
          inv.tracked g,
          none-counted counts_in g s.requests (λ r d. ground (arith, phase-counted r.phase d)) done,
        ),
        omega (
          arith,
          inv.held g,
          none-counted holds_in g s.requests (λ r d. ground (arith, phase-counted r.phase d)) done,
        ),
      )

  counts-split :
      (g : ℕ) (rs : List Request)
      → count_of (counts_in g) rs ≡ count_of (admitted_in g) rs + count_of (refused_in g) rs
  counts-split g [] = refl
  counts-split g (r ∷ rs) = ground (arith, counts-split g rs, is_admitted-counted r r.phase)

  -- After any run the status divides the requests that are counted in the current generation into
  -- active and queued ones; no more are active than the concurrency, and no more are queued than
  -- the queue size and those that are about to be refused.
  pub run-status :
      (c : Config) (es : List Event) (s : Shared S)
      → run sem (new_fifo_queue sem c) es ≡ some s
      → let g = s.queue.counter in
        ((status s).active_requests + (status s).queued_requests
          ≡ count_of (counts_in g) s.requests)
        × ((status s).active_requests ≤ s.queue.max_concurrency)
        × ((status s).queued_requests ≤ s.queue.max_queue_size + count_of (refused_in g) s.requests)
  unfolding status arrive
  run-status c es s h =
      let (caps, lims, inv) = run-IsValid law _ s es (new_fifo_queue-IsValid law c) h in
      let g = s.queue.counter in
      let (_, _, _, limit) = inv.current in
      ground (arith, limit, inv.tracked g, inv.admitted g, counts-split g s.requests)
