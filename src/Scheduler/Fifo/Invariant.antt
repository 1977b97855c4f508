-- ===== src/Scheduler/Fifo/Invariant.antt =====
-- The invariant of a fifoQueue: every counter is the number of requests that are counted in it, and
-- of every semaphore as much is held as requests hold.
use skipper.Prelude.{
  ℕ, zero, suc, ◌+◌, ◌≤◌, ◌<◌, ◌≡◌, ap, ◌∙◌, Bool, true, List, [], ◌∷◌, some, ◌==◌, get_elem?, set,
  count_of, count_of-set, count_of-le, All, All-set, All-get_elem?, arith, ◌⊎◌,
}
use skipper.Scheduler.Fifo.{Semaphore, IsSemaphore, Phase, Request, Shared, in_phase, moved, arrive}
use skipper.Scheduler.Fifo.Count.{
  is_counted, is_holding, is_admitted, counts_in, holds_in, admitted_in,
}
use skipper.Scheduler.Fifo.Balance.{Balanced, is_admitted-in_phase, admitted-counted}

-- What a request keeps of the generation that it came in, where the semaphores have the sizes caps
-- and the counters the limits lims.
abbrev pub Known : ℕ → (ℕ → ℕ) → (ℕ → ℕ) → Request → Type 0
Known allocated caps lims r =
    (r.counter < allocated)
    × (r.sem < allocated)
    × (r.max_concurrency ≡ caps r.sem)
    × (r.max_concurrency + r.max_queue_size ≡ lims r.counter)

module _ {S : Type 0} {sem : Semaphore S} (law : IsSemaphore sem) where
  pub record Invariant (caps lims : ℕ → ℕ) (s : Shared S) : Type 0 where
    pub tracked : (g : ℕ) → s.counters g ≡ count_of (counts_in g) s.requests
    pub held : (g : ℕ) → law.held (s.sems g) ≡ count_of (holds_in g) s.requests
    pub within : (g : ℕ) → law.held (s.sems g) ≤ law.size (s.sems g)
    pub sized : (g : ℕ) → g < s.allocated → law.size (s.sems g) ≡ caps g
    pub admitted : (g : ℕ) → count_of (admitted_in g) s.requests ≤ lims g
    pub known : All (Known s.allocated caps lims) s.requests
    pub current : Known s.allocated caps lims (arrive s)

  count_of-positive :
      {A : Type 0} (p : A → Bool) (xs : List A) (i : ℕ) (x : A)
      → get_elem? xs i ≡ some x
      → p x ≡ true
      → 0 < count_of p xs
  count_of-positive p [] i x h e = cc
  count_of-positive p (z ∷ xs) zero x h e = ground arith
  count_of-positive p (z ∷ xs) (suc i) x h e = ground (arith, count_of-positive p xs i x h)

  module _ (caps lims : ℕ → ℕ) (s : Shared S) (inv : Invariant caps lims s) (i : ℕ) (r : Request)
      (there : get_elem? s.requests i ≡ some r) where
    known : Known s.allocated caps lims r
    known = All-get_elem? (Known s.allocated caps lims) s.requests i r inv.known there

    pub counted-positive : is_counted r.phase ≡ true → 0 < s.counters r.counter
    counted-positive c =
        let here : counts_in r.counter r ≡ true = ground arith in
        omega (
          arith,
          inv.tracked r.counter,
          count_of-positive (counts_in r.counter) s.requests i r there here,
        )

    pub held-positive : is_holding r.phase ≡ true → 0 < law.held (s.sems r.sem)
    held-positive c =
        let here : holds_in r.sem r ≡ true = ground arith in
        omega (arith, inv.held r.sem, count_of-positive (holds_in r.sem) s.requests i r there here)

    same : (f : ℕ → ℕ) (g : ℕ) → (r.counter == g) ≡ true → f r.counter ≡ f g
    same f g h = ap f (ground arith)

    admitted-moved :
        (p : Phase) (n g : ℕ)
        → (is_admitted r p ≡ true
            → (is_admitted r r.phase ≡ true) ⊎ (n ≤ r.max_concurrency + r.max_queue_size))
        → ((r.counter == g) ≡ true → count_of (counts_in g) (set s.requests i (in_phase r p)) ≡ n)
        → count_of (admitted_in g) (set s.requests i (in_phase r p)) ≤ lims g
    admitted-moved p n g admits total =
        let (_, _, _, sum) = known in
        let limit : (r.counter == g) ≡ true → r.max_concurrency + r.max_queue_size ≡ lims g =
          λ h. sum ∙ same lims g h in
        ground (
          arith,
          limit,
          is_admitted-in_phase r p p,
          inv.admitted g,
          count_of-set (admitted_in g) s.requests i r (in_phase r p) there,
          count_of-le (admitted_in g) (counts_in g) (set s.requests i (in_phase r p))
              (admitted-counted g),
        )

    pub moved-Invariant :
        (p : Phase) (n : ℕ) (m : S)
        → Balanced r r.phase p
            (s.counters r.counter)
            n
            (law.held (s.sems r.sem))
            (law.held m)
            (law.size (s.sems r.sem))
        → law.size m ≡ law.size (s.sems r.sem)
        → Invariant caps lims (moved sem s i r p n m)
    unfolding moved arrive
    moved-Invariant p n m b e = record {
      tracked = λ g. ground (
        arith,
        inv.tracked g,
        b.follows,
        count_of-set (counts_in g) s.requests i r (in_phase r p) there,
      );
      held = λ g. ground (
        arith,
        inv.held g,
        b.holding,
        count_of-set (holds_in g) s.requests i r (in_phase r p) there,
      );
      within = λ g. ground (arith, inv.within g, b.within);
      sized = λ g h. ground (arith, inv.sized g h, e);
      admitted = λ g. admitted-moved p n g b.admits (
          ground (
            arith,
            inv.tracked g,
            b.follows,
            count_of-set (counts_in g) s.requests i r (in_phase r p) there,
          ));
      known = All-set (Known s.allocated caps lims) s.requests i (in_phase r p) inv.known known;
      current = inv.current;
    }
