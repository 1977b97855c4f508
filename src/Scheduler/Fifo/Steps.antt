-- ===== src/Scheduler/Fifo/Steps.antt =====
-- Every step of a fifoQueue keeps its invariant.
use skipper.Prelude.{
  ℕ, ◌+◌, ◌<◌, ◌≡◌, refl, subst, Bool, ◌&&◌, List, [], ◌∷◌, ◌++◌, Option, some, ◌==◌, get_elem?,
  count_of, count_of-append, count_of-le, All, All-append, bind-eq-some, arith,
}
use skipper.Scheduler.Fifo.{
  Semaphore, IsSemaphore, Phase, Request, Shared, Event, arrives, proceeds, ContextError,
  reconfigures, closes, update, transit, moved, step, arrive, reconfigure, close, new_fifo_queue,
  run, Config,
}
use skipper.Scheduler.Fifo.Count.{
  is_counted, is_holding, is_admitted, counts_in, holds_in, admitted_in,
}
use skipper.Scheduler.Fifo.Balance.{admitted-counted, transit-Balanced, transit-size}
use skipper.Scheduler.Fifo.Invariant.{
  Known, Invariant, counted-positive, held-positive, moved-Invariant,
}

module _ {S : Type 0} {sem : Semaphore S} (law : IsSemaphore sem) where
  requests-append :
      (caps lims : ℕ → ℕ) (s : Shared S)
      → Invariant law caps lims s
      → Invariant law caps lims (record s { requests = s.requests ++ arrive s ∷ [] })
  unfolding arrive is_counted is_holding is_admitted
  requests-append caps lims s inv = record {
    tracked = λ g.
        ground (arith, inv.tracked g, count_of-append (counts_in g) s.requests (arrive s ∷ []));
    held = λ g. ground (arith, inv.held g, count_of-append (holds_in g) s.requests (arrive s ∷ []));
    within = inv.within;
    sized = inv.sized;
    admitted = λ g.
        ground (arith, inv.admitted g, count_of-append (admitted_in g) s.requests (arrive s ∷ []));
    known =
        All-append (Known s.allocated caps lims) s.requests (arrive s ∷ []) inv.known
          (inv.current, tt);
    current = inv.current;
  }

  -- No request has come in the generation that the next reconfigure makes.
  count_of-unknown :
      (n : ℕ) (caps lims : ℕ → ℕ) (f : Request → ℕ) (t : Phase → Bool) (rs : List Request)
      → ((r : Request) → Known n caps lims r → f r < n)
      → All (Known n caps lims) rs
      → count_of (λ r. f r == n && t r.phase) rs ≡ 0
  count_of-unknown n caps lims f t [] h a = refl
  count_of-unknown n caps lims f t (r ∷ rs) h a =
      ground (arith, h r a.0, count_of-unknown n caps lims f t rs h a.1)

  Known-reconfigure :
      (n c l : ℕ) (caps lims : ℕ → ℕ) (rs : List Request)
      → All (Known n caps lims) rs
      → All (Known (n + 1) (update caps n c) (update lims n l)) rs
  Known-reconfigure n c l caps lims [] a = tt
  Known-reconfigure n c l caps lims (r ∷ rs) (k, a) =
      (ground arith, Known-reconfigure n c l caps lims rs a)

  reconfigure-Invariant :
      (caps lims : ℕ → ℕ) (c : Config) (s : Shared S)
      → Invariant law caps lims s
      → Invariant law
          (update caps s.allocated c.max_concurrency)
          (update lims s.allocated (c.max_concurrency + c.max_queue_size))
          (reconfigure sem c s)
  unfolding reconfigure arrive
  reconfigure-Invariant caps lims c s inv =
      let n = s.allocated in
      let none_counted : count_of (counts_in n) s.requests ≡ 0 =
        count_of-unknown n caps lims (λ r. r.counter) is_counted s.requests (λ r k. k.0)
          inv.known in
      let none_held : count_of (holds_in n) s.requests ≡ 0 =
        count_of-unknown n caps lims (λ r. r.sem) is_holding s.requests (λ r k. k.1) inv.known in
      record {
        tracked = λ g. ground (arith, inv.tracked g, none_counted);
        held = λ g. ground (arith, inv.held g, none_held, law.new-held c.max_concurrency);
        within = λ g. ground (arith, inv.within g, law.new-held c.max_concurrency);
        sized = λ g h. ground (arith, inv.sized g, law.new-size c.max_concurrency);
        admitted = λ g. ground (
          arith,
          inv.admitted g,
          none_counted,
          count_of-le (admitted_in n) (counts_in n) s.requests (admitted-counted n),
        );
        known = Known-reconfigure n _ _ caps lims s.requests inv.known;
        current = ground arith;
      }

  -- Some sizes and limits fit.
  abbrev pub IsValid : Shared S → Type 0
  IsValid s = (caps : ℕ → ℕ) × (lims : ℕ → ℕ) × Invariant law caps lims s

  proceeds-IsValid :
      (s s' : Shared S) (i : ℕ) (x : Option ContextError)
      → IsValid s
      → step sem s (proceeds i x) ≡ some s'
      → IsValid s'
  unfolding step
  proceeds-IsValid s s' i x (caps, lims, inv) h =
      let (r, there, h') = bind-eq-some (get_elem? s.requests i) _ h in
      let ((p, n, m), t, h'') =
        bind-eq-some (transit sem r r.phase x (s.counters r.counter) (s.sems r.sem)) _ h' in
      let same : moved sem s i r p n m ≡ s' = ground arith in
      let balanced =
        transit-Balanced law r r.phase p x _ n _ m t
          (counted-positive law caps lims s inv i r there)
          (held-positive law caps lims s inv i r there) in
      (
        caps,
        lims,
        subst (Invariant law caps lims) same (
            moved-Invariant law caps lims s inv i r there p n m balanced
              (transit-size law r r.phase p x _ n _ m t)),
      )

  close-Invariant :
      (caps lims : ℕ → ℕ) (s : Shared S)
      → Invariant law caps lims s
      → Invariant law caps lims (close s)
  unfolding close arrive
  close-Invariant caps lims s inv = record {
    tracked = inv.tracked;
    held = inv.held;
    within = inv.within;
    sized = inv.sized;
    admitted = inv.admitted;
    known = inv.known;
    current = inv.current;
  }

  -- Each step keeps the invariant.
  pub step-IsValid : (s s' : Shared S) (e : Event) → IsValid s → step sem s e ≡ some s' → IsValid s'
  unfolding step close arrive
  step-IsValid s s' (proceeds i x) v h = proceeds-IsValid s s' i x v h
  step-IsValid s s' arrives (caps, lims, inv) h =
      (caps, lims, subst (Invariant law caps lims) (ground arith) (requests-append caps lims s inv))
  step-IsValid s s' (reconfigures c) (caps, lims, inv) h =
      (_, _, subst (Invariant law _ _) (ground arith) (reconfigure-Invariant caps lims c s inv))
  step-IsValid s s' closes (caps, lims, inv) h =
      (caps, lims, subst (Invariant law caps lims) (ground arith) (close-Invariant caps lims s inv))

  pub new_fifo_queue-IsValid : (c : Config) → IsValid (new_fifo_queue sem c)
  unfolding new_fifo_queue arrive
  new_fifo_queue-IsValid c = (
    (λ j. c.max_concurrency),
    (λ j. c.max_concurrency + c.max_queue_size),
    record {
      tracked = λ g. refl;
      held = λ g. law.new-held c.max_concurrency;
      within = λ g. omega (arith, law.new-held c.max_concurrency);
      sized = λ g h. law.new-size c.max_concurrency;
      admitted = λ g. omega arith;
      known = tt;
      current = ground arith;
    },
  )

  pub run-IsValid :
      (s s' : Shared S) (es : List Event) → IsValid s → run sem s es ≡ some s' → IsValid s'
  unfolding run
  run-IsValid s s' [] v h = let same : s ≡ s' = ground arith in subst IsValid same v
  run-IsValid s s' (e ∷ es) v h =
      let (m, h0, h1) = bind-eq-some (step sem s e) _ h in
      run-IsValid m s' es (step-IsValid s m e v h0) h1
