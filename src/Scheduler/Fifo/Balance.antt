-- ===== src/Scheduler/Fifo/Balance.antt =====
-- One access of a request of a fifoQueue: what it does to the counter and to the semaphore.
use skipper.Prelude.{
  ℕ, ◌+◌, ◌≤◌, ◌<◌, ◌≡◌, refl, true, Option, none, some, if◌then◌else◌, arith, ◌⊎◌,
}
use skipper.Scheduler.Fifo.{
  Semaphore, IsSemaphore, Phase, entering, counted, waiting, failed, running, leaving, returned,
  Request, ContextError, is_full, in_phase, transit,
}
use skipper.Scheduler.Fifo.Count.{is_counted, is_holding, is_admitted, counts_in, admitted_in}

-- A step of one request, with its counter at n and its semaphore holding h of size c, goes to phase
-- p' with n' and h': both numbers follow the request, and it is admitted only within its sizes.
pub record Balanced (r : Request) (p p' : Phase) (n n' h h' c : ℕ) : Type 0 where
  pub follows : n' + (if is_counted p then 1 else 0) ≡ n + (if is_counted p' then 1 else 0)
  pub holding : h' + (if is_holding p then 1 else 0) ≡ h + (if is_holding p' then 1 else 0)
  pub within : h ≤ c → h' ≤ c
  pub admits :
      is_admitted r p' ≡ true
      → (is_admitted r p ≡ true) ⊎ (n' ≤ r.max_concurrency + r.max_queue_size)

pub is_admitted-counted : (r : Request) (p : Phase) → is_admitted r p ≡ true → is_counted p ≡ true
unfolding is_admitted is_counted
is_admitted-counted r (counted all) h = refl
is_admitted-counted r entering h = h
is_admitted-counted r waiting h = h
is_admitted-counted r (failed e) h = h
is_admitted-counted r running h = h
is_admitted-counted r leaving h = h
is_admitted-counted r (returned e) h = h

-- The phase in the request plays no part in the test.
pub is_admitted-in_phase :
    (r : Request) (p q : Phase) → is_admitted (in_phase r q) p ≡ is_admitted r p
unfolding is_admitted is_full
is_admitted-in_phase r (counted all) q = refl
is_admitted-in_phase r entering q = refl
is_admitted-in_phase r waiting q = refl
is_admitted-in_phase r (failed e) q = refl
is_admitted-in_phase r running q = refl
is_admitted-in_phase r leaving q = refl
is_admitted-in_phase r (returned e) q = refl

pub admitted-counted : (g : ℕ) (r : Request) → admitted_in g r ≡ true → counts_in g r ≡ true
admitted-counted g r h = ground (arith, is_admitted-counted r r.phase)

module _ {S : Type 0} {sem : Semaphore S} (law : IsSemaphore sem) where
  pub transit-Balanced :
      (r : Request) (p p' : Phase) (x : Option ContextError) (n n' : ℕ) (m m' : S)
      → transit sem r p x n m ≡ some (p', n', m')
      → (is_counted p ≡ true → 0 < n)
      → (is_holding p ≡ true → 0 < law.held m)
      → Balanced r p p' n n' (law.held m) (law.held m') (law.size m)
  unfolding transit is_counted is_holding is_admitted is_full
  transit-Balanced r entering p' (some x) n n' m m' e a b = record {
    follows = ground arith;
    holding = ground arith;
    within = ground arith;
    admits = ground arith;
  }
  transit-Balanced r entering p' none n n' m m' e a b = record {
    follows = ground arith;
    holding = ground arith;
    within = ground arith;
    admits = ground arith;
  }
  transit-Balanced r (counted all) p' x n n' m m' e a b = record {
    follows = ground arith;
    holding = ground arith;
    within = ground arith;
    admits = ground arith;
  }
  transit-Balanced r waiting p' (some x) n n' m m' e a b = record {
    follows = ground arith;
    holding = ground arith;
    within = ground arith;
    admits = ground arith;
  }
  transit-Balanced r waiting p' none n n' m m' e a b = record {
    follows = ground (arith, law.acquire-held m m');
    holding = ground (arith, law.acquire-held m m');
    within = ground (arith, law.acquire-held m m');
    admits = ground (arith, law.acquire-held m m');
  }
  transit-Balanced r (failed x) p' y n n' m m' e a b = record {
    follows = ground arith;
    holding = ground arith;
    within = ground arith;
    admits = ground arith;
  }
  transit-Balanced r running p' x n n' m m' e a b = record {
    follows = ground arith;
    holding = ground arith;
    within = ground arith;
    admits = ground arith;
  }
  transit-Balanced r leaving p' x n n' m m' e a b = record {
    follows = ground arith;
    holding = ground (arith, law.release-held m);
    within = ground (arith, law.release-held m);
    admits = ground arith;
  }
  transit-Balanced r (returned y) p' x n n' m m' e a b = absurd (ground arith)

  pub transit-size :
      (r : Request) (p p' : Phase) (x : Option ContextError) (n n' : ℕ) (m m' : S)
      → transit sem r p x n m ≡ some (p', n', m')
      → law.size m' ≡ law.size m
  unfolding transit
  transit-size r entering p' (some x) n n' m m' e = ground arith
  transit-size r entering p' none n n' m m' e = ground arith
  transit-size r (counted all) p' x n n' m m' e = ground arith
  transit-size r waiting p' (some x) n n' m m' e = ground arith
  transit-size r waiting p' none n n' m m' e = ground (arith, law.acquire-size m m')
  transit-size r (failed x) p' y n n' m m' e = ground arith
  transit-size r running p' x n n' m m' e = ground arith
  transit-size r leaving p' x n n' m m' e = ground (arith, law.release-size m)
  transit-size r (returned y) p' x n n' m m' e = absurd (ground arith)
