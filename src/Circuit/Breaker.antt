-- ===== src/Circuit/Breaker.antt =====
-- circuit/breaker.go, circuit/consecutivebreaker.go and circuit/ratebreaker.go: the breakers, over
-- the two-step breaker of github.com/sony/gobreaker, which is a parameter. Its `allow` and the
-- callback that it returns take the time at which they run; `Ticket` stands for that callback.
pub mod Rate
use skipper.Prelude.{ℕ, Bool, true, false, not, Option, none, some, List, [], ◌∷◌}
use skipper.Prelude.Int.{ℤ, pos, leb_ℤ}
use skipper.Circuit.Sampler.{BinarySampler, new_binary_sampler, tick}
use skipper.Circuit.Settings.{
  BreakerSettings, BreakerType, breaker_none, consecutive_failures, failure_rate, breaker_disabled,
}

-- gobreaker.Counts, of which the code reads one field.
pub record Counts : Type 0 where
  pub consecutive_failures : ℕ

-- gobreaker.NewTwoStepCircuitBreaker, Allow, and the callback. The test ReadyToTrip is handed to
-- the callback, where gobreaker calls it.
pub record GoBreaker (Cb Ticket : Type 0) : Type 0 where
  pub start : BreakerSettings → Cb
  pub allow : ℕ → Cb → Cb × Option Ticket
  pub done : ℕ → Cb → Ticket → Bool → (Counts → Bool) → Cb

pub record ConsecutiveBreaker (Cb : Type 0) : Type 0 where
  pub settings : BreakerSettings
  pub gb : Cb

pub record RateBreaker (Cb : Type 0) : Type 0 where
  pub settings : BreakerSettings
  pub sampler : Option BinarySampler
  pub gb : Cb

-- readyToTrip of a consecutive breaker.
pub trips_consecutive : BreakerSettings → Counts → Bool
trips_consecutive s c = leb_ℤ s.failures (pos c.consecutive_failures)

-- readyToTrip of a rate breaker: without a sampler it does not trip.
unfoldable pub trips_rate : {Cb : Type 0} → RateBreaker Cb → Bool
trips_rate b = elim b.sampler [ none ↦ false | some s ↦ leb_ℤ b.settings.failures (pos s.count) ]

pub data Implementation (Cb : Type 0) : Type 0 where
  void : Implementation Cb
  consecutive : ConsecutiveBreaker Cb → Implementation Cb
  rate : RateBreaker Cb → Implementation Cb

-- What a request holds when it was let through: nothing to report, or the callback.
pub data Pass (Ticket : Type 0) : Type 0 where
  free : Pass Ticket
  ticket : Ticket → Pass Ticket

abbrev passed : {Ticket : Type 0} → Option Ticket → Option (Pass Ticket)
passed none = none
passed (some t) = some (ticket t)

module _ {Cb Ticket : Type 0} (go : GoBreaker Cb Ticket) where
  pub new_consecutive : BreakerSettings → ConsecutiveBreaker Cb
  new_consecutive s = record { settings = s; gb = go.start s }

  pub new_rate : BreakerSettings → RateBreaker Cb
  new_rate s = record { settings = s; sampler = none; gb = go.start s }

  -- newBreaker: any other type gives the breaker that lets all requests through.
  pub new_breaker : BreakerSettings → Implementation Cb
  unfolding new_consecutive new_rate
  new_breaker s = elim s.type [
    | consecutive_failures ↦ consecutive (new_consecutive s)
    | failure_rate ↦ rate (new_rate s)
    | _ ↦ void
  ]

  -- countRate: the sampler is made at the first outcome.
  pub count_rate : RateBreaker Cb → Bool → RateBreaker Cb
  count_rate b success =
      let sampler : BinarySampler = elim b.sampler [
        | none ↦ new_binary_sampler b.settings.window
        | some s ↦ s
      ] in
      record b { sampler = some (tick sampler (not success)) }

  -- The callback of a rate breaker: it counts the outcome before gobreaker may ask for it.
  pub done_rate : ℕ → RateBreaker Cb → Ticket → Bool → RateBreaker Cb
  unfolding count_rate
  done_rate now b t success =
      let counted = count_rate b success in
      record counted { gb = go.done now counted.gb t success (λ _. trips_rate counted) }

  -- Allow: an error of gobreaker means that the breaker is not closed.
  pub allow : ℕ → Implementation Cb → Implementation Cb × Option (Pass Ticket)
  allow now void = (void, some free)
  allow now (consecutive b) =
      let (gb, t) = go.allow now b.gb in (consecutive (record b { gb = gb }), passed t)
  allow now (rate b) = let (gb, t) = go.allow now b.gb in (rate (record b { gb = gb }), passed t)

  -- The outcome of a request that was let through.
  pub report : ℕ → Implementation Cb → Pass Ticket → Bool → Implementation Cb
  unfolding done_rate
  report now (consecutive b) (ticket t) success =
      consecutive (record b { gb = go.done now b.gb t success (trips_consecutive b.settings) })
  report now (rate b) (ticket t) success = rate (done_rate now b t success)
  report now b p success = b
