-- ===== src/Circuit/Tests.antt =====
-- Tests and instances for the sampler and the breakers of package circuit.
use skipper.Prelude.{ℕ, ◌≡◌, refl, Bool, true, false, List, [], ◌∷◌, some, arith, replicate}
use skipper.Prelude.Int.{pos}
use skipper.Circuit.Sampler.{new_binary_sampler, tick, run, highest_set, shift, set_lowest}
use skipper.Circuit.Sampler.Count.{run-new-count}
use skipper.Circuit.Settings.{BreakerSettings, failure_rate, no_settings}
use skipper.Circuit.Breaker.{GoBreaker, new_rate, trips_rate}
use skipper.Circuit.Breaker.Rate.{Report, report_all, report_all-trips_rate}

-- Two failures, then seventy successes.
abbrev events : List Bool
events = true ∷ true ∷ replicate 70 false

counts : (run (new_binary_sampler (pos 65)) events).count ≡ 0
unfolding run tick new_binary_sampler highest_set shift set_lowest
counts = refl

keeps_counting : (run (new_binary_sampler (pos 64)) events).count ≡ 2
unfolding run tick new_binary_sampler highest_set shift set_lowest
keeps_counting = refl

run-new-count_example :
    (run (new_binary_sampler (pos 3)) (true ∷ true ∷ false ∷ false ∷ [])).count ≡ 1
run-new-count_example =
    run-new-count 3 (true ∷ true ∷ false ∷ false ∷ []) (omega arith) (omega arith)

abbrev rated : ℕ → BreakerSettings
rated n = record (no_settings "a.example") { type = failure_rate; window = pos n; failures = pos 2 }

-- A breaker of gobreaker that counts the callbacks at which it trips.
abbrev counting : GoBreaker ℕ ℕ
counting = record {
  start = λ s. 0;
  allow = λ now c. (c, some now);
  done = λ now c t success trip. c;
}

abbrev outcome : Bool → Report ℕ
outcome b = record { now = 1; ticket = 1; success = b }

report_all-trips_rate_example :
    trips_rate
      (report_all counting (new_rate counting (rated 3)) (outcome false ∷ outcome false ∷ []))
    ≡ true
report_all-trips_rate_example =
    report_all-trips_rate counting (rated 3) 3 (outcome false) (outcome false ∷ []) refl
      (omega arith) (omega arith)
