-- ===== src/Circuit/Breaker/Rate.antt =====
-- When a rate breaker trips: readyToTrip of circuit/ratebreaker.go after the reported outcomes.
use skipper.Prelude.{
  ℕ, ◌%◌, ◌<◌, ◌≤◌, ◌≡◌, ◌≢◌, refl, ap, ◌∙◌, Bool, true, not, List, [], ◌∷◌, map, some, arith,
}
use skipper.Prelude.Int.{pos, leb_ℤ}
use skipper.Circuit.Sampler.{BinarySampler, new_binary_sampler, tick, run}
use skipper.Circuit.Sampler.Count.{count_true, last_events, run-new-count, run-new-count_unbounded}
use skipper.Circuit.Settings.{BreakerSettings}
use skipper.Circuit.Breaker.{GoBreaker, RateBreaker, new_rate, done_rate, trips_rate}

-- One call of the callback: when, with which ticket, and the outcome.
pub record Report (Ticket : Type 0) : Type 0 where
  pub now : ℕ
  pub ticket : Ticket
  pub success : Bool

trips_rate_lem :
    {Cb : Type 0} (b : RateBreaker Cb) (s : BinarySampler)
    → b.sampler ≡ some s
    → trips_rate b ≡ leb_ℤ b.settings.failures (pos s.count)
unfolding trips_rate
trips_rate_lem b s e = ground arith

module _ {Cb Ticket : Type 0} (go : GoBreaker Cb Ticket) where
  pub report_all : RateBreaker Cb → List (Report Ticket) → RateBreaker Cb
  report_all b [] = b
  report_all b (r ∷ rs) = report_all (done_rate go r.now b r.ticket r.success) rs

  -- The failures among the outcomes.
  abbrev pub failed : List (Report Ticket) → List Bool
  failed = map (λ r. not r.success)

  report_all-sampler :
      (b : RateBreaker Cb) (s : BinarySampler) (rs : List (Report Ticket))
      → b.sampler ≡ some s
      → ((report_all b rs).sampler ≡ some (run s (failed rs)))
        × ((report_all b rs).settings ≡ b.settings)
  unfolding report_all run done_rate
  report_all-sampler b s [] e = (e, refl)
  report_all-sampler b s (r ∷ rs) e =
      report_all-sampler (done_rate go r.now b r.ticket r.success) (tick s (not r.success)) rs
        (next r)
    where
      next :
          (r : Report Ticket)
          → (done_rate go r.now b r.ticket r.success).sampler ≡ some (tick s (not r.success))
      next r = ground arith

  report_all-trips :
      (s : BreakerSettings) (r : Report Ticket) (rs : List (Report Ticket))
      → trips_rate (report_all (new_rate go s) (r ∷ rs))
        ≡ leb_ℤ s.failures (pos (run (new_binary_sampler s.window) (failed (r ∷ rs))).count)
  unfolding report_all run done_rate new_rate
  report_all-trips s r rs =
      let (sampled, same) =
        report_all-sampler (done_rate go r.now (new_rate go s) r.ticket r.success)
          (tick (new_binary_sampler s.window) (not r.success)) rs refl in
      trips_rate_lem _ _ sampled
      ∙ ap
          (λ (t : BreakerSettings).
            leb_ℤ t.failures (pos (run (new_binary_sampler s.window) (failed (r ∷ rs))).count))
          same

  -- With a positive window that is no multiple of 64, a rate breaker that has seen an outcome is
  -- ready to trip exactly if at least `failures` of the last `window` outcomes were failures.
  pub report_all-trips_rate :
      (s : BreakerSettings) (n : ℕ) (r : Report Ticket) (rs : List (Report Ticket))
      → s.window ≡ pos n
      → 0 < n
      → n % 64 ≢ 0
      → trips_rate (report_all (new_rate go s) (r ∷ rs))
        ≡ leb_ℤ s.failures (pos (count_true (last_events n (failed (r ∷ rs)))))
  report_all-trips_rate s n r rs w p q =
      report_all-trips s r rs
      ∙ ap (λ c. leb_ℤ s.failures (pos c)) (rw w (run-new-count n (failed (r ∷ rs)) p q))

  -- With a positive window that is a multiple of 64, a rate breaker that has seen `failures`
  -- failures stays ready to trip, whatever successes follow.
  pub report_all-trips_forever :
      (s : BreakerSettings) (n f : ℕ) (r : Report Ticket) (rs : List (Report Ticket))
      → s.window ≡ pos n
      → 0 < n
      → n % 64 ≡ 0
      → s.failures ≡ pos f
      → f ≤ count_true (failed (r ∷ rs))
      → trips_rate (report_all (new_rate go s) (r ∷ rs)) ≡ true
  report_all-trips_forever s n f r rs w p q e h =
      report_all-trips s r rs
      ∙ rw (w, run-new-count_unbounded n (failed (r ∷ rs)) p q, e) (ground arith)
