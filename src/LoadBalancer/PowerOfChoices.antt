-- ===== src/LoadBalancer/PowerOfChoices.antt =====
-- powerOfRandomNChoices of loadbalancer/algorithm.go.
use skipper.Prelude.{
  ℕ, zero, suc, ◌-◌, ◌<◌, ◌≤◌, ◌≡◌, refl, ◌∙◌, true, false, List, [], ◌∷◌, none, some, length,
  get_elem?, if◌then◌else◌, ltb, ◌==◌, All, arith, inl, inr, Bool-cases,
}
use skipper.Prelude.Int.{ℤ, pos, negsuc, ltb_ℤ}
use skipper.LoadBalancer.{LbEndpoint, Outcome, returned, panics, Rand}
use skipper.LoadBalancer.ConsistentHash.Search.{get_elem?-some}

-- A count with the sign turned.
abbrev negated : ℕ → ℤ
negated zero = pos 0
negated (suc n) = negsuc n

unfoldable pub get_score : LbEndpoint → ℤ
get_score e = negated e.inflight_requests

negated-lt : (a b : ℕ) → ltb_ℤ (negated a) (negated b) ≡ ltb b a
negated-lt zero zero = refl
negated-lt zero (suc b) = ground arith
negated-lt (suc a) zero = ground arith
negated-lt (suc a) (suc b) = ground arith

second_in :
    {A : Type 0} {b c e : A} (ds : List A) (j : ℕ)
    → get_elem? (b ∷ ds) j ≡ some e
    → (k : ℕ) × (get_elem? (b ∷ c ∷ ds) k ≡ some e)
second_in ds zero h = (0, h)
second_in ds (suc j) h = (suc (suc j), h)

module _ {S : Type 0} (rnd : Rand S) (es : List LbEndpoint) where
  unfoldable pub better_of : S → ℕ → LbEndpoint → Outcome LbEndpoint × S
  better_of s zero best = (returned best, s)
  better_of s (suc k) best =
      let (i, t) = rnd.int_n s (length es) in
      elim (get_elem? es i) [
        | none ↦ (panics, t)
        | some ce ↦ better_of t k (if ltb_ℤ (get_score best) (get_score ce) then ce else best)
      ]

  -- IntN panics where there is no endpoint.
  unfoldable pub power_apply : S → ℕ → Outcome LbEndpoint × S
  power_apply s number_of_choices =
      if length es == 0
      then (panics, s)
      else let (i, t) = rnd.int_n s (length es) in
        elim (get_elem? es i) [
          | none ↦ (panics, t)
          | some best ↦ better_of t (number_of_choices - 1) best
        ]

  -- The endpoints that the source names from a state on.
  unfoldable pub drawn : S → ℕ → List LbEndpoint
  drawn s zero = []
  drawn s (suc k) =
      let (i, t) = rnd.int_n s (length es) in
      elim (get_elem? es i) [ none ↦ drawn t k | some e ↦ e ∷ drawn t k ]

  -- One of the endpoints, which has at most the requests in flight of each.
  abbrev pub Least : LbEndpoint → List LbEndpoint → Type 0
  Least e ds =
      ((j : ℕ) × (get_elem? ds j ≡ some e))
      × All (λ d. e.inflight_requests ≤ d.inflight_requests) ds

  All-le :
      (a b : ℕ) (ds : List LbEndpoint)
      → a ≤ b
      → All (λ d. b ≤ d.inflight_requests) ds
      → All (λ d. a ≤ d.inflight_requests) ds
  All-le a b [] h t = tt
  All-le a b (d ∷ ds) h t = (omega (arith, t.0), All-le a b ds h t.1)

  score-lt :
      (a b : LbEndpoint)
      → ltb_ℤ (get_score a) (get_score b) ≡ ltb b.inflight_requests a.inflight_requests
  unfolding get_score
  score-lt a b = negated-lt a.inflight_requests b.inflight_requests

  better_of-Least :
      (s : S) (k : ℕ) (best : LbEndpoint)
      → 0 < length es
      → (e : LbEndpoint) × (t : S) × (better_of s k best ≡ (returned e, t))
        × Least e (best ∷ drawn s k)
  unfolding better_of drawn
  better_of-Least s zero best h = (best, s, refl, ((0, refl), (omega arith, tt)))
  better_of-Least s (suc k) best h =
      let t = (rnd.int_n s (length es)).1 in
      let (ce, at) = get_elem?-some es (rnd.int_n s (length es)).0 (rnd.inside s (length es) h) in
      elim (Bool-cases (ltb ce.inflight_requests best.inflight_requests)) [
        | inl b ↦
            let (e, u, run, ((j, there), (le, least))) = better_of-Least t k ce h in
            let take : ltb_ℤ (get_score best) (get_score ce) ≡ true = score-lt best ce ∙ b in
            rw (better_of, drawn, at, take)
              (e, u, run, ((suc j, there), (ground arith, (le, least))))
        | inr b ↦
            let (e, u, run, ((j, there), (le, least))) = better_of-Least t k best h in
            let keep : ltb_ℤ (get_score best) (get_score ce) ≡ false = score-lt best ce ∙ b in
            rw (better_of, drawn, at, keep)
              (e, u, run, (second_in (drawn t k) j there, (le, (ground arith, least))))
      ]

  -- With one endpoint or more and one choice or more, Apply of powerOfRandomNChoices returns one
  -- of the endpoints that the source names, and no other of them has fewer requests in flight.
  pub power_apply-Least :
      (s : S) (number_of_choices : ℕ)
      → 0 < length es
      → 0 < number_of_choices
      → (e : LbEndpoint) × (t : S) × (power_apply s number_of_choices ≡ (returned e, t))
        × Least e (drawn s number_of_choices)
  unfolding power_apply drawn
  power_apply-Least s zero h g = absurd (omega arith)
  power_apply-Least s (suc k) h g =
      let (best, at) = get_elem?-some es (rnd.int_n s (length es)).0 (rnd.inside s (length es) h) in
      let some_there : (length es == 0) ≡ false = ground arith in
      let one_less : suc k - 1 ≡ k = omega arith in
      rw (power_apply, drawn, at, some_there, one_less)
        (better_of-Least (rnd.int_n s (length es)).1 k best h)
