-- ===== src/LoadBalancer/RoundRobin.antt =====
-- roundRobin of loadbalancer/algorithm.go. The index is an int64: the number that its 64 bits
-- make, which is negative from 2^63 on.
use native.Mathlib.Nat.{mod-add-mod}
use skipper.Prelude.{
  ℕ, zero, suc, ◌+◌, ◌-◌, ◌%◌, ◌^◌, ◌<◌, ◌≡◌, refl, ap, ◌∙◌, sym, true, false, List, [], ◌∷◌, ◌++◌,
  append-nil, append_assoc, length, if◌then◌else◌, ltb, ◌==◌, arith,
}
use skipper.LoadBalancer.{LbEndpoint, Outcome, returned, panics, endpoint_at}
use skipper.LoadBalancer.ConsistentHash.Turn.{turn, turn-parts, turn-next, length-turn}

unfoldable pub round_robin_apply : ℕ → List LbEndpoint → Outcome LbEndpoint × ℕ
round_robin_apply index endpoints =
    if length endpoints == 1
    then (endpoint_at endpoints 0, index)
    else let next = (index + 1) % 2 ^ 64 in
      if length endpoints == 0
      then (panics, next)
      else if ltb next (2 ^ 63)
      then (endpoint_at endpoints (next % length endpoints), next)
      else if (2 ^ 64 - next) % length endpoints == 0
      then (endpoint_at endpoints 0, next)
      else (panics, next)

-- As many requests in a row.
unfoldable pub round : ℕ → ℕ → List LbEndpoint → List (Outcome LbEndpoint)
round zero index endpoints = []
round (suc n) index endpoints =
    let (chosen, next) = round_robin_apply index endpoints in chosen ∷ round n next endpoints

abbrev all_returned : List LbEndpoint → List (Outcome LbEndpoint)
all_returned [] = []
all_returned (e ∷ es) = returned e ∷ all_returned es

apply-next :
    (index : ℕ) (es : List LbEndpoint) (y : LbEndpoint) (ys : List LbEndpoint)
    → 1 < length es
    → index + 1 < 2 ^ 63
    → turn ((index + 1) % length es) es ≡ y ∷ ys
    → round_robin_apply index es ≡ (returned y, index + 1)
unfolding round_robin_apply
apply-next index es y ys many small at =
    let here = (turn-parts es ((index + 1) % length es) y ys (grind arith) at).0 in
    let next : (index + 1) % 2 ^ 64 ≡ index + 1 = grind arith in
    let one : (length es == 1) ≡ false = ground arith in
    let none_there : (length es == 0) ≡ false = ground arith in
    let positive : ltb (index + 1) (2 ^ 63) ≡ true = ground arith in
    rw (round_robin_apply, one, none_there, next, positive, endpoint_at, here) refl

round-part :
    (es ys zs : List LbEndpoint) (index : ℕ)
    → 1 < length es
    → index + length ys < 2 ^ 63
    → turn ((index + 1) % length es) es ≡ ys ++ zs
    → round (length ys) index es ≡ all_returned ys
unfolding round
round-part es [] zs index many small at = refl
round-part es (y ∷ ys) zs index many small at =
    let step = apply-next index es y (ys ++ zs) many (omega arith) at in
    let place : ((index + 1) % length es + 1) % length es ≡ (index + 1 + 1) % length es =
      mod-add-mod (index + 1) (length es) 1 in
    let on =
      ap (λ i. turn i es) (sym place)
      ∙ turn-next es ((index + 1) % length es) y (ys ++ zs) (grind arith) at
      ∙ append_assoc ys zs (y ∷ []) in
    rw (round, step)
      (ap (λ l. returned y ∷ l)
        (round-part es ys (zs ++ (y ∷ [])) (index + 1) many (omega arith) on))

-- As many requests in a row as there are endpoints, of which there is one at least, get each
-- endpoint once, in the order of the list from the one after the index on, if the index does not
-- reach 2^63 on the way.
pub round-rotation :
    (es : List LbEndpoint) (index : ℕ)
    → 0 < length es
    → index + length es < 2 ^ 63
    → round (length es) index es ≡ all_returned (turn ((index + 1) % length es) es)
unfolding round round_robin_apply
round-rotation [] index some_there small = absurd (omega arith)
round-rotation (e ∷ []) index some_there small =
    let start : (index + 1) % 1 ≡ 0 = grind arith in rw start refl
round-rotation (e ∷ f ∷ es) index some_there small =
    let all = e ∷ f ∷ es in
    let start = turn ((index + 1) % length all) all in
    let size = length-turn ((index + 1) % length all) all in
    ap (λ n. round n index all) (sym size)
    ∙ round-part all start [] index (omega arith) (omega (arith, size)) (sym (append-nil start))
