-- ===== src/QueueListener/Options/Delays.antt =====
-- The delays of listenExternal of queuelistener/listener.go while accepting fails.
use skipper.Prelude.{
  ℕ, zero, suc, ◌+◌, ◌*◌, ◌^◌, ◌≡◌, refl, List, [], ◌∷◌, min, replicate, ap, ap₂, ◌∙◌, arith, ◌<◌,
}
use skipper.QueueListener.Options.{
  bounce, connection, temporary_error, Offer, hands_over, waits_for, accept_round, accept_rounds,
}

-- The delays after k errors in a row, for n more of them: they double from half a millisecond on, up
-- to a hundred milliseconds.
abbrev pub doubling : ℕ → ℕ → List Offer
doubling k zero = []
doubling k (suc n) = waits_for (min (500000 * 2 ^ k) 100000000) ∷ doubling (k + 1) n

bounce-min : (x : ℕ) → 0 < x → bounce (min x 100000000) ≡ min (2 * x) 100000000
unfolding bounce
bounce-min x h = ground arith

power-positive : (k : ℕ) → 0 < 2 ^ k
power-positive zero = omega arith
power-positive (suc k) = omega (arith, power-positive k)

doubled : (k : ℕ) → 2 ^ suc k ≡ 2 * 2 ^ k
doubled k = omega arith

double : (k : ℕ) → 2 ^ (k + 1) ≡ 2 * 2 ^ k
double k = ap (λ x. 2 ^ x) (omega arith) ∙ doubled k

bounce-power :
    (k : ℕ) → bounce (min (500000 * 2 ^ k) 100000000) ≡ min (500000 * 2 ^ (k + 1)) 100000000
bounce-power k =
    bounce-min (500000 * 2 ^ k) (omega (arith, power-positive k))
    ∙ ap (λ x. min x 100000000) (omega (arith, double k))

rounds-doubling :
    (k n d : ℕ)
    → bounce d ≡ min (500000 * 2 ^ k) 100000000
    → accept_rounds d (replicate n temporary_error) ≡ doubling k n
unfolding accept_rounds accept_round
rounds-doubling k zero d h = refl
rounds-doubling k (suc n) d h = ap₂ ◌∷◌ (ap waits_for h) (
    ap (λ x. accept_rounds x (replicate n temporary_error)) h
    ∙ rounds-doubling (k + 1) n (min (500000 * 2 ^ k) 100000000) (bounce-power k))

bounce-first : bounce 0 ≡ min (500000 * 2 ^ 0) 100000000
unfolding bounce
bounce-first = refl

-- After a connection was accepted, n temporary errors in a row make the accepting loop wait for
-- half a millisecond first, then for twice as long each time, but for no more than a hundred
-- milliseconds.
pub accept_rounds-doubling :
    (delay n : ℕ)
    → accept_rounds delay (connection ∷ replicate n temporary_error) ≡ hands_over ∷ doubling 0 n
unfolding accept_rounds accept_round
accept_rounds-doubling delay n = ap (λ os. hands_over ∷ os) (rounds-doubling 0 n 0 bounce-first)
