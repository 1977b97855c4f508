-- ===== src/LoadBalancer/ConsistentHash/Turn.antt =====
-- The loops over the ring of loadbalancer/algorithm.go: one turn through the elements, from a
-- position on.
use skipper.Prelude.{
  ℕ, zero, suc, ◌+◌, ◌%◌, ◌<◌, ◌≡◌, refl, ap, sym, ◌∙◌, Bool, true, false, List, [], ◌∷◌, ◌++◌,
  Option, some, inl, inr, ◌⊎◌, length, get_elem?, take, drop, if◌then◌else◌, Bool-cases, All, subst,
  ◌==◌, arith, append_assoc, append-nil, length-append,
}
use skipper.LoadBalancer.ConsistentHash.{walk, stopped, went_round}

module _ {A : Type 0} where
  abbrev pub turn : ℕ → List A → List A
  turn i xs = drop i xs ++ take i xs

  split-at :
      (xs : List A) (i : ℕ)
      → i < length xs
      → (x : A) × (get_elem? xs i ≡ some x)
        × (drop i xs ≡ x ∷ drop (suc i) xs)
        × (take (suc i) xs ≡ take i xs ++ (x ∷ []))
  split-at [] i h = absurd (omega arith)
  split-at (x ∷ xs) zero h = (x, refl, refl, refl)
  split-at (x ∷ xs) (suc i) h =
      let (y, e, d, t) = split-at xs i (omega arith) in (y, e, d, ap (λ l. x ∷ l) t)

  drop_all : (xs : List A) → drop (length xs) xs ≡ []
  drop_all [] = refl
  drop_all (x ∷ xs) = drop_all xs

  take_all : (xs : List A) → take (length xs) xs ≡ xs
  take_all [] = refl
  take_all (x ∷ xs) = ap (λ l. x ∷ l) (take_all xs)

  parts_length : (i : ℕ) (xs : List A) → length (drop i xs) + length (take i xs) ≡ length xs
  parts_length zero [] = refl
  parts_length zero (x ∷ xs) = omega arith
  parts_length (suc i) [] = refl
  parts_length (suc i) (x ∷ xs) = omega (arith, parts_length i xs)

  pub length-turn : (i : ℕ) (xs : List A) → length (turn i xs) ≡ length xs
  length-turn i xs = length-append (drop i xs) (take i xs) ∙ parts_length i xs

  pub turn_round : (xs : List A) → turn 0 xs ≡ turn (length xs) xs
  turn_round xs = rw (drop_all xs, take_all xs) (append-nil xs)

  pub turn-parts :
      (xs : List A) (i : ℕ) (y : A) (ys : List A)
      → i < length xs
      → turn i xs ≡ y ∷ ys
      → (get_elem? xs i ≡ some y)
        × (ys ≡ drop (suc i) xs ++ take i xs)
        × (take (suc i) xs ≡ take i xs ++ (y ∷ []))
  turn-parts xs i y ys h e =
      let (x, at, d, t) = split-at xs i h in
      let whole : x ∷ (drop (suc i) xs ++ take i xs) ≡ y ∷ ys =
        sym (ap (λ l. l ++ take i xs) d) ∙ e in
      let same : x ≡ y = ground arith in
      (at ∙ ap some same, ground arith, subst (λ z. take (suc i) xs ≡ take i xs ++ (z ∷ [])) same t)

  pub turn-next :
      (xs : List A) (i : ℕ) (y : A) (ys : List A)
      → i < length xs
      → turn i xs ≡ y ∷ ys
      → turn ((i + 1) % length xs) xs ≡ ys ++ (y ∷ [])
  turn-next xs i y ys h e =
      let (at, rest, seen) = turn-parts xs i y ys h e in
      let ends = append_assoc (drop (suc i) xs) (take i xs) (y ∷ []) in
      elim (Bool-cases (suc i == length xs)) [
        | inl q ↦
            let n : suc i ≡ length xs = ground arith in
            let first : (i + 1) % length xs ≡ 0 = grind arith in
            let none_left : drop (suc i) xs ≡ [] = ap (λ k. drop k xs) n ∙ drop_all xs in
            let seen_all : take (suc i) xs ≡ xs = ap (λ k. take k xs) n ∙ take_all xs in
            rw (first, rest, none_left) (append-nil xs ∙ sym seen_all ∙ seen)
        | inr q ↦
            let next : (i + 1) % length xs ≡ suc i = grind arith in
            rw (next, rest) (ap (λ l. drop (suc i) xs ++ l) seen ∙ sym ends)
      ]

module _ {A : Type 0} (xs : List A) (stop : A → Option Bool) (stops : A → Bool) where
  -- What a walk over the elements ys from position i comes to, with the elements zs behind it.
  abbrev Lands : ℕ → List A → List A → Type 0
  Lands i ys zs =
      ((j : ℕ) × (All (λ y. stops y ≡ false) ys)
        × (walk xs stop (length ys) i ≡ went_round j)
        × (j < length xs)
        × (turn j xs ≡ zs ++ ys))
      ⊎ ((j : ℕ) × (pre : List A) × (y : A) × (post : List A) × (ys ≡ pre ++ (y ∷ post))
          × (All (λ z. stops z ≡ false) pre)
          × (stops y ≡ true)
          × (walk xs stop (length ys) i ≡ stopped j)
          × (j < length xs)
          × (turn j xs ≡ (y ∷ post) ++ (zs ++ pre)))

  walk-suc :
      (k i : ℕ) (y : A) (b : Bool)
      → get_elem? xs i ≡ some y
      → stop y ≡ some b
      → walk xs stop (suc k) i ≡ (if b then stopped i else walk xs stop k ((i + 1) % length xs))
  unfolding walk
  walk-suc k i y b at e = rw (walk, at, e) refl

  pub walk-Lands :
      (ys zs : List A) (i : ℕ)
      → ((y : A) (j : ℕ) → get_elem? xs j ≡ some y → stop y ≡ some (stops y))
      → i < length xs
      → turn i xs ≡ ys ++ zs
      → Lands i ys zs
  unfolding walk
  walk-Lands [] zs i known h e = inl (i, tt, refl, h, e ∙ sym (append-nil zs))
  walk-Lands (y ∷ ys) zs i known h e =
      let (at, rest, seen) = turn-parts xs i y (ys ++ zs) h e in
      let step =
        λ (b : Bool) (q : stops y ≡ b). walk-suc (length ys) i y b at (known y i at ∙ ap some q) in
      elim (Bool-cases (stops y)) [
        | inl t ↦ inr (
          i,
          [],
          y,
          ys,
          refl,
          tt,
          t,
          step true t,
          h,
          e ∙ ap (λ l. y ∷ (ys ++ l)) (sym (append-nil zs)),
        )
        | inr f ↦
            let on : turn ((i + 1) % length xs) xs ≡ ys ++ (zs ++ (y ∷ [])) =
              turn-next xs i y (ys ++ zs) h e ∙ append_assoc ys zs (y ∷ []) in
            elim (walk-Lands ys (zs ++ (y ∷ [])) ((i + 1) % length xs) known (grind arith) on) [
              | inl (j, none_stops, round, inside, back) ↦ inl (
                j,
                (f, none_stops),
                step false f ∙ round,
                inside,
                back ∙ append_assoc zs (y ∷ []) ys,
              )
              | inr (j, pre, x, post, split, passed, t, found, inside, at_j) ↦ inr (
                j,
                y ∷ pre,
                x,
                post,
                ap (λ l. y ∷ l) split,
                (f, passed),
                t,
                step false f ∙ found,
                inside,
                at_j ∙ ap (λ l. x ∷ (post ++ l)) (append_assoc zs (y ∷ []) pre),
              )
            ]
      ]
