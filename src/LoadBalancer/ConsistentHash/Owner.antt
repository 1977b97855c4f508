-- ===== src/LoadBalancer/ConsistentHash/Owner.antt =====
-- Which endpoint consistentHash of loadbalancer/algorithm.go chooses for a key.
use skipper.Prelude.{
  ℕ, suc, ◌<◌, ◌≡◌, refl, sym, ap, ◌∙◌, subst, Bool, true, false, not, ◌&&◌, List, [], ◌∷◌, ◌++◌,
  Option, none, some, inl, inr, ◌⊎◌, length, get_elem?, any, if◌then◌else◌, Bool-cases,
  Option-cases, All, All-get_elem?, arith, append-nil,
}
use skipper.Prelude.Bytes.{Bytes, bytes_eq}
use skipper.LoadBalancer.{Outcome, returned, panics, never_returns}
use skipper.LoadBalancer.ConsistentHash.{
  EndpointHash, Floats, LbContext, walk, Walk, stopped, went_round, left_range, skip_endpoint,
  position, search_ring, index_at, search, compute_load_average, takes, bounded_load_search,
}
use skipper.LoadBalancer.ConsistentHash.Turn.{turn, turn-parts, length-turn, walk-Lands}
use skipper.LoadBalancer.ConsistentHash.Search.{IsSorted, clockwise, turn-position, get_elem?-some}

module _ {A : Type 0} where
  abbrev pub first : (A → Bool) → List A → Option A
  first p [] = none
  first p (x ∷ xs) = if p x then some x else first p xs

  first_skips :
      (p : A → Bool) (pre ys : List A)
      → All (λ z. p z ≡ false) pre
      → first p (pre ++ ys) ≡ first p ys
  first_skips p [] ys h = refl
  first_skips p (x ∷ pre) ys h = rw h.0 (first_skips p pre ys h.1)

  first_keeps :
      (p : A → Bool) (ys post : List A)
      → All (λ z. p z ≡ false) post
      → first p (ys ++ post) ≡ first p ys
  first_keeps p [] post h = sym (ap (first p) (append-nil post)) ∙ first_skips p post [] h
  first_keeps p (y ∷ ys) post h = ground (arith, first_keeps p ys post h)

  All-false :
      (p q : A → Bool) (xs : List A)
      → ((x : A) → p x ≡ false → q x ≡ false)
      → All (λ z. p z ≡ false) xs
      → All (λ z. q z ≡ false) xs
  All-false p q [] h a = tt
  All-false p q (x ∷ xs) h a = (h x a.0, All-false p q xs h a.1)

  -- A walk for as many positions as there are ends at the first stop of the turn, or where it began.
  abbrev Ends : List A → (A → Option Bool) → (A → Bool) → ℕ → List A → Type 0
  Ends xs stop stops i ys =
      ((j : ℕ) × (first stops ys ≡ none)
        × (walk xs stop (length xs) i ≡ went_round j)
        × (j < length xs)
        × (turn j xs ≡ ys))
      ⊎ ((j : ℕ) × (y : A) × (rest : List A) × (first stops ys ≡ some y)
          × (walk xs stop (length xs) i ≡ stopped j)
          × (j < length xs)
          × (turn j xs ≡ y ∷ rest)
          × ((q : A → Bool)
              → ((x : A) → stops x ≡ false → q x ≡ false)
              → first q ys ≡ first q (turn j xs)))

  walk-Ends :
      (xs : List A) (stop : A → Option Bool) (stops : A → Bool) (i : ℕ) (ys : List A)
      → ((y : A) (j : ℕ) → get_elem? xs j ≡ some y → stop y ≡ some (stops y))
      → i < length xs
      → turn i xs ≡ ys
      → Ends xs stop stops i ys
  walk-Ends xs stop stops i ys known h e =
      let same : length ys ≡ length xs = sym (ap length e) ∙ length-turn i xs in
      let Walks = λ (n : ℕ) (w : Walk). walk xs stop n i ≡ w in
      elim (walk-Lands xs stop stops ys [] i known h (e ∙ sym (append-nil ys))) [
        | inl (j, none_stops, round, inside, back) ↦ inl (
          j,
          sym (ap (first stops) (append-nil ys)) ∙ first_skips stops ys [] none_stops,
          subst (λ n. Walks n (went_round j)) same round,
          inside,
          back,
        )
        | inr (j, pre, y, post, split, passed, t, found, inside, at_j) ↦ inr (
          j,
          y,
          post ++ pre,
          ap (first stops) split ∙ first_skips stops pre (y ∷ post) passed ∙ rw t refl,
          subst (λ n. Walks n (stopped j)) same found,
          inside,
          at_j,
          λ q below.
              let quiet = All-false stops q pre below passed in
              ap (first q) split
              ∙ first_skips q pre (y ∷ post) quiet
              ∙ sym (first_keeps q (y ∷ post) pre quiet)
              ∙ sym (ap (first q) at_j),
        )
      ]

not-not : (b : Bool) → not (not b) ≡ b
not-not true = refl
not-not false = refl

abbrev pub owner : Option EndpointHash → Outcome ℕ
owner none = never_returns
owner (some e) = returned e.index

abbrev pub owner_or : EndpointHash → Option EndpointHash → Outcome ℕ
owner_or e none = returned e.index
owner_or e (some x) = returned x.index

-- What the search makes of a walk.
abbrev settle : Walk → Outcome ℕ
settle (stopped i) = returned i
settle (went_round i) = never_returns
settle left_range = panics

settle-elim :
    (w : Walk)
    → (elim w [ stopped i ↦ returned i | went_round i ↦ never_returns | left_range ↦ panics ])
      ≡ settle w
settle-elim (stopped i) = refl
settle-elim (went_round i) = refl
settle-elim left_range = refl

module _ {F : Type 0} where
  -- The endpoint of the route is still one to choose from.
  abbrev pub is_left : LbContext F → ℕ → Bool
  is_left c i = elim (get_elem? c.route_endpoints i) [
    | none ↦ false
    | some e ↦ any (λ l. bytes_eq l.host e.host) c.lb_endpoints
  ]

  abbrev pub left : LbContext F → EndpointHash → Bool
  left c x = is_left c x.index

  abbrev pub InRange : LbContext F → List EndpointHash → Type 0
  InRange c ring = All (λ x. x.index < length c.route_endpoints) ring

  skip_endpoint-left :
      (c : LbContext F) (x : EndpointHash)
      → x.index < length c.route_endpoints
      → skip_endpoint c x.index ≡ some (not (left c x))
  unfolding skip_endpoint
  skip_endpoint-left c x h =
      let (e, at) = get_elem?-some c.route_endpoints x.index h in
      rw (skip_endpoint, is_left, at) refl

  abbrev test : LbContext F → EndpointHash → Option Bool
  test c x = elim (skip_endpoint c x.index) [ none ↦ none | some b ↦ some (not b) ]

  test-left :
      (c : LbContext F) (ring : List EndpointHash)
      → InRange c ring
      → (y : EndpointHash) (j : ℕ) → get_elem? ring j ≡ some y
      → test c y ≡ some (left c y)
  test-left c ring inside y j at =
      let h = All-get_elem? (λ x. x.index < length c.route_endpoints) ring j y inside at in
      rw (test, skip_endpoint-left c y h) (ap some (not-not (left c y)))

  search_ring-walk :
      (hash : Bytes → ℕ) (ring : List EndpointHash) (key : Bytes) (c : LbContext F)
      → 0 < length ring
      → search_ring hash ring key c
        ≡ settle (walk ring (test c) (length ring) (position hash ring key))
  unfolding search_ring
  search_ring-walk hash [] key c h = absurd (omega arith)
  search_ring-walk hash (x ∷ xs) key c h =
      settle-elim (walk (x ∷ xs) (test c) (suc (length xs)) (position hash (x ∷ xs) key))

  -- The endpoint is left, and its load is at most the average times the factor.
  abbrev pub fits : Floats F → LbContext F → F → EndpointHash → Bool
  fits fl c factor x = elim (get_elem? c.route_endpoints x.index) [
    | none ↦ false
    | some e ↦
        left c x
        && fl.at_most (fl.from_int e.inflight_requests)
            (fl.times (compute_load_average fl c) factor)
  ]

  pub fits-left :
      (fl : Floats F) (c : LbContext F) (factor : F) (x : EndpointHash)
      → left c x ≡ false
      → fits fl c factor x ≡ false
  fits-left fl c factor x h = elim (Option-cases (get_elem? c.route_endpoints x.index)) [
    | inl e ↦ rw (fits, e) refl
    | inr (p, e) ↦ rw (fits, e, h) refl
  ]

  module _ (hash : Bytes → ℕ) (ring : List EndpointHash) (key : Bytes) (c : LbContext F)
      (sorted : IsSorted ring) (inside : InRange c ring) (nonempty : 0 < length ring) where
    abbrev Finds : Type 0
    Finds =
        ((first (left c) (clockwise (hash key) ring) ≡ none)
          × (search_ring hash ring key c ≡ never_returns))
        ⊎ ((j : ℕ) × (y : EndpointHash) × (rest : List EndpointHash) × (first (left c)
                (clockwise (hash key) ring)
              ≡ some y)
            × (search_ring hash ring key c ≡ returned j)
            × (j < length ring)
            × (turn j ring ≡ y ∷ rest)
            × ((q : EndpointHash → Bool)
                → ((x : EndpointHash) → left c x ≡ false → q x ≡ false)
                → first q (clockwise (hash key) ring) ≡ first q (turn j ring)))

    search_ring-Finds : Finds
    search_ring-Finds =
        let (begins, round) = turn-position hash ring key sorted nonempty in
        let shape = search_ring-walk hash ring key c nonempty in
        elim (walk-Ends ring (test c) (left c) (position hash ring key) (clockwise (hash key) ring)
          (test-left c ring inside) begins round) [
            | inl (j, nothing, w, m, back) ↦ inl (nothing, shape ∙ ap settle w)
            | inr (j, y, rest, found, w, m, at, moved) ↦
                inr (j, y, rest, found, shape ∙ ap settle w, m, at, moved)
          ]

    -- In a ring that is sorted by the hash and is not empty, whose indices are in range, search
    -- returns the endpoint of the first entry that is left to choose from, among the entries with
    -- a hash from the key's on, in their order, and then those with a lower one; where no entry is
    -- left, the search does not return.
    pub search-first : search hash ring key c ≡ owner (first (left c) (clockwise (hash key) ring))
    unfolding search index_at
    search-first = elim search_ring-Finds [
      | inl (nothing, e) ↦ rw (search, e, nothing) refl
      | inr (j, y, rest, found, e, m, at, moved) ↦
          let here = (turn-parts ring j y rest m at).0 in rw (search, index_at, e, found, here) refl
    ]

    module _ (fl : Floats F) (factor : F) where
      takes-fits :
          (y : EndpointHash) (j : ℕ)
          → get_elem? ring j ≡ some y
          → takes fl c factor y ≡ some (fits fl c factor y)
      unfolding takes
      takes-fits y j at =
          let h = All-get_elem? (λ x. x.index < length c.route_endpoints) ring j y inside at in
          let skip = skip_endpoint-left c y h in
          let (e, there) = get_elem?-some c.route_endpoints y.index h in
          elim (Bool-cases (left c y)) [
            | inl t ↦ rw (takes, fits, skip, there, t) refl
            | inr t ↦ rw (takes, fits, skip, there, t) refl
          ]

      -- In a sorted ring that is not empty and whose indices are in range, boundedLoadSearch
      -- returns the endpoint of the first entry from the key's hash on, once around, that is left
      -- and has a load of at most the average times the factor. If there is none, it returns the
      -- endpoint that search finds, and without an entry that is left it does not return.
      pub bounded_load_search-first :
          bounded_load_search hash fl ring key factor c
          ≡ (elim (first (left c) (clockwise (hash key) ring)) [
            | none ↦ never_returns
            | some e ↦ owner_or e (first (fits fl c factor) (clockwise (hash key) ring))
          ])
      unfolding bounded_load_search index_at
      bounded_load_search-first = elim search_ring-Finds [
        | inl (nothing, e) ↦ rw (bounded_load_search, e, nothing) refl
        | inr (j, y, rest, found, e, m, at, moved) ↦
            let on = moved (fits fl c factor) (fits-left fl c factor) in
            elim (walk-Ends ring (takes fl c factor) (fits fl c factor) j (turn j ring) takes-fits m
              refl) [
                | inl (k, nothing, w, n, back) ↦
                    let here = (turn-parts ring k y rest n (back ∙ at)).0 in
                    let none_fits = on ∙ nothing in
                    rw (bounded_load_search, index_at, e, found, w, none_fits, here) refl
                | inr (k, x, more, fit, w, n, at_k, again) ↦
                    let here = (turn-parts ring k x more n at_k).0 in
                    let one_fits = on ∙ fit in
                    rw (bounded_load_search, index_at, e, found, w, one_fits, here) refl
              ]
      ]
