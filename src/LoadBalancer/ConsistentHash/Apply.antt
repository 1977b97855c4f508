-- ===== src/LoadBalancer/ConsistentHash/Apply.antt =====
-- Apply of consistentHash, loadbalancer/algorithm.go.
use skipper.Prelude.{
  ℕ, zero, suc, ◌<◌, ◌≡◌, refl, sym, ap, ◌∙◌, Bool, true, not, List, [], ◌∷◌, ◌++◌, Option, none,
  some, inl, inr, length, get_elem?, any, ◌==◌, leb, Bool-cases, Option-cases, List-cases, arith,
}
use skipper.Prelude.Bytes.{Bytes, bytes_eq, bytes_eq_iff}
use skipper.LoadBalancer.{LbEndpoint, Outcome, returned, endpoint_at}
use skipper.LoadBalancer.ConsistentHash.{
  EndpointHash, Floats, LbContext, search, bounded_load_search, choose_consistent_hash_endpoint,
  apply,
}
use skipper.LoadBalancer.ConsistentHash.Search.{IsSorted, filter, clockwise}
use skipper.LoadBalancer.ConsistentHash.Owner.{
  first, is_left, left, InRange, owner, fits, fits-left, search-first, bounded_load_search-first,
}

module _ {A : Type 0} (p : A → Bool) where
  abbrev Meets : List A → Type 0
  Meets xs = (y : A) × (first p xs ≡ some y) × (p y ≡ true)

  first-holds : (xs : List A) (y : A) → first p xs ≡ some y → p y ≡ true
  first-holds [] y h = cc
  first-holds (x ∷ xs) y h = elim (Bool-cases (p x)) [
    | inl t ↦ let same : x ≡ y = ground arith in sym (ap p same) ∙ t
    | inr t ↦ first-holds xs y (rw t at h)
  ]

  Meets-filter :
      (t : A → Bool) (xs : List A) (j : ℕ) (x : A)
      → get_elem? xs j ≡ some x
      → t x ≡ true
      → p x ≡ true
      → Meets (filter t xs)
  Meets-filter t [] j x at u v = cc
  Meets-filter t (z ∷ xs) zero x at u v =
      let same : z ≡ x = ground arith in
      let passes : t z ≡ true = ap t same ∙ u in
      let holds : p z ≡ true = ap p same ∙ v in rw (passes, holds) (z, refl, holds)
  Meets-filter t (z ∷ xs) (suc j) x at u v =
      let (y, e, w) = Meets-filter t xs j x at u v in
      elim (Bool-cases (t z)) [
        | inl passes ↦ elim (Bool-cases (p z)) [
          | inl holds ↦ rw (passes, holds) (z, refl, holds)
          | inr fails ↦ rw (passes, fails) (y, e, w)
        ]
        | inr drops ↦ rw drops (y, e, w)
      ]

  Meets-append : (xs ys : List A) → Meets ys → Meets (xs ++ ys)
  Meets-append [] ys m = m
  Meets-append (x ∷ xs) ys m = elim (Bool-cases (p x)) [
    | inl t ↦ rw t (x, refl, t)
    | inr t ↦ rw t (Meets-append xs ys m)
  ]

  Meets-before : (xs ys : List A) → Meets xs → Meets (xs ++ ys)
  Meets-before [] ys (y, e, t) = cc
  Meets-before (x ∷ xs) ys (y, e, t) = elim (Bool-cases (p x)) [
    | inl u ↦ rw u (x, refl, u)
    | inr u ↦ rw u (Meets-before xs ys (y, rw u at e, t))
  ]

Meets-clockwise :
    (p : EndpointHash → Bool) (h : ℕ) (ring : List EndpointHash) (j : ℕ) (x : EndpointHash)
    → get_elem? ring j ≡ some x
    → p x ≡ true
    → Meets p (clockwise h ring)
unfolding clockwise
Meets-clockwise p h ring j x at t =
    let low = λ (e : EndpointHash). leb h e.hash_value in
    let others = filter (λ e. not (low e)) ring in
    elim (Bool-cases (low x)) [
      | inl u ↦ Meets-before p (filter low ring) others (Meets-filter p low ring j x at u t)
      | inr u ↦
          Meets-append p (filter low ring) others
            (Meets-filter p (λ e. not (low e)) ring j x at (ap not u) t)
    ]

module _ {F : Type 0} (hash : Bytes → ℕ) (fl : Floats F) (ring : List EndpointHash)
    (c : LbContext F) (sorted : IsSorted ring) (inside : InRange c ring)
    (nonempty : 0 < length ring) where
  bounded-left :
      (factor : F) (key : Bytes) (x : EndpointHash)
      → first (left c) (clockwise (hash key) ring) ≡ some x
      → left c x ≡ true
      → (i : ℕ) × (bounded_load_search hash fl ring key factor c ≡ returned i)
        × (is_left c i ≡ true)
  bounded-left factor key x e t =
      let run = bounded_load_search-first hash ring key c sorted inside nonempty fl factor in
      let turn_around = clockwise (hash key) ring in
      elim (Option-cases (first (fits fl c factor) turn_around)) [
        | inl f ↦ (x.index, run ∙ rw (e, f) refl, t)
        | inr (y, f) ↦ (
          y.index,
          run ∙ rw (e, f) refl,
          fits_left y (first-holds (fits fl c factor) turn_around y f),
        )
      ]
    where
      fits_left : (y : EndpointHash) → fits fl c factor y ≡ true → left c y ≡ true
      fits_left y h = elim (Bool-cases (left c y)) [
        | inl u ↦ u
        | inr u ↦ absurd (ground (arith, fits-left fl c factor y u))
      ]

  abbrev key_of : Bytes
  key_of = elim c.hash_key [ none ↦ c.remote_host | some k ↦ k ]

  abbrev by_factor : Option F → Outcome ℕ
  by_factor o = elim o [
    | none ↦ search hash ring key_of c
    | some f ↦ bounded_load_search hash fl ring key_of f c
  ]

  choose-plain :
      c.balance_factor ≡ none
      → choose_consistent_hash_endpoint hash fl ring c ≡ search hash ring key_of c
  unfolding choose_consistent_hash_endpoint
  choose-plain h = ap by_factor h

  choose-bounded :
      (factor : F)
      → c.balance_factor ≡ some factor
      → choose_consistent_hash_endpoint hash fl ring c
        ≡ bounded_load_search hash fl ring key_of factor c
  unfolding choose_consistent_hash_endpoint
  choose-bounded factor h = ap by_factor h

  choose-left :
      (j : ℕ) (x : EndpointHash)
      → get_elem? ring j ≡ some x
      → left c x ≡ true
      → (i : ℕ) × (choose_consistent_hash_endpoint hash fl ring c ≡ returned i)
        × (is_left c i ≡ true)
  choose-left j x at t =
      let (y, e, u) = Meets-clockwise (left c) (hash key_of) ring j x at t in
      elim (Option-cases c.balance_factor) [
        | inl plain ↦ (
          y.index,
          choose-plain plain ∙ search-first hash ring key_of c sorted inside nonempty ∙ ap owner e,
          u,
        )
        | inr (factor, given) ↦
            let (i, run, v) = bounded-left factor key_of y e u in
            (i, choose-bounded factor given ∙ run, v)
      ]

  same_host : (l : LbEndpoint) → bytes_eq l.host l.host ≡ true
  same_host l = (bytes_eq_iff l.host l.host).1 refl

  -- With a sorted ring that is not empty and whose indices are in range, of which some entry has
  -- an endpoint that is left, Apply of consistentHash returns an endpoint, and its host is that of
  -- one that is left, with one endpoint or more and with a balance factor or without.
  pub apply-IsLeft :
      (j : ℕ) (x : EndpointHash)
      → get_elem? ring j ≡ some x
      → left c x ≡ true
      → (e : LbEndpoint) × (apply hash fl ring c ≡ returned e)
        × (any (λ l. bytes_eq l.host e.host) c.lb_endpoints ≡ true)
  unfolding apply
  apply-IsLeft j x at t = elim (Bool-cases (length c.lb_endpoints == 1)) [
    | inl one ↦ elim (List-cases c.lb_endpoints) [
      | inl nothing ↦ absurd (ground (arith, ap length nothing))
      | inr (l, rest, these) ↦
          let first_one : endpoint_at c.lb_endpoints 0 ≡ returned l =
            ap (λ es. endpoint_at es 0) these in
          let among =
            ap (λ es. any (λ o. bytes_eq o.host l.host) es) these ∙ rw (same_host l) refl in
          (l, rw (apply, one) first_one, among)
    ]
    | inr more ↦
        let (i, run, v) = choose-left j x at t in
        elim (Option-cases (get_elem? c.route_endpoints i)) [
          | inl outside ↦ absurd (ground (arith, rw (is_left, outside) at v))
          | inr (e, inside_i) ↦
              let there : endpoint_at c.route_endpoints i ≡ returned e =
                rw (endpoint_at, inside_i) refl in
              (e, rw (apply, more, run) there, rw (is_left, inside_i) at v)
        ]
  ]
