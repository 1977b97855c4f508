-- ===== src/LoadBalancer/ConsistentHash/Search.antt =====
-- sort.Search on the sorted ring of loadbalancer/algorithm.go.
use skipper.Prelude.{
  ℕ, zero, suc, ◌+◌, ◌/◌, ◌<◌, ◌≤◌, ◌≡◌, refl, Bool, true, false, not, List, [], ◌∷◌, ◌++◌, none,
  some, inl, inr, length, get_elem?, take, drop, if◌then◌else◌, ltb, leb, ◌==◌, Bool-cases, All,
  All-get_elem?, arith, ap, ap₂, subst, ◌∙◌, sym,
}
use skipper.Prelude.Bytes.{Bytes}
use skipper.LoadBalancer.ConsistentHash.{EndpointHash, narrow, sort_search, position}
use skipper.LoadBalancer.ConsistentHash.Turn.{turn, turn_round}

module _ (test : ℕ → Bool) (n : ℕ)
    (rising : (a b : ℕ) → a ≤ b → b < n → test a ≡ true → test b ≡ true) where
  -- The first index whose test holds, or n.
  abbrev IsFirst : ℕ → Type 0
  IsFirst r =
      (r ≤ n) × ((k : ℕ) → k < r → test k ≡ false) × ((k : ℕ) → r ≤ k → k < n → test k ≡ true)

  below_false : (h k : ℕ) → k ≤ h → h < n → test h ≡ false → test k ≡ false
  below_false h k g m t = elim (Bool-cases (test k)) [
    | inl e ↦ absurd (ground (arith, rising k h g m e))
    | inr e ↦ e
  ]

  narrow-IsFirst :
      (f i j : ℕ)
      → i ≤ j
      → j ≤ n
      → j ≤ i + f
      → ((k : ℕ) → k < i → test k ≡ false)
      → ((k : ℕ) → j ≤ k → k < n → test k ≡ true)
      → IsFirst (narrow test f i j)
  unfolding narrow
  narrow-IsFirst zero i j a b enough lo hi = (omega arith, lo, λ k g h. hi k (omega arith) h)
  narrow-IsFirst (suc f) i j a b enough lo hi = elim (Bool-cases (ltb i j)) [
    | inr e ↦ rw (narrow, e) (ground arith, lo, λ k g h. hi k (ground arith) h)
    | inl e ↦
        let h : ℕ = (i + j) / 2 in
        let below : h < j = ground arith in
        let from : i ≤ h = ground arith in
        elim (Bool-cases (test h)) [
          | inl t ↦
              rw (narrow, e, t)
                (narrow-IsFirst f i h from (omega arith) (omega arith) lo
                  (λ k g m. rising h k g m t))
          | inr t ↦
              rw (narrow, e, t)
                (narrow-IsFirst f (h + 1) j (omega arith) b (omega arith)
                  (λ k g. below_false h k (omega arith) (omega arith) t) hi)
        ]
  ]

  pub sort_search-IsFirst : IsFirst (sort_search n test)
  unfolding sort_search
  sort_search-IsFirst =
      narrow-IsFirst n 0 n (omega arith) (omega arith) (omega arith) (λ k h. absurd (omega arith))
        (λ k g h. absurd (omega arith))

module _ {A : Type 0} (test : A → Bool) where
  abbrev pub filter : List A → List A
  filter [] = []
  filter (x ∷ xs) = if test x then x ∷ filter xs else filter xs

pub filter-parts :
    {A : Type 0} (test : A → Bool) (xs : List A) (r : ℕ)
    → ((k : ℕ) (x : A) → k < r → get_elem? xs k ≡ some x → test x ≡ false)
    → ((k : ℕ) (x : A) → r ≤ k → get_elem? xs k ≡ some x → test x ≡ true)
    → (filter test xs ≡ drop r xs) × (filter (λ x. not (test x)) xs ≡ take r xs)
filter-parts test [] zero lo hi = (refl, refl)
filter-parts test [] (suc r) lo hi = (refl, refl)
filter-parts test (x ∷ xs) zero lo hi =
    let (a, b) =
      filter-parts test xs zero (λ k y h e. absurd (omega arith))
        (λ k y h e. hi (suc k) y (omega arith) e) in
    let t = hi 0 x (omega arith) refl in (rw t (ap (λ l. x ∷ l) a), rw t b)
filter-parts test (x ∷ xs) (suc r) lo hi =
    let (a, b) =
      filter-parts test xs r (λ k y h e. lo (suc k) y (omega arith) e)
        (λ k y h e. hi (suc k) y (omega arith) e) in
    let t = lo 0 x (omega arith) refl in (rw t a, rw t (ap (λ l. x ∷ l) b))

-- No hash is below an earlier one.
abbrev pub IsSorted : List EndpointHash → Type 0
IsSorted [] = Unit
IsSorted (x ∷ xs) = All (λ y. x.hash_value ≤ y.hash_value) xs × IsSorted xs

IsSorted-le :
    (xs : List EndpointHash) (a b : ℕ) (x y : EndpointHash)
    → IsSorted xs
    → a ≤ b
    → get_elem? xs a ≡ some x
    → get_elem? xs b ≡ some y
    → x.hash_value ≤ y.hash_value
IsSorted-le [] a b x y s h at_a at_b = cc
IsSorted-le (z ∷ zs) zero zero x y s h at_a at_b =
    let same : x ≡ y = ground arith in omega (arith, ap (λ e. e.hash_value) same)
IsSorted-le (z ∷ zs) zero (suc b) x y s h at_a at_b =
    let same : z ≡ x = ground arith in
    let above = All-get_elem? (λ e. z.hash_value ≤ e.hash_value) zs b y s.0 at_b in
    omega (arith, ap (λ e. e.hash_value) same, above)
IsSorted-le (z ∷ zs) (suc a) zero x y s h at_a at_b = absurd (omega arith)
IsSorted-le (z ∷ zs) (suc a) (suc b) x y s h at_a at_b =
    IsSorted-le zs a b x y s.1 (omega arith) at_a at_b

-- The test that the search makes of a position.
abbrev reaches : ℕ → List EndpointHash → ℕ → Bool
reaches h ring k = elim (get_elem? ring k) [ none ↦ false | some e ↦ leb h e.hash_value ]

reaches-at :
    (h : ℕ) (ring : List EndpointHash) (k : ℕ) (x : EndpointHash)
    → get_elem? ring k ≡ some x
    → leb h x.hash_value ≡ reaches h ring k
reaches-at h ring k x at = rw (reaches, at) refl

get_elem?-inside :
    {A : Type 0} (xs : List A) (k : ℕ) (x : A) → get_elem? xs k ≡ some x → k < length xs
get_elem?-inside [] k x at = cc
get_elem?-inside (y ∷ xs) zero x at = omega arith
get_elem?-inside (y ∷ xs) (suc k) x at = omega (arith, get_elem?-inside xs k x at)

pub get_elem?-some :
    {A : Type 0} (xs : List A) (k : ℕ) → k < length xs → (x : A) × (get_elem? xs k ≡ some x)
get_elem?-some [] k h = absurd (omega arith)
get_elem?-some (x ∷ xs) zero h = (x, refl)
get_elem?-some (x ∷ xs) (suc k) h = get_elem?-some xs k (omega arith)

reaches-rising :
    (h : ℕ) (ring : List EndpointHash)
    → IsSorted ring
    → (a b : ℕ) → a ≤ b
    → b < length ring
    → reaches h ring a ≡ true
    → reaches h ring b ≡ true
reaches-rising h ring s a b g m t =
    let (x, at_a) = get_elem?-some ring a (omega arith) in
    let (y, at_b) = get_elem?-some ring b m in
    let low : leb h x.hash_value ≡ true = reaches-at h ring a x at_a ∙ t in
    let up = IsSorted-le ring a b x y s g at_a at_b in
    sym (reaches-at h ring b y at_b) ∙ ground arith

-- The ring from the first hash that is not below h on, and then the others.
unfoldable pub clockwise : ℕ → List EndpointHash → List EndpointHash
clockwise h ring =
    filter (λ e. leb h e.hash_value) ring ++ filter (λ e. not (leb h e.hash_value)) ring

pub turn-position :
    (hash : Bytes → ℕ) (ring : List EndpointHash) (key : Bytes)
    → IsSorted ring
    → 0 < length ring
    → (position hash ring key < length ring)
      × (turn (position hash ring key) ring ≡ clockwise (hash key) ring)
unfolding position clockwise
turn-position hash ring key s h =
    let r : ℕ = sort_search (length ring) (reaches (hash key) ring) in
    let (le, lo, hi) =
      sort_search-IsFirst (reaches (hash key) ring) (length ring)
        (reaches-rising (hash key) ring s) in
    let (later, earlier) =
      filter-parts (λ e. leb (hash key) e.hash_value) ring r
        (λ k x g at. reaches-at (hash key) ring k x at ∙ lo k g)
        (λ k x g at. reaches-at (hash key) ring k x at ∙ hi k g (get_elem?-inside ring k x at)) in
    let whole : clockwise (hash key) ring ≡ turn r ring = ap₂ (λ a b. a ++ b) later earlier in
    let Begins = λ (p : ℕ). (p < length ring) × (turn p ring ≡ clockwise (hash key) ring) in
    elim (Bool-cases (r == length ring)) [
      | inl e ↦
          let end : r ≡ length ring = ground arith in
          let back = turn_round ring ∙ ap (λ k. turn k ring) (sym end) ∙ sym whole in
          subst Begins (ap (λ b. if b then 0 else r) (sym e)) (h, back)
      | inr e ↦ subst Begins (ap (λ b. if b then 0 else r) (sym e)) (ground arith, sym whole)
    ]
