-- ===== src/LoadBalancer/ConsistentHash/Built.antt =====
-- newConsistentHashInternal of loadbalancer/algorithm.go: the ring that it builds.
use skipper.Prelude.{
  ℕ, zero, suc, ◌+◌, ◌*◌, ◌<◌, ◌≤◌, ◌≡◌, refl, ap₂, ◌∙◌, sym, Bool, true, false, not, List, [], ◌∷◌,
  ◌++◌, some, ap, get_elem?, length, count_of, count_of-append, All, if◌then◌else◌, ltb, ◌==◌,
  arith, inl, inr, Bool-cases,
}
use skipper.Prelude.Sort.{IsOrdered}
use skipper.Prelude.Bytes.{Bytes, codes, decimal}
use skipper.LoadBalancer.ConsistentHash.{
  EndpointHash, less, hashes_of, all_hashes, new_consistent_hash_internal,
}
use skipper.LoadBalancer.ConsistentHash.Search.{IsSorted}

-- What the code relies on of sort.Sort: the same elements, in the order of a Less that is one.
pub record RingSort : Type 0 where
  pub sort : (EndpointHash → EndpointHash → Bool) → List EndpointHash → List EndpointHash
  pub keeps :
      (before : EndpointHash → EndpointHash → Bool) (p : EndpointHash → Bool)
      (xs : List EndpointHash)
      → count_of p (sort before xs) ≡ count_of p xs
  pub ordered :
      (before : EndpointHash → EndpointHash → Bool)
      → ((x y : EndpointHash) → before x y ≡ true → before y x ≡ false)
      → ((x y z : EndpointHash) → before x y ≡ false → before y z ≡ false → before x z ≡ false)
      → (xs : List EndpointHash) → IsOrdered before (sort before xs)

less_asym : (x y : EndpointHash) → less x y ≡ true → less y x ≡ false
unfolding less
less_asym x y h = ground arith

less_trans : (x y z : EndpointHash) → less x y ≡ false → less y z ≡ false → less x z ≡ false
unfolding less
less_trans x y z h i = ground arith

above :
    (x : EndpointHash) (ys : List EndpointHash)
    → All (λ y. less y x ≡ false) ys
    → All (λ y. x.hash_value ≤ y.hash_value) ys
unfolding less
above x [] h = tt
above x (y ∷ ys) h = (ground (arith, h.0), above x ys h.1)

IsOrdered-IsSorted : (xs : List EndpointHash) → IsOrdered less xs → IsSorted xs
IsOrdered-IsSorted [] h = tt
IsOrdered-IsSorted (x ∷ xs) h = (above x xs h.0, IsOrdered-IsSorted xs h.1)

abbrev total : (ℕ → Bool) → ℕ → ℕ → ℕ → ℕ
total q i zero m = 0
total q i (suc n) m = (if q i then m else 0) + total q (i + 1) n m

total_all : (i n m : ℕ) → total (λ _. true) i n m ≡ m * n
total_all i zero m = omega arith
total_all i (suc n) m = grind (arith, total_all (i + 1) n m)

total_none :
    (q : ℕ → Bool) (i n m : ℕ) → ((k : ℕ) → i ≤ k → k < i + n → q k ≡ false) → total q i n m ≡ 0
total_none q i zero m h = refl
total_none q i (suc n) m h =
    rw (h i (omega arith) (omega arith))
      (omega (arith, total_none q (i + 1) n m (λ k a b. h k (omega arith) (omega arith))))

total_one : (a i n m : ℕ) → i ≤ a → a < i + n → total (λ k. k == a) i n m ≡ m
total_one a i zero m h g = absurd (omega arith)
total_one a i (suc n) m h g = elim (Bool-cases (i == a)) [
  | inl e ↦
      let rest = total_none (λ k. k == a) (i + 1) n m (λ k u v. ground arith) in
      rw e (omega (arith, rest))
  | inr e ↦
      let rest = total_one a (i + 1) n m (ground arith) (omega arith) in rw e (omega (arith, rest))
]

module _ (hash : Bytes → ℕ) where
  count_of-hashes_of :
      (q : ℕ → Bool) (ep : Bytes) (i j k : ℕ)
      → count_of (λ e. q e.index) (hashes_of hash ep i j k) ≡ (if q i then k else 0)
  unfolding hashes_of
  count_of-hashes_of q ep i j zero = ground arith
  count_of-hashes_of q ep i j (suc k) = ground (arith, count_of-hashes_of q ep i (j + 1) k)

  count_of-all_hashes :
      (q : ℕ → Bool) (eps : List Bytes) (i m : ℕ)
      → count_of (λ e. q e.index) (all_hashes hash eps i m) ≡ total q i (length eps) m
  unfolding all_hashes
  count_of-all_hashes q [] i m = refl
  count_of-all_hashes q (ep ∷ eps) i m =
      count_of-append (λ e. q e.index) (hashes_of hash ep i 0 m) (all_hashes hash eps (i + 1) m)
      ∙ ap₂ (λ a b. a + b) (count_of-hashes_of q ep i 0 m) (count_of-all_hashes q eps (i + 1) m)

count_of-All :
    (n : ℕ) (xs : List EndpointHash)
    → count_of (λ e. not (ltb e.index n)) xs ≡ 0
    → All (λ e. e.index < n) xs
count_of-All n [] h = tt
count_of-All n (x ∷ xs) h = elim (Bool-cases (ltb x.index n)) [
  | inl e ↦ (ground arith, count_of-All n xs (ground arith))
  | inr e ↦ absurd (ground arith)
]

count_of-length : (xs : List EndpointHash) → count_of (λ _. true) xs ≡ length xs
count_of-length [] = refl
count_of-length (x ∷ xs) = omega (arith, count_of-length xs)

module _ {A : Type 0} where
  get_elem?-before :
      (xs ys : List A) (k : ℕ) → k < length xs → get_elem? (xs ++ ys) k ≡ get_elem? xs k
  get_elem?-before [] ys k h = absurd (omega arith)
  get_elem?-before (x ∷ xs) ys zero h = refl
  get_elem?-before (x ∷ xs) ys (suc k) h = get_elem?-before xs ys k (omega arith)

  get_elem?-after : (xs ys : List A) (k : ℕ) → get_elem? (xs ++ ys) (length xs + k) ≡ get_elem? ys k
  get_elem?-after [] ys k = ap (get_elem? ys) (omega arith)
  get_elem?-after (x ∷ xs) ys k =
      let next : suc (length xs) + k ≡ suc (length xs + k) = omega arith in
      ap (get_elem? (x ∷ (xs ++ ys))) next ∙ get_elem?-after xs ys k

module _ (hash : Bytes → ℕ) where
  -- The entry of an endpoint with a number.
  abbrev pub entry : ℕ → Bytes → ℕ → EndpointHash
  entry i ep j = record { index = i; hash_value = hash (ep ++ codes "-" ++ decimal j) }

  length-hashes_of : (ep : Bytes) (i j k : ℕ) → length (hashes_of hash ep i j k) ≡ k
  unfolding hashes_of
  length-hashes_of ep i j zero = refl
  length-hashes_of ep i j (suc k) = ap suc (length-hashes_of ep i (j + 1) k)

  hashes_of-entry :
      (ep : Bytes) (i s k j : ℕ)
      → j < k
      → get_elem? (hashes_of hash ep i s k) j ≡ some (entry i ep (s + j))
  unfolding hashes_of
  hashes_of-entry ep i s zero j h = absurd (omega arith)
  hashes_of-entry ep i s (suc k) zero h = ap (λ n. some (entry i ep n)) (omega arith)
  hashes_of-entry ep i s (suc k) (suc j) h =
      hashes_of-entry ep i (s + 1) k j (omega arith) ∙ ap (λ n. some (entry i ep n)) (omega arith)

  all_hashes-entry :
      (eps : List Bytes) (s m i j : ℕ) (ep : Bytes)
      → get_elem? eps i ≡ some ep
      → j < m
      → get_elem? (all_hashes hash eps s m) (m * i + j) ≡ some (entry (s + i) ep j)
  unfolding all_hashes
  all_hashes-entry [] s m i j ep at h = cc
  all_hashes-entry (e ∷ eps) s m zero j ep at h =
      let own = hashes_of hash e s 0 m in
      let all = all_hashes hash (e ∷ eps) s m in
      let inside : j < length own = omega (arith, length-hashes_of e s 0 m) in
      let first : m * 0 + j ≡ j = grind arith in
      let same : e ≡ ep = ground arith in
      ap (get_elem? all) first
      ∙ get_elem?-before own (all_hashes hash eps (s + 1) m) j inside
      ∙ hashes_of-entry e s 0 m j h
      ∙ ap (λ b. some (entry s b (0 + j))) same
      ∙ ap₂ (λ a b. some (entry a ep b)) (omega arith) (omega arith)
  all_hashes-entry (e ∷ eps) s m (suc i) j ep at h =
      let own = hashes_of hash e s 0 m in
      let all = all_hashes hash (e ∷ eps) s m in
      let next : m * suc i + j ≡ length own + (m * i + j) =
        grind (arith, length-hashes_of e s 0 m) in
      ap (get_elem? all) next
      ∙ get_elem?-after own (all_hashes hash eps (s + 1) m) (m * i + j)
      ∙ all_hashes-entry eps (s + 1) m i j ep at h
      ∙ ap (λ a. some (entry a ep j)) (omega arith)

-- With a sort that keeps the elements and puts them in the order of its Less, the ring that
-- newConsistentHashInternal builds is in the order of the hashes, its indices are those of
-- endpoints, and it has exactly as many entries of each endpoint as asked for, and no others. The
-- entries are those of a list with the entry of the i-th endpoint and the number j, whose hash is
-- that of the endpoint, a dash and the number, at j after i times as many as asked for.
pub new_consistent_hash_internal-IsRing :
    (hash : Bytes → ℕ) (s : RingSort) (eps : List Bytes) (m : ℕ)
    → let ring = new_consistent_hash_internal hash s.sort eps m in
      IsSorted ring
      × All (λ e. e.index < length eps) ring
      × (length ring ≡ m * length eps)
      × ((i : ℕ) → i < length eps → count_of (λ e. e.index == i) ring ≡ m)
      × (filled : List EndpointHash) × (length filled ≡ m * length eps)
      × ((i j : ℕ) (ep : Bytes)
          → get_elem? eps i ≡ some ep
          → j < m
          → get_elem? filled (m * i + j) ≡ some (entry hash i ep j))
      × ((p : EndpointHash → Bool) → count_of p ring ≡ count_of p filled)
unfolding new_consistent_hash_internal
new_consistent_hash_internal-IsRing hash s eps m =
    let plain = all_hashes hash eps 0 m in
    let count =
      λ (q : ℕ → Bool). s.keeps less (λ e. q e.index) plain ∙ count_of-all_hashes hash q eps 0 m in
    let size =
      sym (count_of-length plain)
      ∙ count_of-all_hashes hash (λ _. true) eps 0 m
      ∙ total_all 0 (length eps) m in
    (
      IsOrdered-IsSorted (s.sort less plain) (s.ordered less less_asym less_trans plain),
      count_of-All (length eps) (s.sort less plain) (
          count (λ k. not (ltb k (length eps)))
          ∙ total_none (λ k. not (ltb k (length eps))) 0 (length eps) m (λ k a b. ground arith)),
      sym (count_of-length (s.sort less plain)) ∙ count (λ _. true) ∙ total_all 0 (length eps) m,
      (λ i h. count (λ k. k == i) ∙ total_one i 0 (length eps) m (omega arith) (omega arith)),
      plain,
      size,
      (λ i j ep at h.
          all_hashes-entry hash eps 0 m i j ep at h
          ∙ ap (λ n. some (entry hash n ep j)) (omega arith)),
      (λ p. s.keeps less p plain),
    )
