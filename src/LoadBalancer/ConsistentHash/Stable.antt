-- ===== src/LoadBalancer/ConsistentHash/Stable.antt =====
-- search of consistentHash, loadbalancer/algorithm.go, for a key in two contexts.
use skipper.Prelude.{
  ℕ, ◌<◌, ◌≡◌, refl, sym, ap, ◌∙◌, Bool, true, List, [], ◌∷◌, Option, none, some, inl, inr, length,
  Bool-cases, arith,
}
use skipper.Prelude.Bytes.{Bytes}
use skipper.LoadBalancer.{returned}
use skipper.LoadBalancer.ConsistentHash.{EndpointHash, LbContext, search}
use skipper.LoadBalancer.ConsistentHash.Search.{IsSorted, clockwise}
use skipper.LoadBalancer.ConsistentHash.Owner.{first, is_left, left, InRange, owner, search-first}

first_narrows :
    {A : Type 0} (p q : A → Bool) (xs : List A) (x : A)
    → ((z : A) → q z ≡ true → p z ≡ true)
    → first p xs ≡ some x
    → q x ≡ true
    → first q xs ≡ some x
first_narrows p q [] x h e t = cc
first_narrows p q (y ∷ ys) x h e t = elim (Bool-cases (p y)) [
  | inl u ↦ let same : y ≡ x = ground arith in rw (ap q same ∙ t) (ap some same)
  | inr u ↦ elim (Bool-cases (q y)) [
    | inl v ↦ absurd (ground (arith, h y v))
    | inr v ↦ rw v (first_narrows p q ys x h (rw u at e) t)
  ]
]

owner-returned :
    (o : Option EndpointHash) (i : ℕ)
    → owner o ≡ returned i
    → (x : EndpointHash) × (o ≡ some x) × (x.index ≡ i)
owner-returned none i h = cc
owner-returned (some x) i h = (x, refl, ground arith)

module _ {F : Type 0} (hash : Bytes → ℕ) (ring : List EndpointHash) (key : Bytes)
    (c d : LbContext F) (sorted : IsSorted ring) (inside_c : InRange c ring)
    (inside_d : InRange d ring) (nonempty : 0 < length ring) where
  -- When endpoints leave, a key keeps its endpoint: if search finds an endpoint for a key in a
  -- sorted ring, that is not empty and whose indices are in range for both contexts, and all
  -- endpoints left in another context are left in this one, search finds the same endpoint there
  -- if it is still left.
  pub search_stable :
      (i : ℕ)
      → ((j : ℕ) → is_left d j ≡ true → is_left c j ≡ true)
      → search hash ring key c ≡ returned i
      → is_left d i ≡ true
      → search hash ring key d ≡ returned i
  search_stable i fewer found stays =
      let (x, e, at) =
        owner-returned (first (left c) (clockwise (hash key) ring)) i
          (sym (search-first hash ring key c sorted inside_c nonempty) ∙ found) in
      let still =
        first_narrows (left c) (left d) (clockwise (hash key) ring) x (λ z. fewer z.index) e
          (ap (is_left d) at ∙ stays) in
      search-first hash ring key d sorted inside_d nonempty ∙ ap owner still ∙ ap returned at
