-- ===== src/QueueListener/Ring/Places.antt =====
-- Where the connections of a ring stand: indices that wrap at the capacity.
use skipper.Prelude.{
  ℕ, zero, suc, ◌+◌, ◌-◌, ◌≤◌, ◌<◌, ◌≡◌, refl, List, [], ◌∷◌, ◌++◌, Option, some, ltb, ◌==◌,
  if◌then◌else◌, length, get_elem?, set, arith, length-append,
}

abbrev pub wrap : ℕ → ℕ → ℕ
wrap n x = if ltb x n then x else x - n

-- The slots from s on hold q, the oldest first.
abbrev pub At : List (Option ℕ) → ℕ → ℕ → List ℕ → Type 0
At cs n s q = (i : ℕ) → i < length q → get_elem? cs (wrap n (s + i)) ≡ some (get_elem? q i)

pub get_elem?-set_lem :
    (cs : List (Option ℕ)) (i j : ℕ) (v : Option ℕ)
    → i < length cs
    → get_elem? (set cs i v) j ≡ (if i == j then some v else get_elem? cs j)
get_elem?-set_lem [] i j v h = elim h [ ]
get_elem?-set_lem (c ∷ cs) zero zero v h = ground arith
get_elem?-set_lem (c ∷ cs) zero (suc j) v h = ground arith
get_elem?-set_lem (c ∷ cs) (suc i) zero v h = ground arith
get_elem?-set_lem (c ∷ cs) (suc i) (suc j) v h =
    ground (arith, get_elem?-set_lem cs i j v (omega arith))

get_elem?-concat :
    (q : List ℕ) (c i : ℕ)
    → i ≤ length q
    → get_elem? (q ++ c ∷ []) i ≡ (if i == length q then some c else get_elem? q i)
get_elem?-concat [] c zero h = refl
get_elem?-concat [] c (suc i) h = absurd (omega arith)
get_elem?-concat (x ∷ q) c zero h = ground arith
get_elem?-concat (x ∷ q) c (suc i) h = ground (arith, get_elem?-concat q c i (omega arith))

module _ (cs : List (Option ℕ)) (n s : ℕ) (whole : length cs ≡ n) (inside : s < n) where
  pub At-concat :
      (q : List ℕ) (c : ℕ)
      → At cs n s q
      → length q < n
      → At (set cs (wrap n (s + length q)) (some c)) n s (q ++ c ∷ [])
  At-concat q c h l i k = ground (
    arith,
    get_elem?-set_lem cs (wrap n (s + length q)) (wrap n (s + i)) (some c),
    get_elem?-concat q c i,
    h i,
    length-append q (c ∷ []),
  )

  pub At-tail :
      (x : ℕ) (q : List ℕ) (v : Option ℕ)
      → At cs n s (x ∷ q)
      → length q < n
      → At (set cs s v) n (wrap n (s + 1)) q
  At-tail x q v h l i k =
      ground (arith, get_elem?-set_lem cs s (wrap n (wrap n (s + 1) + i)) v, h (suc i))

  pub At-init :
      (q : List ℕ) (c : ℕ) (v : Option ℕ)
      → At cs n s (q ++ c ∷ [])
      → length q < n
      → At (set cs (wrap n (s + length q)) v) n s q
  At-init q c v h l i k = ground (
    arith,
    get_elem?-set_lem cs (wrap n (s + length q)) (wrap n (s + i)) v,
    get_elem?-concat q c i,
    h i,
    length-append q (c ∷ []),
  )
