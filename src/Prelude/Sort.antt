-- ===== src/Prelude/Sort.antt =====
-- sort.Slice and sort.Stable of Go's package sort: a record of what the first promises, and the
-- stable sort by insertion, which keeps the promise.
use Prim.Native.Nat.{◌+◌}
use mathlib.Core.Path.{◌≡◌, refl}
use mathlib.Core.Bool.{Bool, true, false}
use mathlib.Core.Logic.{inl, inr}
use mathlib.Core.List.{List, [], ◌∷◌}
use native.Mathlib.Omega.{arith}
use skipper.Prelude.Tests.{if◌then◌else◌, Bool-cases}
use skipper.Prelude.Lists.{count_of, All}

module _ {A : Type 0} (less : A → A → Bool) where
  -- Before the first element that does not have to come earlier.
  unfoldable pub insert_by : A → List A → List A
  insert_by x [] = x ∷ []
  insert_by x (y ∷ ys) = if less y x then y ∷ insert_by x ys else x ∷ y ∷ ys

  unfoldable pub sort_by : List A → List A
  sort_by [] = []
  sort_by (x ∷ xs) = insert_by x (sort_by xs)

  count_of-insert_by :
      (p : A → Bool) (x : A) (ys : List A)
      → count_of p (insert_by x ys) ≡ (if p x then 1 else 0) + count_of p ys
  unfolding insert_by
  count_of-insert_by p x [] = ground arith
  count_of-insert_by p x (y ∷ ys) = ground (arith, count_of-insert_by p x ys)

  pub count_of-sort_by : (p : A → Bool) (xs : List A) → count_of p (sort_by xs) ≡ count_of p xs
  unfolding sort_by
  count_of-sort_by p [] = refl
  count_of-sort_by p (x ∷ xs) =
      ground (arith, count_of-insert_by p x (sort_by xs), count_of-sort_by p xs)

-- No element comes before one that has to come earlier.
abbrev pub IsOrdered : {A : Type 0} → (A → A → Bool) → List A → Type 0
IsOrdered less [] = Unit
IsOrdered less (x ∷ xs) = All (λ y. less y x ≡ false) xs × IsOrdered less xs

module _ {A : Type 0} (less : A → A → Bool) (asym : (x y : A) → less x y ≡ true → less y x ≡ false)
    (trans : (x y z : A) → less x y ≡ false → less y z ≡ false → less x z ≡ false) where
  All-insert_by :
      (P : A → Type 0) (x : A) (ys : List A) → P x → All P ys → All P (insert_by less x ys)
  unfolding insert_by
  All-insert_by P x [] p h = (p, tt)
  All-insert_by P x (y ∷ ys) p h = ground (arith, All-insert_by P x ys p h.1)

  lighter :
      (x y : A) (ys : List A)
      → less y x ≡ false
      → All (λ z. less z y ≡ false) ys
      → All (λ z. less z x ≡ false) ys
  lighter x y [] e h = tt
  lighter x y (z ∷ ys) e h = (trans z y x h.0 e, lighter x y ys e h.1)

  insert_by-IsOrdered :
      (x : A) (ys : List A) → IsOrdered less ys → IsOrdered less (insert_by less x ys)
  unfolding insert_by
  insert_by-IsOrdered x [] h = (tt, tt)
  insert_by-IsOrdered x (y ∷ ys) h = elim (Bool-cases (less y x)) [
    | inl e ↦
        rw (e, insert_by)
          (
            All-insert_by (λ z. less z y ≡ false) x ys (asym y x e) h.0,
            insert_by-IsOrdered x ys h.1,
          )
    | inr e ↦ rw (e, insert_by) ((e, lighter x y ys e h.0), h)
  ]

  pub sort_by-IsOrdered : (xs : List A) → IsOrdered less (sort_by less xs)
  unfolding sort_by
  sort_by-IsOrdered [] = tt
  sort_by-IsOrdered (x ∷ xs) = insert_by-IsOrdered x (sort_by less xs) (sort_by-IsOrdered xs)

-- What the code relies on of sort.Slice with a given order: the elements stay the same, each as
-- often as before. Equal elements may change places.
pub record SliceSort (A : Type 0) : Type 0 where
  pub sort : List A → List A
  pub keeps : (p : A → Bool) (xs : List A) → count_of p (sort xs) ≡ count_of p xs

abbrev pub stable_sort : {A : Type 0} → (A → A → Bool) → SliceSort A
stable_sort less = record { sort = sort_by less; keeps = count_of-sort_by less }
