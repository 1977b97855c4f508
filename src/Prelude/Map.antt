-- ===== src/Prelude/Map.antt =====
-- Go maps as association lists: a lookup takes the first entry of a key, a write replaces it.
use Prim.Native.Nat.{ℕ}
use Prim.Native.String.{String}
use mathlib.Core.Path.{◌≡◌, refl, subst₂}
use mathlib.Core.Logic.{◌↔◌, inl, inr}
use mathlib.Core.Bool.{Bool, true}
use mathlib.Core.List.{List, [], ◌∷◌}
use mathlib.Core.Option.{Option, none, some}
use native.Mathlib.Omega.{arith}
use skipper.Prelude.Tests.{◌==◌, ==_iff, str_eq, str_eq_iff, if◌then◌else◌, Bool-cases}
use skipper.Prelude.Lists.{All}

-- Equality of keys.
pub record Eq (A : Type 0) : Type 0 where
  pub beq : A → A → Bool
  pub beq_iff : (a b : A) → (beq a b ≡ true) ↔ (a ≡ b)

instance abbrev pub nat_eq : Eq ℕ
nat_eq = record { beq = ◌==◌; beq_iff = ==_iff }

instance abbrev pub text_eq : Eq String
text_eq = record { beq = str_eq; beq_iff = str_eq_iff }

module _ {K V : Type 0} ⦃e : Eq K⦄ where
  unfoldable pub lookup : K → List (K × V) → Option V
  lookup key [] = none
  lookup key ((at, v) ∷ rest) = if e.beq at key then some v else lookup key rest

  unfoldable pub insert : K → V → List (K × V) → List (K × V)
  insert key v [] = (key, v) ∷ []
  insert key v ((at, old) ∷ rest) =
      if e.beq at key then (key, v) ∷ rest else (at, old) ∷ insert key v rest

  unfoldable pub remove : K → List (K × V) → List (K × V)
  remove k [] = []
  remove k ((j, w) ∷ m) = if e.beq j k then remove k m else (j, w) ∷ remove k m

  pub lookup-insert :
      (k j : K) (v : V) (m : List (K × V))
      → lookup j (insert k v m) ≡ (if e.beq k j then some v else lookup j m)
  unfolding lookup insert
  lookup-insert k j v [] = refl
  lookup-insert k j v ((i, w) ∷ rest) =
      ground (arith, lookup-insert k j v rest, e.beq_iff i k, e.beq_iff i j, e.beq_iff k j)

  pub lookup-insert_self : (k : K) (v : V) (m : List (K × V)) → lookup k (insert k v m) ≡ some v
  lookup-insert_self k v m = ground (arith, lookup-insert k k v m, e.beq_iff k k)

  pub lookup-remove :
      (k j : K) (m : List (K × V))
      → lookup j (remove k m) ≡ (if e.beq k j then none else lookup j m)
  unfolding lookup remove
  lookup-remove k j [] = ground arith
  lookup-remove k j ((i, w) ∷ m) =
      ground (arith, e.beq_iff k j, e.beq_iff i k, e.beq_iff i j, lookup-remove k j m)

-- The entries that a loop with `delete` leaves.
unfoldable pub keep : {K V : Type 0} → (V → Bool) → List (K × V) → List (K × V)
keep p [] = []
keep p ((j, v) ∷ m) = if p v then (j, v) ∷ keep p m else keep p m

pub lookup-keep :
    {K V : Type 0} ⦃e : Eq K⦄ (p : V → Bool) (k : K) (v : V) (m : List (K × V))
    → lookup k m ≡ some v
    → p v ≡ true
    → lookup k (keep p m) ≡ some v
unfolding lookup keep
lookup-keep p k v [] h q = h
lookup-keep ⦃e⦄ p k v ((j, w) ∷ m) h q = ground (arith, lookup-keep p k v m, e.beq_iff j k)

pub keep-All : {K V : Type 0} (p : V → Bool) (m : List (K × V)) → All (λ x. p x.1 ≡ true) (keep p m)
unfolding keep
keep-All p [] = tt
keep-All p ((j, v) ∷ m) = ground (arith, keep-All p m)

module _ {K V : Type 0} (P : K × V → Type 0) where
  pub All-keep : (p : V → Bool) (m : List (K × V)) → All P m → All P (keep p m)
  unfolding keep
  All-keep p [] a = tt
  All-keep p ((j, v) ∷ m) a = ground (arith, All-keep p m a.1)

  pub All-insert :
      ⦃e : Eq K⦄ (k : K) (v : V) (m : List (K × V)) → All P m → P (k, v) → All P (insert k v m)
  unfolding insert
  All-insert k v [] a h = (h, tt)
  All-insert k v ((j, w) ∷ m) a h = ground (arith, All-insert k v m a.1)

  pub All-lookup :
      ⦃e : Eq K⦄ (k : K) (v : V) (m : List (K × V)) → All P m → lookup k m ≡ some v → P (k, v)
  unfolding lookup
  All-lookup k v [] a h = cc
  All-lookup ⦃e⦄ k v ((j, w) ∷ m) a h = elim (Bool-cases (e.beq j k)) [
    | inl same ↦
        let found : w ≡ v = ground arith in
        subst₂ (λ x y. P (x, y)) ((e.beq_iff j k).0 same) found a.0
    | inr other ↦ All-lookup k v m a.1 (rw other at h)
  ]

-- The order in which range goes over a map: the same entries.
pub record MapRange (E : Type 0) : Type 1 where
  pub range : List E → List E
  pub keeps : (P : E → Type 0) (m : List E) → All P m → All P (range m)
