-- ===== src/QueueListener/Ring/Range.antt =====
-- rangeOver of queuelistener/ring.go: the two loops meet every connection once, in order.
use native.Mathlib.Nat.{suc-add}
use skipper.Prelude.{
  ℕ, zero, suc, ◌+◌, ◌-◌, ◌≤◌, ◌<◌, ◌≡◌, refl, sym, ap, ap₂, ◌∙◌, List, [], ◌∷◌, ◌++◌, map, Option,
  some, leb, if◌then◌else◌, length, get_elem?, take, drop, arith,
}
use skipper.QueueListener.Ring.{Ring, visit, range_over}
use skipper.QueueListener.Ring.Deque.{Holds, IsDeque, oldest_index-start}

-- The slots from i on hold p, with no wrap.
abbrev Run : List (Option ℕ) → ℕ → List ℕ → Type 0
Run cs i p = (j : ℕ) → j < length p → get_elem? cs (i + j) ≡ some (get_elem? p j)

visit-Run :
    (cs : List (Option ℕ)) (i : ℕ) (p : List ℕ) → Run cs i p → visit cs i (length p) ≡ map some p
unfolding visit
visit-Run cs i [] h = refl
visit-Run cs i (x ∷ p) h = rw (here, visit) (ap (λ t. some x ∷ t) (visit-Run cs (i + 1) p next))
  where
    here : get_elem? cs i ≡ some (some x)
    here = ap (get_elem? cs) (omega arith) ∙ h 0 (omega arith)

    next : Run cs (i + 1) p
    next j l = ap (get_elem? cs) (omega arith) ∙ h (suc j) (omega arith)

get_elem?-take : (m : ℕ) (q : List ℕ) (j : ℕ) → j < m → get_elem? (take m q) j ≡ get_elem? q j
get_elem?-take zero q j h = elim h [ ]
get_elem?-take (suc m) [] j h = refl
get_elem?-take (suc m) (x ∷ q) zero h = refl
get_elem?-take (suc m) (x ∷ q) (suc j) h = get_elem?-take m q j (omega arith)

get_elem?-drop : (m : ℕ) (q : List ℕ) (j : ℕ) → get_elem? (drop m q) j ≡ get_elem? q (m + j)
get_elem?-drop zero q j = ap (get_elem? q) (omega arith)
get_elem?-drop (suc m) [] j = refl
get_elem?-drop (suc m) (x ∷ q) j = get_elem?-drop m q j ∙ rw suc-add

length-drop : (m : ℕ) (q : List ℕ) → length (drop m q) ≡ length q - m
length-drop zero q = omega arith
length-drop (suc m) [] = omega arith
length-drop (suc m) (x ∷ q) = omega (arith, length-drop m q)

length-take_lem : (m : ℕ) (q : List ℕ) → m ≤ length q → length (take m q) ≡ m
length-take_lem zero q h = refl
length-take_lem (suc m) [] h = absurd (omega arith)
length-take_lem (suc m) (x ∷ q) h = ap suc (length-take_lem m q (omega arith))

map-take-drop : (m : ℕ) (q : List ℕ) → map some (take m q) ++ map some (drop m q) ≡ map some q
map-take-drop zero q = refl
map-take-drop (suc m) [] = refl
map-take-drop (suc m) (x ∷ q) = ap (λ t. some x ∷ t) (map-take-drop m q)

module _ {n s : ℕ} {q : List ℕ} {r : Ring} (h : Holds n s q r) where
  -- How many stand before the end of the slice.
  abbrev before : ℕ
  before = (if leb n (s + length q) then n else s + length q) - s

  before-le : before ≤ length q
  before-le = ground (arith, h.inside, h.fits)

  taken : length (take before q) ≡ before
  taken = length-take_lem before q before-le

  front : Run r.connections s (take before q)
  front j l =
      ap (get_elem? r.connections) (ground (arith, h.inside, taken))
      ∙ h.at j (omega (arith, taken, before-le))
      ∙ ap some (sym (get_elem?-take before q j (omega (arith, taken))))

  back : Run r.connections 0 (drop before q)
  back j l =
      ap (get_elem? r.connections) (ground (arith, h.inside, h.fits, length-drop before q))
      ∙ h.at (before + j) (omega (arith, length-drop before q))
      ∙ ap some (sym (get_elem?-drop before q j))

  visits : visit r.connections s before ++ visit r.connections 0 (length q - before) ≡ map some q
  visits =
      ap₂ ◌++◌
        (ap (visit r.connections s) (sym taken) ∙ visit-Run r.connections s (take before q) front)
        (ap (visit r.connections 0) (sym (length-drop before q))
          ∙ visit-Run r.connections 0 (drop before q) back)
      ∙ map-take-drop before q

-- rangeOver calls its function on every connection of a ring, once and from the oldest to the
-- newest.
pub range_over-IsDeque : (n : ℕ) (q : List ℕ) (r : Ring) → IsDeque n q r → range_over r ≡ map some q
unfolding range_over
range_over-IsDeque n q r (s, h) =
    rw (oldest_index-start h, h.whole, h.sized)
      (ap (λ k. visit r.connections s (before h) ++ visit r.connections 0 k)
          (ground (arith, h.inside))
        ∙ visits h)
