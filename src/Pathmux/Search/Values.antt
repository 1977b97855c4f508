-- ===== src/Pathmux/Search/Values.antt =====
-- The tree of pathmux/tree.go as a map from patterns to values: the first value that its entries
-- have for a pattern, which does not speak of the order of different patterns any more.
use skipper.Prelude.{
  ℕ, Bool, true, false, ◌&&◌, ◌≡◌, refl, ◌∙◌, ap, List, [], ◌∷◌, ◌++◌, Option, none, some, ◌==◌,
  if◌then◌else◌, Bool-cases, Option-cases, inl, inr, arith,
}
use skipper.Pathmux.Search.{Node}
use skipper.Pathmux.Search.Entries.{
  Segment, literal, wildcard, free_wildcard, Entry, prefixed, below, entries,
}

abbrev pub same_segment : Segment → Segment → Bool
same_segment (literal a) (literal b) = a == b
same_segment (literal a) wildcard = false
same_segment (literal a) free_wildcard = false
same_segment wildcard (literal b) = false
same_segment wildcard wildcard = true
same_segment wildcard free_wildcard = false
same_segment free_wildcard (literal b) = false
same_segment free_wildcard wildcard = false
same_segment free_wildcard free_wildcard = true

unfoldable pub same_pattern : List Segment → List Segment → Bool
same_pattern [] [] = true
same_pattern [] (y ∷ ys) = false
same_pattern (x ∷ xs) [] = false
same_pattern (x ∷ xs) (y ∷ ys) = same_segment x y && same_pattern xs ys

abbrev pub first_of : {A : Type 0} → Option A → Option A → Option A
first_of none y = y
first_of (some x) y = some x

unfoldable pub value_in : List Segment → List Entry → Option ℕ
value_in s [] = none
value_in s ((t, v) ∷ es) = if same_pattern s t then first_of v (value_in s es) else value_in s es

abbrev pub value_of : Node → List Segment → Option ℕ
value_of n s = value_in s (entries n)

pub value_in-append :
    (s : List Segment) (es fs : List Entry)
    → value_in s (es ++ fs) ≡ first_of (value_in s es) (value_in s fs)
unfolding value_in
value_in-append s [] fs = refl
value_in-append s ((t, none) ∷ es) fs = ground (arith, value_in-append s es fs)
value_in-append s ((t, some v) ∷ es) fs = elim (Bool-cases (same_pattern s t)) [
  | inl same ↦ rw same refl
  | inr other ↦ rw other (value_in-append s es fs)
]

-- What is left of a pattern after a text; none where it begins with anything else.
unfoldable pub strip : List ℕ → List Segment → Option (List Segment)
strip [] s = some s
strip (p ∷ ps) [] = none
strip (p ∷ ps) (literal b ∷ s) = if p == b then strip ps s else none
strip (p ∷ ps) (wildcard ∷ s) = none
strip (p ∷ ps) (free_wildcard ∷ s) = none

-- The value of what is left of a pattern.
abbrev pub value_after : Option (List Segment) → List Entry → Option ℕ
value_after none es = none
value_after (some s) es = value_in s es

abbrev pub same_after : Option (List Segment) → List Segment → Bool
same_after none t = false
same_after (some s) t = same_pattern s t

pub same_pattern-prefixed :
    (p : List ℕ) (s t : List Segment) → same_pattern s (prefixed p t) ≡ same_after (strip p s) t
unfolding same_pattern strip
same_pattern-prefixed [] s t = refl
same_pattern-prefixed (p ∷ ps) [] t = refl
same_pattern-prefixed (p ∷ ps) (literal b ∷ s) t = elim (Bool-cases (p == b)) [
  | inl same ↦
      let turned : (b == p) ≡ true = ground arith in
      rw (same, turned) (same_pattern-prefixed ps s t)
  | inr other ↦ let turned : (b == p) ≡ false = ground arith in rw (other, turned) refl
]
same_pattern-prefixed (p ∷ ps) (wildcard ∷ s) t = refl
same_pattern-prefixed (p ∷ ps) (free_wildcard ∷ s) t = refl

pub value_in-prefixed :
    (p : List ℕ) (s : List Segment) (es : List Entry)
    → value_in s (below (prefixed p) es) ≡ value_after (strip p s) es
unfolding value_in
value_in-prefixed p s [] = elim (Option-cases (strip p s)) [
  | inl h ↦ rw h refl
  | inr (r, h) ↦ rw h refl
]
value_in-prefixed p s ((t, v) ∷ es) = elim (Option-cases (strip p s)) [
  | inl h ↦
      rw (same_pattern-prefixed p s t, h) (value_in-prefixed p s es ∙ ap (λ o. value_after o es) h)
  | inr (r, h) ↦ rw (same_pattern-prefixed p s t, value_in-prefixed p s es, h) refl
]

pub value_in-wildcard :
    (s : List Segment) (es : List Entry)
    → value_in (wildcard ∷ s) (below (λ t. wildcard ∷ t) es) ≡ value_in s es
unfolding value_in same_pattern
value_in-wildcard s [] = refl
value_in-wildcard s ((t, v) ∷ es) = rw (value_in-wildcard s es) refl

abbrev pub starts_wildcard : List Segment → Bool
starts_wildcard (wildcard ∷ s) = true
starts_wildcard _ = false

pub value_in-wildcard_other :
    (s : List Segment) (es : List Entry)
    → starts_wildcard s ≡ false
    → value_in s (below (λ t. wildcard ∷ t) es) ≡ none
unfolding value_in same_pattern
value_in-wildcard_other s [] h = refl
value_in-wildcard_other [] ((t, v) ∷ es) h = value_in-wildcard_other [] es h
value_in-wildcard_other (literal b ∷ s) ((t, v) ∷ es) h =
    value_in-wildcard_other (literal b ∷ s) es h
value_in-wildcard_other (wildcard ∷ s) ((t, v) ∷ es) h = absurd (ground arith)
value_in-wildcard_other (free_wildcard ∷ s) ((t, v) ∷ es) h =
    value_in-wildcard_other (free_wildcard ∷ s) es h
