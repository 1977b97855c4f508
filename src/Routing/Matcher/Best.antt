-- ===== src/Routing/Matcher/Best.antt =====
-- The leaves of routing/matcher.go in the order of sort.Stable: the first that matches is the
-- heaviest that matches.
use skipper.Prelude.{
  Bool, true, false, ◌≡◌, refl, List, [], ◌∷◌, Option, none, some, if◌then◌else◌, All, Bool-cases,
  inl, inr, Option-cases, arith, subst, ◌∙◌, length, map, ◌++◌, ◌+◌,
}
use skipper.Prelude.Int.{ℤ, sub_ℕ, ltb_ℤ, leb_ℤ, pos_part, neg_part}
use skipper.Prelude.Bytes.{Bytes, bytes_eq}
use skipper.Prelude.Sort.{insert_by, sort_by, IsOrdered, sort_by-IsOrdered}
use skipper.Routing.Matcher.{Request, Leaf, less, match_leaf}

module _ {A : Type 0} (less : A → A → Bool) (test : A → Bool) where
  abbrev first : List A → Option A
  first [] = none
  first (x ∷ xs) = if test x then some x else first xs

  -- The element that passes the test and that no other such is before; of equal ones the first.
  unfoldable pub best : List A → Option A
  best [] = none
  best (x ∷ xs) =
      let later = best xs in
      if test x
      then (elim later [ none ↦ some x | some y ↦ if less y x then some y else some x ])
      else later

  All-first : (P : A → Type 0) (xs : List A) (x : A) → All P xs → first xs ≡ some x → P x
  All-first P [] x h e = cc
  All-first P (y ∷ xs) x h e = elim (Bool-cases (test y)) [
    | inl t ↦ let same : y ≡ x = ground arith in subst P same h.0
    | inr t ↦ All-first P xs x h.1 (rw t at e)
  ]

  module _ (asym : (x y : A) → less x y ≡ true → less y x ≡ false)
      (trans : (x y z : A) → less x y ≡ false → less y z ≡ false → less x z ≡ false) where
    first-insert_by :
        (x : A) (ys : List A)
        → IsOrdered less ys
        → first (insert_by less x ys) ≡ (
            if test x
            then (elim (first ys) [ none ↦ some x | some y ↦ if less y x then some y else some x ])
            else first ys)
    unfolding insert_by
    first-insert_by x [] h = ground arith
    first-insert_by x (y ∷ ys) h = elim (Option-cases (first ys)) [
      | inl e ↦ ground (arith, first-insert_by x ys h.1)
      | inr (m, e) ↦
          let below : less m y ≡ false = All-first (λ z. less z y ≡ false) ys m h.0 e in
          elim (Bool-cases (less y x)) [
            | inl over ↦ ground (arith, first-insert_by x ys h.1)
            | inr under ↦ let not_over : less m x ≡ false = trans m y x below under in ground arith
          ]
    ]

    pub first-sort_by : (xs : List A) → first (sort_by less xs) ≡ best xs
    unfolding sort_by best
    first-sort_by [] = refl
    first-sort_by (x ∷ xs) =
        first-insert_by x (sort_by less xs) (sort_by-IsOrdered less asym trans xs)
        ∙ rw (first-sort_by xs) refl

-- What a condition of a leaf is on.
pub data Test : Type 0 where
  on_method on_host on_path on_header on_header_regexp on_predicate : Test

module _ (Regexp : Type 0) (match_string : Regexp → Bytes → Bool) where
  -- The conditions of a leaf, one by one.
  abbrev pub conditions : Leaf Regexp match_string → List Test
  conditions l =
      (if bytes_eq l.method [] then [] else on_method ∷ [])
      ++ (map (λ _. on_host) l.host_rxs
          ++ (map (λ _. on_path) l.path_rxs
              ++ (map (λ _. on_header) l.headers_exact
                  ++ (map (λ _. on_header_regexp) l.headers_regexp
                      ++ map (λ _. on_predicate) l.predicates))))

  -- The weight of the route and one for each condition.
  abbrev pub weight : Leaf Regexp match_string → ℤ
  weight l = sub_ℕ (pos_part l.weight + length (conditions l)) (neg_part l.weight)

  abbrev pub Holds : Request → Bytes → Bytes → Leaf Regexp match_string → Type 0
  Holds req path exact l = match_leaf Regexp match_string l req path exact ≡ true

  -- The place of the leaf in the list: of the leaves that hold, those before it have a lower weight,
  -- and those after it have no higher one.
  abbrev pub Heaviest :
      Request
      → Bytes
      → Bytes
      → List (Leaf Regexp match_string)
      → Option (Leaf Regexp match_string)
      → Type 0
  Heaviest req path exact ls none =
      All (λ l. match_leaf Regexp match_string l req path exact ≡ false) ls
  Heaviest req path exact ls (some l) =
      (before : List (Leaf Regexp match_string)) × (after : List (Leaf Regexp match_string)) × (ls
        ≡ before ++ (l ∷ after))
      × Holds req path exact l
      × All (λ k. Holds req path exact k → ltb_ℤ (weight k) (weight l) ≡ true) before
      × All (λ k. Holds req path exact k → leb_ℤ (weight k) (weight l) ≡ true) after

  module _ (req : Request) (path exact : Bytes) where
    abbrev holds : Leaf Regexp match_string → Bool
    holds l = match_leaf Regexp match_string l req path exact

    abbrev grown :
        Leaf Regexp match_string
        → Option (Leaf Regexp match_string)
        → Option (Leaf Regexp match_string)
    grown x later =
        if holds x
        then (elim later [
          | none ↦ some x
          | some y ↦ if less Regexp match_string y x then some y else some x
        ])
        else later
