-- ===== src/Routing/Matcher/Found/Entry.antt =====
-- The entry of a path that the lookup of pathmux/tree.go takes.
use skipper.Prelude.{
  ℕ, zero, suc, ◌<◌, ◌≡◌, List, [], ◌∷◌, Option, none, some, All, Option-cases, inl, inr, get_elem?,
  arith, subst, sym, ap, ◌∙◌,
}
use skipper.Pathmux.Search.{Found, found_leaf}
use skipper.Pathmux.Search.Entries.{Segment, Entry, parameters, try_entry, first_match}

pub some_injective : {A : Type 0} {a b : A} → some a ≡ some b → a ≡ b
some_injective h = ground arith

module _ (match : Option ℕ → Option ℕ) (path : List ℕ) where
  -- An entry whose pattern matches has no value that is taken.
  abbrev pub Refused : Entry → Type 0
  Refused e = try_entry match e.1 (parameters e.0 path) ≡ none

  pub Refused-first_match : (es : List Entry) → first_match match es path ≡ none → All Refused es
  unfolding first_match
  Refused-first_match [] h = tt
  Refused-first_match ((s, v) ∷ es) h =
      elim (Option-cases (try_entry match v (parameters s path))) [
        | inl e ↦ (e, Refused-first_match es (ground arith))
        | inr (g, e) ↦ absurd (ground arith)
      ]

  -- The first entry that is not refused, with the parameters of its pattern.
  abbrev pub FirstEntry : List Entry → Found → Type 0
  FirstEntry es f =
      (i : ℕ) × (s : List Segment) × (get_elem? es i ≡ some (s, f.leaf))
      × (parameters s path ≡ some f.params)
      × (match f.leaf ≡ some f.value)
      × ((j : ℕ) (e : Entry) → j < i → get_elem? es j ≡ some e → Refused e)

  try_entry-found :
      (v : Option ℕ) (o : Option (List (List ℕ))) (f : Found)
      → try_entry match v o ≡ some f
      → (o ≡ some f.params) × (f.leaf ≡ v) × (match v ≡ some f.value)
  unfolding found_leaf
  try_entry-found v none f h = cc
  try_entry-found v (some ps) f h = elim (Option-cases (match v)) [
    | inl e ↦ absurd (ground arith)
    | inr (x, e) ↦
        let same : record { leaf = v; params = ps; value = x } ≡ f = ground arith in
        (ap (λ g. some g.params) same, sym (ap (λ g. g.leaf) same), e ∙ ap (λ g. some g.value) same)
  ]

  pub first_match-FirstEntry :
      (es : List Entry) (f : Found) → first_match match es path ≡ some f → FirstEntry es f
  unfolding first_match
  first_match-FirstEntry [] f h = cc
  first_match-FirstEntry ((s, v) ∷ es) f h =
      elim (Option-cases (try_entry match v (parameters s path))) [
        | inl e ↦
            let (i, t, at, ps, val, before) = first_match-FirstEntry es f (ground arith) in
            (suc i, t, at, ps, val, earlier s v e es i before)
        | inr (g, e) ↦
            let same : g ≡ f = ground arith in
            let (ps, leaf, val) = try_entry-found v (parameters s path) f (e ∙ ap some same) in
            (
              0,
              s,
              ap (λ w. some (s, w)) (sym leaf),
              ps,
              ap match leaf ∙ val,
              λ j k lt. absurd (omega arith),
            )
      ]
    where
      earlier :
          (s : List Segment) (v : Option ℕ)
          → try_entry match v (parameters s path) ≡ none
          → (es : List Entry) (i : ℕ)
          → ((j : ℕ) (e : Entry) → j < i → get_elem? es j ≡ some e → Refused e)
          → (j : ℕ) (e : Entry) → j < suc i
          → get_elem? ((s, v) ∷ es) j ≡ some e
          → Refused e
      earlier s v h es i before zero e lt at = subst Refused (some_injective at) h
      earlier s v h es i before (suc j) e lt at = before j e (omega arith) at
