-- ===== src/Pathmux/Search/First.antt =====
-- The first matching entry of a list of entries that the tree of pathmux/tree.go puts together.
use skipper.Prelude.{
  ℕ, ◌≡◌, refl, List, [], ◌∷◌, ◌++◌, Option, none, some, ◌==◌, if◌then◌else◌, Bool-cases,
  Option-cases, inl, inr, arith,
}
use skipper.Pathmux.Search.{
  found_leaf, with_param, or_else, after_prefix, this_token, next_token, unescaped, is_empty,
}
use skipper.Pathmux.Search.Entries.{
  Segment, wildcard, parameters, Entry, prefixed, below, try_entry, first_match,
}

module _ (match : Option ℕ → Option ℕ) where
  pub first_match-append :
      (xs ys : List Entry) (path : List ℕ)
      → first_match match (xs ++ ys) path
        ≡ or_else match (first_match match xs path) (first_match match ys path)
  unfolding first_match
  first_match-append [] ys path = refl
  first_match-append ((s, v) ∷ xs) ys path =
      elim (Option-cases (try_entry match v (parameters s path))) [
        | inl h ↦ ground (arith, first_match-append xs ys path)
        | inr (f, h) ↦ ground arith
      ]

  parameters-prefixed :
      (p : List ℕ) (s : List Segment) (path : List ℕ)
      → parameters (prefixed p s) path
        ≡ (elim (after_prefix p path) [ none ↦ none | some r ↦ parameters s r ])
  unfolding parameters after_prefix
  parameters-prefixed [] s path = refl
  parameters-prefixed (p ∷ ps) s [] = refl
  parameters-prefixed (p ∷ ps) s (b ∷ bs) = elim (Bool-cases (p == b)) [
    | inl same ↦ rw same (parameters-prefixed ps s bs)
    | inr other ↦ rw other refl
  ]

  pub first_match-prefixed :
      (p : List ℕ) (es : List Entry) (path : List ℕ)
      → first_match match (below (prefixed p) es) path
        ≡ (elim (after_prefix p path) [ none ↦ none | some r ↦ first_match match es r ])
  unfolding first_match
  first_match-prefixed p [] path = elim (Option-cases (after_prefix p path)) [
    | inl h ↦ rw h refl
    | inr (r, h) ↦ rw h refl
  ]
  first_match-prefixed p ((s, v) ∷ es) path = elim (Option-cases (after_prefix p path)) [
    | inl h ↦ ground (arith, parameters-prefixed p s path, first_match-prefixed p es path)
    | inr (r, h) ↦ ground (arith, parameters-prefixed p s path, first_match-prefixed p es path)
  ]

  found_leaf-param :
      (v : Option ℕ) (ps : List (List ℕ)) (token : List ℕ)
      → found_leaf match v (ps ++ unescaped token ∷ [])
        ≡ with_param match token (found_leaf match v ps)
  unfolding found_leaf
  found_leaf-param v ps token = ground arith

  pub first_match-wildcard :
      (es : List Entry) (path : List ℕ)
      → first_match match (below (λ s. wildcard ∷ s) es) path ≡ (
          if is_empty (this_token path)
          then none
          else with_param match (this_token path) (first_match match es (next_token path)))
  unfolding first_match parameters
  first_match-wildcard [] path = ground arith
  first_match-wildcard ((s, v) ∷ es) path = elim (Option-cases (parameters s (next_token path))) [
    | inl h ↦ ground (arith, first_match-wildcard es path)
    | inr (ps, h) ↦
        ground (arith, first_match-wildcard es path, found_leaf-param v ps (this_token path))
  ]
