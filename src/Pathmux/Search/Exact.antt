-- ===== src/Pathmux/Search/Exact.antt =====
-- search of pathmux/tree.go against what the tree holds.
use skipper.Prelude.{
  ℕ, true, false, ◌≡◌, refl, sym, ap, ap₂, subst, ◌∙◌, List, [], ◌∷◌, ◌++◌, Option, none, some,
  ◌==◌, ==_iff, if◌then◌else◌, Bool-cases, Option-cases, inl, inr, arith,
}
use skipper.Pathmux.Search.{
  Node, Children, Child, node, no_children, child, nil, the, Found, found_leaf, with_param, or_else,
  after_prefix, this_token, next_token, is_empty, path_of, search, search_children, search_wildcard,
  search_catch_all,
}
use skipper.Pathmux.Search.Entries.{
  parameters, Entry, prefixed, below, first_match, entries, entries_children, entries_wildcard,
  entries_free, starts_with, has_index, is_valid, are_valid, is_valid_child,
}
use skipper.Pathmux.Search.First.{first_match-append, first_match-prefixed, first_match-wildcard}

after_prefix-other :
    (i b : ℕ) (p bs : List ℕ)
    → starts_with i p ≡ true
    → (i == b) ≡ false
    → after_prefix p (b ∷ bs) ≡ none
unfolding after_prefix
after_prefix-other i b [] bs s h = absurd (ground arith)
after_prefix-other i b (x ∷ p) bs s h = ground (arith)

after_prefix-empty : (i : ℕ) (p : List ℕ) → starts_with i p ≡ true → after_prefix p [] ≡ none
unfolding after_prefix
after_prefix-empty i [] s = absurd (ground arith)
after_prefix-empty i (x ∷ p) s = refl

module _ (match : Option ℕ → Option ℕ) where
  or_else-none : (x : Option Found) → or_else match x none ≡ x
  or_else-none none = refl
  or_else-none (some f) = refl

  prefixed-none :
      (p : List ℕ) (es : List Entry) (path : List ℕ)
      → after_prefix p path ≡ none
      → first_match match (below (prefixed p) es) path ≡ none
  prefixed-none p es path h = first_match-prefixed match p es path ∙ rw h refl

  prefixed-some :
      (p : List ℕ) (es : List Entry) (path rest : List ℕ)
      → after_prefix p path ≡ some rest
      → first_match match (below (prefixed p) es) path ≡ first_match match es rest
  prefixed-some p es path rest h = first_match-prefixed match p es path ∙ rw h refl

  children-empty :
      (cs : Children) → are_valid cs ≡ true → first_match match (entries_children cs) [] ≡ none
  unfolding entries_children are_valid first_match
  children-empty no_children v = refl
  children-empty (child i n cs) v =
      let w0 : starts_with i (path_of n) ≡ true = ground arith in
      let u1 : are_valid cs ≡ true = ground arith in
      first_match-append match (below (prefixed (path_of n)) (entries n)) (entries_children cs) []
      ∙ ap₂ (or_else match)
          (prefixed-none (path_of n) (entries n) [] (after_prefix-empty i (path_of n) w0))
          (children-empty cs u1)

  children-absent :
      (cs : Children) (b : ℕ) (bs : List ℕ)
      → are_valid cs ≡ true
      → has_index b cs ≡ false
      → first_match match (entries_children cs) (b ∷ bs) ≡ none
  unfolding entries_children are_valid first_match
  children-absent no_children b bs v h = refl
  children-absent (child i n cs) b bs v h =
      let w0 : starts_with i (path_of n) ≡ true = ground arith in
      let u1 : are_valid cs ≡ true = ground arith in
      let other : (i == b) ≡ false = ground arith in
      first_match-append match (below (prefixed (path_of n)) (entries n)) (entries_children cs)
        (b ∷ bs)
      ∙ ap₂ (or_else match)
          (prefixed-none (path_of n) (entries n) (b ∷ bs)
            (after_prefix-other i b (path_of n) bs w0 other))
          (children-absent cs b bs u1 (ground arith))

  free-exact :
      (c : Child) (b : ℕ) (bs : List ℕ)
      → search_catch_all match c (b ∷ bs) ≡ first_match match (entries_free c) (b ∷ bs)
  unfolding search_catch_all entries_free first_match parameters found_leaf
  free-exact nil b bs = refl
  free-exact (the n) b bs = ground arith

  free-empty : (c : Child) → first_match match (entries_free c) [] ≡ none
  unfolding entries_free first_match parameters
  free-empty nil = refl
  free-empty (the n) = refl

  wildcard-empty : (w : Child) → first_match match (entries_wildcard w) [] ≡ none
  unfolding entries_wildcard first_match this_token
  wildcard-empty nil = refl
  wildcard-empty (the n) = first_match-wildcard match (entries n) []

  rest-empty :
      (cs : Children) (w c : Child)
      → are_valid cs ≡ true
      → first_match match (entries_children cs ++ (entries_wildcard w ++ entries_free c)) [] ≡ none
  rest-empty cs w c v =
      first_match-append match (entries_children cs) (entries_wildcard w ++ entries_free c) []
      ∙ ap₂ (or_else match) (children-empty cs v) (
          first_match-append match (entries_wildcard w) (entries_free c) []
          ∙ ap₂ (or_else match) (wildcard-empty w) (free-empty c))

  -- The order of the rest of a node.
  rest-append :
      (cs : Children) (w c : Child) (path : List ℕ)
      → first_match match (entries_children cs ++ (entries_wildcard w ++ entries_free c)) path
        ≡ or_else match (first_match match (entries_children cs) path) (
            or_else match
              (first_match match (entries_wildcard w) path)
              (first_match match (entries_free c) path))
  rest-append cs w c path =
      first_match-append match (entries_children cs) (entries_wildcard w ++ entries_free c) path
      ∙ ap (or_else match (first_match match (entries_children cs) path))
          (first_match-append match (entries_wildcard w) (entries_free c) path)

  mutual
    unfolding search search_children search_wildcard entries entries_children entries_wildcard
        is_valid are_valid is_valid_child first_match parameters

    node-first_match :
        (n : Node) (path : List ℕ)
        → is_valid n ≡ true
        → search match n path ≡ first_match match (entries n) path
    node-first_match (node p pr cs w c ca none) [] v =
        let v0 : are_valid cs ≡ true = ground arith in sym (rest-empty cs w c v0)
    node-first_match (node p pr cs w c ca (some x)) [] v =
        let v0 : are_valid cs ≡ true = ground arith in ground (arith, rest-empty cs w c v0)
    node-first_match (node p pr cs w c ca none) (b ∷ bs) v =
        let v0 : are_valid cs ≡ true = ground arith in
        let v2 : is_valid_child w ≡ true = ground arith in
        ap₂ (or_else match) (children-first_match cs (b ∷ bs) v0)
          (ap₂ (or_else match) (wildcard-first_match w (b ∷ bs) v2) (free-exact c b bs))
        ∙ sym (rest-append cs w c (b ∷ bs))
    node-first_match (node p pr cs w c ca (some x)) (b ∷ bs) v =
        let v0 : are_valid cs ≡ true = ground arith in
        let v2 : is_valid_child w ≡ true = ground arith in
        ap₂ (or_else match) (children-first_match cs (b ∷ bs) v0)
          (ap₂ (or_else match) (wildcard-first_match w (b ∷ bs) v2) (free-exact c b bs))
        ∙ sym (rest-append cs w c (b ∷ bs))

    children-first_match :
        (cs : Children) (path : List ℕ)
        → are_valid cs ≡ true
        → search_children match cs path ≡ first_match match (entries_children cs) path
    children-first_match no_children path v = refl
    children-first_match (child i n cs) [] v = sym (children-empty (child i n cs) v)
    children-first_match (child i n cs) (b ∷ bs) v =
        let w0 : starts_with i (path_of n) ≡ true = ground arith in
        let w1 : has_index i cs ≡ false = ground arith in
        let u0 : is_valid n ≡ true = ground arith in
        let u1 : are_valid cs ≡ true = ground arith in
        let split =
          first_match-append match (below (prefixed (path_of n)) (entries n)) (entries_children cs)
            (b ∷ bs) in
        elim (Bool-cases (i == b)) [
          | inl same ↦
              let absent : has_index b cs ≡ false =
                subst (λ x. has_index x cs ≡ false) ((==_iff i b).0 same) w1 in
              let nothing = children-absent cs b bs u1 absent in
              elim (Option-cases (after_prefix (path_of n) (b ∷ bs))) [
                | inl h ↦
                    ground (arith, split, prefixed-none (path_of n) (entries n) (b ∷ bs) h, nothing)
                | inr (r, h) ↦ ground (
                  arith,
                  split,
                  node-first_match n r u0,
                  prefixed-some (path_of n) (entries n) (b ∷ bs) r h,
                  nothing,
                )
              ]
          | inr other ↦ ground (
            arith,
            split,
            prefixed-none (path_of n) (entries n) (b ∷ bs)
                (after_prefix-other i b (path_of n) bs w0 other),
            children-first_match cs (b ∷ bs) u1,
          )
        ]

    wildcard-first_match :
        (w : Child) (path : List ℕ)
        → is_valid_child w ≡ true
        → search_wildcard match w path ≡ first_match match (entries_wildcard w) path
    wildcard-first_match nil path v = refl
    wildcard-first_match (the n) path v =
        ap (λ f. if is_empty (this_token path) then none else with_param match (this_token path) f)
          (node-first_match n (next_token path) v)
        ∙ sym (first_match-wildcard match (entries n) path)

  -- In a valid tree, search finds the first entry, in the order of the tree, whose pattern matches
  -- the path and whose value the matcher takes, with the parameters of the path.
  pub search-first_match :
      (n : Node) (path : List ℕ)
      → is_valid n ≡ true
      → search match n path ≡ first_match match (entries n) path
  search-first_match n path v = node-first_match n path v
