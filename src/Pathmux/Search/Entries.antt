-- ===== src/Pathmux/Search/Entries.antt =====
-- What the tree of pathmux/tree.go holds: the patterns with their values, in the order in which
-- search prefers them. This does not speak of the nodes any more.
use skipper.Prelude.{
  ℕ, Bool, true, false, ◌&&◌, not, List, [], ◌∷◌, ◌++◌, Option, none, some, ◌==◌, if◌then◌else◌,
}
use skipper.Pathmux.Search.{
  Node, Children, Child, node, no_children, child, nil, the, this_token, next_token, unescaped,
  is_empty, Found, found_leaf, path_of, leaf_of,
}

pub data Segment : Type 0 where
  literal : ℕ → Segment
  -- `:name`, a token that is not empty.
  wildcard : Segment
  -- `*name`, the rest of the path, which is not empty.
  free_wildcard : Segment

-- The parameters of a path that a pattern matches, the last one first.
unfoldable pub parameters : List Segment → List ℕ → Option (List (List ℕ))
parameters [] [] = some []
parameters [] (b ∷ bs) = none
parameters (literal p ∷ ps) [] = none
parameters (literal p ∷ ps) (b ∷ bs) = if p == b then parameters ps bs else none
parameters (wildcard ∷ ps) bs =
    let rest : Option (List (List ℕ)) = elim (parameters ps (next_token bs)) [
      | none ↦ none
      | some r ↦ some (r ++ unescaped (this_token bs) ∷ [])
    ] in
    if is_empty (this_token bs) then none else rest
parameters (free_wildcard ∷ ps) bs = if is_empty bs then none else some (unescaped bs ∷ [])

abbrev pub Entry : Type 0
Entry = List Segment × Option ℕ

abbrev pub prefixed : List ℕ → List Segment → List Segment
prefixed [] s = s
prefixed (p ∷ ps) s = literal p ∷ prefixed ps s

abbrev pub below : (List Segment → List Segment) → List Entry → List Entry
below f [] = []
below f ((s, v) ∷ es) = (f s, v) ∷ below f es

unfoldable mutual
  pub entries : Node → List Entry
  entries (node p pr cs w c ca none) = entries_children cs ++ (entries_wildcard w ++ entries_free c)
  entries (node p pr cs w c ca (some v)) =
      ([], some v) ∷ (entries_children cs ++ (entries_wildcard w ++ entries_free c))

  pub entries_children : Children → List Entry
  entries_children no_children = []
  entries_children (child i n cs) = below (prefixed (path_of n)) (entries n) ++ entries_children cs

  pub entries_wildcard : Child → List Entry
  entries_wildcard nil = []
  entries_wildcard (the n) = below (λ s. wildcard ∷ s) (entries n)

  pub entries_free : Child → List Entry
  entries_free nil = []
  entries_free (the n) = (free_wildcard ∷ [], leaf_of n) ∷ []

-- The first entry that matches the path and whose value the matcher takes.
abbrev pub try_entry : (Option ℕ → Option ℕ) → Option ℕ → Option (List (List ℕ)) → Option Found
try_entry match v none = none
try_entry match v (some ps) = found_leaf match v ps

unfoldable pub first_match : (Option ℕ → Option ℕ) → List Entry → List ℕ → Option Found
first_match match [] path = none
first_match match ((s, v) ∷ es) path = elim (try_entry match v (parameters s path)) [
  | none ↦ first_match match es path
  | some f ↦ some f
]

-- Each index of a node is the first byte of its child's path, and no two are the same.
abbrev pub starts_with : ℕ → List ℕ → Bool
starts_with i [] = false
starts_with i (b ∷ bs) = i == b

abbrev pub has_index : ℕ → Children → Bool
has_index i no_children = false
has_index i (child j n cs) = if j == i then true else has_index i cs

unfoldable mutual
  pub is_valid : Node → Bool
  is_valid (node p pr cs w c ca v) = are_valid cs && (is_valid_child w && is_valid_child c)

  pub are_valid : Children → Bool
  are_valid no_children = true
  are_valid (child i n cs) =
      (starts_with i (path_of n) && not (has_index i cs)) && (is_valid n && are_valid cs)

  pub is_valid_child : Child → Bool
  is_valid_child nil = true
  is_valid_child (the n) = is_valid n
