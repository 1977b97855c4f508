-- ===== src/Pathmux/Search/NodeValues.antt =====
-- The values of the patterns at a node of pathmux/tree.go: each is found below one child.
use skipper.Prelude.{
  ℕ, Bool, true, false, ◌≡◌, refl, ◌∙◌, List, [], ◌∷◌, ◌++◌, Option, none, some, ◌==◌,
  if◌then◌else◌, Bool-cases, inl, inr, arith,
}
use skipper.Pathmux.Search.{
  Node, Children, Child, node, no_children, child, nil, the, path_of, leaf_of,
}
use skipper.Pathmux.Search.Entries.{
  Segment, literal, wildcard, free_wildcard, prefixed, below, entries, entries_children,
  entries_wildcard, entries_free, starts_with, has_index, is_valid, are_valid,
}
use skipper.Pathmux.Search.Values.{
  same_pattern, first_of, value_in, value_of, value_in-append, strip, value_after,
  value_in-prefixed, starts_wildcard, value_in-wildcard, value_in-wildcard_other,
}

abbrev pub starts_literal : List Segment → Bool
starts_literal (literal b ∷ s) = true
starts_literal _ = false

strip-starts_with :
    (i : ℕ) (p : List ℕ) (s : List Segment)
    → starts_with i p ≡ true
    → starts_literal s ≡ false
    → strip p s ≡ none
unfolding strip
strip-starts_with i [] s h k = absurd (ground arith)
strip-starts_with i (p ∷ ps) [] h k = refl
strip-starts_with i (p ∷ ps) (literal b ∷ s) h k = absurd (ground arith)
strip-starts_with i (p ∷ ps) (wildcard ∷ s) h k = refl
strip-starts_with i (p ∷ ps) (free_wildcard ∷ s) h k = refl

value_in-children_other :
    (cs : Children) (s : List Segment)
    → are_valid cs ≡ true
    → starts_literal s ≡ false
    → value_in s (entries_children cs) ≡ none
unfolding entries entries_children value_in are_valid
value_in-children_other no_children s h k = refl
value_in-children_other (child i n cs) s h k =
    value_in-append s (below (prefixed (path_of n)) (entries n)) (entries_children cs)
    ∙ (let gone = strip-starts_with i (path_of n) s (ground arith) k in
        let rest = value_in-children_other cs s (ground arith) k in
        rw (value_in-prefixed (path_of n) s (entries n), gone, rest) refl)

-- The first child with the byte.
unfoldable pub child_at : ℕ → Children → Option Node
child_at b no_children = none
child_at b (child i n cs) = if i == b then some n else child_at b cs

-- The value below a child that may be missing, and below a child of any kind.
abbrev pub value_at : Option Node → List Segment → Option ℕ
value_at none s = none
value_at (some n) s = value_after (strip (path_of n) s) (entries n)

pub child_at-none : (b : ℕ) (cs : Children) → has_index b cs ≡ false → child_at b cs ≡ none
unfolding child_at
child_at-none b no_children h = refl
child_at-none b (child i n cs) h = ground (arith, child_at-none b cs)

strip-other :
    (i b : ℕ) (p : List ℕ) (s : List Segment)
    → starts_with i p ≡ true
    → (i == b) ≡ false
    → strip p (literal b ∷ s) ≡ none
unfolding strip
strip-other i b [] s h k = absurd (ground arith)
strip-other i b (p ∷ ps) s h k = let other : (p == b) ≡ false = ground arith in rw other refl

pub first_of-none : (o : Option ℕ) → first_of o none ≡ o
first_of-none none = refl
first_of-none (some x) = refl

-- In valid children, the value of a pattern that begins with a byte is that below the one child
-- with the byte.
pub value_in-children :
    (cs : Children) (b : ℕ) (s : List Segment)
    → are_valid cs ≡ true
    → value_in (literal b ∷ s) (entries_children cs) ≡ value_at (child_at b cs) (literal b ∷ s)
unfolding entries entries_children are_valid child_at value_in
value_in-children no_children b s h = refl
value_in-children (child i n cs) b s h =
    let rest = value_in-children cs b s (ground arith) in
    value_in-append (literal b ∷ s) (below (prefixed (path_of n)) (entries n)) (entries_children cs)
    ∙ elim (Bool-cases (i == b)) [
      | inl same ↦
          let fresh : has_index b cs ≡ false = ground arith in
          let gone = child_at-none b cs fresh in
          rw (same, value_in-prefixed (path_of n) (literal b ∷ s) (entries n), rest, gone)
            (first_of-none (value_after (strip (path_of n) (literal b ∷ s)) (entries n)))
      | inr other ↦
          let gone = strip-other i b (path_of n) s (ground arith) other in
          rw (other, value_in-prefixed (path_of n) (literal b ∷ s) (entries n), gone, rest) refl
    ]

abbrev pub wildcard_value : Child → List Segment → Option ℕ
wildcard_value nil s = none
wildcard_value (the n) s = value_of n s

abbrev pub free_value : Child → List Segment → Option ℕ
free_value nil s = none
free_value (the n) [] = leaf_of n
free_value (the n) (x ∷ s) = none

-- The value of a pattern at a node.
abbrev pub node_value : Node → List Segment → Option ℕ
node_value (node p pr cs w c ca leaf) [] = leaf
node_value (node p pr cs w c ca leaf) (literal b ∷ s) = value_at (child_at b cs) (literal b ∷ s)
node_value (node p pr cs w c ca leaf) (wildcard ∷ s) = wildcard_value w s
node_value (node p pr cs w c ca leaf) (free_wildcard ∷ s) = free_value c s

unfoldable free_of : List Segment → Child → Option ℕ
free_of (free_wildcard ∷ s) c = free_value c s
free_of s c = none

value_in-free : (c : Child) (s : List Segment) → value_in s (entries_free c) ≡ free_of s c
unfolding entries entries_free value_in same_pattern free_of
value_in-free nil [] = refl
value_in-free nil (literal b ∷ s) = refl
value_in-free nil (wildcard ∷ s) = refl
value_in-free nil (free_wildcard ∷ s) = refl
value_in-free (the n) [] = refl
value_in-free (the n) (literal b ∷ s) = refl
value_in-free (the n) (wildcard ∷ s) = refl
value_in-free (the n) (free_wildcard ∷ []) = first_of-none (leaf_of n)
value_in-free (the n) (free_wildcard ∷ x ∷ s) = refl

value_in-wildcard_child :
    (w : Child) (s : List Segment)
    → value_in (wildcard ∷ s) (entries_wildcard w) ≡ wildcard_value w s
unfolding entries entries_wildcard value_in
value_in-wildcard_child nil s = refl
value_in-wildcard_child (the n) s = value_in-wildcard s (entries n)

value_in-wildcard_child_other :
    (w : Child) (s : List Segment)
    → starts_wildcard s ≡ false
    → value_in s (entries_wildcard w) ≡ none
unfolding entries entries_wildcard value_in
value_in-wildcard_child_other nil s h = refl
value_in-wildcard_child_other (the n) s h = value_in-wildcard_other s (entries n) h

value_in-below_node :
    (cs : Children) (w c : Child) (s : List Segment)
    → value_in s (entries_children cs ++ (entries_wildcard w ++ entries_free c))
      ≡ first_of
          (value_in s (entries_children cs))
          (first_of (value_in s (entries_wildcard w)) (free_of s c))
value_in-below_node cs w c s =
    value_in-append s (entries_children cs) (entries_wildcard w ++ entries_free c)
    ∙ rw (value_in-append s (entries_wildcard w) (entries_free c), value_in-free c s) refl

-- A leaf is the value of the empty pattern only.
value_in-leaf :
    (leaf : Option ℕ) (p : List ℕ) (pr : ℕ) (cs : Children) (w c : Child) (ca : Bool) (x : Segment)
    (s : List Segment)
    → value_in (x ∷ s) (entries (node p pr cs w c ca leaf))
      ≡ first_of
          (value_in (x ∷ s) (entries_children cs))
          (first_of (value_in (x ∷ s) (entries_wildcard w)) (free_of (x ∷ s) c))
unfolding entries value_in same_pattern
value_in-leaf none p pr cs w c ca x s = value_in-below_node cs w c (x ∷ s)
value_in-leaf (some v) p pr cs w c ca x s = value_in-below_node cs w c (x ∷ s)

-- The first value that the entries of a valid node have for a pattern is the one that the node has.
pub value_of-node :
    (n : Node) (s : List Segment) → is_valid n ≡ true → value_of n s ≡ node_value n s
unfolding entries value_in same_pattern is_valid free_of
value_of-node (node p pr cs w c ca none) [] h =
    value_in-below_node cs w c []
    ∙ rw
        (value_in-children_other cs [] (ground arith) refl, value_in-wildcard_child_other w [] refl)
        refl
value_of-node (node p pr cs w c ca (some v)) [] h = refl
value_of-node (node p pr cs w c ca leaf) (literal b ∷ s) h =
    value_in-leaf leaf p pr cs w c ca (literal b) s
    ∙ rw
        (
          value_in-children cs b s (ground arith),
          value_in-wildcard_child_other w (literal b ∷ s) refl,
        )
        (first_of-none (value_at (child_at b cs) (literal b ∷ s)))
value_of-node (node p pr cs w c ca leaf) (wildcard ∷ s) h =
    value_in-leaf leaf p pr cs w c ca wildcard s
    ∙ rw
        (value_in-children_other cs (wildcard ∷ s) (ground arith) refl, value_in-wildcard_child w s)
        (first_of-none (wildcard_value w s))
value_of-node (node p pr cs w c ca leaf) (free_wildcard ∷ s) h =
    value_in-leaf leaf p pr cs w c ca free_wildcard s
    ∙ rw
        (
          value_in-children_other cs (free_wildcard ∷ s) (ground arith) refl,
          value_in-wildcard_child_other w (free_wildcard ∷ s) refl,
        )
        refl
