-- ===== src/Pathmux/Add/Branches.antt =====
-- What each branch of addPath of pathmux/tree.go makes of the values at a node.
use skipper.Prelude.{
  ℕ, ◌≡◌, refl, ◌∙◌, ap, sym, Bool, true, false, ◌&&◌, List, [], ◌∷◌, Option, none, some, ◌==◌,
  if◌then◌else◌, Bool-cases, inl, inr, arith,
}
use skipper.Pathmux.Search.{Node, node, Children, no_children, Child, nil, the, leaf_of, this_token}
use skipper.Pathmux.Search.Entries.{Segment, literal, wildcard, free_wildcard, entries, are_valid}
use skipper.Pathmux.Search.Values.{same_pattern, value_in, value_of}
use skipper.Pathmux.Search.NodeValues.{node_value, value_at, child_at, wildcard_value, free_value}
use skipper.Pathmux.Add.{
  Place, find_child, child_or_new, with_leaf, add_catch_all, placed, wildcard_path,
}
use skipper.Pathmux.Add.Split.{succeeded, inserted}
use skipper.Pathmux.Add.Places.{child_at-placed}

not_inserted : (ok : Bool) (v : ℕ) (old : Option ℕ) → (if ok && false then some v else old) ≡ old
not_inserted ok v old = ground arith

pub with_leaf-node_value :
    (n : Node) (v : ℕ) (s : List Segment)
    → node_value (with_leaf n v) s ≡ inserted true [] v s (node_value n s)
unfolding same_pattern
with_leaf-node_value (node p pr cs w c ca leaf) v [] = refl
with_leaf-node_value (node p pr cs w c ca leaf) v (literal b ∷ s) = refl
with_leaf-node_value (node p pr cs w c ca leaf) v (wildcard ∷ s) = refl
with_leaf-node_value (node p pr cs w c ca leaf) v (free_wildcard ∷ s) = refl

leaf_of-with_leaf : (n : Node) (v : ℕ) → leaf_of (with_leaf n v) ≡ some v
leaf_of-with_leaf (node p pr cs w c ca leaf) v = refl

free_value-child_or_new :
    (c : Child) (path : List ℕ) → leaf_of (child_or_new c path true) ≡ free_value c []
free_value-child_or_new nil path = refl
free_value-child_or_new (the n) path = refl

free_value-other : (c : Child) (x : Segment) (s : List Segment) → free_value c (x ∷ s) ≡ none
free_value-other nil x s = refl
free_value-other (the n) x s = refl

pub add_catch_all-node_value :
    (n : Node) (name : List ℕ) (v : ℕ) (s : List Segment)
    → let a = add_catch_all n name v in
      node_value a.tree s ≡ inserted (succeeded a.error) (free_wildcard ∷ []) v s (node_value n s)
unfolding add_catch_all same_pattern
add_catch_all-node_value (node p pr cs w c ca leaf) name v [] = ground arith
add_catch_all-node_value (node p pr cs w c ca leaf) name v (literal b ∷ s) = ground arith
add_catch_all-node_value (node p pr cs w c ca leaf) name v (wildcard ∷ s) = ground arith
add_catch_all-node_value (node p pr cs w c ca leaf) name v (free_wildcard ∷ []) = ground (
  arith,
  free_value-child_or_new c (this_token name),
  leaf_of-with_leaf (child_or_new c (this_token name) true) v,
)
add_catch_all-node_value (node p pr cs w c ca leaf) name v (free_wildcard ∷ x ∷ s) =
    ground (arith, free_value-other c x s)

wildcard_value-child_or_new :
    (w : Child) (s : List Segment)
    → value_of (child_or_new w wildcard_path false) s ≡ wildcard_value w s
unfolding entries value_in
wildcard_value-child_or_new nil s = refl
wildcard_value-child_or_new (the n) s = refl

-- The branch of addPath for a wildcard, where sub is what it makes of the child.
pub wildcard-node_value :
    (p : List ℕ) (pr : ℕ) (cs : Children) (w c : Child) (ca : Bool) (leaf : Option ℕ) (sub : Node)
    (ok : Bool) (t : List Segment) (v : ℕ) (s : List Segment)
    → ((r : List Segment)
        → value_of sub r ≡ inserted ok t v r (value_of (child_or_new w wildcard_path false) r))
    → node_value (node p pr cs (the sub) c ca leaf) s
      ≡ inserted ok (wildcard ∷ t) v s (node_value (node p pr cs w c ca leaf) s)
unfolding same_pattern
wildcard-node_value p pr cs w c ca leaf sub ok t v [] h = sym (not_inserted ok v leaf)
wildcard-node_value p pr cs w c ca leaf sub ok t v (literal b ∷ s) h =
    sym (not_inserted ok v (value_at (child_at b cs) (literal b ∷ s)))
wildcard-node_value p pr cs w c ca leaf sub ok t v (wildcard ∷ s) h =
    h s ∙ rw (wildcard_value-child_or_new w s) refl
wildcard-node_value p pr cs w c ca leaf sub ok t v (free_wildcard ∷ s) h =
    sym (not_inserted ok v (free_value c s))

-- The branch for a static child.
pub static-node_value :
    (p : List ℕ) (pr : ℕ) (cs : Children) (w c : Child) (ca : Bool) (leaf : Option ℕ) (sub : Node)
    (b : ℕ) (o : Option Place) (ok : Bool) (t : List Segment) (v : ℕ) (s : List Segment)
    → are_valid cs ≡ true
    → find_child b no_children cs ≡ o
    → ((r : List Segment)
        → value_at (some sub) r ≡ inserted ok (literal b ∷ t) v r (value_at (child_at b cs) r))
    → node_value (node p pr (placed cs o b sub) w c ca leaf) s
      ≡ inserted ok (literal b ∷ t) v s (node_value (node p pr cs w c ca leaf) s)
unfolding same_pattern
static-node_value p pr cs w c ca leaf sub b o ok t v [] y e h = sym (not_inserted ok v leaf)
static-node_value p pr cs w c ca leaf sub b o ok t v (literal k ∷ s) y e h =
    rw (child_at-placed k b cs sub o y e) (elim (Bool-cases (b == k)) [
      | inl same ↦
          let eq : b ≡ k = ground arith in
          rw same (
            h (literal k ∷ s)
            ∙ ap
                (λ z.
                  inserted ok (literal b ∷ t) v (literal k ∷ s)
                    (value_at (child_at z cs) (literal k ∷ s)))
                eq)
      | inr other ↦
          let turned : (k == b) ≡ false = ground arith in
          rw (other, turned) (sym (not_inserted ok v (value_at (child_at k cs) (literal k ∷ s))))
    ])
static-node_value p pr cs w c ca leaf sub b o ok t v (wildcard ∷ s) y e h =
    sym (not_inserted ok v (wildcard_value w s))
static-node_value p pr cs w c ca leaf sub b o ok t v (free_wildcard ∷ s) y e h =
    sym (not_inserted ok v (free_value c s))
