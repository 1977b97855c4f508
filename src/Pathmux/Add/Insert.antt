-- ===== src/Pathmux/Add/Insert.antt =====
-- addPath of pathmux/tree.go as an insertion into a map from patterns to values.
use skipper.Prelude.{
  ℕ, zero, suc, ◌>>=◌, ◌≡◌, refl, ◌∙◌, ap, sym, Bool, true, false, List, [], ◌∷◌, Option, none,
  some, ◌==◌, drop, Bool-cases, inl, inr, arith,
}
use skipper.Pathmux.Search.{Node, node, Children, no_children, path_of, next_token, slash}
use skipper.Pathmux.Search.Entries.{Segment, literal, prefixed, entries, is_valid, are_valid}
use skipper.Pathmux.Search.Values.{value_of, value_after, strip}
use skipper.Pathmux.Search.NodeValues.{value_of-node, value_at, child_at, child_at-none}
use skipper.Pathmux.Add.{
  Place, token_of, has_wildcard, find_child, child_or_new, with_leaf, next_child, wildcard_path,
  add_path,
}
use skipper.Pathmux.Add.Patterns.{
  pattern_from, pattern_of, pattern_from-next_token, pattern_of-append,
}
use skipper.Pathmux.Add.Split.{
  succeeded, inserted, succeeded_at, next_child-value_at, next_child-Takes,
}
use skipper.Pathmux.Add.Branches.{
  with_leaf-node_value, add_catch_all-node_value, wildcard-node_value, static-node_value,
}
use skipper.Pathmux.Add.Places.{find_child-child_at}
use skipper.Pathmux.Add.Static.{find_child-none}
use skipper.Pathmux.Add.Valid.{
  next_child-Fits, add_path-path_of, add_path-is_valid, child_or_new-is_valid,
}

found-child_at :
    (b : ℕ) (cs : Children) (o : Option Place) (s : List Segment)
    → find_child b no_children cs ≡ o
    → value_at (o >>= (λ x. some x.found)) s ≡ value_at (child_at b cs) s
found-child_at b cs none s e = rw (child_at-none b cs (find_child-none b no_children cs e)) refl
found-child_at b cs (some x) s e = rw (find_child-child_at b no_children cs x e) refl

-- What addPath makes of the child that it goes on with.
sub-value_at :
    (b : ℕ) (bs : List ℕ) (cs : Children) (sub : Node) (ok : Bool) (v : ℕ)
    → let next = next_child (find_child b no_children cs) (token_of (b ∷ bs)) in
      path_of sub ≡ path_of next.0
      → has_wildcard (token_of (b ∷ bs)) ≡ false
      → ((r : List Segment)
          → value_of sub r
            ≡ inserted ok (pattern_of (drop next.1 (b ∷ bs))) v r (value_of next.0 r))
      → (r : List Segment)
      → value_at (some sub) r ≡ inserted ok (pattern_of (b ∷ bs)) v r (value_at (child_at b cs) r)
sub-value_at b bs cs sub ok v e fine ih r =
    let place = find_child b no_children cs in
    let next = next_child place (token_of (b ∷ bs)) in
    let rest = drop next.1 (b ∷ bs) in
    let q = path_of next.0 in
    let (whole, no_wildcard) = next_child-Takes place b bs fine in
    let pattern : prefixed q (pattern_of rest) ≡ pattern_of (b ∷ bs) =
      sym (pattern_of-append q rest no_wildcard) ∙ ap pattern_of whole in
    let old : value_at (some next.0) r ≡ value_at (child_at b cs) r =
      next_child-value_at place (token_of (b ∷ bs)) r ∙ found-child_at b cs place r refl in
    ap (λ z. value_after (strip z r) (entries sub)) e
    ∙ succeeded_at q r (pattern_of rest) ok v (entries next.0) (entries sub) ih
    ∙ ap (λ z. inserted ok z v r (value_at (some next.0) r)) pattern
    ∙ ap (inserted ok (pattern_of (b ∷ bs)) v r) old

pattern_of-name :
    (b : ℕ) (bs : List ℕ)
    → (b == 58) ≡ true
    → pattern_of (next_token (b ∷ bs)) ≡ pattern_from true bs
unfolding next_token
pattern_of-name b bs h =
    let on : (b == slash) ≡ false = ground arith in rw on (sym (pattern_from-next_token bs))

-- Adding a path to a valid tree sets the value of the pattern that the path stands for, and keeps
-- the values of all other patterns. Where it fails, it keeps the values of all patterns.
pub add_path-inserted :
    (fuel : ℕ) (n : Node) (path : List ℕ) (v : ℕ) (s : List Segment)
    → is_valid n ≡ true
    → let a = add_path fuel n path v in
      value_of a.tree s ≡ inserted (succeeded a.error) (pattern_of path) v s (value_of n s)
unfolding add_path pattern_from is_valid
add_path-inserted fuel n [] v s h =
    value_of-node (with_leaf n v) s (add_path-is_valid fuel n [] v h)
    ∙ with_leaf-node_value n v s
    ∙ rw (value_of-node n s h) refl
add_path-inserted zero n (b ∷ bs) v s h = refl
add_path-inserted (suc fuel) (node p pr cs w c ca leaf) (b ∷ bs) v s h =
    let n = node p pr cs w c ca leaf in
    let token = token_of (b ∷ bs) in
    let place = find_child b no_children cs in
    let next = next_child place token in
    value_of-node (add_path (suc fuel) n (b ∷ bs) v).tree s
      (add_path-is_valid (suc fuel) n (b ∷ bs) v h)
    ∙ rw (value_of-node n s h) (elim (Bool-cases (b == 42)) [
      | inl free ↦ rw free (add_catch_all-node_value n bs v s)
      | inr no_free ↦ elim (Bool-cases (b == 58)) [
        | inl colon ↦
            let child = child_or_new w wildcard_path false in
            let sub = add_path fuel child (next_token (b ∷ bs)) v in
            let below = λ (r : List Segment).
              add_path-inserted fuel child (next_token (b ∷ bs)) v r
                (child_or_new-is_valid w wildcard_path false (ground arith))
              ∙ ap (λ t. inserted (succeeded sub.error) t v r (value_of child r))
                  (pattern_of-name b bs colon) in
            rw (no_free, colon)
              (wildcard-node_value p pr cs w c ca leaf sub.tree (succeeded sub.error)
                (pattern_from true bs) v s below)
        | inr plain ↦ elim (Bool-cases (has_wildcard token)) [
          | inl inside ↦ rw (no_free, plain, inside) refl
          | inr fine ↦
              let vs : are_valid cs ≡ true = ground arith in
              let rest = drop next.1 (b ∷ bs) in
              let sub = add_path fuel next.0 rest v in
              let fits = next_child-Fits b cs bs place vs refl in
              let first : pattern_of (b ∷ bs) ≡ literal b ∷ pattern_of bs =
                rw (no_free, plain) refl in
              let below =
                sub-value_at b bs cs sub.tree (succeeded sub.error) v
                  (add_path-path_of fuel next.0 rest v) fine
                  (λ r. add_path-inserted fuel next.0 rest v r fits.0) in
              rw (no_free, plain, fine)
                (static-node_value p pr cs w c ca leaf sub.tree b place (succeeded sub.error)
                  (pattern_of bs) v s vs refl
                  (λ r.
                    below r
                    ∙ ap (λ t. inserted (succeeded sub.error) t v r (value_at (child_at b cs) r))
                        first))
        ]
      ]
    ])
