-- ===== src/Pathmux/Add/Enough.antt =====
-- The fuel of addPath of pathmux/tree.go: the length of the path is enough.
use skipper.Prelude.{
  ℕ, zero, suc, ◌≡◌, ◌≤◌, ◌<◌, ◌≢◌, sym, ap, ◌∙◌, refl, Bool, true, false, List, [], ◌∷◌, Option,
  none, some, ◌==◌, drop, length, Bool-cases, Option-cases, inl, inr, arith,
}
use skipper.Pathmux.Search.{Node, node, Children, no_children, path_of, after_prefix, next_token}
use skipper.Pathmux.Search.Entries.{starts_with, are_valid, is_valid}
use skipper.Pathmux.Add.{
  Place, AddError, out_of_fuel, add_catch_all, token_of, common_prefix_len, split_common_prefix,
  find_child, child_or_new, next_child, wildcard_path, add_path,
}
use skipper.Pathmux.Add.Valid.{next_child-Fits, child_or_new-is_valid, token_of-starts}
use skipper.Pathmux.Add.Static.{find_child-FoundAt}

common_prefix_len-positive :
    (b : ℕ) (p t : List ℕ)
    → starts_with b p ≡ true
    → starts_with b t ≡ true
    → 0 < common_prefix_len p t
unfolding common_prefix_len
common_prefix_len-positive b [] t h k = absurd (ground arith)
common_prefix_len-positive b (x ∷ p) [] h k = absurd (ground arith)
common_prefix_len-positive b (x ∷ p) (y ∷ t) h k = ground arith

length-positive : (b : ℕ) (p : List ℕ) → starts_with b p ≡ true → 0 < length p
length-positive b [] h = absurd (ground arith)
length-positive b (x ∷ p) h = omega arith

length-next_token : (bs : List ℕ) → length (next_token bs) ≤ length bs
unfolding next_token
length-next_token [] = omega arith
length-next_token (b ∷ bs) = ground (arith, length-next_token bs)

length-drop : (n : ℕ) (bs : List ℕ) → length (drop n bs) ≤ length bs
length-drop zero bs = omega arith
length-drop (suc n) [] = omega arith
length-drop (suc n) (b ∷ bs) = omega (arith, length-drop n bs)

length-drop_positive : (n b : ℕ) (bs : List ℕ) → 0 < n → length (drop n (b ∷ bs)) ≤ length bs
length-drop_positive zero b bs h = absurd (omega arith)
length-drop_positive (suc n) b bs h = length-drop n bs

next_child-positive :
    (b : ℕ) (cs : Children) (bs : List ℕ) (o : Option Place)
    → are_valid cs ≡ true
    → find_child b no_children cs ≡ o
    → 0 < (next_child o (token_of (b ∷ bs))).1
unfolding split_common_prefix are_valid
next_child-positive b cs bs none v e = length-positive b (token_of (b ∷ bs)) (token_of-starts b bs)
next_child-positive b cs bs (some x) v e =
    let at = find_child-FoundAt b no_children cs x refl v refl e in
    elim (Option-cases (after_prefix (path_of x.found) (token_of (b ∷ bs)))) [
      | inl h ↦
          rw (h, split_common_prefix)
            (common_prefix_len-positive b (path_of x.found) (token_of (b ∷ bs)) at.starts
              (token_of-starts b bs))
      | inr (r, h) ↦ rw (h, split_common_prefix) (length-positive b (path_of x.found) at.starts)
    ]

length-wildcard : (b : ℕ) (bs : List ℕ) → b ≡ 58 → length (next_token (b ∷ bs)) ≤ length bs
unfolding next_token
length-wildcard b bs h = ground (arith, length-next_token bs)

add_path-agree :
    (fuel more : ℕ) (n : Node) (path : List ℕ) (v : ℕ)
    → is_valid n ≡ true
    → length path ≤ fuel
    → length path ≤ more
    → add_path fuel n path v ≡ add_path more n path v
unfolding add_path is_valid
add_path-agree fuel more n [] v h le le' = refl
add_path-agree zero more n (b ∷ bs) v h le le' = absurd (omega arith)
add_path-agree (suc fuel) zero n (b ∷ bs) v h le le' = absurd (omega arith)
add_path-agree (suc fuel) (suc more) (node p pr cs w c ca leaf) (b ∷ bs) v h le le' =
    let vs : are_valid cs ≡ true = ground arith in
    let place = find_child b no_children cs in
    let next = next_child place (token_of (b ∷ bs)) in
    let shorter = length-drop_positive next.1 b bs (next_child-positive b cs bs place vs refl) in
    let static =
      add_path-agree fuel more next.0 (drop next.1 (b ∷ bs)) v
        (next_child-Fits b cs bs place vs refl).0 (omega (arith, shorter))
        (omega (arith, shorter)) in
    let child : is_valid (child_or_new w wildcard_path false) ≡ true =
      child_or_new-is_valid w wildcard_path false (ground arith) in
    elim (Bool-cases (b == 58)) [
      | inl colon ↦
          let rest = length-wildcard b bs (ground arith) in
          let below =
            add_path-agree fuel more (child_or_new w wildcard_path false) (next_token (b ∷ bs)) v
              child (omega (arith, rest)) (omega (arith, rest)) in
          ground (arith, below, static)
      | inr other ↦ ground (arith, static)
    ]

abbrev ended : AddError → Bool
ended out_of_fuel = false
ended _ = true

add_catch_all-ended :
    (n : Node) (name : List ℕ) (v : ℕ) → ended (add_catch_all n name v).error ≡ true
unfolding add_catch_all
add_catch_all-ended (node p pr cs w c ca leaf) name v = ground arith

add_path-ended :
    (fuel : ℕ) (n : Node) (path : List ℕ) (v : ℕ)
    → is_valid n ≡ true
    → length path ≤ fuel
    → ended (add_path fuel n path v).error ≡ true
unfolding add_path is_valid
add_path-ended fuel n [] v h le = refl
add_path-ended zero n (b ∷ bs) v h le = absurd (omega arith)
add_path-ended (suc fuel) (node p pr cs w c ca leaf) (b ∷ bs) v h le =
    let vs : are_valid cs ≡ true = ground arith in
    let place = find_child b no_children cs in
    let next = next_child place (token_of (b ∷ bs)) in
    let shorter = length-drop_positive next.1 b bs (next_child-positive b cs bs place vs refl) in
    let static =
      add_path-ended fuel next.0 (drop next.1 (b ∷ bs)) v (next_child-Fits b cs bs place vs refl).0
        (omega (arith, shorter)) in
    let child : is_valid (child_or_new w wildcard_path false) ≡ true =
      child_or_new-is_valid w wildcard_path false (ground arith) in
    let free = add_catch_all-ended (node p pr cs w c ca leaf) bs v in
    elim (Bool-cases (b == 58)) [
      | inl colon ↦
          let rest = length-wildcard b bs (ground arith) in
          let below =
            add_path-ended fuel (child_or_new w wildcard_path false) (next_token (b ∷ bs)) v child
              (omega (arith, rest)) in
          ground (arith, below, static, free)
      | inr other ↦ ground (arith, static, free)
    ]

-- In a valid tree a fuel of the length of the path, or any higher one, does not run out, and gives
-- the same, so that addPath ends.
pub add_path-enough :
    (fuel : ℕ) (n : Node) (path : List ℕ) (v : ℕ)
    → is_valid n ≡ true
    → length path ≤ fuel
    → ((add_path fuel n path v).error ≢ out_of_fuel)
      × (add_path fuel n path v ≡ add_path (length path) n path v)
add_path-enough fuel n path v h le =
    let ends = add_path-ended fuel n path v h le in
    (
      (λ e. absurd (ground (arith, sym (ap ended e) ∙ ends))),
      add_path-agree fuel (length path) n path v h le (omega arith),
    )
