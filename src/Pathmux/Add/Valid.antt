-- ===== src/Pathmux/Add/Valid.antt =====
-- Adding a path to the tree of pathmux/tree.go keeps the tree valid, also where it fails.
use skipper.Prelude.{
  ℕ, zero, suc, ◌≡◌, refl, Bool, true, false, List, [], ◌∷◌, Option, none, some, ◌==◌, take, drop,
  Bool-cases, Option-cases, inl, inr, arith,
}
use skipper.Pathmux.Search.{
  Node, node, Children, no_children, Child, nil, the, path_of, after_prefix, this_token, next_token,
}
use skipper.Pathmux.Search.Entries.{starts_with, is_valid, are_valid, is_valid_child}
use skipper.Pathmux.Add.{
  Place, token_of, common_prefix_len, first_byte, split_common_prefix, raise, find_child,
  child_or_new, with_leaf, add_catch_all, placed, next_child, wildcard_path, add_path,
}
use skipper.Pathmux.Add.Static.{
  find_child-FoundAt, find_child-none, sort_static_child-are_valid, append_child-are_valid,
}

-- The rest of a path after the common prefix has a first byte, where the path is no prefix.
drop-common_prefix_len :
    (p t : List ℕ)
    → after_prefix p t ≡ none
    → starts_with (first_byte (drop (common_prefix_len p t) p)) (drop (common_prefix_len p t) p)
      ≡ true
unfolding after_prefix common_prefix_len
drop-common_prefix_len [] t h = absurd (ground arith)
drop-common_prefix_len (x ∷ p) [] h = ground arith
drop-common_prefix_len (x ∷ p) (y ∷ t) h = elim (Bool-cases (x == y)) [
  | inl same ↦ rw same (drop-common_prefix_len p t (rw same at h))
  | inr other ↦ rw other (ground arith)
]

take-common_prefix_len :
    (b : ℕ) (p t : List ℕ)
    → starts_with b p ≡ true
    → starts_with b t ≡ true
    → starts_with b (take (common_prefix_len p t) t) ≡ true
unfolding common_prefix_len
take-common_prefix_len b [] t h k = absurd (ground arith)
take-common_prefix_len b (x ∷ p) [] h k = absurd (ground arith)
take-common_prefix_len b (x ∷ p) (y ∷ t) h k =
    let same : (x == y) ≡ true = ground arith in rw same k

-- A child that is to go on with: valid, and its path starts with the byte.
abbrev pub Fits : ℕ → Node → Type 0
Fits b n = (is_valid n ≡ true) × (starts_with b (path_of n) ≡ true)

split_common_prefix-Fits :
    (b : ℕ) (n : Node) (token : List ℕ)
    → Fits b n
    → starts_with b token ≡ true
    → Fits b (split_common_prefix n token).0
unfolding split_common_prefix is_valid
split_common_prefix-Fits b (node p pr cs w c ca leaf) token (v, s) t =
    elim (Option-cases (after_prefix p token)) [
      | inl h ↦
          let first = drop-common_prefix_len p token h in
          let prefix = take-common_prefix_len b p token s t in
          rw (h, split_common_prefix) (ground (arith, first), prefix)
      | inr (r, h) ↦ rw (h, split_common_prefix) (v, s)
    ]

raise-Fits : (b : ℕ) (n : Node) → Fits b n → Fits b (raise n)
unfolding is_valid
raise-Fits b (node p pr cs w c ca leaf) f = f

pub token_of-starts : (b : ℕ) (bs : List ℕ) → starts_with b (token_of (b ∷ bs)) ≡ true
token_of-starts b bs = ground arith

pub next_child-Fits :
    (b : ℕ) (cs : Children) (bs : List ℕ) (o : Option Place)
    → are_valid cs ≡ true
    → find_child b no_children cs ≡ o
    → Fits b (next_child o (token_of (b ∷ bs))).0
unfolding is_valid
next_child-Fits b cs bs none v e = (refl, token_of-starts b bs)
next_child-Fits b cs bs (some x) v e =
    let at = find_child-FoundAt b no_children cs x refl v refl e in
    raise-Fits b (split_common_prefix x.found (token_of (b ∷ bs))).0 (
      split_common_prefix-Fits b x.found (token_of (b ∷ bs)) (at.valid, at.starts)
        (token_of-starts b bs))

placed-are_valid :
    (b : ℕ) (cs : Children) (n : Node) (o : Option Place)
    → are_valid cs ≡ true
    → find_child b no_children cs ≡ o
    → Fits b n
    → are_valid (placed cs o b n) ≡ true
unfolding are_valid
placed-are_valid b cs n none v e (u, s) =
    append_child-are_valid cs b n v (find_child-none b no_children cs e) s u
placed-are_valid b cs n (some x) v e (u, s) =
    let at = find_child-FoundAt b no_children cs x refl v refl e in
    sort_static_child-are_valid x.before b n x.after at.before_valid at.after_valid at.apart
      at.not_before at.not_after s u

with_leaf-is_valid : (n : Node) (v : ℕ) → is_valid n ≡ true → is_valid (with_leaf n v) ≡ true
unfolding is_valid
with_leaf-is_valid (node p pr cs w c ca leaf) v h = h

with_leaf-path_of : (n : Node) (v : ℕ) → path_of (with_leaf n v) ≡ path_of n
with_leaf-path_of (node p pr cs w c ca leaf) v = refl

pub child_or_new-is_valid :
    (c : Child) (path : List ℕ) (ca : Bool)
    → is_valid_child c ≡ true
    → is_valid (child_or_new c path ca) ≡ true
unfolding is_valid
child_or_new-is_valid nil path ca h = refl
child_or_new-is_valid (the n) path ca h = h

add_catch_all-is_valid :
    (n : Node) (name : List ℕ) (v : ℕ)
    → is_valid n ≡ true
    → is_valid (add_catch_all n name v).tree ≡ true
unfolding add_catch_all is_valid
add_catch_all-is_valid (node p pr cs w c ca leaf) name v h =
    let end = child_or_new c (this_token name) true in
    let valid : is_valid end ≡ true =
      child_or_new-is_valid c (this_token name) true (ground arith) in
    ground (arith, valid, with_leaf-is_valid end v valid)

add_catch_all-path_of :
    (n : Node) (name : List ℕ) (v : ℕ) → path_of (add_catch_all n name v).tree ≡ path_of n
unfolding add_catch_all
add_catch_all-path_of (node p pr cs w c ca leaf) name v = ground arith

pub add_path-path_of :
    (fuel : ℕ) (n : Node) (path : List ℕ) (v : ℕ)
    → path_of (add_path fuel n path v).tree ≡ path_of n
unfolding add_path
add_path-path_of fuel n [] v = with_leaf-path_of n v
add_path-path_of zero n (b ∷ bs) v = refl
add_path-path_of (suc fuel) (node p pr cs w c ca leaf) (b ∷ bs) v =
    ground (arith, add_catch_all-path_of (node p pr cs w c ca leaf) bs v)

-- Adding a path keeps the tree valid, also where it fails: below each node the static children have
-- different first bytes, and each is found by the first byte of its path.
pub add_path-is_valid :
    (fuel : ℕ) (n : Node) (path : List ℕ) (v : ℕ)
    → is_valid n ≡ true
    → is_valid (add_path fuel n path v).tree ≡ true
unfolding add_path is_valid
add_path-is_valid fuel n [] v h = with_leaf-is_valid n v h
add_path-is_valid zero n (b ∷ bs) v h = h
add_path-is_valid (suc fuel) (node p pr cs w c ca leaf) (b ∷ bs) v h =
    let vs : are_valid cs ≡ true = ground arith in
    let place = find_child b no_children cs in
    let next = next_child place (token_of (b ∷ bs)) in
    let fits = next_child-Fits b cs bs place vs refl in
    let sub = add_path fuel next.0 (drop next.1 (b ∷ bs)) v in
    let static : are_valid (placed cs place b sub.tree) ≡ true =
      placed-are_valid b cs sub.tree place vs refl (
        add_path-is_valid fuel next.0 (drop next.1 (b ∷ bs)) v fits.0,
        rw (add_path-path_of fuel next.0 (drop next.1 (b ∷ bs)) v) fits.1,
      ) in
    let below : is_valid
          (add_path fuel (child_or_new w wildcard_path false) (next_token (b ∷ bs)) v).tree
        ≡ true =
      add_path-is_valid fuel (child_or_new w wildcard_path false) (next_token (b ∷ bs)) v
        (child_or_new-is_valid w wildcard_path false (ground arith)) in
    let free = add_catch_all-is_valid (node p pr cs w c ca leaf) bs v h in
    ground (arith, static, below, free)
