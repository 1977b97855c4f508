-- ===== src/Pathmux/Add.antt =====
-- pathmux/tree.go: Add, addPath, splitCommonPrefix and sortStaticChild, which change the tree in
-- place; here they return the changed tree, also where they fail. The fuel of addPath is the length
-- of the path, of which every call takes a part; a call without fuel returns an error of its own,
-- that addPath does not have.
pub mod Static
pub mod Valid
pub mod Enough
pub mod Places
pub mod Patterns
pub mod Split
pub mod Branches
pub mod Insert
pub mod Plain
mod Tests
use skipper.Prelude.{
  ℕ, zero, suc, ◌+◌, Bool, true, false, ◌&&◌, ◌||◌, List, [], ◌∷◌, Option, none, some, ◌==◌, ltb,
  if◌then◌else◌, length, take, drop, any,
}
use skipper.Pathmux.Search.{
  Node, node, Children, no_children, child, Child, nil, the, path_of, slash, this_token, next_token,
  after_prefix,
}

pub data AddError : Type 0 where
  no_error : AddError
  other_catch_all : AddError
  slash_after_catch_all : AddError
  wildcard_in_middle : AddError
  -- Not an error of the code: the recursion of addPath has not ended.
  out_of_fuel : AddError

pub record Added : Type 0 where
  pub tree : Node
  pub error : AddError

abbrev pub new_node : List ℕ → Bool → Node
new_node path ca = node path 0 no_children nil nil ca none

abbrev pub priority_of : Node → ℕ
priority_of (node _ pr _ _ _ _ _) = pr

-- The token up to the next slash, or the slash.
abbrev pub token_of : List ℕ → List ℕ
token_of [] = []
token_of (b ∷ bs) = if b == slash then b ∷ [] else b ∷ this_token bs

abbrev pub has_wildcard : List ℕ → Bool
has_wildcard token = any (λ b. b == 58 || b == 42) token

unfoldable pub common_prefix_len : List ℕ → List ℕ → ℕ
common_prefix_len [] ys = 0
common_prefix_len (x ∷ xs) [] = 0
common_prefix_len (x ∷ xs) (y ∷ ys) = if x == y then suc (common_prefix_len xs ys) else 0

abbrev pub first_byte : List ℕ → ℕ
first_byte [] = 0
first_byte (b ∷ bs) = b

abbrev pub drop_path : ℕ → Node → Node
drop_path i (node p pr cs w c ca v) = node (drop i p) pr cs w c ca v

-- The node for the common prefix, and how much of the path it takes.
unfoldable pub split_common_prefix : Node → List ℕ → Node × ℕ
split_common_prefix n token = elim (after_prefix (path_of n) token) [
  | some rest ↦ (n, length (path_of n))
  | none ↦
      let i = common_prefix_len (path_of n) token in
      let old = drop_path i n in
      (
        node (take i token) (priority_of n) (child (first_byte (path_of old)) old no_children) nil
            nil false none,
        i,
      )
]

abbrev pub raise : Node → Node
raise (node p pr cs w c ca v) = node p (pr + 1) cs w c ca v

-- sortStaticChild: the child moves before those that come before it, the nearest first, while its
-- priority is higher.
unfoldable pub put_back : Children → Children → Children
put_back no_children after = after
put_back (child i n before) after = put_back before (child i n after)

unfoldable pub sort_static_child : Children → ℕ → Node → Children → Children
sort_static_child no_children i n after = child i n after
sort_static_child (child j m before) i n after =
    let moved = sort_static_child before i n (child j m after) in
    if ltb (priority_of m) (priority_of n)
    then moved
    else put_back (child j m before) (child i n after)

-- The children before the one with the byte, the nearest first, that one, and those after it.
pub record Place : Type 0 where
  pub before : Children
  pub found : Node
  pub after : Children

unfoldable pub find_child : ℕ → Children → Children → Option Place
find_child b before no_children = none
find_child b before (child i n cs) =
    let later = find_child b (child i n before) cs in
    if b == i then some (record { before = before; found = n; after = cs }) else later

unfoldable pub append_child : Children → ℕ → Node → Children
append_child no_children b n = child b n no_children
append_child (child i m cs) b n = child i m (append_child cs b n)

abbrev pub child_or_new : Child → List ℕ → Bool → Node
child_or_new nil path ca = new_node path ca
child_or_new (the n) path ca = n

abbrev pub with_leaf : Node → ℕ → Node
with_leaf (node p pr cs w c ca leaf) v = node p pr cs w c ca (some v)

unfoldable pub same_path : List ℕ → List ℕ → Bool
same_path [] [] = true
same_path [] (y ∷ ys) = false
same_path (x ∷ xs) [] = false
same_path (x ∷ xs) (y ∷ ys) = x == y && same_path xs ys

abbrev pub no_slash : List ℕ → Bool
no_slash [] = true
no_slash (b ∷ bs) = false

abbrev pub wildcard_path : List ℕ
wildcard_path = 119 ∷ 105 ∷ 108 ∷ 100 ∷ 99 ∷ 97 ∷ 114 ∷ 100 ∷ []

-- The node under which a path ends gets the value, as Add does with the node that addPath returns.
unfoldable pub add_catch_all : Node → List ℕ → ℕ → Added
add_catch_all (node p pr cs w c ca leaf) name v =
    let end = child_or_new c (this_token name) true in
    if same_path name (path_of end)
    then (if no_slash (next_token name)
        then record { tree = node p pr cs w (the (with_leaf end v)) ca leaf; error = no_error }
        else record { tree = node p pr cs w (the end) ca leaf; error = slash_after_catch_all })
    else record { tree = node p pr cs w (the end) ca leaf; error = other_catch_all }

abbrev pub placed : Children → Option Place → ℕ → Node → Children
placed cs none b n = append_child cs b n
placed cs (some x) b n = sort_static_child x.before b n x.after

-- The child to go on with, raised if it was there, and how much of the path it takes.
abbrev pub next_child : Option Place → List ℕ → Node × ℕ
next_child none token = (new_node token false, length token)
next_child (some x) token = let (n, i) = split_common_prefix x.found token in (raise n, i)

unfoldable pub add_path : ℕ → Node → List ℕ → ℕ → Added
add_path fuel n [] v = record { tree = with_leaf n v; error = no_error }
add_path zero n (b ∷ bs) v = record { tree = n; error = out_of_fuel }
add_path (suc fuel) (node p pr cs w c ca leaf) (b ∷ bs) v =
    let token = token_of (b ∷ bs) in
    let below = add_path fuel (child_or_new w wildcard_path false) (next_token (b ∷ bs)) v in
    let place = find_child b no_children cs in
    let next = next_child place token in
    let sub = add_path fuel next.0 (drop next.1 (b ∷ bs)) v in
    if b == 42
    then add_catch_all (node p pr cs w c ca leaf) bs v
    else if b == 58
    then record { tree = node p pr cs (the below.tree) c ca leaf; error = below.error }
    else if has_wildcard token
    then record { tree = node p pr cs w c ca leaf; error = wildcard_in_middle }
    else record { tree = node p pr (placed cs place b sub.tree) w c ca leaf; error = sub.error }

-- Add; none where it panics on the empty path. The first byte is not looked at.
unfoldable pub add : Node → List ℕ → ℕ → Option Added
add n [] v = none
add n (b ∷ bs) v = some (add_path (length bs) n bs v)
