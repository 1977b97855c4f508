-- ===== src/Pathmux/Add/Tests.antt =====
-- Tests and instances for Add of pathmux/tree.go.
use skipper.Prelude.{
  ℕ, ◌≡◌, ◌≢◌, refl, true, false, [], ◌∷◌, List, none, some, Option, arith, if◌then◌else◌,
}
use skipper.Pathmux.Search.{
  Node, node, no_children, nil, the, search, search_catch_all, found_leaf, after_prefix, this_token,
  next_token, unescaped, query_unescape, lookup_matcher,
}
use skipper.Pathmux.Search.Entries.{is_valid}
use skipper.Pathmux.Add.{
  no_error, other_catch_all, out_of_fuel, new_node, add, add_path, add_catch_all,
  split_common_prefix, sort_static_child, find_child, append_child, common_prefix_len, same_path,
  put_back,
}
use skipper.Pathmux.Add.Valid.{add_path-is_valid}
use skipper.Pathmux.Add.Enough.{add_path-enough}
use skipper.Pathmux.Search.Entries.{Segment, literal}
use skipper.Pathmux.Search.Values.{value_of, same_pattern}
use skipper.Pathmux.Add.Patterns.{pattern_of}
use skipper.Pathmux.Add.Split.{succeeded, inserted}
use skipper.Pathmux.Add.Insert.{add_path-inserted}
use skipper.Pathmux.Add.Plain.{add_path-sets, is_plain, is_plain_from}

-- A matcher that takes every value there is.
abbrev every : Option ℕ → Option ℕ
every v = v

abbrev empty : Node
empty = new_node [] false

-- /ab, /ac, /:id and /*rest.
abbrev paths : List (List ℕ × ℕ)
paths =
    (47 ∷ 97 ∷ 98 ∷ [], 1)
    ∷ (47 ∷ 97 ∷ 99 ∷ [], 2)
    ∷ (47 ∷ 58 ∷ 105 ∷ 100 ∷ [], 3)
    ∷ (47 ∷ 42 ∷ 114 ∷ [], 4)
    ∷ []

-- The paths with their values are added in turn; one that fails is skipped.
unfoldable add_all : Node → List (List ℕ × ℕ) → Node
add_all n [] = n
add_all n ((path, v) ∷ rest) = elim (add n path v) [
  | none ↦ add_all n rest
  | some a ↦ add_all a.tree rest
]

finds_split :
    lookup_matcher every (add_all empty paths) (47 ∷ 97 ∷ 99 ∷ [])
    ≡ some (record { leaf = some 2; params = []; value = 2 })
unfolding lookup_matcher add_all add add_path add_catch_all split_common_prefix sort_static_child
    find_child append_child common_prefix_len same_path put_back search search_catch_all found_leaf
    after_prefix this_token next_token
finds_split = refl

finds_wildcard :
    lookup_matcher every (add_all empty paths) (47 ∷ 97 ∷ [])
    ≡ some (record { leaf = some 3; params = (97 ∷ []) ∷ []; value = 3 })
unfolding lookup_matcher add_all add add_path add_catch_all split_common_prefix sort_static_child
    find_child append_child common_prefix_len same_path put_back search search_catch_all found_leaf
    after_prefix this_token next_token unescaped query_unescape
finds_wildcard = refl

-- A second name for the free wildcard is refused.
refused :
    (add_path 2
      (node [] 0 no_children nil
        (the (node (114 ∷ []) 0 no_children nil nil true (some 4)))
        false
        none)
      (42 ∷ 115 ∷ [])
      5).error
    ≡ other_catch_all
unfolding add_path add_catch_all same_path this_token next_token
refused = refl

empty-is_valid : is_valid empty ≡ true
unfolding is_valid
empty-is_valid = refl

add_path-is_valid_example : is_valid (add_path 2 empty (97 ∷ 98 ∷ []) 1).tree ≡ true
add_path-is_valid_example = add_path-is_valid 2 empty (97 ∷ 98 ∷ []) 1 empty-is_valid

add_path-enough_example :
    ((add_path 7 empty (97 ∷ 98 ∷ []) 1).error ≢ out_of_fuel)
    × (add_path 7 empty (97 ∷ 98 ∷ []) 1 ≡ add_path 2 empty (97 ∷ 98 ∷ []) 1)
add_path-enough_example = add_path-enough 7 empty (97 ∷ 98 ∷ []) 1 empty-is_valid (omega arith)

-- The tree with /ab.
abbrev with_ab : Node
with_ab = (add_path 2 empty (97 ∷ 98 ∷ []) 1).tree

with_ab-is_valid : is_valid with_ab ≡ true
with_ab-is_valid = add_path-is_valid 2 empty (97 ∷ 98 ∷ []) 1 empty-is_valid

-- The pattern of /ab, which /ac splits.
abbrev pattern_ab : List Segment
pattern_ab = literal 97 ∷ literal 98 ∷ []

add_path-inserted_example :
    value_of (add_path 2 with_ab (97 ∷ 99 ∷ []) 2).tree pattern_ab
    ≡ inserted
        (succeeded (add_path 2 with_ab (97 ∷ 99 ∷ []) 2).error)
        (pattern_of (97 ∷ 99 ∷ []))
        2
        pattern_ab
        (value_of with_ab pattern_ab)
add_path-inserted_example = add_path-inserted 2 with_ab (97 ∷ 99 ∷ []) 2 pattern_ab with_ab-is_valid

-- /a/:b.
abbrev with_name : List ℕ
with_name = 97 ∷ 47 ∷ 58 ∷ 98 ∷ []

with_name-is_plain : is_plain with_name ≡ true
unfolding is_plain_from
with_name-is_plain = refl

add_path-sets_example :
    ((add_path 4 with_ab with_name 2).error ≡ no_error)
    × ((s : List Segment)
        → value_of (add_path 4 with_ab with_name 2).tree s
          ≡ (if same_pattern s (pattern_of with_name) then some 2 else value_of with_ab s))
add_path-sets_example =
    add_path-sets 4 with_ab with_name 2 with_ab-is_valid (omega arith) with_name-is_plain
