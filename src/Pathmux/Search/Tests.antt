-- ===== src/Pathmux/Search/Tests.antt =====
-- Tests and instances for search of pathmux/tree.go: a tree that holds /a/x, /:id and /*rest.
use skipper.Prelude.{ℕ, ◌≡◌, refl, false, true, [], ◌∷◌, Option, none, some, ◌==◌, if◌then◌else◌}
use skipper.Pathmux.Search.{
  Node, node, no_children, child, nil, the, found_leaf, search, search_catch_all, after_prefix,
  this_token, next_token, unescaped, query_unescape,
}
use skipper.Pathmux.Search.Entries.{entries, first_match, is_valid}
use skipper.Pathmux.Search.Exact.{search-first_match}

abbrev leaf : Option ℕ → Node
leaf v = node [] 0 no_children nil nil true v

abbrev tree : Node
tree =
    node [] 0
      (child 97
        (node (97 ∷ []) 0
          (child 47
            (node (47 ∷ []) 0
              (child 120 (node (120 ∷ []) 0 no_children nil nil false (some 1)) no_children) nil nil
              false none)
            no_children)
          nil nil false none)
        no_children)
      (the (node [] 0 no_children nil nil false (some 2))) (the (leaf (some 3))) false none

-- A matcher that does not take the value 2.
abbrev no_two : Option ℕ → Option ℕ
no_two none = none
no_two (some v) = if v == 2 then none else some v

tree-is_valid : is_valid tree ≡ true
unfolding is_valid
tree-is_valid = refl

-- /a/x is found in the static children, and /a is the second route unless the matcher refuses it.
finds_static :
    search no_two tree (97 ∷ 47 ∷ 120 ∷ [])
    ≡ some (record { leaf = some 1; params = []; value = 1 })
unfolding search found_leaf after_prefix
finds_static = refl

falls_back :
    search no_two tree (97 ∷ [])
    ≡ some (record { leaf = some 3; params = (97 ∷ []) ∷ []; value = 3 })
unfolding search found_leaf after_prefix this_token next_token unescaped query_unescape
    search_catch_all
falls_back = refl

search-first_match_example :
    search no_two tree (97 ∷ []) ≡ first_match no_two (entries tree) (97 ∷ [])
search-first_match_example = search-first_match no_two tree (97 ∷ []) tree-is_valid
