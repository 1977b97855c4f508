-- ===== src/Routing/Matcher/Found.antt =====
-- matchPathTree and match of routing/matcher.go: the route of a request.
pub mod Entry
pub mod Sound
use skipper.Prelude.{
  ℕ, zero, suc, ◌+◌, Bool, true, false, List, [], ◌∷◌, ◌++◌, Option, none, some, ◌==◌,
  if◌then◌else◌, length, get_elem?, ltb, min, ◌&&◌,
}
use skipper.Prelude.Map.{insert}
use skipper.Prelude.Bytes.{Bytes, codes, bytes_eq, bytes_key}
use skipper.Pathmux.Search.{Node, Found, lookup_matcher}
use skipper.Routing.Matcher.{Request, Route, Leaf, match_leaves}
use skipper.Routing.Matcher.Paths.{trim_trailing_slash}
use skipper.Routing.Matcher.Build.{Matcher}

-- The loop over the first l of params and names.
unfoldable pub fill_params : List (Bytes × Bytes) → List Bytes → List Bytes → List (Bytes × Bytes)
fill_params m (name ∷ names) (p ∷ ps) = fill_params (insert name p m) names ps
fill_params m _ _ = m

abbrev pub first_of : List Bytes → Bytes
first_of [] = []
first_of (s ∷ ss) = s

module _ (Regexp : Type 0) (match_string : Regexp → Bytes → Bool) (compile : Bytes → Option Regexp)
    (clean canonical_header_key : Bytes → Bytes) where
  -- paramsMap, with an empty text in front for the match of a subtree.
  unfoldable pub params_map : Leaf Regexp match_string → List Bytes → List (Bytes × Bytes)
  params_map lm params =
      let names = lm.wildcard_param_names in
      let ps = if length names == length params + 1 then [] ∷ params else params in
      let m = fill_params [] names ps in
      if ltb 0 (min (length ps) (length names)) && lm.has_free_wildcard_param
      then insert (first_of names) (codes "/" ++ first_of ps) m
      else m

  abbrev TheMatcher : Type 0
  TheMatcher = Matcher Regexp match_string compile clean canonical_header_key

  module _ (m : TheMatcher) (r : Request) where
    -- The path that is looked up.
    abbrev pub request_path : Bytes
    request_path =
        if m.ignore_trailing_slash then trim_trailing_slash (clean r.url_path) else clean r.url_path

    -- The leaf that a value of the tree has for the request.
    abbrev pub leaf_for : Option ℕ → Option (Leaf Regexp match_string)
    leaf_for none = none
    leaf_for (some n) = elim (get_elem? m.path_leaves n) [
      | none ↦ none
      | some ls ↦ match_leaves Regexp match_string ls r request_path (clean r.url_path)
    ]

    -- Match of leafRequestMatcher, which answers with the value whose leaf it found.
    abbrev pub tree_match : Option ℕ → Option ℕ
    tree_match v = elim (leaf_for v) [ none ↦ none | some _ ↦ v ]

    unfoldable pub match_path_tree : Option (List (Bytes × Bytes) × Leaf Regexp match_string)
    match_path_tree = elim (lookup_matcher tree_match m.paths request_path) [
      | none ↦ none
      | some found ↦ elim (leaf_for (some found.value)) [
        | none ↦ none
        | some lm ↦ some (params_map lm found.params, lm)
      ]
    ]

    -- match: the route and the parameters, which are nil for a root leaf.
    unfoldable pub match_request : Option (Route × Option (List (Bytes × Bytes)))
    match_request = elim match_path_tree [
      | some found ↦ some (found.1.route, some found.0)
      | none ↦
          elim (match_leaves Regexp match_string m.root_leaves r request_path (clean r.url_path)) [
            | some l ↦ some (l.route, none)
            | none ↦ none
          ]
    ]
