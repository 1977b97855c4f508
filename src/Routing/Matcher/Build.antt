-- ===== src/Routing/Matcher/Build.antt =====
-- newLeaf and newMatcher of routing/matcher.go.
use skipper.Prelude.{
  ℕ, ◌+◌, Bool, false, List, [], ◌∷◌, ◌++◌, Option, none, some, if◌then◌else◌, ◌>>=◌, not,
}
use skipper.Prelude.Map.{lookup, insert, MapRange}
use skipper.Prelude.Bytes.{Bytes, bytes_eq, bytes_key}
use skipper.Prelude.Sort.{sort_by}
use skipper.Pathmux.Search.{Node}
use skipper.Pathmux.Add.{AddError, add, new_node, no_error}
use skipper.Routing.Matcher.{Route, Leaf, less}
use skipper.Routing.Matcher.Paths.{
  extract_wildcard_param_names, has_free_wildcard_param, normalize_path, trim_trailing_slash,
  subtree_paths,
}

-- Regexp, Compile and MatchString of package regexp, Clean of httppath and CanonicalHeaderKey of
-- net/http.
module _ (Regexp : Type 0) (match_string : Regexp → Bytes → Bool) (compile : Bytes → Option Regexp)
    (clean canonical_header_key : Bytes → Bytes) where
  -- The expressions that are compiled already; a failure to compile is none.
  abbrev pub Compiled : Type 0
  Compiled = List (Bytes × Regexp)

  unfoldable pub get_compiled_rxs : Compiled → List Bytes → Option (Compiled × List Regexp)
  get_compiled_rxs compiled [] = some (compiled, [])
  get_compiled_rxs compiled (exp ∷ exps) = elim (lookup exp compiled) [
    | some rx ↦ do (more, rxs) ← get_compiled_rxs compiled exps; some (more, rx ∷ rxs)
    | none ↦ do
      rx ← compile exp
      (more, rxs) ← get_compiled_rxs (insert exp rx compiled) exps
      some (more, rx ∷ rxs)
  ]

  -- The loop of newLeaf over HeaderRegexps.
  unfoldable pub get_header_rxs :
      Compiled → List (Bytes × List Bytes) → Option (Compiled × List (Bytes × List Regexp))
  get_header_rxs compiled [] = some (compiled, [])
  get_header_rxs compiled ((k, exps) ∷ m) = do
    (more, rxs) ← get_compiled_rxs compiled exps
    (most, rest) ← get_header_rxs more m
    some (most, (k, rxs) ∷ rest)

  -- canonicalizeHeaders and canonicalizeHeaderRegexps, where the list of the headers stands for the
  -- map, in the order in which range goes over it: of two keys that are one, the later one stays.
  unfoldable pub canonicalize :
      {V : Type 0} → List (Bytes × V) → List (Bytes × V) → List (Bytes × V)
  canonicalize ch [] = ch
  canonicalize ch ((k, v) ∷ h) = canonicalize (insert (canonical_header_key k) v ch) h

  unfoldable pub new_leaf : Route → Compiled → Option (Compiled × Leaf Regexp match_string)
  new_leaf r compiled = do
    (c₁, host_rxs) ← get_compiled_rxs compiled r.host_regexps
    (c₂, path_rxs) ← get_compiled_rxs c₁ r.path_regexps
    (c₃, header_rxs) ← get_header_rxs c₂ r.header_regexps
    some (
      c₃,
      record {
        wildcard_param_names = extract_wildcard_param_names clean r;
        has_free_wildcard_param = has_free_wildcard_param clean r;
        exact_path = [];
        method = r.method;
        weight = r.weight;
        host_rxs = host_rxs;
        path_rxs = path_rxs;
        headers_exact = canonicalize [] r.headers;
        headers_regexp = canonicalize [] header_rxs;
        predicates = r.predicates;
        route = r;
      },
    )

  -- The leaves of each path, in the order of the definitions.
  abbrev pub PathMatchers : Type 0
  PathMatchers = List (Bytes × List (Leaf Regexp match_string))

  unfoldable pub add_leaf_to_path : PathMatchers → Bytes → Leaf Regexp match_string → PathMatchers
  add_leaf_to_path pms path l =
      insert path ((elim (lookup path pms) [ none ↦ [] | some ls ↦ ls ]) ++ l ∷ []) pms

  abbrev pub add_leaf_to_paths : PathMatchers → List Bytes → Leaf Regexp match_string → PathMatchers
  add_leaf_to_paths pms [] l = pms
  add_leaf_to_paths pms (p ∷ ps) l = add_leaf_to_paths (add_leaf_to_path pms p l) ps l

  -- The variables of the loop of newMatcher; errors has the ids of the routes that are left out.
  pub record Building : Type 0 where
    pub errors : List Bytes
    pub root_leaves : List (Leaf Regexp match_string)
    pub path_matchers : PathMatchers
    pub compiled : Compiled

  abbrev pub failed_route : Route → Building → Building
  failed_route r b = record b { errors = b.errors ++ r.id ∷ [] }

  -- A round of the loop, with ignoreTrailingSlash.
  unfoldable pub add_route : Bool → Building → Route → Building
  add_route ignore b r = elim (new_leaf r b.compiled) [
    | none ↦ failed_route r b
    | some (compiled, l) ↦ elim (normalize_path clean r) [
      | none ↦ record (failed_route r b) { compiled = compiled }
      | some path ↦
          if not (bytes_eq r.path_subtree [])
          then record b {
            path_matchers = add_leaf_to_paths b.path_matchers (subtree_paths ignore path) l;
            compiled = compiled;
          }
          else if bytes_eq r.path []
          then record b { root_leaves = b.root_leaves ++ l ∷ []; compiled = compiled }
          else record b {
            path_matchers =
                add_leaf_to_path b.path_matchers (if ignore then trim_trailing_slash path else path)
                  l;
            compiled = compiled;
          }
    ]
  ]

  unfoldable pub add_routes : Bool → Building → List Route → Building
  add_routes ignore b [] = b
  add_routes ignore b (r ∷ rs) = add_routes ignore (add_route ignore b r) rs

  -- addTreeMatchers: the value that the tree has for a path is the number of its
  -- leaves in the list.
  unfoldable pub add_tree_matchers :
      Node
      → ℕ
      → PathMatchers
      → Option (Node × List (List (Leaf Regexp match_string)) × List AddError)
  add_tree_matchers tree n [] = some (tree, [], [])
  add_tree_matchers tree n ((p, ls) ∷ pms) = do
    added ← add tree p n
    (whole, rest, errors) ← add_tree_matchers added.tree (n + 1) pms
    some (
      whole,
      sort_by (less Regexp match_string) ls ∷ rest,
      (elim added.error [ no_error ↦ errors | e ↦ e ∷ errors ]),
    )

  pub record Matcher : Type 0 where
    pub paths : Node
    pub path_leaves : List (List (Leaf Regexp match_string))
    pub root_leaves : List (Leaf Regexp match_string)
    pub ignore_trailing_slash : Bool

  -- With the order in which addTreeMatchers goes over its map.
  unfoldable pub new_matcher :
      MapRange (Bytes × List (Leaf Regexp match_string))
      → List Route
      → Bool
      → Option (Matcher × List Bytes × List AddError)
  new_matcher ranged rs ignore =
      let start : Building = record {
        errors = [];
        root_leaves = [];
        path_matchers = [];
        compiled = [];
      } in
      let b = add_routes ignore start rs in
      do
        (tree, leaves, tree_errors) ←
            add_tree_matchers (new_node [] false) 0 (ranged.range b.path_matchers)
        some (
          record {
            paths = tree;
            path_leaves = leaves;
            root_leaves = sort_by (less Regexp match_string) b.root_leaves;
            ignore_trailing_slash = ignore;
          },
          b.errors,
          tree_errors,
        )
