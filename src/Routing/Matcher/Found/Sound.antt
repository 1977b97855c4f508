-- ===== src/Routing/Matcher/Found/Sound.antt =====
-- What match of routing/matcher.go returns.
use skipper.Prelude.{
  ℕ, ◌<◌, Bool, true, false, ◌≡◌, List, [], ◌∷◌, Option, none, some, All, get_elem?,
}
use skipper.Prelude.Bytes.{Bytes}
use skipper.Pathmux.Search.{Found}
use skipper.Pathmux.Search.Entries.{entries}
use skipper.Routing.Matcher.Found.Entry.{Refused, FirstEntry}
use skipper.Routing.Matcher.{Request, Route, Leaf, match_leaf}
use skipper.Routing.Matcher.Leaves.{OneOf}
use skipper.Routing.Matcher.Build.{Matcher}
use skipper.Routing.Matcher.Found.{request_path, tree_match, params_map}

module _ (Regexp : Type 0) (match_string : Regexp → Bytes → Bool) (compile : Bytes → Option Regexp)
    (clean canonical_header_key : Bytes → Bytes) where
  module _ (m : Matcher Regexp match_string compile clean canonical_header_key) (r : Request) where
    abbrev Holds : Leaf Regexp match_string → Type 0
    Holds l =
        match_leaf Regexp match_string l r
          (request_path Regexp match_string compile clean canonical_header_key m r)
          (clean r.url_path)
        ≡ true

    abbrev Fails : Leaf Regexp match_string → Type 0
    Fails l =
        match_leaf Regexp match_string l r
          (request_path Regexp match_string compile clean canonical_header_key m r)
          (clean r.url_path)
        ≡ false

    -- The first of the leaves whose conditions hold.
    abbrev pub FirstLeaf : List (Leaf Regexp match_string) → Leaf Regexp match_string → Type 0
    FirstLeaf ls l =
        (i : ℕ) × (get_elem? ls i ≡ some l)
        × Holds l
        × ((j : ℕ) (k : Leaf Regexp match_string) → j < i → get_elem? ls j ≡ some k → Fails k)

    abbrev taken : Option ℕ → Option ℕ
    taken = tree_match Regexp match_string compile clean canonical_header_key m r

    -- The path that the tree is searched for: the first byte is not looked at.
    abbrev pub tail_of : Bytes → Bytes
    tail_of [] = []
    tail_of (b ∷ bs) = bs

    abbrev path : Bytes
    path = tail_of (request_path Regexp match_string compile clean canonical_header_key m r)

    -- The first entry of the tree whose pattern matches the path and which has a leaf whose
    -- conditions hold, the first such leaf of that entry, and the parameters of the pattern by the
    -- names of that leaf.
    abbrev pub FromTree : Leaf Regexp match_string → List (Bytes × Bytes) → Type 0
    FromTree l params =
        (f : Found) × (n : ℕ) × (ls : List (Leaf Regexp match_string)) × FirstEntry taken path
          (entries m.paths) f
        × (f.leaf ≡ some n)
        × (get_elem? m.path_leaves n ≡ some ls)
        × FirstLeaf ls l
        × (params ≡ params_map Regexp match_string compile clean canonical_header_key l f.params)

    -- No entry of the tree whose pattern matches the path has a leaf whose conditions hold.
    abbrev pub NotInTree : Type 0
    NotInTree = All (Refused taken path) (entries m.paths)

    abbrev pub Outcome : List Route → Option (Route × Option (List (Bytes × Bytes))) → Type 0
    Outcome rs (some (route, some params)) =
        (l : Leaf Regexp match_string) × (l.route ≡ route)
        × OneOf Regexp match_string compile clean canonical_header_key rs l
        × FromTree l params
    Outcome rs (some (route, none)) =
        (l : Leaf Regexp match_string) × (l.route ≡ route)
        × OneOf Regexp match_string compile clean canonical_header_key rs l
        × FirstLeaf m.root_leaves l
        × NotInTree
    Outcome rs none = NotInTree × All Fails m.root_leaves
