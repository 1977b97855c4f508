-- ===== src/Pathmux/Search.antt =====
-- pathmux/tree.go: the tree, and search and LookupMatcher. A path is a list of bytes, a
-- value is a number, and nil is none.
pub mod Entries
pub mod First
pub mod Exact
pub mod Values
pub mod NodeValues
mod Tests
use skipper.Prelude.{
  ℕ, zero, suc, ◌+◌, ◌-◌, ◌*◌, Bool, true, false, ◌&&◌, List, [], ◌∷◌, ◌++◌, Option, none, some,
  ◌==◌, leb, if◌then◌else◌, ◌>>=◌,
}

mutual
  -- path, priority, staticIndices with staticChild, wildcardChild, catchAllChild, isCatchAll and
  -- leafValue.
  pub data Node : Type 0 where
    node : List ℕ → ℕ → Children → Child → Child → Bool → Option ℕ → Node

  -- The two slices of the static children, which have the same length.
  pub data Children : Type 0 where
    no_children : Children
    child : ℕ → Node → Children → Children

  -- A pointer that may be nil.
  pub data Child : Type 0 where
    nil : Child
    the : Node → Child

abbrev pub slash : ℕ
slash = 47

abbrev pub path_of : Node → List ℕ
path_of (node p _ _ _ _ _ _) = p

abbrev pub leaf_of : Node → Option ℕ
leaf_of (node _ _ _ _ _ _ v) = v

-- The loop that ends at a slash: the token before it, and the rest.
unfoldable pub this_token : List ℕ → List ℕ
this_token [] = []
this_token (b ∷ bs) = if b == slash then [] else b ∷ this_token bs

unfoldable pub next_token : List ℕ → List ℕ
next_token [] = []
next_token (b ∷ bs) = if b == slash then b ∷ bs else next_token bs

-- What is left of a path after a prefix; none where it has another.
unfoldable pub after_prefix : List ℕ → List ℕ → Option (List ℕ)
after_prefix [] bs = some bs
after_prefix (p ∷ ps) [] = none
after_prefix (p ∷ ps) (b ∷ bs) = if p == b then after_prefix ps bs else none

abbrev pub hex_digit : ℕ → Option ℕ
hex_digit c =
    if leb 48 c && leb c 57
    then some (c - 48)
    else if leb 97 c && leb c 102
    then some (c - 87)
    else if leb 65 c && leb c 70
    then some (c - 55)
    else none

-- url.QueryUnescape of net/url.
unfoldable pub query_unescape : List ℕ → Option (List ℕ)
query_unescape [] = some []
query_unescape (b ∷ []) = if b == 37 then none else some ((if b == 43 then 32 else b) ∷ [])
query_unescape (b ∷ h ∷ []) =
    let rest = query_unescape (h ∷ []) in
    if b == 37 then none else (do r ← rest; some ((if b == 43 then 32 else b) ∷ r))
query_unescape (b ∷ h ∷ l ∷ bs) =
    let rest = query_unescape bs in
    let tail = query_unescape (h ∷ l ∷ bs) in
    if b == 37
    then (do x ← hex_digit h; y ← hex_digit l; r ← rest; some ((x * 16 + y) ∷ r))
    else (do r ← tail; some ((if b == 43 then 32 else b) ∷ r))

-- The unescaped text, or the text itself where that fails.
unfoldable pub unescaped : List ℕ → List ℕ
unescaped bs = elim (query_unescape bs) [ none ↦ bs | some r ↦ r ]

-- What search returns when it finds a node: its leaf value, the parameters, and the value that the
-- matcher gives.
pub record Found : Type 0 where
  pub leaf : Option ℕ
  pub params : List (List ℕ)
  pub value : ℕ

abbrev pub is_empty : List ℕ → Bool
is_empty [] = true
is_empty _ = false

-- Match of the Matcher: none is false.
module _ (match : Option ℕ → Option ℕ) where
  unfoldable pub found_leaf : Option ℕ → List (List ℕ) → Option Found
  found_leaf leaf params = elim (match leaf) [
    | none ↦ none
    | some v ↦ some (record { leaf = leaf; params = params; value = v })
  ]

  abbrev pub or_else : Option Found → Option Found → Option Found
  or_else none y = y
  or_else (some x) y = some x

  abbrev pub with_param : List ℕ → Option Found → Option Found
  with_param token none = none
  with_param token (some f) = some (record f { params = f.params ++ unescaped token ∷ [] })

  -- The end of search, on the catch-all child.
  unfoldable pub search_catch_all : Child → List ℕ → Option Found
  search_catch_all nil path = none
  search_catch_all (the n) path = found_leaf (leaf_of n) (unescaped path ∷ [])

  unfoldable mutual
    pub search : Node → List ℕ → Option Found
    search (node p pr cs w c ca none) [] = none
    search (node p pr cs w c ca (some v)) [] = found_leaf (some v) []
    search (node p pr cs w c ca leaf) (b ∷ bs) =
        or_else (search_children cs (b ∷ bs))
          (or_else (search_wildcard w (b ∷ bs)) (search_catch_all c (b ∷ bs)))

    -- The loop over the static children, which ends at the first with the byte.
    pub search_children : Children → List ℕ → Option Found
    search_children no_children path = none
    search_children (child i n cs) [] = none
    search_children (child i n cs) (b ∷ bs) =
        let here : Option Found = elim (after_prefix (path_of n) (b ∷ bs)) [
          | none ↦ none
          | some rest ↦ search n rest
        ] in
        let later = search_children cs (b ∷ bs) in if i == b then here else later

    pub search_wildcard : Child → List ℕ → Option Found
    search_wildcard nil path = none
    search_wildcard (the n) path =
        let found = search n (next_token path) in
        if is_empty (this_token path) then none else with_param (this_token path) found

-- LookupMatcher: the empty path is the root, and the first byte is not looked at.
unfoldable pub lookup_matcher : (Option ℕ → Option ℕ) → Node → List ℕ → Option Found
lookup_matcher match n [] = search match n []
lookup_matcher match n (b ∷ bs) = search match n bs
