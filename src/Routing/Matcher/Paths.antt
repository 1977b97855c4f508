-- ===== src/Routing/Matcher/Paths.antt =====
-- The paths of routes in routing/matcher.go.
use skipper.Prelude.{
  ℕ, zero, suc, Bool, true, false, not, ◌&&◌, ◌||◌, List, [], ◌∷◌, ◌++◌, Option, none, some, ◌==◌,
  if◌then◌else◌, length, drop, ◌+◌, ◌<◌, ◌≤◌, ◌≡◌, refl, arith,
}
use skipper.Prelude.Bytes.{Bytes, codes, bytes_eq, split}
use skipper.Pathmux.Search.{this_token, next_token, is_empty, slash}
use skipper.Routing.Matcher.{Route}

-- The path, or the path of the subtree, of a route.
abbrev pub path_of_route : Route → Bytes
path_of_route r = if bytes_eq r.path [] then r.path_subtree else r.path

-- freeWildcardRx, /[*][^/]*$: what is before the last slash, if a * follows it.
unfoldable pub free_wildcard_from : Bytes → Option Bytes
free_wildcard_from [] = none
free_wildcard_from (c ∷ []) = none
free_wildcard_from (c ∷ d ∷ cs) = elim (free_wildcard_from (d ∷ cs)) [
  | some before ↦ some (c ∷ before)
  | none ↦ if c == slash && d == b'*' && is_empty (next_token cs) then some [] else none
]

abbrev pub has_free_wildcard : Bytes → Bool
has_free_wildcard path = elim (free_wildcard_from path) [ none ↦ false | some _ ↦ true ]

-- ReplaceAllLiteralString of freeWildcardRx with the empty text.
abbrev pub without_free_wildcard : Bytes → Bytes
without_free_wildcard path = elim (free_wildcard_from path) [ none ↦ path | some before ↦ before ]

abbrev pub is_wildcard_token : Bytes → Bool
is_wildcard_token (c ∷ d ∷ cs) = c == b':' || c == b'*'
is_wildcard_token _ = false

-- The loop over the tokens, which puts each name in front of those so far.
unfoldable pub wildcard_names : List Bytes → List Bytes → List Bytes
wildcard_names names [] = names
wildcard_names names (token ∷ tokens) =
    wildcard_names (if is_wildcard_token token then drop 1 token ∷ names else names) tokens

unfoldable pub ends_with_star : Bytes → Bool
ends_with_star [] = false
ends_with_star (c ∷ []) = false
ends_with_star (c ∷ d ∷ []) = c == slash && d == b'*'
ends_with_star (c ∷ d ∷ e ∷ cs) = ends_with_star (d ∷ e ∷ cs)

-- Clean of github.com/dimfeld/httppath.
module _ (clean : Bytes → Bytes) where
  unfoldable pub extract_wildcard_param_names : Route → List Bytes
  extract_wildcard_param_names r =
      let path = clean (path_of_route r) in
      let names = wildcard_names [] (split slash path) in
      if ends_with_star path
        || bytes_eq r.path [] && not (bytes_eq r.path_subtree []) && not (has_free_wildcard path)
      then codes "*" ∷ names
      else names

  unfoldable pub has_free_wildcard_param : Route → Bool
  has_free_wildcard_param r = not (bytes_eq r.path_subtree []) || has_free_wildcard (clean r.path)

  abbrev pub prefixed : Bytes → Option (Option Bytes) → Option (Option Bytes)
  prefixed s (some (some rest)) = some (some (s ++ rest))
  prefixed s o = o

  -- The loop of normalizePath, with fuel for the tokens: none is out of fuel, and none inside the
  -- error.
  unfoldable pub normalize_from : ℕ → Bytes → Option (Option Bytes)
  normalize_from zero path = none
  normalize_from (suc fuel) [] = some (some [])
  normalize_from (suc fuel) (c ∷ cs) =
      let rest = normalize_from fuel (if c == slash then cs else next_token cs) in
      if c == slash
      then prefixed (c ∷ []) rest
      else if c == b':' || c == b'*'
      then (if not (is_empty (next_token cs)) && c == b'*'
          then some none
          else prefixed (c ∷ b'*' ∷ []) rest)
      else prefixed (this_token (c ∷ cs)) rest

  abbrev IsSome : Option (Option Bytes) → Type 0
  IsSome x = (o : Option Bytes) × (x ≡ some o)

  prefixed-IsSome : (s : Bytes) (x : Option (Option Bytes)) → IsSome x → IsSome (prefixed s x)
  prefixed-IsSome s none h = (none, cc)
  prefixed-IsSome s (some none) h = (none, refl)
  prefixed-IsSome s (some (some rest)) h = (some (s ++ rest), refl)

  IsSome-if :
      (b : Bool) (x y : Option (Option Bytes)) → IsSome x → IsSome y → IsSome (if b then x else y)
  IsSome-if true x y h i = h
  IsSome-if false x y h i = i

  length-next_token : (cs : Bytes) → length (next_token cs) ≤ length cs
  unfolding next_token
  length-next_token [] = omega arith
  length-next_token (c ∷ cs) = ground (arith, length-next_token cs)

  -- The loop of normalizePath ends, with a path or the error.
  pub normalize_from-Ends :
      (fuel : ℕ) (path : Bytes)
      → length path < fuel
      → (o : Option Bytes) × (normalize_from fuel path ≡ some o)
  unfolding normalize_from
  normalize_from-Ends zero path h = absurd (omega arith)
  normalize_from-Ends (suc fuel) [] h = (some [], refl)
  normalize_from-Ends (suc fuel) (c ∷ cs) h =
      let shorter : length (if c == slash then cs else next_token cs) < fuel =
        ground (arith, length-next_token cs) in
      let (o, e) = normalize_from-Ends fuel (if c == slash then cs else next_token cs) shorter in
      let next : (s : Bytes)
          → IsSome (prefixed s (normalize_from fuel (if c == slash then cs else next_token cs))) =
        λ s.
          prefixed-IsSome s (normalize_from fuel (if c == slash then cs else next_token cs))
            (o, e) in
      IsSome-if (c == slash) _ _ (next (c ∷ [])) (
        IsSome-if (c == b':' || c == b'*') _ _
          (IsSome-if (not (is_empty (next_token cs)) && c == b'*') _ _ (none, refl)
            (next (c ∷ b'*' ∷ [])))
          (next (this_token (c ∷ cs))))

  -- The length of the path and one is fuel enough, so none is the error.
  unfoldable pub normalize_path : Route → Option Bytes
  normalize_path r =
      let path = clean (path_of_route r) in
      elim (normalize_from (length path + 1) path) [ none ↦ none | some o ↦ o ]

unfoldable pub trim_trailing_slash : Bytes → Bytes
trim_trailing_slash [] = []
trim_trailing_slash (c ∷ []) = c ∷ []
trim_trailing_slash (c ∷ d ∷ []) = if d == slash then c ∷ [] else c ∷ d ∷ []
trim_trailing_slash (c ∷ d ∷ e ∷ cs) = c ∷ trim_trailing_slash (d ∷ e ∷ cs)

-- strings.TrimSuffix of a slash.
unfoldable pub trim_slash : Bytes → Bytes
trim_slash [] = []
trim_slash (c ∷ []) = if c == slash then [] else c ∷ []
trim_slash (c ∷ d ∷ cs) = c ∷ trim_slash (d ∷ cs)

-- The paths that addSubtreeLeafsToPath adds a leaf to, with ignoreTrailingSlash.
unfoldable pub subtree_paths : Bool → Bytes → List Bytes
subtree_paths ignore_trailing_slash path =
    let base = trim_slash (without_free_wildcard path) in
    if bytes_eq base []
    then codes "/" ∷ codes "/**" ∷ []
    else base
      ∷ (base ++ codes "/**")
      ∷ (if not ignore_trailing_slash then (base ++ codes "/") ∷ [] else [])
