-- ===== src/Routing/Matcher.antt =====
-- routing/matcher.go: the conditions of a route on a request, and the leaves that hold them.
pub mod Best
pub mod Paths
pub mod Build
pub mod Leaves
pub mod Compiled
pub mod Found
mod Tests
use skipper.Prelude.{
  ℕ, ◌+◌, Bool, true, false, not, ◌&&◌, ◌||◌, List, [], ◌∷◌, ◌++◌, Option, none, some, ltb,
  if◌then◌else◌, length, all, any,
}
use skipper.Prelude.Int.{ℤ, pos_part, neg_part}
use skipper.Prelude.Map.{lookup}
use skipper.Prelude.Bytes.{Bytes, bytes_eq, bytes_key}

-- What is read of an http.Request; other is what only predicates look at.
pub record Request : Type 0 where
  pub method : Bytes
  pub host : Bytes
  pub url_path : Bytes
  pub header : List (Bytes × List Bytes)
  pub other : Bytes

-- Match of a Predicate.
abbrev pub Condition : Type 0
Condition = Request → Bool

-- The fields of a routing.Route that the matcher reads.
pub record Route : Type 0 where
  pub id : Bytes
  pub path : Bytes
  pub path_subtree : Bytes
  pub method : Bytes
  pub host_regexps : List Bytes
  pub path_regexps : List Bytes
  pub headers : List (Bytes × Bytes)
  pub header_regexps : List (Bytes × List Bytes)
  pub weight : ℤ
  pub predicates : List Condition

-- A compiled regular expression of package regexp, with MatchString.
module _ (Regexp : Type 0) (match_string : Regexp → Bytes → Bool) where
  pub record Leaf : Type 0 where
    pub wildcard_param_names : List Bytes
    pub has_free_wildcard_param : Bool
    pub exact_path : Bytes
    pub method : Bytes
    pub weight : ℤ
    pub host_rxs : List Regexp
    pub path_rxs : List Regexp
    pub headers_exact : List (Bytes × Bytes)
    pub headers_regexp : List (Bytes × List Regexp)
    pub predicates : List Condition
    pub route : Route

  -- What leafWeight adds to the weight of the route.
  unfoldable pub extra_weight : Leaf → ℕ
  extra_weight l =
      (if bytes_eq l.method [] then 0 else 1)
      + length l.host_rxs
      + length l.path_rxs
      + length l.headers_exact
      + length l.headers_regexp
      + length l.predicates

  -- Less: whether leafWeight of the first is greater than that of the second.
  unfoldable pub less : Leaf → Leaf → Bool
  less l m =
      ltb (pos_part m.weight + neg_part l.weight + extra_weight m)
        (pos_part l.weight + neg_part m.weight + extra_weight l)

  unfoldable pub match_regexps : List Regexp → Bytes → Bool
  match_regexps [] s = true
  match_regexps (rx ∷ rxs) s = if not (match_string rx s) then false else match_regexps rxs s

  unfoldable pub match_header : List (Bytes × List Bytes) → Bytes → (Bytes → Bool) → Bool
  match_header h key check = elim (lookup key h) [ none ↦ false | some vals ↦ any check vals ]

  -- The two loops of matchHeaders.
  unfoldable pub match_exact : List (Bytes × Bytes) → List (Bytes × List Bytes) → Bool
  match_exact [] h = true
  match_exact ((k, v) ∷ exact) h =
      if not (match_header h k (λ val. bytes_eq val v)) then false else match_exact exact h

  abbrev pub match_header_rxs : Bytes → List Regexp → List (Bytes × List Bytes) → Bool
  match_header_rxs k rxs h = all (λ rx. match_header h k (match_string rx)) rxs

  unfoldable pub match_header_regexps :
      List (Bytes × List Regexp) → List (Bytes × List Bytes) → Bool
  match_header_regexps [] h = true
  match_header_regexps ((k, rxs) ∷ hrxs) h =
      if not (match_header_rxs k rxs h) then false else match_header_regexps hrxs h

  unfoldable pub match_headers :
      List (Bytes × Bytes) → List (Bytes × List Regexp) → List (Bytes × List Bytes) → Bool
  match_headers exact hrxs h =
      if not (match_exact exact h) then false else match_header_regexps hrxs h

  unfoldable pub match_predicates : List Condition → Request → Bool
  match_predicates [] req = true
  match_predicates (cp ∷ cps) req = if not (cp req) then false else match_predicates cps req

  unfoldable pub match_leaf : Leaf → Request → Bytes → Bytes → Bool
  match_leaf l req path exact_path =
      if not (bytes_eq l.exact_path []) && not (bytes_eq l.exact_path path)
      then false
      else if not (bytes_eq l.method []) && not (bytes_eq l.method req.method)
      then false
      else if not (match_regexps l.host_rxs req.host)
      then false
      else if not (match_regexps l.path_rxs exact_path)
      then false
      else if not (match_headers l.headers_exact l.headers_regexp req.header)
      then false
      else match_predicates l.predicates req

  unfoldable pub match_leaves : List Leaf → Request → Bytes → Bytes → Option Leaf
  match_leaves [] req path exact_path = none
  match_leaves (l ∷ ls) req path exact_path =
      if match_leaf l req path exact_path then some l else match_leaves ls req path exact_path
