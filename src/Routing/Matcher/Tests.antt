-- ===== src/Routing/Matcher/Tests.antt =====
-- Runs of the matcher.
use skipper.Prelude.Map.{MapRange}
use skipper.Pathmux.Add.{AddError, new_node}
use skipper.Pathmux.Search.{this_token, next_token}
use skipper.Prelude.{◌≡◌, refl, Bool, false, List, [], ◌∷◌, Option, none, some}
use skipper.Prelude.Int.{pos}
use skipper.Prelude.Bytes.{Bytes, codes, bytes_eq, has_prefix}
use skipper.Routing.Matcher.{
  Request, Route, Leaf, less, match_leaf, extra_weight, match_regexps, match_headers, match_exact,
  match_header_regexps, match_predicates,
}
use skipper.Routing.Matcher.Best.{best}
use skipper.Routing.Matcher.Paths.{normalize_from, normalize_path, has_free_wildcard_param}
use skipper.Routing.Matcher.Build.{new_matcher, get_compiled_rxs, Matcher}
use skipper.Routing.Matcher.Compiled.{Agrees, compile_all, get_compiled_rxs-Agrees}

-- Regular expressions that are prefixes.
abbrev prefix_matches : Bytes → Bytes → Bool
prefix_matches rx s = has_prefix s rx

abbrev compile : Bytes → Option Bytes
compile exp = some exp

abbrev same : Bytes → Bytes
same s = s

abbrev api : Route
api = record {
  id = codes "api";
  path = codes "/api/:name";
  path_subtree = [];
  method = codes "GET";
  host_regexps = codes "www" ∷ [];
  path_regexps = [];
  headers = [];
  header_regexps = [];
  weight = pos 0;
  predicates = [];
}

abbrev rest : Route
rest = record api { id = codes "rest"; path = []; method = []; host_regexps = [] }

abbrev a_request : Request
a_request = record {
  method = codes "GET";
  host = codes "www.example.org";
  url_path = codes "/api/users";
  header = [];
  other = [];
}

abbrev leaf : Route → Leaf Bytes prefix_matches
leaf r = record {
  wildcard_param_names = [];
  has_free_wildcard_param = false;
  exact_path = [];
  method = r.method;
  weight = r.weight;
  host_rxs = r.host_regexps;
  path_rxs = [];
  headers_exact = [];
  headers_regexp = [];
  predicates = [];
  route = r;
}

-- The route with a method and a host is the heavier one.
heavier :
    best
      (less Bytes prefix_matches)
      (λ l. match_leaf Bytes prefix_matches l a_request (codes "/api/users") (codes "/api/users"))
      (leaf rest ∷ leaf api ∷ [])
    ≡ some (leaf api)
unfolding best less extra_weight match_leaf match_regexps match_headers match_exact
    match_header_regexps match_predicates bytes_eq has_prefix
heavier = refl

normalized : normalize_path same api ≡ some (codes "/api/:*")
unfolding normalize_path normalize_from bytes_eq this_token next_token
normalized = refl

get_compiled_rxs-Agrees_example :
    Agrees Bytes prefix_matches compile same same
      (compile_all Bytes prefix_matches compile same same (codes "a" ∷ codes "b" ∷ []))
      (get_compiled_rxs Bytes prefix_matches compile same same
        ((codes "b", codes "b") ∷ [])
        (codes "a" ∷ codes "b" ∷ []))
get_compiled_rxs-Agrees_example =
    get_compiled_rxs-Agrees Bytes prefix_matches compile same same ((codes "b", codes "b") ∷ [])
      (codes "a" ∷ codes "b" ∷ []) (refl, tt)

abbrev TestMatcher : Type 0
TestMatcher = Matcher Bytes prefix_matches compile same same

abbrev in_order : MapRange (Bytes × List (Leaf Bytes prefix_matches))
in_order = record { range = λ m. m; keeps = λ P m h. h }

-- The matcher of a result, or an empty one.
matcher_of : Option (TestMatcher × List Bytes × List AddError) → TestMatcher
matcher_of none = record {
  paths = new_node [] false;
  path_leaves = [];
  root_leaves = [];
  ignore_trailing_slash = false;
}
matcher_of (some x) = x.0

built : TestMatcher
built =
    matcher_of (new_matcher Bytes prefix_matches compile same same in_order (rest ∷ api ∷ []) false)
