-- ===== src/Eskip/Canonical.antt =====
-- eskip/eq.go and eskip/copy.go: the canonical form of routes and their copies. The
-- lists of headers stand for maps, in the order in which Canonical ranges over them.
pub mod Counts
use skipper.Prelude.{
  ℕ, Bool, true, false, not, ◌&&◌, List, [], ◌∷◌, ◌++◌, if◌then◌else◌, any, map, ◌||◌, ◌==◌,
}
use skipper.Prelude.Bytes.{Bytes, codes, bytes_eq}
use skipper.Prelude.Sort.{SliceSort}
use skipper.Eskip.Route.{
  Arg, string_arg, Predicate, Filter, LbEndpoint, BackendType, Route, empty_route, network_backend,
  shunt_backend, lb_backend, predicate, backend_number,
}

abbrev pub has_path : List Predicate → Bool
has_path ps = any (λ p. bytes_eq p.name (codes "Path")) ps

abbrev pub host_predicate : Bytes → Predicate
host_predicate h = predicate (codes "Host") (string_arg h ∷ [])

abbrev pub path_regexp_predicate : Bytes → Predicate
path_regexp_predicate p = predicate (codes "PathRegexp") (string_arg p ∷ [])

abbrev pub header_predicate : Bytes × Bytes → Predicate
header_predicate kv = predicate (codes "Header") (string_arg kv.0 ∷ string_arg kv.1 ∷ [])

abbrev pub header_regexp_predicate : Bytes → Bytes → Predicate
header_regexp_predicate k v = predicate (codes "HeaderRegexp") (string_arg k ∷ string_arg v ∷ [])

-- The two loops over HeaderRegexps.
abbrev pub header_regexp_predicates : List (Bytes × List Bytes) → List Predicate
header_regexp_predicates [] = []
header_regexp_predicates ((k, vs) ∷ m) =
    map (header_regexp_predicate k) vs ++ header_regexp_predicates m

abbrev pub path_predicates : Bool → Bytes → List Predicate
path_predicates found path =
    if not (bytes_eq path []) && not found
    then predicate (codes "Path") (string_arg path ∷ []) ∷ []
    else []

abbrev pub method_predicates : Bytes → List Predicate
method_predicates method =
    if not (bytes_eq method [])
    then predicate (codes "Method") (string_arg method ∷ []) ∷ []
    else []

-- The predicates of Canonical before they are sorted.
unfoldable pub legacy_predicates : Route → List Predicate
legacy_predicates r =
    method_predicates r.method
    ++ (r.predicates
        ++ (path_predicates (has_path r.predicates) r.path
            ++ (map host_predicate r.host_regexps
                ++ (map path_regexp_predicate r.path_regexps
                    ++ (map header_predicate r.headers
                        ++ header_regexp_predicates r.header_regexps)))))

-- The two calls of sort.Slice in Canonical, and that in EqLists.
module _ (sorted : SliceSort Predicate) (sorted_endpoints : SliceSort LbEndpoint) where
  abbrev pub with_backend : Route → Route → Route
  with_backend r c = elim r.backend_type [
    | network_backend ↦
        if r.shunt
        then record c { backend_type = shunt_backend }
        else record c { backend_type = network_backend; backend = r.backend }
    | lb_backend ↦ record c {
      backend_type = lb_backend;
      lb_algorithm = r.lb_algorithm;
      lb_endpoints = sorted_endpoints.sort r.lb_endpoints;
    }
    | other ↦ record c { backend_type = other }
  ]

  unfoldable pub canonical : Route → Route
  canonical r = with_backend r (record empty_route {
    id = r.id;
    predicates = sorted.sort (legacy_predicates r);
    filters = r.filters;
  })

  unfoldable pub canonical_list : List Route → List Route
  canonical_list rs = map canonical rs

  abbrev pub copy_predicate : Predicate → Predicate
  copy_predicate p = predicate p.name p.args

  abbrev pub copy_filter : Filter → Filter
  copy_filter f = record { name = f.name; args = f.args }

  unfoldable pub copy_route : Route → Route
  copy_route r =
      let c = canonical r in
      record empty_route {
        id = c.id;
        predicates = map copy_predicate c.predicates;
        filters = map copy_filter c.filters;
        backend_type = c.backend_type;
        backend = c.backend;
        lb_algorithm = c.lb_algorithm;
        lb_endpoints = c.lb_endpoints;
      }

  unfoldable pub copy_routes : List Route → List Route
  copy_routes rs = map copy_route rs
