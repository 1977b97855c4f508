-- ===== src/Eskip/Definition.antt =====
-- newRouteDefinition of eskip/eskip.go: what the parser read, as a route.
use skipper.Prelude.{
  refl, ◌≡◌, ℕ, Bool, true, false, List, [], ◌∷◌, ◌++◌, Option, none, some, if◌then◌else◌, length,
  ◌==◌, ◌||◌, map, not, ◌&&◌, ◌≡◌, arith,
}
use skipper.Prelude.Map.{lookup, insert}
use skipper.Prelude.Bytes.{Bytes, codes, bytes_eq, bytes_key}
use skipper.Eskip.Route.{
  Arg, string_arg, Predicate, Filter, LbEndpoint, BackendType, Route, empty_route, network_backend,
  shunt_backend, loop_backend, dynamic_backend, forward_backend,
}

pub record ParsedRoute : Type 0 where
  pub id : Bytes
  pub predicates : List Predicate
  pub filters : List Filter
  pub shunt : Bool
  pub loopback : Bool
  pub dynamic : Bool
  pub lb_backend : Bool
  pub forward : Bool
  pub backend : Bytes
  pub lb_algorithm : Bytes
  pub lb_endpoints : List Bytes

pub data RouteError : Type 0 where
  duplicate_path duplicate_method mixed_protocols invalid_uri : RouteError
  duplicate_header : Bytes → RouteError
  invalid_args : Bytes → ℕ → RouteError

pub data Result (A : Type 0) : Type 0 where
  ok : A → Result A
  failure : RouteError → Result A

infixl 5 ◌>>=◌
abbrev pub ◌>>=◌ : {A B : Type 0} → Result A → (A → Result B) → Result B
ok a >>= f = f a
failure e >>= f = failure e

pub bind-ok :
    {A B : Type 0} {res : B} (step : Result A) (next : A → Result B)
    → (step >>= next) ≡ ok res
    → (a : A) × (step ≡ ok a) × (next a ≡ ok res)
bind-ok (ok got) next h = (got, refl, h)
bind-ok (failure err) next h = cc

pub ok_injective : {A : Type 0} {a b : A} → ok a ≡ ok b → a ≡ b
ok_injective h = ground arith

-- The loop of getStringArgs.
unfoldable pub strings : List Arg → Option (List Bytes)
strings [] = some []
strings (string_arg s ∷ more) =
    let rest = strings more in elim rest [ none ↦ none | some ss ↦ some (s ∷ ss) ]
strings (_ ∷ more) = none

-- The name of the predicate and the count are in the error.
unfoldable pub get_string_args : Predicate → ℕ → Result (List Bytes)
get_string_args p n =
    if length p.args == n
    then elim (strings p.args) [ none ↦ failure (invalid_args p.name n) | some ss ↦ ok ss ]
    else failure (invalid_args p.name n)

-- args[i], which the callers know to be there.
abbrev pub first_arg : List Bytes → Bytes
first_arg [] = []
first_arg (s ∷ ss) = s

abbrev pub second_arg : List Bytes → Bytes
second_arg (s ∷ t ∷ ss) = t
second_arg _ = []

-- The route, pathSet and methodSet.
abbrev pub Applied : Type 0
Applied = Route × Bool × Bool

abbrev pub add_header_regexp : Bytes → Bytes → Route → Route
add_header_regexp k v r = record r {
  header_regexps =
      insert k ((elim (lookup k r.header_regexps) [ none ↦ [] | some vs ↦ vs ]) ++ v ∷ [])
        r.header_regexps;
}

abbrev pub add_header : Bytes → Bytes → Route → Result Route
add_header k v r = elim (lookup k r.headers) [
  | some _ ↦ failure (duplicate_header k)
  | none ↦ ok (record r { headers = insert k v r.headers })
]

-- The switch of applyPredicates.
unfoldable pub apply_predicate : Applied → Predicate → Result Applied
apply_predicate (r, path_set, method_set) p =
    if bytes_eq p.name (codes "Path")
    then (if path_set
        then failure duplicate_path
        else (do ss ← get_string_args p 1; ok (record r { path = first_arg ss }, true, method_set)))
    else if bytes_eq p.name (codes "Host")
    then (do
      ss ← get_string_args p 1
      ok (record r { host_regexps = r.host_regexps ++ first_arg ss ∷ [] }, path_set, method_set))
    else if bytes_eq p.name (codes "PathRegexp")
    then (do
      ss ← get_string_args p 1
      ok (record r { path_regexps = r.path_regexps ++ first_arg ss ∷ [] }, path_set, method_set))
    else if bytes_eq p.name (codes "Method")
    then (if method_set
        then failure duplicate_method
        else (do ss ← get_string_args p 1; ok (record r { method = first_arg ss }, path_set, true)))
    else if bytes_eq p.name (codes "HeaderRegexp")
    then (do
      ss ← get_string_args p 2
      ok (add_header_regexp (first_arg ss) (second_arg ss) r, path_set, method_set))
    else if bytes_eq p.name (codes "Header")
    then (do
      ss ← get_string_args p 2
      r' ← add_header (first_arg ss) (second_arg ss) r
      ok (r', path_set, method_set))
    else if bytes_eq p.name (codes "*") || bytes_eq p.name (codes "Any")
    then ok (r, path_set, method_set)
    else ok (record r { predicates = r.predicates ++ p ∷ [] }, path_set, method_set)

unfoldable pub apply_predicates : Applied → List Predicate → Result Applied
apply_predicates a [] = ok a
apply_predicates a (p ∷ ps) = do b ← apply_predicate a p; apply_predicates b ps

-- The switch over the kinds of backends.
unfoldable pub backend_type_of : ParsedRoute → BackendType
backend_type_of p =
    if p.shunt
    then shunt_backend
    else if p.loopback
    then loop_backend
    else if p.dynamic
    then dynamic_backend
    else if p.lb_backend
    then BackendType.lb_backend
    else if p.forward
    then forward_backend
    else network_backend

-- The scheme that url.ParseRequestURI of net/url reads, and newLBEndpoint, which splits off the zone.
module _ (scheme_of : Bytes → Option Bytes) (new_lb_endpoint : Bytes → LbEndpoint) where
  -- The loop over the endpoints, with the scheme so far.
  unfoldable pub check_endpoints : Bytes → List Bytes → Option RouteError
  check_endpoints scheme [] = none
  check_endpoints scheme (e ∷ es) = elim (scheme_of e) [
    | none ↦ some invalid_uri
    | some s ↦
        if not (bytes_eq scheme []) && not (bytes_eq scheme s)
        then some mixed_protocols
        else check_endpoints s es
  ]

  -- What newRouteDefinition takes over from the parser.
  abbrev pub parsed_fields : ParsedRoute → Route
  parsed_fields p = record empty_route {
    id = p.id;
    filters = p.filters;
    shunt = p.shunt;
    backend = p.backend;
    lb_algorithm = p.lb_algorithm;
    lb_endpoints = map new_lb_endpoint p.lb_endpoints;
    backend_type = backend_type_of p;
  }

  -- The rest of newRouteDefinition, after the check of the endpoints.
  abbrev pub after_check : Option RouteError → ParsedRoute → Result Route
  after_check (some e) p = failure e
  after_check none p = (do
    (r, _, _) ← apply_predicates (parsed_fields p, false, false) p.predicates
    ok r)

  unfoldable pub new_route_definition : ParsedRoute → Result Route
  new_route_definition p = after_check (check_endpoints [] p.lb_endpoints) p

  -- The loop of Parse over what parseDocument returns.
  unfoldable pub route_definitions : List ParsedRoute → Result (List Route)
  route_definitions [] = ok []
  route_definitions (p ∷ ps) = do r ← new_route_definition p; rs ← route_definitions ps; ok (r ∷ rs)
