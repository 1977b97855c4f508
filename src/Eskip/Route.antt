-- ===== src/Eskip/Route.antt =====
-- The types of eskip/eskip.go, and its kinds of backends. A Go map is the list of its entries in the
-- order of an iteration.
use skipper.Prelude.{
  ℕ, Bool, List, [], ◌∷◌, Option, none, some, if◌then◌else◌, ◌++◌, map, false, ◌||◌,
}
use skipper.Prelude.Int.{ℤ}
use skipper.Prelude.Bytes.{Bytes, codes, bytes_eq}

-- The arguments by their dynamic type: a float64 is its bits, text_arg has what MarshalText returns,
-- none for an error, and other_arg how the value is formatted with %v.
pub data Arg : Type 0 where
  int_arg : ℤ → Arg
  float_arg : ℕ → Arg
  string_arg : Bytes → Arg
  text_arg : Option Bytes → Arg
  other_arg : Bytes → Arg

pub record Predicate : Type 0 where
  pub name : Bytes
  pub args : List Arg

pub record Filter : Type 0 where
  pub name : Bytes
  pub args : List Arg

pub record LbEndpoint : Type 0 where
  pub address : Bytes
  pub zone : Bytes

pub data BackendType : Type 0 where
  network_backend shunt_backend loop_backend dynamic_backend lb_backend forward_backend :
      BackendType

-- The numbers that iota gives.
abbrev pub backend_number : BackendType → ℕ
backend_number network_backend = 0
backend_number shunt_backend = 1
backend_number loop_backend = 2
backend_number dynamic_backend = 3
backend_number lb_backend = 4
backend_number forward_backend = 5

pub record Route : Type 0 where
  pub id : Bytes
  pub path : Bytes
  pub host_regexps : List Bytes
  pub path_regexps : List Bytes
  pub method : Bytes
  pub headers : List (Bytes × Bytes)
  pub header_regexps : List (Bytes × List Bytes)
  pub predicates : List Predicate
  pub filters : List Filter
  pub shunt : Bool
  pub backend_type : BackendType
  pub backend : Bytes
  pub lb_algorithm : Bytes
  pub lb_endpoints : List LbEndpoint
  pub name : Bytes
  pub namespace : Bytes

-- &Route{}.
abbrev pub empty_route : Route
empty_route = record {
  id = [];
  path = [];
  host_regexps = [];
  path_regexps = [];
  method = [];
  headers = [];
  header_regexps = [];
  predicates = [];
  filters = [];
  shunt = false;
  backend_type = network_backend;
  backend = [];
  lb_algorithm = [];
  lb_endpoints = [];
  name = [];
  namespace = [];
}

abbrev pub predicate : Bytes → List Arg → Predicate
predicate n args = record { name = n; args = args }

-- none is the error of an unsupported type.
unfoldable pub backend_type_from_string : Bytes → Option BackendType
backend_type_from_string s =
    if bytes_eq s [] || bytes_eq s (codes "network")
    then some network_backend
    else if bytes_eq s (codes "shunt")
    then some shunt_backend
    else if bytes_eq s (codes "loopback")
    then some loop_backend
    else if bytes_eq s (codes "dynamic")
    then some dynamic_backend
    else if bytes_eq s (codes "lb")
    then some lb_backend
    else if bytes_eq s (codes "forward")
    then some forward_backend
    else none

unfoldable pub backend_type_string : BackendType → Bytes
backend_type_string network_backend = codes "network"
backend_type_string shunt_backend = codes "shunt"
backend_type_string loop_backend = codes "loopback"
backend_type_string dynamic_backend = codes "dynamic"
backend_type_string lb_backend = codes "lb"
backend_type_string forward_backend = codes "forward"

-- The preprocessors DefaultFilters and ForwardPreProcessor.
pub record DefaultFilters : Type 0 where
  pub prepend : List Filter
  pub append : List Filter

unfoldable pub default_filters : DefaultFilters → List Route → List Route
default_filters df [] = []
default_filters df (r ∷ rs) =
    record r { filters = df.prepend ++ (r.filters ++ df.append) } ∷ default_filters df rs

abbrev pub forward_route : Bytes → Route → Route
forward_route target r = elim r.backend_type [
  | forward_backend ↦ record r { backend = target; backend_type = network_backend; filters = [] }
  | _ ↦ r
]

unfoldable pub forward : Bytes → List Route → List Route
forward target rs = map (forward_route target) rs
