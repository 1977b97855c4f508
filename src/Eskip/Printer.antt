-- ===== src/Eskip/Printer.antt =====
-- eskip/string.go: the text of routes.
pub mod Escape
pub mod Literals
pub mod Tokens
use skipper.Prelude.{
  none, some, ℕ, List, [], ◌∷◌, ◌++◌, Bool, map, if◌then◌else◌, false, true, some, ◌==◌, ◌||◌, ◌&&◌,
  not,
}
use skipper.Prelude.Bytes.{Bytes, codes, replace_all, bytes_eq, bytes_less, format_int, join}
use skipper.Prelude.Sort.{sort_by}
use skipper.Eskip.Route.{
  Arg, int_arg, float_arg, string_arg, text_arg, other_arg, Predicate, Filter, LbEndpoint, Route,
  backend_number, network_backend, shunt_backend, loop_backend, dynamic_backend, lb_backend,
}

-- The loop of escape over the characters.
unfoldable pub escape_chars : Bytes → Bytes → Bytes
escape_chars s [] = s
escape_chars s (c ∷ cs) = escape_chars (replace_all c (b'\\' ∷ c ∷ []) s) cs

-- The replacements of the control characters, after that of the backslash.
unfoldable pub escape_controls : Bytes → Bytes
escape_controls s = replace_all 11 (codes "\\v") (
    replace_all 9 (codes "\\t") (
      replace_all 13 (codes "\\r") (
        replace_all 10 (codes "\\n") (
          replace_all 12 (codes "\\f")
            (replace_all 8 (codes "\\b") (replace_all 7 (codes "\\a") s))))))

unfoldable pub escape : Bytes → Bytes → Bytes
escape s chars = escape_chars (escape_controls (replace_all b'\\' (codes "\\\\") s)) chars

-- A text between quotes or slashes, with what has to be escaped.
abbrev pub quoted : Bytes → Bytes
quoted s = b'"' ∷ escape s (codes "\"") ++ codes "\""

abbrev pub slashed : Bytes → Bytes
slashed s = b'/' ∷ escape s (codes "/") ++ codes "/"

-- math.Floor of a float64 is itself, and the formats %.0f and %g of package fmt.
module _ (is_whole : ℕ → Bool) (format_whole format_general : ℕ → Bytes) where
  unfoldable pub arg_string : Arg → Bytes
  arg_string (int_arg n) = format_int n
  arg_string (float_arg f) = if is_whole f then format_whole f else format_general f
  arg_string (string_arg s) = quoted s
  arg_string (text_arg (some t)) = quoted t
  arg_string (text_arg none) = codes "\"[error]\""
  arg_string (other_arg s) = quoted s

  unfoldable pub args_string : List Arg → Bytes
  args_string args = join (codes ", ") (map arg_string args)

  -- The format %s(%s) of the strings of predicates and filters.
  unfoldable pub call_string : Bytes → List Arg → Bytes
  call_string name args = name ++ (codes "(" ++ (args_string args ++ codes ")"))

  -- sort.Strings of a part of the predicates.
  abbrev pub sort_strings : List Bytes → List Bytes
  sort_strings ss = sort_by bytes_less ss

  abbrev pub header_string : Bytes × Bytes → Bytes
  header_string kv = codes "Header(" ++ (quoted kv.0 ++ (codes ", " ++ (quoted kv.1 ++ codes ")")))

  abbrev pub header_regexp_strings : List (Bytes × List Bytes) → List Bytes
  header_regexp_strings [] = []
  header_regexp_strings ((k, vs) ∷ m) =
      map (λ v. codes "HeaderRegexp(" ++ (quoted k ++ (codes ", " ++ (slashed v ++ codes ")")))) vs
      ++ header_regexp_strings m

  abbrev pub predicate_strings : List Predicate → List Bytes
  predicate_strings [] = []
  predicate_strings (p ∷ ps) =
      if bytes_eq p.name (codes "Any")
      then predicate_strings ps
      else call_string p.name p.args ∷ predicate_strings ps

  -- A format with one text, if the text is not empty.
  abbrev pub string_unless_empty : Bytes → Bytes → List Bytes
  string_unless_empty name s =
      if bytes_eq s [] then [] else (name ++ (codes "(" ++ (quoted s ++ codes ")"))) ∷ []

  abbrev pub regexp_string : Bytes → Bytes → Bytes
  regexp_string name s = name ++ (codes "(" ++ (slashed s ++ codes ")"))

  abbrev pub all_predicates : Route → List Bytes
  all_predicates r =
      string_unless_empty (codes "Path") r.path
      ++ (map (regexp_string (codes "Host")) r.host_regexps
          ++ (map (regexp_string (codes "PathRegexp")) r.path_regexps
              ++ (string_unless_empty (codes "Method") r.method
                  ++ (sort_strings (map header_string r.headers)
                      ++ (sort_strings (header_regexp_strings r.header_regexps)
                          ++ predicate_strings r.predicates)))))

  unfoldable pub predicate_string : Route → Bytes
  predicate_string r =
      let ps = all_predicates r in
      join (codes " && ") (elim ps [ [] ↦ codes "*" ∷ [] | p ∷ more ↦ p ∷ more ])

  -- Pretty and IndentStr.
  abbrev pub separator : Bool → Bytes → Bytes
  separator pretty indent = if pretty then b'\n' ∷ indent ++ codes "-> " else codes " -> "

  unfoldable pub filter_string : Bool → Bytes → Route → Bytes
  filter_string pretty indent r =
      join (separator pretty indent) (map (λ (f : Filter). call_string f.name f.args) r.filters)

  unfoldable pub backend_string : Route → Bytes
  backend_string r =
      if r.shunt || backend_number r.backend_type == backend_number shunt_backend
      then codes "<shunt>"
      else if backend_number r.backend_type == backend_number loop_backend
      then codes "<loopback>"
      else if backend_number r.backend_type == backend_number dynamic_backend
      then codes "<dynamic>"
      else r.backend

  -- StringWithZone, where query_escape is url.QueryEscape of net/url.
  module _ (query_escape : Bytes → Bytes) where
    unfoldable pub string_with_zone : LbEndpoint → Bytes
    string_with_zone ep =
        if bytes_eq ep.zone []
        then ep.address
        else ep.address ++ (codes "?zone=" ++ query_escape ep.zone)

    unfoldable pub lb_backend_string : Route → Bytes
    lb_backend_string r =
        codes "<"
        ++ ((if bytes_eq r.lb_algorithm [] then [] else r.lb_algorithm ++ codes ", ")
            ++ (join (codes ", ") (
                  map (λ (ep : LbEndpoint). codes "\"" ++ (string_with_zone ep ++ codes "\""))
                    r.lb_endpoints)
                ++ codes ">"))

    unfoldable pub backend_string_quoted : Route → Bytes
    backend_string_quoted r =
        if backend_number r.backend_type == backend_number network_backend && not r.shunt
        then codes "\"" ++ (backend_string r ++ codes "\"")
        else if backend_number r.backend_type == backend_number lb_backend
        then lb_backend_string r
        else backend_string r

    unfoldable pub print_route : Bool → Bytes → Route → Bytes
    print_route pretty indent r =
        let fs = filter_string pretty indent r in
        join (separator pretty indent) (
          predicate_string r
          ∷ ((if bytes_eq fs [] then [] else fs ∷ []) ++ backend_string_quoted r ∷ []))

    -- The loop of fprintDefinitions, where first is i == 0.
    unfoldable pub print_definitions : Bool → Bytes → Bool → List Route → Bytes
    print_definitions pretty indent first [] = []
    print_definitions pretty indent first (r ∷ rs) =
        (if first then [] else if pretty then b'\n' ∷ b'\n' ∷ [] else b'\n' ∷ [])
        ++ (r.id
            ++ (codes ": "
                ++ (print_route pretty indent r
                    ++ (codes ";" ++ print_definitions pretty indent false rs))))

    -- Fprint, which writes what Print returns.
    unfoldable pub print : Bool → Bytes → List Route → Bytes
    print pretty indent [] = []
    print pretty indent (r ∷ rs) =
        if (elim rs [ [] ↦ true | _ ↦ false ]) && bytes_eq r.id []
        then print_route pretty indent r
        else print_definitions pretty indent true (r ∷ rs)
