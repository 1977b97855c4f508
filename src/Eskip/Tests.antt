-- ===== src/Eskip/Tests.antt =====
-- Runs of the lexer, the printer and the definition of routes.
use skipper.Prelude.{
  ℕ, ◌≡◌, refl, true, false, not, ◌&&◌, List, [], ◌∷◌, ◌++◌, Option, none, some, count_of, arith,
}
use skipper.Prelude.Int.{negsuc}
use skipper.Prelude.Bytes.{Bytes, codes, bytes_eq, bytes_less}
use skipper.Prelude.Sort.{SliceSort, stable_sort}
use skipper.Eskip.Route.{
  Arg, int_arg, float_arg, string_arg, Predicate, Route, LbEndpoint, empty_route, predicate,
  shunt_backend,
}
use skipper.Eskip.Lexer.{
  scan_escaped, scan_slow, scan_string_literal, scan_regexp_literal, scanned, failed, token,
  stringliteral, regexpliteral, symbol, openparen, closeparen, incomplete_token,
}
use skipper.Eskip.Lexer.Fast.{scan_escaped-scan_slow}
use skipper.Eskip.Lexer.State.{EskipLex, LexResult, lex}
use skipper.Eskip.Lexer.Ends.{LexOutcome, lex-LexOutcome}
use skipper.Eskip.Printer.{escape, call_string}
use skipper.Eskip.Printer.Literals.{
  scan_string_literal-escape, scan_regexp_literal-escape, scan_regexp_literal-escape_open,
}
use skipper.Eskip.Printer.Tokens.{Lexes, arg_tokens, call_string-Lexes}
use skipper.Eskip.Definition.{
  ParsedRoute, new_route_definition, ok, apply_predicates, apply_predicate, check_endpoints,
  get_string_args, strings, backend_type_of,
}
use skipper.Eskip.Canonical.{canonical}
use skipper.Eskip.Canonical.Counts.{new_route_definition-canonical, is_void}

scan_escaped-scan_slow_example :
    scan_escaped b'"' (codes "abc\" -> <shunt>") ≡ scan_slow b'"' false (codes "abc\" -> <shunt>")
scan_escaped-scan_slow_example = scan_escaped-scan_slow b'"' (codes "abc\" -> <shunt>")

scan_string_literal-escape_example :
    scan_string_literal b'"' (b'"' ∷ escape (codes "a\"b\\n") (b'"' ∷ []) ++ b'"' ∷ codes ")")
    ≡ scanned (token stringliteral (codes "a\"b\\n")) (codes ")")
scan_string_literal-escape_example = scan_string_literal-escape (codes "a\"b\\n") (codes ")")

scan_regexp_literal-escape_example :
    scan_regexp_literal (b'/' ∷ escape (codes "^/[a-z/]+\\d$") (b'/' ∷ []) ++ b'/' ∷ codes ")")
    ≡ scanned (token regexpliteral (codes "^/[a-z/]+\\d$")) (codes ")")
scan_regexp_literal-escape_example =
    scan_regexp_literal-escape (codes "^/[a-z/]+\\d$") (codes ")") refl refl

scan_regexp_literal-escape_open_example :
    scan_regexp_literal (b'/' ∷ escape (codes "\\[a") (b'/' ∷ []) ++ b'/' ∷ [])
    ≡ failed (token regexpliteral (codes "\\[a/")) [] incomplete_token
scan_regexp_literal-escape_open_example = scan_regexp_literal-escape_open (codes "\\[a") refl refl

abbrev lexer : EskipLex
lexer = record {
  start = none;
  code = codes "  // all\nr: * -> <shunt>";
  last_token = [];
  last_route_id = [];
  err = none;
  initial_length = 30;
}

lex-LexOutcome_example :
    (m : EskipLex) × (r : LexResult) × (lex lexer ≡ some (m, r)) × LexOutcome lexer m r
lex-LexOutcome_example = lex-LexOutcome lexer (omega arith)

abbrev no_float : ℕ → Bytes
no_float f = []

abbrev some_args : List Arg
some_args = int_arg (negsuc 4) ∷ string_arg (codes "a, b") ∷ []

call_string-Lexes_example :
    Lexes
      (call_string (λ f. true) no_float no_float (codes "set") some_args ++ codes " -> <shunt>")
      (token symbol (codes "set")
        ∷ token openparen (codes "(")
        ∷ (arg_tokens some_args ++ token closeparen (codes ")") ∷ []))
      (codes " -> <shunt>")
call_string-Lexes_example =
    call_string-Lexes (λ f. true) no_float no_float b's' (codes "et") some_args
      (codes " -> <shunt>") refl refl refl

abbrev by_name : SliceSort Predicate
by_name = stable_sort (λ p q. bytes_less p.name q.name)

abbrev by_address : SliceSort LbEndpoint
by_address = stable_sort (λ a b. bytes_less a.address b.address)

abbrev parsed : ParsedRoute
parsed = record {
  id = codes "r";
  predicates =
      predicate (codes "Path") (string_arg (codes "/a") ∷ [])
      ∷ predicate (codes "Host") (string_arg (codes "x") ∷ [])
      ∷ predicate (codes "*") []
      ∷ predicate (codes "Traffic") (float_arg 1 ∷ [])
      ∷ [];
  filters = [];
  shunt = true;
  loopback = false;
  dynamic = false;
  lb_backend = false;
  forward = false;
  backend = [];
  lb_algorithm = [];
  lb_endpoints = [];
}

abbrev scheme_of : Bytes → Option Bytes
scheme_of s = some (codes "http")

abbrev new_lb_endpoint : Bytes → LbEndpoint
new_lb_endpoint s = record { address = s; zone = [] }

abbrev defined : Route
defined = record empty_route {
  id = codes "r";
  path = codes "/a";
  host_regexps = codes "x" ∷ [];
  predicates = predicate (codes "Traffic") (float_arg 1 ∷ []) ∷ [];
  shunt = true;
  backend_type = shunt_backend;
}

parsed-defined : new_route_definition scheme_of new_lb_endpoint parsed ≡ ok defined
unfolding new_route_definition apply_predicates apply_predicate check_endpoints get_string_args
    strings bytes_eq backend_type_of
parsed-defined = refl

new_route_definition-canonical_example :
    count_of (λ p. bytes_eq p.name (codes "Host")) (canonical by_name by_address defined).predicates
    ≡ count_of (λ p. bytes_eq p.name (codes "Host") && not (is_void p)) parsed.predicates
new_route_definition-canonical_example =
    new_route_definition-canonical scheme_of new_lb_endpoint by_name by_address
      (λ p. bytes_eq p.name (codes "Host")) parsed defined parsed-defined
