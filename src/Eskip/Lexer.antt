-- ===== src/Eskip/Lexer.antt =====
-- eskip/lexer.go: the tokens of a route document. Code is a list of bytes; a scanner returns the
-- token, the rest of the code and the error, which is none for nil.
pub mod Fast
pub mod State
pub mod Progress
pub mod Ends
use skipper.Prelude.{
  ℕ, zero, suc, ◌+◌, ◌-◌, Bool, true, false, not, ◌&&◌, ◌||◌, List, [], ◌∷◌, ◌++◌, Option, none,
  some, ◌==◌, leb, if◌then◌else◌, length, take, drop,
}
use skipper.Prelude.Bytes.{Bytes, codes, has_prefix}

-- The ids of the tokens, which the generated parser numbers.
pub data TokenId : Type 0 where
  no_id and any arrow closeparen colon comma number openparen regexpliteral : TokenId
  semicolon stringliteral symbol openarrow closearrow shunt loopback dynamic forward : TokenId

pub record Token : Type 0 where
  pub id : TokenId
  pub val : Bytes

abbrev pub token : TokenId → Bytes → Token
token i v = record { id = i; val = v }

pub data LexError : Type 0 where
  invalid_character incomplete_token unexpected_token void eof : LexError

pub record Scanned : Type 0 where
  pub tok : Token
  pub rest : Bytes
  pub err : Option LexError

abbrev pub scanned : Token → Bytes → Scanned
scanned t rest = record { tok = t; rest = rest; err = none }

abbrev pub failed : Token → Bytes → LexError → Scanned
failed t rest e = record { tok = t; rest = rest; err = some e }

abbrev pub escape_char : ℕ
escape_char = b'\\'

abbrev pub is_newline : ℕ → Bool
is_newline c = c == b'\n'

abbrev pub is_underscore : ℕ → Bool
is_underscore c = c == b'_'

abbrev pub is_alpha : ℕ → Bool
is_alpha c = leb b'a' c && leb c b'z' || leb b'A' c && leb c b'Z'

abbrev pub is_digit : ℕ → Bool
is_digit c = leb b'0' c && leb c b'9'

abbrev pub is_symbol_char : ℕ → Bool
is_symbol_char c = is_alpha c || is_digit c || is_underscore c

abbrev pub is_decimal_char : ℕ → Bool
is_decimal_char c = c == b'.'

abbrev pub is_number_char : ℕ → Bool
is_number_char c = is_digit c || is_decimal_char c

-- A byte before what a scan collects.
abbrev pub prepend : Bytes → Bytes × Bytes → Bytes × Bytes
prepend bs r = (bs ++ r.0, r.1)

unfoldable pub scan_while : (ℕ → Bool) → Bytes → Bytes × Bytes
scan_while p [] = ([], [])
scan_while p (c ∷ cs) =
    let r = scan_while p cs in if not (p c) then ([], c ∷ cs) else (c ∷ r.0, r.1)

unfoldable pub scan_void : (ℕ → Bool) → Bytes → Bytes
scan_void p code = (scan_while p code).1

-- The fast path: what is before the first delimiter, if no escape character comes first.
unfoldable pub scan_fast : ℕ → Bytes → Option (Bytes × Bytes)
scan_fast delimiter [] = none
scan_fast delimiter (c ∷ cs) =
    let later = scan_fast delimiter cs in
    if c == delimiter
    then some ([], c ∷ cs)
    else if c == escape_char
    then none
    else elim later [ none ↦ none | some r ↦ some (c ∷ r.0, r.1) ]

-- What is written for a byte after an escape character.
unfoldable pub unescape : ℕ → ℕ → Bytes
unescape delimiter c =
    if c == b'a'
    then 7 ∷ []
    else if c == b'b'
    then 8 ∷ []
    else if c == b'f'
    then 12 ∷ []
    else if c == b'n'
    then 10 ∷ []
    else if c == b'r'
    then 13 ∷ []
    else if c == b't'
    then 9 ∷ []
    else if c == b'v'
    then 11 ∷ []
    else if c == delimiter || c == escape_char
    then c ∷ []
    else escape_char ∷ c ∷ []

-- The loop with the flag `escaped`.
unfoldable pub scan_slow : ℕ → Bool → Bytes → Bytes × Bytes
scan_slow delimiter escaped [] = ([], [])
scan_slow delimiter escaped (c ∷ cs) =
    let escape = not escaped && c == escape_char in
    let later = scan_slow delimiter escape cs in
    if escaped
    then prepend (unescape delimiter c) later
    else if c == delimiter
    then ([], c ∷ cs)
    else if escape
    then later
    else (c ∷ later.0, later.1)

unfoldable pub scan_escaped : ℕ → Bytes → Bytes × Bytes
scan_escaped delimiter code = elim (scan_fast delimiter code) [
  | some r ↦ r
  | none ↦ scan_slow delimiter false code
]

-- The state of insideGroup after a byte.
abbrev pub next_group : Bool → Bool → ℕ → Bool
next_group escaped inside c =
    if not escaped && not inside && c == b'['
    then true
    else if not escaped && inside && c == b']'
    then false
    else inside

-- The loop of scanRegexp, with the flags `escaped` and `insideGroup`.
unfoldable pub scan_regexp_from : Bool → Bool → Bytes → Bytes × Bytes
scan_regexp_from escaped inside [] = ([], [])
scan_regexp_from escaped inside (c ∷ cs) =
    let group = next_group escaped inside c in
    let escape = not escaped && c == escape_char in
    let later = scan_regexp_from escape group cs in
    if escaped
    then prepend
        (if not (c == b'/') && not (c == escape_char) then escape_char ∷ c ∷ [] else c ∷ []) later
    else if c == b'/' && not group
    then ([], c ∷ cs)
    else if escape
    then later
    else (c ∷ later.0, later.1)

unfoldable pub scan_regexp : Bytes → Bytes × Bytes
scan_regexp code = scan_regexp_from false false code

-- The end of scanRegexpLiteral and scanStringLiteral: the delimiter is dropped.
abbrev pub literal : TokenId → Bytes × Bytes → Scanned
literal i (val, []) = failed (token i val) [] incomplete_token
literal i (val, (_ ∷ rest)) = scanned (token i val) rest

unfoldable pub scan_regexp_literal : Bytes → Scanned
scan_regexp_literal code = literal regexpliteral (scan_regexp (drop 1 code))

unfoldable pub scan_comment : Bytes → Bytes
scan_comment code = scan_void (λ c. not (is_newline c)) code

unfoldable pub scan_regexp_or_comment : Bytes → Scanned
scan_regexp_or_comment (c ∷ d ∷ cs) =
    if d == b'/'
    then failed (token no_id []) (scan_comment (c ∷ d ∷ cs)) void
    else scan_regexp_literal (c ∷ d ∷ cs)
scan_regexp_or_comment code = failed (token no_id []) code invalid_character

unfoldable pub scan_string_literal : ℕ → Bytes → Scanned
scan_string_literal delimiter code = literal stringliteral (scan_escaped delimiter (drop 1 code))

abbrev pub is_space : ℕ → Bool
is_space c =
    c == b' ' || c == 10 || c == 9 || c == 11 || c == 12 || c == 13 || c == 0x85 || c == 0xA0

unfoldable pub scan_whitespace : Bytes → Bytes
scan_whitespace [] = []
scan_whitespace (c ∷ cs) = if not (is_space c) then c ∷ cs else scan_whitespace cs

-- scanWhile with the predicate of scanNumber, which remembers whether it saw a decimal point.
unfoldable pub scan_digits : Bool → Bytes → Bytes × Bytes
scan_digits decimal [] = ([], [])
scan_digits decimal (c ∷ cs) =
    let later = scan_digits (decimal || is_decimal_char c) cs in
    if (if is_decimal_char c then not decimal else is_digit c)
    then (c ∷ later.0, later.1)
    else ([], c ∷ cs)

-- Whether the last byte is the decimal point.
unfoldable pub ends_decimal : Bytes → Bool
ends_decimal [] = false
ends_decimal (c ∷ []) = is_decimal_char c
ends_decimal (c ∷ d ∷ cs) = ends_decimal (d ∷ cs)

abbrev pub number_scanned : Bytes × Bytes → Scanned
number_scanned r =
    if ends_decimal r.0
    then failed (token number r.0) r.1 incomplete_token
    else scanned (token number r.0) r.1

unfoldable pub scan_number : Bytes → Scanned
scan_number [] = number_scanned ([], [])
scan_number (c ∷ cs) =
    if c == b'-'
    then number_scanned (prepend (c ∷ []) (scan_digits false cs))
    else number_scanned (scan_digits false (c ∷ cs))

unfoldable pub scan_symbol : Bytes → Scanned
scan_symbol code = let r = scan_while is_symbol_char code in scanned (token symbol r.0) r.1

-- scan of a fixedScanner.
abbrev pub fixed : TokenId → Bytes → Bytes → Scanned
fixed i val code = scanned (token i val) (drop (length val) code)

-- openarrowPrefixedTokens, and the loop over them.
abbrev pub arrow_tokens : List (TokenId × Bytes)
arrow_tokens =
    (shunt, codes "<shunt>")
    ∷ (loopback, codes "<loopback>")
    ∷ (dynamic, codes "<dynamic>")
    ∷ (forward, codes "<forward>")
    ∷ []

unfoldable pub scan_arrow : List (TokenId × Bytes) → Bytes → Scanned
scan_arrow [] code = fixed openarrow (codes "<") code
scan_arrow ((i, val) ∷ ts) code =
    if has_prefix code val then fixed i val code else scan_arrow ts code

abbrev pub second : (ℕ → Bool) → Bytes → Bool
second p (c ∷ d ∷ cs) = p d
second p _ = false

-- What follows the switch of scan.
unfoldable pub scan_other : ℕ → Bytes → Scanned
scan_other c code =
    if is_number_char c
    then scan_number code
    else if is_alpha c || is_underscore c
    then scan_symbol code
    else failed (token no_id []) [] unexpected_token

-- scan, which reads the first byte of its code.
unfoldable pub scan : ℕ → Bytes → Scanned
scan c cs =
    let code = c ∷ cs in
    if c == b','
    then fixed comma (codes ",") code
    else if c == b')'
    then fixed closeparen (codes ")") code
    else if c == b'('
    then fixed openparen (codes "(") code
    else if c == b':'
    then fixed colon (codes ":") code
    else if c == b';'
    then fixed semicolon (codes ";") code
    else if c == b'>'
    then fixed closearrow (codes ">") code
    else if c == b'*'
    then fixed any (codes "*") code
    else if c == b'&' && second (λ d. d == b'&') code
    then fixed and (codes "&&") code
    else if c == b'-' && second (λ d. d == b'>') code
    then fixed arrow (codes "->") code
    else if c == b'-' && second is_number_char code
    then scan_number code
    else if c == b'/'
    then scan_regexp_or_comment code
    else if c == b'"'
    then scan_string_literal b'"' code
    else if c == b'`'
    then scan_string_literal b'`' code
    else if c == b'<'
    then scan_arrow arrow_tokens code
    else scan_other c code
