-- ===== src/Eskip/Printer/Tokens.antt =====
-- The calls that eskip/string.go prints, read token by token with eskip/lexer.go.
use skipper.Prelude.{
  ℕ, zero, suc, ◌+◌, ◌≡◌, refl, Bool, true, false, not, ◌||◌, List, [], ◌∷◌, ◌++◌, ◌==◌,
  append_assoc, all, none, some, arith, ◌%◌, List-cases, ◌/◌, inl, inr, ap, ◌<◌, length,
  length-append,
}
use skipper.Prelude.Int.{ℤ, pos, negsuc}
use skipper.Prelude.Bytes.{replace_all, Bytes, codes, join, decimal, digits_from, format_int}
use skipper.Eskip.Route.{Arg, int_arg, float_arg, string_arg, text_arg, other_arg}
use skipper.Eskip.Lexer.{
  Token, token, scanned, stringliteral, number, symbol, openparen, closeparen, comma, scan,
  scan_whitespace, scan_digits, scan_number, scan_symbol, scan_while, is_symbol_char, is_alpha,
  is_underscore, is_digit, is_decimal_char, ends_decimal, scan_other,
}
use skipper.Eskip.Printer.{
  escape, quoted, arg_string, args_string, call_string, escape_chars, escape_controls, replace_all,
}
use skipper.Eskip.Printer.Literals.{scan_string_literal-escape}

-- The scans give these tokens, and leave the end of the code.
pub data Lexes : Bytes → List Token → Bytes → Type 0 where
  done : {code : Bytes} → Lexes code [] code
  more :
      {code cs rest end : Bytes} {c : ℕ} {t : Token} {ts : List Token}
      → scan_whitespace code ≡ c ∷ cs
      → scan c cs ≡ scanned t rest
      → Lexes rest ts end
      → Lexes code (t ∷ ts) end

Lexes-append :
    {a b c : Bytes} {ts us : List Token} → Lexes a ts b → Lexes b us c → Lexes a (ts ++ us) c
Lexes-append done m = m
Lexes-append (more w s l) m = more w s (Lexes-append l m)

-- What comes after an argument: a comma or the parenthesis.
abbrev After : Bytes → Type 0
After [] = false ≡ true
After (c ∷ cs) = (c == b',' || c == b')') ≡ true

-- The token of an argument that is no float.
abbrev pub arg_token : Arg → Token
arg_token (int_arg n) = token number (format_int n)
arg_token (float_arg f) = token number []
arg_token (string_arg s) = token stringliteral s
arg_token (text_arg (some t)) = token stringliteral t
arg_token (text_arg none) = token stringliteral (codes "[error]")
arg_token (other_arg s) = token stringliteral s

abbrev pub is_float : Arg → Bool
is_float (float_arg f) = true
is_float _ = false

Lexes-quoted : (s rest : Bytes) → Lexes (quoted s ++ rest) (token stringliteral s ∷ []) rest
unfolding scan_whitespace scan
Lexes-quoted s rest =
    more refl
      (rw (append_assoc (escape s (codes "\"")) (codes "\"") rest)
        (scan_string_literal-escape s rest))
      done

all_append : (p : ℕ → Bool) (s t : Bytes) → all p s ≡ true → all p t ≡ true → all p (s ++ t) ≡ true
all_append p [] t a b = b
all_append p (c ∷ s) t a b = ground (arith, all_append p s t)

digits_from-digits : (fuel n : ℕ) → all is_digit (digits_from fuel n) ≡ true
unfolding digits_from
digits_from-digits zero n = refl
digits_from-digits (suc fuel) n =
    let last : all is_digit ((b'0' + n % 10) ∷ []) ≡ true = ground arith in
    let longer =
      all_append is_digit (digits_from fuel (n / 10)) ((b'0' + n % 10) ∷ [])
        (digits_from-digits fuel (n / 10)) last in
    ground arith

digits_from_pos : (fuel n : ℕ) → 0 < length (digits_from (suc fuel) n)
unfolding digits_from
digits_from_pos fuel n =
    ground (arith, length-append (digits_from fuel (n / 10)) ((b'0' + n % 10) ∷ []))

decimal_cons :
    (n : ℕ) → (c : ℕ) × (cs : Bytes) × (decimal n ≡ c ∷ cs) × (all is_digit (c ∷ cs) ≡ true)
unfolding decimal digits_from
decimal_cons n = elim (List-cases (decimal n)) [
  | inl e ↦ absurd (omega (arith, digits_from_pos n n, ap length e))
  | inr (c, cs, e) ↦ (c, cs, e, rw e at (digits_from-digits (suc n) n))
]

scan_digits-append :
    (d : Bool) (s rest : Bytes)
    → all is_digit s ≡ true
    → After rest
    → scan_digits d (s ++ rest) ≡ (s, rest)
unfolding scan_digits
scan_digits-append d [] [] h a = cc
scan_digits-append d [] (c ∷ cs) h a = ground arith
scan_digits-append d (b ∷ s) rest h a =
    let plain : (d || is_decimal_char b) ≡ d = ground arith in
    let read : all is_digit s ≡ true = ground arith in
    let later = scan_digits-append d s rest read a in rw plain (ground arith)

ends_decimal_digits : (s : Bytes) → all is_digit s ≡ true → ends_decimal s ≡ false
unfolding ends_decimal
ends_decimal_digits [] h = refl
ends_decimal_digits (c ∷ []) h = ground arith
ends_decimal_digits (c ∷ d ∷ s) h = ground (arith, ends_decimal_digits (d ∷ s))

scan_digit :
    (c : ℕ) (cs rest : Bytes)
    → all is_digit (c ∷ cs) ≡ true
    → After rest
    → scan c (cs ++ rest) ≡ scanned (token number (c ∷ cs)) rest
unfolding scan scan_other scan_number
scan_digit c cs rest h a =
    ground (arith, scan_digits-append false (c ∷ cs) rest h a, ends_decimal_digits (c ∷ cs) h)

scan_minus :
    (c : ℕ) (cs rest : Bytes)
    → all is_digit (c ∷ cs) ≡ true
    → After rest
    → scan b'-' (c ∷ cs ++ rest) ≡ scanned (token number (b'-' ∷ c ∷ cs)) rest
unfolding scan scan_number ends_decimal
scan_minus c cs rest h a =
    ground (arith, scan_digits-append false (c ∷ cs) rest h a, ends_decimal_digits (c ∷ cs) h)

scan_whitespace_digit : (c : ℕ) (cs : Bytes) → is_digit c ≡ true → scan_whitespace (c ∷ cs) ≡ c ∷ cs
unfolding scan_whitespace
scan_whitespace_digit c cs h = ground arith

Lexes-int :
    (n : ℤ) (rest : Bytes)
    → After rest
    → Lexes (format_int n ++ rest) (token number (format_int n) ∷ []) rest
unfolding format_int scan_whitespace
Lexes-int (pos n) rest a =
    let (c, cs, e, digits) = decimal_cons n in
    let first : is_digit c ≡ true = ground arith in
    rw e (more (scan_whitespace_digit c (cs ++ rest) first) (scan_digit c cs rest digits a) done)
Lexes-int (negsuc n) rest a =
    let (c, cs, e, digits) = decimal_cons (n + 1) in
    rw e (more refl (scan_minus c cs rest digits a) done)

Lexes-arg :
    (is_whole : ℕ → Bool) (format_whole format_general : ℕ → Bytes) (a : Arg) (rest : Bytes)
    → is_float a ≡ false
    → After rest
    → Lexes (arg_string is_whole format_whole format_general a ++ rest) (arg_token a ∷ []) rest
unfolding arg_string escape escape_chars escape_controls replace_all
Lexes-arg w f g (int_arg n) rest h a = Lexes-int n rest a
Lexes-arg w f g (float_arg x) rest h a = cc
Lexes-arg w f g (string_arg s) rest h a = Lexes-quoted s rest
Lexes-arg w f g (text_arg (some t)) rest h a = Lexes-quoted t rest
Lexes-arg w f g (text_arg none) rest h a = Lexes-quoted (codes "[error]") rest
Lexes-arg w f g (other_arg s) rest h a = Lexes-quoted s rest

abbrev pub more_tokens : List Arg → List Token
more_tokens [] = []
more_tokens (a ∷ args) = token comma (codes ",") ∷ arg_token a ∷ more_tokens args

-- The tokens of a list of arguments, with a comma between two.
abbrev pub arg_tokens : List Arg → List Token
arg_tokens [] = []
arg_tokens (a ∷ args) = arg_token a ∷ more_tokens args

Lexes-space :
    {code end : Bytes} {t : Token} {ts : List Token}
    → Lexes code (t ∷ ts) end
    → Lexes (b' ' ∷ code) (t ∷ ts) end
unfolding scan_whitespace
Lexes-space (more w s l) = more w s l

Lexes-comma :
    {code end : Bytes} {t : Token} {ts : List Token}
    → Lexes code (t ∷ ts) end
    → Lexes (b',' ∷ b' ' ∷ code) (token comma (codes ",") ∷ t ∷ ts) end
unfolding scan_whitespace scan
Lexes-comma l = more refl refl (Lexes-space l)

After-append : (s rest : Bytes) → After s → After (s ++ rest)
After-append [] rest a = cc
After-append (c ∷ s) rest a = a

scan_while-append :
    (p : ℕ → Bool) (s : Bytes) (x : ℕ) (rest : Bytes)
    → all p s ≡ true
    → p x ≡ false
    → scan_while p (s ++ x ∷ rest) ≡ (s, x ∷ rest)
unfolding scan_while
scan_while-append p [] x rest h e = ground arith
scan_while-append p (c ∷ s) x rest h e = ground (arith, scan_while-append p s x rest)

scan_symbol_open :
    (c : ℕ) (cs rest : Bytes)
    → (is_alpha c || is_underscore c) ≡ true
    → all is_symbol_char cs ≡ true
    → scan c (cs ++ b'(' ∷ rest) ≡ scanned (token symbol (c ∷ cs)) (b'(' ∷ rest)
unfolding scan scan_other scan_symbol
scan_symbol_open c cs rest first h =
    let whole : all is_symbol_char (c ∷ cs) ≡ true = ground arith in
    ground (arith, scan_while-append is_symbol_char (c ∷ cs) b'(' rest whole refl)

whitespace_symbol :
    (c : ℕ) (cs : Bytes)
    → (is_alpha c || is_underscore c) ≡ true
    → scan_whitespace (c ∷ cs) ≡ c ∷ cs
unfolding scan_whitespace
whitespace_symbol c cs first = ground arith

module _ (is_whole : ℕ → Bool) (format_whole format_general : ℕ → Bytes) where
  Lexes-args :
      (a : Arg) (args : List Arg) (rest : Bytes)
      → all (λ x. not (is_float x)) (a ∷ args) ≡ true
      → After rest
      → Lexes
          (args_string is_whole format_whole format_general (a ∷ args) ++ rest)
          (arg_tokens (a ∷ args))
          rest
  unfolding args_string join
  Lexes-args a [] rest h after =
      Lexes-arg is_whole format_whole format_general a rest (ground arith) after
  Lexes-args a (b ∷ args) rest h after =
      let s = arg_string is_whole format_whole format_general a in
      let later = args_string is_whole format_whole format_general (b ∷ args) in
      rw (append_assoc s (b',' ∷ b' ' ∷ later) rest) (
        Lexes-append
          (Lexes-arg is_whole format_whole format_general a (b',' ∷ b' ' ∷ later ++ rest)
            (ground arith) refl)
          (Lexes-comma (Lexes-args b args rest (ground arith) after)))

  Lexes-all_args :
      (args : List Arg) (rest : Bytes)
      → all (λ x. not (is_float x)) args ≡ true
      → After rest
      → Lexes (args_string is_whole format_whole format_general args ++ rest) (arg_tokens args) rest
  unfolding args_string join
  Lexes-all_args [] rest h after = done
  Lexes-all_args (a ∷ args) rest h after = Lexes-args a args rest h after

  -- The text of a filter or a predicate whose name is a symbol and whose arguments are no floats is
  -- read as its name, a parenthesis, each argument with its value, with commas between them, and a
  -- parenthesis; the rest of the code is left.
  pub call_string-Lexes :
      (c : ℕ) (cs : Bytes) (args : List Arg) (rest : Bytes)
      → (is_alpha c || is_underscore c) ≡ true
      → all is_symbol_char cs ≡ true
      → all (λ x. not (is_float x)) args ≡ true
      → Lexes
          (call_string is_whole format_whole format_general (c ∷ cs) args ++ rest)
          (token symbol (c ∷ cs)
            ∷ token openparen (codes "(")
            ∷ (arg_tokens args ++ token closeparen (codes ")") ∷ []))
          rest
  unfolding call_string scan_whitespace scan
  call_string-Lexes c cs args rest first h plain =
      let s = args_string is_whole format_whole format_general args in
      rw (append_assoc (c ∷ cs) (b'(' ∷ (s ++ codes ")")) rest, append_assoc s (codes ")") rest)
        (more (whitespace_symbol c (cs ++ b'(' ∷ (s ++ b')' ∷ rest)) first)
          (scan_symbol_open c cs (s ++ b')' ∷ rest) first h)
          (more refl refl
            (Lexes-append (Lexes-all_args args (b')' ∷ rest) plain refl) (more refl refl done))))
