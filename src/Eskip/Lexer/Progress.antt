-- ===== src/Eskip/Lexer/Progress.antt =====
-- What a scan of eskip/lexer.go consumes.
use skipper.Prelude.{
  ℕ, zero, suc, ◌-◌, ◌≤◌, ◌<◌, ◌≡◌, ◌≢◌, ◌⊎◌, Bool, true, false, List, [], ◌∷◌, some, if◌then◌else◌,
  length, drop, All, refl, inl, inr, arith, not, ◌&&◌, ◌||◌, ◌==◌,
}
use skipper.Prelude.Bytes.{Bytes, codes, has_prefix}
use skipper.Eskip.Lexer.Fast.{scan_escaped-scan_slow}
use skipper.Eskip.Lexer.{
  TokenId, Scanned, escape_char, is_newline, is_underscore, is_alpha, is_symbol_char,
  is_decimal_char, is_number_char, scan_while, scan_void, scan_slow, next_group, scan_regexp_from,
  scan_regexp, literal, scan_regexp_literal, scan_comment, scan_regexp_or_comment,
  scan_string_literal, scan_whitespace, scan_digits, ends_decimal, number_scanned, scan_number,
  scan_symbol, fixed, arrow_tokens, scan_arrow, second, scan_other, scan, and, any, arrow,
  closeparen, colon, comma, openparen, regexpliteral, semicolon, stringliteral, openarrow,
  closearrow, invalid_character, unexpected_token, eof,
}

pub length-scan_while : (p : ℕ → Bool) (code : Bytes) → length (scan_while p code).1 ≤ length code
unfolding scan_while
length-scan_while p [] = omega arith
length-scan_while p (c ∷ cs) = ground (arith, length-scan_while p cs)

length-scan_slow : (d : ℕ) (e : Bool) (code : Bytes) → length (scan_slow d e code).1 ≤ length code
unfolding scan_slow
length-scan_slow d e [] = omega arith
length-scan_slow d true (c ∷ cs) = ground (arith, length-scan_slow d false cs)
length-scan_slow d false (c ∷ cs) =
    ground (arith, length-scan_slow d true cs, length-scan_slow d false cs)

length-scan_regexp_from :
    (e i : Bool) (code : Bytes) → length (scan_regexp_from e i code).1 ≤ length code
unfolding scan_regexp_from
length-scan_regexp_from e i [] = omega arith
length-scan_regexp_from e i (c ∷ cs) =
    ground (arith, length-scan_regexp_from (not e && c == escape_char) (next_group e i c) cs)

length-scan_digits : (d : Bool) (code : Bytes) → length (scan_digits d code).1 ≤ length code
unfolding scan_digits
length-scan_digits d [] = omega arith
length-scan_digits d (c ∷ cs) = ground (arith, length-scan_digits (d || is_decimal_char c) cs)

pub length-scan_whitespace : (code : Bytes) → length (scan_whitespace code) ≤ length code
unfolding scan_whitespace
length-scan_whitespace [] = omega arith
length-scan_whitespace (c ∷ cs) = ground (arith, length-scan_whitespace cs)

length-drop : (n : ℕ) (code : Bytes) → length (drop n code) ≡ length code - n
length-drop zero code = omega arith
length-drop (suc n) [] = omega arith
length-drop (suc n) (c ∷ cs) = omega (arith, length-drop n cs)

-- The rest of a token is shorter than the code, and its error is not eof, unless the error leaves
-- the code where it is.
unfoldable pub Consumes : ℕ → Bytes → Scanned → Type 0
Consumes c cs s =
    ((s.err ≡ some invalid_character) × (length s.rest ≤ length (c ∷ cs)))
    ⊎ (s.err ≡ some unexpected_token)
    ⊎ (length s.rest < length (c ∷ cs)) × (s.err ≢ some eof)

Consumes-fixed :
    (i : TokenId) (v : ℕ) (vs : Bytes) (c : ℕ) (cs : Bytes)
    → Consumes c cs (fixed i (v ∷ vs) (c ∷ cs))
unfolding Consumes
Consumes-fixed i v vs c cs = inr (inr (omega (arith, length-drop (length vs) cs), λ e. cc))

Consumes-literal :
    (i : TokenId) (r : Bytes × Bytes) (c : ℕ) (cs : Bytes)
    → length r.1 ≤ length cs
    → Consumes c cs (literal i r)
unfolding Consumes
Consumes-literal i (val, []) c cs h = inr (inr (omega arith, λ e. cc))
Consumes-literal i (val, (d ∷ rest)) c cs h = inr (inr (omega arith, λ e. cc))

Consumes-if :
    (c : ℕ) (cs : Bytes) (t : Bool) (a b : Scanned)
    → (t ≡ true → Consumes c cs a)
    → (t ≡ false → Consumes c cs b)
    → Consumes c cs (if t then a else b)
Consumes-if c cs true a b f g = f refl
Consumes-if c cs false a b f g = g refl

length-comment :
    (c d : ℕ) (cs : Bytes) → c ≡ b'/' → length (scan_comment (c ∷ d ∷ cs)) < length (c ∷ d ∷ cs)
unfolding scan_comment scan_void scan_while
length-comment c d cs h = ground (arith, length-scan_while (λ b. not (is_newline b)) cs)

Consumes-comment : (c : ℕ) (cs : Bytes) → c ≡ b'/' → Consumes c cs (scan_regexp_or_comment (c ∷ cs))
unfolding Consumes scan_regexp_or_comment scan_regexp_literal scan_regexp scan_comment scan_void
Consumes-comment c [] h = inl (refl, omega arith)
Consumes-comment c (d ∷ cs) h =
    Consumes-if c (d ∷ cs) (d == b'/') _ _ (λ _. inr (inr (length-comment c d cs h, λ e. cc)))
      (λ _.
        Consumes-literal regexpliteral (scan_regexp_from false false (d ∷ cs)) c (d ∷ cs)
          (length-scan_regexp_from false false (d ∷ cs)))

Consumes-string : (d c : ℕ) (cs : Bytes) → Consumes c cs (scan_string_literal d (c ∷ cs))
unfolding scan_string_literal
Consumes-string d c cs =
    rw (scan_escaped-scan_slow d cs)
      (Consumes-literal stringliteral (scan_slow d false cs) c cs (length-scan_slow d false cs))

Consumes-number :
    (c : ℕ) (cs : Bytes) (r : Bytes × Bytes)
    → length r.1 ≤ length cs
    → Consumes c cs (number_scanned r)
unfolding Consumes
Consumes-number c cs r h =
    Consumes-if c cs (ends_decimal r.0) _ _ (λ _. inr (inr (omega arith, λ e. cc)))
      (λ _. inr (inr (omega arith, λ e. cc)))

Consumes-scan_number :
    (c : ℕ) (cs : Bytes)
    → (c == b'-' || is_number_char c) ≡ true
    → Consumes c cs (scan_number (c ∷ cs))
unfolding scan_number scan_digits
Consumes-scan_number c cs h =
    let digits : (c == b'-') ≡ false → length (scan_digits false (c ∷ cs)).1 ≤ length cs =
      λ e. ground (arith, length-scan_digits (is_decimal_char c) cs) in
    Consumes-if c cs (c == b'-') _ _ (λ _. Consumes-number c cs _ (length-scan_digits false cs))
      (λ e. Consumes-number c cs _ (digits e))

Consumes-symbol :
    (c : ℕ) (cs : Bytes) → is_symbol_char c ≡ true → Consumes c cs (scan_symbol (c ∷ cs))
unfolding scan_symbol Consumes scan_while
Consumes-symbol c cs h = inr (ground (arith, length-scan_while is_symbol_char cs))

Consumes-arrow :
    (ts : List (TokenId × Bytes)) (c : ℕ) (cs : Bytes)
    → All (λ t. 0 < length t.1) ts
    → Consumes c cs (scan_arrow ts (c ∷ cs))
unfolding scan_arrow
Consumes-arrow [] c cs a = Consumes-fixed openarrow b'<' [] c cs
Consumes-arrow ((i, (v ∷ vs)) ∷ ts) c cs a =
    Consumes-if c cs (has_prefix (c ∷ cs) (v ∷ vs)) _ _ (λ _. Consumes-fixed i v vs c cs)
      (λ _. Consumes-arrow ts c cs a.1)
Consumes-arrow ((i, []) ∷ ts) c cs a = absurd (omega (arith, a.0))

Consumes-other : (c : ℕ) (cs : Bytes) → Consumes c cs (scan_other c (c ∷ cs))
unfolding scan_other Consumes
Consumes-other c cs =
    Consumes-if c cs (is_number_char c) _ _ (λ e. Consumes-scan_number c cs (ground arith))
      (λ _.
        Consumes-if c cs (is_alpha c || is_underscore c) _ _
          (λ e. Consumes-symbol c cs (ground arith)) (λ _. inr (inl refl)))

-- scan consumes at least a byte, unless it fails with an invalid character or an unexpected token.
pub scan-Consumes : (c : ℕ) (cs : Bytes) → Consumes c cs (scan c cs)
unfolding scan
scan-Consumes c cs =
    Consumes-if c cs (c == b',') _ _ (λ _. Consumes-fixed comma b',' [] c cs)
      λ _.
        Consumes-if c cs (c == b')') _ _ (λ _. Consumes-fixed closeparen b')' [] c cs)
          λ _.
            Consumes-if c cs (c == b'(') _ _ (λ _. Consumes-fixed openparen b'(' [] c cs)
              λ _.
                Consumes-if c cs (c == b':') _ _ (λ _. Consumes-fixed colon b':' [] c cs)
                  λ _.
                    Consumes-if c cs (c == b';') _ _ (λ _. Consumes-fixed semicolon b';' [] c cs)
                      λ _.
                        Consumes-if c cs (c == b'>') _ _
                          (λ _. Consumes-fixed closearrow b'>' [] c cs)
                          λ _.
                            Consumes-if c cs (c == b'*') _ _ (λ _. Consumes-fixed any b'*' [] c cs)
                              λ _.
                                Consumes-if c cs (c == b'&' && second (λ d. d == b'&') (c ∷ cs)) _ _
                                  (λ _. Consumes-fixed and b'&' (codes "&") c cs)
                                  λ _.
                                    Consumes-if c cs (c == b'-' && second (λ d. d == b'>') (c ∷ cs))
                                      _ _ (λ _. Consumes-fixed arrow b'-' (codes ">") c cs)
                                      λ _.
                                        Consumes-if c cs
                                          (c == b'-' && second is_number_char (c ∷ cs)) _ _
                                          (λ e. Consumes-scan_number c cs (ground arith))
                                          λ _.
                                            Consumes-if c cs (c == b'/') _ _
                                              (λ e. Consumes-comment c cs (ground arith))
                                              λ _.
                                                Consumes-if c cs (c == b'"') _ _
                                                  (λ _. Consumes-string b'"' c cs)
                                                  λ _.
                                                    Consumes-if c cs (c == b'`') _ _
                                                      (λ _. Consumes-string b'`' c cs)
                                                      λ _.
                                                        Consumes-if c cs (c == b'<') _ _
                                                          (λ _.
                                                            Consumes-arrow arrow_tokens c cs
                                                            (ground arith))
                                                          λ _. Consumes-other c cs
