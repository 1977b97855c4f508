-- ===== src/Eskip/Printer/Literals.antt =====
-- The literals that eskip/string.go prints, read by eskip/lexer.go.
use skipper.Prelude.{
  ℕ, ◌≡◌, refl, Bool, true, false, not, ◌||◌, [], ◌∷◌, ◌++◌, ◌==◌, append_assoc, append-nil, all,
  arith,
}
use skipper.Prelude.Bytes.{Bytes}
use skipper.Eskip.Lexer.{
  scan_slow, unescape, prepend, next_group, scan_regexp, scan_regexp_from, scanned, failed, token,
  stringliteral, regexpliteral, incomplete_token, scan_string_literal, scan_regexp_literal,
}
use skipper.Eskip.Lexer.Fast.{scan_escaped-scan_slow}
use skipper.Eskip.Printer.{escape}
use skipper.Eskip.Printer.Escape.{escaped_byte, escape_quote-cons, escape_slash-cons, escape-nil}

quote : ℕ
quote = b'"'

-- The loop undoes what was written for one byte.
scan_slow_byte :
    (b : ℕ) (rest : Bytes)
    → scan_slow b'"' false (escaped_byte b'"' b ++ rest)
      ≡ prepend (b ∷ []) (scan_slow b'"' false rest)
unfolding scan_slow unescape
scan_slow_byte b rest = ground arith

scan_slow-escape :
    (s rest : Bytes) → scan_slow b'"' false (escape s (b'"' ∷ []) ++ b'"' ∷ rest) ≡ (s, b'"' ∷ rest)
unfolding scan_slow
scan_slow-escape [] rest = rw (escape-nil (b'"' ∷ [])) refl
scan_slow-escape (b ∷ s) rest =
    rw
      (
        escape_quote-cons b s,
        append_assoc (escaped_byte b'"' b) (escape s (b'"' ∷ [])) (b'"' ∷ rest),
        scan_slow_byte b (escape s (b'"' ∷ []) ++ b'"' ∷ rest),
        scan_slow-escape s rest,
      )
      refl

-- A text that is printed with escape between double quotes is read back as it was, whatever bytes
-- it has, and the scan ends after the closing quote.
pub scan_string_literal-escape :
    (s rest : Bytes)
    → scan_string_literal b'"' (b'"' ∷ escape s (b'"' ∷ []) ++ b'"' ∷ rest)
      ≡ scanned (token stringliteral s) rest
unfolding scan_string_literal
scan_string_literal-escape s rest =
    rw (scan_escaped-scan_slow b'"' (escape s (b'"' ∷ []) ++ b'"' ∷ rest), scan_slow-escape s rest)
      refl

-- The control characters that escape writes as letters.
abbrev pub is_control : ℕ → Bool
is_control b = b == 7 || b == 8 || b == 12 || b == 10 || b == 13 || b == 9 || b == 11

-- Whether a group is open at the end of a text, where brackets after a backslash count as well.
abbrev pub open_group : Bool → Bytes → Bool
open_group inside [] = inside
open_group inside (c ∷ cs) = open_group (next_group false inside c) cs

scan_regexp_byte :
    (inside : Bool) (b : ℕ) (rest : Bytes)
    → is_control b ≡ false
    → scan_regexp_from false inside (escaped_byte b'/' b ++ rest)
      ≡ prepend (b ∷ []) (scan_regexp_from false (next_group false inside b) rest)
unfolding scan_regexp_from
scan_regexp_byte inside b rest h = ground arith

scan_regexp_from-escape :
    (inside : Bool) (s rest : Bytes)
    → all (λ b. not (is_control b)) s ≡ true
    → scan_regexp_from false inside (escape s (b'/' ∷ []) ++ rest)
      ≡ prepend s (scan_regexp_from false (open_group inside s) rest)
scan_regexp_from-escape inside [] rest h = rw (escape-nil (b'/' ∷ [])) refl
scan_regexp_from-escape inside (b ∷ s) rest h =
    let plain : is_control b ≡ false = ground arith in
    let plain_rest : all (λ b. not (is_control b)) s ≡ true = ground arith in
    rw
      (
        escape_slash-cons b s,
        append_assoc (escaped_byte b'/' b) (escape s (b'/' ∷ [])) rest,
        scan_regexp_byte inside b (escape s (b'/' ∷ []) ++ rest) plain,
        scan_regexp_from-escape (next_group false inside b) s rest plain_rest,
      )
      refl

-- A regular expression without control characters that is printed between slashes is read back as
-- it was, and the scan ends after the closing slash, if the brackets that the scan counts, those
-- after a backslash included, close each group.
pub scan_regexp_literal-escape :
    (s rest : Bytes)
    → all (λ b. not (is_control b)) s ≡ true
    → open_group false s ≡ false
    → scan_regexp_literal (b'/' ∷ escape s (b'/' ∷ []) ++ b'/' ∷ rest)
      ≡ scanned (token regexpliteral s) rest
unfolding scan_regexp_literal scan_regexp scan_regexp_from
scan_regexp_literal-escape s rest h closed =
    rw (scan_regexp_from-escape false s (b'/' ∷ rest) h, closed) (rw (append-nil s) refl)

-- If the brackets that the scan counts leave a group open at the end of a regular expression without
-- control characters, what is printed for it is not read: the closing slash is taken as a part of
-- the expression, and the token is incomplete when nothing follows.
pub scan_regexp_literal-escape_open :
    (s : Bytes)
    → all (λ b. not (is_control b)) s ≡ true
    → open_group false s ≡ true
    → scan_regexp_literal (b'/' ∷ escape s (b'/' ∷ []) ++ b'/' ∷ [])
      ≡ failed (token regexpliteral (s ++ b'/' ∷ [])) [] incomplete_token
unfolding scan_regexp_literal scan_regexp scan_regexp_from
scan_regexp_literal-escape_open s h opened =
    rw (scan_regexp_from-escape false s (b'/' ∷ []) h, opened) refl
