-- ===== src/Eskip/Printer/Escape.antt =====
-- escape of eskip/string.go, byte by byte.
use skipper.Prelude.{ℕ, ◌≡◌, refl, [], ◌∷◌, ◌++◌, ap, ◌∙◌, ◌==◌, if◌then◌else◌, arith}
use skipper.Prelude.Bytes.{Bytes, codes, replace_all, replace_all-append}
use skipper.Eskip.Printer.{escape, escape_chars, escape_controls}

escape_chars-append :
    (s t cs : Bytes) → escape_chars (s ++ t) cs ≡ escape_chars s cs ++ escape_chars t cs
unfolding escape_chars
escape_chars-append s t [] = refl
escape_chars-append s t (c ∷ cs) =
    rw (replace_all-append c (b'\\' ∷ c ∷ []) s t)
      (escape_chars-append (replace_all c (b'\\' ∷ c ∷ []) s) (replace_all c (b'\\' ∷ c ∷ []) t) cs)

escape_controls-append :
    (s t : Bytes) → escape_controls (s ++ t) ≡ escape_controls s ++ escape_controls t
unfolding escape_controls
escape_controls-append s t = simp replace_all-append

pub escape-append : (s t cs : Bytes) → escape (s ++ t) cs ≡ escape s cs ++ escape t cs
unfolding escape
escape-append s t cs = simp (replace_all-append, escape_controls-append, escape_chars-append)

-- One byte: a letter after a backslash, or the byte.
abbrev pub escaped_byte : ℕ → ℕ → Bytes
escaped_byte d b =
    if b == b'\\'
    then codes "\\\\"
    else if b == 7
    then codes "\\a"
    else if b == 8
    then codes "\\b"
    else if b == 12
    then codes "\\f"
    else if b == 10
    then codes "\\n"
    else if b == 13
    then codes "\\r"
    else if b == 9
    then codes "\\t"
    else if b == 11
    then codes "\\v"
    else if b == d
    then b'\\' ∷ d ∷ []
    else b ∷ []

pub escape_quote : (b : ℕ) → escape (b ∷ []) (b'"' ∷ []) ≡ escaped_byte b'"' b
unfolding escape escape_chars escape_controls replace_all
escape_quote b = ground arith

pub escape_slash : (b : ℕ) → escape (b ∷ []) (b'/' ∷ []) ≡ escaped_byte b'/' b
unfolding escape escape_chars escape_controls replace_all
escape_slash b = ground arith

pub escape_quote-cons :
    (b : ℕ) (s : Bytes) → escape (b ∷ s) (b'"' ∷ []) ≡ escaped_byte b'"' b ++ escape s (b'"' ∷ [])
escape_quote-cons b s =
    escape-append (b ∷ []) s (b'"' ∷ []) ∙ ap (λ t. t ++ escape s (b'"' ∷ [])) (escape_quote b)

pub escape_slash-cons :
    (b : ℕ) (s : Bytes) → escape (b ∷ s) (b'/' ∷ []) ≡ escaped_byte b'/' b ++ escape s (b'/' ∷ [])
escape_slash-cons b s =
    escape-append (b ∷ []) s (b'/' ∷ []) ∙ ap (λ t. t ++ escape s (b'/' ∷ [])) (escape_slash b)

pub escape-nil : (cs : Bytes) → escape [] cs ≡ []
unfolding escape escape_controls replace_all escape_chars
escape-nil [] = refl
escape-nil (c ∷ cs) = escape-nil cs
