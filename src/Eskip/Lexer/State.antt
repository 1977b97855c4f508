-- ===== src/Eskip/Lexer/State.antt =====
-- eskipLex of eskip/lexer.go: the lexer that the generated parser calls.
use skipper.Prelude.{ℕ, zero, suc, ◌+◌, ◌-◌, [], ◌∷◌, Option, none, some, length}
use skipper.Prelude.Bytes.{Bytes}
use skipper.Eskip.Lexer.{
  TokenId, Token, LexError, Scanned, token, no_id, void, unexpected_token, eof, scan,
  scan_whitespace,
}

-- What Error puts in its message.
pub record ParseError : Type 0 where
  pub last_token : Bytes
  pub last_route_id : Bytes
  pub position : ℕ
  pub reason : LexError

-- The start token is none for 0. What the parser stores in the lexer is left out.
pub record EskipLex : Type 0 where
  pub start : Option ℕ
  pub code : Bytes
  pub last_token : Bytes
  pub last_route_id : Bytes
  pub err : Option ParseError
  pub initial_length : ℕ

unfoldable pub init : EskipLex → Option ℕ → Bytes → EskipLex
init l start code = record l { start = start; code = code; initial_length = length code }

abbrev pub Next : Type 0
Next = EskipLex × Token × Option LexError

-- What next does after scan, up to its call of itself.
abbrev pub after_scan : EskipLex → Scanned → (EskipLex → Option Next) → Option Next
after_scan l s again = elim s.err [
  | some unexpected_token ↦ some (l, token no_id [], some unexpected_token)
  | some void ↦ again (record l { code = s.rest })
  | some e ↦ some (record l { code = s.rest }, s.tok, some e)
  | none ↦ some (record l { code = s.rest; last_token = s.tok.val }, s.tok, none)
]

-- next, with fuel for its recursion; none is out of fuel.
unfoldable pub next_from : ℕ → EskipLex → Option Next
next_from zero l = none
next_from (suc fuel) l = elim (scan_whitespace l.code) [
  | [] ↦ some (record l { code = [] }, token no_id [], some eof)
  | c ∷ cs ↦ after_scan (record l { code = c ∷ cs }) (scan c cs) (λ m. next_from fuel m)
]

-- One more than the bytes that are left is fuel enough.
unfoldable pub next : EskipLex → Option Next
next l = next_from (length l.code + 1) l

unfoldable pub error : EskipLex → LexError → EskipLex
error l e = record l {
  err = some (record {
    last_token = l.last_token;
    last_route_id = l.last_route_id;
    position = l.initial_length - length l.code;
    reason = e;
  });
}

-- What Lex returns, with what it stores for the parser.
pub data LexResult : Type 0 where
  started : ℕ → LexResult
  read : TokenId → Bytes → LexResult
  stopped : LexResult

abbrev pub lexed : Next → EskipLex × LexResult
lexed (l, t, none) = (l, read t.id t.val)
lexed (l, t, some eof) = (l, stopped)
lexed (l, t, some e) = (error l e, stopped)

unfoldable pub lex : EskipLex → Option (EskipLex × LexResult)
lex l = elim l.start [
  | some s ↦ some (record l { start = none }, started s)
  | none ↦ elim (next l) [ none ↦ none | some r ↦ some (lexed r) ]
]
