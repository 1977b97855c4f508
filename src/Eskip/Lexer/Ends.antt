-- ===== src/Eskip/Lexer/Ends.antt =====
-- next and Lex of eskip/lexer.go end, and what they leave.
use skipper.Prelude.{
  ℕ, zero, suc, ◌+◌, ◌-◌, ◌≤◌, ◌<◌, ◌≡◌, ◌≢◌, ◌⊎◌, [], ◌∷◌, Option, none, some, length,
  Option-cases, List-cases, inl, inr, refl, ap, ◌∙◌, arith,
}
use skipper.Prelude.Bytes.{Bytes}
use skipper.Eskip.Lexer.{
  Token, LexError, token, no_id, void, unexpected_token, invalid_character, incomplete_token, eof,
  scan, scan_whitespace, LexError,
}
use skipper.Eskip.Lexer.State.{
  ParseError, EskipLex, Next, after_scan, next_from, next, error, LexResult, started, read, stopped,
  lexed, lex,
}
use skipper.Eskip.Lexer.Progress.{Consumes, scan-Consumes, length-scan_whitespace}

-- What next leaves of a lexer: a token was read from the code, and is the last one, or there is an
-- error that is not void, and eof only at the end.
abbrev pub NextOutcome : EskipLex → Next → Type 0
NextOutcome l (m, t, none) =
    (length m.code < length l.code) × (m ≡ record l { code = m.code; last_token = t.val })
NextOutcome l (m, t, some e) =
    (length m.code ≤ length l.code)
    × (m ≡ record l { code = m.code })
    × (e ≢ void)
    × (e ≡ eof → m.code ≡ [])

outcome_mono :
    (l : EskipLex) (rest : Bytes) (r : Next)
    → length rest < length l.code
    → NextOutcome (record l { code = rest }) r
    → NextOutcome l r
outcome_mono l rest (m, t, none) h (less, eq) = (omega arith, eq)
outcome_mono l rest (m, t, some e) h (less, eq, ok, last) = (omega arith, eq, ok, last)

-- After a scan, where the outcome holds for what follows a comment.
after_scan-outcome :
    (l : EskipLex) (c : ℕ) (cs : Bytes) (t : Token) (rest : Bytes) (e : Option LexError)
    (again : EskipLex → Option Next)
    → length (c ∷ cs) ≤ length l.code
    → Consumes c cs (record { tok = t; rest = rest; err = e })
    → (length rest < length l.code
        → (r : Next) × (again (record l { code = rest }) ≡ some r)
          × NextOutcome (record l { code = rest }) r)
    → (r : Next) × (after_scan
          (record l { code = c ∷ cs })
          (record { tok = t; rest = rest; err = e })
          again
        ≡ some r)
      × NextOutcome l r
unfolding Consumes
after_scan-outcome l c cs t rest none again h u ih =
    let less : length rest < length l.code = ground arith in (_, refl, (less, refl))
after_scan-outcome l c cs t rest (some unexpected_token) again h u ih =
    (_, refl, (h, refl, λ e. cc, λ e. cc))
after_scan-outcome l c cs t rest (some void) again h u ih =
    let less : length rest < length l.code = ground arith in
    let (r, runs, out) = ih less in (r, runs, outcome_mono l rest r less out)
after_scan-outcome l c cs t rest (some invalid_character) again h u ih =
    (_, refl, (ground arith, refl, λ e. cc, λ e. cc))
after_scan-outcome l c cs t rest (some incomplete_token) again h u ih =
    (_, refl, (ground arith, refl, λ e. cc, λ e. cc))
after_scan-outcome l c cs t rest (some eof) again h u ih = absurd (ground arith)

next_from-outcome :
    (fuel : ℕ) (l : EskipLex)
    → length l.code < fuel
    → (r : Next) × (next_from fuel l ≡ some r) × NextOutcome l r
unfolding next_from
next_from-outcome zero l h = absurd (omega arith)
next_from-outcome (suc fuel) l h = elim (List-cases (scan_whitespace l.code)) [
  | inl e ↦ (
    (record l { code = [] }, token no_id [], some eof),
    rw (e, next_from) refl,
    (omega arith, refl, λ e. cc, λ e. refl),
  )
  | inr (c, cs, e) ↦
      let shorter : length (c ∷ cs) ≤ length l.code = rw e at (length-scan_whitespace l.code) in
      let t = scan c cs in
      let (r, runs, out) =
        after_scan-outcome l c cs t.tok t.rest t.err (λ m. next_from fuel m) shorter
          (scan-Consumes c cs) (λ less. next_from-outcome fuel _ (omega arith)) in
      (r, rw (e, next_from) runs, out)
]

-- A call of Lex on l gives m and a result.
abbrev pub LexOutcome : EskipLex → EskipLex → LexResult → Type 0
LexOutcome l m (started s) = (l.start ≡ some s) × (m ≡ record l { start = none })
LexOutcome l m (read i v) =
    (length m.code < length l.code) × (m ≡ record l { code = m.code; last_token = v })
LexOutcome l m stopped =
    ((m.code ≡ []) × (m ≡ record l { code = [] }))
    ⊎ ((e : ParseError) × (m ≡ record l { code = m.code; err = some e })
        × (e.position + length m.code ≡ l.initial_length)
        × (e.last_token ≡ l.last_token)
        × (e.reason ≢ void)
        × (e.reason ≢ eof))

error-outcome :
    (l m : EskipLex) (e : LexError)
    → length l.code ≤ l.initial_length
    → length m.code ≤ length l.code
    → m ≡ record l { code = m.code }
    → e ≢ void
    → e ≢ eof
    → LexOutcome l (error m e) stopped
unfolding error
error-outcome l m e h less eq nv ne =
    let whole = ap (λ n. n.initial_length) eq in
    inr (
      record {
        last_token = m.last_token;
        last_route_id = m.last_route_id;
        position = m.initial_length - length m.code;
        reason = e;
      },
      ap {A = EskipLex} {B = EskipLex} (λ n. record n { err = (error m e).err }) eq,
      omega (arith, whole),
      ap (λ n. n.last_token) eq,
      nv,
      ne,
    )

lexed-outcome :
    (l : EskipLex) (r : Next)
    → length l.code ≤ l.initial_length
    → NextOutcome l r
    → LexOutcome l (lexed r).0 (lexed r).1
lexed-outcome l (m, t, none) h (less, eq) = (less, eq)
lexed-outcome l (m, t, some eof) h (less, eq, ok, last) =
    inl (last refl, eq ∙ ap (λ c. record l { code = c }) (last refl))
lexed-outcome l (m, t, some invalid_character) h (less, eq, ok, last) =
    error-outcome l m invalid_character h less eq ok (λ e. cc)
lexed-outcome l (m, t, some incomplete_token) h (less, eq, ok, last) =
    error-outcome l m incomplete_token h less eq ok (λ e. cc)
lexed-outcome l (m, t, some unexpected_token) h (less, eq, ok, last) =
    error-outcome l m unexpected_token h less eq ok (λ e. cc)
lexed-outcome l (m, t, some void) h (less, eq, ok, last) = absurd (ok refl)

-- Lex ends on any code that is no longer than the one it was started with. It returns the start
-- token and clears it; or a token, after which the code is shorter and nothing else but the last
-- token has changed; or it stops, at the end of the code without an error, or with an error that
-- is neither void nor eof, names the last token, and whose position counts the bytes that were
-- scanned.
pub lex-LexOutcome :
    (l : EskipLex)
    → length l.code ≤ l.initial_length
    → (m : EskipLex) × (r : LexResult) × (lex l ≡ some (m, r)) × LexOutcome l m r
unfolding lex next
lex-LexOutcome l h = elim (Option-cases l.start) [
  | inr (s, e) ↦ (record l { start = none }, started s, ground arith, (e, refl))
  | inl e ↦
      let (r, runs, out) = next_from-outcome (length l.code + 1) l (omega arith) in
      ((lexed r).0, (lexed r).1, ground arith, lexed-outcome l r h out)
]
