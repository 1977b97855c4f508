-- ===== src/Eskip/Lexer/Fast.antt =====
-- The fast path of scanEscaped in eskip/lexer.go, against its loop.
use skipper.Prelude.{ℕ, ◌≡◌, refl, false, [], ◌∷◌, some, Option-cases, inl, inr, arith}
use skipper.Prelude.Bytes.{Bytes}
use skipper.Eskip.Lexer.{scan_fast, scan_slow, scan_escaped}

scan_fast-scan_slow :
    (d : ℕ) (code : Bytes) {r : Bytes × Bytes}
    → scan_fast d code ≡ some r
    → scan_slow d false code ≡ r
unfolding scan_fast scan_slow
scan_fast-scan_slow d [] h = cc
scan_fast-scan_slow d (c ∷ cs) h = elim (Option-cases (scan_fast d cs)) [
  | inl e ↦ ground arith
  | inr (r, e) ↦ ground (arith, scan_fast-scan_slow d cs e)
]

-- scanEscaped reads what its loop reads, from any code and with any delimiter.
pub scan_escaped-scan_slow : (d : ℕ) (code : Bytes) → scan_escaped d code ≡ scan_slow d false code
unfolding scan_escaped
scan_escaped-scan_slow d code = elim (Option-cases (scan_fast d code)) [
  | inl e ↦ rw (e, scan_escaped) refl
  | inr (r, e) ↦ rw (e, scan_fast-scan_slow d code e, scan_escaped) refl
]
