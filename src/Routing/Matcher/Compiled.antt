-- ===== src/Routing/Matcher/Compiled.antt =====
-- getCompiledRxs of routing/matcher.go: the shared expressions against compiling each.
use skipper.Prelude.{
  ◌≡◌, refl, List, [], ◌∷◌, Option, none, some, All, ◌>>=◌, Option-cases, inl, inr, Bool,
}
use skipper.Prelude.Map.{lookup, insert, All-insert, All-lookup}
use skipper.Prelude.Bytes.{Bytes, bytes_key}
use skipper.Routing.Matcher.Build.{get_compiled_rxs}

module _ (Regexp : Type 0) (match_string : Regexp → Bytes → Bool) (compile : Bytes → Option Regexp)
    (clean canonical_header_key : Bytes → Bytes) where
  -- Each expression compiled for itself.
  unfoldable pub compile_all : List Bytes → Option (List Regexp)
  compile_all [] = some []
  compile_all (exp ∷ exps) = do rx ← compile exp; rxs ← compile_all exps; some (rx ∷ rxs)

  abbrev pub IsCompiled : Bytes × Regexp → Type 0
  IsCompiled x = compile x.0 ≡ some x.1

  -- The result has the expressions, and what is compiled then is right.
  abbrev pub Agrees : Option (List Regexp) → Option (List (Bytes × Regexp) × List Regexp) → Type 0
  Agrees none o = o ≡ none
  Agrees (some rxs) o =
      (more : List (Bytes × Regexp)) × (o ≡ some (more, rxs)) × All IsCompiled more

  Agrees-cons :
      (rx : Regexp) (a : Option (List Regexp)) (o : Option (List (Bytes × Regexp) × List Regexp))
      → Agrees a o
      → Agrees (do rxs ← a; some (rx ∷ rxs)) (do (more, rxs) ← o; some (more, rx ∷ rxs))
  Agrees-cons rx none o h = rw h refl
  Agrees-cons rx (some rxs) o (more, e, good) = (more, rw e refl, good)

  -- Where each expression that is compiled already is what its text compiles to, getCompiledRxs
  -- returns what compiling each expression gives, or fails where one of them fails, and what is
  -- compiled afterwards is right as well.
  pub get_compiled_rxs-Agrees :
      (compiled : List (Bytes × Regexp)) (exps : List Bytes)
      → All IsCompiled compiled
      → Agrees
          (compile_all exps)
          (get_compiled_rxs Regexp match_string compile clean canonical_header_key compiled exps)
  unfolding compile_all get_compiled_rxs
  get_compiled_rxs-Agrees compiled [] h = (compiled, refl, h)
  get_compiled_rxs-Agrees compiled (exp ∷ exps) h = elim (Option-cases (lookup exp compiled)) [
    | inr (rx, e) ↦
        let right : compile exp ≡ some rx = All-lookup IsCompiled exp rx compiled h e in
        rw (e, get_compiled_rxs, right)
          (Agrees-cons rx (compile_all exps) _ (get_compiled_rxs-Agrees compiled exps h))
    | inl e ↦ elim (Option-cases (compile exp)) [
      | inl bad ↦ rw (e, get_compiled_rxs, bad) refl
      | inr (rx, right) ↦
          rw (e, get_compiled_rxs, right)
            (Agrees-cons rx (compile_all exps) _ (
              get_compiled_rxs-Agrees (insert exp rx compiled) exps
                (All-insert IsCompiled exp rx compiled h right)))
    ]
  ]
