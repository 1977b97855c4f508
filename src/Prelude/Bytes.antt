-- ===== src/Prelude/Bytes.antt =====
-- Byte strings as lists of numbers, with the functions of Go's package strings that the code calls.
use Prim.Native.Nat.{ℕ, zero, suc, ◌+◌, ◌/◌, ◌%◌}
use Prim.Native.Char.{code}
use Prim.Native.String.{String}
use mathlib.Core.Path.{◌≡◌, refl}
use mathlib.Core.Logic.{◌↔◌}
use mathlib.Core.Bool.{Bool, true, false, ◌&&◌, ◌||◌}
use mathlib.Core.List.{List, [], ◌∷◌, ◌++◌, append_assoc}
use native.Mathlib.Omega.{arith}
use skipper.Prelude.Tests.{if◌then◌else◌, ◌==◌, ltb}
use skipper.Prelude.Int.{ℤ, pos, negsuc}
use skipper.Prelude.Map.{Eq}

abbrev pub Bytes : Type 0
Bytes = List ℕ

-- The bytes of an ASCII text.
abbrev pub codes : String → Bytes
codes String.[] = []
codes (String.◌∷◌ c s) = code c ∷ codes s

unfoldable pub bytes_eq : Bytes → Bytes → Bool
bytes_eq [] [] = true
bytes_eq (a ∷ s) (b ∷ t) = a == b && bytes_eq s t
bytes_eq _ _ = false

pub bytes_eq_iff : (s t : Bytes) → (bytes_eq s t ≡ true) ↔ (s ≡ t)
unfolding bytes_eq
bytes_eq_iff [] [] = (λ _. refl, λ _. refl)
bytes_eq_iff [] (b ∷ bs) = ground arith
bytes_eq_iff (a ∷ s) [] = ground arith
bytes_eq_iff (a ∷ s) (b ∷ t) = ground (arith, bytes_eq_iff s t)

instance abbrev pub bytes_key : Eq Bytes
bytes_key = record { beq = bytes_eq; beq_iff = bytes_eq_iff }

-- strings.HasPrefix.
unfoldable pub has_prefix : Bytes → Bytes → Bool
has_prefix s [] = true
has_prefix [] (p ∷ ps) = false
has_prefix (b ∷ bs) (p ∷ ps) = p == b && has_prefix bs ps

-- strings.Join.
unfoldable pub join : Bytes → List Bytes → Bytes
join sep [] = []
join sep (s ∷ []) = s
join sep (s ∷ t ∷ ts) = s ++ (sep ++ join sep (t ∷ ts))

-- strings.ReplaceAll of a text of one byte.
unfoldable pub replace_all : ℕ → Bytes → Bytes → Bytes
replace_all c new [] = []
replace_all c new (b ∷ bs) =
    let rest = replace_all c new bs in if b == c then new ++ rest else b ∷ rest

pub replace_all-append :
    (c : ℕ) (new s t : Bytes)
    → replace_all c new (s ++ t) ≡ replace_all c new s ++ replace_all c new t
unfolding replace_all
replace_all-append c new [] t = refl
replace_all-append c new (b ∷ bs) t = ground (
  arith,
  replace_all-append c new bs t,
  append_assoc new (replace_all c new bs) (replace_all c new t),
)

-- strings.Split at a text of one byte: at least one part.
unfoldable pub split : ℕ → Bytes → List Bytes
split c [] = [] ∷ []
split c (b ∷ bs) =
    let parts = split c bs in
    if b == c then [] ∷ parts else elim parts [ [] ↦ (b ∷ []) ∷ [] | p ∷ ps ↦ (b ∷ p) ∷ ps ]

-- The order of strings, and the decimal digits that %d writes.
unfoldable pub bytes_less : Bytes → Bytes → Bool
bytes_less s [] = false
bytes_less [] (b ∷ t) = true
bytes_less (a ∷ s) (b ∷ t) = ltb a b || a == b && bytes_less s t

-- With n digits of fuel; a number has no more digits than its value and one.
unfoldable pub digits_from : ℕ → ℕ → Bytes
digits_from zero n = []
digits_from (suc fuel) n =
    let more = digits_from fuel (n / 10) in
    if ltb n 10 then (b'0' + n) ∷ [] else more ++ (b'0' + n % 10) ∷ []

unfoldable pub decimal : ℕ → Bytes
decimal n = digits_from (suc n) n

unfoldable pub format_int : ℤ → Bytes
format_int (pos n) = decimal n
format_int (negsuc n) = b'-' ∷ decimal (n + 1)
