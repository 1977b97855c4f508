-- ===== src/Circuit/Sampler/Bits.antt =====
-- The frames of circuit/binarysampler.go read as a list of bits, the newest event first.
use native.Mathlib.Nat.{pow-suc, pow-succ', one-le-pow, div-div-eq-div-mul}
use skipper.Prelude.{
  ℕ, zero, suc, ◌+◌, ◌-◌, ◌*◌, ◌/◌, ◌%◌, ◌^◌, ◌<◌, ◌≡◌, refl, sym, ap, ◌∙◌, Bool, true, false, List,
  [], ◌∷◌, ◌++◌, arith, ◌==◌, if◌then◌else◌, length, get_or, length-append,
}
use skipper.Circuit.Sampler.{highest_set, set_lowest, shift}

-- The n lowest binary digits, the lowest first.
unfoldable pub bits : ℕ → ℕ → List Bool
bits zero x = []
bits (suc n) x = (x % 2 == 1) ∷ bits n (x / 2)

unfoldable pub frame_bits : List ℕ → List Bool
frame_bits [] = []
frame_bits (f ∷ fs) = bits 64 f ++ frame_bits fs

-- A new bit enters at the front, and the last one falls off.
unfoldable pub shift_in : Bool → List Bool → List Bool
shift_in b [] = []
shift_in b (x ∷ xs) = b ∷ shift_in x xs

pub last_or : Bool → List Bool → Bool
last_or b [] = b
last_or b (x ∷ xs) = last_or x xs

pub set_head : List Bool → List Bool
set_head [] = []
set_head (x ∷ xs) = true ∷ xs

pub length-bits : (n x : ℕ) → length (bits n x) ≡ n
unfolding bits
length-bits zero x = refl
length-bits (suc n) x = ap suc (length-bits n (x / 2))

pub length-frame_bits : (fs : List ℕ) → length (frame_bits fs) ≡ 64 * length fs
unfolding frame_bits
length-frame_bits [] = refl
length-frame_bits (f ∷ fs) =
    omega (arith, length-append (bits 64 f) (frame_bits fs), length-bits 64 f, length-frame_bits fs)

pub shift_in-append :
    (b : Bool) (xs ys : List Bool)
    → shift_in b (xs ++ ys) ≡ shift_in b xs ++ shift_in (last_or b xs) ys
unfolding shift_in last_or
shift_in-append b [] ys = refl
shift_in-append b (x ∷ xs) ys = ap (λ t. b ∷ t) (shift_in-append x xs ys)

pub set_head-shift_in : (xs : List Bool) → set_head (shift_in false xs) ≡ shift_in true xs
unfolding set_head shift_in
set_head-shift_in [] = refl
set_head-shift_in (x ∷ xs) = refl

double-mod : (x p : ℕ) → 0 < p → x * 2 % (p * 2) ≡ x % p * 2
double-mod x p h = grind arith

mod-double_parts : (x p : ℕ) → 0 < p → (x % (p * 2) % 2 ≡ x % 2) × (x % (p * 2) / 2 ≡ x / 2 % p)
mod-double_parts x p h = (grind arith, grind arith)

two-pow_pos : (n : ℕ) → 0 < 2 ^ n
two-pow_pos n = one-le-pow n 2 (omega arith)

bits-mod : (n x : ℕ) → bits n (x % 2 ^ n) ≡ bits n x
unfolding bits
bits-mod zero x = refl
bits-mod (suc n) x =
    let (low, high) = mod-double_parts x (2 ^ n) (two-pow_pos n) in
    rw (pow-suc 2 n, low, high) (ap (λ t. (x % 2 == 1) ∷ t) (bits-mod n (x / 2)))

shift_in-bits : (n x : ℕ) → shift_in (x % 2 == 1) (bits n (x / 2)) ≡ bits n x
unfolding bits shift_in
shift_in-bits zero x = refl
shift_in-bits (suc n) x = ap (λ t. (x % 2 == 1) ∷ t) (shift_in-bits n (x / 2))

-- Doubling modulo 2^n shifts a zero in.
pub bits-double : (n x : ℕ) → bits n (x * 2 % 2 ^ n) ≡ shift_in false (bits n x)
unfolding bits shift_in
bits-double zero x = refl
bits-double (suc n) x =
    rw (pow-suc 2 n, double-mod x (2 ^ n) (two-pow_pos n), even-mod, even-div)
      (ap (λ t. false ∷ t) (bits-mod n x ∙ sym (shift_in-bits n x)))
  where
    even-mod : x % 2 ^ n * 2 % 2 ≡ 0
    even-mod = omega arith

    even-div : x % 2 ^ n * 2 / 2 ≡ x % 2 ^ n
    even-div = omega arith

half-pow : (x k : ℕ) → x / 2 ^ suc k ≡ x / 2 / 2 ^ k
half-pow x k = rw (pow-succ' 2 k) (sym (div-div-eq-div-mul x 2 (2 ^ k)))

div-pow-zero : (x : ℕ) → x / 2 ^ 0 ≡ x
div-pow-zero x = omega arith

-- A digit by its index.
pub get_or-bits : (n x k : ℕ) (d : Bool) → k < n → get_or (bits n x) k d ≡ ((x / 2 ^ k) % 2 == 1)
unfolding bits
get_or-bits zero x k d h = elim h [ ]
get_or-bits (suc n) x zero d h = rw (div-pow-zero x)
get_or-bits (suc n) x (suc k) d h = rw (half-pow x k) (get_or-bits n (x / 2) k d (omega arith))

last_or-bits : (b : Bool) (n x : ℕ) → last_or b (bits (suc n) x) ≡ ((x / 2 ^ n) % 2 == 1)
unfolding bits last_or
last_or-bits b zero x = rw (div-pow-zero x)
last_or-bits b (suc n) x = rw (half-pow x n) (last_or-bits (x % 2 == 1) n (x / 2))

set_mod : (x : ℕ) → (x - x % 2 + 1) % 2 ≡ 1
set_mod x = omega arith

set_div : (x : ℕ) → (x - x % 2 + 1) / 2 ≡ x / 2
set_div x = omega arith

pub bits-set_lowest : (n x : ℕ) → bits n (x - x % 2 + 1) ≡ set_head (bits n x)
unfolding bits set_head
bits-set_lowest zero x = refl
bits-set_lowest (suc n) x = rw (set_mod x, set_div x)

set_head-bits-append :
    (n x : ℕ) (ys : List Bool) → set_head (bits (suc n) x ++ ys) ≡ set_head (bits (suc n) x) ++ ys
unfolding bits set_head
set_head-bits-append n x ys = refl

pub frame_bits-set_lowest : (fs : List ℕ) → frame_bits (set_lowest fs) ≡ set_head (frame_bits fs)
unfolding frame_bits set_lowest set_head
frame_bits-set_lowest [] = refl
frame_bits-set_lowest (f ∷ fs) =
    rw (bits-set_lowest 64 f) (sym (set_head-bits-append 63 f (frame_bits fs)))

highest_set-bits : (b : Bool) (f : ℕ) → highest_set f 0 ≡ last_or b (bits 64 f)
unfolding highest_set
highest_set-bits b f = sym (last_or-bits b 63 f)

pub carry :
    (c : Bool) (fs hs : List ℕ)
    → frame_bits hs ≡ shift_in false (frame_bits fs)
    → frame_bits (if c then set_lowest hs else hs) ≡ shift_in c (frame_bits fs)
carry true fs hs e = frame_bits-set_lowest hs ∙ ap set_head e ∙ set_head-shift_in (frame_bits fs)
carry false fs hs e = e

-- `shift` moves every bit up by one, across the frames.
pub frame_bits-shift : (fs : List ℕ) → frame_bits (shift fs) ≡ shift_in false (frame_bits fs)
unfolding frame_bits shift shift_in
frame_bits-shift [] = refl
frame_bits-shift (f ∷ fs) =
    rw
      (
        bits-double 64 f,
        carry (highest_set f 0) fs (shift fs) (frame_bits-shift fs),
        highest_set-bits false f,
      )
      (sym (shift_in-append false (bits 64 f) (frame_bits fs)))
