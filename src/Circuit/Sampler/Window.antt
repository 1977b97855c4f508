-- ===== src/Circuit/Sampler/Window.antt =====
-- The frames of circuit/binarysampler.go hold the newest events: what `tick` keeps true.
use native.Mathlib.Nat.{zero-add, suc-add}
use skipper.Prelude.{
  ℕ, zero, suc, ◌+◌, ◌*◌, ◌/◌, ◌%◌, ◌^◌, ◌≤◌, ◌<◌, ◌≡◌, refl, sym, ap, ◌∙◌, Bool, false, List, [],
  ◌∷◌, ◌++◌, arith, ◌==◌, length, get_or, replicate, length-append, append_assoc, append-nil,
}
use skipper.Circuit.Sampler.{set_lowest, shift}
use skipper.Circuit.Sampler.Bits.{bits, frame_bits, shift_in, get_or-bits, length-bits}

-- The first n entries, with false past the end.
unfoldable pub pad_to : ℕ → List Bool → List Bool
pad_to zero h = []
pad_to (suc n) [] = false ∷ pad_to n []
pad_to (suc n) (x ∷ h) = x ∷ pad_to n h

pad_to-false : (n : ℕ) → pad_to n (false ∷ []) ≡ pad_to n []
unfolding pad_to
pad_to-false zero = refl
pad_to-false (suc n) = refl

pub shift_in-pad_to :
    (b : Bool) (n : ℕ) (h : List Bool) → shift_in b (pad_to n h) ≡ pad_to n (b ∷ h)
unfolding shift_in pad_to
shift_in-pad_to b zero h = refl
shift_in-pad_to b (suc n) [] = ap (λ t. b ∷ t) (shift_in-pad_to false n [] ∙ pad_to-false n)
shift_in-pad_to b (suc n) (x ∷ h) = ap (λ t. b ∷ t) (shift_in-pad_to x n h)

pad_to-nil : (n : ℕ) → pad_to n [] ≡ replicate n false
unfolding pad_to
pad_to-nil zero = refl
pad_to-nil (suc n) = ap (λ t. false ∷ t) (pad_to-nil n)

pad_to-append :
    (n m : ℕ) (h : List Bool) → length h ≤ n → pad_to n h ++ replicate m false ≡ pad_to (n + m) h
unfolding pad_to
pad_to-append zero m [] l = rw zero-add (sym (pad_to-nil m))
pad_to-append zero m (x ∷ h) l = absurd (omega arith)
pad_to-append (suc n) m [] l = rw suc-add (ap (λ t. false ∷ t) (pad_to-append n m [] (omega arith)))
pad_to-append (suc n) m (x ∷ h) l = rw suc-add (ap (λ t. x ∷ t) (pad_to-append n m h (omega arith)))

pub get_or-pad_to :
    (n j : ℕ) (d : Bool) (h : List Bool) → j < n → get_or (pad_to n h) j d ≡ get_or h j false
unfolding pad_to
get_or-pad_to zero j d h l = elim l [ ]
get_or-pad_to (suc n) zero d [] l = refl
get_or-pad_to (suc n) zero d (x ∷ h) l = refl
get_or-pad_to (suc n) (suc j) d [] l = get_or-pad_to n j d [] (omega arith)
get_or-pad_to (suc n) (suc j) d (x ∷ h) l = get_or-pad_to n j d h (omega arith)

bits-zero : (n : ℕ) → bits n 0 ≡ replicate n false
unfolding bits
bits-zero zero = refl
bits-zero (suc n) = ap (λ t. false ∷ t) (bits-zero n)

frame_bits-concat : (fs : List ℕ) (g : ℕ) → frame_bits (fs ++ g ∷ []) ≡ frame_bits fs ++ bits 64 g
unfolding frame_bits
frame_bits-concat [] g = append-nil (bits 64 g)
frame_bits-concat (f ∷ fs) g =
    rw (frame_bits-concat fs g) (sym (append_assoc (bits 64 f) (frame_bits fs) (bits 64 g)))

pub length-set_lowest : (fs : List ℕ) → length (set_lowest fs) ≡ length fs
unfolding set_lowest
length-set_lowest [] = refl
length-set_lowest (f ∷ fs) = refl

pub length-shift : (fs : List ℕ) → length (shift fs) ≡ length fs
unfolding shift
length-shift [] = refl
length-shift (f ∷ fs) = ground (arith, length-shift fs, length-set_lowest (shift fs))

get_or-append_left :
    (xs ys : List Bool) (k : ℕ) (d : Bool) → k < length xs → get_or (xs ++ ys) k d ≡ get_or xs k d
get_or-append_left [] ys k d l = elim l [ ]
get_or-append_left (x ∷ xs) ys zero d l = refl
get_or-append_left (x ∷ xs) ys (suc k) d l = get_or-append_left xs ys k d (omega arith)

get_or-append_right :
    (xs ys : List Bool) (k : ℕ) (d : Bool) → get_or (xs ++ ys) (length xs + k) d ≡ get_or ys k d
get_or-append_right [] ys k d = rw zero-add
get_or-append_right (x ∷ xs) ys k d = rw suc-add (get_or-append_right xs ys k d)

-- A bit by its frame and its place there.
pub get_or-frame_bits :
    (fs : List ℕ) (i k : ℕ) (d : Bool)
    → i < length fs
    → k < 64
    → get_or (frame_bits fs) (64 * i + k) d ≡ ((get_or fs i 0 / 2 ^ k) % 2 == 1)
unfolding frame_bits
get_or-frame_bits [] i k d p q = elim p [ ]
get_or-frame_bits (f ∷ fs) zero k d p q =
    rw (start k)
      (get_or-append_left (bits 64 f) (frame_bits fs) k d inside ∙ get_or-bits 64 f k d q)
  where
    start : (k : ℕ) → 64 * 0 + k ≡ k
    start k = omega arith

    inside : k < length (bits 64 f)
    inside = omega (arith, length-bits 64 f)
get_or-frame_bits (f ∷ fs) (suc i) k d p q = rw (step i k) (
    get_or-append_right (bits 64 f) (frame_bits fs) (64 * i + k) d
    ∙ get_or-frame_bits fs i k d (omega arith) q)
  where
    step : (i k : ℕ) → 64 * suc i + k ≡ length (bits 64 f) + (64 * i + k)
    step i k = omega (arith, length-bits 64 f)

-- A new frame holds no events.
pub pad_to-zeros :
    (fs : List ℕ) (h : List Bool)
    → frame_bits fs ≡ pad_to (64 * length fs) h
    → length h ≤ 64 * length fs
    → frame_bits (fs ++ 0 ∷ []) ≡ pad_to (64 * length (fs ++ 0 ∷ [])) h
pad_to-zeros fs h e l =
    rw (frame_bits-concat fs 0, e, bits-zero 64, pad_to-append (64 * length fs) 64 h l)
      (ap (λ n. pad_to n h) grow)
  where
    grow : 64 * length fs + 64 ≡ 64 * length (fs ++ 0 ∷ [])
    grow = omega (arith, length-append fs (0 ∷ []))
