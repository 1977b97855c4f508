-- ===== src/Circuit/Sampler.antt =====
-- circuit/binarysampler.go: the sliding window of a rate breaker, one bit for an event, in frames
-- of 64 bits. `frames` has the lowest frame first, as the slice has; a frame is a uint64.
pub mod Bits
pub mod Window
pub mod Seen
pub mod Count
use skipper.Prelude.{
  ℕ, zero, suc, ◌+◌, ◌-◌, ◌*◌, ◌/◌, ◌%◌, ◌^◌, Bool, true, false, not, ◌&&◌, List, [], ◌∷◌, ◌++◌,
  ltb, leb, ◌==◌, if◌then◌else◌, length, get_or,
}
use skipper.Prelude.Int.{ℤ, pos_part}

pub record BinarySampler : Type 0 where
  pub size : ℕ
  pub filled : ℕ
  pub frames : List ℕ
  pub pad : ℕ
  pub count : ℕ

-- A size that is not positive becomes 1.
unfoldable pub new_binary_sampler : ℤ → BinarySampler
new_binary_sampler size =
    let n = if pos_part size == 0 then 1 else pos_part size in
    record { size = n; filled = 0; frames = []; pad = 64 - n % 64; count = 0 }

-- `frame&(1<<(63-pad)) != 0`: the uint64 63-pad wraps, and a shift by 64 or more gives 0.
unfoldable pub highest_set : ℕ → ℕ → Bool
highest_set frame pad = let k = (63 + 2 ^ 64 - pad) % 2 ^ 64 in ltb k 64 && (frame / 2 ^ k) % 2 == 1

-- `frame |= 1` on the frame above the one that lost its highest bit, if there is one.
unfoldable pub set_lowest : List ℕ → List ℕ
set_lowest [] = []
set_lowest (f ∷ fs) = (f - f % 2 + 1) ∷ fs

-- The loop runs from the highest frame down, so the frames above are shifted first.
unfoldable pub shift : List ℕ → List ℕ
shift [] = []
shift (f ∷ fs) =
    let higher = shift fs in
    (f * 2 % 2 ^ 64) ∷ (if highest_set f 0 then set_lowest higher else higher)

unfoldable pub tick : BinarySampler → Bool → BinarySampler
tick s bit =
    let full = s.filled == s.size in
    let dropped = full && highest_set (get_or s.frames (length s.frames - 1) 0) s.pad in
    let count = if dropped then s.count - 1 else s.count in
    let frames =
      if not full && leb (length s.frames) (s.filled / 64) then s.frames ++ 0 ∷ [] else s.frames in
    let filled = if full then s.filled else s.filled + 1 in
    let shifted = shift frames in
    record s {
      filled = filled;
      frames = if bit then set_lowest shifted else shifted;
      count = if bit then count + 1 else count;
    }

-- The sampler after a list of events, the first one first.
unfoldable pub run : BinarySampler → List Bool → BinarySampler
run s [] = s
run s (b ∷ bs) = run (tick s b) bs
