-- ===== src/Circuit/Sampler/Seen.antt =====
-- The invariant of `tick` in circuit/binarysampler.go: the frames hold the newest events.
use skipper.Prelude.{
  ℕ, ◌+◌, ◌-◌, ◌*◌, ◌/◌, ◌%◌, ◌≤◌, ◌<◌, ◌≡◌, refl, sym, ap, ◌∙◌, Bool, true, not, ◌&&◌, List, [],
  ◌∷◌, ◌++◌, arith, leb, ◌==◌, if◌then◌else◌, length, length-append, Bool-cases, inl, inr, min,
}
use skipper.Prelude.Int.{ℤ}
use skipper.Circuit.Sampler.{BinarySampler, new_binary_sampler, set_lowest, shift, tick}
use skipper.Circuit.Sampler.Bits.{frame_bits, shift_in, frame_bits-shift, carry}
use skipper.Circuit.Sampler.Window.{
  pad_to, shift_in-pad_to, pad_to-zeros, length-set_lowest, length-shift,
}

-- The sampler has seen the events h, the newest first.
pub record Seen (h : List Bool) (s : BinarySampler) : Type 0 where
  pub positive : 0 < s.size
  pub padded : s.pad ≡ 64 - s.size % 64
  pub filled : s.filled ≡ min (length h) s.size
  pub framed : length s.frames ≡ (s.filled + 63) / 64
  pub stored : frame_bits s.frames ≡ pad_to (64 * length s.frames) h

abbrev needs_frame : BinarySampler → Bool
needs_frame s = not (s.filled == s.size) && leb (length s.frames) (s.filled / 64)

-- The frames that a tick shifts.
abbrev grown : BinarySampler → List ℕ
grown s = if needs_frame s then s.frames ++ 0 ∷ [] else s.frames

length-grown :
    (h : List Bool) (s : BinarySampler)
    → Seen h s
    → length (grown s) ≡ ((if s.filled == s.size then s.filled else s.filled + 1) + 63) / 64
length-grown h s v = ground (arith, length-append s.frames (0 ∷ []))

grown-stored :
    (h : List Bool) (s : BinarySampler)
    → Seen h s
    → frame_bits (grown s) ≡ pad_to (64 * length (grown s)) h
grown-stored h s v = elim (Bool-cases (needs_frame s)) [
  | inl e ↦ rw e (pad_to-zeros s.frames h v.stored (room e))
  | inr e ↦ rw e v.stored
]
  where
    room : needs_frame s ≡ true → length h ≤ 64 * length s.frames
    room e = ground arith

tick-length :
    (b : Bool) (fs : List ℕ) → length (if b then set_lowest (shift fs) else shift fs) ≡ length fs
tick-length b fs = ground (arith, length-set_lowest (shift fs), length-shift fs)

tick_stored :
    (h : List Bool) (s : BinarySampler) (b : Bool)
    → Seen h s
    → let fs = if b then set_lowest (shift (grown s)) else shift (grown s) in
      frame_bits fs ≡ pad_to (64 * length fs) (b ∷ h)
tick_stored h s b v =
    carry b (grown s) (shift (grown s)) (frame_bits-shift (grown s))
    ∙ ap (shift_in b) (grown-stored h s v)
    ∙ shift_in-pad_to b (64 * length (grown s)) h
    ∙ ap (λ n. pad_to (64 * n) (b ∷ h)) (sym (tick-length b (grown s)))

-- A tick keeps the invariant that the frames hold the newest events in order, in as few frames as
-- the filled size needs, and records its event as the newest.
pub tick-Seen : (h : List Bool) (s : BinarySampler) (b : Bool) → Seen h s → Seen (b ∷ h) (tick s b)
unfolding tick
tick-Seen h s b v = record {
  positive = v.positive;
  padded = v.padded;
  filled = ground arith;
  framed = tick-length b (grown s) ∙ length-grown h s v;
  stored = tick_stored h s b v;
}

no_bits : frame_bits [] ≡ pad_to 0 []
unfolding frame_bits pad_to
no_bits = refl

pub new_binary_sampler-Seen : (size : ℤ) → Seen [] (new_binary_sampler size)
unfolding new_binary_sampler
new_binary_sampler-Seen size = record {
  positive = ground arith;
  padded = refl;
  filled = omega arith;
  framed = omega arith;
  stored = no_bits;
}
