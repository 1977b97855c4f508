-- ===== src/Circuit/Sampler/Count.antt =====
-- What the sampler of circuit/binarysampler.go counts after any events.
use skipper.Prelude.{
  ℕ, zero, suc, ◌+◌, ◌-◌, ◌*◌, ◌/◌, ◌%◌, ◌^◌, ◌≤◌, ◌<◌, ◌≡◌, ◌≢◌, refl, sym, ap, subst, ◌∙◌, Bool,
  false, ◌&&◌, List, [], ◌∷◌, arith, ◌==◌, ==_iff, lt→ltb, if◌then◌else◌, length, get_or, take,
  Bool-cases, inl, inr,
}
use skipper.Prelude.Int.{ℤ, pos}
use skipper.Circuit.Sampler.{BinarySampler, new_binary_sampler, highest_set, tick, run}
use skipper.Circuit.Sampler.Window.{get_or-pad_to, get_or-frame_bits}
use skipper.Circuit.Sampler.Seen.{Seen, tick-Seen, new_binary_sampler-Seen}

-- The events of the first list, newest first, before those of the second.
abbrev pub reverse_onto : List Bool → List Bool → List Bool
reverse_onto [] h = h
reverse_onto (b ∷ bs) h = reverse_onto bs (b ∷ h)

abbrev pub count_true : List Bool → ℕ
count_true [] = 0
count_true (b ∷ bs) = if b then count_true bs + 1 else count_true bs

-- The event that leaves the window, false while there is none.
abbrev oldest : BinarySampler → List Bool → Bool
oldest s h = get_or h (s.size - 1) false

-- The test that a tick makes before it counts down.
abbrev drops : BinarySampler → Bool
drops s = (s.filled == s.size) && highest_set (get_or s.frames (length s.frames - 1) 0) s.pad

highest_set_lem : (f r : ℕ) → 0 < r → r < 64 → highest_set f (64 - r) ≡ ((f / 2 ^ (r - 1)) % 2 == 1)
unfolding highest_set
highest_set_lem f r p q = rw (place, lt→ltb (r - 1) 64 (omega arith))
  where
    place : (63 + 2 ^ 64 - (64 - r)) % 2 ^ 64 ≡ r - 1
    place = omega arith

highest_set_64 : (f : ℕ) → highest_set f 64 ≡ false
unfolding highest_set
highest_set_64 f = refl

-- With a size that is no multiple of 64 the test reads the oldest event of a full window.
highest_set-oldest :
    (h : List Bool) (s : BinarySampler)
    → Seen h s
    → s.size % 64 ≢ 0
    → s.filled ≡ s.size
    → highest_set (get_or s.frames (length s.frames - 1) 0) s.pad ≡ oldest s h
highest_set-oldest h s v r full =
    rw v.padded (highest_set_lem top (s.size % 64) (omega arith) (omega arith))
    ∙ sym
        (get_or-frame_bits s.frames (length s.frames - 1) place false (ground arith) (omega arith))
    ∙ ap (λ t. get_or t at false) v.stored
    ∙ get_or-pad_to (64 * length s.frames) at false h (ground arith)
    ∙ ap (λ n. get_or h n false) (ground arith)
  where
    top : ℕ
    top = get_or s.frames (length s.frames - 1) 0

    place : ℕ
    place = s.size % 64 - 1

    at : ℕ
    at = 64 * (length s.frames - 1) + place

-- With a multiple of 64 the shift is by 2^64 - 1, and the test never passes.
highest_set-never :
    (h : List Bool) (s : BinarySampler) (f : ℕ)
    → Seen h s
    → s.size % 64 ≡ 0
    → highest_set f s.pad ≡ false
highest_set-never h s f v r = ap (highest_set f) (omega arith) ∙ highest_set_64 f

get_or-none : (h : List Bool) (n : ℕ) → length h ≤ n → get_or h n false ≡ false
get_or-none [] n l = refl
get_or-none (x ∷ h) zero l = absurd (omega arith)
get_or-none (x ∷ h) (suc n) l = get_or-none h n (omega arith)

drops-oldest :
    (h : List Bool) (s : BinarySampler) → Seen h s → s.size % 64 ≢ 0 → drops s ≡ oldest s h
drops-oldest h s v r = elim (Bool-cases (s.filled == s.size)) [
  | inl full ↦ rw full (highest_set-oldest h s v r ((==_iff s.filled s.size).0 full))
  | inr short ↦ rw short (sym (get_or-none h (s.size - 1) (ground arith)))
]

drops-never : (h : List Bool) (s : BinarySampler) → Seen h s → s.size % 64 ≡ 0 → drops s ≡ false
drops-never h s v r =
    ground (arith, highest_set-never h s (get_or s.frames (length s.frames - 1) 0) v r)

count_true-take-suc :
    (n : ℕ) (h : List Bool)
    → count_true (take (suc n) h)
      ≡ (if get_or h n false then count_true (take n h) + 1 else count_true (take n h))
count_true-take-suc zero [] = refl
count_true-take-suc zero (x ∷ h) = refl
count_true-take-suc (suc n) [] = refl
count_true-take-suc (suc n) (x ∷ h) = ground (arith, count_true-take-suc n h)

-- The new count, from the old one, the event that leaves and the event that comes.
abbrev counted : ℕ → Bool → Bool → ℕ
counted c d b = let rest = if d then c - 1 else c in if b then rest + 1 else rest

tick-counted : (s : BinarySampler) (b : Bool) → (tick s b).count ≡ counted s.count (drops s) b
unfolding tick
tick-counted s b = refl

counted-window :
    (n : ℕ) (h : List Bool) (b : Bool)
    → 0 < n
    → counted (count_true (take n h)) (get_or h (n - 1) false) b ≡ count_true (take n (b ∷ h))
counted-window zero h b p = elim p [ ]
counted-window (suc n) h b p = rw (count_true-take-suc n h, before n) (ground arith)
  where
    before : (n : ℕ) → suc n - 1 ≡ n
    before n = omega arith

tick-count :
    (h : List Bool) (s : BinarySampler) (b : Bool)
    → Seen h s
    → s.size % 64 ≢ 0
    → s.count ≡ count_true (take s.size h)
    → (tick s b).count ≡ count_true (take s.size (b ∷ h))
tick-count h s b v r e =
    tick-counted s b ∙ rw (e, drops-oldest h s v r) (counted-window s.size h b v.positive)

run-count :
    (h : List Bool) (s : BinarySampler) (events : List Bool)
    → Seen h s
    → s.size % 64 ≢ 0
    → s.count ≡ count_true (take s.size h)
    → (run s events).count ≡ count_true (take s.size (reverse_onto events h))
unfolding run tick
run-count h s [] v r e = e
run-count h s (b ∷ bs) v r e =
    run-count (b ∷ h) (tick s b) bs (tick-Seen h s b v) r (tick-count h s b v r e)

tick-count_all :
    (h : List Bool) (s : BinarySampler) (b : Bool)
    → Seen h s
    → s.size % 64 ≡ 0
    → (tick s b).count ≡ (if b then s.count + 1 else s.count)
tick-count_all h s b v r = tick-counted s b ∙ rw (drops-never h s v r)

run-count_all :
    (h : List Bool) (s : BinarySampler) (events : List Bool)
    → Seen h s
    → s.size % 64 ≡ 0
    → (run s events).count ≡ s.count + count_true events
unfolding run tick
run-count_all h s [] v r = omega arith
run-count_all h s (b ∷ bs) v r =
    run-count_all (b ∷ h) (tick s b) bs (tick-Seen h s b v) r
    ∙ rw (tick-count_all h s b v r) (ground arith)

-- The last n of the events, the newest first.
abbrev pub last_events : ℕ → List Bool → List Bool
last_events n events = take n (reverse_onto events [])

size-new : (n : ℕ) → 0 < n → (new_binary_sampler (pos n)).size ≡ n
unfolding new_binary_sampler
size-new n p = ground arith

count-new : (n : ℤ) → (new_binary_sampler n).count ≡ 0
unfolding new_binary_sampler
count-new n = refl

count_true-take-nil : (n : ℕ) → count_true (take n []) ≡ 0
count_true-take-nil zero = refl
count_true-take-nil (suc n) = refl

-- Where the window is positive and no multiple of 64, the count of a new sampler after any events
-- is the number of true events among the last `size`.
pub run-new-count :
    (size : ℕ) (events : List Bool)
    → 0 < size
    → size % 64 ≢ 0
    → (run (new_binary_sampler (pos size)) events).count ≡ count_true (last_events size events)
run-new-count size events p r =
    subst (λ n. (run s events).count ≡ count_true (last_events n events)) (size-new size p)
      (run-count [] s events (new_binary_sampler-Seen (pos size)) (rw (size-new size p) r)
        (count-new (pos size) ∙ sym (count_true-take-nil s.size)))
  where
    s : BinarySampler
    s = new_binary_sampler (pos size)

-- Where the window is a positive multiple of 64, no event ever leaves the count: it is the number
-- of true events since the start.
pub run-new-count_unbounded :
    (size : ℕ) (events : List Bool)
    → 0 < size
    → size % 64 ≡ 0
    → (run (new_binary_sampler (pos size)) events).count ≡ count_true events
run-new-count_unbounded size events p r =
    run-count_all [] (new_binary_sampler (pos size)) events (new_binary_sampler-Seen (pos size))
      (rw (size-new size p) r)
    ∙ rw (count-new (pos size)) (omega arith)
