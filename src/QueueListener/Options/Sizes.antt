-- ===== src/QueueListener/Options/Sizes.antt =====
-- The sizes of queuelistener/listener.go are positive, unless the computed queue size wraps.
use skipper.Prelude.{
  ℕ, ◌*◌, ◌%◌, ◌^◌, ◌≤◌, ◌<◌, ◌≡◌, refl, true, ltb, if◌then◌else◌, Bool-cases, inl, inr, arith,
}
use skipper.Prelude.Int.{pos, ltb_ℤ}
use skipper.QueueListener.Options.{
  Options, max_concurrency, max_queue_size, with_defaults, listen_with, signed,
}

max_concurrency-positive : (o : Options) → 0 < max_concurrency o
unfolding max_concurrency
max_concurrency-positive o = ground arith

signed-small : (c : ℕ) → c ≤ 922337203685477580 → signed (10 * c % 2 ^ 64) ≡ pos (10 * c)
signed-small c h =
    let whole : 10 * c % 2 ^ 64 ≡ 10 * c = omega arith in
    let small : ltb (10 * c) (2 ^ 63) ≡ true = ground arith in rw (whole, small) refl

capped :
    (c : ℕ)
    → (if ltb_ℤ (pos 50000) (pos (10 * c)) then pos 50000 else pos (10 * c))
      ≡ pos (if ltb 50000 (10 * c) then 50000 else 10 * c)
capped c =
    let same : ltb_ℤ (pos 50000) (pos (10 * c)) ≡ ltb 50000 (10 * c) = ground arith in
    elim (Bool-cases (ltb 50000 (10 * c))) [ inl many ↦ ground arith | inr few ↦ ground arith ]

-- The queue size that is used: the one given, or one computed from the concurrency.
abbrev pub expected_size : ℕ → ℕ → ℕ
expected_size given c = if ltb 0 given then given else if ltb 50000 (10 * c) then 50000 else 10 * c

max_queue_size-expected :
    (o : Options)
    → max_concurrency o ≤ 922337203685477580
    → max_queue_size o ≡ pos (expected_size o.max_queue_size (max_concurrency o))
unfolding max_queue_size
max_queue_size-expected o h = elim (Bool-cases (ltb 0 o.max_queue_size)) [
  | inl given ↦ rw given refl
  | inr computed ↦ rw (computed, signed-small (max_concurrency o) h) (capped (max_concurrency o))
]

expected_size-positive : (given c : ℕ) → 0 < c → 0 < expected_size given c
expected_size-positive given c h = ground arith

-- Where the concurrency is below a tenth of 2^63, one connection at least may be active and one may
-- wait, and where the queue size is not given, it is ten times the concurrency, but no more than
-- 50000.
pub listen_with_sizes :
    (o : Options)
    → let sizes = listen_with o in
      sizes.concurrency ≤ 922337203685477580
      → let n = expected_size o.max_queue_size sizes.concurrency in
        (0 < sizes.concurrency) × (sizes.queue_size ≡ pos n) × (0 < n)
unfolding listen_with with_defaults
listen_with_sizes o h =
    let positive = max_concurrency-positive (with_defaults o) in
    (
      positive,
      max_queue_size-expected (with_defaults o) h,
      expected_size-positive o.max_queue_size (max_concurrency (with_defaults o)) positive,
    )
