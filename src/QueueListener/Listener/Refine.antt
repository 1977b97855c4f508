-- ===== src/QueueListener/Listener/Refine.antt =====
-- Each case of the loop of queuelistener/listener.go does to the ring what the view says.
use skipper.Prelude.{
  ℕ, zero, suc, ◌+◌, ◌≤◌, ◌<◌, ◌≡◌, refl, sym, ap, subst, ◌∙◌, true, false, List, [], ◌∷◌, ◌++◌,
  map, Option, none, some, ltb, ◌==◌, length, length-append, arith, any, Bool-cases, inl, inr,
}
use skipper.QueueListener.Ring.{Ring}
use skipper.QueueListener.Ring.Deque.{
  IsDeque, enqueue-IsDeque, enqueue-IsDeque_full, dequeue-IsDeque, dequeue_oldest-IsDeque,
  peek-IsDeque, peek_oldest-IsDeque,
}
use skipper.QueueListener.Ring.Range.{range_over-IsDeque}
use skipper.QueueListener.Listener.{
  Config, Conns, Listener, Event, arrives, fails, hands_out, reports, releases, times_out, closes,
  quits, is_active, without, closing_all, expire, step_open,
}
use skipper.QueueListener.Listener.View.{
  View, move, drop_overdue, split_last, split_last-none, split_last-append,
}

-- The listener with the ring r and the rest as in the view: as many are counted as are active.
abbrev pub with_ring : View → Ring → Listener
with_ring v r = record { queue = r; concurrency = length v.conns.active; conns = v.conns }

-- The listener shows the view: the ring holds what waits, within the capacity n.
abbrev pub Shows : ℕ → View → Listener → Type 0
Shows n v l = (r : Ring) × IsDeque n v.waiting r × (l ≡ with_ring v r)

-- A step of the loop and a move of the view are ready together, and then end alike.
abbrev pub Agrees : ℕ → Option View → Option Listener → Type 0
Agrees n none none = Unit {0}
Agrees n (some v) (some l) = Shows n v l
Agrees n _ _ = ⊥

abbrev view : List ℕ → Conns → View
view q k = record { waiting = q; conns = k }

recount :
    (r : Ring) (k : Conns) (a b : ℕ)
    → a ≡ b
    → ◌≡◌ {A = Listener}
        (record { queue = r; concurrency = a; conns = k })
        (record { queue = r; concurrency = b; conns = k })
recount r k a b e = λ i. record { queue = r; concurrency = e i; conns = k }

arrives-Agrees :
    (cfg : Config) (q : List ℕ) (k : Conns) (r : Ring) (c now : ℕ)
    → IsDeque cfg.max_queue_size q r
    → 0 < cfg.max_queue_size
    → Agrees cfg.max_queue_size
        (move cfg (view q k) (arrives c now))
        (step_open cfg (with_ring (view q k) r) (arrives c now))
unfolding move step_open
arrives-Agrees cfg [] k r c now d p =
    let (r', e, d') = enqueue-IsDeque cfg.max_queue_size [] c r d p in rw e (r', d', refl)
arrives-Agrees cfg (x ∷ xs) k r c now d p =
    elim (Bool-cases (length (x ∷ xs) == cfg.max_queue_size)) [
      | inl full ↦
          let (r', e, d') = enqueue-IsDeque_full cfg.max_queue_size xs x c r d (ground arith) in
          rw (full, e) (r', d', refl)
      | inr room ↦
          let (r', e, d') =
            enqueue-IsDeque cfg.max_queue_size (x ∷ xs) c r d (ground (arith, d.1.fits)) in
          rw (room, e) (r', d', refl)
    ]

size-eq : {n : ℕ} {q : List ℕ} {r : Ring} → IsDeque n q r → r.size ≡ length q
size-eq (s, h) = h.sized

expire-drop_overdue :
    (n fuel now : ℕ) (q : List ℕ) (k : Conns) (r : Ring)
    → IsDeque n q r
    → length q ≤ fuel
    → (r' : Ring) × (expire fuel now r k ≡ some (r', (drop_overdue now q k).conns))
      × IsDeque n (drop_overdue now q k).waiting r'
unfolding expire
expire-drop_overdue n zero now [] k r d l = (r, refl, d)
expire-drop_overdue n zero now (x ∷ xs) k r d l = absurd (omega arith)
expire-drop_overdue n (suc fuel) now [] k r d l = (r, rw (size-eq d), d)
expire-drop_overdue n (suc fuel) now (x ∷ xs) k r d l =
    let (r', e, d') = dequeue_oldest-IsDeque n xs x r d in
    let (r2, e2, d2) =
      expire-drop_overdue n fuel now xs (record k { closed = x ∷ k.closed }) r' d' (omega arith) in
    let waits : ltb 0 r.size ≡ true = ground (arith, size-eq d) in
    elim (Bool-cases (ltb (k.deadline x) now)) [
      | inl due ↦ rw (waits, peek_oldest-IsDeque n xs x r d, due, e, e2) (r2, refl, d2)
      | inr fresh ↦ rw (waits, peek_oldest-IsDeque n xs x r d, fresh) (r, refl, d)
    ]

hands_out-Agrees :
    (cfg : Config) (q : List ℕ) (k : Conns) (r : Ring) (o : Option (List ℕ × ℕ))
    → split_last q ≡ o
    → IsDeque cfg.max_queue_size q r
    → Agrees cfg.max_queue_size
        (move cfg (view q k) hands_out)
        (step_open cfg (with_ring (view q k) r) hands_out)
unfolding move step_open
hands_out-Agrees cfg q k r none e d =
    let empty : q ≡ [] = split_last-none q e in
    let idle : ltb 0 r.size ≡ false = ground (arith, size-eq d) in rw (idle, e, move) tt
hands_out-Agrees cfg q k r (some (ys, c)) e d =
    let split : q ≡ ys ++ c ∷ [] = split_last-append q ys c e in
    let d1 : IsDeque cfg.max_queue_size (ys ++ c ∷ []) r =
      subst (λ t. IsDeque cfg.max_queue_size t r) split d in
    let (r', e', d') = dequeue-IsDeque cfg.max_queue_size ys c r d1 in
    let waits : ltb 0 r.size ≡ true = ground (arith, size-eq d1, length-append ys (c ∷ [])) in
    elim (Bool-cases (ltb (length k.active) cfg.max_concurrency)) [
      | inl free ↦
          rw (waits, free, peek-IsDeque cfg.max_queue_size ys c r d1, e', e, free)
            (r', d', recount r' _ _ _ (omega arith))
      | inr busy ↦ rw (waits, busy, e, busy) tt
    ]

drop_overdue-active :
    (now : ℕ) (q : List ℕ) (k : Conns) → (drop_overdue now q k).conns.active ≡ k.active
drop_overdue-active now [] k = refl
drop_overdue-active now (x ∷ xs) k = elim (Bool-cases (ltb (k.deadline x) now)) [
  | inl due ↦ rw due (drop_overdue-active now xs (record k { closed = x ∷ k.closed }))
  | inr fresh ↦ rw fresh
]

closing_all-map : (q cs : List ℕ) → closing_all (map some q) cs ≡ q ++ cs
closing_all-map [] cs = refl
closing_all-map (x ∷ q) cs = ap (λ t. x ∷ t) (closing_all-map q cs)

abbrev at_end : Ring → Conns → List ℕ → Listener
at_end r k cs = record {
  queue = r;
  concurrency = length k.active;
  conns = record k { closed = cs; quit = true; ended = true };
}

reports-Agrees :
    (cfg : Config) (q : List ℕ) (k : Conns) (r : Ring) (o : Option ℕ)
    → k.error ≡ o
    → IsDeque cfg.max_queue_size q r
    → Agrees cfg.max_queue_size
        (move cfg (view q k) reports)
        (step_open cfg (with_ring (view q k) r) reports)
unfolding move step_open
reports-Agrees cfg q k r none e d = rw (e, move, step_open) tt
reports-Agrees cfg q k r (some x) e d = elim (Bool-cases (length q == 0)) [
  | inl empty ↦
      let none_queued : (r.size == 0) ≡ true = ground (arith, size-eq d) in
      rw (e, move, step_open, none_queued, empty) (r, d, refl)
  | inr waits ↦
      let queued : (r.size == 0) ≡ false = ground (arith, size-eq d) in
      rw (e, move, step_open, queued, waits) tt
]

length-without :
    (c : ℕ) (xs : List ℕ) → any (λ x. x == c) xs ≡ true → length (without c xs) + 1 ≡ length xs
unfolding without
length-without c [] h = cc
length-without c (x ∷ xs) h = ground (arith, length-without c xs)

-- Where the ring holds what waits, each case of the loop is ready exactly when it is ready on the
-- list of the waiting connections, and leaves the ring with what the list then has and the same
-- connections active and closed.
pub step_open-Agrees :
    (cfg : Config) (q : List ℕ) (k : Conns) (r : Ring) (e : Event)
    → IsDeque cfg.max_queue_size q r
    → 0 < cfg.max_queue_size
    → Agrees cfg.max_queue_size (move cfg (view q k) e) (step_open cfg (with_ring (view q k) r) e)
unfolding move step_open
step_open-Agrees cfg q k r (arrives c now) d p = arrives-Agrees cfg q k r c now d p
step_open-Agrees cfg q k r (fails e) d p = (r, d, refl)
step_open-Agrees cfg q k r hands_out d p = hands_out-Agrees cfg q k r (split_last q) refl d
step_open-Agrees cfg q k r reports d p = reports-Agrees cfg q k r k.error refl d
step_open-Agrees cfg q k r (releases c) d p = elim (Bool-cases (is_active c k)) [
  | inl here ↦ rw here (r, d, recount r _ _ _ (omega (arith, length-without c k.active here)))
  | inr gone ↦ rw gone tt
]
step_open-Agrees cfg q k r (times_out now) d p =
    let (r', e, d') =
      expire-drop_overdue cfg.max_queue_size r.size now q k r d (omega (arith, size-eq d)) in
    elim (Bool-cases (ltb 0 cfg.queue_timeout)) [
      | inl timed ↦
          rw (timed, e) (r', d', recount r' _ _ _ (ap length (sym (drop_overdue-active now q k))))
      | inr untimed ↦ rw untimed tt
    ]
step_open-Agrees cfg q k r closes d p = (r, d, refl)
step_open-Agrees cfg q k r quits d p = elim (Bool-cases k.quit) [
  | inl over ↦ rw over (
    r,
    d,
    ap (at_end r k) (
        ap (λ t. closing_all t k.closed) (range_over-IsDeque cfg.max_queue_size q r d)
        ∙ closing_all-map q k.closed),
  )
  | inr not_over ↦ rw not_over tt
]
