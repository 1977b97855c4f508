-- ===== src/QueueListener/Listener/Conserve.antt =====
-- No connection is lost by the loop of queuelistener/listener.go, whatever happens, and no more are
-- handed out or wait than the configuration allows.
use skipper.Prelude.{
  bind-eq-some, ℕ, ◌+◌, ◌≤◌, ◌<◌, ◌≡◌, refl, sym, ap, subst, true, false, List, [], ◌∷◌, ◌++◌,
  Option, none, some, ltb, ◌==◌, if◌then◌else◌, length, any, arith, Bool-cases, inl, inr,
}
use skipper.QueueListener.Ring.{Ring, new_ring}
use skipper.QueueListener.Ring.Deque.{IsDeque, new_ring-IsDeque}
use skipper.QueueListener.Listener.{
  Config, Conns, Listener, Event, arrives, fails, hands_out, reports, releases, times_out, closes,
  quits, without, step_open, step, run, start,
}
use skipper.QueueListener.Listener.View.{View, move, drop_overdue, split_last, split_last-append}
use skipper.QueueListener.Listener.Refine.{with_ring, Shows, Agrees, step_open-Agrees}

-- How often a connection is in a list.
abbrev pub count : ℕ → List ℕ → ℕ
count c [] = 0
count c (x ∷ xs) = if x == c then count c xs + 1 else count c xs

count-append : (c : ℕ) (xs ys : List ℕ) → count c (xs ++ ys) ≡ count c xs + count c ys
count-append c [] ys = omega arith
count-append c (x ∷ xs) ys = ground (arith, count-append c xs ys)

-- The connections that arrive in a run, with those before it.
abbrev pub arrived : List Event → List ℕ → List ℕ
arrived [] cs = cs
arrived (arrives c now ∷ es) cs = arrived es (c ∷ cs)
arrived (_ ∷ es) cs = arrived es cs

abbrev still_waiting : View → List ℕ
still_waiting v = if v.conns.ended then [] else v.waiting

-- Each connection that arrived waits, is active or is closed, as often as it arrived.
abbrev IsBalanced : List ℕ → View → Type 0
IsBalanced cs v =
    (c : ℕ)
    → count c cs ≡ count c (still_waiting v) + count c v.conns.active + count c v.conns.closed

abbrev Within : Config → View → Type 0
Within cfg v = length v.conns.active ≤ cfg.max_concurrency

count-without :
    (c a : ℕ) (xs : List ℕ)
    → any (λ x. x == a) xs ≡ true
    → count c xs ≡ count c (without a xs) + count c (a ∷ [])
unfolding without
count-without c a [] h = cc
count-without c a (x ∷ xs) h = ground (arith, count-without c a xs)

length-without-le : (a : ℕ) (xs : List ℕ) → length (without a xs) ≤ length xs
unfolding without
length-without-le a [] = omega arith
length-without-le a (x ∷ xs) = ground (arith, length-without-le a xs)

drop_overdue-balance :
    (c now : ℕ) (q : List ℕ) (k : Conns)
    → let v = drop_overdue now q k in
      (count c q + count c k.closed ≡ count c v.waiting + count c v.conns.closed)
      × (v.conns.active ≡ k.active)
      × (v.conns.ended ≡ k.ended)
drop_overdue-balance c now [] k = (refl, refl, refl)
drop_overdue-balance c now (x ∷ q) k =
    let (b, a, e) = drop_overdue-balance c now q (record k { closed = x ∷ k.closed }) in
    elim (Bool-cases (ltb (k.deadline x) now)) [
      | inl due ↦ rw due (ground arith, a, e)
      | inr fresh ↦ rw fresh (refl, refl, refl)
    ]

-- The connections that have arrived after an event.
abbrev after : Event → List ℕ → List ℕ
after e cs = arrived (e ∷ []) cs

hands_out-IsBalanced :
    (cfg : Config) (cs q : List ℕ) (k : Conns) (v : View) (o : Option (List ℕ × ℕ))
    → split_last q ≡ o
    → k.ended ≡ false
    → IsBalanced cs (record { waiting = q; conns = k })
    → move cfg (record { waiting = q; conns = k }) hands_out ≡ some v
    → IsBalanced cs v
unfolding move
hands_out-IsBalanced cfg cs q k v none s o b e c = ground arith
hands_out-IsBalanced cfg cs q k v (some (ys, a)) s o b e c =
    ground (arith, b c, ap (count c) (split_last-append q ys a s), count-append c ys (a ∷ []))

move-IsBalanced :
    (cfg : Config) (cs q : List ℕ) (k : Conns) (v : View) (e : Event)
    → k.ended ≡ false
    → IsBalanced cs (record { waiting = q; conns = k })
    → move cfg (record { waiting = q; conns = k }) e ≡ some v
    → IsBalanced (after e cs) v
unfolding move
move-IsBalanced cfg cs [] k v (arrives a now) o b e c = ground (arith, b c)
move-IsBalanced cfg cs (x ∷ xs) k v (arrives a now) o b e c =
    ground (arith, b c, count-append c xs (a ∷ []))
move-IsBalanced cfg cs q k v (fails x) o b e c = ground (arith, b c)
move-IsBalanced cfg cs q k v hands_out o b e c =
    hands_out-IsBalanced cfg cs q k v (split_last q) refl o b e c
move-IsBalanced cfg cs q k v reports o b e c = ground (arith, b c)
move-IsBalanced cfg cs q k v (releases a) o b e c = ground (arith, b c, count-without c a k.active)
move-IsBalanced cfg cs q k v (times_out now) o b e c =
    ground (arith, b c, drop_overdue-balance c now q k)
move-IsBalanced cfg cs q k v closes o b e c = ground (arith, b c)
move-IsBalanced cfg cs q k v quits o b e c = ground (arith, b c, count-append c q k.closed)

move-Within :
    (cfg : Config) (q : List ℕ) (k : Conns) (v : View) (e : Event)
    → length k.active ≤ cfg.max_concurrency
    → move cfg (record { waiting = q; conns = k }) e ≡ some v
    → Within cfg v
unfolding move
move-Within cfg [] k v (arrives a now) b e = ground arith
move-Within cfg (x ∷ xs) k v (arrives a now) b e = ground arith
move-Within cfg q k v (fails x) b e = ground arith
move-Within cfg q k v hands_out b e = ground arith
move-Within cfg q k v reports b e = ground arith
move-Within cfg q k v (releases a) b e = ground (arith, length-without-le a k.active)
move-Within cfg q k v (times_out now) b e = ground (arith, drop_overdue-balance 0 now q k)
move-Within cfg q k v closes b e = ground arith
move-Within cfg q k v quits b e = ground arith

Agrees-some :
    (n : ℕ) (o : Option View) (l : Listener)
    → Agrees n o (some l)
    → (v : View) × (o ≡ some v) × Shows n v l
Agrees-some n none l h = absurd h
Agrees-some n (some v) l h = (v, refl, h)

step_shown :
    (cfg : Config) (v : View) (r : Ring) (e : Event) (l : Listener)
    → 0 < cfg.max_queue_size
    → IsDeque cfg.max_queue_size v.waiting r
    → step cfg (with_ring v r) e ≡ some l
    → (w : View) × (v.conns.ended ≡ false) × (move cfg v e ≡ some w) × Shows cfg.max_queue_size w l
unfolding step
step_shown cfg v r e l p d h = elim (Bool-cases v.conns.ended) [
  | inl over ↦ ground arith
  | inr going ↦
      let taken : step_open cfg (with_ring v r) e ≡ some l = ground arith in
      let (w, m, shown) = Agrees-some cfg.max_queue_size (move cfg v e) l (
        subst (Agrees cfg.max_queue_size (move cfg v e)) taken
          (step_open-Agrees cfg v.waiting v.conns r e d p)) in
      (w, going, m, shown)
]

-- What holds after a run: the view that the listener shows is balanced and within its limits.
record Kept (cfg : Config) (cs : List ℕ) (l : Listener) : Type 0 where
  view : View
  shown : Shows cfg.max_queue_size view l
  balanced : IsBalanced cs view
  within : Within cfg view

step-Kept :
    (cfg : Config) (cs : List ℕ) (l l' : Listener) (e : Event)
    → 0 < cfg.max_queue_size
    → Kept cfg cs l
    → step cfg l e ≡ some l'
    → Kept cfg (after e cs) l'
step-Kept cfg cs l l' e p k h =
    let (r, d, same) = k.shown in
    let h' : step cfg (with_ring k.view r) e ≡ some l' =
      subst (λ x. step cfg x e ≡ some l') same h in
    let (w, going, m, shown) = step_shown cfg k.view r e l' p d h' in
    record {
      view = w;
      shown = shown;
      balanced = move-IsBalanced cfg cs k.view.waiting k.view.conns w e going k.balanced m;
      within = move-Within cfg k.view.waiting k.view.conns w e k.within m;
    }

arrived-cons :
    (e : Event) (es : List Event) (cs : List ℕ) → arrived es (after e cs) ≡ arrived (e ∷ es) cs
arrived-cons (arrives c now) es cs = refl
arrived-cons (fails x) es cs = refl
arrived-cons _ es cs = refl

run-Kept :
    (cfg : Config) (cs : List ℕ) (l l' : Listener) (es : List Event)
    → 0 < cfg.max_queue_size
    → Kept cfg cs l
    → run cfg l es ≡ some l'
    → Kept cfg (arrived es cs) l'
unfolding run
run-Kept cfg cs l l' [] p k h = let same : l ≡ l' = cc in subst (Kept cfg cs) same k
run-Kept cfg cs l l' (e ∷ es) p k h =
    let (m, taken, rest) = bind-eq-some (step cfg l e) (λ x. run cfg x es) h in
    subst (λ t. Kept cfg t l') (arrived-cons e es cs)
      (run-Kept cfg (after e cs) m l' es p (step-Kept cfg cs l m e p k taken) rest)

-- The promise of the loop to the server and to the clients, after the connections cs have arrived.
abbrev pub IsSound : Config → List ℕ → Listener → Type 0
IsSound cfg cs l =
    (q : List ℕ) × IsDeque cfg.max_queue_size q l.queue
    × (length q ≤ cfg.max_queue_size)
    × (l.concurrency ≡ length l.conns.active)
    × (l.concurrency ≤ cfg.max_concurrency)
    × ((c : ℕ)
        → count c cs
          ≡ count c (if l.conns.ended then [] else q)
            + count c l.conns.active
            + count c l.conns.closed)

Kept-IsSound : (cfg : Config) (cs : List ℕ) (l : Listener) → Kept cfg cs l → IsSound cfg cs l
Kept-IsSound cfg cs l k =
    let (r, d, same) = k.shown in
    subst (IsSound cfg cs) (sym same) (k.view.waiting, d, d.1.fits, refl, k.within, k.balanced)

start-Kept : (cfg : Config) → 0 < cfg.max_queue_size → Kept cfg [] (start cfg)
unfolding start
start-Kept cfg p = record {
  view = record { waiting = []; conns = (start cfg).conns };
  shown = (new_ring cfg.max_queue_size, new_ring-IsDeque cfg.max_queue_size p, refl);
  balanced = λ c. refl;
  within = omega arith;
}

-- With a queue of at least one place, after any run of the loop no more connections are handed out
-- than the concurrency allows, no more wait than the queue holds, and each connection that arrived
-- waits, is active or is closed, as often as it arrived; when the loop has ended none waits.
pub run-start-IsSound :
    (cfg : Config) (es : List Event) (l : Listener)
    → 0 < cfg.max_queue_size
    → run cfg (start cfg) es ≡ some l
    → IsSound cfg (arrived es []) l
run-start-IsSound cfg es l p h =
    Kept-IsSound cfg (arrived es []) l (run-Kept cfg [] (start cfg) l es p (start-Kept cfg p) h)
