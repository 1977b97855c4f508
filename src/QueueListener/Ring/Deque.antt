-- ===== src/QueueListener/Ring/Deque.antt =====
-- The ring of queuelistener/ring.go as a bounded deque: a list, the oldest connection first.
use skipper.Prelude.{
  ℕ, zero, suc, ◌+◌, ◌-◌, ◌≤◌, ◌<◌, ◌≡◌, refl, sym, ap, subst, ◌∙◌, Bool, true, false, List, [],
  ◌∷◌, ◌++◌, Option, none, some, ◌==◌, if◌then◌else◌, length, get_elem?, set, arith, length-append,
  length-set, length-replicate,
}
use skipper.QueueListener.Ring.{
  Ring, new_ring, before_next, oldest_index, peek, peek_oldest, enqueue, dequeue, dequeue_oldest,
}
use skipper.QueueListener.Ring.Places.{wrap, At, At-concat, At-tail, At-init}

-- The ring has capacity n and holds q from slot s on.
pub record Holds (n s : ℕ) (q : List ℕ) (r : Ring) : Type 0 where
  pub whole : length r.connections ≡ n
  pub inside : s < n
  pub fits : length q ≤ n
  pub sized : r.size ≡ length q
  pub next : r.next ≡ wrap n (s + length q)
  pub at : At r.connections n s q

-- What the ring looks like from outside: its capacity and what it holds.
abbrev pub IsDeque : ℕ → List ℕ → Ring → Type 0
IsDeque n q r = (s : ℕ) × Holds n s q r

pub new_ring-IsDeque : (n : ℕ) → 0 < n → IsDeque n [] (new_ring n)
unfolding new_ring
new_ring-IsDeque n p = (
  0,
  record {
    whole = length-replicate n none;
    inside = p;
    fits = omega arith;
    sized = refl;
    next = ground arith;
    at = λ i h. absurd (omega arith);
  },
)

pub oldest_index-start : {n s : ℕ} {q : List ℕ} {r : Ring} → Holds n s q r → oldest_index r ≡ s
oldest_index-start {n} {s} {q} {r} h = ground (arith, h.whole, h.inside, h.fits, h.sized, h.next)

get_elem?-some :
    (cs : List (Option ℕ)) (i : ℕ) → i < length cs → (c : Option ℕ) × (get_elem? cs i ≡ some c)
get_elem?-some [] i h = absurd (omega arith)
get_elem?-some (c ∷ cs) zero h = (c, refl)
get_elem?-some (c ∷ cs) (suc i) h = get_elem?-some cs i (omega arith)

-- The oldest connection stands where the code looks for it.
peek_oldest-at :
    {n s : ℕ} {x : ℕ} {q : List ℕ} {r : Ring}
    → Holds n s (x ∷ q) r
    → get_elem? r.connections (oldest_index r) ≡ some (some x)
peek_oldest-at {n} {s} {x} {q} {r} h =
    ap (get_elem? r.connections) (ground (arith, oldest_index-start h, h.inside))
    ∙ h.at 0 (omega arith)

get_elem?-last : (q : List ℕ) (c : ℕ) → get_elem? (q ++ c ∷ []) (length q) ≡ some c
get_elem?-last [] c = refl
get_elem?-last (x ∷ q) c = get_elem?-last q c

before_next-place :
    {n s : ℕ} (q : List ℕ) (c : ℕ) {r : Ring}
    → Holds n s (q ++ c ∷ []) r
    → before_next r ≡ wrap n (s + length q)
before_next-place {n} {s} q c {r} h =
    ground (arith, h.whole, h.inside, h.fits, h.sized, h.next, length-append q (c ∷ []))

peek-at :
    {n s : ℕ} (q : List ℕ) (c : ℕ) {r : Ring}
    → Holds n s (q ++ c ∷ []) r
    → get_elem? r.connections (before_next r) ≡ some (some c)
peek-at {n} {s} q c {r} h =
    ap (get_elem? r.connections) (before_next-place q c h)
    ∙ h.at (length q) (omega (arith, length-append q (c ∷ [])))
    ∙ ap some (get_elem?-last q c)

-- dequeue removes the newest connection of a ring and returns it.
pub dequeue-IsDeque :
    (n : ℕ) (q : List ℕ) (c : ℕ) (r : Ring)
    → IsDeque n (q ++ c ∷ []) r
    → (r' : Ring) × (dequeue r ≡ some (r', some c)) × IsDeque n q r'
unfolding dequeue
dequeue-IsDeque n q c r (s, h) = (
  record {
    connections = set r.connections (before_next r) none;
    next = before_next r;
    size = r.size - 1;
  },
  rw (peek-at q c h),
  (
    s,
    record {
      whole = length-set r.connections _ none ∙ h.whole;
      inside = h.inside;
      fits = omega (arith, length-append q (c ∷ []), h.fits);
      sized = omega (arith, length-append q (c ∷ []), h.sized);
      next = before_next-place q c h;
      at =
          subst (λ k. At (set r.connections k none) n s q) (sym (before_next-place q c h))
            (At-init r.connections n s h.whole h.inside q c none h.at
              (omega (arith, length-append q (c ∷ []), h.fits)));
    },
  ),
)

-- dequeueOldest removes the oldest connection of a ring and returns it.
pub dequeue_oldest-IsDeque :
    (n : ℕ) (q : List ℕ) (c : ℕ) (r : Ring)
    → IsDeque n (c ∷ q) r
    → (r' : Ring) × (dequeue_oldest r ≡ some (r', some c)) × IsDeque n q r'
unfolding dequeue_oldest
dequeue_oldest-IsDeque n q c r (s, h) = (
  record r { connections = set r.connections (oldest_index r) none; size = r.size - 1 },
  rw (peek_oldest-at h),
  (
    wrap n (s + 1),
    record {
      whole = length-set r.connections _ none ∙ h.whole;
      inside = ground (arith, h.inside);
      fits = omega (arith, h.fits);
      sized = omega (arith, h.sized);
      next = ground (arith, h.next, h.inside, h.fits);
      at =
          subst (λ k. At (set r.connections k none) n (wrap n (s + 1)) q)
            (sym (oldest_index-start h))
            (At-tail r.connections n s h.whole h.inside c q none h.at (omega (arith, h.fits)));
    },
  ),
)

enqueued : Ring → ℕ → Bool → Ring
enqueued r c full = record r {
  connections = set r.connections r.next (some c);
  next = if r.next + 1 == length r.connections then 0 else r.next + 1;
  size = if full then r.size else r.size + 1;
}

enqueue_lem :
    (r : Ring) (c : ℕ) (slot : Option ℕ)
    → get_elem? r.connections r.next ≡ some slot
    → enqueue r c
      ≡ some (
        enqueued r c (r.size == length r.connections),
        (if r.size == length r.connections then slot else none),
      )
unfolding enqueue enqueued
enqueue_lem r c slot e = rw e

-- enqueue on a ring with room adds the connection as the newest, and none leaves.
pub enqueue-IsDeque :
    (n : ℕ) (q : List ℕ) (c : ℕ) (r : Ring)
    → IsDeque n q r
    → length q < n
    → (r' : Ring) × (enqueue r c ≡ some (r', none)) × IsDeque n (q ++ c ∷ []) r'
unfolding enqueued
enqueue-IsDeque n q c r (s, h) room =
    let (slot, e) =
      get_elem?-some r.connections r.next (ground (arith, h.next, h.inside, h.whole)) in
    let short : (r.size == length r.connections) ≡ false = ground (arith, h.sized, h.whole) in
    (
      enqueued r c false,
      enqueue_lem r c slot e ∙ rw short,
      (
        s,
        record {
          whole = length-set r.connections _ (some c) ∙ h.whole;
          inside = h.inside;
          fits = omega (arith, length-append q (c ∷ []));
          sized = omega (arith, length-append q (c ∷ []), h.sized);
          next = ground (arith, h.next, h.inside, h.whole, length-append q (c ∷ []));
          at =
              subst (λ k. At (set r.connections k (some c)) n s (q ++ c ∷ [])) (sym h.next)
                (At-concat r.connections n s h.whole h.inside q c h.at room);
        },
      ),
    )

set-set : (cs : List (Option ℕ)) (i : ℕ) (v w : Option ℕ) → set (set cs i v) i w ≡ set cs i w
set-set [] i v w = refl
set-set (c ∷ cs) zero v w = refl
set-set (c ∷ cs) (suc i) v w = ap (λ t. c ∷ t) (set-set cs i v w)

-- enqueue on a full ring returns the oldest connection, which leaves, and adds the new one as the
-- newest.
pub enqueue-IsDeque_full :
    (n : ℕ) (q : List ℕ) (x c : ℕ) (r : Ring)
    → IsDeque n (x ∷ q) r
    → length (x ∷ q) ≡ n
    → (r' : Ring) × (enqueue r c ≡ some (r', some x)) × IsDeque n (q ++ c ∷ []) r'
unfolding enqueued
enqueue-IsDeque_full n q x c r (s, h) filled =
    let full : (r.size == length r.connections) ≡ true = ground (arith, h.sized, h.whole) in
    let next : r.next ≡ s = ground (arith, h.next, h.inside) in
    let start : ℕ = wrap n (s + 1) in
    let first : start < n = ground (arith, h.inside) in
    let place : wrap n (start + length q) ≡ s = ground (arith, h.inside) in
    let emptied : length (set r.connections s none) ≡ n =
      length-set r.connections s none ∙ h.whole in
    let rest : At (set r.connections s none) n start q =
      At-tail r.connections n s h.whole h.inside x q none h.at (omega arith) in
    let added = At-concat (set r.connections s none) n start emptied first q c rest (omega arith) in
    let held : At (set r.connections r.next (some c)) n start (q ++ c ∷ []) =
      subst (λ t. At t n start (q ++ c ∷ []))
        (ap (λ k. set (set r.connections s none) k (some c)) place
          ∙ set-set r.connections s none (some c)
          ∙ ap (λ k. set r.connections k (some c)) (sym next))
        added in
    let slot : get_elem? r.connections r.next ≡ some (some x) =
      ap (get_elem? r.connections) (ground (arith, next, h.inside)) ∙ h.at 0 (omega arith) in
    (
      enqueued r c true,
      enqueue_lem r c (some x) slot ∙ rw full,
      (
        start,
        record {
          whole = length-set r.connections _ (some c) ∙ h.whole;
          inside = first;
          fits = omega (arith, length-append q (c ∷ []));
          sized = omega (arith, length-append q (c ∷ []), h.sized);
          next = ground (arith, next, h.inside, h.whole, length-append q (c ∷ []));
          at = held;
        },
      ),
    )

-- `peekOldest` returns the oldest connection and `peek` the newest.
pub peek_oldest-IsDeque :
    (n : ℕ) (q : List ℕ) (c : ℕ) (r : Ring) → IsDeque n (c ∷ q) r → peek_oldest r ≡ some (some c)
unfolding peek_oldest
peek_oldest-IsDeque n q c r (s, h) = peek_oldest-at h

pub peek-IsDeque :
    (n : ℕ) (q : List ℕ) (c : ℕ) (r : Ring) → IsDeque n (q ++ c ∷ []) r → peek r ≡ some (some c)
unfolding peek
peek-IsDeque n q c r (s, h) = peek-at q c h
