-- ===== src/Scheduler/Pool/Valid.antt =====
-- The queues of the registry of scheduler/scheduler.go: no two ids have the same queue, and a queue
-- that waits to be closed is none of those in use.
use skipper.Prelude.{
  ℕ, ◌+◌, ◌<◌, ◌≡◌, refl, sym, subst, ◌∙◌, true, false, List, [], ◌∷◌, none, ◌==◌, ==_iff, All,
  Bool-cases, Option-cases, inl, inr, arith,
}
use skipper.Prelude.Map.{Eq, nat_eq, lookup, insert, lookup-insert, All-insert}
use skipper.Scheduler.Fifo.{update}
use skipper.Scheduler.Pool.{
  QueueId, id_eq, Kind, Pool, not_due, in_use, used, retire, delete_unused, get_queue,
}

-- The queue q is that of the id which owns it, and does not wait to be closed.
abbrev pub Registered : (ℕ → QueueId) → ℕ → List (ℕ × ℕ) → QueueId × ℕ → Type 0
Registered owner made deleted e = (owner e.1 ≡ e.0) × (e.1 < made) × (lookup e.1 deleted ≡ none)

abbrev pub Made : ℕ → ℕ × ℕ → Type 0
Made made e = e.0 < made

-- Each queue is kept under the id that owns it.
abbrev pub IsValid : {C Q : Type 0} → Pool C Q → Type 0
IsValid p =
    (owner : ℕ → QueueId) × All (Registered owner p.made p.deleted) p.queues
    × All (Made p.made) p.deleted

lookup-not_due :
    (now q : ℕ) (d : List (ℕ × ℕ)) → lookup q d ≡ none → lookup q (not_due now d) ≡ none
unfolding lookup not_due
lookup-not_due now q [] h = h
lookup-not_due now q ((j, t) ∷ d) h = ground (arith, lookup-not_due now q d)

All-not_due : (P : ℕ × ℕ → Type 0) (now : ℕ) (d : List (ℕ × ℕ)) → All P d → All P (not_due now d)
unfolding not_due
All-not_due P now [] a = tt
All-not_due P now ((j, t) ∷ d) a = ground (arith, All-not_due P now d a.1)

All-used :
    (P : QueueId × ℕ → Type 0) (ids : List QueueId) (qs : List (QueueId × ℕ))
    → All P qs
    → All P (used ids qs)
unfolding used
All-used P ids [] a = tt
All-used P ids ((id, q) ∷ qs) a = ground (arith, All-used P ids qs a.1)

All-retire :
    (P : ℕ × ℕ → Type 0) (now : ℕ) (ids : List QueueId) (qs : List (QueueId × ℕ)) (d : List (ℕ × ℕ))
    → All (λ e. P (e.1, now)) qs
    → All P d
    → All P (retire now ids qs d)
unfolding retire
All-retire P now ids [] d a b = b
All-retire P now ids ((id, q) ∷ qs) d a b = elim (Bool-cases (in_use id ids)) [
  | inl here ↦ rw here (All-retire P now ids qs d a.1 b)
  | inr gone ↦ rw gone (All-retire P now ids qs (insert q now d) a.1 (All-insert P q now d b a.0))
]

-- Retiring the queues of other ids leaves that of an id in use out of the deleted ones.
lookup-retire :
    (owner : ℕ → QueueId) (q now : ℕ) (ids : List QueueId) (qs : List (QueueId × ℕ))
    (d : List (ℕ × ℕ))
    → in_use (owner q) ids ≡ true
    → All (λ e. owner e.1 ≡ e.0) qs
    → lookup q d ≡ none
    → lookup q (retire now ids qs d) ≡ none
unfolding retire
lookup-retire owner q now ids [] d u a h = h
lookup-retire owner q now ids ((id, p) ∷ qs) d u (o, a) h = elim (Bool-cases (in_use id ids)) [
  | inl here ↦ rw here (lookup-retire owner q now ids qs d u a h)
  | inr gone ↦
      let apart : (p == q) ≡ false = elim (Bool-cases (p == q)) [
        | inl same ↦
            let e : in_use (owner p) ids ≡ true =
              subst (λ x. in_use (owner x) ids ≡ true) (sym ((==_iff p q).0 same)) u in
            absurd
              (let e' : in_use id ids ≡ true = subst (λ x. in_use x ids ≡ true) o e in ground arith)
        | inr other ↦ other
      ] in
      rw gone (
        lookup-retire owner q now ids qs (insert p now d) u a
          (lookup-insert p q now d ∙ rw apart h))
]

used-Registered :
    (owner : ℕ → QueueId) (made now : ℕ) (ids : List QueueId) (whole qs : List (QueueId × ℕ))
    (d : List (ℕ × ℕ))
    → All (λ e. owner e.1 ≡ e.0) whole
    → All (Registered owner made d) qs
    → All (Registered owner made (retire now ids whole d)) (used ids qs)
unfolding used
used-Registered owner made now ids whole [] d w a = tt
used-Registered owner made now ids whole ((id, q) ∷ qs) d w ((o, m, l), a) =
    let rest = used-Registered owner made now ids whole qs d w a in
    elim (Bool-cases (in_use id ids)) [
      | inl here ↦
          let kept : in_use (owner q) ids ≡ true = rw o here in
          rw here ((o, m, lookup-retire owner q now ids whole d kept w l), rest)
      | inr gone ↦ rw gone rest
    ]

All-implies :
    {A : Type 0} (P Q : A → Type 0) (xs : List A) → ((x : A) → P x → Q x) → All P xs → All Q xs
All-implies P Q [] f a = tt
All-implies P Q (x ∷ xs) f (a, rest) = (f x a, All-implies P Q xs f rest)

All-lookup-none : (made : ℕ) (d : List (ℕ × ℕ)) → All (Made made) d → lookup made d ≡ none
unfolding lookup
All-lookup-none made [] a = refl
All-lookup-none made ((j, t) ∷ d) a = ground (arith, All-lookup-none made d a.1)

module _ {C Q : Type 0} where
  -- The loops keep each queue under the id that owns it.
  pub delete_unused-IsValid :
      (k : Kind C Q) (now : ℕ) (ids : List QueueId) (pool : Pool C Q)
      → IsValid pool
      → IsValid (delete_unused k now ids pool)
  unfolding delete_unused
  delete_unused-IsValid k now ids pool (owner, r, m) =
      let d = not_due now pool.deleted in
      let fresh : All (Registered owner pool.made d) pool.queues =
        All-implies (Registered owner pool.made pool.deleted) (Registered owner pool.made d)
          pool.queues (λ e h. (h.0, h.1, lookup-not_due now e.1 pool.deleted h.2)) r in
      let owned : All (λ e. owner e.1 ≡ e.0) pool.queues =
        All-implies (Registered owner pool.made pool.deleted) (λ e. owner e.1 ≡ e.0) pool.queues
          (λ e h. h.0) r in
      let below : All (λ e. Made pool.made (e.1, now)) pool.queues =
        All-implies (Registered owner pool.made pool.deleted) (λ e. Made pool.made (e.1, now))
          pool.queues (λ e h. h.1) r in
      (
        owner,
        used-Registered owner pool.made now ids pool.queues pool.queues d owned fresh,
        All-retire (Made pool.made) now ids pool.queues d below
            (All-not_due (Made pool.made) now pool.deleted m),
      )

  -- A call for a queue keeps them, too, and a new queue is none that there was.
  pub get_queue-IsValid :
      ⦃e : Eq C⦄ (k : Kind C Q) (id : QueueId) (c : C) (pool : Pool C Q)
      → IsValid pool
      → IsValid (get_queue k id c pool).0
  unfolding get_queue
  get_queue-IsValid ⦃e⦄ k id c pool (owner, r, m) = elim (Option-cases (lookup id pool.queues)) [
    | inl absent ↦
        let owner' = update owner pool.made id in
        let older : All (Registered owner' (pool.made + 1) pool.deleted) pool.queues =
          All-implies (Registered owner pool.made pool.deleted)
            (Registered owner' (pool.made + 1) pool.deleted) pool.queues
            (λ x h. (
              (let other : (x.1 == pool.made) ≡ false = ground (arith, h.1) in rw other h.0),
              omega (arith, h.1),
              h.2,
            ))
            r in
        let newer : Registered owner' (pool.made + 1) pool.deleted (id, pool.made) = (
          (let same : (pool.made == pool.made) ≡ true = ground arith in rw same refl),
          omega arith,
          All-lookup-none pool.made pool.deleted m,
        ) in
        let later : All (Made (pool.made + 1)) pool.deleted =
          All-implies (Made pool.made) (Made (pool.made + 1)) pool.deleted (λ x h. omega (arith, h))
            m in
        rw (absent, get_queue)
          (
            owner',
            All-insert (Registered owner' (pool.made + 1) pool.deleted) id pool.made pool.queues
                older newer,
            later,
          )
    | inr (q, found) ↦ elim (Bool-cases (e.beq (pool.objects q).config c)) [
      | inl same ↦ rw (found, same, get_queue) (owner, r, m)
      | inr other ↦ rw (found, other, get_queue) (owner, r, m)
    ]
  ]
