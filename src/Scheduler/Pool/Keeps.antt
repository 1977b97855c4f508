-- ===== src/Scheduler/Pool/Keeps.antt =====
-- The queues of the registry of scheduler/scheduler.go across updates of the routes: a queue stays
-- the same one, with what it holds, as long as its id is in use with the same configuration.
use skipper.Prelude.{
  ℕ, ◌≡◌, refl, sym, ap, subst, ◌∙◌, true, false, List, [], ◌∷◌, none, some, ◌==◌, ==_iff,
  if◌then◌else◌, Bool-cases, Option-cases, inl, inr, arith,
}
use skipper.Prelude.Map.{Eq, nat_eq, lookup, lookup-insert, lookup-insert_self, All-lookup}
use skipper.Scheduler.Pool.{
  QueueId, same_id, same_id_iff, id_eq, Kind, Object, Pool, is_due, in_use, used, close_object,
  close_due, delete_unused, get_queue,
}
use skipper.Scheduler.Pool.Valid.{IsValid, Registered}

lookup-used :
    (id : QueueId) (ids : List QueueId) (qs : List (QueueId × ℕ))
    → lookup id (used ids qs) ≡ (if in_use id ids then lookup id qs else none)
unfolding used lookup
lookup-used id ids [] = ground arith
lookup-used id ids ((j, q) ∷ qs) = elim (Bool-cases (same_id j id)) [
  | inl same ↦
      let e : j ≡ id = (same_id_iff j id).0 same in
      ground (arith, lookup-used id ids qs, ap (λ x. in_use x ids) e)
  | inr other ↦ ground (arith, lookup-used id ids qs)
]

module _ {C Q : Type 0} where
  -- The id has the queue q, which is the object o.
  abbrev pub Has : Pool C Q → QueueId → ℕ → Object C Q → Type 0
  Has pool id q o = (lookup id pool.queues ≡ some q) × (pool.objects q ≡ o)

  close_due-other :
      (k : Kind C Q) (now q : ℕ) (d : List (ℕ × ℕ)) (objects : ℕ → Object C Q)
      → lookup q d ≡ none
      → close_due k now d objects q ≡ objects q
  unfolding close_due lookup close_object
  close_due-other k now q [] objects h = refl
  close_due-other k now q ((j, t) ∷ d) objects h =
      let apart : (j == q) ≡ false = ground arith in
      let apart' : (q == j) ≡ false = ground arith in
      let rest : lookup q d ≡ none = ground arith in
      close_due-other k now q d (if is_due now t then close_object k j objects else objects) rest
      ∙ (elim (Bool-cases (is_due now t)) [
        | inl due ↦ rw (due, apart') refl
        | inr fresh ↦ rw fresh refl
      ])

  pub registered :
      (pool : Pool C Q) (id : QueueId) (q : ℕ) (v : IsValid pool)
      → lookup id pool.queues ≡ some q
      → Registered v.0 pool.made pool.deleted (id, q)
  registered pool id q (owner, r, m) h =
      All-lookup (Registered owner pool.made pool.deleted) id q pool.queues r h

  pub delete_unused-Has :
      (k : Kind C Q) (now : ℕ) (ids : List QueueId) (pool : Pool C Q) (id : QueueId) (q : ℕ)
      (o : Object C Q)
      → IsValid pool
      → Has pool id q o
      → in_use id ids ≡ true
      → Has (delete_unused k now ids pool) id q o
  unfolding delete_unused
  delete_unused-Has k now ids pool id q o v (l, e) u = (
    lookup-used id ids pool.queues ∙ rw u l,
    close_due-other k now q pool.deleted pool.objects (registered pool id q v l).2 ∙ e,
  )

  pub get_queue-Has :
      ⦃eq : Eq C⦄ (k : Kind C Q) (id id' : QueueId) (c : C) (pool : Pool C Q) (q : ℕ)
      (o : Object C Q)
      → IsValid pool
      → Has pool id q o
      → (same_id id' id ≡ true → eq.beq o.config c ≡ true)
      → Has (get_queue k id' c pool).0 id q o
  unfolding get_queue
  get_queue-Has ⦃eq⦄ k id id' c pool q o v (l, e) same =
      elim (Option-cases (lookup id' pool.queues)) [
        | inl absent ↦
            let apart : same_id id' id ≡ false = elim (Bool-cases (same_id id' id)) [
              | inl t ↦
                  let x : lookup id pool.queues ≡ none =
                    subst (λ y. lookup y pool.queues ≡ none) ((same_id_iff id' id).0 t) absent in
                  ground arith
              | inr f ↦ f
            ] in
            let old : (q == pool.made) ≡ false = ground (arith, (registered pool id q v l).1) in
            rw (absent, get_queue)
              (lookup-insert id' id pool.made pool.queues ∙ rw apart l, rw old e)
        | inr (p, found) ↦ elim (Bool-cases (eq.beq (pool.objects p).config c)) [
          | inl equal ↦ rw (found, equal, get_queue) (l, e)
          | inr differs ↦
              let apart : (q == p) ≡ false = elim (Bool-cases (q == p)) [
                | inl t ↦
                    let q≡p : q ≡ p = (==_iff q p).0 t in
                    let ids : id' ≡ id =
                      sym (registered pool id' p v found).0
                      ∙ ap (v.0) (sym q≡p)
                      ∙ (registered pool id q v l).0 in
                    let equal : eq.beq (pool.objects p).config c ≡ true =
                      subst (λ x. eq.beq x.config c ≡ true) (sym e ∙ ap pool.objects q≡p)
                        (same ((same_id_iff id' id).1 ids)) in
                    absurd (ground arith)
                | inr f ↦ f
              ] in
              rw (found, differs, get_queue) (l, rw apart e)
        ]
      ]

  pub get_queue-returns :
      ⦃eq : Eq C⦄ (k : Kind C Q) (id : QueueId) (c : C) (pool : Pool C Q)
      → let (pool', q) = get_queue k id c pool in
        (lookup id pool'.queues ≡ some q) × ((pool'.objects q).config ≡ c)
  unfolding get_queue
  get_queue-returns ⦃eq⦄ k id c pool = elim (Option-cases (lookup id pool.queues)) [
    | inl absent ↦
        let new : (pool.made == pool.made) ≡ true = ground arith in
        rw (absent, get_queue) (lookup-insert_self id pool.made pool.queues, rw new refl)
    | inr (p, found) ↦ elim (Bool-cases (eq.beq (pool.objects p).config c)) [
      | inl equal ↦ rw (found, equal, get_queue) (found, (eq.beq_iff _ _).0 equal)
      | inr differs ↦
          let here : (p == p) ≡ true = ground arith in
          rw (found, differs, get_queue) (found, rw here refl)
    ]
  ]
