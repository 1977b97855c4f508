-- ===== src/Scheduler/Pool.antt =====
-- scheduler/scheduler.go: the queues that the Registry keeps, which are pointers. It keeps FIFO and
-- LIFO queues in the same way, and a `Pool` is either; `Kind` has what it does with a queue. A
-- configuration is of any type with an equality. Metrics are left out.
pub mod Valid
pub mod Keeps
use skipper.Prelude.{
  ℕ, zero, suc, ◌+◌, ◌≡◌, ◌↔◌, refl, String, Bool, true, false, List, [], ◌∷◌, Option, none, some,
  ltb, ◌==◌, str_eq, str_eq_iff, ◌&&◌, if◌then◌else◌, arith, sym, subst, &&-eq-true,
}
use skipper.Prelude.Map.{Eq, nat_eq, lookup, insert}
use skipper.Scheduler.Fifo.{update}

pub record QueueId : Type 0 where
  pub name : String
  pub grouped : Bool

abbrev bool_eq : Bool → Bool → Bool
bool_eq true b = b
bool_eq false true = false
bool_eq false false = true

abbrev pub same_id : QueueId → QueueId → Bool
same_id a b = str_eq a.name b.name && bool_eq a.grouped b.grouped

bool_eq-eq : (a b : Bool) → bool_eq a b ≡ true → a ≡ b
bool_eq-eq true true h = refl
bool_eq-eq true false h = sym h
bool_eq-eq false true h = h
bool_eq-eq false false h = refl

bool_eq-same : (a : Bool) → bool_eq a a ≡ true
bool_eq-same true = refl
bool_eq-same false = refl

same_id-same : (a : QueueId) → same_id a a ≡ true
same_id-same a = ground (arith, str_eq_iff a.name a.name, bool_eq-same a.grouped)

pub same_id_iff : (a b : QueueId) → (same_id a b ≡ true) ↔ (a ≡ b)
same_id_iff a b = (
  (λ h.
      let (n, g) = &&-eq-true (str_eq a.name b.name) (bool_eq a.grouped b.grouped) h in
      let names : a.name ≡ b.name = (str_eq_iff a.name b.name).0 n in
      let groups : a.grouped ≡ b.grouped = bool_eq-eq a.grouped b.grouped g in
      λ i. record { name = names i; grouped = groups i }),
  (λ e. subst (λ x. same_id a x ≡ true) e (same_id-same a)),
)

instance abbrev pub id_eq : Eq QueueId
id_eq = record { beq = same_id; beq_iff = same_id_iff }

-- newFifoQueue, Reconfigure and close, or With, Reconfigure and Close of github.com/aryszka/jobqueue.
pub record Kind (C Q : Type 0) : Type 0 where
  pub make : C → Q
  pub reconfigure : C → Q → Q
  pub close : Q → Q

-- A FifoQueue or a Queue.
pub record Object (C Q : Type 0) : Type 0 where
  pub config : C
  pub queue : Q

-- The queues of one kind, those that wait to be closed with the time when they went out of use, and
-- what the pointers point to.
pub record Pool (C Q : Type 0) : Type 0 where
  pub queues : List (QueueId × ℕ)
  pub deleted : List (ℕ × ℕ)
  pub objects : ℕ → Object C Q
  pub made : ℕ

-- One minute, in nanoseconds.
abbrev pub queue_close_delay : ℕ
queue_close_delay = 60000000000

-- `deleted.Before(closeCutoff)`
abbrev pub is_due : ℕ → ℕ → Bool
is_due now deleted = ltb (deleted + queue_close_delay) now

-- The entries that the loop over the deleted queues leaves.
unfoldable pub not_due : ℕ → List (ℕ × ℕ) → List (ℕ × ℕ)
not_due now [] = []
not_due now ((q, t) ∷ d) = if is_due now t then not_due now d else (q, t) ∷ not_due now d

unfoldable pub in_use : QueueId → List QueueId → Bool
in_use id [] = false
in_use id (i ∷ ids) = if same_id i id then true else in_use id ids

-- The loop over the queues: those that stay, and those that are put with the deleted ones.
unfoldable pub used : List QueueId → List (QueueId × ℕ) → List (QueueId × ℕ)
used ids [] = []
used ids ((id, q) ∷ qs) = if in_use id ids then (id, q) ∷ used ids qs else used ids qs

unfoldable pub retire : ℕ → List QueueId → List (QueueId × ℕ) → List (ℕ × ℕ) → List (ℕ × ℕ)
retire now ids [] d = d
retire now ids ((id, q) ∷ qs) d =
    if in_use id ids then retire now ids qs d else retire now ids qs (insert q now d)

module _ {C Q : Type 0} where
  unfoldable pub close_object : Kind C Q → ℕ → (ℕ → Object C Q) → ℕ → Object C Q
  close_object k q objects =
      update objects q (record (objects q) { queue = k.close (objects q).queue })

  -- The loop closes those that were deleted more than the delay ago.
  unfoldable pub close_due : Kind C Q → ℕ → List (ℕ × ℕ) → (ℕ → Object C Q) → ℕ → Object C Q
  close_due k now [] objects = objects
  close_due k now ((q, t) ∷ d) objects =
      close_due k now d (if is_due now t then close_object k q objects else objects)

  unfoldable pub delete_unused : Kind C Q → ℕ → List QueueId → Pool C Q → Pool C Q
  delete_unused k now ids pool = record pool {
    queues = used ids pool.queues;
    deleted = retire now ids pool.queues (not_due now pool.deleted);
    objects = close_due k now pool.deleted pool.objects;
  }

  unfoldable pub get_queue : ⦃e : Eq C⦄ → Kind C Q → QueueId → C → Pool C Q → Pool C Q × ℕ
  get_queue ⦃e⦄ k id c pool = elim (lookup id pool.queues) [
    | some q ↦ if e.beq (pool.objects q).config c then (pool, q) else (
      record pool {
        objects =
            update pool.objects q
              (record { config = c; queue = k.reconfigure c (pool.objects q).queue });
      },
      q,
    )
    | none ↦ (
      record pool {
        queues = insert id pool.made pool.queues;
        objects = update pool.objects pool.made (record { config = c; queue = k.make c });
        made = pool.made + 1;
      },
      pool.made,
    )
  ]
