-- ===== src/QueueListener/Ring/Tests.antt =====
-- Tests and instances for queuelistener/ring.go: a ring of three that has wrapped.
use skipper.Prelude.{zero, suc, ◌≡◌, refl, [], ◌∷◌, none, some, arith}
use skipper.QueueListener.Ring.{Ring, new_ring, enqueue}
use skipper.QueueListener.Ring.Deque.{IsDeque, new_ring-IsDeque, enqueue-IsDeque_full}
use skipper.QueueListener.Ring.Places.{At}

-- It holds 7 and 8, the first in the last slot.
abbrev wrapped : Ring
wrapped = record { connections = some 8 ∷ none ∷ some 7 ∷ []; next = 1; size = 2 }

wrapped-At : At wrapped.connections 3 2 (7 ∷ 8 ∷ [])
wrapped-At zero h = refl
wrapped-At (suc zero) h = refl
wrapped-At (suc (suc i)) h = absurd (omega arith)

wrapped-IsDeque : IsDeque 3 (7 ∷ 8 ∷ []) wrapped
wrapped-IsDeque = (
  2,
  record {
    whole = refl;
    inside = omega arith;
    fits = omega arith;
    sized = refl;
    next = refl;
    at = wrapped-At;
  },
)

abbrev full : Ring
full = record { connections = some 8 ∷ some 9 ∷ some 7 ∷ []; next = 2; size = 3 }

full-At : At full.connections 3 2 (7 ∷ 8 ∷ 9 ∷ [])
full-At zero h = refl
full-At (suc zero) h = refl
full-At (suc (suc zero)) h = refl
full-At (suc (suc (suc i))) h = absurd (omega arith)

full-IsDeque : IsDeque 3 (7 ∷ 8 ∷ 9 ∷ []) full
full-IsDeque = (
  2,
  record {
    whole = refl;
    inside = omega arith;
    fits = omega arith;
    sized = refl;
    next = refl;
    at = full-At;
  },
)

enqueue_runs : enqueue wrapped 9 ≡ some (full, none)
unfolding enqueue
enqueue_runs = refl

new_ring-IsDeque_example : IsDeque 3 [] (new_ring 3)
new_ring-IsDeque_example = new_ring-IsDeque 3 (omega arith)

enqueue-IsDeque_full_example :
    (r : Ring) × (enqueue full 4 ≡ some (r, some 7)) × IsDeque 3 (8 ∷ 9 ∷ 4 ∷ []) r
enqueue-IsDeque_full_example = enqueue-IsDeque_full 3 (8 ∷ 9 ∷ []) 7 4 full full-IsDeque refl
