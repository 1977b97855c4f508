-- ===== src/QueueListener/Ring.antt =====
-- queuelistener/ring.go: the bounded deque of the connections that wait to be accepted. A
-- connection is a number, nil is none. An operation returns none where the code panics on an index
-- out of range, as it does with a capacity of 0.
pub mod Places
pub mod Deque
pub mod Range
mod Tests
use skipper.Prelude.{
  ℕ, zero, suc, ◌+◌, ◌-◌, Bool, List, [], ◌∷◌, ◌++◌, Option, none, some, ltb, leb, ◌==◌,
  if◌then◌else◌, length, get_elem?, set, replicate, ◌>>=◌,
}

pub record Ring : Type 0 where
  pub connections : List (Option ℕ)
  pub next : ℕ
  pub size : ℕ

unfoldable pub new_ring : ℕ → Ring
new_ring max_size = record { connections = replicate max_size none; next = 0; size = 0 }

-- `i := r.next - 1`, and the last index where that is negative.
abbrev pub before_next : Ring → ℕ
before_next r = if r.next == 0 then length r.connections - 1 else r.next - 1

-- `i := r.next - r.size`, and the length added where that is negative.
abbrev pub oldest_index : Ring → ℕ
oldest_index r =
    if ltb r.next r.size then r.next + length r.connections - r.size else r.next - r.size

unfoldable pub peek : Ring → Option (Option ℕ)
peek r = get_elem? r.connections (before_next r)

unfoldable pub peek_oldest : Ring → Option (Option ℕ)
peek_oldest r = get_elem? r.connections (oldest_index r)

-- The ring, and the connection that had to give way.
unfoldable pub enqueue : Ring → ℕ → Option (Ring × Option ℕ)
enqueue r c = do
  slot ← get_elem? r.connections r.next
  let full = r.size == length r.connections
  some (
    record r {
      connections = set r.connections r.next (some c);
      next = if r.next + 1 == length r.connections then 0 else r.next + 1;
      size = if full then r.size else r.size + 1;
    },
    (if full then slot else none),
  )

unfoldable pub dequeue : Ring → Option (Ring × Option ℕ)
dequeue r = do
  c ← get_elem? r.connections (before_next r)
  some (
    record {
      connections = set r.connections (before_next r) none;
      next = before_next r;
      size = r.size - 1;
    },
    c,
  )

unfoldable pub dequeue_oldest : Ring → Option (Ring × Option ℕ)
dequeue_oldest r = do
  c ← get_elem? r.connections (oldest_index r)
  some (record r { connections = set r.connections (oldest_index r) none; size = r.size - 1 }, c)

-- `for i := start; i < start + n; i++`, the connections in the order of the calls of f.
unfoldable pub visit : List (Option ℕ) → ℕ → ℕ → List (Option ℕ)
visit cs i zero = []
visit cs i (suc n) = elim (get_elem? cs i) [ none ↦ [] | some c ↦ c ∷ visit cs (i + 1) n ]

unfoldable pub range_over : Ring → List (Option ℕ)
range_over r =
    let start = oldest_index r in
    let n = length r.connections in
    let finish = if leb n (start + r.size) then n else start + r.size in
    visit r.connections start (finish - start) ++ visit r.connections 0 (r.size + start - finish)
