-- ===== src/QueueListener/Listener.antt =====
-- queuelistener/listener.go: listenInternal, the loop that owns the queue. One round of the loop is
-- one step; an event says which case of the select is taken, and a step returns none where that
-- case is not ready, or where the loop has ended. A connection is a number; what the code keeps in
-- the connection object stands in the maps and lists of `Conns`. Metrics, logs and the test hooks
-- are left out.
pub mod View
pub mod Refine
pub mod Conserve
mod Tests
use skipper.Prelude.{
  ℕ, zero, suc, ◌+◌, ◌-◌, String, Bool, true, false, not, ◌&&◌, List, [], ◌∷◌, ◌++◌, Option, none,
  some, ltb, leb, ◌==◌, if◌then◌else◌, length, any, ◌>>=◌,
}
use skipper.QueueListener.Ring.{
  Ring, new_ring, peek, peek_oldest, enqueue, dequeue, dequeue_oldest, range_over,
}

pub record Config : Type 0 where
  pub max_concurrency : ℕ
  pub max_queue_size : ℕ
  -- Not positive means no timeout; a duration that is not positive is 0 here.
  pub queue_timeout : ℕ

-- The connections outside the queue, and the flags of the loop.
pub record Conns : Type 0 where
  -- Handed out by Accept and not closed.
  pub active : List ℕ
  -- Closed: dropped from the queue, timed out, or closed by the server.
  pub closed : List ℕ
  -- The queueDeadline of each connection.
  pub deadline : ℕ → ℕ
  -- The error from the external listener that is to be returned.
  pub error : Option ℕ
  -- The quit channel is closed.
  pub quit : Bool
  -- The loop has returned.
  pub ended : Bool

pub record Listener : Type 0 where
  pub queue : Ring
  pub concurrency : ℕ
  pub conns : Conns

pub data Event : Type 0 where
  -- `conn := <-l.acceptExternal`, with the time.
  arrives : ℕ → ℕ → Event
  -- `err = <-l.externalError`
  fails : ℕ → Event
  -- `acceptInternal <- nextConn`
  hands_out : Event
  -- `internalError <- err`
  reports : Event
  -- `<-l.releaseConnection`, sent by the Close of an active connection. Once the listener is closed
  -- Close may take `<-c.quit` instead, which the loop does not see: this is left out.
  releases : ℕ → Event
  -- `now := <-nextTimeout`
  times_out : ℕ → Event
  -- The Close method of the listener, at any time.
  closes : Event
  -- `<-l.quit`
  quits : Event

unfoldable pub start : Config → Listener
start c = record {
  queue = new_ring c.max_queue_size;
  concurrency = 0;
  conns = record {
    active = [];
    closed = [];
    deadline = λ c. 0;
    error = none;
    quit = false;
    ended = false;
  };
}

abbrev pub closing : Option ℕ → List ℕ → List ℕ
closing none cs = cs
closing (some c) cs = c ∷ cs

abbrev pub closing_all : List (Option ℕ) → List ℕ → List ℕ
closing_all [] cs = cs
closing_all (c ∷ rest) cs = closing c (closing_all rest cs)

-- Removes one connection from the active ones.
unfoldable pub without : ℕ → List ℕ → List ℕ
without c [] = []
without c (x ∷ xs) = if x == c then xs else x ∷ without c xs

abbrev pub is_active : ℕ → Conns → Bool
is_active c k = any (λ x. x == c) k.active

-- The deadline that an arriving connection gets.
abbrev pub with_deadline : Config → ℕ → ℕ → Conns → Conns
with_deadline cfg c now k =
    let due = if ltb 0 cfg.queue_timeout then now + cfg.queue_timeout else 0 in
    record k { deadline = λ x. if x == c then due else k.deadline x }

-- The loop over the overdue connections. It ends by its test when the fuel is the queue's size.
pub expire : ℕ → ℕ → Ring → Conns → Option (Ring × Conns)
expire zero now r k = some (r, k)
expire (suc fuel) now r k =
    if ltb 0 r.size
    then (do
      oldest ← peek_oldest r
      c ← oldest
      let rest = do
        (r', _) ← dequeue_oldest r
        expire fuel now r' (record k { closed = c ∷ k.closed })
      if ltb (k.deadline c) now then rest else some (r, k))
    else some (r, k)

pub step_open : Config → Listener → Event → Option Listener
step_open cfg l (arrives c now) = do
  (r, drop) ← enqueue l.queue c
  let k = with_deadline cfg c now l.conns
  some (record l { queue = r; conns = record k { closed = closing drop k.closed } })
step_open cfg l (fails e) = some (record l { conns = record (l.conns) { error = some e } })
step_open cfg l hands_out =
    if ltb 0 l.queue.size && ltb l.concurrency cfg.max_concurrency
    then (do
      newest ← peek l.queue
      c ← newest
      (r, _) ← dequeue l.queue
      some (record {
        queue = r;
        concurrency = l.concurrency + 1;
        conns = record (l.conns) { active = c ∷ l.conns.active };
      }))
    else none
step_open cfg l reports = elim l.conns.error [
  | none ↦ none
  | some e ↦
      if l.queue.size == 0
      then some (record l { conns = record (l.conns) { error = none; quit = true } })
      else none
]
step_open cfg l (releases c) =
    if is_active c l.conns
    then some (record l {
      concurrency = l.concurrency - 1;
      conns = record (l.conns) { active = without c l.conns.active; closed = c ∷ l.conns.closed };
    })
    else none
step_open cfg l (times_out now) =
    if ltb 0 cfg.queue_timeout
    then (do
      (r, k) ← expire l.queue.size now l.queue l.conns
      some (record l { queue = r; conns = k }))
    else none
step_open cfg l closes = some (record l { conns = record (l.conns) { quit = true } })
step_open cfg l quits =
    if l.conns.quit
    then some (record l {
      conns = record (l.conns) {
        closed = closing_all (range_over l.queue) l.conns.closed;
        ended = true;
      };
    })
    else none

pub step : Config → Listener → Event → Option Listener
step cfg l e = if l.conns.ended then none else step_open cfg l e

-- A run of the loop over the events that happen.
pub run : Config → Listener → List Event → Option Listener
run cfg l [] = some l
run cfg l (e ∷ es) = do l' ← step cfg l e; run cfg l' es
