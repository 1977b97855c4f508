-- ===== src/QueueListener/Listener/View.antt =====
-- What queuelistener/listener.go promises of its queue: the waiting connections as a list, the
-- oldest first, and each case of the loop on it.
use skipper.Prelude.{
  ℕ, ◌≡◌, refl, true, List, [], ◌∷◌, ◌++◌, Option, none, some, ltb, ◌==◌, if◌then◌else◌, length,
  arith, inl, inr, Option-cases,
}
use skipper.QueueListener.Listener.{
  Config, Conns, Event, arrives, fails, hands_out, reports, releases, times_out, closes, quits,
  is_active, without, with_deadline,
}

pub record View : Type 0 where
  pub waiting : List ℕ
  pub conns : Conns

-- The newest, and those before it.
abbrev pub split_last : List ℕ → Option (List ℕ × ℕ)
split_last [] = none
split_last (x ∷ xs) = elim (split_last xs) [ none ↦ some ([], x) | some (ys, c) ↦ some (x ∷ ys, c) ]

pub split_last-none : (q : List ℕ) → split_last q ≡ none → q ≡ []
split_last-none [] e = refl
split_last-none (x ∷ xs) e = ground arith

pub split_last-append : (q ys : List ℕ) (c : ℕ) → split_last q ≡ some (ys, c) → q ≡ ys ++ c ∷ []
split_last-append [] ys c e = cc
split_last-append (x ∷ xs) ys c e = elim (Option-cases (split_last xs)) [
  | inl h ↦ let empty : xs ≡ [] = split_last-none xs h in ground arith
  | inr (p, h) ↦ let rest : xs ≡ p.0 ++ p.1 ∷ [] = split_last-append xs p.0 p.1 h in ground arith
]

-- A new connection waits as the newest; in a full queue the oldest is closed for it.
abbrev pub arrive : ℕ → ℕ → View → View
arrive n c v = elim v.waiting [
  | [] ↦ record v { waiting = c ∷ [] }
  | x ∷ xs ↦
      if length (x ∷ xs) == n
      then record {
        waiting = xs ++ c ∷ [];
        conns = record (v.conns) { closed = x ∷ v.conns.closed };
      }
      else record v { waiting = (x ∷ xs) ++ c ∷ [] }
]

-- Overdue connections are closed from the oldest on, up to the first that is not overdue.
abbrev pub drop_overdue : ℕ → List ℕ → Conns → View
drop_overdue now [] k = record { waiting = []; conns = k }
drop_overdue now (x ∷ xs) k =
    let rest = drop_overdue now xs (record k { closed = x ∷ k.closed }) in
    if ltb (k.deadline x) now then rest else record { waiting = x ∷ xs; conns = k }

abbrev pub append_reverse : List ℕ → List ℕ → List ℕ
append_reverse [] cs = cs
append_reverse (x ∷ xs) cs = x ∷ append_reverse xs cs

unfoldable pub move : Config → View → Event → Option View
move cfg v (arrives c now) =
    some (arrive cfg.max_queue_size c (record v { conns = with_deadline cfg c now v.conns }))
move cfg v (fails e) = some (record v { conns = record (v.conns) { error = some e } })
move cfg v hands_out = elim (split_last v.waiting) [
  | none ↦ none
  | some (ys, c) ↦
      if ltb (length v.conns.active) cfg.max_concurrency
      then some (record { waiting = ys; conns = record (v.conns) { active = c ∷ v.conns.active } })
      else none
]
move cfg v reports = elim v.conns.error [
  | none ↦ none
  | some e ↦
      if length v.waiting == 0
      then some (record v { conns = record (v.conns) { error = none; quit = true } })
      else none
]
move cfg v (releases c) =
    if is_active c v.conns
    then some (record v {
      conns = record (v.conns) { active = without c v.conns.active; closed = c ∷ v.conns.closed };
    })
    else none
move cfg v (times_out now) =
    if ltb 0 cfg.queue_timeout then some (drop_overdue now v.waiting v.conns) else none
move cfg v closes = some (record v { conns = record (v.conns) { quit = true } })
move cfg v quits =
    if v.conns.quit
    then some (record v {
      conns = record (v.conns) { closed = v.waiting ++ v.conns.closed; ended = true };
    })
    else none
