-- ===== src/Scheduler/Filter/Release.antt =====
-- What the fifo filters of a request take they give back (filters/scheduler/fifo.go).
use skipper.Prelude.{
  ℕ, ◌+◌, ◌≤◌, ◌≡◌, refl, List, [], ◌∷◌, ◌++◌, length, count_of, count_of-append, ◌==◌, arith,
}
use skipper.Scheduler.Fifo.{queue_full, queue_timeout, client_canceled, other}
use skipper.Scheduler.Filter.{
  Waited, let_through, rejected, FilterContext, request, response, Nested, no_filters, filter,
  run_nested,
}

-- What the queues let through, in order.
abbrev pub taken_by : Waited → List ℕ
taken_by (let_through d) = d ∷ []
taken_by (rejected e) = []

abbrev pub taken : Nested → List ℕ
taken no_filters = []
taken (filter w inner later) = taken_by w ++ (taken inner ++ taken later)

abbrev pub count : ℕ → List ℕ → ℕ
count d = count_of (λ x. x == d)

-- How often something is pending or was released.
abbrev held : ℕ → FilterContext → ℕ
held d ctx = count d ctx.pending + count d ctx.released

request-held :
    (d : ℕ) (ctx : FilterContext) (w : Waited)
    → held d (request ctx w) ≡ held d ctx + count d (taken_by w)
unfolding request
request-held d ctx (let_through x) = ground arith
request-held d ctx (rejected queue_full) = omega arith
request-held d ctx (rejected queue_timeout) = omega arith
request-held d ctx (rejected client_canceled) = omega arith
request-held d ctx (rejected (other e)) = omega arith

response-held : (d : ℕ) (ctx : FilterContext) → held d (response ctx) ≡ held d ctx
unfolding response
response-held d ctx = ground arith

run_nested-held :
    (d : ℕ) (ctx : FilterContext) (n : Nested)
    → held d (run_nested ctx n) ≡ held d ctx + count d (taken n)
unfolding run_nested
run_nested-held d ctx no_filters = omega arith
run_nested-held d ctx (filter w inner later) =
    let after = run_nested (request ctx w) inner in
    omega (
      arith,
      run_nested-held d (response after) later,
      response-held d after,
      run_nested-held d (request ctx w) inner,
      request-held d ctx w,
      count_of-append (λ x. x == d) (taken_by w) (taken inner ++ taken later),
      count_of-append (λ x. x == d) (taken inner) (taken later),
    )

request-length :
    (ctx : FilterContext) (w : Waited) → length (request ctx w).pending ≤ length ctx.pending + 1
unfolding request
request-length ctx (let_through x) = omega arith
request-length ctx (rejected queue_full) = omega arith
request-length ctx (rejected queue_timeout) = omega arith
request-length ctx (rejected client_canceled) = omega arith
request-length ctx (rejected (other e)) = omega arith

response-length :
    (ctx : FilterContext) (n : ℕ) → length ctx.pending ≤ n + 1 → length (response ctx).pending ≤ n
unfolding response
response-length ctx n h = ground arith

run_nested-length :
    (ctx : FilterContext) (n : Nested) → length (run_nested ctx n).pending ≤ length ctx.pending
unfolding run_nested
run_nested-length ctx no_filters = omega arith
run_nested-length ctx (filter w inner later) =
    let after = run_nested (request ctx w) inner in
    let once =
      response-length after (length ctx.pending)
        (omega (arith, run_nested-length (request ctx w) inner, request-length ctx w)) in
    omega (arith, once, run_nested-length (response after) later)

-- When the response of every fifo filter of a request has run, nothing is pending, and what the
-- queues let through was released exactly as often as it was let through, whatever was rejected.
pub run_nested-released :
    (n : Nested)
    → let ctx = run_nested (record { pending = []; released = []; served = [] }) n in
      (length ctx.pending ≡ 0) × ((d : ℕ) → count d ctx.released ≡ count d (taken n))
run_nested-released n =
    let start : FilterContext = record { pending = []; released = []; served = [] } in
    let end = run_nested start n in
    let empty : length end.pending ≡ 0 = omega (arith, run_nested-length start n) in
    (empty, λ d. omega (arith, run_nested-held d start n, count-empty d end.pending empty))
  where
    count-empty : (d : ℕ) (xs : List ℕ) → length xs ≡ 0 → count d xs ≡ 0
    count-empty d [] h = refl
    count-empty d (x ∷ xs) h = absurd (omega arith)
