-- ===== src/Scheduler/Filter.antt =====
-- filters/scheduler/fifo.go: the fifo filter. What the queue lets through is a number that stands
-- for the function to be called when the request is done. Logs and tracing are left out.
pub mod Arguments
pub mod Release
mod Tests
use skipper.Prelude.{
  ℕ, zero, suc, ◌+◌, List, [], ◌∷◌, ◌++◌, Option, none, some, ltb, if◌then◌else◌, ◌>>=◌,
}
use skipper.Prelude.Int.{ℤ, pos, pos_part, ltb_ℤ}
use skipper.Scheduler.Fifo.{Config, WaitError, queue_full, queue_timeout, client_canceled, other}

-- An argument: a number, of which int takes the whole part; a text, as what time.ParseDuration makes
-- of it; or anything else.
pub data Argument : Type 0 where
  number : ℤ → Argument
  text : Option ℤ → Argument
  anything : Argument

abbrev pub int_arg : Argument → Option ℤ
int_arg (number n) = some n
int_arg _ = none

abbrev pub duration_arg : Argument → Option ℤ
duration_arg (text d) = d
duration_arg _ = none

abbrev pub millisecond : ℕ
millisecond = 1000000

-- The checks of CreateFilter on the three arguments.
unfoldable pub checked_config : ℤ → ℤ → ℤ → Option Config
checked_config cc qs d =
    if ltb_ℤ cc (pos 1)
    then none
    else if ltb_ℤ qs (pos 0)
    then none
    else if ltb_ℤ d (pos millisecond)
    then none
    else some (record {
      max_concurrency = pos_part cc;
      max_queue_size = pos_part qs;
      timeout = pos_part d;
      close_timeout = 0;
    })

-- CreateFilter; none is an error.
unfoldable pub create_filter : List Argument → Option Config
create_filter (a ∷ b ∷ c ∷ []) = do
  cc ← int_arg a
  qs ← int_arg b
  d ← duration_arg c
  checked_config cc qs d
create_filter _ = none

pub data Waited : Type 0 where
  let_through : ℕ → Waited
  rejected : WaitError → Waited

-- The state of one request: what is pending in the state bag, the last first, what was released, and
-- the statuses that were served.
pub record FilterContext : Type 0 where
  pub pending : List ℕ
  pub released : List ℕ
  pub served : List ℕ

unfoldable pub request : FilterContext → Waited → FilterContext
request ctx (let_through done) = record ctx { pending = done ∷ ctx.pending }
request ctx (rejected queue_full) = record ctx { served = 503 ∷ ctx.served }
request ctx (rejected queue_timeout) = record ctx { served = 502 ∷ ctx.served }
request ctx (rejected client_canceled) = ctx
request ctx (rejected (other e)) = record ctx { served = 500 ∷ ctx.served }

-- Response of the filter whose name is fifo.
unfoldable pub response : FilterContext → FilterContext
response ctx = elim ctx.pending [
  | [] ↦ ctx
  | done ∷ rest ↦ record ctx { pending = rest; released = done ∷ ctx.released }
]

-- The filters of a request nest: the response of each comes after those of the filters behind it,
-- also of those on a route that the request was looped back to.
pub data Nested : Type 0 where
  no_filters : Nested
  filter : Waited → Nested → Nested → Nested

unfoldable pub run_nested : FilterContext → Nested → FilterContext
run_nested ctx no_filters = ctx
run_nested ctx (filter w inner later) =
    run_nested (response (run_nested (request ctx w) inner)) later
