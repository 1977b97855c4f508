-- ===== src/QueueListener/Options.antt =====
-- queuelistener/listener.go: the options with the sizes that follow from them, and listenExternal,
-- which accepts from the network. An option that is not positive is 0 here, since the code treats
-- such options alike; options are int or int64, so they are below 2 ^ 63. Times are nanoseconds.
pub mod Sizes
pub mod Delays
mod Tests
use skipper.Prelude.{
  ℕ, zero, suc, ◌+◌, ◌-◌, ◌*◌, ◌/◌, ◌%◌, ◌^◌, Bool, List, [], ◌∷◌, ◌==◌, ltb, if◌then◌else◌,
}
use skipper.Prelude.Int.{ℤ, pos, negsuc, ltb_ℤ}

pub record Options : Type 0 where
  pub max_concurrency : ℕ
  pub max_queue_size : ℕ
  pub memory_limit_bytes : ℕ
  pub connection_bytes : ℕ

abbrev pub default_memory_limit_bytes : ℕ
default_memory_limit_bytes = 150000000

abbrev pub default_connection_bytes : ℕ
default_connection_bytes = 50000

abbrev pub max_calculated_queue_size : ℕ
max_calculated_queue_size = 50000

unfoldable pub max_concurrency : Options → ℕ
max_concurrency o =
    if ltb 0 o.max_concurrency
    then o.max_concurrency
    else (let n = o.memory_limit_bytes / o.connection_bytes in if n == 0 then 1 else n)

-- The int64 of a number of 64 bits.
abbrev pub signed : ℕ → ℤ
signed n = if ltb n (2 ^ 63) then pos n else negsuc (2 ^ 64 - 1 - n)

unfoldable pub max_queue_size : Options → ℤ
max_queue_size o =
    if ltb 0 o.max_queue_size
    then pos o.max_queue_size
    else (let n = signed (10 * max_concurrency o % 2 ^ 64) in
        if ltb_ℤ (pos max_calculated_queue_size) n then pos max_calculated_queue_size else n)

-- The defaults that listenWith sets before it computes the sizes.
unfoldable pub with_defaults : Options → Options
with_defaults o = record o {
  memory_limit_bytes =
      if o.memory_limit_bytes == 0 then default_memory_limit_bytes else o.memory_limit_bytes;
  connection_bytes =
      if o.connection_bytes == 0 then default_connection_bytes else o.connection_bytes;
}

pub record ListenerSizes : Type 0 where
  pub concurrency : ℕ
  pub queue_size : ℤ

unfoldable pub listen_with : Options → ListenerSizes
listen_with o = record {
  concurrency = max_concurrency (with_defaults o);
  queue_size = max_queue_size (with_defaults o);
}

abbrev pub initial_bounce_delay : ℕ
initial_bounce_delay = 500000

abbrev pub max_bounce_delay : ℕ
max_bounce_delay = 100000000

unfoldable pub bounce : ℕ → ℕ
bounce delay =
    if delay == 0
    then initial_bounce_delay
    else if ltb max_bounce_delay (delay * 2)
    then max_bounce_delay
    else delay * 2

-- What Accept of the network listener returned.
pub data Accepted : Type 0 where
  connection : Accepted
  temporary_error : Accepted
  permanent_error : Accepted

-- What the loop then waits for, besides the quit channel.
pub data Offer : Type 0 where
  hands_over : Offer
  waits_for : ℕ → Offer
  reports_error : Offer

-- One round of listenExternal: the new delay, and what it waits for.
unfoldable pub accept_round : ℕ → Accepted → ℕ × Offer
accept_round delay connection = (0, hands_over)
accept_round delay temporary_error = (bounce delay, waits_for (bounce delay))
accept_round delay permanent_error = (0, reports_error)

-- The rounds from a delay on; the loop ends when it has reported an error.
unfoldable pub accept_rounds : ℕ → List Accepted → List Offer
accept_rounds delay [] = []
accept_rounds delay (permanent_error ∷ rest) = reports_error ∷ []
accept_rounds delay (a ∷ rest) =
    let (delay', offer) = accept_round delay a in offer ∷ accept_rounds delay' rest
