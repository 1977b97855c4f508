-- ===== src/Scheduler/Preprocessor.antt =====
-- registryPreProcessor.Do of scheduler/scheduler.go: of several fifo filters on a route only the
-- last stays, and likewise for lifo. A filter's arguments are of any type.
pub mod Last
mod Tests
use skipper.Prelude.{ℕ, ◌+◌, ◌-◌, String, List, [], ◌∷◌, ◌&&◌, ltb, if◌then◌else◌, str_eq}

-- What the code reads of an eskip.Filter and an eskip.Route.
pub record Filter (A : Type 0) : Type 0 where
  pub name : String
  pub args : List A

pub record Route (A : Type 0) : Type 0 where
  pub id : String
  pub filters : List (Filter A)

abbrev pub fifo_name : String
fifo_name = "fifo"

abbrev pub lifo_name : String
lifo_name = "lifo"

module _ {A : Type 0} where
  -- The loop that counts the filters of one name.
  unfoldable pub count_named : String → List (Filter A) → ℕ
  count_named name [] = 0
  count_named name (f ∷ fs) =
      if str_eq f.name name then count_named name fs + 1 else count_named name fs

  -- The loop that drops a filter of the name while the count is above one.
  unfoldable pub drop_counted : String → ℕ → List (Filter A) → List (Filter A)
  drop_counted name n [] = []
  drop_counted name n (f ∷ fs) =
      let fewer = drop_counted name (n - 1) fs in
      let rest = f ∷ drop_counted name n fs in if ltb 1 n && str_eq f.name name then fewer else rest

  unfoldable pub remove_non_last : String → ℕ → List (Filter A) → List (Filter A)
  remove_non_last name n fs = if ltb 1 n then drop_counted name n fs else fs

  -- Both counts are taken before a filter is dropped.
  unfoldable pub pre_process_route : Route A → Route A
  pre_process_route r =
      let fifo_count = count_named fifo_name r.filters in
      let lifo_count = count_named lifo_name r.filters in
      record r {
        filters =
            remove_non_last lifo_name lifo_count (remove_non_last fifo_name fifo_count r.filters);
      }

  pub pre_process : List (Route A) → List (Route A)
  pre_process [] = []
  pre_process (r ∷ rs) = pre_process_route r ∷ pre_process rs
