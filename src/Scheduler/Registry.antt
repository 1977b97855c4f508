-- ===== src/Scheduler/Registry.antt =====
-- scheduler/scheduler.go: Registry, whose Do gives every scheduler filter of the routes its queue.
-- A filter is a number, and what SetQueue sets is listed by it. Go ranges over the groups in any
-- order; here they come in the order in which their first filter does.
pub mod Serve
pub mod Closing
mod Tests
use skipper.Prelude.{
  ℕ, String, Bool, true, false, not, ◌&&◌, List, [], ◌∷◌, ◌++◌, Option, none, some, if◌then◌else◌,
  ◌==◌, ◌≡◌, ◌↔◌, arith,
}
use skipper.Prelude.Map.{Eq, text_eq, lookup, insert}
use skipper.Scheduler.Fifo.{Semaphore, Config, Shared, new_fifo_queue, reconfigure, close}
use skipper.Scheduler.Pool.{QueueId, Kind, Pool, get_queue, delete_unused, close_object}

-- `fq.config != c`
abbrev pub same_config : Config → Config → Bool
same_config a b =
    a.max_concurrency == b.max_concurrency
    && a.max_queue_size == b.max_queue_size
    && a.timeout == b.timeout
    && a.close_timeout == b.close_timeout

pub same_config_iff : (a b : Config) → (same_config a b ≡ true) ↔ (a ≡ b)
same_config_iff a b = ground arith

instance abbrev pub config_eq : Eq Config
config_eq = record { beq = same_config; beq_iff = same_config_iff }

-- newFifoQueue, Reconfigure and close.
abbrev pub fifo_kind : {S : Type 0} → Semaphore S → Kind Config (Shared S)
fifo_kind sem = record { make = new_fifo_queue sem; reconfigure = reconfigure sem; close = close }

pub record GroupedLifoFilter (C : Type 0) : Type 0 where
  pub filter : ℕ
  pub group : String
  pub has_config : Bool
  pub config : C

-- What a filter of a route is to the scheduler, in the order of the type tests.
pub data Scheduled (C : Type 0) : Type 0 where
  fifo : ℕ → C → Scheduled C
  grouped : GroupedLifoFilter C → Scheduled C
  lifo : ℕ → C → Scheduled C
  unscheduled : Scheduled C

pub record RoutedFilters (C : Type 0) : Type 0 where
  pub id : String
  pub filters : List (Scheduled C)

pub record Registry (C F L : Type 0) : Type 0 where
  pub fifo_queues : Pool C F
  pub lifo_queues : Pool C L

-- The variables of Do, and the queues that were set.
pub record Round (C F L : Type 0) : Type 0 where
  pub registry : Registry C F L
  pub ids : List QueueId
  pub groups : List (String × List (GroupedLifoFilter C))
  pub fifo_set : List (ℕ × ℕ)
  pub lifo_set : List (ℕ × ℕ)

abbrev pub group_of : {A : Type 0} → Option (List A) → List A
group_of none = []
group_of (some gs) = gs

abbrev pub value_or : {A : Type 0} → A → Option A → A
value_or a none = a
value_or a (some b) = b

unfoldable pub set_all : {C : Type 0} → ℕ → List (GroupedLifoFilter C) → List (ℕ × ℕ) → List (ℕ × ℕ)
set_all q [] s = s
set_all q (g ∷ gs) s = (g.filter, q) ∷ set_all q gs s

module _ {C F L : Type 0} ⦃e : Eq C⦄ (kf : Kind C F) (kl : Kind C L) where
  unfoldable pub schedule : String → Round C F L → Scheduled C → Round C F L
  schedule name r (fifo f c) =
      let id : QueueId = record { name = name; grouped = false } in
      let (pool, q) = get_queue kf id c r.registry.fifo_queues in
      record r {
        ids = id ∷ r.ids;
        registry = record (r.registry) { fifo_queues = pool };
        fifo_set = (f, q) ∷ r.fifo_set;
      }
  schedule name r (grouped g) = record r {
    groups = insert g.group (group_of (lookup g.group r.groups) ++ g ∷ []) r.groups;
  }
  schedule name r (lifo f c) =
      let id : QueueId = record { name = name; grouped = false } in
      let (pool, q) = get_queue kl id c r.registry.lifo_queues in
      record r {
        ids = id ∷ r.ids;
        registry = record (r.registry) { lifo_queues = pool };
        lifo_set = (f, q) ∷ r.lifo_set;
      }
  schedule name r unscheduled = r

  unfoldable pub schedule_filters : String → Round C F L → List (Scheduled C) → Round C F L
  schedule_filters name r [] = r
  schedule_filters name r (f ∷ fs) = schedule_filters name (schedule name r f) fs

  unfoldable pub schedule_routes : Round C F L → List (RoutedFilters C) → Round C F L
  schedule_routes r [] = r
  schedule_routes r (route ∷ routes) =
      schedule_routes (schedule_filters route.id r route.filters) routes

  -- The first configuration found; a later one that differs is only logged.
  unfoldable pub group_config : Option C → List (GroupedLifoFilter C) → Option C
  group_config found [] = found
  group_config none (g ∷ gs) =
      let rest = group_config (some g.config) gs in
      let skip = group_config none gs in if not g.has_config then skip else rest
  group_config (some c) (g ∷ gs) =
      let rest = group_config (some g.config) gs in
      let skip = group_config (some c) gs in
      if not g.has_config then skip else if not (e.beq g.config c) then skip else rest

  -- The body of the loop over the groups.
  unfoldable pub schedule_group :
      C → Round C F L → String → List (GroupedLifoFilter C) → Round C F L
  schedule_group zero_config r name gs =
      let id : QueueId = record { name = name; grouped = true } in
      let c = value_or zero_config (group_config none gs) in
      let (pool, q) = get_queue kl id c r.registry.lifo_queues in
      record r {
        ids = id ∷ r.ids;
        registry = record (r.registry) { lifo_queues = pool };
        lifo_set = set_all q gs r.lifo_set;
      }

  unfoldable pub schedule_groups :
      C → Round C F L → List (String × List (GroupedLifoFilter C)) → Round C F L
  schedule_groups zero_config r [] = r
  schedule_groups zero_config r ((name, gs) ∷ groups) =
      schedule_groups zero_config (schedule_group zero_config r name gs) groups

  abbrev pub new_round : Registry C F L → Round C F L
  new_round reg = record { registry = reg; ids = []; groups = []; fifo_set = []; lifo_set = [] }

  -- Do at a time, with the zero value of Config.
  unfoldable pub do_routes : C → ℕ → Registry C F L → List (RoutedFilters C) → Round C F L
  do_routes zero_config now reg routes =
      let r = schedule_routes (new_round reg) routes in
      let r' = schedule_groups zero_config r r.groups in
      record r' {
        registry = record {
          fifo_queues = delete_unused kf now r'.ids r'.registry.fifo_queues;
          lifo_queues = delete_unused kl now r'.ids r'.registry.lifo_queues;
        };
      }

  unfoldable pub close_deleted : {Q : Type 0} → Kind C Q → List (ℕ × ℕ) → Pool C Q → Pool C Q
  close_deleted k [] pool = record pool { deleted = [] }
  close_deleted k ((q, t) ∷ d) pool =
      close_deleted k d (record pool { objects = close_object k q pool.objects })

  unfoldable pub close_queues : {Q : Type 0} → Kind C Q → List (QueueId × ℕ) → Pool C Q → Pool C Q
  close_queues k [] pool = record pool { queues = [] }
  close_queues k ((id, q) ∷ qs) pool =
      close_queues k qs (record pool { objects = close_object k q pool.objects })

  -- Close: the FIFO queues that are in use are not among what it closes.
  unfoldable pub close_registry : Registry C F L → Registry C F L
  close_registry reg = record {
    fifo_queues = close_deleted kf reg.fifo_queues.deleted reg.fifo_queues;
    lifo_queues =
        let pool = close_deleted kl reg.lifo_queues.deleted reg.lifo_queues in
        close_queues kl pool.queues pool;
  }
