-- ===== src/Scheduler/Registry/Closing.antt =====
-- Close of the Registry of scheduler/scheduler.go, and what an update of the routes leaves valid.
use skipper.Prelude.{ℕ, ◌≡◌, String, false, List, [], ◌∷◌, none, ◌==◌, arith}
use skipper.Prelude.Map.{Eq, nat_eq, lookup}
use skipper.Scheduler.Pool.{QueueId, Kind, Object, Pool, close_object}
use skipper.Scheduler.Pool.Valid.{IsValid, get_queue-IsValid, delete_unused-IsValid}
use skipper.Scheduler.Pool.Keeps.{Has, registered}
use skipper.Scheduler.Registry.{
  Scheduled, fifo, grouped, lifo, unscheduled, RoutedFilters, Registry, Round, GroupedLifoFilter,
  schedule, schedule_filters, schedule_routes, schedule_group, schedule_groups, new_round,
  do_routes, close_deleted, close_registry,
}

module _ {C F L : Type 0} ⦃e : Eq C⦄ (kf : Kind C F) (kl : Kind C L) where
  -- In both kinds each queue is kept under the id that owns it.
  pub record AreValid (reg : Registry C F L) : Type 0 where
    pub fifo_valid : IsValid reg.fifo_queues
    pub lifo_valid : IsValid reg.lifo_queues

  schedule-AreValid :
      (name : String) (r : Round C F L) (x : Scheduled C)
      → AreValid r.registry
      → AreValid (schedule kf kl name r x).registry
  unfolding schedule
  schedule-AreValid name r (fifo f c) v = record {
    fifo_valid = get_queue-IsValid kf _ c r.registry.fifo_queues v.fifo_valid;
    lifo_valid = v.lifo_valid;
  }
  schedule-AreValid name r (grouped g) v = v
  schedule-AreValid name r (lifo f c) v = record {
    fifo_valid = v.fifo_valid;
    lifo_valid = get_queue-IsValid kl _ c r.registry.lifo_queues v.lifo_valid;
  }
  schedule-AreValid name r unscheduled v = v

  schedule_filters-AreValid :
      (name : String) (r : Round C F L) (fs : List (Scheduled C))
      → AreValid r.registry
      → AreValid (schedule_filters kf kl name r fs).registry
  unfolding schedule_filters
  schedule_filters-AreValid name r [] v = v
  schedule_filters-AreValid name r (x ∷ fs) v =
      schedule_filters-AreValid name (schedule kf kl name r x) fs (schedule-AreValid name r x v)

  schedule_routes-AreValid :
      (r : Round C F L) (routes : List (RoutedFilters C))
      → AreValid r.registry
      → AreValid (schedule_routes kf kl r routes).registry
  unfolding schedule_routes
  schedule_routes-AreValid r [] v = v
  schedule_routes-AreValid r (x ∷ xs) v =
      schedule_routes-AreValid (schedule_filters kf kl x.id r x.filters) xs
        (schedule_filters-AreValid x.id r x.filters v)

  schedule_groups-AreValid :
      (z : C) (r : Round C F L) (gs : List (String × List (GroupedLifoFilter C)))
      → AreValid r.registry
      → AreValid (schedule_groups kf kl z r gs).registry
  unfolding schedule_groups schedule_group
  schedule_groups-AreValid z r [] v = v
  schedule_groups-AreValid z r ((name, g) ∷ gs) v =
      schedule_groups-AreValid z (schedule_group kf kl z r name g) gs (record {
        fifo_valid = v.fifo_valid;
        lifo_valid = get_queue-IsValid kl _ _ r.registry.lifo_queues v.lifo_valid;
      })

  -- After an update of the routes no two ids have the same queue, and no queue that waits to be
  -- closed is one of those in use, if this was so before.
  pub do_routes-AreValid :
      (z : C) (now : ℕ) (reg : Registry C F L) (routes : List (RoutedFilters C))
      → AreValid reg
      → AreValid (do_routes kf kl z now reg routes).registry
  unfolding do_routes
  do_routes-AreValid z now reg routes v =
      let r = schedule_routes kf kl (new_round kf kl reg) routes in
      let r' = schedule_groups kf kl z r r.groups in
      let v' =
        schedule_groups-AreValid z r r.groups
          (schedule_routes-AreValid (new_round kf kl reg) routes v) in
      record {
        fifo_valid = delete_unused-IsValid kf now r'.ids r'.registry.fifo_queues v'.fifo_valid;
        lifo_valid = delete_unused-IsValid kl now r'.ids r'.registry.lifo_queues v'.lifo_valid;
      }

  close_deleted-Has :
      (pool : Pool C F) (d : List (ℕ × ℕ)) (id : QueueId) (q : ℕ) (o : Object C F)
      → lookup q d ≡ none
      → Has pool id q o
      → Has (close_deleted kf kl kf d pool) id q o
  unfolding close_deleted close_object lookup
  close_deleted-Has pool [] id q o n h = h
  close_deleted-Has pool ((j, t) ∷ d) id q o n h =
      let apart : (q == j) ≡ false = ground arith in
      close_deleted-Has (record pool { objects = close_object kf j pool.objects }) d id q o
        (ground arith) (h.0, rw apart h.1)

  -- In a valid registry, Close leaves every FIFO queue that is in use as it is.
  pub close_registry-Has :
      (reg : Registry C F L) (id : QueueId) (q : ℕ) (o : Object C F)
      → AreValid reg
      → Has reg.fifo_queues id q o
      → Has (close_registry kf kl reg).fifo_queues id q o
  unfolding close_registry
  close_registry-Has reg id q o v h =
      close_deleted-Has reg.fifo_queues reg.fifo_queues.deleted id q o
        (registered reg.fifo_queues id q v.fifo_valid h.0).2 h
