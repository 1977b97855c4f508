-- ===== src/Scheduler/Registry/Serve.antt =====
-- Do of the Registry of scheduler/scheduler.go: an update of the routes keeps a FIFO queue and what
-- it holds.
use skipper.Prelude.{
  ℕ, ◌≡◌, sym, subst, some, ◌∙◌, String, Bool, true, false, ◌&&◌, List, [], ◌∷◌, ◌==◌, all, any,
  if◌then◌else◌, Bool-cases, &&-eq-true, inl, inr, arith, ◌⊎◌,
}
use skipper.Prelude.Map.{Eq, lookup}
use skipper.Scheduler.Pool.{QueueId, same_id, same_id_iff, id_eq, Kind, Object, in_use, get_queue}
use skipper.Scheduler.Pool.Valid.{IsValid, get_queue-IsValid}
use skipper.Scheduler.Pool.Keeps.{Has, get_queue-Has, get_queue-returns, delete_unused-Has}
use skipper.Scheduler.Registry.{
  Scheduled, fifo, grouped, lifo, unscheduled, RoutedFilters, Registry, Round, GroupedLifoFilter,
  schedule, schedule_filters, schedule_routes, schedule_group, schedule_groups, new_round,
  do_routes,
}

abbrev route_id : String → QueueId
route_id name = record { name = name; grouped = false }

-- Whether the queue q was set for the filter f.
abbrev pub is_set : ℕ → ℕ → List (ℕ × ℕ) → Bool
is_set f q s = any (λ x. x.0 == f && x.1 == q) s

module _ {C : Type 0} where
  abbrev is_fifo : ℕ → Scheduled C → Bool
  is_fifo f (fifo g c) = g == f
  is_fifo f _ = false

  -- The routes have the fifo filter f on the route of the id.
  abbrev pub has_fifo : QueueId → ℕ → List (RoutedFilters C) → Bool
  has_fifo id f routes = any (λ r. same_id (route_id r.id) id && any (is_fifo f) r.filters) routes

  abbrev has_config : ⦃e : Eq C⦄ → C → Scheduled C → Bool
  has_config ⦃e⦄ c (fifo f d) = e.beq c d
  has_config c _ = true

  -- Every fifo filter on the route of the id has the configuration c.
  abbrev pub have_config : ⦃e : Eq C⦄ → QueueId → C → List (RoutedFilters C) → Bool
  have_config id c routes =
      all (λ r. if same_id (route_id r.id) id then all (has_config c) r.filters else true) routes

module _ {C F L : Type 0} ⦃e : Eq C⦄ (kf : Kind C F) (kl : Kind C L) where
  record Holds (id : QueueId) (q : ℕ) (o : Object C F) (r : Round C F L) : Type 0 where
    valid : IsValid r.registry.fifo_queues
    has : Has r.registry.fifo_queues id q o

  -- The filter f has the queue q, which is in use.
  record Served (id : QueueId) (q f : ℕ) (r : Round C F L) : Type 0 where
    used : in_use id r.ids ≡ true
    set : is_set f q r.fifo_set ≡ true

  module _ (id : QueueId) (q : ℕ) (o : Object C F) where
    schedule-Holds :
        (name : String) (r : Round C F L) (x : Scheduled C)
        → Holds id q o r
        → (same_id (route_id name) id ≡ true → has_config o.config x ≡ true)
        → Holds id q o (schedule kf kl name r x)
    unfolding schedule
    schedule-Holds name r (fifo f c) h g = record {
      valid = get_queue-IsValid kf (route_id name) c r.registry.fifo_queues h.valid;
      has = get_queue-Has kf id (route_id name) c r.registry.fifo_queues q o h.valid h.has g;
    }
    schedule-Holds name r (grouped x) h g = record { valid = h.valid; has = h.has }
    schedule-Holds name r (lifo f c) h g = record { valid = h.valid; has = h.has }
    schedule-Holds name r unscheduled h g = h

    -- A call for the id returns the queue that it has.
    get_queue-same :
        (name : String) (c : C) (r : Round C F L)
        → Holds id q o r
        → same_id (route_id name) id ≡ true
        → e.beq o.config c ≡ true
        → (get_queue kf (route_id name) c r.registry.fifo_queues).1 ≡ q
    get_queue-same name c r h s g =
        let pool = r.registry.fifo_queues in
        let after = get_queue kf (route_id name) c pool in
        let ids : route_id name ≡ id = (same_id_iff (route_id name) id).0 s in
        let has = get_queue-Has kf id (route_id name) c pool q o h.valid h.has (λ _. g) in
        let given : lookup id (after.0).queues ≡ some (after.1) =
          subst (λ x. lookup x (after.0).queues ≡ some (after.1)) ids
            (get_queue-returns kf (route_id name) c pool).0 in
        let both : some (after.1) ≡ some q = sym given ∙ has.0 in ground arith

    schedule-Served :
        (name : String) (r : Round C F L) (x : Scheduled C) (f : ℕ)
        → Holds id q o r
        → (same_id (route_id name) id ≡ true → has_config o.config x ≡ true)
        → Served id q f r ⊎ ((same_id (route_id name) id ≡ true) × (is_fifo f x ≡ true))
        → Served id q f (schedule kf kl name r x)
    unfolding schedule in_use
    schedule-Served name r (fifo g c) f h cfg (inl s) = record {
      used = ground (arith, s.used);
      set = ground (arith, s.set);
    }
    schedule-Served name r (fifo g c) f h cfg (inr (s, t)) =
        let same = get_queue-same name c r h s (cfg s) in
        record { used = ground arith; set = ground (arith, same) }
    schedule-Served name r (grouped x) f h g (inl s) = record { used = s.used; set = s.set }
    schedule-Served name r (grouped x) f h g (inr (s, t)) = absurd (ground arith)
    schedule-Served name r (lifo f' c) f h g (inl s) = record {
      used = ground (arith, s.used);
      set = s.set;
    }
    schedule-Served name r (lifo f' c) f h g (inr (s, t)) = absurd (ground arith)
    schedule-Served name r unscheduled f h g (inl s) = s
    schedule-Served name r unscheduled f h g (inr (s, t)) = absurd (ground arith)

    -- The filters of one route.
    schedule_filters-Holds :
        (name : String) (r : Round C F L) (fs : List (Scheduled C))
        → Holds id q o r
        → (same_id (route_id name) id ≡ true → all (has_config o.config) fs ≡ true)
        → Holds id q o (schedule_filters kf kl name r fs)
    unfolding schedule_filters
    schedule_filters-Holds name r [] h g = h
    schedule_filters-Holds name r (x ∷ fs) h g =
        schedule_filters-Holds name (schedule kf kl name r x) fs
          (schedule-Holds name r x h (λ s. (&&-eq-true _ _ (g s)).0))
          (λ s. (&&-eq-true _ _ (g s)).1)

    schedule_filters-Served :
        (name : String) (r : Round C F L) (fs : List (Scheduled C)) (f : ℕ)
        → Holds id q o r
        → (same_id (route_id name) id ≡ true → all (has_config o.config) fs ≡ true)
        → Served id q f r ⊎ ((same_id (route_id name) id ≡ true) × (any (is_fifo f) fs ≡ true))
        → Served id q f (schedule_filters kf kl name r fs)
    unfolding schedule_filters
    schedule_filters-Served name r [] f h g (inl s) = s
    schedule_filters-Served name r [] f h g (inr (s, t)) = absurd (ground arith)
    schedule_filters-Served name r (x ∷ fs) f h g u =
        schedule_filters-Served name (schedule kf kl name r x) fs f
          (schedule-Holds name r x h (λ s. (&&-eq-true _ _ (g s)).0))
          (λ s. (&&-eq-true _ _ (g s)).1) (next u)
      where
        next :
            Served id q f r
              ⊎ ((same_id (route_id name) id ≡ true) × (any (is_fifo f) (x ∷ fs) ≡ true))
            → Served id q f (schedule kf kl name r x)
              ⊎ ((same_id (route_id name) id ≡ true) × (any (is_fifo f) fs ≡ true))
        next (inl s) = inl (schedule-Served name r x f h (λ s. (&&-eq-true _ _ (g s)).0) (inl s))
        next (inr (s, t)) = elim (Bool-cases (is_fifo f x)) [
          | inl here ↦
              inl (schedule-Served name r x f h (λ s. (&&-eq-true _ _ (g s)).0) (inr (s, here)))
          | inr later ↦ inr (s, (rw later at t))
        ]

    if-true : {b c : Bool} → (if b then c else true) ≡ true → b ≡ true → c ≡ true
    if-true h s = ground arith

    schedule_routes-Holds :
        (r : Round C F L) (routes : List (RoutedFilters C))
        → Holds id q o r
        → have_config id o.config routes ≡ true
        → Holds id q o (schedule_routes kf kl r routes)
    unfolding schedule_routes
    schedule_routes-Holds r [] h g = h
    schedule_routes-Holds r (x ∷ xs) h g =
        let (g0, g1) = &&-eq-true _ _ g in
        schedule_routes-Holds (schedule_filters kf kl x.id r x.filters) xs
          (schedule_filters-Holds x.id r x.filters h (if-true g0)) g1

    schedule_routes-Served :
        (r : Round C F L) (routes : List (RoutedFilters C)) (f : ℕ)
        → Holds id q o r
        → have_config id o.config routes ≡ true
        → Served id q f r ⊎ (has_fifo id f routes ≡ true)
        → Served id q f (schedule_routes kf kl r routes)
    unfolding schedule_routes
    schedule_routes-Served r [] f h g (inl s) = s
    schedule_routes-Served r [] f h g (inr t) = absurd (ground arith)
    schedule_routes-Served r (x ∷ xs) f h g u =
        let (g0, g1) = &&-eq-true _ _ g in
        schedule_routes-Served (schedule_filters kf kl x.id r x.filters) xs f
          (schedule_filters-Holds x.id r x.filters h (if-true g0)) g1 (next (if-true g0) u)
      where
        next :
            (same_id (route_id x.id) id ≡ true → all (has_config o.config) x.filters ≡ true)
            → Served id q f r ⊎ (has_fifo id f (x ∷ xs) ≡ true)
            → Served id q f (schedule_filters kf kl x.id r x.filters) ⊎ (has_fifo id f xs ≡ true)
        next g0 (inl s) = inl (schedule_filters-Served x.id r x.filters f h g0 (inl s))
        next g0 (inr t) =
            elim (Bool-cases (same_id (route_id x.id) id && any (is_fifo f) x.filters)) [
              | inl here ↦
                  inl (schedule_filters-Served x.id r x.filters f h g0 (inr (&&-eq-true _ _ here)))
              | inr later ↦ inr (rw later at t)
            ]

    -- The groups concern the LIFO queues only.
    schedule_groups-Holds :
        (z : C) (r : Round C F L) (gs : List (String × List (GroupedLifoFilter C)))
        → Holds id q o r
        → Holds id q o (schedule_groups kf kl z r gs)
    unfolding schedule_groups schedule_group
    schedule_groups-Holds z r [] h = h
    schedule_groups-Holds z r ((name, g) ∷ gs) h =
        schedule_groups-Holds z (schedule_group kf kl z r name g) gs
          (record { valid = h.valid; has = h.has })

    schedule_groups-Served :
        (z : C) (r : Round C F L) (gs : List (String × List (GroupedLifoFilter C))) (f : ℕ)
        → Served id q f r
        → Served id q f (schedule_groups kf kl z r gs)
    unfolding schedule_groups schedule_group in_use
    schedule_groups-Served z r [] f s = s
    schedule_groups-Served z r ((name, g) ∷ gs) f s =
        schedule_groups-Served z (schedule_group kf kl z r name g) gs f
          (record { used = ground (arith, s.used); set = s.set })

  -- In a valid registry, an update of the routes that still has a fifo filter on the route of an
  -- id, where all of them have the configuration of the queue of the id, sets that queue for the
  -- filter, keeps it under the id, and leaves what the queue holds as it is.
  pub do_routes-Has :
      (z : C) (now : ℕ) (reg : Registry C F L) (routes : List (RoutedFilters C)) (id : QueueId)
      (q f : ℕ) (o : Object C F)
      → IsValid reg.fifo_queues
      → Has reg.fifo_queues id q o
      → have_config id o.config routes ≡ true
      → has_fifo id f routes ≡ true
      → let r = do_routes kf kl z now reg routes in
        Has r.registry.fifo_queues id q o × (is_set f q r.fifo_set ≡ true)
  unfolding do_routes
  do_routes-Has z now reg routes id q f o v h g u =
      let start : Holds id q o (new_round kf kl reg) = record { valid = v; has = h } in
      let r = schedule_routes kf kl (new_round kf kl reg) routes in
      let served =
        schedule_groups-Served id q o z r r.groups f
          (schedule_routes-Served id q o (new_round kf kl reg) routes f start g (inr u)) in
      let held =
        schedule_groups-Holds id q o z r r.groups
          (schedule_routes-Holds id q o (new_round kf kl reg) routes start g) in
      let r' = schedule_groups kf kl z r r.groups in
      (
        delete_unused-Has kf now r'.ids r'.registry.fifo_queues id q o held.valid held.has
            served.used,
        served.set,
      )
