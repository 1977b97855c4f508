-- ===== src/Scheduler/Preprocessor/Tests.antt =====
-- Tests and instances for registryPreProcessor.Do: a route with two fifo and two lifo filters.
use skipper.Prelude.{ℕ, ◌≡◌, refl, [], ◌∷◌}
use skipper.Scheduler.Preprocessor.{
  Route, count_named, drop_counted, remove_non_last, pre_process_route, lifo_name, fifo_name,
}
use skipper.Scheduler.Preprocessor.Last.{last_only, pre_process_route-last_only}

abbrev route : Route ℕ
route = record {
  id = "r";
  filters =
      record { name = "fifo"; args = 1 ∷ [] }
      ∷ record { name = "lifo"; args = 2 ∷ [] }
      ∷ record { name = "setPath"; args = [] }
      ∷ record { name = "fifo"; args = 3 ∷ [] }
      ∷ record { name = "lifo"; args = 4 ∷ [] }
      ∷ [];
}

keeps_last : pre_process_route route ≡ record {
  id = "r";
  filters =
      record { name = "setPath"; args = [] }
      ∷ record { name = "fifo"; args = 3 ∷ [] }
      ∷ record { name = "lifo"; args = 4 ∷ [] }
      ∷ [];
}
unfolding pre_process_route remove_non_last drop_counted count_named
keeps_last = refl

pre_process_route-last_only_example :
    pre_process_route route
    ≡ record route { filters = last_only lifo_name (last_only fifo_name route.filters) }
pre_process_route-last_only_example = pre_process_route-last_only route
