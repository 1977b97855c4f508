-- ===== src/Filters/Cache/Shard/Fit.antt =====
-- The entries that fit into a shard, most recent first: what the loop of set in filters/cache/lru.go
-- leaves.
use skipper.Prelude.{
  ℕ, ◌-◌, ◌≤◌, ◌<◌, ◌≡◌, refl, List, [], ◌∷◌, ◌++◌, leb, if◌then◌else◌, length, arith,
}
use skipper.Prelude.Bytes.{Bytes}
use skipper.Filters.Cache.Shard.Elements.{total}

-- The longest prefix whose contents have no more bytes than the limit.
unfoldable pub fit : ℕ → List (Bytes × Bytes) → List (Bytes × Bytes)
fit limit [] = []
fit limit ((k, d) ∷ m) =
    let more = fit (limit - length d) m in if leb (length d) limit then (k, d) ∷ more else []

pub fit-total : (limit : ℕ) (m : List (Bytes × Bytes)) → total m ≤ limit → fit limit m ≡ m
unfolding fit
fit-total limit [] h = refl
fit-total limit ((k, d) ∷ m) h = ground (arith, fit-total (limit - length d) m)

pub total-fit : (limit : ℕ) (m : List (Bytes × Bytes)) → total (fit limit m) ≤ limit
unfolding fit
total-fit limit [] = omega arith
total-fit limit ((k, d) ∷ m) = ground (arith, total-fit (limit - length d) m)

pub fit_snoc :
    (limit : ℕ) (m : List (Bytes × Bytes)) (k d : Bytes)
    → limit < total (m ++ (k, d) ∷ [])
    → fit limit (m ++ (k, d) ∷ []) ≡ fit limit m
unfolding fit
fit_snoc limit [] k d h = ground arith
fit_snoc limit ((j, e) ∷ m) k d h = ground (arith, fit_snoc (limit - length e) m k d)
