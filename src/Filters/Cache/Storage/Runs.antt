-- ===== src/Filters/Cache/Storage/Runs.antt =====
-- Sequences of operations on the storage of filters/cache/lru_storage.go.
use skipper.Prelude.{
  ◌/◌, ℕ, ◌≤◌, false, ◌≡◌, refl, List, [], ◌∷◌, Option, none, some, ◌>>=◌, Option-cases, inl, inr,
  arith,
}
use skipper.Prelude.Bytes.{Bytes}
use skipper.Filters.Cache.Storage.{
  Shards, shard_count, new_sharded, bytes, Entry, storage_get, storage_set, storage_delete,
}
use skipper.Filters.Cache.Storage.Keeps.{
  AreWithin, bytes-le, new_sharded-AreWithin, storage_get-outcome, storage_set-stored,
  sharded_delete-AreWithin,
}

-- A call of the storage, at a time.
pub data Call : Type 0 where
  get_call : ℕ → Bytes → Call
  set_call : Bytes → Entry → Call
  delete_call : Bytes → Call

module _ (sum64 : Bytes → ℕ) (marshal : Entry → Option Bytes)
    (unmarshal : Bytes → Option Entry) where
  unfoldable pub call : Call → Shards → Option Shards
  call (get_call now key) ss = do (ts, _) ← storage_get sum64 marshal unmarshal now key ss; some ts
  call (set_call key e) ss = do (ts, _) ← storage_set sum64 marshal unmarshal key e ss; some ts
  call (delete_call key) ss = storage_delete sum64 marshal unmarshal key ss

  unfoldable pub run : List Call → Shards → Option Shards
  run [] ss = some ss
  run (c ∷ cs) ss = do ts ← call c ss; run cs ts

  storage_set_error :
      (key : Bytes) (e : Entry) (ss : Shards)
      → marshal e ≡ none
      → storage_set sum64 marshal unmarshal key e ss ≡ some (ss, false)
  unfolding storage_set
  storage_set_error key e ss m = rw (m, storage_set) refl

  call-AreWithin :
      (limit : ℕ) (c : Call) (ss : Shards)
      → AreWithin limit ss
      → (ts : Shards) × (call c ss ≡ some ts) × AreWithin limit ts
  unfolding call storage_delete
  call-AreWithin limit (get_call now key) ss h =
      let (ts, runs, kept) = storage_get-outcome sum64 limit marshal unmarshal now key ss h in
      (ts, rw runs refl, kept)
  call-AreWithin limit (set_call key e) ss h = elim (Option-cases (marshal e)) [
    | inl m ↦ (ss, rw (storage_set_error key e ss m) refl, h)
    | inr (d, m) ↦
        let (ts, runs, kept, _) = storage_set-stored sum64 limit marshal unmarshal key d e ss h m in
        (ts, rw runs refl, kept)
  ]
  call-AreWithin limit (delete_call key) ss h = sharded_delete-AreWithin sum64 limit key ss h

  run-AreWithin :
      (limit : ℕ) (cs : List Call) (ss : Shards)
      → AreWithin limit ss
      → (ts : Shards) × (run cs ss ≡ some ts) × AreWithin limit ts
  unfolding run
  run-AreWithin limit [] ss h = (ss, refl, h)
  run-AreWithin limit (c ∷ cs) ss h =
      let (ts, runs, kept) = call-AreWithin limit c ss h in
      let (us, later, within) = run-AreWithin limit cs ts kept in (us, rw (runs, run) later, within)

  -- Any calls of Get, Set and Delete on a new storage end without a panic, and leave no more bytes
  -- in it than the total that it was made for.
  pub run-bytes :
      (total : ℕ) (cs : List Call)
      → (ts : Shards) × (run cs (new_sharded total) ≡ some ts) × (bytes ts ≤ total)
  run-bytes total cs =
      let limit = total / shard_count in
      let (ts, runs, kept) =
        run-AreWithin limit cs (new_sharded total) (new_sharded-AreWithin total) in
      (ts, runs, omega (arith, rw (kept.0) at (bytes-le limit ts kept.1)))
