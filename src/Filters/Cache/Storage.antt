-- ===== src/Filters/Cache/Storage.antt =====
-- ShardedByteLRU of filters/cache/lru.go, and LRUStorage of filters/cache/lru_storage.go.
pub mod Keeps
pub mod Runs
use skipper.Prelude.{
  ℕ, ◌+◌, ◌/◌, ◌%◌, Bool, true, false, List, [], ◌∷◌, Option, none, some, ltb, if◌then◌else◌,
  length, get_elem?, set, replicate, ◌>>=◌, ◌&&◌,
}
use skipper.Prelude.Bytes.{Bytes}
use skipper.Filters.Cache.Shard.{Shard, new_shard, get, set_item, delete}

abbrev pub shard_count : ℕ
shard_count = 256

-- The shards of a ShardedByteLRU.
abbrev pub Shards : Type 0
Shards = List Shard

unfoldable pub new_sharded : ℕ → Shards
new_sharded total = replicate shard_count (new_shard (total / shard_count))

-- Bytes: the sum over the shards.
unfoldable pub bytes : Shards → ℕ
bytes [] = 0
bytes (s ∷ ss) = s.current_bytes + bytes ss

-- Entry of filters/cache/storage.go. Times are in nanoseconds, and durations are not negative.
pub record Entry : Type 0 where
  pub status_code : ℕ
  pub payload : Bytes
  pub header : List (Bytes × List Bytes)
  pub created_at : ℕ
  pub ttl : ℕ
  pub stale_while_revalidate : ℕ
  pub etag : Bytes
  pub last_modified : Bytes
  pub vary_headers : List Bytes
  pub corrected_initial_age : ℕ
  pub response_time : ℕ
  pub stale_if_error : ℕ

abbrev pub max_of : ℕ → ℕ → ℕ
max_of a b = if ltb a b then b else a

-- The test for an entry that has passed its retention window.
unfoldable pub is_expired : ℕ → Entry → Bool
is_expired now e =
    ltb 0 e.ttl
    && ltb (e.created_at + (e.ttl + max_of e.stale_if_error e.stale_while_revalidate)) now

-- What Get returns: nil, an error, or an entry.
pub data Fetched : Type 0 where
  missing decode_error : Fetched
  fetched : Entry → Fetched

-- xxhash.Sum64String of github.com/cespare/xxhash. An operation is none where the index is out of
-- range, or the loop of set is out of fuel.
module _ (sum64 : Bytes → ℕ) where
  abbrev pub shard_index : Bytes → ℕ
  shard_index key = sum64 key % shard_count

  abbrev pub get_shard : Bytes → Shards → Option Shard
  get_shard key ss = get_elem? ss (shard_index key)

  unfoldable pub sharded_set : Bytes → Bytes → Shards → Option Shards
  sharded_set key d ss = do
    s ← get_shard key ss
    t ← set_item key d s
    some (set ss (shard_index key) t)

  unfoldable pub sharded_get : Bytes → Shards → Option (Shards × Option Bytes)
  sharded_get key ss = do
    s ← get_shard key ss
    some (set ss (shard_index key) (get key s).0, (get key s).1)

  unfoldable pub sharded_delete : Bytes → Shards → Option Shards
  sharded_delete key ss = do s ← get_shard key ss; some (set ss (shard_index key) (delete key s))

  -- ExceedsShard.
  unfoldable pub exceeds_shard : Bytes → Shards → Option Bool
  exceeds_shard d ss = do s ← get_elem? ss 0; some (ltb s.max_bytes (length d))

  -- json.Marshal and json.Unmarshal on entries; none is an error.
  module _ (marshal : Entry → Option Bytes) (unmarshal : Bytes → Option Entry) where
    abbrev pub fetch : ℕ → Bytes → Shards → Option Bytes → Option (Shards × Fetched)
    fetch now key ss none = some (ss, missing)
    fetch now key ss (some d) = elim (unmarshal d) [
      | none ↦ some (ss, decode_error)
      | some e ↦
          if is_expired now e
          then (do ts ← sharded_delete key ss; some (ts, missing))
          else some (ss, fetched e)
    ]

    unfoldable pub storage_get : ℕ → Bytes → Shards → Option (Shards × Fetched)
    storage_get now key ss = do (ts, found) ← sharded_get key ss; fetch now key ts found

    -- Set: the shards, and whether there was no error.
    unfoldable pub storage_set : Bytes → Entry → Shards → Option (Shards × Bool)
    storage_set key e ss = elim (marshal e) [
      | none ↦ some (ss, false)
      | some d ↦ do
        large ← exceeds_shard d ss
        if large then some (ss, true) else (do ts ← sharded_set key d ss; some (ts, true))
    ]

    unfoldable pub storage_delete : Bytes → Shards → Option Shards
    storage_delete key ss = sharded_delete key ss
