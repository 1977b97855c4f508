-- ===== src/Filters/Cache/Tests.antt =====
-- Runs of the cache storage.
use skipper.Filters.Cache.Shard.Fit.{fit}
use skipper.Prelude.{◌≡◌, ◌≤◌, refl, [], ◌∷◌, Option, some, length, arith}
use skipper.Prelude.Map.{lookup, remove}
use skipper.Prelude.Bytes.{Bytes, codes, bytes_key, bytes_eq}
use skipper.Filters.Cache.Shard.{Element, Shard, get, set_item}
use skipper.Filters.Cache.Shard.Elements.{entries, addr_of}
use skipper.Filters.Cache.Shard.Agree.{Agrees}
use skipper.Filters.Cache.Shard.Refine.{Holds, set_item-Holds, get-Holds, set_entries, get_entries}
use skipper.Filters.Cache.Storage.{Shards, Entry, new_sharded, bytes}
use skipper.Filters.Cache.Storage.Runs.{set_call, get_call, delete_call, run, run-bytes}

abbrev one : Element
one = record { addr = 0; key = codes "a"; content = codes "xyz"; size = 3 }

-- A shard of 6 bytes with one entry of 3.
abbrev shard : Shard
shard = record {
  max_bytes = 6;
  current_bytes = 3;
  ll = one ∷ [];
  cache = (codes "a", 0) ∷ [];
  next_addr = 1;
  evictions = 0;
}

shard-Agrees : Agrees shard
unfolding lookup addr_of
shard-Agrees = record {
  apart = (tt, tt);
  sizes = (refl, tt);
  below = (omega arith, tt);
  points = λ k. refl;
  sum = refl;
}

set_item-Holds_example :
    (t : Shard) × (set_item (codes "b") (codes "vwxyz") shard ≡ some t)
    × Holds t shard.max_bytes
        (set_entries shard.max_bytes (codes "b") (codes "vwxyz") (entries shard.ll))
set_item-Holds_example = set_item-Holds shard (codes "b") (codes "vwxyz") shard-Agrees (omega arith)

-- The older entry does not fit with the new one.
evicted :
    set_entries 6 (codes "b") (codes "vwxyz") (entries shard.ll) ≡ (codes "b", codes "vwxyz") ∷ []
unfolding set_entries remove fit bytes_eq
evicted = refl

get-Holds_example :
    ((get (codes "a") shard).1 ≡ lookup (codes "a") (entries shard.ll))
    × Holds (get (codes "a") shard).0 shard.max_bytes (get_entries (codes "a") (entries shard.ll))
get-Holds_example = get-Holds shard (codes "a") shard-Agrees (omega arith)

abbrev page : Entry
page = record {
  status_code = 200;
  payload = codes "hello";
  header = [];
  created_at = 1000;
  ttl = 60;
  stale_while_revalidate = 0;
  etag = [];
  last_modified = [];
  vary_headers = [];
  corrected_initial_age = 0;
  response_time = 1000;
  stale_if_error = 30;
}

abbrev marshal : Entry → Option Bytes
marshal e = some e.payload

abbrev unmarshal : Bytes → Option Entry
unmarshal d = some (record page { payload = d })

run-bytes_example :
    (ts : Shards) × (run length marshal unmarshal
        (set_call (codes "k") page ∷ get_call 1080 (codes "k") ∷ delete_call (codes "k") ∷ [])
        (new_sharded 4096)
      ≡ some ts)
    × (bytes ts ≤ 4096)
run-bytes_example =
    run-bytes length marshal unmarshal 4096
      (set_call (codes "k") page ∷ get_call 1080 (codes "k") ∷ delete_call (codes "k") ∷ [])
