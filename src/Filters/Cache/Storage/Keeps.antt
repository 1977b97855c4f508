-- ===== src/Filters/Cache/Storage/Keeps.antt =====
-- The storage of filters/cache keeps its bounds, and what Set stores is what Get returns.
use skipper.Filters.Cache.Shard.Fit.{fit}
use skipper.Prelude.{
  ℕ, zero, suc, ◌*◌, ◌≤◌, ◌<◌, true, ◌≡◌, refl, List, [], ◌∷◌, Option, none, some, ltb,
  if◌then◌else◌, length, get_elem?, set, replicate, All, All-set, All-get_elem?, length-set,
  get_elem?-set, length-replicate, arith, ◌∙◌, ◌/◌, ◌%◌, sym, ap, Bool-cases, inl, inr,
  Option-cases,
}
use skipper.Prelude.Map.{lookup}
use skipper.Prelude.Bytes.{Bytes, bytes_key, bytes_eq_iff}
use skipper.Filters.Cache.Shard.{Shard, new_shard, get, delete}
use skipper.Filters.Cache.Shard.Elements.{entries, addr_of}
use skipper.Filters.Cache.Shard.Agree.{Agrees}
use skipper.Filters.Cache.Shard.Refine.{set_item-Holds, get-Holds, delete-Holds, set_entries}
use skipper.Filters.Cache.Storage.{
  Shards, shard_count, new_sharded, bytes, sharded_set, sharded_get, sharded_delete, exceeds_shard,
  Entry, Fetched, missing, decode_error, fetched, storage_get, storage_set, is_expired, fetch,
}

-- A shard within its limit whose map, list and byte count agree.
abbrev pub IsWithin : ℕ → Shard → Type 0
IsWithin limit s = Agrees s × (s.max_bytes ≡ limit) × (s.current_bytes ≤ limit)

abbrev pub AreWithin : ℕ → Shards → Type 0
AreWithin limit ss = (length ss ≡ shard_count) × All (IsWithin limit) ss

get_elem?_lt :
    {A : Type 0} (xs : List A) (i : ℕ) → i < length xs → (x : A) × (get_elem? xs i ≡ some x)
get_elem?_lt [] i h = absurd (omega arith)
get_elem?_lt (x ∷ xs) zero h = (x, refl)
get_elem?_lt (x ∷ xs) (suc i) h = get_elem?_lt xs i (omega arith)

-- The shards together have no more bytes than their limits together.
pub bytes-le : (limit : ℕ) (ss : Shards) → All (IsWithin limit) ss → bytes ss ≤ length ss * limit
unfolding bytes
bytes-le limit [] h = omega arith
bytes-le limit (s ∷ ss) h = grind (arith, bytes-le limit ss h.1)

new_shard-IsWithin : (limit : ℕ) → IsWithin limit (new_shard limit)
unfolding new_shard lookup addr_of
new_shard-IsWithin limit = (
  record { apart = tt; sizes = tt; below = tt; points = λ k. refl; sum = refl },
  refl,
  omega arith,
)

All-replicate : {A : Type 0} (P : A → Type 0) (n : ℕ) (a : A) → P a → All P (replicate n a)
All-replicate P zero a h = tt
All-replicate P (suc n) a h = (h, All-replicate P n a h)

pub new_sharded-AreWithin : (total : ℕ) → AreWithin (total / shard_count) (new_sharded total)
unfolding new_sharded
new_sharded-AreWithin total =
    let limit = total / shard_count in
    (
      length-replicate shard_count (new_shard limit),
      All-replicate (IsWithin limit) shard_count (new_shard limit) (new_shard-IsWithin limit),
    )

newest :
    (limit : ℕ) (k d : Bytes) (m : List (Bytes × Bytes))
    → length d ≤ limit
    → lookup k (set_entries limit k d m) ≡ some d
unfolding set_entries fit lookup
newest limit k d m h = ground (arith, bytes_eq_iff k k)

module _ (sum64 : Bytes → ℕ) (limit : ℕ) where
  -- A step of the shard of a key.
  shard_at :
      (key : Bytes) (ss : Shards)
      → AreWithin limit ss
      → (s : Shard) × (get_elem? ss (sum64 key % shard_count) ≡ some s) × IsWithin limit s
  shard_at key ss h =
      let (s, e) = get_elem?_lt ss (sum64 key % shard_count) (omega (arith, h.0)) in
      (s, e, All-get_elem? (IsWithin limit) ss (sum64 key % shard_count) s h.1 e)

  updated-AreWithin :
      (i : ℕ) (ss : Shards) (t : Shard)
      → AreWithin limit ss
      → IsWithin limit t
      → AreWithin limit (set ss i t)
  updated-AreWithin i ss t h w = (length-set ss i t ∙ h.0, All-set (IsWithin limit) ss i t h.1 w)

  -- What is stored for a key.
  abbrev pub stored : Bytes → Shards → Option Bytes
  stored key ss = elim (get_elem? ss (sum64 key % shard_count)) [
    | none ↦ none
    | some s ↦ lookup key (entries s.ll)
  ]

  stored_at :
      (key : Bytes) (ss : Shards) (s : Shard)
      → get_elem? ss (sum64 key % shard_count) ≡ some s
      → stored key ss ≡ lookup key (entries s.ll)
  stored_at key ss s e =
      ap (λ (o : Option Shard). elim o [ none ↦ none | some u ↦ lookup key (entries u.ll) ]) e

  stored_updated :
      (key : Bytes) (ss : Shards) (s t : Shard)
      → get_elem? ss (sum64 key % shard_count) ≡ some s
      → stored key (set ss (sum64 key % shard_count) t) ≡ lookup key (entries t.ll)
  stored_updated key ss s t e =
      stored_at key (set ss (sum64 key % shard_count) t) t
        (get_elem?-set ss (sum64 key % shard_count) t s e)

  pub sharded_set-AreWithin :
      (key d : Bytes) (ss : Shards)
      → AreWithin limit ss
      → (ts : Shards) × (sharded_set sum64 key d ss ≡ some ts)
        × AreWithin limit ts
        × (length d ≤ limit → stored key ts ≡ some d)
  unfolding sharded_set
  sharded_set-AreWithin key d ss h =
      let (s, e, (agrees, max, small)) = shard_at key ss h in
      let (t, runs, held) = set_item-Holds s key d agrees (omega arith) in
      let i = sum64 key % shard_count in
      (
        set ss i t,
        rw (e, sharded_set) (rw runs refl),
        updated-AreWithin i ss t h (held.0, held.1 ∙ max, omega (arith, held.2)),
        λ fits.
            stored_updated key ss s t e
            ∙ ap (lookup key) held.3
            ∙ newest s.max_bytes key d (entries s.ll) (omega arith),
      )

  pub sharded_get-AreWithin :
      (key : Bytes) (ss : Shards)
      → AreWithin limit ss
      → (ts : Shards) × (sharded_get sum64 key ss ≡ some (ts, stored key ss)) × AreWithin limit ts
  unfolding sharded_get
  sharded_get-AreWithin key ss h =
      let (s, e, (agrees, max, small)) = shard_at key ss h in
      let (found, held) = get-Holds s key agrees (omega arith) in
      let i = sum64 key % shard_count in
      (
        set ss i (get key s).0,
        rw (e, sharded_get)
            (ap (λ o. some (set ss i (get key s).0, o)) (found ∙ sym (stored_at key ss s e))),
        updated-AreWithin i ss (get key s).0 h (held.0, held.1 ∙ max, omega (arith, held.2)),
      )

  pub sharded_delete-AreWithin :
      (key : Bytes) (ss : Shards)
      → AreWithin limit ss
      → (ts : Shards) × (sharded_delete sum64 key ss ≡ some ts) × AreWithin limit ts
  unfolding sharded_delete
  sharded_delete-AreWithin key ss h =
      let (s, e, (agrees, max, small)) = shard_at key ss h in
      let held = delete-Holds s key agrees (omega arith) in
      let i = sum64 key % shard_count in
      (
        set ss i (delete key s),
        rw (e, sharded_delete) refl,
        updated-AreWithin i ss (delete key s) h (held.0, held.1 ∙ max, omega (arith, held.2)),
      )

  exceeds_shard-AreWithin :
      (d : Bytes) (ss : Shards)
      → AreWithin limit ss
      → exceeds_shard sum64 d ss ≡ some (ltb limit (length d))
  unfolding exceeds_shard
  exceeds_shard-AreWithin d [] h = absurd (omega (arith, h.0))
  exceeds_shard-AreWithin d (s ∷ ss) h = rw (h.1.0.1) refl

  module _ (marshal : Entry → Option Bytes) (unmarshal : Bytes → Option Entry) where
    -- What Get returns for what is stored.
    unfoldable pub outcome : ℕ → Option Bytes → Fetched
    outcome now none = missing
    outcome now (some d) = elim (unmarshal d) [
      | none ↦ decode_error
      | some e ↦ if is_expired now e then missing else fetched e
    ]

    fetch-AreWithin :
        (now : ℕ) (key : Bytes) (ss : Shards) (o : Option Bytes)
        → AreWithin limit ss
        → (ts : Shards) × (fetch sum64 marshal unmarshal now key ss o ≡ some (ts, outcome now o))
          × AreWithin limit ts
    unfolding outcome
    fetch-AreWithin now key ss none h = (ss, refl, h)
    fetch-AreWithin now key ss (some d) h = elim (Option-cases (unmarshal d)) [
      | inl e ↦ (ss, ground arith, h)
      | inr (x, e) ↦ elim (Bool-cases (is_expired now x)) [
        | inl old ↦
            let (ts, runs, kept) = sharded_delete-AreWithin key ss h in (ts, ground arith, kept)
        | inr fresh ↦ (ss, ground arith, h)
      ]
    ]

    pub storage_get-outcome :
        (now : ℕ) (key : Bytes) (ss : Shards)
        → AreWithin limit ss
        → (ts : Shards) × (storage_get sum64 marshal unmarshal now key ss
            ≡ some (ts, outcome now (stored key ss)))
          × AreWithin limit ts
    unfolding storage_get
    storage_get-outcome now key ss h =
        let (ts, runs, kept) = sharded_get-AreWithin key ss h in
        let (us, done, within) = fetch-AreWithin now key ts (stored key ss) kept in
        (us, rw (runs, storage_get) done, within)

    pub storage_set-stored :
        (key d : Bytes) (e : Entry) (ss : Shards)
        → AreWithin limit ss
        → marshal e ≡ some d
        → (ts : Shards) × (storage_set sum64 marshal unmarshal key e ss ≡ some (ts, true))
          × AreWithin limit ts
          × (stored key ts ≡ (if ltb limit (length d) then stored key ss else some d))
    unfolding storage_set
    storage_set-stored key d e ss h m = elim (Bool-cases (ltb limit (length d))) [
      | inl large ↦ (
        ss,
        rw (m, storage_set) (rw (exceeds_shard-AreWithin d ss h, large) refl),
        h,
        rw large refl,
      )
      | inr small ↦
          let (ts, runs, kept, same) = sharded_set-AreWithin key d ss h in
          (
            ts,
            rw (m, storage_set) (rw (exceeds_shard-AreWithin d ss h, small, runs) refl),
            kept,
            rw small (same (ground arith)),
          )
    ]
