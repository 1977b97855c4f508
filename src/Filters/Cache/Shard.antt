-- ===== src/Filters/Cache/Shard.antt =====
-- lruShard of filters/cache/lru.go. A list element has an address, which the map holds; the lock
-- makes each operation a single step.
pub mod Elements
pub mod Fit
pub mod Agree
pub mod Refine
use skipper.Prelude.{
  ℕ, zero, suc, ◌+◌, ◌-◌, Bool, true, false, List, [], ◌∷◌, Option, none, some, ◌==◌, ltb,
  if◌then◌else◌, length,
}
use skipper.Prelude.Map.{lookup, insert, remove}
use skipper.Prelude.Bytes.{Bytes, bytes_key}

-- A list.Element with its lruItem.
pub record Element : Type 0 where
  pub addr : ℕ
  pub key : Bytes
  pub content : Bytes
  pub size : ℕ

-- next_addr is an address that is not in use, and evictions counts the calls of onEvict.
pub record Shard : Type 0 where
  pub max_bytes : ℕ
  pub current_bytes : ℕ
  pub ll : List Element
  pub cache : List (Bytes × ℕ)
  pub next_addr : ℕ
  pub evictions : ℕ

unfoldable pub new_shard : ℕ → Shard
new_shard max_bytes = record {
  max_bytes = max_bytes;
  current_bytes = 0;
  ll = [];
  cache = [];
  next_addr = 0;
  evictions = 0;
}

-- What a pointer to an element points to, and Remove and MoveToFront of package list.
unfoldable pub element_at : ℕ → List Element → Option Element
element_at a [] = none
element_at a (e ∷ es) = if e.addr == a then some e else element_at a es

unfoldable pub list_remove : ℕ → List Element → List Element
list_remove a [] = []
list_remove a (e ∷ es) = if e.addr == a then es else e ∷ list_remove a es

unfoldable pub move_to_front : ℕ → List Element → List Element
move_to_front a es = elim (element_at a es) [ none ↦ es | some e ↦ e ∷ list_remove a es ]

-- The writes of item.data and item.size.
unfoldable pub write_item : ℕ → Bytes → List Element → List Element
write_item a d [] = []
write_item a d (e ∷ es) =
    if e.addr == a then record e { content = d; size = length d } ∷ es else e ∷ write_item a d es

unfoldable pub back : List Element → Option Element
back [] = none
back (e ∷ []) = some e
back (e ∷ f ∷ es) = back (f ∷ es)

abbrev pub size_at : ℕ → List Element → ℕ
size_at a es = elim (element_at a es) [ none ↦ 0 | some e ↦ e.size ]

-- ll.Remove, delete and the subtraction, which delete and the oversized branch of set share.
abbrev pub drop_element : Bytes → ℕ → Shard → Shard
drop_element key a s = record s {
  ll = list_remove a s.ll;
  cache = remove key s.cache;
  current_bytes = s.current_bytes - size_at a s.ll;
}

unfoldable pub delete : Bytes → Shard → Shard
delete key s = elim (lookup key s.cache) [ none ↦ s | some a ↦ drop_element key a s ]

unfoldable pub get : Bytes → Shard → Shard × Option Bytes
get key s = elim (lookup key s.cache) [
  | none ↦ (s, none)
  | some a ↦ elim (element_at a s.ll) [
    | none ↦ (s, none)
    | some e ↦ (record s { ll = move_to_front a s.ll }, some e.content)
  ]
]

unfoldable pub remove_oldest : Shard → Shard
remove_oldest s = elim (back s.ll) [
  | none ↦ s
  | some e ↦ record (drop_element e.key e.addr s) { evictions = s.evictions + 1 }
]

-- The loop at the end of set, with fuel; none is out of fuel.
unfoldable pub evict : ℕ → Shard → Option Shard
evict zero s = none
evict (suc fuel) s =
    let later = evict fuel (remove_oldest s) in
    if ltb s.max_bytes s.current_bytes then later else some s

-- The branch of set for a key that is there, and that for a new one.
abbrev pub replace_item : ℕ → Bytes → Shard → Shard
replace_item a d s = record s {
  ll = write_item a d (move_to_front a s.ll);
  current_bytes = s.current_bytes - size_at a s.ll + length d;
}

abbrev pub push_item : Bytes → Bytes → Shard → Shard
push_item key d s = record s {
  ll = record { addr = s.next_addr; key = key; content = d; size = length d } ∷ s.ll;
  cache = insert key s.next_addr s.cache;
  current_bytes = s.current_bytes + length d;
  next_addr = s.next_addr + 1;
}

abbrev pub store : Bytes → Bytes → Shard → Shard
store key d s = elim (lookup key s.cache) [ some a ↦ replace_item a d s | none ↦ push_item key d s ]

-- A round of the loop for each element, and the last test, are fuel enough.
unfoldable pub set_item : Bytes → Bytes → Shard → Option Shard
set_item key d s =
    if ltb s.max_bytes (length d)
    then some (delete key s)
    else evict (length (store key d s).ll + 1) (store key d s)
