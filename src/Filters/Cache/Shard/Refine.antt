-- ===== src/Filters/Cache/Shard/Refine.antt =====
-- lruShard of filters/cache/lru.go against a list of entries, the most recent first.
use skipper.Prelude.{
  ℕ, zero, suc, ◌+◌, ◌≤◌, ◌<◌, false, ◌≡◌, refl, subst, sym, ap, ◌∙◌, List, [], ◌∷◌, ◌++◌, none,
  some, ltb, if◌then◌else◌, All, length, Option-cases, Bool-cases, inl, inr, arith, length-append,
}
use mathlib.Core.Path.{subst₂, ap₂}
use skipper.Prelude.Map.{lookup, remove}
use skipper.Prelude.Bytes.{Bytes, bytes_eq, bytes_eq_iff, bytes_key}
use skipper.Filters.Cache.Shard.{
  Element, Shard, element_at, list_remove, drop_element, back, delete, get, remove_oldest, evict,
  store, set_item, move_to_front,
}
use skipper.Filters.Cache.Shard.Elements.{
  addr_of, Apart, AreApart, entry, entries, total, list_remove_tail,
}
use skipper.Filters.Cache.Shard.Fit.{fit, fit-total, fit_snoc}
use skipper.Filters.Cache.Shard.Agree.{
  Agrees, drop_element-Agrees, moved-Agrees, store-Agrees, delete-Agrees, found_at, addr_of_cons,
}

-- The last element of a list, where it is, and the list without it.
record Last (es : List Element) : Type 0 where
  elem : Element
  init : List Element
  whole : es ≡ init ++ elem ∷ []
  at_back : back es ≡ some elem
  addr : addr_of elem.key es ≡ some elem.addr
  without : list_remove elem.addr es ≡ init

All_last : (P : Element → Type 0) (es : List Element) (e : Element) → All P (es ++ e ∷ []) → P e
All_last P [] e h = h.0
All_last P (f ∷ es) e h = All_last P es e h.1

Last-Last : (e : Element) (es : List Element) → AreApart (e ∷ es) → Last (e ∷ es)
unfolding back addr_of list_remove
Last-Last e [] h = record {
  elem = e;
  init = [];
  whole = refl;
  at_back = refl;
  addr = ground (arith, bytes_eq_iff e.key e.key);
  without = ground arith;
}
Last-Last e (f ∷ es) h =
    let r = Last-Last f es h.1 in
    let apart = All_last (Apart e) r.init r.elem (subst (All (Apart e)) r.whole h.0) in
    let other : bytes_eq e.key r.elem.key ≡ false =
      ground (arith, apart.1, bytes_eq_iff e.key r.elem.key, bytes_eq_iff r.elem.key e.key) in
    record {
      elem = r.elem;
      init = e ∷ r.init;
      whole = ap (λ l. e ∷ l) r.whole;
      at_back = r.at_back;
      addr = addr_of_cons e (f ∷ es) r.elem.key ∙ rw other (r.addr);
      without =
          list_remove_tail r.elem.addr e (f ∷ es) (ground (arith, apart.0))
          ∙ ap (λ l. e ∷ l) r.without;
    }

evicted-Agrees : (s : Shard) (n : ℕ) → Agrees s → Agrees (record s { evictions = n })
evicted-Agrees s n h = record {
  apart = h.apart;
  sizes = h.sizes;
  below = h.below;
  points = h.points;
  sum = h.sum;
}

remove_oldest-Agrees :
    (s : Shard)
    → Agrees s
    → (l : Last s.ll)
    → Agrees (remove_oldest s)
      × ((remove_oldest s).ll ≡ l.init)
      × ((remove_oldest s).max_bytes ≡ s.max_bytes)
unfolding remove_oldest
remove_oldest-Agrees s h l =
    rw (l.at_back, remove_oldest)
      (
        evicted-Agrees (drop_element l.elem.key l.elem.addr s) (s.evictions + 1)
            (drop_element-Agrees s h l.elem.key l.elem.addr l.addr),
        l.without,
        refl,
      )

-- What an operation makes of a shard: the invariant, the limit, and these entries.
abbrev pub Holds : Shard → ℕ → List (Bytes × Bytes) → Type 0
Holds s limit m = Agrees s × (s.max_bytes ≡ limit) × (s.current_bytes ≤ limit) × (entries s.ll ≡ m)

entries_snoc :
    (es : List Element) (e : Element)
    → entries (es ++ e ∷ []) ≡ entries es ++ (e.key, e.content) ∷ []
entries_snoc [] e = refl
entries_snoc (f ∷ es) e = ap (λ m. entry f ∷ m) (entries_snoc es e)

some-Last : (es : List Element) → AreApart es → 0 < total (entries es) → Last es
some-Last [] h n = absurd (omega arith)
some-Last (e ∷ es) h n = Last-Last e es h

-- The last entry is not among those that fit.
evicted_fit :
    (s : Shard) (l : Last s.ll)
    → s.max_bytes < total (entries s.ll)
    → (remove_oldest s).max_bytes ≡ s.max_bytes
    → (remove_oldest s).ll ≡ l.init
    → fit (remove_oldest s).max_bytes (entries (remove_oldest s).ll)
      ≡ fit s.max_bytes (entries s.ll)
evicted_fit s l large limit list =
    let whole : entries s.ll ≡ entries l.init ++ (l.elem.key, l.elem.content) ∷ [] =
      ap entries l.whole ∙ entries_snoc l.init l.elem in
    ap₂ fit limit (ap entries list)
    ∙ sym (
        fit_snoc s.max_bytes (entries l.init) l.elem.key l.elem.content
          (subst (λ m. s.max_bytes < total m) whole large))
    ∙ sym (ap (fit s.max_bytes) whole)

-- The loop of set ends, and leaves the entries that fit.
evict-Holds :
    (fuel : ℕ) (s : Shard)
    → Agrees s
    → length s.ll < fuel
    → (t : Shard) × (evict fuel s ≡ some t) × Holds t s.max_bytes (fit s.max_bytes (entries s.ll))
unfolding evict
evict-Holds zero s h enough = absurd (omega arith)
evict-Holds (suc fuel) s h enough = elim (Bool-cases (ltb s.max_bytes s.current_bytes)) [
  | inr fits ↦
      let small : s.current_bytes ≤ s.max_bytes = ground arith in
      (
        s,
        rw (fits, evict) refl,
        (h, refl, small, sym (fit-total s.max_bytes (entries s.ll) (omega (arith, h.sum)))),
      )
  | inl over ↦
      let large : s.max_bytes < total (entries s.ll) = ground (arith, h.sum) in
      let l = some-Last s.ll h.apart (omega arith) in
      let (agrees, list, limit) = remove_oldest-Agrees s h l in
      let shorter : length (remove_oldest s).ll < fuel =
        omega (arith, ap length list, ap length l.whole, length-append l.init (l.elem ∷ [])) in
      let fits : fit (remove_oldest s).max_bytes (entries (remove_oldest s).ll)
          ≡ fit s.max_bytes (entries s.ll) =
        evicted_fit s l large limit list in
      let (t, runs, held) = evict-Holds fuel (remove_oldest s) agrees shorter in
      (t, rw (over, evict) runs, subst₂ (λ n m. Holds t n m) limit fits held)
]

-- What set makes of the entries, with a limit on their bytes.
unfoldable pub set_entries : ℕ → Bytes → Bytes → List (Bytes × Bytes) → List (Bytes × Bytes)
set_entries limit k d m =
    if ltb limit (length d) then remove k m else fit limit ((k, d) ∷ remove k m)

-- What get makes of them.
unfoldable pub get_entries : Bytes → List (Bytes × Bytes) → List (Bytes × Bytes)
get_entries k m = elim (lookup k m) [ none ↦ m | some d ↦ (k, d) ∷ remove k m ]

total-remove : (k : Bytes) (m : List (Bytes × Bytes)) → total (remove k m) ≤ total m
unfolding remove
total-remove k [] = omega arith
total-remove k ((j, d) ∷ m) = ground (arith, total-remove k m)

max_bytes-store : (s : Shard) (k d : Bytes) → (store k d s).max_bytes ≡ s.max_bytes
max_bytes-store s k d = ground arith

max_bytes-delete : (s : Shard) (k : Bytes) → (delete k s).max_bytes ≡ s.max_bytes
unfolding delete
max_bytes-delete s k = ground arith

-- Delete removes the entry of its key, and keeps the invariant.
pub delete-Holds :
    (s : Shard) (k : Bytes)
    → Agrees s
    → s.current_bytes ≤ s.max_bytes
    → Holds (delete k s) s.max_bytes (remove k (entries s.ll))
delete-Holds s k h bounded =
    let (agrees, same) = delete-Agrees s k h in
    (
      agrees,
      max_bytes-delete s k,
      omega (arith, h.sum, agrees.sum, ap total same, total-remove k (entries s.ll)),
      same,
    )

-- In a shard whose map, list and byte count agree, and which has no more bytes than its limit, set
-- ends, and this stays so. A content that is larger than the limit only removes the entry of its
-- key; any other becomes the most recent entry, and of all entries the most recent stay that fit
-- together.
pub set_item-Holds :
    (s : Shard) (k d : Bytes)
    → Agrees s
    → s.current_bytes ≤ s.max_bytes
    → (t : Shard) × (set_item k d s ≡ some t)
      × Holds t s.max_bytes (set_entries s.max_bytes k d (entries s.ll))
unfolding set_item set_entries
set_item-Holds s k d h bounded = elim (Bool-cases (ltb s.max_bytes (length d))) [
  | inl large ↦
      (delete k s, rw (large, set_item) refl, rw (large, set_entries) (delete-Holds s k h bounded))
  | inr small ↦
      let (agrees, same) = store-Agrees s k d h in
      let limit = max_bytes-store s k d in
      let (t, runs, held) =
        evict-Holds (length (store k d s).ll + 1) (store k d s) agrees (omega arith) in
      (
        t,
        rw (small, set_item) runs,
        rw (small, set_entries) (subst₂ (λ n m. Holds t n (fit n m)) limit same held),
      )
]

lookup_absent : (k : Bytes) (es : List Element) → addr_of k es ≡ none → lookup k (entries es) ≡ none
unfolding lookup addr_of
lookup_absent k [] h = refl
lookup_absent k (e ∷ es) h = ground (arith, lookup_absent k es)

get_miss : (s : Shard) (k : Bytes) → lookup k s.cache ≡ none → get k s ≡ (s, none)
unfolding get
get_miss s k h = rw (h, get) refl

get_hit :
    (s : Shard) (k : Bytes) (a : ℕ) (e : Element)
    → lookup k s.cache ≡ some a
    → element_at a s.ll ≡ some e
    → get k s ≡ (record s { ll = move_to_front a s.ll }, some e.content)
unfolding get
get_hit s k a e h i = rw (h, get) (rw i refl)

get_entries_miss : (k : Bytes) (m : List (Bytes × Bytes)) → lookup k m ≡ none → get_entries k m ≡ m
unfolding get_entries
get_entries_miss k m h = rw (h, get_entries) refl

get_entries_hit :
    (k : Bytes) (m : List (Bytes × Bytes)) (d : Bytes)
    → lookup k m ≡ some d
    → get_entries k m ≡ (k, d) ∷ remove k m
unfolding get_entries
get_entries_hit k m d h = rw (h, get_entries) refl

-- In such a shard get returns the content of its key, if there is one, which becomes the most recent
-- entry; the other entries and the limit stay, and the invariant.
pub get-Holds :
    (s : Shard) (k : Bytes)
    → Agrees s
    → s.current_bytes ≤ s.max_bytes
    → ((get k s).1 ≡ lookup k (entries s.ll))
      × Holds (get k s).0 s.max_bytes (get_entries k (entries s.ll))
get-Holds s k h bounded = elim (Option-cases (lookup k s.cache)) [
  | inl e ↦
      let absent = lookup_absent k s.ll (sym (h.points k) ∙ e) in
      subst₂ (λ g m. (g.1 ≡ lookup k (entries s.ll)) × Holds g.0 s.max_bytes m)
        (sym (get_miss s k e)) (sym (get_entries_miss k (entries s.ll) absent))
        (sym absent, (h, refl, bounded, refl))
  | inr (a, e) ↦
      let i = sym (h.points k) ∙ e in
      let r = found_at s h k a i in
      let (agrees, same) = moved-Agrees s h k a i in
      subst₂ (λ g m. (g.1 ≡ lookup k (entries s.ll)) × Holds g.0 s.max_bytes m)
        (sym (get_hit s k a r.elem e r.at))
        (sym (get_entries_hit k (entries s.ll) r.elem.content r.looked))
        (sym r.looked, (agrees, refl, bounded, same))
]
