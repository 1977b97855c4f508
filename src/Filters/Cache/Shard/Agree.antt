-- ===== src/Filters/Cache/Shard/Agree.antt =====
-- The invariant of lruShard in filters/cache/lru.go: the map, the list and the byte count agree.
use skipper.Prelude.{
  ℕ, ◌+◌, ◌-◌, ◌<◌, false, ◌≡◌, refl, subst, sym, List, [], ◌∷◌, none, some, if◌then◌else◌, All,
  length, Option-cases, inl, inr, arith, ◌∙◌, ap, ap₂,
}
use skipper.Prelude.Map.{lookup, remove, lookup-remove, lookup-insert}
use skipper.Prelude.Bytes.{Bytes, bytes_eq, bytes_eq_iff, bytes_key}
use skipper.Filters.Cache.Shard.{
  Element, Shard, element_at, list_remove, move_to_front, write_item, size_at, drop_element, delete,
  replace_item, push_item, store,
}
use skipper.Filters.Cache.Shard.Elements.{
  addr_of, Apart, AreApart, entries, total, Found, addr_of-Found, All-list_remove,
  AreApart-list_remove, All-element_at,
}

pub record Agrees (s : Shard) : Type 0 where
  pub apart : AreApart s.ll
  pub sizes : All (λ e. e.size ≡ length e.content) s.ll
  pub below : All (λ e. e.addr < s.next_addr) s.ll
  pub points : (k : Bytes) → lookup k s.cache ≡ addr_of k s.ll
  pub sum : s.current_bytes ≡ total (entries s.ll)

total-list_remove :
    (a : ℕ) (es : List Element) (e : Element)
    → element_at a es ≡ some e
    → total (entries es) ≡ length e.content + total (entries (list_remove a es))
unfolding element_at list_remove
total-list_remove a [] e h = cc
total-list_remove a (f ∷ es) e h = ground (arith, total-list_remove a es e)

All_same :
    (e f : Element) (es : List Element)
    → f.addr ≡ e.addr
    → f.key ≡ e.key
    → All (Apart e) es
    → All (Apart f) es
All_same e f [] p q h = tt
All_same e f (g ∷ es) p q h = ground (arith, p, q, All_same e f es p q h.1)

write_item_front :
    (a : ℕ) (d : Bytes) (e : Element) (es : List Element)
    → e.addr ≡ a
    → write_item a d (e ∷ es) ≡ record e { content = d; size = length d } ∷ es
unfolding write_item
write_item_front a d e es h = ground arith

module _ (s : Shard) (h : Agrees s) (k : Bytes) (a : ℕ) (i : addr_of k s.ll ≡ some a) where
  pub found_at : Found k a s.ll
  found_at = addr_of-Found k a s.ll h.apart i

  size_found : size_at a s.ll ≡ length found_at.elem.content
  size_found =
      let size =
        All-element_at (λ e. e.size ≡ length e.content) a s.ll found_at.elem h.sizes found_at.at in
      rw (found_at.at, size_at) size

  sum_found : s.current_bytes - size_at a s.ll ≡ total (entries (list_remove a s.ll))
  sum_found = omega (arith, size_found, total-list_remove a s.ll found_at.elem found_at.at, h.sum)

  pub drop_element-Agrees : Agrees (drop_element k a s)
  drop_element-Agrees = record {
    apart = AreApart-list_remove a s.ll h.apart;
    sizes = All-list_remove (λ e. e.size ≡ length e.content) a s.ll h.sizes;
    below = All-list_remove (λ e. e.addr < s.next_addr) a s.ll h.below;
    points = λ j. ground (arith, lookup-remove k j s.cache, found_at.addrs j, h.points j);
    sum = sum_found;
  }

  addr_of_front :
      (e : Element) (j : Bytes)
      → e.key ≡ k
      → e.addr ≡ a
      → addr_of j (e ∷ list_remove a s.ll) ≡ addr_of j s.ll
  unfolding addr_of
  addr_of_front e j p q =
      ground (arith, found_at.addrs j, bytes_eq_iff e.key j, bytes_eq_iff k j, i)

  -- The element with a new content at the front.
  front-Agrees :
      (e : Element) (n : ℕ)
      → e.key ≡ k
      → e.addr ≡ a
      → e.size ≡ length e.content
      → n ≡ length e.content + total (entries (list_remove a s.ll))
      → Agrees (record s { ll = e ∷ list_remove a s.ll; current_bytes = n })
  front-Agrees e n p q z sum = record {
    apart = (
      All_same found_at.elem e (list_remove a s.ll) (q ∙ sym found_at.addr_is)
          (p ∙ sym found_at.key_is) found_at.others,
      AreApart-list_remove a s.ll h.apart,
    );
    sizes = (z, All-list_remove (λ e. e.size ≡ length e.content) a s.ll h.sizes);
    below = (
      omega (
        arith,
        q,
        found_at.addr_is,
        All-element_at (λ f. f.addr < s.next_addr) a s.ll found_at.elem h.below found_at.at,
      ),
      All-list_remove (λ e. e.addr < s.next_addr) a s.ll h.below,
    );
    points = λ j. h.points j ∙ sym (addr_of_front e j p q);
    sum = sum;
  }

  front : move_to_front a s.ll ≡ found_at.elem ∷ list_remove a s.ll
  unfolding move_to_front
  front = rw (found_at.at, move_to_front) refl

  -- MoveToFront.
  pub moved-Agrees :
      Agrees (record s { ll = move_to_front a s.ll })
      × (entries (move_to_front a s.ll) ≡ (k, found_at.elem.content) ∷ remove k (entries s.ll))
  moved-Agrees =
      let e = found_at.elem in
      let size = All-element_at (λ e. e.size ≡ length e.content) a s.ll e h.sizes found_at.at in
      (
        subst (λ l. Agrees (record s { ll = l })) (sym front)
            (front-Agrees e s.current_bytes found_at.key_is found_at.addr_is size
              (h.sum ∙ total-list_remove a s.ll e found_at.at)),
        ap entries front ∙ ap₂ (λ j m. (j, e.content) ∷ m) found_at.key_is (sym found_at.removed),
      )

  -- The content is replaced.
  pub replaced-Agrees :
      (d : Bytes)
      → Agrees (replace_item a d s)
        × (entries (replace_item a d s).ll ≡ (k, d) ∷ remove k (entries s.ll))
  replaced-Agrees d =
      let e = record found_at.elem { content = d; size = length d } in
      let written : write_item a d (move_to_front a s.ll) ≡ e ∷ list_remove a s.ll =
        ap (write_item a d) front
        ∙ write_item_front a d found_at.elem (list_remove a s.ll) found_at.addr_is in
      let count = s.current_bytes - size_at a s.ll + length d in
      (
        subst (λ l. Agrees (record s { ll = l; current_bytes = count })) (sym written)
            (front-Agrees e count found_at.key_is found_at.addr_is refl (omega (arith, sum_found))),
        ap entries written ∙ ap₂ (λ j m. (j, d) ∷ m) found_at.key_is (sym found_at.removed),
      )

-- A key that the list does not have.
absent-keys :
    (k : Bytes) (es : List Element) → addr_of k es ≡ none → All (λ e. bytes_eq e.key k ≡ false) es
unfolding addr_of
absent-keys k [] h = tt
absent-keys k (e ∷ es) h = ground (arith, absent-keys k es)

remove_absent :
    (k : Bytes) (es : List Element)
    → All (λ e. bytes_eq e.key k ≡ false) es
    → remove k (entries es) ≡ entries es
unfolding remove
remove_absent k [] h = refl
remove_absent k (e ∷ es) h = ground (arith, remove_absent k es h.1)

new-Apart :
    (n : ℕ) (k d : Bytes) (es : List Element)
    → All (λ e. e.addr < n) es
    → All (λ e. bytes_eq e.key k ≡ false) es
    → All (Apart (record { addr = n; key = k; content = d; size = length d })) es
new-Apart n k d [] b h = tt
new-Apart n k d (e ∷ es) b h = ground (arith, new-Apart n k d es b.1 h.1)

weaken_below : (n : ℕ) (es : List Element) → All (λ e. e.addr < n) es → All (λ e. e.addr < n + 1) es
weaken_below n [] b = tt
weaken_below n (e ∷ es) b = ground (arith, weaken_below n es b.1)

pub addr_of_cons :
    (e : Element) (es : List Element) (j : Bytes)
    → addr_of j (e ∷ es) ≡ (if bytes_eq e.key j then some e.addr else addr_of j es)
unfolding addr_of
addr_of_cons e es j = refl

-- PushFront with a new element.
pub pushed-Agrees :
    (s : Shard) (k d : Bytes)
    → Agrees s
    → addr_of k s.ll ≡ none
    → Agrees (push_item k d s) × (entries (push_item k d s).ll ≡ (k, d) ∷ remove k (entries s.ll))
pushed-Agrees s k d h i =
    let absent = absent-keys k s.ll i in
    (
      record {
        apart = (new-Apart s.next_addr k d s.ll h.below absent, h.apart);
        sizes = (refl, h.sizes);
        below = (omega arith, weaken_below s.next_addr s.ll h.below);
        points = λ j.
            lookup-insert k j s.next_addr s.cache
            ∙ ap (λ o. if bytes_eq k j then some s.next_addr else o) (h.points j)
            ∙ sym (
                addr_of_cons (record { addr = s.next_addr; key = k; content = d; size = length d })
                  s.ll j);
        sum = omega (arith, h.sum);
      },
      ap (λ m. (k, d) ∷ m) (sym (remove_absent k s.ll absent)),
    )

-- The two branches of set that store a content, by what the map says.
pub store-Agrees :
    (s : Shard) (k d : Bytes)
    → Agrees s
    → Agrees (store k d s) × (entries (store k d s).ll ≡ (k, d) ∷ remove k (entries s.ll))
store-Agrees s k d h = elim (Option-cases (lookup k s.cache)) [
  | inl e ↦ rw (e, store) (pushed-Agrees s k d h (sym (h.points k) ∙ e))
  | inr (a, e) ↦ rw (e, store) (replaced-Agrees s h k a (sym (h.points k) ∙ e) d)
]

pub delete-Agrees :
    (s : Shard) (k : Bytes)
    → Agrees s
    → Agrees (delete k s) × (entries (delete k s).ll ≡ remove k (entries s.ll))
unfolding delete
delete-Agrees s k h = elim (Option-cases (lookup k s.cache)) [
  | inl e ↦
      rw (e, delete) (h, sym (remove_absent k s.ll (absent-keys k s.ll (sym (h.points k) ∙ e))))
  | inr (a, e) ↦
      let i = sym (h.points k) ∙ e in
      rw (e, delete) (drop_element-Agrees s h k a i, sym (found_at s h k a i).removed)
]
