-- ===== src/Filters/Cache/Shard/Elements.antt =====
-- The list of elements against the map that points into it.
use skipper.Prelude.{
  ℕ, ◌+◌, false, ◌≡◌, refl, List, [], ◌∷◌, Option, none, some, ◌==◌, if◌then◌else◌, All, length,
  map, arith, Bool-cases, inl, subst, inr, sym, ◌∙◌,
}
use mathlib.Core.Path.{subst₂}
use skipper.Prelude.Map.{remove, lookup}
use skipper.Prelude.Bytes.{Bytes, bytes_eq, bytes_eq_iff, bytes_key}
use skipper.Filters.Cache.Shard.{Element, element_at, list_remove}

-- Where a key is in the list.
unfoldable pub addr_of : Bytes → List Element → Option ℕ
addr_of k [] = none
addr_of k (e ∷ es) = if bytes_eq e.key k then some e.addr else addr_of k es

abbrev pub Apart : Element → Element → Type 0
Apart e f = ((f.addr == e.addr) ≡ false) × (bytes_eq f.key e.key ≡ false)

abbrev pub AreApart : List Element → Type 0
AreApart [] = Unit
AreApart (e ∷ es) = All (Apart e) es × AreApart es

abbrev pub entry : Element → Bytes × Bytes
entry e = (e.key, e.content)

abbrev pub entries : List Element → List (Bytes × Bytes)
entries es = map entry es

abbrev pub total : List (Bytes × Bytes) → ℕ
total [] = 0
total ((k, d) ∷ m) = length d + total m

module _ (P : Element → Type 0) where
  pub All-list_remove : (a : ℕ) (es : List Element) → All P es → All P (list_remove a es)
  unfolding list_remove
  All-list_remove a [] h = tt
  All-list_remove a (e ∷ es) h = ground (arith, All-list_remove a es h.1)

  pub All-element_at :
      (a : ℕ) (es : List Element) (e : Element) → All P es → element_at a es ≡ some e → P e
  unfolding element_at
  All-element_at a [] e h i = cc
  All-element_at a (f ∷ es) e h i = elim (Bool-cases (f.addr == a)) [
    | inl here ↦ let same : f ≡ e = ground arith in subst P same h.0
    | inr other ↦ All-element_at a es e h.1 (rw other at i)
  ]

pub AreApart-list_remove : (a : ℕ) (es : List Element) → AreApart es → AreApart (list_remove a es)
unfolding list_remove
AreApart-list_remove a [] h = tt
AreApart-list_remove a (e ∷ es) h =
    ground (arith, AreApart-list_remove a es h.1, All-list_remove (Apart e) a es h.0)

-- An address that the list has for a key.
pub record Found (k : Bytes) (a : ℕ) (es : List Element) : Type 0 where
  pub elem : Element
  pub at : element_at a es ≡ some elem
  pub addr_is : elem.addr ≡ a
  pub key_is : elem.key ≡ k
  pub others : All (Apart elem) (list_remove a es)
  pub looked : lookup k (entries es) ≡ some elem.content
  pub removed : remove k (entries es) ≡ entries (list_remove a es)
  pub addrs :
      (j : Bytes) → addr_of j (list_remove a es) ≡ (if bytes_eq k j then none else addr_of j es)

pub remove-Apart :
    (e : Element) (es : List Element) → All (Apart e) es → remove e.key (entries es) ≡ entries es
unfolding remove
remove-Apart e [] h = refl
remove-Apart e (f ∷ es) h = ground (arith, remove-Apart e es h.1)

pub addr_of-Apart : (e : Element) (es : List Element) → All (Apart e) es → addr_of e.key es ≡ none
unfolding addr_of
addr_of-Apart e [] h = refl
addr_of-Apart e (f ∷ es) h = ground (arith, addr_of-Apart e es h.1)

addr_of_tail :
    (e : Element) (es : List Element) (j : Bytes)
    → All (Apart e) es
    → addr_of j es ≡ (if bytes_eq e.key j then none else addr_of j (e ∷ es))
unfolding addr_of
addr_of_tail e es j h = elim (Bool-cases (bytes_eq e.key j)) [
  | inl same ↦
      rw same
        (subst (λ k. addr_of k es ≡ none) ((bytes_eq_iff e.key j).0 same) (addr_of-Apart e es h))
  | inr other ↦ rw other refl
]

list_remove_head :
    (a : ℕ) (e : Element) (es : List Element) → e.addr ≡ a → list_remove a (e ∷ es) ≡ es
unfolding list_remove
list_remove_head a e es h = ground arith

pub list_remove_tail :
    (a : ℕ) (e : Element) (es : List Element)
    → (a == e.addr) ≡ false
    → list_remove a (e ∷ es) ≡ e ∷ list_remove a es
unfolding list_remove
list_remove_tail a e es h = ground arith

lookup_head : (x : Bytes × Bytes) (m : List (Bytes × Bytes)) → lookup x.0 (x ∷ m) ≡ some x.1
unfolding lookup
lookup_head x m = ground (arith, bytes_eq_iff x.0 x.0)

found_here : (e : Element) (es : List Element) → All (Apart e) es → Found e.key e.addr (e ∷ es)
unfolding element_at remove
found_here e es h =
    let rest = list_remove_head e.addr e es refl in
    record {
      elem = e;
      at = ground arith;
      addr_is = refl;
      key_is = refl;
      others = subst (All (Apart e)) (sym rest) h;
      looked = lookup_head (entry e) (entries es);
      removed = rw rest (ground (arith, remove-Apart e es h, bytes_eq_iff e.key e.key));
      addrs = λ j. rw rest (addr_of_tail e es j h);
    }

addr_of_later :
    (e : Element) (es : List Element) (k j : Bytes) (o : Option ℕ)
    → bytes_eq e.key k ≡ false
    → o ≡ (if bytes_eq k j then none else addr_of j es)
    → (if bytes_eq e.key j then some e.addr else o)
      ≡ (if bytes_eq k j then none else addr_of j (e ∷ es))
unfolding addr_of
addr_of_later e es k j o h i =
    ground (arith, bytes_eq_iff k j, bytes_eq_iff e.key j, bytes_eq_iff e.key k)

Apart-swap : (e f : Element) → Apart e f → Apart f e
Apart-swap e f h = ground (arith, bytes_eq_iff e.key f.key, bytes_eq_iff f.key e.key)

removed_later :
    (e : Element) (es : List Element) (k : Bytes)
    → bytes_eq e.key k ≡ false
    → remove k (entries (e ∷ es)) ≡ entry e ∷ remove k (entries es)
unfolding remove
removed_later e es k h = ground arith

lookup_later :
    (e : Element) (es : List Element) (k : Bytes)
    → bytes_eq e.key k ≡ false
    → lookup k (entries (e ∷ es)) ≡ lookup k (entries es)
unfolding lookup
lookup_later e es k h = ground arith

element_at_later :
    (e : Element) (es : List Element) (a : ℕ)
    → (a == e.addr) ≡ false
    → element_at a (e ∷ es) ≡ element_at a es
unfolding element_at
element_at_later e es a h = ground arith

found_later :
    (e : Element) (es : List Element) (k : Bytes) (a : ℕ)
    → bytes_eq e.key k ≡ false
    → All (Apart e) es
    → Found k a es
    → Found k a (e ∷ es)
unfolding addr_of
found_later e es k a other h r =
    let apart = All-element_at (Apart e) a es r.elem h r.at in
    let away : (a == e.addr) ≡ false = rw (r.addr_is) at apart.0 in
    let rest = list_remove_tail a e es away in
    record {
      elem = r.elem;
      at = element_at_later e es a away ∙ r.at;
      addr_is = r.addr_is;
      key_is = r.key_is;
      others = subst (All (Apart r.elem)) (sym rest) (Apart-swap e r.elem apart, r.others);
      looked = lookup_later e es k other ∙ r.looked;
      removed = rw (rest, removed_later e es k other, r.removed) refl;
      addrs =
          λ j. rw rest (addr_of_later e es k j (addr_of j (list_remove a es)) other (r.addrs j));
    }

-- Where the map points for a key, the element with the key is.
pub addr_of-Found :
    (k : Bytes) (a : ℕ) (es : List Element) → AreApart es → addr_of k es ≡ some a → Found k a es
unfolding addr_of
addr_of-Found k a [] h i = cc
addr_of-Found k a (e ∷ es) h i = elim (Bool-cases (bytes_eq e.key k)) [
  | inl here ↦
      let addr_is : e.addr ≡ a = ground arith in
      subst₂ (λ j b. Found j b (e ∷ es)) ((bytes_eq_iff e.key k).0 here) addr_is
        (found_here e es h.0)
  | inr other ↦ found_later e es k a other h.0 (addr_of-Found k a es h.1 (rw other at i))
]
