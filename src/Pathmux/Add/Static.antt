-- ===== src/Pathmux/Add/Static.antt =====
-- The static children of pathmux/tree.go stay valid where one of them is replaced, moved or added.
use skipper.Prelude.{
  ℕ, ◌≡◌, refl, subst, Bool, true, false, ◌&&◌, not, none, some, ◌==◌, ltb, if◌then◌else◌,
  Bool-cases, inl, inr, arith,
}
use skipper.Pathmux.Search.{Node, Children, no_children, child, path_of}
use skipper.Pathmux.Search.Entries.{starts_with, has_index, is_valid, are_valid}
use skipper.Pathmux.Add.{Place, put_back, sort_static_child, find_child, append_child, priority_of}

abbrev pub disjoint : Children → Children → Bool
disjoint no_children after = true
disjoint (child i n before) after = not (has_index i after) && disjoint before after

pub disjoint-add :
    (before after : Children) (i : ℕ) (n : Node)
    → disjoint before after ≡ true
    → has_index i before ≡ false
    → disjoint before (child i n after) ≡ true
disjoint-add no_children after i n d h = refl
disjoint-add (child j m before) after i n d h = ground (arith, disjoint-add before after i n)

pub disjoint-tail :
    (before after : Children) (i : ℕ) (n : Node)
    → disjoint before (child i n after) ≡ true
    → (disjoint before after ≡ true) × (has_index i before ≡ false)
disjoint-tail no_children after i n d = (refl, refl)
disjoint-tail (child j m before) after i n d = ground (arith, disjoint-tail before after i n)

put_back-are_valid :
    (before after : Children)
    → are_valid before ≡ true
    → are_valid after ≡ true
    → disjoint before after ≡ true
    → are_valid (put_back before after) ≡ true
unfolding put_back are_valid
put_back-are_valid no_children after v w d = w
put_back-are_valid (child i n before) after v w d =
    put_back-are_valid before (child i n after) (ground arith) (ground arith)
      (disjoint-add before after i n (ground arith) (ground arith))

pub sort_static_child-are_valid :
    (before : Children) (i : ℕ) (n : Node) (after : Children)
    → are_valid before ≡ true
    → are_valid after ≡ true
    → disjoint before after ≡ true
    → has_index i before ≡ false
    → has_index i after ≡ false
    → starts_with i (path_of n) ≡ true
    → is_valid n ≡ true
    → are_valid (sort_static_child before i n after) ≡ true
unfolding sort_static_child are_valid
sort_static_child-are_valid no_children i n after v w d h k s u = ground arith
sort_static_child-are_valid (child j m before) i n after v w d h k s u =
    let moved =
      sort_static_child-are_valid before i n (child j m after) (ground arith) (ground arith)
        (disjoint-add before after j m (ground arith) (ground arith)) (ground arith) (ground arith)
        s u in
    let stays =
      put_back-are_valid (child j m before) (child i n after) v (ground arith)
        (disjoint-add (child j m before) after i n d h) in
    elim (Bool-cases (ltb (priority_of m) (priority_of n))) [
      | inl up ↦ rw up moved
      | inr here ↦ rw here stays
    ]

-- What find_child finds, where before has none of the children that are left.
pub record FoundAt (b : ℕ) (x : Place) : Type 0 where
  pub before_valid : are_valid x.before ≡ true
  pub after_valid : are_valid x.after ≡ true
  pub apart : disjoint x.before x.after ≡ true
  pub not_before : has_index b x.before ≡ false
  pub not_after : has_index b x.after ≡ false
  pub starts : starts_with b (path_of x.found) ≡ true
  pub valid : is_valid x.found ≡ true

pub find_child-FoundAt :
    (b : ℕ) (before cs : Children) (x : Place)
    → are_valid before ≡ true
    → are_valid cs ≡ true
    → disjoint before cs ≡ true
    → find_child b before cs ≡ some x
    → FoundAt b x
unfolding find_child are_valid
find_child-FoundAt b before no_children x v w d e = absurd (ground arith)
find_child-FoundAt b before (child i n cs) x v w d e =
    let (tail, fresh) = disjoint-tail before cs i n d in
    elim (Bool-cases (b == i)) [
      | inl same ↦
          let here : ◌≡◌ {A = Place} (record { before = before; found = n; after = cs }) x =
            ground arith in
          subst (FoundAt b) here (record {
            before_valid = v;
            after_valid = ground arith;
            apart = tail;
            not_before = ground (arith, fresh);
            not_after = ground arith;
            starts = ground arith;
            valid = ground arith;
          })
      | inr other ↦
          find_child-FoundAt b (child i n before) cs x (ground (arith, fresh)) (ground arith)
            (ground (arith, tail)) (rw other at e)
    ]

pub find_child-none :
    (b : ℕ) (before cs : Children) → find_child b before cs ≡ none → has_index b cs ≡ false
unfolding find_child
find_child-none b before no_children e = refl
find_child-none b before (child i n cs) e = ground (arith, find_child-none b (child i n before) cs)

has_index-append_child :
    (i b : ℕ) (n : Node) (cs : Children)
    → has_index i (append_child cs b n) ≡ (if has_index i cs then true else b == i)
unfolding append_child
has_index-append_child i b n no_children = ground arith
has_index-append_child i b n (child j m cs) = ground (arith, has_index-append_child i b n cs)

pub append_child-are_valid :
    (cs : Children) (b : ℕ) (n : Node)
    → are_valid cs ≡ true
    → has_index b cs ≡ false
    → starts_with b (path_of n) ≡ true
    → is_valid n ≡ true
    → are_valid (append_child cs b n) ≡ true
unfolding append_child are_valid
append_child-are_valid no_children b n v h s u = ground arith
append_child-are_valid (child j m cs) b n v h s u =
    ground (arith, append_child-are_valid cs b n, has_index-append_child j b n cs)
