-- ===== src/Pathmux/Add/Places.antt =====
-- Which child has which first byte, after a static child of pathmux/tree.go was replaced and moved,
-- or added.
use skipper.Prelude.{
  ℕ, ◌≡◌, refl, ◌∙◌, ap, sym, true, false, none, some, Option, ◌==◌, ltb, if◌then◌else◌, Bool-cases,
  inl, inr, arith,
}
use skipper.Pathmux.Search.{Node, Children, no_children, child}
use skipper.Pathmux.Search.Entries.{has_index, are_valid}
use skipper.Pathmux.Search.Values.{first_of}
use skipper.Pathmux.Search.NodeValues.{child_at, child_at-none}
use skipper.Pathmux.Add.{
  Place, put_back, sort_static_child, find_child, append_child, priority_of, placed,
}
use skipper.Pathmux.Add.Static.{disjoint, disjoint-tail, find_child-FoundAt, find_child-none}

child_at-put_back :
    (k : ℕ) (before after : Children)
    → are_valid before ≡ true
    → child_at k (put_back before after) ≡ first_of (child_at k before) (child_at k after)
unfolding put_back are_valid child_at
child_at-put_back k no_children after v = refl
child_at-put_back k (child i n before) after v =
    child_at-put_back k before (child i n after) (ground arith) ∙ elim (Bool-cases (i == k)) [
      | inl same ↦
          let fresh : has_index k before ≡ false = ground arith in
          rw (same, child_at-none k before fresh) refl
      | inr other ↦ rw other refl
    ]

child_at-sort_static_child :
    (k b : ℕ) (before : Children) (n : Node) (after : Children)
    → are_valid before ≡ true
    → has_index b before ≡ false
    → child_at k (sort_static_child before b n after)
      ≡ (if b == k then some n else first_of (child_at k before) (child_at k after))
unfolding sort_static_child are_valid child_at
child_at-sort_static_child k b no_children n after v h = refl
child_at-sort_static_child k b (child j m before) n after v h =
    let moved =
      child_at-sort_static_child k b before n (child j m after) (ground arith) (ground arith) in
    let stays = child_at-put_back k (child j m before) (child b n after) v in
    elim (Bool-cases (ltb (priority_of m) (priority_of n))) [
      | inl up ↦ rw up (
          moved ∙ elim (Bool-cases (j == k)) [
            | inl same ↦
                let fresh : has_index k before ≡ false = ground arith in
                rw (same, child_at-none k before fresh) refl
            | inr other ↦ rw other refl
          ])
      | inr here ↦ rw here (
          stays ∙ elim (Bool-cases (b == k)) [
            | inl same ↦
                let fresh : has_index k before ≡ false = ground arith in
                let apart : (j == k) ≡ false = ground arith in
                rw (same, apart, child_at-none k before fresh) refl
            | inr other ↦ rw other refl
          ])
    ]

child_at-append_child :
    (k b : ℕ) (cs : Children) (n : Node)
    → has_index b cs ≡ false
    → child_at k (append_child cs b n) ≡ (if b == k then some n else child_at k cs)
unfolding append_child child_at
child_at-append_child k b no_children n h = refl
child_at-append_child k b (child j m cs) n h =
    rw (child_at-append_child k b cs n (ground arith)) (elim (Bool-cases (j == k)) [
      | inl same ↦ let apart : (b == k) ≡ false = ground arith in rw (same, apart) refl
      | inr other ↦ rw other refl
    ])

-- The child that is found is the first with the byte, and the others are those before and after it.
pub find_child-child_at :
    (b : ℕ) (before cs : Children) (x : Place)
    → find_child b before cs ≡ some x
    → child_at b cs ≡ some x.found
unfolding find_child child_at
find_child-child_at b before no_children x e = absurd (ground arith)
find_child-child_at b before (child i n cs) x e = elim (Bool-cases (b == i)) [
  | inl same ↦
      let here : ◌≡◌ {A = Place} (record { before = before; found = n; after = cs }) x =
        ground arith in
      let turned : (i == b) ≡ true = ground arith in rw turned (ap (λ p. some p.found) here)
  | inr other ↦
      let turned : (i == b) ≡ false = ground arith in
      rw turned (find_child-child_at b (child i n before) cs x (rw other at e))
]

find_child-others :
    (b k : ℕ) (before cs : Children) (x : Place)
    → are_valid cs ≡ true
    → disjoint before cs ≡ true
    → (b == k) ≡ false
    → find_child b before cs ≡ some x
    → first_of (child_at k x.before) (child_at k x.after)
      ≡ first_of (child_at k before) (child_at k cs)
unfolding find_child child_at are_valid
find_child-others b k before no_children x v d h e = absurd (ground arith)
find_child-others b k before (child i n cs) x v d h e =
    let (tail, fresh) = disjoint-tail before cs i n d in
    elim (Bool-cases (b == i)) [
      | inl same ↦
          let here : ◌≡◌ {A = Place} (record { before = before; found = n; after = cs }) x =
            ground arith in
          let apart : (i == k) ≡ false = ground arith in
          rw apart (ap (λ p. first_of (child_at k p.before) (child_at k p.after)) (sym here))
      | inr other ↦
          find_child-others b k (child i n before) cs x (ground arith) (ground (arith, tail)) h
            (rw other at e)
          ∙ elim (Bool-cases (i == k)) [
            | inl same ↦
                let gone : has_index k before ≡ false = ground (arith, fresh) in
                rw (same, child_at-none k before gone) refl
            | inr apart ↦ rw apart refl
          ]
    ]

-- Whether it is replaced or added, the child with the byte is the new one, and the others stay.
pub child_at-placed :
    (k b : ℕ) (cs : Children) (n : Node) (o : Option Place)
    → are_valid cs ≡ true
    → find_child b no_children cs ≡ o
    → child_at k (placed cs o b n) ≡ (if b == k then some n else child_at k cs)
unfolding child_at are_valid
child_at-placed k b cs n none v e =
    child_at-append_child k b cs n (find_child-none b no_children cs e)
child_at-placed k b cs n (some x) v e =
    let at = find_child-FoundAt b no_children cs x refl v refl e in
    child_at-sort_static_child k b x.before n x.after at.before_valid at.not_before
    ∙ elim (Bool-cases (b == k)) [
      | inl same ↦ rw same refl
      | inr other ↦ rw other (find_child-others b k no_children cs x v refl other e)
    ]
