-- ===== src/Pathmux/Add/Split.antt =====
-- The child that addPath of pathmux/tree.go goes on with: splitCommonPrefix and a raised priority keep
-- the values below it.
use skipper.Prelude.{
  ℕ, ◌+◌, ◌>>=◌, ◌≡◌, refl, ◌∙◌, ap, sym, Bool, true, false, ◌&&◌, List, [], ◌∷◌, ◌++◌, Option,
  none, some, ◌==◌, take, drop, length, if◌then◌else◌, Bool-cases, Option-cases, inl, inr, arith,
}
use skipper.Pathmux.Search.{
  Node, node, Children, no_children, child, Child, nil, path_of, after_prefix,
}
use skipper.Pathmux.Search.Entries.{
  Segment, literal, wildcard, free_wildcard, Entry, prefixed, below, entries, entries_children,
}
use skipper.Pathmux.Search.Values.{
  same_pattern, value_in, value_of, value_after, same_pattern-prefixed, value_in-append,
  value_in-prefixed, strip,
}
use skipper.Pathmux.Search.NodeValues.{value_at, first_of-none}
use skipper.Pathmux.Add.{
  Place, AddError, no_error, token_of, has_wildcard, common_prefix_len, split_common_prefix, raise,
  first_byte, next_child, new_node,
}
use skipper.Pathmux.Add.Patterns.{Takes, token-Takes, take-length, split_common_prefix-take}

abbrev pub succeeded : AddError → Bool
succeeded no_error = true
succeeded _ = false

-- The map with a value for one pattern, if the path could be added.
abbrev pub inserted : Bool → List Segment → ℕ → List Segment → Option ℕ → Option ℕ
inserted ok t v s old = if ok && same_pattern s t then some v else old

value_after-append :
    (a c : List ℕ) (s : List Segment) (es fs : List Entry)
    → ((r : List Segment) → value_in r fs ≡ value_after (strip c r) es)
    → value_after (strip a s) fs ≡ value_after (strip (a ++ c) s) es
unfolding strip
value_after-append [] c s es fs h = h s
value_after-append (p ∷ a) c [] es fs h = refl
value_after-append (p ∷ a) c (literal b ∷ s) es fs h = elim (Bool-cases (p == b)) [
  | inl same ↦ rw same (value_after-append a c s es fs h)
  | inr other ↦ rw other refl
]
value_after-append (p ∷ a) c (wildcard ∷ s) es fs h = refl
value_after-append (p ∷ a) c (free_wildcard ∷ s) es fs h = refl

take-common : (p t : List ℕ) → take (common_prefix_len p t) t ++ drop (common_prefix_len p t) p ≡ p
unfolding common_prefix_len
take-common [] t = refl
take-common (x ∷ p) [] = refl
take-common (x ∷ p) (y ∷ t) = elim (Bool-cases (x == y)) [
  | inl same ↦
      let eq : y ≡ x = ground arith in
      rw same (
        ap (λ z. z ∷ (take (common_prefix_len p t) t ++ drop (common_prefix_len p t) p)) eq
        ∙ ap (λ z. x ∷ z) (take-common p t))
  | inr other ↦ rw other refl
]

-- The entries of a node do not have its own path and priority.
entries-node :
    (p q : List ℕ) (pr qr : ℕ) (cs : Children) (w c : Child) (ca da : Bool) (leaf : Option ℕ)
    → entries (node p pr cs w c ca leaf) ≡ entries (node q qr cs w c da leaf)
unfolding entries
entries-node p q pr qr cs w c ca da none = refl
entries-node p q pr qr cs w c ca da (some v) = refl

value_of-single :
    (p : List ℕ) (pr i : ℕ) (n : Node) (s : List Segment)
    → value_of (node p pr (child i n no_children) nil nil false none) s ≡ value_at (some n) s
unfolding entries entries_children value_in
value_of-single p pr i n s =
    let es = below (prefixed (path_of n)) (entries n) in
    value_in-append s (es ++ []) []
    ∙ first_of-none (value_in s (es ++ []))
    ∙ value_in-append s es []
    ∙ first_of-none (value_in s es)
    ∙ value_in-prefixed (path_of n) s (entries n)

-- A split keeps the values.
split_common_prefix-value_at :
    (n : Node) (token : List ℕ) (s : List Segment)
    → value_at (some (split_common_prefix n token).0) s ≡ value_at (some n) s
unfolding split_common_prefix entries entries_children
split_common_prefix-value_at (node p pr cs w c ca leaf) token s =
    elim (Option-cases (after_prefix p token)) [
      | inl h ↦
          let i = common_prefix_len p token in
          let old = node (drop i p) pr cs w c ca leaf in
          rw (h, split_common_prefix)
            (value_after-append (take i token) (drop i p) s (entries old)
                (entries (
                  node (take i token) pr (child (first_byte (drop i p)) old no_children) nil nil
                    false none))
                (value_of-single (take i token) pr (first_byte (drop i p)) old)
              ∙ ap (λ q. value_after (strip q s) (entries old)) (take-common p token)
              ∙ ap (value_after (strip p s)) (entries-node (drop i p) p pr pr cs w c ca ca leaf))
      | inr (r, h) ↦ rw (h, split_common_prefix) refl
    ]

pub succeeded_at :
    (q : List ℕ) (s t : List Segment) (ok : Bool) (v : ℕ) (es fs : List Entry)
    → ((r : List Segment) → value_in r fs ≡ inserted ok t v r (value_in r es))
    → value_after (strip q s) fs ≡ inserted ok (prefixed q t) v s (value_after (strip q s) es)
succeeded_at q s t ok v es fs h =
    rw (same_pattern-prefixed q s t)
      (elim (Option-cases (strip q s)) [ inl e ↦ rw e (ground arith) | inr (r, e) ↦ rw e (h r) ])

raise-value_at : (n : Node) (s : List Segment) → value_at (some (raise n)) s ≡ value_at (some n) s
raise-value_at (node p pr cs w c ca leaf) s =
    ap (value_after (strip p s)) (entries-node p p (pr + 1) pr cs w c ca ca leaf)

pub new_node-value_at :
    (token : List ℕ) (s : List Segment) → value_at (some (new_node token false)) s ≡ none
unfolding entries value_in
new_node-value_at token s = elim (Option-cases (strip token s)) [
  | inl e ↦ rw e refl
  | inr (r, e) ↦ rw e refl
]

-- The child that addPath goes on with has the values of the child that was there.
pub next_child-value_at :
    (o : Option Place) (token : List ℕ) (s : List Segment)
    → value_at (some (next_child o token).0) s ≡ value_at (o >>= (λ x. some x.found)) s
next_child-value_at none token s = new_node-value_at token s
next_child-value_at (some x) token s =
    raise-value_at (split_common_prefix x.found token).0 s
    ∙ split_common_prefix-value_at x.found token s

pub raise-path_of : (n : Node) → path_of (raise n) ≡ path_of n
raise-path_of (node p pr cs w c ca leaf) = refl

pub next_child-Takes :
    (o : Option Place) (b : ℕ) (bs : List ℕ)
    → has_wildcard (token_of (b ∷ bs)) ≡ false
    → let next = next_child o (token_of (b ∷ bs)) in Takes next.0 next.1 (b ∷ bs)
next_child-Takes none b bs h =
    let token = token_of (b ∷ bs) in
    token-Takes (new_node token false) (length token) b bs (sym (take-length token)) (omega arith) h
next_child-Takes (some x) b bs h =
    let token = token_of (b ∷ bs) in
    let (e, le) = split_common_prefix-take x.found token in
    let split = split_common_prefix x.found token in
    token-Takes (raise split.0) split.1 b bs (raise-path_of split.0 ∙ e) le h
