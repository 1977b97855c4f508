-- ===== src/Pathmux/Add/Plain.antt =====
-- The paths that addPath of pathmux/tree.go adds to any tree: those whose wildcards are whole
-- segments, and which have no free wildcard.
use skipper.Prelude.{
  ℕ, zero, suc, ◌≡◌, ◌≢◌, ◌≤◌, refl, ◌∙◌, ap, Bool, true, false, ◌||◌, List, [], ◌∷◌, ◌++◌, some,
  ◌==◌, drop, length, if◌then◌else◌, Bool-cases, inl, inr, arith,
}
use skipper.Pathmux.Search.{Node, node, no_children, slash, path_of, this_token, next_token}
use skipper.Pathmux.Search.Entries.{Segment, is_valid}
use skipper.Pathmux.Search.Values.{value_of, same_pattern}
use skipper.Pathmux.Add.{
  AddError, no_error, other_catch_all, slash_after_catch_all, wildcard_in_middle, out_of_fuel,
  token_of, has_wildcard, find_child, child_or_new, next_child, wildcard_path, add_path,
}
use skipper.Pathmux.Add.Patterns.{pattern_of}
use skipper.Pathmux.Add.Split.{succeeded, inserted, next_child-Takes}
use skipper.Pathmux.Add.Insert.{add_path-inserted}
use skipper.Pathmux.Add.Enough.{add_path-enough}

-- Where a path is read: before a segment, in a literal one, or in the name of a wildcard.
pub data Reading : Type 0 where
  before_segment : Reading
  in_literal : Reading
  in_name : Reading

unfoldable pub is_plain_from : Reading → List ℕ → Bool
is_plain_from r [] = true
is_plain_from before_segment (b ∷ bs) =
    if b == 42
    then false
    else if b == 58
    then is_plain_from in_name bs
    else if b == slash
    then is_plain_from before_segment bs
    else is_plain_from in_literal bs
is_plain_from in_literal (b ∷ bs) =
    if b == 42 || b == 58
    then false
    else if b == slash
    then is_plain_from before_segment bs
    else is_plain_from in_literal bs
is_plain_from in_name (b ∷ bs) =
    if b == slash then is_plain_from before_segment bs else is_plain_from in_name bs

abbrev pub is_plain : List ℕ → Bool
is_plain path = is_plain_from before_segment path

in_literal-is_plain : (bs : List ℕ) → is_plain_from in_literal bs ≡ true → is_plain bs ≡ true
unfolding is_plain_from
in_literal-is_plain [] h = refl
in_literal-is_plain (b ∷ bs) h = ground arith

in_name-is_plain : (bs : List ℕ) → is_plain_from in_name bs ≡ true → is_plain (next_token bs) ≡ true
unfolding is_plain_from next_token
in_name-is_plain [] h = refl
in_name-is_plain (b ∷ bs) h = ground (arith, in_name-is_plain bs)

in_literal-has_wildcard :
    (bs : List ℕ) → is_plain_from in_literal bs ≡ true → has_wildcard (this_token bs) ≡ false
unfolding is_plain_from this_token
in_literal-has_wildcard [] h = refl
in_literal-has_wildcard (b ∷ bs) h = ground (arith, in_literal-has_wildcard bs)

token-has_wildcard :
    (b : ℕ) (bs : List ℕ)
    → is_plain (b ∷ bs) ≡ true
    → (b == 58) ≡ false
    → has_wildcard (token_of (b ∷ bs)) ≡ false
unfolding is_plain_from
token-has_wildcard b bs h k = ground (arith, in_literal-has_wildcard bs)

-- What follows a text without wildcards in a plain path is plain.
rest-is_plain :
    (q rest : List ℕ) → has_wildcard q ≡ false → is_plain (q ++ rest) ≡ true → is_plain rest ≡ true
unfolding is_plain_from
rest-is_plain [] rest h k = k
rest-is_plain (b ∷ q) rest h k =
    let shorter : is_plain (q ++ rest) ≡ true = ground (arith, in_literal-is_plain (q ++ rest)) in
    rest-is_plain q rest (ground arith) shorter

-- No error but that of a recursion that has not ended.
abbrev is_fine : AddError → Bool
is_fine no_error = true
is_fine out_of_fuel = true
is_fine _ = false

fine-no_error : (e : AddError) → is_fine e ≡ true → e ≢ out_of_fuel → e ≡ no_error
fine-no_error no_error h k = refl
fine-no_error other_catch_all h k = absurd (ground arith)
fine-no_error slash_after_catch_all h k = absurd (ground arith)
fine-no_error wildcard_in_middle h k = absurd (ground arith)
fine-no_error out_of_fuel h k = absurd (k refl)

name-is_plain :
    (b : ℕ) (bs : List ℕ)
    → is_plain (b ∷ bs) ≡ true
    → (b == 58) ≡ true
    → is_plain (next_token (b ∷ bs)) ≡ true
unfolding is_plain_from next_token
name-is_plain b bs h colon = ground (arith, in_name-is_plain bs)

add_path-is_fine :
    (fuel : ℕ) (n : Node) (path : List ℕ) (v : ℕ)
    → is_plain path ≡ true
    → is_fine (add_path fuel n path v).error ≡ true
unfolding add_path is_plain_from
add_path-is_fine fuel n [] v h = refl
add_path-is_fine zero n (b ∷ bs) v h = refl
add_path-is_fine (suc fuel) (node p pr cs w c ca leaf) (b ∷ bs) v h =
    let no_free : (b == 42) ≡ false = ground arith in
    let place = find_child b no_children cs in
    let next = next_child place (token_of (b ∷ bs)) in
    let rest = drop next.1 (b ∷ bs) in
    elim (Bool-cases (b == 58)) [
      | inl colon ↦
          let child = child_or_new w wildcard_path false in
          rw (no_free, colon)
            (add_path-is_fine fuel child (next_token (b ∷ bs)) v (name-is_plain b bs h colon))
      | inr plain ↦
          let fine = token-has_wildcard b bs h plain in
          let (whole, no_wildcard) = next_child-Takes place b bs fine in
          let left : is_plain rest ≡ true =
            rest-is_plain (path_of next.0) rest no_wildcard (rw whole h) in
          rw (no_free, plain, fine) (add_path-is_fine fuel next.0 rest v left)
    ]

-- Adding a path, whose wildcards are whole segments and of which none is a free wildcard, to a valid
-- tree with a fuel of its length or more succeeds: then the pattern that the path stands for has the
-- value, and all other patterns have the values that they had.
pub add_path-sets :
    (fuel : ℕ) (n : Node) (path : List ℕ) (v : ℕ)
    → is_valid n ≡ true
    → length path ≤ fuel
    → is_plain path ≡ true
    → let a = add_path fuel n path v in
      (a.error ≡ no_error)
      × ((s : List Segment)
          → value_of a.tree s ≡ (if same_pattern s (pattern_of path) then some v else value_of n s))
add_path-sets fuel n path v h le plain =
    let done =
      fine-no_error _ (add_path-is_fine fuel n path v plain)
        (add_path-enough fuel n path v h le).0 in
    (
      done,
      λ s.
          add_path-inserted fuel n path v s h
          ∙ ap (λ e. inserted (succeeded e) (pattern_of path) v s (value_of n s)) done,
    )
