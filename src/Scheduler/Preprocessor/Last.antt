-- ===== src/Scheduler/Preprocessor/Last.antt =====
-- registryPreProcessor.Do of scheduler/scheduler.go against what it promises: a filter goes when a
-- later one of its name follows.
use skipper.Prelude.{
  ℕ, ◌-◌, ◌≤◌, ◌≡◌, refl, ap, sym, ◌∙◌, String, Bool, false, List, [], ◌∷◌, ◌&&◌, ltb, any, ◌||◌,
  if◌then◌else◌, str_eq, str_eq_iff, Bool-cases, inl, inr, arith,
}
use skipper.Scheduler.Preprocessor.{
  Filter, Route, fifo_name, lifo_name, count_named, drop_counted, remove_non_last,
  pre_process_route,
}

abbrev pub is_named : {A : Type 0} → String → Filter A → Bool
is_named name f = str_eq f.name name

-- The filters without those of the name that a later one of the name follows.
abbrev pub last_only : {A : Type 0} → String → List (Filter A) → List (Filter A)
last_only name [] = []
last_only name (f ∷ fs) =
    if is_named name f && any (is_named name) fs then last_only name fs else f ∷ last_only name fs

module _ {A : Type 0} where
  any-count_named :
      (name : String) (fs : List (Filter A)) → any (is_named name) fs ≡ ltb 0 (count_named name fs)
  unfolding count_named
  any-count_named name [] = refl
  any-count_named name (f ∷ fs) = ground (arith, any-count_named name fs)

  last_only-none :
      (name : String) (fs : List (Filter A))
      → any (is_named name) fs ≡ false
      → last_only name fs ≡ fs
  last_only-none name [] h = refl
  last_only-none name (f ∷ fs) h = ground (arith, last_only-none name fs)

  drop_counted-one :
      (name : String) (n : ℕ) (fs : List (Filter A)) → n ≤ 1 → drop_counted name n fs ≡ fs
  unfolding drop_counted
  drop_counted-one name n [] h = refl
  drop_counted-one name n (f ∷ fs) h = ground (arith, drop_counted-one name n fs)

  drop_counted-last_only :
      (name : String) (n : ℕ) (fs : List (Filter A))
      → n ≡ count_named name fs
      → drop_counted name n fs ≡ last_only name fs
  unfolding drop_counted count_named
  drop_counted-last_only name n [] h = refl
  drop_counted-last_only name n (f ∷ fs) h = ground (
    arith,
    any-count_named name fs,
    last_only-none name fs,
    drop_counted-one name n fs,
    drop_counted-last_only name n fs,
    drop_counted-last_only name (n - 1) fs,
  )

  remove_non_last-last_only :
      (name : String) (fs : List (Filter A))
      → remove_non_last name (count_named name fs) fs ≡ last_only name fs
  unfolding remove_non_last
  remove_non_last-last_only name fs = ground (
    arith,
    drop_counted-last_only name (count_named name fs) fs,
    drop_counted-one name (count_named name fs) fs,
  )

  count_named-last_only :
      (name other : String) (fs : List (Filter A))
      → str_eq name other ≡ false
      → count_named other (last_only name fs) ≡ count_named other fs
  unfolding count_named
  count_named-last_only name other [] h = refl
  count_named-last_only name other (f ∷ fs) h =
      ground (arith, str_eq_iff f.name name, count_named-last_only name other fs)

  -- The filters of a route that stay after preprocessing are those that no later fifo follows, if
  -- they are a fifo, and no later lifo, if they are a lifo; they keep their order.
  pub pre_process_route-last_only :
      (r : Route A)
      → pre_process_route r
        ≡ record r { filters = last_only lifo_name (last_only fifo_name r.filters) }
  unfolding pre_process_route
  pre_process_route-last_only r =
      ap (λ fs. record r { filters = fs })
        (ap (remove_non_last lifo_name (count_named lifo_name r.filters))
            (remove_non_last-last_only fifo_name r.filters)
          ∙ ap (λ n. remove_non_last lifo_name n (last_only fifo_name r.filters))
              (sym (count_named-last_only fifo_name lifo_name r.filters refl))
          ∙ remove_non_last-last_only lifo_name (last_only fifo_name r.filters))

  any-last_only :
      (name : String) (fs : List (Filter A))
      → any (is_named name) (last_only name fs) ≡ any (is_named name) fs
  any-last_only name [] = refl
  any-last_only name (f ∷ fs) = ground (arith, any-last_only name fs)

  count_named-last_only_same :
      (name : String) (fs : List (Filter A))
      → count_named name (last_only name fs) ≡ (if any (is_named name) fs then 1 else 0)
  unfolding count_named
  count_named-last_only_same name [] = refl
  count_named-last_only_same name (f ∷ fs) = ground (arith, count_named-last_only_same name fs)

  -- How many filters of a name are left.
  abbrev pub left : String → String → List (Filter A) → ℕ
  left name other fs =
      if str_eq other name then (if any (is_named name) fs then 1 else 0) else count_named name fs

  count_named-last_only-left :
      (name other : String) (fs : List (Filter A))
      → count_named name (last_only other fs) ≡ left name other fs
  count_named-last_only-left name other fs = elim (Bool-cases (str_eq other name)) [
    | inl same ↦
        let e : other ≡ name = (str_eq_iff other name).0 same in
        rw same (ap (λ o. count_named name (last_only o fs)) e ∙ count_named-last_only_same name fs)
    | inr apart ↦ rw apart (count_named-last_only other name fs apart)
  ]

  -- After preprocessing a route has one fifo if it had any and none otherwise, one lifo if it had
  -- any and none otherwise, and as many filters of every other name as before.
  pub count_named-pre_process_route :
      (r : Route A) (name : String)
      → count_named name (pre_process_route r).filters ≡ (
          if str_eq fifo_name name || str_eq lifo_name name
          then (if any (is_named name) r.filters then 1 else 0)
          else count_named name r.filters)
  count_named-pre_process_route r name =
      let kept : List (Filter A) = last_only fifo_name r.filters in
      ap (λ x. count_named name x.filters) (pre_process_route-last_only r)
      ∙ ground (
        arith,
        count_named-last_only-left name lifo_name kept,
        count_named-last_only-left name fifo_name r.filters,
        any-count_named name kept,
        any-count_named name r.filters,
      )
