-- ===== src/Routing/Matcher/Leaves.antt =====
-- The leaves that newMatcher of routing/matcher.go makes of the routes.
use skipper.Prelude.{
  ℕ, suc, ◌≡◌, refl, Bool, List, [], ◌∷◌, ◌++◌, Option, some, All, All-append, Option-cases,
  Bool-cases, ◌+◌, if◌then◌else◌, inl, inr, arith, subst, sym, ap, ◌∙◌, bind-eq-some, get_elem?,
}
use skipper.Prelude.Map.{lookup, All-insert, All-lookup}
use skipper.Prelude.Bytes.{Bytes, bytes_eq, bytes_key}
use skipper.Prelude.Sort.{sort_by, insert_by}
use skipper.Pathmux.Search.{Node}
use skipper.Pathmux.Add.{AddError, add}
use skipper.Routing.Matcher.{Route, Leaf, less}
use skipper.Routing.Matcher.Paths.{normalize_path, subtree_paths, trim_trailing_slash}
use skipper.Routing.Matcher.Build.{
  Compiled, get_compiled_rxs, get_header_rxs, new_leaf, PathMatchers, add_leaf_to_path,
  add_leaf_to_paths, Building, add_route, add_routes, add_tree_matchers,
}

some_injective : {A : Type 0} {a b : A} → some a ≡ some b → a ≡ b
some_injective h = ground arith

pub All-sorted :
    {A : Type 0} (less : A → A → Bool) (P : A → Type 0) (xs : List A)
    → All P xs
    → All P (sort_by less xs)
unfolding sort_by insert_by
All-sorted less P [] h = tt
All-sorted less P (x ∷ xs) h = inserted x (sort_by less xs) h.0 (All-sorted less P xs h.1)
  where
    inserted : (x : _) (ys : List _) → P x → All P ys → All P (insert_by less x ys)
    inserted x [] p a = (p, tt)
    inserted x (y ∷ ys) p a = ground (arith, inserted x ys p a.1)

module _ (Regexp : Type 0) (match_string : Regexp → Bytes → Bool) (compile : Bytes → Option Regexp)
    (clean canonical_header_key : Bytes → Bytes) where
  -- The leaf is that of one of the routes, with its method, weight and predicates.
  abbrev pub OneOf : List Route → Leaf Regexp match_string → Type 0
  OneOf rs l =
      (k : ℕ) × (get_elem? rs k ≡ some l.route)
      × (l.method ≡ l.route.method)
      × (l.weight ≡ l.route.weight)
      × (l.predicates ≡ l.route.predicates)
      × (l.exact_path ≡ [])

  new_leaf-route :
      (r : Route) (compiled : Compiled Regexp match_string compile clean canonical_header_key)
      (x : Compiled Regexp match_string compile clean canonical_header_key
        × Leaf Regexp match_string)
      → new_leaf Regexp match_string compile clean canonical_header_key r compiled ≡ some x
      → (x.1.route ≡ r)
        × (x.1.method ≡ r.method)
        × (x.1.weight ≡ r.weight)
        × (x.1.predicates ≡ r.predicates)
        × (x.1.exact_path ≡ [])
  unfolding new_leaf
  new_leaf-route r compiled x h =
      let (a, _, h₁) =
        bind-eq-some
          (get_compiled_rxs Regexp match_string compile clean canonical_header_key compiled
            r.host_regexps)
          _ h in
      let (b, _, h₂) =
        bind-eq-some
          (get_compiled_rxs Regexp match_string compile clean canonical_header_key a.0
            r.path_regexps)
          _ h₁ in
      let (c, _, h₃) =
        bind-eq-some
          (get_header_rxs Regexp match_string compile clean canonical_header_key b.0
            r.header_regexps)
          _ h₂ in
      subst
        (λ (y : Compiled Regexp match_string compile clean canonical_header_key
            × Leaf Regexp match_string).
          (y.1.route ≡ r)
          × (y.1.method ≡ r.method)
          × (y.1.weight ≡ r.weight)
          × (y.1.predicates ≡ r.predicates)
          × (y.1.exact_path ≡ []))
        (some_injective h₃) (refl, refl, refl, refl, refl)

  new_leaf-OneOf :
      (rs : List Route) (k : ℕ) (r : Route)
      (compiled : Compiled Regexp match_string compile clean canonical_header_key)
      (x : Compiled Regexp match_string compile clean canonical_header_key
        × Leaf Regexp match_string)
      → get_elem? rs k ≡ some r
      → new_leaf Regexp match_string compile clean canonical_header_key r compiled ≡ some x
      → OneOf rs x.1
  new_leaf-OneOf rs k r compiled x at h =
      let (route, method, weight, predicates, exact) = new_leaf-route r compiled x h in
      (
        k,
        at ∙ ap some (sym route),
        method ∙ ap (λ q. q.method) (sym route),
        weight ∙ ap (λ q. q.weight) (sym route),
        predicates ∙ ap (λ q. q.predicates) (sym route),
        exact,
      )

  -- All leaves so far are those of the routes.
  abbrev pub AllOneOf :
      List Route → PathMatchers Regexp match_string compile clean canonical_header_key → Type 0
  AllOneOf rs pms = All (λ pm. All (OneOf rs) pm.1) pms

  add_leaf_to_path-AllOneOf :
      (rs : List Route) (pms : PathMatchers Regexp match_string compile clean canonical_header_key)
      (path : Bytes) (l : Leaf Regexp match_string)
      → AllOneOf rs pms
      → OneOf rs l
      → AllOneOf rs
          (add_leaf_to_path Regexp match_string compile clean canonical_header_key pms path l)
  unfolding add_leaf_to_path
  add_leaf_to_path-AllOneOf rs pms path l h o = elim (Option-cases (lookup path pms)) [
    | inl e ↦
        rw (add_leaf_to_path, e)
          (All-insert (λ pm. All (OneOf rs) pm.1) path (l ∷ []) pms h (o, tt))
    | inr (ls, e) ↦
        let there = All-lookup (λ pm. All (OneOf rs) pm.1) path ls pms h e in
        rw (add_leaf_to_path, e)
          (All-insert (λ pm. All (OneOf rs) pm.1) path (ls ++ (l ∷ [])) pms h
            (All-append (OneOf rs) ls (l ∷ []) there (o, tt)))
  ]

  add_leaf_to_paths-AllOneOf :
      (rs : List Route) (pms : PathMatchers Regexp match_string compile clean canonical_header_key)
      (paths : List Bytes) (l : Leaf Regexp match_string)
      → AllOneOf rs pms
      → OneOf rs l
      → AllOneOf rs
          (add_leaf_to_paths Regexp match_string compile clean canonical_header_key pms paths l)
  add_leaf_to_paths-AllOneOf rs pms [] l h o = h
  add_leaf_to_paths-AllOneOf rs pms (p ∷ ps) l h o =
      add_leaf_to_paths-AllOneOf rs
        (add_leaf_to_path Regexp match_string compile clean canonical_header_key pms p l) ps l
        (add_leaf_to_path-AllOneOf rs pms p l h o) o

  abbrev pub Fine :
      List Route → Building Regexp match_string compile clean canonical_header_key → Type 0
  Fine rs b = All (OneOf rs) b.root_leaves × AllOneOf rs b.path_matchers

  add_route-Fine :
      (rs : List Route) (ignore : Bool)
      (b : Building Regexp match_string compile clean canonical_header_key) (k : ℕ) (r : Route)
      → get_elem? rs k ≡ some r
      → Fine rs b
      → Fine rs (add_route Regexp match_string compile clean canonical_header_key ignore b r)
  unfolding add_route
  add_route-Fine rs ignore b k r at h =
      elim (Option-cases
        (new_leaf Regexp match_string compile clean canonical_header_key r b.compiled)) [
          | inl e ↦ rw (add_route, e) h
          | inr (x, e) ↦
              let one = new_leaf-OneOf rs k r b.compiled x at e in
              elim (Option-cases (normalize_path clean r)) [
                | inl n ↦ rw (add_route, e, n) h
                | inr (path, n) ↦ elim (Bool-cases (bytes_eq r.path_subtree [])) [
                  | inr sub ↦
                      rw (add_route, e, n, sub)
                        (
                          h.0,
                          add_leaf_to_paths-AllOneOf rs b.path_matchers (subtree_paths ignore path)
                              x.1 h.1 one,
                        )
                  | inl whole ↦ elim (Bool-cases (bytes_eq r.path [])) [
                    | inl root ↦
                        rw (add_route, e, n, whole, root)
                          (All-append (OneOf rs) b.root_leaves (x.1 ∷ []) h.0 (one, tt), h.1)
                    | inr other ↦
                        rw (add_route, e, n, whole, other)
                          (
                            h.0,
                            add_leaf_to_path-AllOneOf rs b.path_matchers
                                (if ignore then trim_trailing_slash path else path) x.1 h.1 one,
                          )
                  ]
                ]
              ]
        ]

  pub add_routes-Fine :
      (rs part : List Route) (ignore : Bool)
      (b : Building Regexp match_string compile clean canonical_header_key)
      → ((j : ℕ) (r : Route) → get_elem? part j ≡ some r → (k : ℕ) × (get_elem? rs k ≡ some r))
      → Fine rs b
      → Fine rs (add_routes Regexp match_string compile clean canonical_header_key ignore b part)
  unfolding add_routes
  add_routes-Fine rs [] ignore b among h = h
  add_routes-Fine rs (r ∷ part) ignore b among h =
      let (k, at) = among 0 r refl in
      add_routes-Fine rs part ignore
        (add_route Regexp match_string compile clean canonical_header_key ignore b r)
        (λ j x e. among (suc j) x e) (add_route-Fine rs ignore b k r at h)

  pub add_tree_matchers-OneOf :
      (rs : List Route) (tree : Node) (n : ℕ)
      (pms : PathMatchers Regexp match_string compile clean canonical_header_key)
      (x : Node × List (List (Leaf Regexp match_string)) × List AddError)
      → AllOneOf rs pms
      → add_tree_matchers Regexp match_string compile clean canonical_header_key tree n pms ≡ some x
      → All (All (OneOf rs)) x.1
  unfolding add_tree_matchers
  add_tree_matchers-OneOf rs tree n [] x a h =
      subst (λ y. All (All (OneOf rs)) y.1) (some_injective h) tt
  add_tree_matchers-OneOf rs tree n ((p, ls) ∷ pms) x a h =
      let (added, _, h₁) = bind-eq-some (add tree p n) _ h in
      let (y, ran, h₂) =
        bind-eq-some
          (add_tree_matchers Regexp match_string compile clean canonical_header_key added.tree
            (n + 1) pms)
          _ h₁ in
      let rest = add_tree_matchers-OneOf rs added.tree (n + 1) pms y a.1 ran in
      subst (λ z. All (All (OneOf rs)) z.1) (some_injective h₂)
        (All-sorted (less Regexp match_string) (OneOf rs) ls a.0, rest)
