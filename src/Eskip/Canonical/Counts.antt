-- ===== src/Eskip/Canonical/Counts.antt =====
-- newRouteDefinition of eskip/eskip.go followed by Canonical of eskip/eq.go: each predicate that the
-- parser read is in the canonical route.
use skipper.Prelude.{
  ℕ, ◌+◌, Bool, true, false, not, ◌&&◌, ◌||◌, ◌≡◌, refl, List, [], ◌∷◌, ◌++◌, Option, none, some,
  if◌then◌else◌, count_of, count_of-append, map, length, Option-cases, Bool-cases, inl, inr, arith,
  ◌∙◌, subst, sym, ap,
}
use skipper.Prelude.Map.{lookup, insert}
use skipper.Prelude.Bytes.{Bytes, codes, bytes_eq, bytes_eq_iff, bytes_key}
use skipper.Prelude.Sort.{SliceSort}
use skipper.Eskip.Route.{Arg, string_arg, Predicate, Route, LbEndpoint, predicate}
use skipper.Eskip.Definition.{
  ParsedRoute, ok, strings, get_string_args, first_arg, second_arg, Applied, apply_predicate,
  apply_predicates, new_route_definition, bind-ok, ok_injective, check_endpoints, RouteError,
  parsed_fields, after_check,
}
use skipper.Eskip.Canonical.{
  has_path, path_predicates, method_predicates, host_predicate, path_regexp_predicate,
  header_predicate, header_regexp_predicate, header_regexp_predicates, legacy_predicates, canonical,
}

-- A predicate that takes any request: the wildcard, and a path or a method that is empty.
unfoldable pub is_void : Predicate → Bool
is_void p =
    bytes_eq p.name (codes "*")
    || bytes_eq p.name (codes "Any")
    || (bytes_eq p.name (codes "Path") || bytes_eq p.name (codes "Method"))
      && (elim p.args [ string_arg [] ∷ [] ↦ true | _ ↦ false ])

strings-map :
    (args : List Arg) (ss : List Bytes)
    → strings args ≡ some ss
    → (args ≡ map string_arg ss) × (length args ≡ length ss)
unfolding strings
strings-map [] ss h = ground arith
strings-map (string_arg s ∷ more) ss h = elim (Option-cases (strings more)) [
  | inl e ↦ ground arith
  | inr (ts, e) ↦ ground (arith, strings-map more ts e)
]
strings-map (_ ∷ more) ss h = cc

get_string_args-map :
    (p : Predicate) (n : ℕ) (ss : List Bytes)
    → get_string_args p n ≡ ok ss
    → (p.args ≡ map string_arg ss) × (length ss ≡ n)
unfolding get_string_args
get_string_args-map p n ss h = elim (Option-cases (strings p.args)) [
  | inl e ↦ ground arith
  | inr (ts, e) ↦ ground (arith, strings-map p.args ts e)
]

one_string : (ss : List Bytes) → length ss ≡ 1 → map string_arg ss ≡ string_arg (first_arg ss) ∷ []
one_string (s ∷ []) h = refl
one_string [] h = absurd (omega arith)
one_string (s ∷ t ∷ ss) h = absurd (omega arith)

two_strings :
    (ss : List Bytes)
    → length ss ≡ 2
    → map string_arg ss ≡ string_arg (first_arg ss) ∷ string_arg (second_arg ss) ∷ []
two_strings (s ∷ t ∷ []) h = refl
two_strings [] h = absurd (omega arith)
two_strings (s ∷ []) h = absurd (omega arith)
two_strings (s ∷ t ∷ u ∷ ss) h = absurd (omega arith)

one_argument :
    (p : Predicate) (ss : List Bytes)
    → get_string_args p 1 ≡ ok ss
    → p.args ≡ string_arg (first_arg ss) ∷ []
one_argument p ss h = let (whole, n) = get_string_args-map p 1 ss h in whole ∙ one_string ss n

two_arguments :
    (p : Predicate) (ss : List Bytes)
    → get_string_args p 2 ≡ ok ss
    → p.args ≡ string_arg (first_arg ss) ∷ string_arg (second_arg ss) ∷ []
two_arguments p ss h = let (whole, n) = get_string_args-map p 2 ss h in whole ∙ two_strings ss n

has_path_snoc :
    (ps : List Predicate) (p : Predicate)
    → has_path ps ≡ false
    → bytes_eq p.name (codes "Path") ≡ false
    → has_path (ps ++ p ∷ []) ≡ false
has_path_snoc [] p h e = ground arith
has_path_snoc (r ∷ ps) p h e = ground (arith, has_path_snoc ps p)

module _ (q : Predicate → Bool) where
  abbrev one : Predicate → ℕ
  one p = if q p then 1 else 0

  count_of-map_snoc :
      {A : Type 0} (f : A → Predicate) (xs : List A) (x : A)
      → count_of q (map f (xs ++ x ∷ [])) ≡ count_of q (map f xs) + one (f x)
  count_of-map_snoc f [] x = ground arith
  count_of-map_snoc f (y ∷ ys) x = ground (arith, count_of-map_snoc f ys x)

  count_of-insert_new :
      (k v : Bytes) (m : List (Bytes × Bytes))
      → lookup k m ≡ none
      → count_of q (map header_predicate (insert k v m))
        ≡ count_of q (map header_predicate m) + one (header_predicate (k, v))
  unfolding lookup insert
  count_of-insert_new k v [] h = ground arith
  count_of-insert_new k v ((j, w) ∷ m) h = ground (arith, count_of-insert_new k v m)

  count_of-insert_regexp :
      (k v : Bytes) (m : List (Bytes × List Bytes))
      → count_of q (
          header_regexp_predicates
            (insert k ((elim (lookup k m) [ none ↦ [] | some ws ↦ ws ]) ++ v ∷ []) m))
        ≡ count_of q (header_regexp_predicates m) + one (header_regexp_predicate k v)
  unfolding lookup insert
  count_of-insert_regexp k v [] = ground arith
  count_of-insert_regexp k v ((j, ws) ∷ m) = ground (
    arith,
    bytes_eq_iff j k,
    count_of-map_snoc (header_regexp_predicate j) ws v,
    count_of-append q (map (header_regexp_predicate j) ws) (header_regexp_predicates m),
    count_of-append q (map (header_regexp_predicate j) (ws ++ v ∷ [])) (header_regexp_predicates m),
    count_of-append q (map (header_regexp_predicate j) ws) (
        header_regexp_predicates
          (insert k ((elim (lookup k m) [ none ↦ [] | some us ↦ us ]) ++ v ∷ []) m)),
    count_of-insert_regexp k v m,
  )

  -- How many of the predicates of a route without a path predicate are counted.
  abbrev counted : Route → ℕ
  counted r =
      count_of q (method_predicates r.method)
      + count_of q r.predicates
      + count_of q (path_predicates false r.path)
      + count_of q (map host_predicate r.host_regexps)
      + count_of q (map path_regexp_predicate r.path_regexps)
      + count_of q (map header_predicate r.headers)
      + count_of q (header_regexp_predicates r.header_regexps)

  count_of_seven :
      (a b c d e f g : List Predicate)
      → count_of q (a ++ (b ++ (c ++ (d ++ (e ++ (f ++ g))))))
        ≡ count_of q a
          + count_of q b
          + count_of q c
          + count_of q d
          + count_of q e
          + count_of q f
          + count_of q g
  count_of_seven a b c d e f g = omega (
    arith,
    count_of-append q a (b ++ (c ++ (d ++ (e ++ (f ++ g))))),
    count_of-append q b (c ++ (d ++ (e ++ (f ++ g)))),
    count_of-append q c (d ++ (e ++ (f ++ g))),
    count_of-append q d (e ++ (f ++ g)),
    count_of-append q e (f ++ g),
    count_of-append q f g,
  )

  count_of-legacy_predicates :
      (r : Route) → has_path r.predicates ≡ false → count_of q (legacy_predicates r) ≡ counted r
  unfolding legacy_predicates
  count_of-legacy_predicates r h =
      count_of_seven (method_predicates r.method) r.predicates
        (path_predicates (has_path r.predicates) r.path) (map host_predicate r.host_regexps)
        (map path_regexp_predicate r.path_regexps) (map header_predicate r.headers)
        (header_regexp_predicates r.header_regexps)
      ∙ rw h refl

  -- What holds while the predicates are applied: a path or a method that was not set is empty.
  abbrev Fresh : Applied → Type 0
  Fresh (r, path_set, method_set) =
      (path_set ≡ false → r.path ≡ [])
      × (method_set ≡ false → r.method ≡ [])
      × (has_path r.predicates ≡ false)

  -- The next predicate is counted, unless it is void.
  abbrev Step : Applied → Predicate → Type 0
  Step a p =
      (b : Applied)
      → apply_predicate a p ≡ ok b
      → Fresh a
      → Fresh b × (counted b.0 ≡ counted a.0 + (if is_void p then 0 else one p))

  applied :
      (b c : Applied) (n : ℕ) → c ≡ b → Fresh c → counted c.0 ≡ n → Fresh b × (counted b.0 ≡ n)
  applied b c n e fresh h = subst (λ a. Fresh a × (counted a.0 ≡ n)) e (fresh, h)

  step_host : (a : Applied) (args : List Arg) → Step a (predicate (codes "Host") args)
  unfolding apply_predicate is_void bytes_eq
  step_host (r, ps, ms) args b h fresh =
      let (ss, got, e) = bind-ok (get_string_args (predicate (codes "Host") args) 1) _ h in
      let read = one_argument (predicate (codes "Host") args) ss got in
      let added = count_of-map_snoc host_predicate r.host_regexps (first_arg ss) in
      applied b _ _ (ok_injective e) fresh (rw read (omega (arith, added)))

  step_path_regexp : (a : Applied) (args : List Arg) → Step a (predicate (codes "PathRegexp") args)
  unfolding apply_predicate is_void bytes_eq
  step_path_regexp (r, ps, ms) args b h fresh =
      let (ss, got, e) = bind-ok (get_string_args (predicate (codes "PathRegexp") args) 1) _ h in
      let read = one_argument (predicate (codes "PathRegexp") args) ss got in
      let added = count_of-map_snoc path_regexp_predicate r.path_regexps (first_arg ss) in
      applied b _ _ (ok_injective e) fresh (rw read (omega (arith, added)))

  step_header_regexp :
      (a : Applied) (args : List Arg) → Step a (predicate (codes "HeaderRegexp") args)
  unfolding apply_predicate is_void bytes_eq
  step_header_regexp (r, ps, ms) args b h fresh =
      let (ss, got, e) = bind-ok (get_string_args (predicate (codes "HeaderRegexp") args) 2) _ h in
      let read = two_arguments (predicate (codes "HeaderRegexp") args) ss got in
      let added = count_of-insert_regexp (first_arg ss) (second_arg ss) r.header_regexps in
      applied b _ _ (ok_injective e) fresh (rw read (omega (arith, added)))

  step_header : (a : Applied) (args : List Arg) → Step a (predicate (codes "Header") args)
  unfolding apply_predicate is_void bytes_eq
  step_header (r, ps, ms) args b h fresh =
      let (ss, got, e) = bind-ok (get_string_args (predicate (codes "Header") args) 2) _ h in
      let read = two_arguments (predicate (codes "Header") args) ss got in
      elim (Option-cases (lookup (first_arg ss) r.headers)) [
        | inl new ↦
            let added = count_of-insert_new (first_arg ss) (second_arg ss) r.headers new in
            applied b
              (record r { headers = insert (first_arg ss) (second_arg ss) r.headers }, ps, ms) _
              (ground arith) fresh (rw read (omega (arith, added)))
        | inr (v, old) ↦ absurd (ground arith)
      ]

  path_counted :
      (s : Bytes)
      → let p = predicate (codes "Path") (string_arg s ∷ []) in
        count_of q (path_predicates false s) ≡ (if is_void p then 0 else one p)
  unfolding is_void bytes_eq
  path_counted [] = refl
  path_counted (c ∷ cs) = ground arith

  method_counted :
      (s : Bytes)
      → let p = predicate (codes "Method") (string_arg s ∷ []) in
        count_of q (method_predicates s) ≡ (if is_void p then 0 else one p)
  unfolding is_void bytes_eq
  method_counted [] = refl
  method_counted (c ∷ cs) = ground arith

  step_path : (a : Applied) (args : List Arg) → Step a (predicate (codes "Path") args)
  unfolding apply_predicate is_void bytes_eq
  step_path (r, true, ms) args b h fresh = absurd (ground arith)
  step_path (r, false, ms) args b h fresh =
      let (ss, got, e) = bind-ok (get_string_args (predicate (codes "Path") args) 1) _ h in
      let read = one_argument (predicate (codes "Path") args) ss got in
      applied b _ _ (ok_injective e) (λ q. cc, fresh.1, fresh.2)
        (rw (read, fresh.0 refl) (omega (arith, path_counted (first_arg ss))))

  step_method : (a : Applied) (args : List Arg) → Step a (predicate (codes "Method") args)
  unfolding apply_predicate is_void bytes_eq
  step_method (r, ps, true) args b h fresh = absurd (ground arith)
  step_method (r, ps, false) args b h fresh =
      let (ss, got, e) = bind-ok (get_string_args (predicate (codes "Method") args) 1) _ h in
      let read = one_argument (predicate (codes "Method") args) ss got in
      applied b _ _ (ok_injective e) (fresh.0, λ q. cc, fresh.2)
        (rw (read, fresh.1 refl) (omega (arith, method_counted (first_arg ss))))

  -- A predicate of another name.
  step_other :
      (a : Applied) (p : Predicate)
      → bytes_eq p.name (codes "Path") ≡ false
      → bytes_eq p.name (codes "Host") ≡ false
      → bytes_eq p.name (codes "PathRegexp") ≡ false
      → bytes_eq p.name (codes "Method") ≡ false
      → bytes_eq p.name (codes "HeaderRegexp") ≡ false
      → bytes_eq p.name (codes "Header") ≡ false
      → Step a p
  unfolding apply_predicate is_void
  step_other (r, ps, ms) p e₁ e₂ e₃ e₄ e₅ e₆ b h fresh =
      elim (Bool-cases (bytes_eq p.name (codes "*") || bytes_eq p.name (codes "Any"))) [
        | inl void ↦ applied b (r, ps, ms) _ (ground arith) fresh (ground arith)
        | inr plain ↦
            let added = count_of-append q r.predicates (p ∷ []) in
            applied b (record r { predicates = r.predicates ++ p ∷ [] }, ps, ms) _ (ground arith)
              (fresh.0, fresh.1, has_path_snoc r.predicates p fresh.2 e₁) (ground (arith, added))
      ]

  named :
      (a : Applied) (p : Predicate) (n : Bytes)
      → bytes_eq p.name n ≡ true
      → ((args : List Arg) → Step a (predicate n args))
      → Step a p
  named a p n e f =
      subst (λ m. Step a (predicate m p.args)) (sym ((bytes_eq_iff p.name n).0 e)) (f p.args)

  -- The names that the switch knows.
  step : (a : Applied) (p : Predicate) → Step a p
  step a p = elim (Bool-cases (bytes_eq p.name (codes "Path"))) [
    | inl e ↦ named a p _ e (λ args. step_path a args)
    | inr e₁ ↦ elim (Bool-cases (bytes_eq p.name (codes "Host"))) [
      | inl e ↦ named a p _ e (λ args. step_host a args)
      | inr e₂ ↦ elim (Bool-cases (bytes_eq p.name (codes "PathRegexp"))) [
        | inl e ↦ named a p _ e (λ args. step_path_regexp a args)
        | inr e₃ ↦ elim (Bool-cases (bytes_eq p.name (codes "Method"))) [
          | inl e ↦ named a p _ e (λ args. step_method a args)
          | inr e₄ ↦ elim (Bool-cases (bytes_eq p.name (codes "HeaderRegexp"))) [
            | inl e ↦ named a p _ e (λ args. step_header_regexp a args)
            | inr e₅ ↦ elim (Bool-cases (bytes_eq p.name (codes "Header"))) [
              | inl e ↦ named a p _ e (λ args. step_header a args)
              | inr e₆ ↦ step_other a p e₁ e₂ e₃ e₄ e₅ e₆
            ]
          ]
        ]
      ]
    ]
  ]

  pub count_of-apply_predicates :
      (a b : Applied) (ps : List Predicate)
      → apply_predicates a ps ≡ ok b
      → Fresh a
      → Fresh b × (counted b.0 ≡ counted a.0 + count_of (λ p. q p && not (is_void p)) ps)
  unfolding apply_predicates
  count_of-apply_predicates a b [] h fresh = applied b a _ (ok_injective h) fresh (omega arith)
  count_of-apply_predicates a b (p ∷ ps) h fresh =
      let (c, first, e) = bind-ok (apply_predicate a p) _ h in
      let (fresh_c, here) = step a p c first fresh in
      let (fresh_b, later) = count_of-apply_predicates c b ps e fresh_c in
      (fresh_b, ground (arith, here, later))

predicates-canonical :
    (sorted : SliceSort Predicate) (sorted_endpoints : SliceSort LbEndpoint) (r : Route)
    → (canonical sorted sorted_endpoints r).predicates ≡ sorted.sort (legacy_predicates r)
unfolding canonical
predicates-canonical sorted sorted_endpoints r = ground arith

after_check-ok :
    (scheme_of : Bytes → Option Bytes) (new_lb_endpoint : Bytes → LbEndpoint)
    (checked : Option RouteError) (p : ParsedRoute) (r : Route)
    → after_check scheme_of new_lb_endpoint checked p ≡ ok r
    → (b : Applied) × (apply_predicates
          (parsed_fields scheme_of new_lb_endpoint p, false, false)
          p.predicates
        ≡ ok b)
      × (b.0 ≡ r)
after_check-ok scheme_of new_lb_endpoint (some e) p r h = cc
after_check-ok scheme_of new_lb_endpoint none p r h =
    let (b, ran, e) =
      bind-ok
        (apply_predicates (parsed_fields scheme_of new_lb_endpoint p, false, false) p.predicates) _
        h in
    (b, ran, ok_injective e)

-- Canonical of a route that newRouteDefinition makes has each predicate as often as the parser
-- read it, the legacy fields included, whatever sort.Slice and the URL parser do: none of those
-- that are void (the wildcard, Any, and Path and Method of the empty text), and each of the others
-- with its arguments.
pub new_route_definition-canonical :
    (scheme_of : Bytes → Option Bytes) (new_lb_endpoint : Bytes → LbEndpoint)
    (sorted : SliceSort Predicate) (sorted_endpoints : SliceSort LbEndpoint) (q : Predicate → Bool)
    (p : ParsedRoute) (r : Route)
    → new_route_definition scheme_of new_lb_endpoint p ≡ ok r
    → count_of q (canonical sorted sorted_endpoints r).predicates
      ≡ count_of (λ x. q x && not (is_void x)) p.predicates
unfolding new_route_definition bytes_eq
new_route_definition-canonical scheme_of new_lb_endpoint sorted sorted_endpoints q p r h =
    let (b, ran, same) =
      after_check-ok scheme_of new_lb_endpoint
        (check_endpoints scheme_of new_lb_endpoint [] p.lb_endpoints) p r h in
    let (fresh, counts) =
      count_of-apply_predicates q (parsed_fields scheme_of new_lb_endpoint p, false, false) b
        p.predicates ran (λ e. refl, λ e. refl, refl) in
    let legacy = count_of-legacy_predicates q b.0 fresh.2 in
    subst
      (λ r.
        count_of q (canonical sorted sorted_endpoints r).predicates
        ≡ count_of (λ x. q x && not (is_void x)) p.predicates)
      same
      (omega (
        arith,
        ap (count_of q) (predicates-canonical sorted sorted_endpoints b.0),
        sorted.keeps q (legacy_predicates b.0),
        legacy,
        counts,
      ))
