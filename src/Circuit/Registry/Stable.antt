-- ===== src/Circuit/Registry/Stable.antt =====
-- Get of circuit/registry.go keeps handing out the same breaker until it is idle.
use skipper.Prelude.{
  ℕ, ◌+◌, ◌≤◌, ◌<◌, ◌≡◌, refl, sym, ap, subst, ◌∙◌, inl, inr, Bool, true, false, not, ◌||◌, str_eq,
  List, [], ◌∷◌, some, arith, All, Bool-cases,
}
use skipper.Prelude.Int.{pos}
use skipper.Prelude.Map.{
  text_eq, lookup, insert, keep, lookup-insert, lookup-insert_self, lookup-keep, All-lookup,
}
use skipper.Circuit.Settings.{BreakerSettings, breaker_none, breaker_disabled, eq_settings, eq_type}
use skipper.Circuit.Settings.Merge.{eq_settings_iff}
use skipper.Circuit.Registry.{
  Entry, Registry, settings_eq, merge_defaults, idle, renew, reuse, get, get_breaker,
}
use skipper.Circuit.Registry.Lookup.{IsValid, get_cases, get_breaker_cases}

-- The breaker of s is the one with the given identity, and was used at t or later.
pub record Active (s : BreakerSettings) (t id : ℕ) (r : Registry) : Type 0 where
  pub entry : Entry
  pub found : lookup s r.lookup ≡ some entry
  pub settings : entry.settings ≡ s
  pub recent : t ≤ entry.ts
  pub same : entry.id ≡ id

not_idle :
    (s : BreakerSettings) (b : Entry) (t n now : ℕ)
    → b.settings ≡ s
    → s.idle_ttl ≡ pos n
    → t ≤ b.ts
    → now ≤ t + n
    → idle now b ≡ false
unfolding idle
not_idle s b t n now e p l h =
    let q : b.settings.idle_ttl ≡ pos n = ap (λ (x : BreakerSettings). x.idle_ttl) e ∙ p in
    rw q (ground arith)

same_entry :
    (s s' : BreakerSettings) (b c : Entry) (m : List (BreakerSettings × Entry))
    → eq_settings s' s ≡ true
    → lookup s' m ≡ some b
    → lookup s m ≡ some c
    → c ≡ b
same_entry s s' b c m q e f =
    let g : lookup s m ≡ some b = subst (λ x. lookup x m ≡ some b) ((eq_settings_iff s' s).0 q) e in
    cc

reuse-Active :
    (s s' : BreakerSettings) (t id now : ℕ) (b : Entry) (r : Registry)
    → Active s t id r
    → lookup s' r.lookup ≡ some b
    → t ≤ now
    → Active s t id (reuse now s' r b).0
unfolding reuse
reuse-Active s s' t id now b r a e l = elim (Bool-cases (eq_settings s' s)) [
  | inl eq ↦ record {
    entry = record b { ts = now };
    found = lookup-insert s' s _ r.lookup ∙ rw eq;
    settings = subst (λ (x : Entry). x.settings ≡ s) (merged eq) a.settings;
    recent = l;
    same = subst (λ (x : Entry). x.id ≡ id) (merged eq) a.same;
  }
  | inr ne ↦ record {
    entry = a.entry;
    found = lookup-insert s' s _ r.lookup ∙ rw ne a.found;
    settings = a.settings;
    recent = a.recent;
    same = a.same;
  }
]
  where
    merged : eq_settings s' s ≡ true → a.entry ≡ b
    merged q = same_entry s s' b a.entry r.lookup q e a.found

renew-Active :
    (s s' : BreakerSettings) (t id now : ℕ) (r : Registry)
    → (a : Active s t id r) → idle now a.entry ≡ false
    → eq_settings s' s ≡ false
    → Active s t id (renew now s' r).0
unfolding renew
renew-Active s s' t id now r a fresh ne = record {
  entry = a.entry;
  found =
      lookup-insert s' s _ (keep (λ b. not (idle now b)) r.lookup)
      ∙ rw ne (lookup-keep (λ b. not (idle now b)) s a.entry r.lookup a.found (rw fresh));
  settings = a.settings;
  recent = a.recent;
  same = a.same;
}

get-Active :
    (s s' : BreakerSettings) (t n id now : ℕ) (r : Registry)
    → s.idle_ttl ≡ pos n
    → Active s t id r
    → t ≤ now
    → now ≤ t + n
    → Active s t id (get now s' r).0
get-Active s s' t n id now r p a l h = elim (get_cases now s' r) [
  | inl (b, e, _, g) ↦ rw g (reuse-Active s s' t id now b r a e l)
  | inr (stale, g) ↦ rw g (renew-Active s s' t id now r a fresh (other stale))
]
  where
    fresh : idle now a.entry ≡ false
    fresh = not_idle s a.entry t n now a.settings p a.recent h

    other :
        ((b : Entry) → lookup s' r.lookup ≡ some b → idle now b ≡ true) → eq_settings s' s ≡ false
    other stale = elim (Bool-cases (eq_settings s' s)) [
      | inl q ↦
          let f : lookup s' r.lookup ≡ some a.entry =
            subst (λ x. lookup x r.lookup ≡ some a.entry) (sym ((eq_settings_iff s' s).0 q))
              a.found in
          let old : idle now a.entry ≡ true = stale a.entry f in cc fresh
      | inr q ↦ q
    ]

-- A call of Get: when, and for which settings.
abbrev pub Call : Type 0
Call = ℕ × BreakerSettings

pub get_all : Registry → List Call → Registry
get_all r [] = r
get_all r ((now, s) ∷ cs) = get_all (get_breaker now s r).0 cs

abbrev pub Between : ℕ → ℕ → List Call → Type 0
Between lo hi = All (λ c. (lo ≤ c.0) × (c.0 ≤ hi))

module _ (s : BreakerSettings) (t n id : ℕ) (p : s.idle_ttl ≡ pos n) where
  get_all-Active :
      (r : Registry) (cs : List Call)
      → Between t (t + n) cs
      → Active s t id r
      → Active s t id (get_all r cs)
  unfolding get_all
  get_all-Active r [] b a = a
  get_all-Active r ((now, s') ∷ cs) ((l, h), b) a = get_all-Active (get_breaker now s' r).0 cs b (
      get_breaker_cases (Active s t id) now s' r a
        (get-Active s (merge_defaults r s') t n id now r p a l h))

  get-Active_same :
      (r : Registry) (now : ℕ) → Active s t id r → now ≤ t + n → (get now s r).1.id ≡ id
  unfolding reuse
  get-Active_same r now a h = elim (get_cases now s r) [
    | inl (b, e, _, g) ↦
        let same : a.entry ≡ b = cc in rw g (subst (λ (x : Entry). x.id ≡ id) same a.same)
    | inr (stale, g) ↦
        let old : idle now a.entry ≡ true = stale a.entry a.found in
        cc (not_idle s a.entry t n now a.settings p a.recent h)
  ]

merge_defaults-get :
    (now : ℕ) (s s' : BreakerSettings) (r : Registry)
    → merge_defaults (get now s r).0 s' ≡ merge_defaults r s'
unfolding merge_defaults renew reuse
merge_defaults-get now s s' r = elim (get_cases now s r) [
  | inl (b, _, _, g) ↦ rw g
  | inr (_, g) ↦ rw g
]

merge_defaults-get_all :
    (s : BreakerSettings) (r : Registry) (cs : List Call)
    → merge_defaults (get_all r cs) s ≡ merge_defaults r s
unfolding get_all
merge_defaults-get_all s r [] = refl
merge_defaults-get_all s r ((now, s') ∷ cs) =
    merge_defaults-get_all s (get_breaker now s' r).0 cs
    ∙ get_breaker_cases (λ q. merge_defaults q s ≡ merge_defaults r s) now s' r refl
        (merge_defaults-get now (merge_defaults r s') s r)

abbrev is_refused : BreakerSettings → Bool
is_refused s = eq_type s.type breaker_disabled || str_eq s.host ""

-- What a call that returns a breaker has done.
pub get_breaker_found :
    (now : ℕ) (s : BreakerSettings) (r r' : Registry) (b : Entry)
    → get_breaker now s r ≡ (r', some b)
    → (is_refused s ≡ false)
      × (eq_type (merge_defaults r s).type breaker_none ≡ false)
      × (get now (merge_defaults r s) r ≡ (r', b))
unfolding get_breaker
get_breaker_found now s r r' b e = elim (Bool-cases (is_refused s)) [
  | inl stop ↦ ground arith
  | inr go ↦ elim (Bool-cases (eq_type (merge_defaults r s).type breaker_none)) [
    | inl nothing ↦ ground arith
    | inr typed ↦ (go, typed, ground arith)
  ]
]

get-Active_self :
    (now : ℕ) (s : BreakerSettings) (r : Registry)
    → IsValid r
    → Active s now (get now s r).1.id (get now s r).0
unfolding renew reuse
get-Active_self now s r v = elim (get_cases now s r) [
  | inl (b, e, _, g) ↦ rw g (record {
    entry = record b { ts = now };
    found = lookup-insert_self s _ r.lookup;
    settings = (All-lookup _ s b r.lookup v e).0;
    recent = omega arith;
    same = refl;
  })
  | inr (_, g) ↦ rw g (record {
    entry = record { settings = s; ts = now; id = r.created };
    found = lookup-insert_self s _ (keep (λ b. not (idle now b)) r.lookup);
    settings = refl;
    recent = omega arith;
    same = refl;
  })
]

get-settings :
    (now : ℕ) (s : BreakerSettings) (r : Registry) → IsValid r → (get now s r).1.settings ≡ s
unfolding renew reuse
get-settings now s r v = elim (get_cases now s r) [
  | inl (b, e, _, g) ↦ rw g (All-lookup _ s b r.lookup v e).0
  | inr (_, g) ↦ rw g
]

get_breaker_lem :
    (now : ℕ) (s k : BreakerSettings) (r : Registry)
    → is_refused s ≡ false
    → merge_defaults r s ≡ k
    → eq_type k.type breaker_none ≡ false
    → (get_breaker now s r).1 ≡ some (get now k r).1
unfolding get_breaker
get_breaker_lem now s k r go m typed = rw (go, m, typed)

-- In a valid registry, while no more than the idle TTL has passed since Get returned a breaker for
-- s, Get returns the breaker with the same identity for s, whatever other calls came between.
pub get_breaker_stable :
    (r r' : Registry) (s : BreakerSettings) (t n now : ℕ) (b : Entry) (cs : List Call)
    → IsValid r
    → get_breaker t s r ≡ (r', some b)
    → b.settings.idle_ttl ≡ pos n
    → Between t (t + n) cs
    → now ≤ t + n
    → (c : Entry) × ((get_breaker now s (get_all r' cs)).1 ≡ some c) × (c.id ≡ b.id)
get_breaker_stable r r' s t n now b cs v e p between h =
    let (go, typed, g) = get_breaker_found t s r r' b e in
    let k = merge_defaults r s in
    let here : Active k t b.id r' = rw g at (get-Active_self t k r v) in
    let keyed : b.settings ≡ k = rw g at (get-settings t k r v) in
    let ttl : k.idle_ttl ≡ pos n = ap (λ (x : BreakerSettings). x.idle_ttl) (sym keyed) ∙ p in
    let same : merge_defaults r' s ≡ k = rw g at (merge_defaults-get t k s r) in
    let merged : merge_defaults (get_all r' cs) s ≡ k = merge_defaults-get_all s r' cs ∙ same in
    let later : Active k t b.id (get_all r' cs) =
      get_all-Active k t n b.id ttl r' cs between here in
    (
      (get now k (get_all r' cs)).1,
      get_breaker_lem now s k (get_all r' cs) go merged typed,
      get-Active_same k t n b.id ttl (get_all r' cs) now later h,
    )

apart : (b : Bool) → b ≡ true → b ≡ false → ⊥
apart b p q = cc

-- In a valid registry, a call that finds its breaker idle returns a new one: its identity is above
-- that of the idle one, it has the merged settings, and the map keeps it and the breakers that are
-- not idle.
pub get_breaker_renews :
    (r r' : Registry) (s : BreakerSettings) (now : ℕ) (b c : Entry)
    → IsValid r
    → get_breaker now s r ≡ (r', some b)
    → lookup (merge_defaults r s) r.lookup ≡ some c
    → idle now c ≡ true
    → (c.id < b.id)
      × (b.settings ≡ merge_defaults r s)
      × (r'.lookup ≡ insert (merge_defaults r s) b (keep (λ x. not (idle now x)) r.lookup))
unfolding renew
get_breaker_renews r r' s now b c v e f old =
    let (_, _, g) = get_breaker_found now s r r' b e in
    elim (get_cases now (merge_defaults r s) r) [
      | inl (d, e', fresh, _) ↦
          let same : c ≡ d = cc in
          let fresh' : idle now c ≡ false = subst (λ x. idle now x ≡ false) (sym same) fresh in
          absurd (apart (idle now c) old fresh')
      | inr (_, g') ↦
          subst
            (λ (q : Registry × Entry).
              (c.id < q.1.id)
              × (q.1.settings ≡ merge_defaults r s)
              × (q.0.lookup
                  ≡ insert (merge_defaults r s) q.1 (keep (λ x. not (idle now x)) r.lookup)))
            (sym g' ∙ g) ((All-lookup _ (merge_defaults r s) c r.lookup v f).1, refl, refl)
    ]
