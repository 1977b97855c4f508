-- ===== src/Circuit/Registry/Lookup.antt =====
-- Which breaker Get of circuit/registry.go returns.
use skipper.Prelude.{
  ℕ, ◌+◌, ◌<◌, ◌≡◌, refl, subst, ◌⊎◌, inl, inr, true, false, not, ◌||◌, str_eq, List, [], ◌∷◌, some,
  arith, All, Bool-cases, Option-cases,
}
use skipper.Prelude.Map.{text_eq, lookup, keep, All-keep, All-insert, All-lookup}
use skipper.Circuit.Settings.{BreakerSettings, breaker_none, breaker_disabled, eq_type}
use skipper.Circuit.Registry.{
  Entry, Registry, settings_eq, merge_defaults, idle, renew, reuse, get, get_breaker,
}

-- Every breaker is stored under its own settings, and its identity has been given out.
abbrev pub IsValid : Registry → Type 0
IsValid r = All (λ e. (e.1.settings ≡ e.0) × (e.1.id < r.created)) r.lookup

abbrev Stored : ℕ → BreakerSettings × Entry → Type 0
Stored n e = (e.1.settings ≡ e.0) × (e.1.id < n)

Stored-mono :
    (n : ℕ) (m : List (BreakerSettings × Entry)) → All (Stored n) m → All (Stored (n + 1)) m
Stored-mono n [] a = tt
Stored-mono n (e ∷ m) a = ((a.0.0, omega arith), Stored-mono n m a.1)

renew-IsValid :
    (now : ℕ) (s : BreakerSettings) (r : Registry) → IsValid r → IsValid (renew now s r).0
unfolding renew
renew-IsValid now s r v =
    All-insert (Stored (r.created + 1)) s _ (keep (λ b. not (idle now b)) r.lookup)
      (Stored-mono r.created _ (All-keep (Stored r.created) _ r.lookup v)) (refl, omega arith)

reuse-IsValid :
    (now : ℕ) (s : BreakerSettings) (r : Registry) (b : Entry)
    → IsValid r
    → lookup s r.lookup ≡ some b
    → IsValid (reuse now s r b).0
unfolding reuse
reuse-IsValid now s r b v e =
    All-insert (Stored r.created) s _ r.lookup v (All-lookup (Stored r.created) s b r.lookup v e)

-- Each call either takes the stored breaker, or makes one.
pub get_cases :
    (now : ℕ) (s : BreakerSettings) (r : Registry)
    → ((b : Entry) × (lookup s r.lookup ≡ some b)
        × (idle now b ≡ false)
        × (get now s r ≡ reuse now s r b))
      ⊎ (((b : Entry) → lookup s r.lookup ≡ some b → idle now b ≡ true)
          × (get now s r ≡ renew now s r))
unfolding get
get_cases now s r = elim (Option-cases (lookup s r.lookup)) [
  | inl e ↦ inr ((λ b h. cc), rw (e, get))
  | inr (b, e) ↦ elim (Bool-cases (idle now b)) [
    | inl old ↦ inr (
      (λ c h. let same : b ≡ c = cc in subst (λ x. idle now x ≡ true) same old),
      rw (e, get) (rw old),
    )
    | inr fresh ↦ inl (b, e, fresh, rw (e, get) (rw fresh))
  ]
]

get-IsValid : (now : ℕ) (s : BreakerSettings) (r : Registry) → IsValid r → IsValid (get now s r).0
get-IsValid now s r v = elim (get_cases now s r) [
  | inl (b, e, _, g) ↦ rw g (reuse-IsValid now s r b v e)
  | inr (_, g) ↦ rw g (renew-IsValid now s r v)
]

pub get_breaker_cases {ℓ} :
    (P : Registry → Type ℓ) (now : ℕ) (s : BreakerSettings) (r : Registry)
    → P r
    → P (get now (merge_defaults r s) r).0
    → P (get_breaker now s r).0
unfolding get_breaker
get_breaker_cases P now s r p q =
    elim (Bool-cases (eq_type s.type breaker_disabled || str_eq s.host "")) [
      | inl stop ↦ rw stop p
      | inr go ↦ elim (Bool-cases (eq_type (merge_defaults r s).type breaker_none)) [
        | inl nothing ↦ rw (go, nothing) p
        | inr some_type ↦ rw (go, some_type) q
      ]
    ]

-- Every call of Get keeps each breaker stored under its own settings with an identity that has been
-- given out.
pub get_breaker-IsValid :
    (now : ℕ) (s : BreakerSettings) (r : Registry) → IsValid r → IsValid (get_breaker now s r).0
get_breaker-IsValid now s r v =
    get_breaker_cases IsValid now s r v (get-IsValid now (merge_defaults r s) r v)
