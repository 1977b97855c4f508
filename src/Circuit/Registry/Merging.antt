-- ===== src/Circuit/Registry/Merging.antt =====
-- Which settings NewRegistry of circuit/registry.go keeps for a host.
use skipper.Prelude.{
  ◌≡◌, ◌≢◌, refl, sym, ap, subst, ◌∙◌, String, true, false, List, [], ◌∷◌, Option, none, some,
  arith, str_eq, str_eq_iff, Bool-cases, inl, inr, if◌then◌else◌,
}
use skipper.Prelude.Map.{text_eq, lookup, insert, lookup-insert}
use skipper.Circuit.Settings.{
  BreakerSettings, breaker_none, failure_rate, merge_settings, no_settings, eq_type,
}
use skipper.Circuit.Registry.{
  new_registry, merge_defaults, merge_hosts, merge_onto, with_hosts, merge_globals, global_defaults,
}

-- The settings of one host, the latest first: how they add up over the defaults.
pub for_host : String → List BreakerSettings → List BreakerSettings → List BreakerSettings
for_host host acc [] = acc
for_host host acc (s ∷ ss) = for_host host (if str_eq s.host host then s ∷ acc else acc) ss

pub merge_all : List BreakerSettings → BreakerSettings → BreakerSettings
merge_all [] last = last
merge_all (s ∷ ss) last = merge_settings s (merge_all ss last)

-- What the map holds for the settings of a host seen so far.
abbrev held : BreakerSettings → List BreakerSettings → Option BreakerSettings
held defaults [] = none
held defaults (s ∷ ss) = some (merge_settings s (merge_all ss defaults))

merge_held :
    (s defaults : BreakerSettings) (acc : List BreakerSettings) (o : Option BreakerSettings)
    → o ≡ held defaults acc
    → merge_onto s defaults o ≡ merge_settings s (merge_all acc defaults)
unfolding merge_all
merge_held s defaults [] o e = rw e
merge_held s defaults (a ∷ acc) o e = rw e

add-lookup :
    (defaults s : BreakerSettings) (hs : List (String × BreakerSettings))
    (acc : List BreakerSettings) (host : String)
    → lookup host hs ≡ held defaults acc
    → lookup host (insert s.host (merge_onto s defaults (lookup s.host hs)) hs)
      ≡ held defaults (if str_eq s.host host then s ∷ acc else acc)
add-lookup defaults s hs acc host e = elim (Bool-cases (str_eq s.host host)) [
  | inl same ↦
      lookup-insert s.host host _ hs
      ∙ rw same (ap some (merge_held s defaults acc (lookup s.host hs) (found same)))
  | inr other ↦ lookup-insert s.host host _ hs ∙ rw other e
]
  where
    found : str_eq s.host host ≡ true → lookup s.host hs ≡ held defaults acc
    found q = subst (λ k. lookup k hs ≡ held defaults acc) (sym ((str_eq_iff s.host host).0 q)) e

merge_hosts-lookup :
    (defaults : BreakerSettings) (hs : List (String × BreakerSettings))
    (ss acc : List BreakerSettings) (host : String)
    → lookup host hs ≡ held defaults acc
    → lookup host (merge_hosts defaults hs ss) ≡ held defaults (for_host host acc ss)
unfolding merge_hosts for_host
merge_hosts-lookup defaults hs [] acc host e = e
merge_hosts-lookup defaults hs (s ∷ ss) acc host e =
    merge_hosts-lookup defaults (insert s.host (merge_onto s defaults (lookup s.host hs)) hs) ss
      (if str_eq s.host host then s ∷ acc else acc) host (add-lookup defaults s hs acc host e)

for_host-with_hosts :
    (host : String) (acc ss : List BreakerSettings)
    → host ≢ ""
    → for_host host acc (with_hosts ss) ≡ for_host host acc ss
unfolding for_host with_hosts
for_host-with_hosts host acc [] h = refl
for_host-with_hosts host acc (s ∷ ss) h = elim (Bool-cases (str_eq s.host "")) [
  | inl global ↦ rw (global, unnamed s global) (for_host-with_hosts host acc ss h)
  | inr own ↦ rw own (for_host-with_hosts host (if str_eq s.host host then s ∷ acc else acc) ss h)
]
  where
    unnamed : (s : BreakerSettings) → str_eq s.host "" ≡ true → str_eq s.host host ≡ false
    unnamed s g = elim (Bool-cases (str_eq s.host host)) [
      | inl same ↦ absurd (h (sym ((str_eq_iff s.host host).0 same) ∙ (str_eq_iff s.host "").0 g))
      | inr other ↦ other
    ]

-- The settings that a call for a host works with are its own merged with those given for the host,
-- from the latest to the earliest, and then with the defaults.
pub merge_defaults-new_registry :
    (ss : List BreakerSettings) (s : BreakerSettings)
    → s.host ≢ ""
    → merge_defaults (new_registry ss) s
      ≡ merge_settings s (merge_all (for_host s.host [] ss) (new_registry ss).defaults)
unfolding new_registry merge_defaults lookup
merge_defaults-new_registry ss s h = merge_held s (global_defaults ss) (for_host s.host [] ss) _ (
    merge_hosts-lookup (global_defaults ss) [] (with_hosts ss) [] s.host none_yet
    ∙ ap (held (global_defaults ss)) (for_host-with_hosts s.host [] ss h))
  where
    none_yet : lookup {V = BreakerSettings} s.host [] ≡ none
    none_yet = refl

abbrev HasRate : BreakerSettings → BreakerSettings → Type 0
HasRate g s = (s.type ≡ failure_rate) × (s.window ≡ g.window) × (s.failures ≡ g.failures)

merge_settings-HasRate :
    (g to from : BreakerSettings)
    → to.type ≡ breaker_none
    → HasRate g from
    → HasRate g (merge_settings to from)
unfolding merge_settings eq_type
merge_settings-HasRate g to from e h = ground arith

global_defaults-HasRate :
    (g h : BreakerSettings)
    → g.host ≡ ""
    → g.type ≡ failure_rate
    → h.host ≢ ""
    → HasRate g (global_defaults (g ∷ h ∷ []))
unfolding global_defaults merge_globals
global_defaults-HasRate g h a b c =
    ground (
      arith,
      str_eq_iff g.host "",
      str_eq_iff h.host "",
      merge_settings-HasRate g (no_settings "") g,
    )

for_host_own :
    (g h s : BreakerSettings)
    → g.host ≡ ""
    → h.host ≢ ""
    → s.host ≡ h.host
    → for_host s.host [] (g ∷ h ∷ []) ≡ h ∷ []
unfolding for_host
for_host_own g h s a c e = ground (arith, str_eq_iff g.host s.host, str_eq_iff h.host s.host)

-- Where the global settings have the rate type and the settings of a host name no type, a call for
-- that host without a type works with the window and the failures of the global settings.
pub host_window_lost :
    (g h s : BreakerSettings)
    → g.host ≡ ""
    → g.type ≡ failure_rate
    → h.host ≢ ""
    → h.type ≡ breaker_none
    → s.host ≡ h.host
    → s.type ≡ breaker_none
    → ((merge_defaults (new_registry (g ∷ h ∷ [])) s).window ≡ g.window)
      × ((merge_defaults (new_registry (g ∷ h ∷ [])) s).failures ≡ g.failures)
unfolding merge_all new_registry
host_window_lost g h s a b c d e f =
    rw (merge_defaults-new_registry (g ∷ h ∷ []) s named, for_host_own g h s a c e)
      (rated.1, rated.2)
  where
    named : s.host ≢ ""
    named x = c (sym e ∙ x)

    global : BreakerSettings
    global = global_defaults (g ∷ h ∷ [])

    rated : HasRate g (merge_settings s (merge_settings h global))
    rated =
        merge_settings-HasRate g s (merge_settings h global) f
          (merge_settings-HasRate g h global d (global_defaults-HasRate g h a b c))
