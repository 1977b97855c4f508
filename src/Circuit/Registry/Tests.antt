-- ===== src/Circuit/Registry/Tests.antt =====
-- Tests and instances for the registry of package circuit.
use skipper.Prelude.{◌≡◌, ◌≢◌, refl, true, [], ◌∷◌, some, arith}
use skipper.Prelude.Int.{pos, eq_ℤ}
use skipper.Prelude.Map.{lookup, insert, keep}
use skipper.Circuit.Settings.{
  BreakerSettings, failure_rate, merge_settings, no_settings, eq_type, eq_settings,
}
use skipper.Circuit.Registry.{
  Entry, Registry, settings_eq, new_registry, merge_defaults, merge_globals, with_hosts,
  merge_hosts, global_defaults, get, get_breaker, idle, renew, reuse,
}
use skipper.Circuit.Registry.Merging.{for_host, merge_all, merge_defaults-new_registry}
use skipper.Circuit.Registry.Lookup.{IsValid}
use skipper.Circuit.Registry.Stable.{get_all, get_breaker_stable}

registry : Unit {0}
unfolding new_registry global_defaults merge_globals with_hosts merge_hosts merge_defaults get
    get_breaker idle renew reuse eq_type eq_settings eq_ℤ lookup insert keep merge_settings
registry = tt

abbrev global : BreakerSettings
global = record (no_settings "") { type = failure_rate; timeout = pos 3; idle_ttl = pos 30 }

-- The host settings of the package's documentation: a window and failures, and no type.
abbrev foo : BreakerSettings
foo = record (no_settings "foo.example.org") { window = pos 300; failures = pos 30 }

abbrev ask : BreakerSettings
ask = no_settings "foo.example.org"

abbrev start : Registry
start = new_registry (global ∷ foo ∷ [])

abbrev merged : BreakerSettings
merged = record ask { type = failure_rate; timeout = pos 3; idle_ttl = pos 30 }

start-IsValid : IsValid start
unfolding registry
start-IsValid = tt

foo_named : ask.host ≢ ""
foo_named e = cc

merge_defaults-new_registry_example :
    merge_defaults start ask
    ≡ merge_settings ask
        (merge_all (for_host "foo.example.org" [] (global ∷ foo ∷ [])) start.defaults)
merge_defaults-new_registry_example = merge_defaults-new_registry (global ∷ foo ∷ []) ask foo_named

abbrev first : Entry
first = record { settings = merged; ts = 10; id = 0 }

abbrev after_first : Registry
after_first = (get_breaker 10 ask start).0

calls_first : get_breaker 10 ask start ≡ (after_first, some first)
unfolding registry
calls_first = refl

get_breaker_stable_example :
    (c : Entry) × ((get_breaker 40 ask (get_all after_first ((20, global) ∷ []))).1 ≡ some c)
    × (c.id ≡ 0)
get_breaker_stable_example =
    get_breaker_stable start after_first ask 10 30 40 first ((20, global) ∷ []) start-IsValid
      calls_first refl (omega arith) (omega arith)

abbrev renewed : Registry
renewed = (get_breaker 50 ask after_first).0

calls_again :
    get_breaker 50 ask after_first ≡ (renewed, some (record { settings = merged; ts = 50; id = 1 }))
unfolding registry
calls_again = refl

after_first_found : lookup (merge_defaults after_first ask) after_first.lookup ≡ some first
unfolding registry
after_first_found = refl

first-idle : idle 50 first ≡ true
unfolding registry
first-idle = refl
