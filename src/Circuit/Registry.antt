-- ===== src/Circuit/Registry.antt =====
-- circuit/registry.go: the registry of the active breakers. A time is a count of nanoseconds. The
-- registry's lock makes each call one step, so a history is the sequence of the calls. `id` stands
-- for the identity of the breaker that a pointer names.
pub mod Merging
pub mod Lookup
pub mod Stable
mod Tests
use skipper.Prelude.{
  ℕ, zero, suc, ◌+◌, String, Bool, true, false, not, ◌||◌, List, [], ◌∷◌, Option, none, some,
  str_eq, if◌then◌else◌,
}
use skipper.Prelude.Int.{ℤ, pos, sub_ℕ, ltb_ℤ, leb_ℤ}
use skipper.Prelude.Map.{Eq, text_eq, lookup, insert, keep}
use skipper.Circuit.Settings.{
  BreakerSettings, BreakerType, breaker_none, breaker_disabled, eq_type, eq_settings,
  merge_settings, no_settings,
}
use skipper.Circuit.Settings.Merge.{eq_settings_iff}

instance abbrev pub settings_eq : Eq BreakerSettings
settings_eq = record { beq = eq_settings; beq_iff = eq_settings_iff }

-- What the registry reads of a breaker.
pub record Entry : Type 0 where
  pub settings : BreakerSettings
  pub ts : ℕ
  pub id : ℕ

pub record Registry : Type 0 where
  pub defaults : BreakerSettings
  pub host_settings : List (String × BreakerSettings)
  pub lookup : List (BreakerSettings × Entry)
  -- The number of breakers made so far, the next identity.
  pub created : ℕ

-- time.Hour
abbrev pub default_idle_ttl : ℤ
default_idle_ttl = pos 3600000000000

-- The first loop of NewRegistry: the settings without a host, and those with one, in order.
merge_globals : BreakerSettings → List BreakerSettings → BreakerSettings
merge_globals defaults [] = defaults
merge_globals defaults (s ∷ ss) =
    merge_globals (if str_eq s.host "" then merge_settings defaults s else defaults) ss

with_hosts : List BreakerSettings → List BreakerSettings
with_hosts [] = []
with_hosts (s ∷ ss) = if str_eq s.host "" then with_hosts ss else s ∷ with_hosts ss

-- The second loop: over the settings of the host so far, or over the defaults.
abbrev merge_onto : BreakerSettings → BreakerSettings → Option BreakerSettings → BreakerSettings
merge_onto s defaults (some sh) = merge_settings s sh
merge_onto s defaults none = merge_settings s defaults

merge_hosts :
    BreakerSettings
    → List (String × BreakerSettings)
    → List BreakerSettings
    → List (String × BreakerSettings)
merge_hosts defaults hs [] = hs
merge_hosts defaults hs (s ∷ ss) =
    merge_hosts defaults (insert s.host (merge_onto s defaults (lookup s.host hs)) hs) ss

global_defaults : List BreakerSettings → BreakerSettings
unfolding merge_globals
global_defaults settings =
    let merged = merge_globals (no_settings "") settings in
    record merged {
      idle_ttl = if leb_ℤ merged.idle_ttl (pos 0) then default_idle_ttl else merged.idle_ttl;
    }

pub new_registry : List BreakerSettings → Registry
new_registry settings =
    let defaults = global_defaults settings in
    record {
      defaults = defaults;
      host_settings = merge_hosts defaults [] (with_hosts settings);
      lookup = [];
      created = 0;
    }

unfoldable pub merge_defaults : Registry → BreakerSettings → BreakerSettings
merge_defaults r s = merge_onto s r.defaults (lookup s.host r.host_settings)

-- now.Sub(b.ts) > b.settings.IdleTTL
unfoldable pub idle : ℕ → Entry → Bool
idle now b = ltb_ℤ b.settings.idle_ttl (sub_ℕ now b.ts)

unfoldable pub drop_idle : ℕ → Registry → Registry
drop_idle now r = record r { lookup = keep (λ b. not (idle now b)) r.lookup }

-- A new breaker is made, after the idle ones are dropped.
unfoldable pub renew : ℕ → BreakerSettings → Registry → Registry × Entry
unfolding drop_idle
renew now s r =
    let r' = drop_idle now r in
    let b : Entry = record { settings = s; ts = now; id = r.created } in
    (record r' { lookup = insert s b r'.lookup; created = r.created + 1 }, b)

unfoldable pub reuse : ℕ → BreakerSettings → Registry → Entry → Registry × Entry
reuse now s r b =
    let touched = record b { ts = now } in
    (record r { lookup = insert s touched r.lookup }, touched)

unfoldable pub get : ℕ → BreakerSettings → Registry → Registry × Entry
get now s r = elim (lookup s r.lookup) [
  | none ↦ renew now s r
  | some b ↦ if idle now b then renew now s r else reuse now s r b
]

-- Get, the exported call; none is a nil breaker.
unfoldable pub get_breaker : ℕ → BreakerSettings → Registry → Registry × Option Entry
get_breaker now s r =
    if eq_type s.type breaker_disabled || str_eq s.host ""
    then (r, none)
    else (let s' = merge_defaults r s in
        let (r', b) = get now s' r in
        if eq_type s'.type breaker_none then (r, none) else (r', some b))
