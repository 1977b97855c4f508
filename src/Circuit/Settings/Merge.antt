-- ===== src/Circuit/Settings/Merge.antt =====
-- The laws of mergeSettings of circuit/breaker.go.
use skipper.Prelude.{◌≡◌, ◌↔◌, true, arith, str_eq_iff}
use skipper.Prelude.Int.{eq_ℤ_iff}
use skipper.Circuit.Settings.{BreakerType, BreakerSettings, eq_type, eq_settings, merge_settings}

pub eq_type_iff : (a b : BreakerType) → (eq_type a b ≡ true) ↔ (a ≡ b)
unfolding eq_type
eq_type_iff a b = ground arith

pub eq_settings_iff : (a b : BreakerSettings) → (eq_settings a b ≡ true) ↔ (a ≡ b)
unfolding eq_settings
eq_settings_iff a b = ground (
  arith,
  eq_type_iff a.type b.type,
  str_eq_iff a.host b.host,
  eq_ℤ_iff a.window b.window,
  eq_ℤ_iff a.failures b.failures,
  eq_ℤ_iff a.timeout b.timeout,
  eq_ℤ_iff a.half_open_requests b.half_open_requests,
  eq_ℤ_iff a.idle_ttl b.idle_ttl,
)

-- Merging settings is associative.
pub merge_settings_assoc :
    (a b c : BreakerSettings)
    → merge_settings (merge_settings a b) c ≡ merge_settings a (merge_settings b c)
unfolding merge_settings eq_type
merge_settings_assoc a b c = ground arith
