-- ===== src/Circuit/Settings.antt =====
-- circuit/breaker.go: the settings of a breaker and how they are merged. Durations are
-- nanoseconds; a duration and an int may be negative.
pub mod Merge
use skipper.Prelude.{String, Bool, true, false, ◌&&◌, str_eq, if◌then◌else◌}
use skipper.Prelude.Int.{ℤ, pos, eq_ℤ}

pub data BreakerType : Type 0 where
  breaker_none consecutive_failures failure_rate breaker_disabled : BreakerType

pub record BreakerSettings : Type 0 where
  pub type : BreakerType
  pub host : String
  pub window : ℤ
  pub failures : ℤ
  pub timeout : ℤ
  pub half_open_requests : ℤ
  pub idle_ttl : ℤ

unfoldable pub eq_type : BreakerType → BreakerType → Bool
eq_type breaker_none breaker_none = true
eq_type consecutive_failures consecutive_failures = true
eq_type failure_rate failure_rate = true
eq_type breaker_disabled breaker_disabled = true
eq_type _ _ = false

-- `==` on the struct, by which the registry's map finds a breaker.
unfoldable pub eq_settings : BreakerSettings → BreakerSettings → Bool
eq_settings a b =
    eq_type a.type b.type
    && str_eq a.host b.host
    && eq_ℤ a.window b.window
    && eq_ℤ a.failures b.failures
    && eq_ℤ a.timeout b.timeout
    && eq_ℤ a.half_open_requests b.half_open_requests
    && eq_ℤ a.idle_ttl b.idle_ttl

abbrev is_zero : ℤ → Bool
is_zero a = eq_ℤ a (pos 0)

-- The type, with the fields that belong to it.
merge_type : BreakerSettings → BreakerSettings → BreakerSettings
merge_type to from =
    let typed = record to { type = from.type } in
    let counted = record typed { failures = from.failures } in
    let windowed = record counted { window = from.window } in
    if eq_type to.type breaker_none
    then (if eq_type from.type consecutive_failures
        then counted
        else (if eq_type from.type failure_rate then windowed else typed))
    else to

unfoldable pub merge_settings : BreakerSettings → BreakerSettings → BreakerSettings
unfolding merge_type
merge_settings to from = record (merge_type to from) {
  timeout = if is_zero to.timeout then from.timeout else to.timeout;
  half_open_requests =
      if is_zero to.half_open_requests then from.half_open_requests else to.half_open_requests;
  idle_ttl = if is_zero to.idle_ttl then from.idle_ttl else to.idle_ttl;
}

-- The zero value, with a host.
abbrev pub no_settings : String → BreakerSettings
no_settings host = record {
  type = breaker_none;
  host = host;
  window = pos 0;
  failures = pos 0;
  timeout = pos 0;
  half_open_requests = pos 0;
  idle_ttl = pos 0;
}
