-- ===== src/LoadBalancer.antt =====
-- loadbalancer/algorithm.go: the names of the algorithms, and those that keep little state. A
-- random source is a parameter, with its state passed on.
pub mod ConsistentHash
mod RoundRobin
mod PowerOfChoices
mod Names
mod Tests
use skipper.Prelude.{ℕ, ◌<◌, List, Option, none, some, get_elem?, if◌then◌else◌}
use skipper.Prelude.Bytes.{Bytes, bytes_eq, codes}

-- The endpoint as the algorithms see it: of its metrics the requests in flight.
pub record LbEndpoint : Type 0 where
  pub scheme : Bytes
  pub host : Bytes
  pub zone : Bytes
  pub inflight_requests : ℕ

-- What a call comes to.
pub data Outcome (A : Type 0) : Type 0 where
  returned : A → Outcome A
  panics never_returns : Outcome A

-- An index of a slice, which panics out of range.
abbrev pub endpoint_at : List LbEndpoint → ℕ → Outcome LbEndpoint
endpoint_at es i = elim (get_elem? es i) [ none ↦ panics | some e ↦ returned e ]

pub data Algorithm : Type 0 where
  no_algorithm round_robin random consistent_hash power_of_random_n_choices : Algorithm
  weighted_round_robin least_requests : Algorithm

-- No value is the error.
unfoldable pub algorithm_from_string : Bytes → Option Algorithm
algorithm_from_string a =
    if bytes_eq a (codes "")
    then some no_algorithm
    else if bytes_eq a (codes "roundRobin")
    then some round_robin
    else if bytes_eq a (codes "random")
    then some random
    else if bytes_eq a (codes "consistentHash")
    then some consistent_hash
    else if bytes_eq a (codes "powerOfRandomNChoices")
    then some power_of_random_n_choices
    else if bytes_eq a (codes "weightedRoundRobin")
    then some weighted_round_robin
    else if bytes_eq a (codes "leastRequests")
    then some least_requests
    else none

unfoldable pub string : Algorithm → Bytes
string round_robin = codes "roundRobin"
string random = codes "random"
string consistent_hash = codes "consistentHash"
string power_of_random_n_choices = codes "powerOfRandomNChoices"
string weighted_round_robin = codes "weightedRoundRobin"
string least_requests = codes "leastRequests"
string no_algorithm = codes ""

-- math/rand/v2: IntN with the state of the source.
pub record Rand (S : Type 0) : Type 0 where
  pub int_n : S → ℕ → ℕ × S
  pub inside : (s : S) (n : ℕ) → 0 < n → (int_n s n).0 < n
