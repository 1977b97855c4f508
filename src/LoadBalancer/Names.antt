-- ===== src/LoadBalancer/Names.antt =====
-- The names of the algorithms of loadbalancer/algorithm.go.
use skipper.Prelude.{◌≡◌, refl, some}
use skipper.Prelude.Bytes.{bytes_eq}
use skipper.LoadBalancer.{
  Algorithm, no_algorithm, round_robin, random, consistent_hash, power_of_random_n_choices,
  weighted_round_robin, least_requests, algorithm_from_string, string,
}

-- AlgorithmFromString reads what String writes of an algorithm.
pub algorithm_from_string-string : (a : Algorithm) → algorithm_from_string (string a) ≡ some a
unfolding algorithm_from_string string bytes_eq
algorithm_from_string-string no_algorithm = refl
algorithm_from_string-string round_robin = refl
algorithm_from_string-string random = refl
algorithm_from_string-string consistent_hash = refl
algorithm_from_string-string power_of_random_n_choices = refl
algorithm_from_string-string weighted_round_robin = refl
algorithm_from_string-string least_requests = refl
