-- ===== src/LoadBalancer/Tests.antt =====
-- Runs of the algorithms of loadbalancer/algorithm.go.
use skipper.Prelude.{
  ℕ, get_elem?, zero, suc, ◌+◌, ◌*◌, ◌/◌, ◌%◌, ◌<◌, ◌≡◌, refl, Bool, true, List, [], ◌∷◌, Option,
  none, some, length, any, leb, ◌==◌, All, count_of, arith,
}
use skipper.Prelude.Bytes.{Bytes, bytes_eq, codes}
use skipper.Prelude.Sort.{sort_by, sort_by-IsOrdered, count_of-sort_by}
use skipper.LoadBalancer.ConsistentHash.Built.{RingSort, entry, new_consistent_hash_internal-IsRing}
use skipper.LoadBalancer.{LbEndpoint, returned, Rand}
use skipper.LoadBalancer.ConsistentHash.{
  EndpointHash, LbContext, new_consistent_hash_internal, Floats, search, apply, narrow, sort_search,
  position, search_ring, index_at, walk, skip_endpoint, bounded_load_search, compute_load_average,
  sum_from,
}
use skipper.LoadBalancer.ConsistentHash.Search.{IsSorted, clockwise}
use skipper.LoadBalancer.ConsistentHash.Owner.{
  is_left, InRange, search-first, bounded_load_search-first,
}
use skipper.LoadBalancer.ConsistentHash.Stable.{search_stable}
use skipper.LoadBalancer.ConsistentHash.Apply.{apply-IsLeft}
use skipper.LoadBalancer.RoundRobin.{round, round-rotation}
use skipper.LoadBalancer.PowerOfChoices.{
  power_apply, better_of, get_score, drawn, Least, power_apply-Least,
}

abbrev endpoint : Bytes → ℕ → LbEndpoint
endpoint host n = record { scheme = codes "http"; host = host; zone = []; inflight_requests = n }

abbrev two : List LbEndpoint
two = endpoint (codes "a") 5 ∷ endpoint (codes "b") 1 ∷ []

abbrev at_hash : ℕ → ℕ → EndpointHash
at_hash i h = record { index = i; hash_value = h }

abbrev ring : List EndpointHash
ring = at_hash 0 2 ∷ at_hash 1 4 ∷ at_hash 0 6 ∷ []

abbrev context : List LbEndpoint → Option ℕ → LbContext ℕ
context es factor = record {
  route_endpoints = two;
  lb_endpoints = es;
  remote_host = codes "10.0.0.1";
  hash_key = some (codes "key");
  balance_factor = factor;
}

abbrev whole : Floats ℕ
whole = record {
  from_int = λ n. n;
  plus = λ a b. a + b;
  times = λ a b. a * b;
  over = λ a b. a / b;
  at_most = leb;
}

abbrev both : LbContext ℕ
both = context two none

abbrev only_b : LbContext ℕ
only_b = context (endpoint (codes "b") 1 ∷ []) none

ring-IsSorted : IsSorted ring
ring-IsSorted = ((omega arith, (omega arith, tt)), ((omega arith, tt), (tt, tt)))

ring-InRange : (c : LbContext ℕ) → length c.route_endpoints ≡ 2 → InRange c ring
ring-InRange c h = (omega arith, (omega arith, (omega arith, tt)))

search-both : search length ring (codes "key") both ≡ returned 1
unfolding search search_ring position sort_search narrow walk skip_endpoint index_at bytes_eq
search-both = refl

search-late : search length ring (codes "longkey") only_b ≡ returned 1
unfolding search search_ring position sort_search narrow walk skip_endpoint index_at bytes_eq
search-late = refl

left_only_b : is_left only_b 1 ≡ true
unfolding bytes_eq
left_only_b = refl

left_both : (j : ℕ) → is_left only_b j ≡ true → is_left both j ≡ true
unfolding bytes_eq
left_both zero h = refl
left_both (suc zero) h = refl
left_both (suc (suc j)) h = cc

search_stable_example : search length ring (codes "key") only_b ≡ returned 1
search_stable_example =
    search_stable length ring (codes "key") both only_b ring-IsSorted (ring-InRange both refl)
      (ring-InRange only_b refl) (omega arith) 1 left_both search-both left_only_b

search-first_example : search length ring (codes "longkey") only_b ≡ returned 1
unfolding clockwise bytes_eq
search-first_example =
    search-first length ring (codes "longkey") only_b ring-IsSorted (ring-InRange only_b refl)
      (omega arith)

-- The average of 7 / 2 is 3, and the endpoint at the key's place has 5 requests in flight.
bounded_load_search-first_example :
    bounded_load_search length whole ring (codes "longkey") 1 both ≡ returned 1
unfolding clockwise bytes_eq compute_load_average sum_from
bounded_load_search-first_example =
    bounded_load_search-first length ring (codes "longkey") both ring-IsSorted
      (ring-InRange both refl) (omega arith) whole 1

apply-IsLeft_example :
    (e : LbEndpoint) × (apply length whole ring (context two (some 1)) ≡ returned e)
    × (any (λ l. bytes_eq l.host e.host) two ≡ true)
unfolding bytes_eq
apply-IsLeft_example =
    apply-IsLeft length whole ring (context two (some 1)) ring-IsSorted
      (ring-InRange (context two (some 1)) refl) (omega arith) 1 (at_hash 1 4) refl refl

round-rotation_example :
    round 2 6 two ≡ returned (endpoint (codes "b") 1) ∷ returned (endpoint (codes "a") 5) ∷ []
round-rotation_example = round-rotation two 6 (omega arith) (omega arith)

counting_inside : (s n : ℕ) → 0 < n → s % n < n
counting_inside s n h = grind arith

-- The source that names its state, and counts on.
abbrev counting : Rand ℕ
counting = record { int_n = λ s n. (s % n, s + 1); inside = counting_inside }

power_apply-counting : power_apply counting two 0 2 ≡ (returned (endpoint (codes "b") 1), 2)
unfolding power_apply better_of get_score
power_apply-counting = refl

power_apply-Least_example :
    (e : LbEndpoint) × (s : ℕ) × (power_apply counting two 0 2 ≡ (returned e, s))
    × Least counting two e (drawn counting two 0 2)
power_apply-Least_example = power_apply-Least counting two 0 2 (omega arith) (omega arith)

abbrev inserting : RingSort
inserting = record {
  sort = sort_by;
  keeps = count_of-sort_by;
  ordered = λ before asym trans. sort_by-IsOrdered before asym trans;
}

abbrev names : List Bytes
names = codes "a" ∷ codes "bcd" ∷ []

new_consistent_hash_internal-IsRing_example :
    let ring = new_consistent_hash_internal length inserting.sort names 100 in
    IsSorted ring
    × All (λ e. e.index < 2) ring
    × (length ring ≡ 200)
    × ((i : ℕ) → i < 2 → count_of (λ e. e.index == i) ring ≡ 100)
    × (filled : List EndpointHash) × (length filled ≡ 200)
    × ((i j : ℕ) (ep : Bytes)
        → get_elem? names i ≡ some ep
        → j < 100
        → get_elem? filled (100 * i + j) ≡ some (entry length i ep j))
    × ((p : EndpointHash → Bool) → count_of p ring ≡ count_of p filled)
new_consistent_hash_internal-IsRing_example =
    new_consistent_hash_internal-IsRing length inserting names 100
