-- ===== src/LoadBalancer/ConsistentHash.antt =====
-- consistentHash of loadbalancer/algorithm.go. The hash of xxhash, the sort and the float64
-- operations are parameters; the address of the client is given in the context.
pub mod Turn
pub mod Search
pub mod Owner
pub mod Stable
pub mod Apply
pub mod Built
use skipper.Prelude.{
  ℕ, zero, suc, ◌+◌, ◌/◌, ◌%◌, Bool, false, not, List, [], ◌∷◌, ◌++◌, Option, none, some, length,
  get_elem?, any, leb, ltb, ◌==◌, if◌then◌else◌, ◌>>=◌,
}
use skipper.Prelude.Bytes.{Bytes, bytes_eq, codes, decimal}
use skipper.LoadBalancer.{LbEndpoint, Outcome, returned, panics, never_returns, endpoint_at}

pub record EndpointHash : Type 0 where
  pub index : ℕ
  pub hash_value : ℕ

unfoldable pub less : EndpointHash → EndpointHash → Bool
less x y = ltb x.hash_value y.hash_value

-- float64: the operations that the code uses.
pub record Floats (F : Type 0) : Type 0 where
  pub from_int : ℕ → F
  pub plus : F → F → F
  pub times : F → F → F
  pub over : F → F → F
  pub at_most : F → F → Bool

-- All endpoints of the route, those that are left to choose from, and the parameters.
pub record LbContext (F : Type 0) : Type 0 where
  pub route_endpoints : List LbEndpoint
  pub lb_endpoints : List LbEndpoint
  pub remote_host : Bytes
  pub hash_key : Option Bytes
  pub balance_factor : Option F

-- The loop of sort.Search, with the length as fuel.
unfoldable pub narrow : (ℕ → Bool) → ℕ → ℕ → ℕ → ℕ
narrow test zero i j = i
narrow test (suc k) i j =
    let h = (i + j) / 2 in
    let left = narrow test k i h in
    let right = narrow test k (h + 1) j in if ltb i j then (if test h then left else right) else i

unfoldable pub sort_search : ℕ → (ℕ → Bool) → ℕ
sort_search n test = narrow test n 0 n

pub data Walk : Type 0 where
  stopped went_round : ℕ → Walk
  left_range : Walk

-- The loops over the ring: on to the next position, after the last the first, until the test
-- holds, and for as many positions as given.
unfoldable pub walk : {A : Type 0} → List A → (A → Option Bool) → ℕ → ℕ → Walk
walk ring stop zero i = went_round i
walk ring stop (suc k) i =
    let rest = walk ring stop k ((i + 1) % length ring) in
    elim (get_elem? ring i >>= stop) [ none ↦ left_range | some b ↦ if b then stopped i else rest ]

module _ (hash : Bytes → ℕ) where
  unfoldable pub hashes_of : Bytes → ℕ → ℕ → ℕ → List EndpointHash
  hashes_of ep i j zero = []
  hashes_of ep i j (suc k) =
      record { index = i; hash_value = hash (ep ++ codes "-" ++ decimal j) }
      ∷ hashes_of ep i (j + 1) k

  unfoldable pub all_hashes : List Bytes → ℕ → ℕ → List EndpointHash
  all_hashes [] i m = []
  all_hashes (ep ∷ eps) i m = hashes_of ep i 0 m ++ all_hashes eps (i + 1) m

  -- sort.Sort with Less; Swap exchanges two entries.
  unfoldable pub new_consistent_hash_internal :
      ((EndpointHash → EndpointHash → Bool) → List EndpointHash → List EndpointHash)
      → List Bytes
      → ℕ
      → List EndpointHash
  new_consistent_hash_internal sort eps m = sort less (all_hashes eps 0 m)

  unfoldable pub new_consistent_hash :
      ((EndpointHash → EndpointHash → Bool) → List EndpointHash → List EndpointHash)
      → List Bytes
      → List EndpointHash
  new_consistent_hash sort eps = new_consistent_hash_internal sort eps 100

  -- The first position with a hash from the key's on, with the rollover.
  unfoldable pub position : List EndpointHash → Bytes → ℕ
  position ring key =
      let i =
        sort_search (length ring)
          (λ k. elim (get_elem? ring k) [ none ↦ false | some e ↦ leb (hash key) e.hash_value ]) in
      if i == length ring then 0 else i

unfoldable pub index_at : List EndpointHash → ℕ → Outcome ℕ
index_at ring i = elim (get_elem? ring i) [ none ↦ panics | some e ↦ returned e.index ]

module _ {F : Type 0} where
  -- No value where the index is out of range.
  unfoldable pub skip_endpoint : LbContext F → ℕ → Option Bool
  skip_endpoint c i = elim (get_elem? c.route_endpoints i) [
    | none ↦ none
    | some e ↦ some (not (any (λ l. bytes_eq l.host e.host) c.lb_endpoints))
  ]

  module _ (fl : Floats F) where
    unfoldable pub sum_from : F → List LbEndpoint → F
    sum_from s [] = s
    sum_from s (e ∷ es) = sum_from (fl.plus s (fl.from_int e.inflight_requests)) es

    unfoldable pub compute_load_average : LbContext F → F
    compute_load_average c =
        fl.over (sum_from (fl.from_int 1) c.lb_endpoints) (fl.from_int (length c.lb_endpoints))

    -- Whether the loop of boundedLoadSearch ends at an endpoint.
    unfoldable pub takes : LbContext F → F → EndpointHash → Option Bool
    takes c factor x = elim (skip_endpoint c x.index) [
      | none ↦ none
      | some skipped ↦ if skipped then some false else elim (get_elem? c.route_endpoints x.index) [
        | none ↦ none
        | some e ↦ some (
            fl.at_most (fl.from_int e.inflight_requests) (fl.times (compute_load_average c) factor))
      ]
    ]

  module _ (hash : Bytes → ℕ) where
    unfoldable pub search_ring : List EndpointHash → Bytes → LbContext F → Outcome ℕ
    search_ring [] key c = panics
    search_ring (e ∷ es) key c =
        elim (walk (e ∷ es)
          (λ x. elim (skip_endpoint c x.index) [ none ↦ none | some b ↦ some (not b) ])
          (length (e ∷ es)) (position hash (e ∷ es) key)) [
            | stopped i ↦ returned i
            | went_round i ↦ never_returns
            | left_range ↦ panics
          ]

    unfoldable pub search : List EndpointHash → Bytes → LbContext F → Outcome ℕ
    search ring key c = elim (search_ring ring key c) [
      | returned i ↦ index_at ring i
      | panics ↦ panics
      | never_returns ↦ never_returns
    ]

    module _ (fl : Floats F) where
      unfoldable pub bounded_load_search : List EndpointHash → Bytes → F → LbContext F → Outcome ℕ
      bounded_load_search ring key factor c = elim (search_ring ring key c) [
        | returned i ↦ elim (walk ring (takes fl c factor) (length ring) i) [
          | stopped j ↦ index_at ring j
          | went_round j ↦ index_at ring j
          | left_range ↦ panics
        ]
        | panics ↦ panics
        | never_returns ↦ never_returns
      ]

      unfoldable pub choose_consistent_hash_endpoint : List EndpointHash → LbContext F → Outcome ℕ
      choose_consistent_hash_endpoint ring c =
          let key : Bytes = elim c.hash_key [ none ↦ c.remote_host | some k ↦ k ] in
          elim c.balance_factor [
            | none ↦ search ring key c
            | some factor ↦ bounded_load_search ring key factor c
          ]

      unfoldable pub apply : List EndpointHash → LbContext F → Outcome LbEndpoint
      apply ring c =
          if length c.lb_endpoints == 1
          then endpoint_at c.lb_endpoints 0
          else elim (choose_consistent_hash_endpoint ring c) [
            | returned i ↦ endpoint_at c.route_endpoints i
            | panics ↦ panics
            | never_returns ↦ never_returns
          ]
