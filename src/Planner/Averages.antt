-- ===== src/Planner/Averages.antt =====
-- services/planner/src/lib.rs: `calculate_average_bandwidth` and `calculate_average_latency`.
use native.Mathlib.Nat.{mod-eq_of_lt}
use tensorgrid.Base.{
  ℕ, ◌+◌, ◌*◌, ◌/◌, ◌^◌, ◌≤◌, ◌<◌, ◌≢◌, refl, List, [], ◌∷◌, map, arith, length, sum,
  sum_u32-eq-sum, All, length-map,
}
use tensorgrid.Types.{ClusterTopology}
use tensorgrid.Planner.{average, average_bandwidth, average_latency}

abbrev pub bandwidths : {F : Type 0} → ClusterTopology F → List ℕ
bandwidths t = map (λ l. l.bandwidth_mbps) t.links

abbrev pub latencies : {F : Type 0} → ClusterTopology F → List ℕ
latencies t = map (λ l. l.latency_us) t.links

map-ne-nil {ℓ} : {A : Type ℓ} (f : A → ℕ) (xs : List A) → xs ≢ [] → map f xs ≢ []
map-ne-nil f [] h = λ _. h refl
map-ne-nil f (x ∷ xs) h = λ e. cc

-- Every value lies in the range.
abbrev pub AllWithin : ℕ → ℕ → List ℕ → Type 0
AllWithin lo hi = All (λ x. (lo ≤ x) × (x ≤ hi))

sum_within :
    (lo hi : ℕ) (xs : List ℕ)
    → AllWithin lo hi xs
    → (lo * length xs ≤ sum xs) × (sum xs ≤ hi * length xs)
unfolding sum
sum_within lo hi [] h = omega arith
sum_within lo hi (x ∷ xs) h = omega (arith, sum_within lo hi xs h.1)

div_within : (lo hi s n : ℕ) → 0 < n → lo * n ≤ s → s ≤ hi * n → (lo ≤ s / n) × (s / n ≤ hi)
div_within lo hi s n h low high = (grind arith, grind arith)

pub average_within :
    (lo hi : ℕ) (xs : List ℕ)
    → xs ≢ []
    → AllWithin lo hi xs
    → sum xs < 2 ^ 32
    → length xs < 2 ^ 32
    → (lo ≤ average xs) × (average xs ≤ hi)
average_within lo hi [] some_link h fits few = absurd (some_link refl)
average_within lo hi (x ∷ xs) some_link h fits few =
    let (low, high) = sum_within lo hi (x ∷ xs) h in
    rw (sum_u32-eq-sum 0 (x ∷ xs) (omega arith), mod-eq_of_lt few)
      (div_within lo hi (0 + sum (x ∷ xs)) (length (x ∷ xs)) (omega arith) (omega arith)
        (omega arith))

-- Where there is at least one link and fewer than 2^32, the bandwidths and the latencies each lie
-- in a range, and their sums fit in a u32, the average bandwidth and the average latency lie in
-- the ranges too.
pub averages_within :
    {F : Type 0} (t : ClusterTopology F) (lo hi lo' hi' : ℕ)
    → t.links ≢ []
    → length t.links < 2 ^ 32
    → AllWithin lo hi (bandwidths t)
    → sum (bandwidths t) < 2 ^ 32
    → AllWithin lo' hi' (latencies t)
    → sum (latencies t) < 2 ^ 32
    → ((lo ≤ average_bandwidth t) × (average_bandwidth t ≤ hi))
      × ((lo' ≤ average_latency t) × (average_latency t ≤ hi'))
unfolding average_bandwidth average_latency
averages_within t lo hi lo' hi' some_link few b bs l ls = (
  average_within lo hi (bandwidths t) (map-ne-nil (λ k. k.bandwidth_mbps) t.links some_link) b bs
      (omega (arith, length-map (λ k. k.bandwidth_mbps) t.links)),
  average_within lo' hi' (latencies t) (map-ne-nil (λ k. k.latency_us) t.links some_link) l ls
      (omega (arith, length-map (λ k. k.latency_us) t.links)),
)
