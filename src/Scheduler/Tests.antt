-- ===== src/Scheduler/Tests.antt =====
-- services/scheduler/src/lib.rs: runs at concrete inputs.
use Prim.Native.Nat.{Ordering, compare}
use native.Mathlib.Nat.{mul-le-mul_right}
use tensorgrid.Base.{
  ℕ, ◌+◌, ◌*◌, ◌≤◌, ◌<◌, ◌≡◌, refl, some, List, [], ◌∷◌, arith, map, take, retain, id_key, dec_le,
}
use tensorgrid.Float.Ratio.{Ratio, ratio, ratio-IsExact}
use tensorgrid.Planner.{is_healthy}
use tensorgrid.Planner.Sample.{three}
use tensorgrid.Scheduler.{
  ScheduleRequest, normal, Op, request, release, new, run, select_nodes, Scored, scored,
  calculate_node_score, gpus_score,
}
use tensorgrid.Scheduler.Selection.{IsAtMost, IsOrdered, IsSorting, select_nodes-IsSorting}
use tensorgrid.Scheduler.Rooms.{IsMetered, run-IsMetered}

abbrev ask : ℕ → ScheduleRequest
ask id = record {
  session_id = id;
  model_id = "test-model";
  context_length = 2;
  batch_size = 1;
  priority = normal;
}

abbrev calls : List Op
calls =
    request (ask 1) 0 ∷ request (ask 2) 0 ∷ request (ask 2) 0 ∷ request (ask 3) 0 ∷ release 1 ∷ []

run-IsMetered_example : IsMetered ratio (run ratio (new three) calls)
run-IsMetered_example = run-IsMetered ratio ratio-IsExact three calls

abbrev IsFraction : Ratio → Type 0
IsFraction (a, b) = 0 < b

cross_le : (a a' b b' c c' : ℕ) → 0 < b' → a * b' ≤ b * a' → b * c' ≤ c * b' → a * c' ≤ c * a'
cross_le a a' b b' c c' pos h k = elim (dec_le (a * c') (c * a')) [
  | yes low ↦ low
  | no high ↦
      let above : c * a' + 1 ≤ a * c' = omega arith in
      omega (arith, mul-le-mul_right b' above, mul-le-mul_right c' h, mul-le-mul_right a' k)
]

le_of_cmp : (x y : ℕ) → (some (compare x y) ≡ some Ordering.gt → ⊥) → x ≤ y
le_of_cmp x y h = ground arith

cmp_of_le : (x y : ℕ) → x ≤ y → some (compare x y) ≡ some Ordering.gt → ⊥
cmp_of_le x y h = ground arith

cross :
    (a a' b b' c c' : ℕ)
    → 0 < b'
    → IsAtMost ratio (a, a') (b, b')
    → IsAtMost ratio (b, b') (c, c')
    → IsAtMost ratio (a, a') (c, c')
cross a a' b b' c c' pos h k =
    cmp_of_le (a * c') (c * a')
      (cross_le a a' b b' c c' pos (le_of_cmp (a * b') (b * a') h) (le_of_cmp (b * c') (c * b') k))

ratio-IsOrdered : IsOrdered ratio IsFraction
ratio-IsOrdered = record {
  compared = λ a b h k. (compare (a.0 * b.1) (b.0 * a.1), refl);
  turned = λ a b e. ground arith;
  chained = λ a b c n m l h k. cross a.0 a.1 b.0 b.1 c.0 c.1 m h k;
}

select_nodes-IsSorting_example :
    (sorted : List (Scored ratio)) × IsSorting ratio
      (map (scored ratio) (retain is_healthy three.nodes))
      sorted
    × (select_nodes ratio three ≡ some (map (λ s. s.0) (take 3 sorted)))
unfolding calculate_node_score gpus_score
select_nodes-IsSorting_example =
    select_nodes-IsSorting ratio IsFraction ratio-IsOrdered three (omega arith, (omega arith, tt))
