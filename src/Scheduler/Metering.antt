-- ===== src/Scheduler/Metering.antt =====
-- services/scheduler/src/lib.rs: `reserve_resources` and the loop of `release_session` on one node, in
-- units of what a session takes: 30 % of the CPU, 4 GiB of memory and 2 GiB of device memory.
use tensorgrid.Base.{
  ℕ, ◌+◌, ◌-◌, ◌*◌, ◌≤◌, ◌<◌, ◌≡◌, ◌∙◌, sym, ap, subst, false, Option, none, some, [], ◌∷◌, arith,
  All, ite, if_pos, if_neg, id_key, ℕ_discrete, Bool-cases, inl, inr, ltb,
}
use mathlib.Core.Option
use mathlib.Core.Option.{get_or}
use tensorgrid.HashMap.{HashMap, get, insert, modify}
use tensorgrid.HashMap.Laws.{get-insert, get-modify}
use tensorgrid.Float.{Float, IsExact, gt}
use tensorgrid.Types.{NodeId, SessionId}
use tensorgrid.Scheduler.{
  ResourceAllocation, NodeAllocation, ScheduleError, reserve_resources, release_resources, charge,
  discharge, unused, per_node,
}

-- How often the key is in the map.
pub entries : {V : Type 0} → NodeId → HashMap NodeId V → ℕ
entries j [] = 0
entries j ((i, _) ∷ m) = ite (ℕ_discrete i j) 1 0 + entries j m

module _ {F : Type 0} (fl : Float F) where
  -- The node's use is that of `k` sessions; a node that is not there has none.
  unfoldable pub IsUse : ℕ → Option (NodeAllocation F) → Type 0
  IsUse k none = k ≡ 0
  IsUse k (some n) =
      (n.allocated_cpu_percent ≡ fl.of_ℕ (30 * k))
      × (n.allocated_ram_bytes ≡ 4294967296 * k)
      × (n.allocated_vram_bytes ≡ 2147483648 * k)

  -- Each allocation of a session is one quantum.
  abbrev pub IsQuantum : NodeId × ResourceAllocation F → Type 0
  IsQuantum (id, a) = a ≡ per_node fl id

module _ {F : Type 0} (fl : Float F) (exact : IsExact fl) where
  or_unused :
      (k : ℕ) (o : Option (NodeAllocation F))
      → IsUse fl k o
      → IsUse fl k (some (get_or o (unused fl)))
  unfolding IsUse
  or_unused k none h = (ap (λ i. fl.of_ℕ (30 * i)) (sym h), omega arith, omega arith)
  or_unused k (some n) h = h

  charge-IsUse :
      (id : SessionId) (j : NodeId) (k : ℕ) (n : NodeAllocation F)
      → k < 3
      → IsUse fl k (some n)
      → IsUse fl (k + 1) (some (charge fl id (per_node fl j) n))
  unfolding IsUse
  charge-IsUse id j k n few (cpu, ram, vram) = (
    ap (λ x. fl.add x (fl.of_ℕ 30)) cpu
        ∙ exact.add_exact (30 * k) 30 (omega arith)
        ∙ ap fl.of_ℕ (omega arith),
    omega arith,
    omega arith,
  )

  discharge-IsUse :
      (id : SessionId) (j : NodeId) (k : ℕ) (n : NodeAllocation F)
      → k ≤ 3
      → 0 < k
      → IsUse fl k (some n)
      → IsUse fl (k - 1) (some (discharge fl id (per_node fl j) n))
  unfolding IsUse
  discharge-IsUse id j k n few some_use (cpu, ram, vram) = (
    ap (λ x. fl.sub x (fl.of_ℕ 30)) cpu
        ∙ exact.sub_exact (30 * k) 30 (omega arith) (omega arith)
        ∙ ap fl.of_ℕ (omega arith),
    omega arith,
    omega arith,
  )

  -- A node has room for another session exactly if it has fewer than three.
  full :
      (j : NodeId) (k : ℕ) (n : NodeAllocation F)
      → k ≤ 3
      → IsUse fl k (some n)
      → gt fl (fl.add n.allocated_cpu_percent (per_node fl j).cpu_percent) (fl.of_ℕ 100) ≡ ltb 2 k
  unfolding IsUse
  full j k n few (cpu, ram, vram) =
      ap (λ x. gt fl (fl.add x (fl.of_ℕ 30)) (fl.of_ℕ 100)) cpu
      ∙ ap (λ x. gt fl x (fl.of_ℕ 100)) (exact.add_exact (30 * k) 30 (omega arith))
      ∙ exact.gt_exact (30 * k + 30) 100 (omega arith) (omega arith)
      ∙ ground arith

  module _ (i j : NodeId) (k : ℕ) (n : NodeAllocation F)
      (nodes : HashMap NodeId (NodeAllocation F)) where
    insert-same : i ≡ j → IsUse fl k (some n) → IsUse fl k (get j (insert i n nodes))
    insert-same e used = rw (get-insert i j n nodes) (rw (if_pos (ℕ_discrete i j) e) used)

    insert-other : (i ≡ j → ⊥) → IsUse fl k (get j nodes) → IsUse fl k (get j (insert i n nodes))
    insert-other e used = rw (get-insert i j n nodes) (rw (if_neg (ℕ_discrete i j) e) used)

  fits : (k : ℕ) → false ≡ ltb 2 k → k < 3
  fits k h = ground arith

  -- What a reservation makes of a node's use: no less, never more than three, and one more for each
  -- of the session's entries when it succeeds.
  abbrev pub Reserved :
      NodeId
      → ℕ
      → HashMap NodeId (ResourceAllocation F)
      → Option ScheduleError × HashMap NodeId (NodeAllocation F)
      → Type 0
  Reserved j k m (failed, nodes) =
      (k' : ℕ) × IsUse fl k' (get j nodes)
      × (k ≤ k')
      × (k' ≤ 3)
      × (failed ≡ none → k' ≡ k + entries j m)

  pub reserve-Reserved :
      (id : SessionId) (m : HashMap NodeId (ResourceAllocation F))
      (nodes : HashMap NodeId (NodeAllocation F)) (j : NodeId) (k : ℕ)
      → All (IsQuantum fl) m
      → k ≤ 3
      → IsUse fl k (get j nodes)
      → Reserved j k m (reserve_resources fl id m nodes)
  unfolding reserve_resources entries
  reserve-Reserved id [] nodes j k q few used = (k, used, omega arith, few, λ _. omega arith)
  reserve-Reserved id ((i, a) ∷ rest) nodes j k q few used =
      let n = get_or (get i nodes) (unused fl) in
      let no_room = gt fl (fl.add n.allocated_cpu_percent (fl.of_ℕ 30)) (fl.of_ℕ 100) in
      let moved : i ≡ j → IsUse fl k (get i nodes) =
        λ e. subst (λ x. IsUse fl k (get x nodes)) (sym e) used in
      let nodes' = insert i (charge fl id (per_node fl i) n) nodes in
      rw q.0 (elim (Bool-cases no_room) [
        | inl stop ↦ rw stop (elim (ℕ_discrete i j) [
          | yes e ↦ (
            k,
            insert-same i j k n nodes e (or_unused k (get i nodes) (moved e)),
            omega arith,
            few,
            λ e. cc,
          )
          | no e ↦ (k, insert-other i j k n nodes e used, omega arith, few, λ e. cc)
        ])
        | inr room ↦ rw room (elim (ℕ_discrete i j) [
          | yes e ↦
              let on_i = or_unused k (get i nodes) (moved e) in
              let few' : k < 3 = fits k (sym room ∙ full i k n few on_i) in
              let charged =
                insert-same i j (k + 1) (charge fl id (per_node fl i) n) nodes e
                  (charge-IsUse id i k n few' on_i) in
              let (k', used', more, few'', counted) =
                reserve-Reserved id rest nodes' j (k + 1) q.1 (omega arith) charged in
              (
                k',
                used',
                omega arith,
                few'',
                λ done. rw (if_pos (ℕ_discrete i j) e) (omega (arith, counted done)),
              )
          | no e ↦
              let (k', used', more, few', counted) =
                reserve-Reserved id rest nodes' j k q.1 few
                  (insert-other i j k (charge fl id (per_node fl i) n) nodes e used) in
              (
                k',
                used',
                more,
                few',
                λ done. rw (if_neg (ℕ_discrete i j) e) (omega (arith, counted done)),
              )
        ])
      ])

  discharged :
      (id : SessionId) (i : NodeId) (k : ℕ) (o : Option (NodeAllocation F))
      → k ≤ 3
      → 0 < k
      → IsUse fl k o
      → IsUse fl (k - 1) (Option.map (discharge fl id (per_node fl i)) o)
  unfolding IsUse
  discharged id i k none few some_use used = omega arith
  discharged id i k (some n) few some_use used = discharge-IsUse id i k n few some_use used

  pub release-IsUse :
      (id : SessionId) (m : HashMap NodeId (ResourceAllocation F))
      (nodes : HashMap NodeId (NodeAllocation F)) (j : NodeId) (k : ℕ)
      → All (IsQuantum fl) m
      → k ≤ 3
      → entries j m ≤ k
      → IsUse fl k (get j nodes)
      → IsUse fl (k - entries j m) (get j (release_resources fl id m nodes))
  unfolding release_resources entries
  release-IsUse id [] nodes j k q few held used =
      subst (λ x. IsUse fl x (get j nodes)) (omega arith) used
  release-IsUse id ((i, a) ∷ rest) nodes j k q few held used =
      let f = discharge fl id (per_node fl i) in
      let nodes' = modify i f nodes in
      let found = get-modify i j f nodes in
      rw q.0 (elim (ℕ_discrete i j) [
        | yes e ↦
            let held' : 1 + entries j rest ≤ k =
              subst (λ x. x + entries j rest ≤ k) (if_pos (ℕ_discrete i j) e 1 0) held in
            let here =
              sym (found ∙ if_pos (ℕ_discrete i j) e (Option.map f (get j nodes)) (get j nodes)) in
            let used' =
              subst (IsUse fl (k - 1)) here
                (discharged id i k (get j nodes) few (omega arith) used) in
            let later =
              release-IsUse id rest nodes' j (k - 1) q.1 (omega arith) (omega arith) used' in
            rw (if_pos (ℕ_discrete i j) e) (
              subst (λ x. IsUse fl x (get j (release_resources fl id rest nodes'))) (omega arith)
                later)
        | no e ↦
            let held' : entries j rest ≤ k =
              omega
                (arith, subst (λ x. x + entries j rest ≤ k) (if_neg (ℕ_discrete i j) e 1 0) held) in
            let here =
              sym (found ∙ if_neg (ℕ_discrete i j) e (Option.map f (get j nodes)) (get j nodes)) in
            let later =
              release-IsUse id rest nodes' j k q.1 few held' (subst (IsUse fl k) here used) in
            rw (if_neg (ℕ_discrete i j) e) (
              subst (λ x. IsUse fl x (get j (release_resources fl id rest nodes'))) (omega arith)
                later)
      ])
