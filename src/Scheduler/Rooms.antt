-- ===== src/Scheduler/Rooms.antt =====
-- services/scheduler/src/lib.rs: the sessions against the node allocations.
use tensorgrid.Base.{
  ℕ, ◌+◌, ◌-◌, ◌≤◌, ◌≡◌, ◌∙◌, refl, sym, subst, some, List, [], ◌∷◌, arith, All, if_pos, if_neg,
  id_key, ℕ_discrete, Bool-cases, Option-cases, inl, inr, after,
}
use mathlib.Core.Option.{some-injective}
use tensorgrid.HashMap.{HashMap, get, insert, remove}
use tensorgrid.HashMap.Values.{AllValues, get-AllValues, insert-AllValues, remove-AllValues}
use tensorgrid.Float.{Float, IsExact}
use tensorgrid.Types.{NodeId, SessionId, DateTime, LogicalCluster}
use tensorgrid.Planner.{is_empty}
use tensorgrid.Scheduler.{
  ResourceAllocation, ScheduledSession, Scheduler, ScheduleRequest, Op, request, release, new, step,
  run, schedule, schedule_on, select_nodes, check_admission, session_on, release_session,
  reserve_resources, allocate, calculate_allocations, per_node,
}
use tensorgrid.Scheduler.Metering.{entries, IsUse, IsQuantum, reserve-Reserved, release-IsUse}

module _ {F : Type 0} where
  -- How many sessions hold the node.
  pub holders : NodeId → HashMap SessionId (ScheduledSession F) → ℕ
  holders j [] = 0
  holders j ((_, s) ∷ m) = entries j s.allocated_resources + holders j m

  holders-insert :
      (j : NodeId) (id : SessionId) (s : ScheduledSession F)
      (m : HashMap SessionId (ScheduledSession F))
      → holders j (insert id s m) ≤ entries j s.allocated_resources + holders j m
  unfolding holders insert
  holders-insert j id s [] = omega arith
  holders-insert j id s ((i, t) ∷ m) = elim (ℕ_discrete i id) [
    | yes e ↦ rw (if_pos (ℕ_discrete i id) e) (omega arith)
    | no e ↦ rw (if_neg (ℕ_discrete i id) e) (omega (arith, holders-insert j id s m))
  ]

  holders-remove_le :
      (j : NodeId) (id : SessionId) (m : HashMap SessionId (ScheduledSession F))
      → holders j (remove id m) ≤ holders j m
  unfolding holders remove
  holders-remove_le j id [] = omega arith
  holders-remove_le j id ((i, t) ∷ m) = elim (ℕ_discrete i id) [
    | yes e ↦ rw (if_pos (ℕ_discrete i id) e) (omega (arith, holders-remove_le j id m))
    | no e ↦ rw (if_neg (ℕ_discrete i id) e) (omega (arith, holders-remove_le j id m))
  ]

  holders-remove :
      (j : NodeId) (id : SessionId) (s : ScheduledSession F)
      (m : HashMap SessionId (ScheduledSession F))
      → get id m ≡ some s
      → entries j s.allocated_resources + holders j (remove id m) ≤ holders j m
  unfolding holders remove get
  holders-remove j id s [] h = cc
  holders-remove j id s ((i, t) ∷ m) h = elim (ℕ_discrete i id) [
    | yes e ↦
        let found = sym (if_pos (ℕ_discrete i id) e (some t) (get id m)) ∙ h in
        rw (if_pos (ℕ_discrete i id) e) (
          subst
            (λ x.
              entries j x.allocated_resources + holders j (remove id m)
              ≤ entries j t.allocated_resources + holders j m)
            (some-injective t s found) (omega (arith, holders-remove_le j id m)))
    | no e ↦ rw (if_neg (ℕ_discrete i id) e) (
        omega (
          arith,
          holders-remove j id s m (sym (if_neg (ℕ_discrete i id) e (some t) (get id m)) ∙ h),
        ))
  ]

module _ {F : Type 0} (fl : Float F) where
  abbrev pub HasQuanta : ScheduledSession F → Type 0
  HasQuanta s = All (IsQuantum fl) s.allocated_resources

  allocate-HasQuanta :
      (m : HashMap NodeId (ResourceAllocation F)) (ids : List NodeId)
      → All (IsQuantum fl) m
      → All (IsQuantum fl) (allocate fl m ids)
  unfolding allocate insert
  allocate-HasQuanta m [] h = h
  allocate-HasQuanta m (id ∷ ids) h =
      allocate-HasQuanta (insert id (per_node fl id) m) ids (insert_quantum id m h)
    where
      insert_quantum :
          (id : NodeId) (m : HashMap NodeId (ResourceAllocation F))
          → All (IsQuantum fl) m
          → All (IsQuantum fl) (insert id (per_node fl id) m)
      insert_quantum id [] h = (refl, tt)
      insert_quantum id ((j, a) ∷ m) h = elim (ℕ_discrete j id) [
        | yes same ↦ rw (if_pos (ℕ_discrete j id) same) (refl, h.1)
        | no other ↦ rw (if_neg (ℕ_discrete j id) other) (h.0, insert_quantum id m h.1)
      ]

  -- The use of every node is a number of quanta, at most three and no less than its sessions hold.
  pub record IsMetered (s : Scheduler F) : Type 0 where
    pub quanta : AllValues HasQuanta s.sessions
    pub metered :
        (j : NodeId)
        → (k : ℕ) × IsUse fl k (get j s.node_allocations) × (holders j s.sessions ≤ k) × (k ≤ 3)

module _ {F : Type 0} (fl : Float F) (exact : IsExact fl) where
  new-IsMetered : (c : LogicalCluster F) → IsMetered fl (new c)
  unfolding new get IsUse holders
  new-IsMetered c = record { quanta = tt; metered = λ j. (0, refl, omega arith, omega arith) }

  schedule_on-IsMetered :
      (r : ScheduleRequest) (now : DateTime) (ids : List NodeId) (s : Scheduler F)
      → IsMetered fl s
      → IsMetered fl (schedule_on fl r now ids s).1
  unfolding schedule_on calculate_allocations
  schedule_on-IsMetered r now ids s h =
      let session = session_on fl r now ids s.cluster in
      let allocations = calculate_allocations fl ids in
      let reserved = reserve_resources fl r.session_id allocations s.node_allocations in
      let each : HasQuanta fl session = allocate-HasQuanta fl [] ids tt in
      elim (Bool-cases (is_empty ids)) [
        | inl no_node ↦ rw no_node h
        | inr some_node ↦ rw some_node (elim (Option-cases reserved.0) [
          | inl done ↦ rw done (record {
            quanta = insert-AllValues (HasQuanta fl) r.session_id session s.sessions h.quanta each;
            metered = λ j.
                let (k, used, covers, few) = h.metered j in
                let (k', used', more, few', counted) =
                  reserve-Reserved fl exact r.session_id allocations s.node_allocations j k each few
                    used in
                (
                  k',
                  used',
                  omega (arith, counted done, holders-insert j r.session_id session s.sessions),
                  few',
                );
          })
          | inr (e, failed) ↦ rw failed (record {
            quanta = h.quanta;
            metered = λ j.
                let (k, used, covers, few) = h.metered j in
                let (k', used', more, few', _) =
                  reserve-Reserved fl exact r.session_id allocations s.node_allocations j k each few
                    used in
                (k', used', omega arith, few');
          })
        ])
      ]

  release-IsMetered :
      (id : SessionId) (s : Scheduler F)
      → IsMetered fl s
      → IsMetered fl (after s (release_session fl id s))
  unfolding release_session
  release-IsMetered id s h = elim (Option-cases (get id s.sessions)) [
    | inl missing ↦ rw (missing, after) h
    | inr (session, found) ↦
        let held = session.allocated_resources in
        let each = get-AllValues (HasQuanta fl) id s.sessions session h.quanta found in
        rw (found, after)
          (record {
            quanta = remove-AllValues (HasQuanta fl) id s.sessions h.quanta;
            metered = λ j.
                let (k, used, covers, few) = h.metered j in
                let fewer = holders-remove j id session s.sessions found in
                (
                  k - entries j held,
                  release-IsUse fl exact id held s.node_allocations j k each few (omega arith) used,
                  omega arith,
                  omega arith,
                );
          })
  ]

  step-IsMetered : (s : Scheduler F) (o : Op) → IsMetered fl s → IsMetered fl (step fl s o)
  unfolding step schedule
  step-IsMetered s (request r now) h = elim (Bool-cases (check_admission r s.cluster)) [
    | inl admitted ↦
        rw (admitted, step)
          (elim (Option-cases (select_nodes fl s.cluster)) [
            | inl panicked ↦ rw panicked h
            | inr (ids, selected) ↦ rw selected (schedule_on-IsMetered r now ids s h)
          ])
    | inr rejected ↦ rw (rejected, step) h
  ]
  step-IsMetered s (release id) h = release-IsMetered id s h

  run-IsMetered_from :
      (s : Scheduler F) (os : List Op) → IsMetered fl s → IsMetered fl (run fl s os)
  unfolding run
  run-IsMetered_from s [] h = h
  run-IsMetered_from s (o ∷ os) h = run-IsMetered_from (step fl s o) os (step-IsMetered s o h)

-- Where integers up to 2^24 are exact as floats: after any calls on a new scheduler, failed ones
-- included, each allocation of a session is 30 % of the CPU, 4 GiB of memory and 2 GiB of device
-- memory, and the use of each node is a number of these, at most three and no less than the
-- sessions hold there; so at most 90 % of its CPU is reserved, and what a release takes off is
-- there.
pub run-IsMetered :
    {F : Type 0} (fl : Float F)
    → IsExact fl
    → (c : LogicalCluster F) (os : List Op) → IsMetered fl (run fl (new c) os)
run-IsMetered fl exact c os = run-IsMetered_from fl exact (new c) os (new-IsMetered fl exact c)
