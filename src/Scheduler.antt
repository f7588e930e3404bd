-- ===== src/Scheduler.antt =====
-- services/scheduler/src/lib.rs: admission, selection and reservation of nodes for sessions. Metrics
-- and log lines are left out. A call is one step: `schedule` in fact reserves on the nodes before it takes
-- the lock of the sessions, and a call that comes between the two is not modelled.
pub mod Selection
pub mod Metering
pub mod Rooms
pub mod Tests
use mathlib.Core.Option
use tensorgrid.Base.{
  ℕ, ◌+◌, ◌*◌, ◌^◌, Bool, true, false, not, ◌&&◌, Option, none, some, List, [], ◌∷◌, ◌++◌, map,
  take, length, retain, retain_ne, ltb, if◌then◌else◌, u64, u64_sub, sum_u64, Result, ok, err,
  after, id_key, String,
}
use mathlib.Core.Option.{get_or}
use Prim.Native.Nat.{Ordering}
use tensorgrid.HashMap.{HashMap, get, insert, remove, modify, values}
use tensorgrid.Float.{Float, gt}
use tensorgrid.Types.{
  NodeId, SessionId, ModelId, DateTime, PhysicalNode, GpuCapabilities, LogicalCluster,
}
use tensorgrid.Planner.{is_healthy, is_empty}

pub data RequestPriority : Type 0 where
  low normal high interactive : RequestPriority

pub record ScheduleRequest : Type 0 where
  pub session_id : SessionId
  pub model_id : ModelId
  pub context_length : ℕ  -- u32
  pub batch_size : ℕ  -- u32
  pub priority : RequestPriority

pub record ResourceAllocation (F : Type 0) : Type 0 where
  pub node_id : NodeId
  pub cpu_percent : F
  pub ram_bytes : ℕ  -- u64
  pub vram_bytes : ℕ  -- u64

pub record ScheduledSession (F : Type 0) : Type 0 where
  pub session_id : SessionId
  pub model_id : ModelId
  pub assigned_nodes : List NodeId
  pub allocated_resources : HashMap NodeId (ResourceAllocation F)
  pub priority : RequestPriority
  pub scheduled_at : DateTime
  pub estimated_tokens_per_second : F

pub record NodeAllocation (F : Type 0) : Type 0 where
  pub allocated_cpu_percent : F
  pub allocated_ram_bytes : ℕ  -- u64
  pub allocated_vram_bytes : ℕ  -- u64
  pub active_sessions : List SessionId

pub record Scheduler (F : Type 0) : Type 0 where
  pub cluster : LogicalCluster F
  pub sessions : HashMap SessionId (ScheduledSession F)
  pub node_allocations : HashMap NodeId (NodeAllocation F)

pub data ScheduleError : Type 0 where
  admission_rejected no_available_nodes : ScheduleError
  insufficient_resources : NodeId → ScheduleError
  session_not_found : ScheduleError
  internal : String → ScheduleError

pub record SchedulerStats (F : Type 0) : Type 0 where
  pub active_sessions : ℕ  -- usize
  pub total_allocated_cpu : F
  pub total_allocated_ram : ℕ  -- u64
  pub total_allocated_vram : ℕ  -- u64

unfoldable pub new : {F : Type 0} → LogicalCluster F → Scheduler F
new cluster = record { cluster = cluster; sessions = []; node_allocations = [] }

unfoldable pub check_admission : {F : Type 0} → ScheduleRequest → LogicalCluster F → Bool
check_admission r c =
    let required_ram = u64 (r.context_length * 1024) in
    let required_vram = u64 (r.context_length * 512) in
    ltb required_ram c.logical_resources.host_memory_bytes
    && ltb required_vram c.logical_resources.device_memory_bytes

module _ {F : Type 0} (fl : Float F) where
  abbrev gigabytes : ℕ → F
  gigabytes n = fl.div (fl.of_ℕ n) (fl.of_ℕ (1024 * 1024 * 1024))

  unfoldable pub gpus_score : F → List GpuCapabilities → F
  gpus_score score [] = score
  gpus_score score (gpu ∷ gpus) =
      gpus_score (fl.add score (fl.mul (gigabytes gpu.vram_bytes) (fl.of_ℕ 20))) gpus

  unfoldable pub calculate_node_score : PhysicalNode F → F
  calculate_node_score node =
      let cpu = fl.add (fl.of_ℕ 0) (fl.mul (fl.of_ℕ node.capabilities.cpu.cores) (fl.of_ℕ 10)) in
      let ram =
        fl.add cpu (fl.mul (gigabytes node.capabilities.memory.available_bytes) (fl.of_ℕ 5)) in
      let score = gpus_score ram node.capabilities.gpus in
      if gt fl node.resources.cpu_usage_percent (fl.of_ℕ 80)
      then fl.mul score (fl.lit 5 1)
      else score

  abbrev pub Scored : Type 0
  Scored = NodeId × F

  -- `sort_by(|a, b| b.1.partial_cmp(&a.1).unwrap())`, which panics beside a NaN (`none`) and keeps the
  -- order of equal scores.
  unfoldable pub insert_scored : Scored → List Scored → Option (List Scored)
  insert_scored x [] = some (x ∷ [])
  insert_scored x (y ∷ ys) =
      let rest = insert_scored x ys in
      elim (fl.partial_cmp y.1 x.1) [
        | none ↦ none
        | some o ↦ elim o [ Ordering.gt ↦ Option.map (◌∷◌ y) rest | _ ↦ some (x ∷ y ∷ ys) ]
      ]

  unfoldable pub sort_scored : List Scored → Option (List Scored)
  sort_scored [] = some []
  sort_scored (x ∷ xs) = elim (sort_scored xs) [ none ↦ none | some ys ↦ insert_scored x ys ]

  abbrev pub scored : NodeId × PhysicalNode F → Scored
  scored (id, node) = (id, calculate_node_score node)

  unfoldable pub select_nodes : LogicalCluster F → Option (List NodeId)
  select_nodes c =
      Option.map (λ sorted. map (λ (s : Scored). s.0) (take 3 sorted))
        (sort_scored (map scored (retain is_healthy c.nodes)))

  abbrev pub per_node : NodeId → ResourceAllocation F
  per_node id = record {
    node_id = id;
    cpu_percent = fl.of_ℕ 30;
    ram_bytes = 4 * 1024 * 1024 * 1024;
    vram_bytes = 2 * 1024 * 1024 * 1024;
  }

  -- The loop over the nodes, from a map of the earlier ones.
  unfoldable pub allocate :
      HashMap NodeId (ResourceAllocation F) → List NodeId → HashMap NodeId (ResourceAllocation F)
  allocate allocations [] = allocations
  allocate allocations (id ∷ ids) = allocate (insert id (per_node id) allocations) ids

  unfoldable pub calculate_allocations : List NodeId → HashMap NodeId (ResourceAllocation F)
  calculate_allocations = allocate []

  abbrev pub unused : NodeAllocation F
  unused = record {
    allocated_cpu_percent = fl.of_ℕ 0;
    allocated_ram_bytes = 0;
    allocated_vram_bytes = 0;
    active_sessions = [];
  }

  abbrev pub charge : SessionId → ResourceAllocation F → NodeAllocation F → NodeAllocation F
  charge id a n = record {
    allocated_cpu_percent = fl.add n.allocated_cpu_percent a.cpu_percent;
    allocated_ram_bytes = u64 (n.allocated_ram_bytes + a.ram_bytes);
    allocated_vram_bytes = u64 (n.allocated_vram_bytes + a.vram_bytes);
    active_sessions = n.active_sessions ++ id ∷ [];
  }

  -- The loop over the allocations, which returns at the first node without room.
  unfoldable pub reserve_resources :
      SessionId
      → HashMap NodeId (ResourceAllocation F)
      → HashMap NodeId (NodeAllocation F)
      → Option ScheduleError × HashMap NodeId (NodeAllocation F)
  reserve_resources id [] nodes = (none, nodes)
  reserve_resources id ((node_id, a) ∷ rest) nodes =
      let n = get_or (get node_id nodes) unused in
      let reserved = reserve_resources id rest (insert node_id (charge id a n) nodes) in
      if gt fl (fl.add n.allocated_cpu_percent a.cpu_percent) (fl.of_ℕ 100)
      then (some (insufficient_resources node_id), insert node_id n nodes)
      else reserved

  unfoldable pub node_throughput : F → List GpuCapabilities → F
  node_throughput total [] = total
  node_throughput total (gpu ∷ gpus) =
      node_throughput (fl.add total (fl.mul (gigabytes gpu.vram_bytes) (fl.of_ℕ 2))) gpus

  unfoldable pub total_throughput : LogicalCluster F → F → List NodeId → F
  total_throughput c total [] = total
  total_throughput c total (id ∷ ids) =
      total_throughput c
        (elim (get id c.nodes) [
          | none ↦ total
          | some node ↦
              node_throughput (fl.add total (fl.of_ℕ node.capabilities.cpu.cores))
                node.capabilities.gpus
        ])
        ids

  unfoldable pub estimate_throughput : List NodeId → LogicalCluster F → F
  estimate_throughput ids c =
      fl.min (fl.mul (total_throughput c (fl.of_ℕ 0) ids) (fl.lit 5 1)) (fl.of_ℕ 50)

  abbrev pub Scheduled : Type 0
  Scheduled = Result ScheduleError (ScheduledSession F) × Scheduler F

  abbrev pub session_on :
      ScheduleRequest → DateTime → List NodeId → LogicalCluster F → ScheduledSession F
  session_on r now ids c = record {
    session_id = r.session_id;
    model_id = r.model_id;
    assigned_nodes = ids;
    allocated_resources = calculate_allocations ids;
    priority = r.priority;
    scheduled_at = now;
    estimated_tokens_per_second = estimate_throughput ids c;
  }

  -- `schedule` from the selected nodes on.
  unfoldable pub schedule_on : ScheduleRequest → DateTime → List NodeId → Scheduler F → Scheduled
  schedule_on r now ids s =
      let allocations = calculate_allocations ids in
      let (failed, nodes) = reserve_resources r.session_id allocations s.node_allocations in
      let session = session_on r now ids s.cluster in
      if is_empty ids then (err no_available_nodes, s) else elim failed [
        | some e ↦ (err e, record s { node_allocations = nodes })
        | none ↦ (
          ok session,
          record s { sessions = insert r.session_id session s.sessions; node_allocations = nodes },
        )
      ]

  -- `none` is a panic, which leaves the state as it was.
  unfoldable pub schedule : ScheduleRequest → DateTime → Scheduler F → Option Scheduled
  schedule r now s =
      if not (check_admission r s.cluster)
      then some (err admission_rejected, s)
      else Option.map (λ ids. schedule_on r now ids s) (select_nodes s.cluster)

  abbrev pub discharge : SessionId → ResourceAllocation F → NodeAllocation F → NodeAllocation F
  discharge id a n = record {
    allocated_cpu_percent = fl.sub n.allocated_cpu_percent a.cpu_percent;
    allocated_ram_bytes = u64_sub n.allocated_ram_bytes a.ram_bytes;
    allocated_vram_bytes = u64_sub n.allocated_vram_bytes a.vram_bytes;
    active_sessions = retain_ne id n.active_sessions;
  }

  -- The loop over a session's allocations.
  unfoldable pub release_resources :
      SessionId
      → HashMap NodeId (ResourceAllocation F)
      → HashMap NodeId (NodeAllocation F)
      → HashMap NodeId (NodeAllocation F)
  release_resources id [] nodes = nodes
  release_resources id ((node_id, a) ∷ rest) nodes =
      release_resources id rest (modify node_id (discharge id a) nodes)

  unfoldable pub release_session : SessionId → Scheduler F → Result ScheduleError (Scheduler F)
  release_session id s = elim (get id s.sessions) [
    | none ↦ err session_not_found
    | some session ↦ ok (record s {
      sessions = remove id s.sessions;
      node_allocations = release_resources id session.allocated_resources s.node_allocations;
    })
  ]

  unfoldable pub sum_floats : F → List F → F
  sum_floats acc [] = acc
  sum_floats acc (x ∷ xs) = sum_floats (fl.add acc x) xs

  unfoldable pub get_stats : Scheduler F → SchedulerStats F
  get_stats s = record {
    active_sessions = length s.sessions;
    total_allocated_cpu =
        sum_floats (fl.of_ℕ 0)
          (map (λ (n : NodeAllocation F). n.allocated_cpu_percent) (values s.node_allocations));
    total_allocated_ram =
        sum_u64 0
          (map (λ (n : NodeAllocation F). n.allocated_ram_bytes) (values s.node_allocations));
    total_allocated_vram =
        sum_u64 0
          (map (λ (n : NodeAllocation F). n.allocated_vram_bytes) (values s.node_allocations));
  }

-- The calls on a scheduler.
pub data Op : Type 0 where
  request : ScheduleRequest → DateTime → Op
  release : SessionId → Op

module _ {F : Type 0} (fl : Float F) where
  unfoldable pub step : Scheduler F → Op → Scheduler F
  step s (request r now) = elim (schedule fl r now s) [ none ↦ s | some (_, s') ↦ s' ]
  step s (release id) = after s (release_session fl id s)

  unfoldable pub run : Scheduler F → List Op → Scheduler F
  run s [] = s
  run s (o ∷ os) = run (step s o) os
