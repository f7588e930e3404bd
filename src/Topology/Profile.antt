-- ===== src/Topology/Profile.antt =====
-- crates/topology/src/lib.rs: the nodes and the links of a profile.
use tensorgrid.Base.{
  bind-ok, ℕ, zero, suc, ◌+◌, ◌≡◌, refl, String, Option, none, some, List, [], ◌∷◌, All, All-append,
  arith, ltb, if◌then◌else◌, ok, err, Result, ok-injective, id_key, subst,
}
use tensorgrid.HashMap.{HashMap, keys, get, insert}
use tensorgrid.HashMap.Laws.{get-insert}
use tensorgrid.Float.{Float}
use tensorgrid.Types.{LinkMeasurement, ClusterTopology, NodeId}
use tensorgrid.Topology.{
  push_measured, add_between, measure_jitter, acceptable, poor, estimate_link_quality, Answers,
  measure_link, add_link, add_links, placeholder, profile_nodes, profile_cluster, LinkQuality,
}

-- The grade of a link whose latency alone was measured.
abbrev pub grade : {F : Type 0} → LinkMeasurement F → LinkQuality
grade l = if ltb l.latency_us 2000 then acceptable else poor

-- The number of pairs of so many nodes.
abbrev pub pairs : ℕ → ℕ
pairs zero = 0
pairs (suc n) = n + pairs n

IsGraded : {F : Type 0} → LinkMeasurement F → Type 0
IsGraded l = estimate_link_quality l ≡ grade l

module _ {F E : Type 0} (fl : Float F) (sqrt : F → F) where
  measure_link-IsGraded :
      (a : Answers E) (l : LinkMeasurement F) → measure_link fl sqrt a ≡ ok l → IsGraded l
  unfolding IsGraded measure_link estimate_link_quality
  measure_link-IsGraded a l e =
      let (latency, measured, rest) = bind-ok a.latency _ l e in
      let (jitter, sampled, made) = bind-ok (measure_jitter fl sqrt a.samples) _ l rest in
      subst IsGraded (ok-injective _ l made) refl

abbrev IsPresent : HashMap NodeId String → NodeId → Type 0
IsPresent addresses id = (addr : String) × (get id addresses ≡ some addr)

module _ {F E : Type 0} (fl : Float F) (sqrt : F → F) (answers : String → String → Answers E)
    (addresses : HashMap NodeId String) where
  push_measured-IsGraded :
      (a : Answers E) (answer : Result E (LinkMeasurement F)) (ls : List (LinkMeasurement F))
      → measure_link fl sqrt a ≡ answer
      → All IsGraded ls
      → All IsGraded (push_measured fl sqrt answer ls)
  push_measured-IsGraded a (ok l) ls e h =
      All-append IsGraded ls (l ∷ []) h (measure_link-IsGraded fl sqrt a l e, tt)
  push_measured-IsGraded a (err x) ls e h = h

  add_between-IsGraded :
      (x y : Option String) (ls : List (LinkMeasurement F))
      → All IsGraded ls
      → All IsGraded (add_between fl sqrt answers x y ls)
  add_between-IsGraded (some x) (some y) ls h =
      push_measured-IsGraded (answers x y) (measure_link fl sqrt (answers x y)) ls refl h
  add_between-IsGraded (some x) none ls h = h
  add_between-IsGraded none y ls h = h

  add_links-IsGraded :
      (i : NodeId) (ids : List NodeId) (ls : List (LinkMeasurement F))
      → All IsGraded ls
      → All IsGraded (add_links fl sqrt answers addresses i ids ls)
  unfolding add_links
  add_links-IsGraded i [] ls h = h
  add_links-IsGraded i (j ∷ ids) ls h =
      add_links-IsGraded i ids (add_link fl sqrt answers addresses i j ls)
        (add_between-IsGraded (get i addresses) (get j addresses) ls h)

  profile_nodes-IsGraded :
      (ids : List NodeId) (t : ClusterTopology F)
      → All IsGraded t.links
      → All IsGraded (profile_nodes fl sqrt answers addresses ids t).links
  unfolding profile_nodes
  profile_nodes-IsGraded [] t h = h
  profile_nodes-IsGraded (i ∷ ids) t h =
      profile_nodes-IsGraded ids _ (add_links-IsGraded i ids t.links h)

  profile_nodes-get :
      (k : NodeId) (m : HashMap NodeId String) (t : ClusterTopology F)
      → get k (profile_nodes fl sqrt answers addresses (keys m) t).nodes
        ≡ elim (get k m) [ none ↦ get k t.nodes | some _ ↦ some (placeholder fl) ]
  unfolding profile_nodes get
  profile_nodes-get k [] t = refl
  profile_nodes-get k ((j, w) ∷ m) t = ground (
    arith,
    profile_nodes-get k m (record {
      nodes = insert j (placeholder fl) t.nodes;
      links = add_links fl sqrt answers addresses j (keys m) t.links;
    }),
    get-insert j k (placeholder fl) t.nodes,
  )

-- A profile has a node for each address and no other, all with the same description, and each of its
-- links, whatever the network answers, has the grade acceptable where its latency is below 2000 and poor
-- elsewhere.
pub profile_cluster-grades :
    {F E : Type 0} (fl : Float F) (sqrt : F → F) (answers : String → String → Answers E)
    (addresses : HashMap NodeId String)
    → let t = profile_cluster fl sqrt answers addresses in
      ((k : NodeId)
        → get k t.nodes ≡ elim (get k addresses) [ none ↦ none | some _ ↦ some (placeholder fl) ])
      × All (λ l. estimate_link_quality l ≡ grade l) t.links
unfolding profile_cluster get IsGraded
profile_cluster-grades fl sqrt answers addresses = (
  λ k. profile_nodes-get fl sqrt answers addresses k addresses (record { nodes = []; links = [] }),
  profile_nodes-IsGraded fl sqrt answers addresses (keys addresses)
      (record { nodes = []; links = [] }) tt,
)
