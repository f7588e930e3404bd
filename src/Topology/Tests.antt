-- ===== src/Topology/Tests.antt =====
-- crates/topology/src/lib.rs: a profile of three addresses.
use tensorgrid.Base.{◌≡◌, String, none, some, [], ◌∷◌, All, ok, err, id_key, ite, String-discrete}
use tensorgrid.HashMap.{HashMap, get}
use tensorgrid.Float.Ratio.{Ratio, ratio}
use tensorgrid.Types.{NodeId}
use tensorgrid.Topology.{Answers, estimate_link_quality, profile_cluster, placeholder}
use tensorgrid.Topology.Profile.{grade, profile_cluster-grades}

abbrev addresses : HashMap NodeId String
addresses = (1, "a:1") ∷ (2, "b:1") ∷ (3, "c:1") ∷ []

abbrev answers : String → String → Answers String
answers x y = record { latency = ok 50; samples = λ i. ok 50; from = 8; to = 9 }

-- No socket can be connected to c.
abbrev partly : String → String → Answers String
partly x y = record (answers x y) {
  latency = ite (String-discrete y "c:1") (err "no route") (ok 50);
}

abbrev root : Ratio → Ratio
root x = x

profile_cluster-grades_example :
    let t = profile_cluster ratio root partly addresses in
    ((k : NodeId)
      → get k t.nodes ≡ elim (get k addresses) [ none ↦ none | some _ ↦ some (placeholder ratio) ])
    × All (λ l. estimate_link_quality l ≡ grade l) t.links
profile_cluster-grades_example = profile_cluster-grades ratio root partly addresses
