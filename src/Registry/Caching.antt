-- ===== src/Registry/Caching.antt =====
-- services/model-registry/src/lib.rs: which nodes cache which models.
use tensorgrid.Base.{
  ◌≡◌, ◌∙◌, refl, ite, if_pos, if_neg, String, Bool, true, false, not, ◌&&◌, ◌||◌, none, some, List,
  [], ◌∷◌, ◌++◌, contains, contains-snoc, contains-retain_ne, retain_ne, arith, after, id_key,
  name_key, ℕ_discrete, String-discrete, Option-cases, Bool-cases, inl, inr,
}
use tensorgrid.HashMap.{get}
use tensorgrid.HashMap.Laws.{get-modify}
use tensorgrid.HashMap.Entries.{AllEntries, insert-AllEntries, modify-AllEntries, remove-AllEntries}
use tensorgrid.Types.{ModelId, NodeId, DateTime}
use tensorgrid.Registry.{
  ModelMetadata, ModelRegistry, Reading, register_model, get_model, mark_cached, unmark_cached,
  unregister_model, is_cached_on_node, cache_on, drop_from, accessed_at, Op, register, access, mark,
  unmark, unregister, step, run, new, new_metadata,
}

-- Whether two pairs of a model and a node are the same.
abbrev pub is_pair : ModelId → NodeId → ModelId → NodeId → Bool
is_pair id n id' n' = ite (String-discrete id id') (ite (ℕ_discrete n n') true false) false

abbrev pub is_registered : ModelId → ModelRegistry → Bool
is_registered id r = elim (get id r.models) [ none ↦ false | some _ ↦ true ]

-- After a model is marked on a node, that node caches it if the model is registered, and after it is
-- unmarked the node does not; no other node or model changes.
pub is_cached_on_node-mark_cached :
    (id id' : ModelId) (n n' : NodeId) (r : ModelRegistry)
    → (is_cached_on_node id' n' (after r (mark_cached id n r))
        ≡ (is_pair id n id' n' && is_registered id r) || is_cached_on_node id' n' r)
      × (is_cached_on_node id' n' (after r (unmark_cached id n r))
          ≡ not (is_pair id n id' n') && is_cached_on_node id' n' r)
unfolding is_cached_on_node mark_cached unmark_cached
is_cached_on_node-mark_cached id id' n n' r = elim (Option-cases (get id r.models)) [
  | inl missing ↦ (ground arith, ground arith)
  | inr (m, found) ↦ (
    ground (arith, get-modify id id' (cache_on n) r.models, contains-snoc n' n m.cached_nodes),
    ground
        (arith, get-modify id id' (drop_from n) r.models, contains-retain_ne n' n m.cached_nodes),
  )
]

-- No node is listed twice.
pub IsOnce : List NodeId → Type 0
IsOnce [] = Unit
IsOnce (n ∷ ns) = (contains n ns ≡ false) × IsOnce ns

snoc-IsOnce :
    (n : NodeId) (ns : List NodeId) → contains n ns ≡ false → IsOnce ns → IsOnce (ns ++ n ∷ [])
unfolding IsOnce contains
snoc-IsOnce n [] h u = (refl, tt)
snoc-IsOnce n (m ∷ ms) h u =
    (ground (arith, contains-snoc m n ms, u.0, h), snoc-IsOnce n ms (ground (arith, h)) u.1)

retain_ne-IsOnce : (n : NodeId) (ns : List NodeId) → IsOnce ns → IsOnce (retain_ne n ns)
unfolding IsOnce retain_ne
retain_ne-IsOnce n [] u = tt
retain_ne-IsOnce n (m ∷ ms) u = elim (ℕ_discrete m n) [
  | yes e ↦ rw (if_pos (ℕ_discrete m n) e) (retain_ne-IsOnce n ms u.1)
  | no e ↦
      rw (if_neg (ℕ_discrete m n) e)
        (ground (arith, contains-retain_ne m n ms, u.0), retain_ne-IsOnce n ms u.1)
]

-- Each model stands under its own identifier, and lists each node once.
abbrev pub IsFiled : ModelId → ModelMetadata → Type 0
IsFiled id m = (m.model_id ≡ id) × IsOnce m.cached_nodes

cache_on-IsOnce :
    (n : NodeId) (m : ModelMetadata) → IsOnce m.cached_nodes → IsOnce (cache_on n m).cached_nodes
cache_on-IsOnce n m u = elim (Bool-cases (contains n m.cached_nodes)) [
  | inl there ↦ rw there u
  | inr missing ↦ rw missing (snoc-IsOnce n m.cached_nodes missing u)
]

cache_on-model_id : (n : NodeId) (m : ModelMetadata) → (cache_on n m).model_id ≡ m.model_id
cache_on-model_id n m = elim (Bool-cases (contains n m.cached_nodes)) [
  | inl there ↦ rw there refl
  | inr missing ↦ rw missing refl
]

module _ (r : ModelRegistry) (h : AllEntries IsFiled r.models) where
  register_model-AllEntries :
      (x : Reading) (name : String) (registered accessed : DateTime)
      → AllEntries IsFiled (step r (register x name registered accessed)).models
  unfolding step register_model IsOnce
  register_model-AllEntries x name registered accessed = elim (Option-cases x.parsed) [
    | inl e ↦ rw (e, step) h
    | inr (p, e) ↦ elim (Option-cases x.len) [
      | inl e' ↦ rw (e, e', step) h
      | inr (len, e') ↦ elim (Option-cases x.checksum) [
        | inl e'' ↦ rw (e, e', e'', step) h
        | inr (checksum, e'') ↦
            let metadata = new_metadata p len checksum name registered accessed r in
            elim (Bool-cases (x.is_copied || x.copy_succeeds)) [
              | inl copied ↦
                  rw (e, e', e'', copied, step)
                    (insert-AllEntries IsFiled metadata.model_id r.models h metadata (refl, tt))
              | inr lost ↦ rw (e, e', e'', lost, step) h
            ]
      ]
    ]
  ]

  step-AllEntries : (o : Op) → AllEntries IsFiled (step r o).models
  unfolding step register_model get_model mark_cached unmark_cached unregister_model IsOnce
  step-AllEntries (register x name registered accessed) =
      register_model-AllEntries x name registered accessed
  step-AllEntries (access id now) = elim (Option-cases (get id r.models)) [
    | inl missing ↦ rw (missing, step) h
    | inr (m, found) ↦
        rw (found, step)
          (modify-AllEntries IsFiled id r.models h (accessed_at now) (λ v e. h id v e))
  ]
  step-AllEntries (mark id n) = elim (Option-cases (get id r.models)) [
    | inl missing ↦ rw (missing, after) h
    | inr (m, found) ↦
        rw (found, after)
          (modify-AllEntries IsFiled id r.models h (cache_on n)
            (λ v e. (cache_on-model_id n v ∙ (h id v e).0, cache_on-IsOnce n v (h id v e).1)))
  ]
  step-AllEntries (unmark id n) = elim (Option-cases (get id r.models)) [
    | inl missing ↦ rw (missing, after) h
    | inr (m, found) ↦
        rw (found, after)
          (modify-AllEntries IsFiled id r.models h (drop_from n)
            (λ v e. ((h id v e).0, retain_ne-IsOnce n v.cached_nodes (h id v e).1)))
  ]
  step-AllEntries (unregister id) = elim (Option-cases (get id r.models)) [
    | inl missing ↦ rw (missing, after) h
    | inr (m, found) ↦ rw (found, after) (remove-AllEntries IsFiled id r.models h)
  ]

run-AllEntries_from :
    (r : ModelRegistry) (os : List Op)
    → AllEntries IsFiled r.models
    → AllEntries IsFiled (run r os).models
unfolding run
run-AllEntries_from r [] h = h
run-AllEntries_from r (o ∷ os) h = run-AllEntries_from (step r o) os (step-AllEntries r h o)

-- After any calls on a new registry, each model is stored under its own identifier, and lists each node
-- that caches it once.
pub run-IsFiled :
    (cache_dir : String) (os : List Op) → AllEntries IsFiled (run (new cache_dir) os).models
unfolding new get
run-IsFiled cache_dir os = run-AllEntries_from (new cache_dir) os (λ id m e. cc)
