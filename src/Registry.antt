-- ===== src/Registry.antt =====
-- services/model-registry/src/lib.rs: the registered models and the nodes that cache them. What
-- `register_model` reads of the model's file and of the cache directory is an argument; the files that
-- it copies and that `unregister_model` removes are not kept track of.
pub mod Caching
pub mod Tests
use Prim.Native.String.{slice, ◌++◌ as str_append}
use mathlib.Core.Option.{get_or}
use tensorgrid.Base.{
  ℕ, ◌+◌, String, Bool, true, false, ◌||◌, Option, none, some, List, [], ◌∷◌, ◌++◌, map, length,
  contains, retain, retain_ne, sum_u64, if◌then◌else◌, Result, ok, err, ◌>>=◌, after, id_key,
  name_key,
}
use tensorgrid.HashMap.{HashMap, get, insert, remove, modify, values}
use tensorgrid.Types.{ModelId, NodeId, DateTime}

pub record ModelMetadata : Type 0 where
  pub model_id : ModelId
  pub name : String
  pub architecture : String
  pub parameter_count : ℕ  -- u64
  pub context_length : ℕ  -- u64
  pub quantization : String
  pub file_size_bytes : ℕ  -- u64
  pub checksum : String
  pub file_path : String
  pub cached_nodes : List NodeId
  pub registered_at : DateTime
  pub last_accessed : DateTime

pub record ModelRegistry : Type 0 where
  pub models : HashMap ModelId ModelMetadata
  pub cache_dir : String

pub record RegistryStats : Type 0 where
  pub total_models : ℕ
  pub total_size_bytes : ℕ  -- u64
  pub total_cache_nodes : ℕ

pub data RegistryError : Type 0 where
  not_parsed not_read not_copied : RegistryError
  model_not_found : ModelId → RegistryError

-- What the parser finds in the file's header.
pub record Parsed : Type 0 where
  pub architecture : Option String
  pub parameter_count : Option ℕ
  pub context_length : Option ℕ

-- What comes from the file system: the parsed file, its length, the checksum of 64 hexadecimal digits,
-- and whether the cache has the file or takes a copy.
pub record Reading : Type 0 where
  pub parsed : Option Parsed
  pub len : Option ℕ
  pub checksum : Option String
  pub is_copied : Bool
  pub copy_succeeds : Bool

unfoldable pub new : String → ModelRegistry
new cache_dir = record { models = []; cache_dir = cache_dir }

unfoldable pub cache_path : ModelRegistry → String → String
cache_path r checksum =
    str_append r.cache_dir
      (str_append "/" (str_append (slice checksum 0 2) (str_append "/" checksum)))

abbrev pub or_err {ℓ} : {E A : Type ℓ} → Option A → E → Result E A
or_err none e = err e
or_err (some a) e = ok a

abbrev pub new_metadata :
    Parsed → ℕ → String → String → DateTime → DateTime → ModelRegistry → ModelMetadata
new_metadata p len checksum name registered accessed r =
    let architecture = get_or p.architecture "unknown" in
    record {
      model_id = str_append architecture (str_append "-" (slice checksum 0 16));
      name = name;
      architecture = architecture;
      parameter_count = get_or p.parameter_count 0;
      context_length = get_or p.context_length 2048;
      quantization = "q4_k_m";
      file_size_bytes = len;
      checksum = checksum;
      file_path = cache_path r checksum;
      cached_nodes = [];
      registered_at = registered;
      last_accessed = accessed;
    }

unfoldable pub register_model :
    Reading
    → String
    → DateTime
    → DateTime
    → ModelRegistry
    → Result RegistryError (ModelRegistry × ModelMetadata)
register_model x name registered accessed r = do
  p ← or_err x.parsed not_parsed
  len ← or_err x.len not_read
  checksum ← or_err x.checksum not_read
  let metadata = new_metadata p len checksum name registered accessed r
  if x.is_copied || x.copy_succeeds
      then ok (record r { models = insert metadata.model_id metadata r.models }, metadata)
      else err not_copied

abbrev pub accessed_at : DateTime → ModelMetadata → ModelMetadata
accessed_at now m = record m { last_accessed = now }

unfoldable pub get_model : ModelId → DateTime → ModelRegistry → ModelRegistry × Option ModelMetadata
get_model id now r = elim (get id r.models) [
  | none ↦ (r, none)
  | some m ↦ (record r { models = modify id (accessed_at now) r.models }, some (accessed_at now m))
]

unfoldable pub list_models : ModelRegistry → List ModelMetadata
list_models r = values r.models

abbrev pub cache_on : NodeId → ModelMetadata → ModelMetadata
cache_on n m =
    if contains n m.cached_nodes then m else record m { cached_nodes = m.cached_nodes ++ n ∷ [] }

unfoldable pub mark_cached : ModelId → NodeId → ModelRegistry → Result RegistryError ModelRegistry
mark_cached id n r = elim (get id r.models) [
  | none ↦ err (model_not_found id)
  | some _ ↦ ok (record r { models = modify id (cache_on n) r.models })
]

abbrev pub drop_from : NodeId → ModelMetadata → ModelMetadata
drop_from n m = record m { cached_nodes = retain_ne n m.cached_nodes }

unfoldable pub unmark_cached : ModelId → NodeId → ModelRegistry → Result RegistryError ModelRegistry
unmark_cached id n r = elim (get id r.models) [
  | none ↦ err (model_not_found id)
  | some _ ↦ ok (record r { models = modify id (drop_from n) r.models })
]

unfoldable pub is_cached_on_node : ModelId → NodeId → ModelRegistry → Bool
is_cached_on_node id n r = elim (get id r.models) [
  | none ↦ false
  | some m ↦ contains n m.cached_nodes
]

unfoldable pub get_models_on_node : NodeId → ModelRegistry → List ModelMetadata
get_models_on_node n r = retain (λ m. contains n m.cached_nodes) (values r.models)

unfoldable pub unregister_model : ModelId → ModelRegistry → Result RegistryError ModelRegistry
unregister_model id r = elim (get id r.models) [
  | none ↦ err (model_not_found id)
  | some _ ↦ ok (record r { models = remove id r.models })
]

unfoldable pub get_stats : ModelRegistry → RegistryStats
get_stats r = record {
  total_models = length r.models;
  total_size_bytes = sum_u64 0 (map (λ m. m.file_size_bytes) (values r.models));
  total_cache_nodes = sum_u64 0 (map (λ m. length m.cached_nodes) (values r.models));
}

-- A call that changes the registry; a failed one leaves it.
pub data Op : Type 0 where
  register : Reading → String → DateTime → DateTime → Op
  access : ModelId → DateTime → Op
  mark unmark : ModelId → NodeId → Op
  unregister : ModelId → Op

unfoldable pub step : ModelRegistry → Op → ModelRegistry
step r (register x name registered accessed) = elim (register_model x name registered accessed r) [
  | ok (r', _) ↦ r'
  | err _ ↦ r
]
step r (access id now) = (get_model id now r).0
step r (mark id n) = after r (mark_cached id n r)
step r (unmark id n) = after r (unmark_cached id n r)
step r (unregister id) = after r (unregister_model id r)

unfoldable pub run : ModelRegistry → List Op → ModelRegistry
run r [] = r
run r (o ∷ os) = run (step r o) os
