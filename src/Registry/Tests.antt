-- ===== src/Registry/Tests.antt =====
-- services/model-registry/src/lib.rs: a run at concrete inputs.
use tensorgrid.Base.{
  ◌≡◌, true, false, not, ◌&&◌, ◌||◌, none, some, List, [], ◌∷◌, after, id_key, name_key, String,
}
use tensorgrid.Registry.{
  Reading, ModelRegistry, new, run, Op, register, access, mark, unmark, mark_cached, unmark_cached,
  is_cached_on_node,
}
use tensorgrid.Registry.Caching.{
  is_pair, is_registered, is_cached_on_node-mark_cached, IsFiled, run-IsFiled,
}
use tensorgrid.HashMap.Entries.{AllEntries}

abbrev file : Reading
file = record {
  parsed =
      some (record {
        architecture = some "llama";
        parameter_count = none;
        context_length = some 4096;
      });
  len = some 100;
  checksum = some "0123456789abcdef0123456789abcdef";
  is_copied = false;
  copy_succeeds = true;
}

abbrev model : String
model = "llama-0123456789abcdef"

abbrev calls : List Op
calls = register file "m" 1 1 ∷ mark model 5 ∷ mark model 5 ∷ access model 9 ∷ unmark model 6 ∷ []

run-IsFiled_example : AllEntries IsFiled (run (new "/cache") calls).models
run-IsFiled_example = run-IsFiled "/cache" calls

abbrev filled : ModelRegistry
filled = run (new "/cache") calls

is_cached_on_node-mark_cached_example :
    (is_cached_on_node model 7 (after filled (mark_cached model 7 filled))
      ≡ (is_pair model 7 model 7 && is_registered model filled) || is_cached_on_node model 7 filled)
    × (is_cached_on_node model 7 (after filled (unmark_cached model 7 filled))
        ≡ not (is_pair model 7 model 7) && is_cached_on_node model 7 filled)
is_cached_on_node-mark_cached_example = is_cached_on_node-mark_cached model model 7 7 filled
