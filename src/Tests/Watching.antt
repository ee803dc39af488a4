-- ===== src/Tests/Watching.antt =====
-- The normal instrumentor of core/kedr_coi_instrumentors.c at concrete states.
use kedr_callback_operations.Prelude.{ℕ, ◌+◌, ◌≡◌, refl, true, false, none, some, [], ◌∷◌, arith}
use kedr_callback_operations.Kernel.{Kernel, success, ignored, done}
use kedr_callback_operations.HashTable
use kedr_callback_operations.HashTable.{
  Table, find_in, find_elem, init_hlist_heads, add_elem, remove_elem, add_head, elem_init,
  is_need_expand, is_need_narrow,
}
use kedr_callback_operations.HashTable.Buckets.{elements}
use kedr_callback_operations.HashTable.Unique.{IsUnique}
use kedr_callback_operations.HashTable.Destroy.{is_cons}
use kedr_callback_operations.Instrumentation.Replace.{replace_operations}
use kedr_callback_operations.Instrumentor.{Instrumentor, Addresses}
use kedr_callback_operations.Instrumentor.Data.{instrumentor_find_data}
use kedr_callback_operations.Instrumentor.Watch.{
  kedr_coi_instrumentor_watch, kedr_coi_instrumentor_forget,
  kedr_coi_instrumentor_get_orig_operation,
}
use kedr_callback_operations.Instrumentor.Create.{
  World, no_data, kedr_coi_instrumentor_create, kedr_coi_instrumentor_destroy, first_table,
  second_table, third_table, or_empty,
}
use kedr_callback_operations.Instrumentor.Acquire.{IsFresh}
use kedr_callback_operations.Instrumentor.Watching.{holds, IsWatching}
use kedr_callback_operations.Instrumentor.View.{ForgetStep, view, watched_of}
use kedr_callback_operations.Instrumentor.Forgotten.{forget-ForgetStep}
use kedr_callback_operations.Instrumentor.Watched.{Watches}
use kedr_callback_operations.Instrumentor.Refines.{watch-Watches}
use kedr_callback_operations.Instrumentor.Destroyed.{traced_objects, destroy-released}
use kedr_callback_operations.Instrumentor.Created.{Creates, create-Creates}
use kedr_callback_operations.Instrumentor.Reachable.{
  Reachable, creation, watch, Reachable-IsWatching,
}
use kedr_callback_operations.Instrumentor.Undone.{forget-watch}
use kedr_callback_operations.Tests.Data.{fair}
use kedr_callback_operations.Tests.Tables.{low_bits, low_bits-Bounded, first_fails}
use kedr_callback_operations.Tests.Instrument.{two_replacements, one_function}

abbrev no_elements : Table
no_elements = record { heads = [] ∷ [] ∷ []; bits = 1; n_elems = 0 }

no_elements-IsUnique : IsUnique low_bits no_elements
no_elements-IsUnique = record {
  valid = record { filled = record { size = refl; placed = (tt, (tt, tt)) }; counted = refl };
  nodes = tt;
  keys = tt;
}

abbrev world : Kernel → World
world k = record {
  memory = λ addr. one_function;
  pointers = λ q. 6000;
  ops_table_global = no_elements;
  kernel = k;
}

create-Creates_example :
    Creates low_bits
      (some two_replacements)
      (world first_fails)
      (kedr_coi_instrumentor_create (some two_replacements) (λ ops. true) (world first_fails))
create-Creates_example =
    create-Creates low_bits low_bits-Bounded (some two_replacements) (λ ops. true)
      (world first_fails) no_elements-IsUnique

-- Right after the creation.
abbrev pub idle : Instrumentor
idle = record {
  state = record {
    memory = λ addr. one_function;
    ops_table_global = no_elements;
    idata_table = record {
      heads = [] ∷ [] ∷ [] ∷ [] ∷ [] ∷ [] ∷ [] ∷ [] ∷ [] ∷ [] ∷ [] ∷ [] ∷ [] ∷ [] ∷ [] ∷ [] ∷ [];
      bits = 4;
      n_elems = 0;
    };
    kernel = record fair { asked = fair.asked + 4; allocated = fair.allocated + 4 };
  };
  objects_table = record {
    heads = [] ∷ [] ∷ [] ∷ [] ∷ [] ∷ [] ∷ [] ∷ [] ∷ [] ∷ [] ∷ [] ∷ [] ∷ [] ∷ [] ∷ [] ∷ [] ∷ [];
    bits = 4;
    n_elems = 0;
  };
  foreign_ops_p_table = record {
    heads = [] ∷ [] ∷ [] ∷ [] ∷ [] ∷ [] ∷ [] ∷ [] ∷ [] ∷ [] ∷ [] ∷ [] ∷ [] ∷ [] ∷ [] ∷ [] ∷ [];
    bits = 4;
    n_elems = 0;
  };
  replacements = two_replacements;
  replace_at_place = λ ops. true;
  idatas = no_data;
  searches = λ node. 0;
  watches = λ node. 0;
  pointers = λ q. 6000;
}

idle-Reachable : Reachable low_bits low_bits-Bounded idle
unfolding kedr_coi_instrumentor_create first_table second_table third_table or_empty HashTable.init
    init_hlist_heads
idle-Reachable =
    creation (some two_replacements) (λ ops. true) (world fair) no_elements-IsUnique refl

abbrev pub addresses : Addresses
addresses = record {
  idata = 900;
  node = 901;
  node_global = 902;
  node₂ = 903;
  node_global₂ = 904;
  ops_repl = 7000;
  watch_data = 905;
}

idle-IsFresh : IsFresh (holds idle.watches idle.objects_table) addresses idle
idle-IsFresh = record {
  idata = refl;
  node = refl;
  node₂ = refl;
  node_global = refl;
  node_global₂ = refl;
  apart = omega arith;
  apart_global = omega arith;
  watch_data = refl;
}

idle-IsWatching : IsWatching low_bits idle
idle-IsWatching = Reachable-IsWatching low_bits low_bits-Bounded idle-Reachable

-- Object 1 with the operations at 6000, to which the pointer at 50 points.
abbrev watching : Instrumentor
watching = (kedr_coi_instrumentor_watch low_bits addresses 1 50 idle).1

watching-Reachable : Reachable low_bits low_bits-Bounded watching
watching-Reachable = watch addresses 1 50 idle-Reachable idle-IsFresh

Reachable-IsWatching_example : IsWatching low_bits watching
Reachable-IsWatching_example = Reachable-IsWatching low_bits low_bits-Bounded watching-Reachable

watch-Watches_example :
    Watches low_bits idle 1 50 (kedr_coi_instrumentor_watch low_bits addresses 1 50 idle)
watch-Watches_example =
    watch-Watches low_bits low_bits-Bounded idle idle-IsWatching addresses 1 50 idle-IsFresh

forget-ForgetStep_example :
    IsWatching low_bits (kedr_coi_instrumentor_forget low_bits 1 (some 50) watching).1
    × ForgetStep 1 (some 50) (view low_bits watching) (
      (kedr_coi_instrumentor_forget low_bits 1 (some 50) watching).0,
      view low_bits (kedr_coi_instrumentor_forget low_bits 1 (some 50) watching).1,
    )
forget-ForgetStep_example =
    forget-ForgetStep low_bits low_bits-Bounded watching
      (Reachable-IsWatching low_bits low_bits-Bounded watching-Reachable) 1 (some 50)

destroy-released_example :
    let d = kedr_coi_instrumentor_destroy low_bits true watching in
    (d.traced ≡ traced_objects true (elements watching.objects_table.heads))
    × ((a : ℕ) → (d.rest.idatas a).refs ≡ 0)
    × ((key : ℕ) → find_elem low_bits d.rest.state.idata_table key ≡ none)
    × (d.warned ≡ (false, is_cons (elements watching.foreign_ops_p_table.heads), false))
destroy-released_example =
    destroy-released low_bits low_bits-Bounded true watching
      (Reachable-IsWatching low_bits low_bits-Bounded watching-Reachable)

forget-watch_example :
    let m' = (kedr_coi_instrumentor_watch low_bits addresses 1 50 idle).1 in
    let m'' = (kedr_coi_instrumentor_forget low_bits 1 (some 50) m').1 in
    ((m''.pointers 50 ≡ 6000) × (m''.state.memory 6000 8 ≡ 77))
    × (watched_of low_bits m'' 1 ≡ watched_of low_bits idle 1)
unfolding find_elem find_in instrumentor_find_data kedr_coi_instrumentor_watch add_elem
forget-watch_example =
    forget-watch low_bits low_bits-Bounded idle addresses 1 50 50 1 6000 8 idle-IsWatching
      idle-IsFresh refl refl (refl, (refl, tt)) refl refl

-- The first watch gives 0, and the second one 1; the original is the operation that stood at 8.
watched_once : (kedr_coi_instrumentor_watch low_bits addresses 1 50 idle).0 ≡ success
unfolding kedr_coi_instrumentor_watch find_elem find_in add_elem
watched_once = refl

watched_twice : (kedr_coi_instrumentor_watch low_bits addresses 1 50 watching).0 ≡ ignored
unfolding kedr_coi_instrumentor_watch find_elem find_in add_elem
watched_twice = refl

replaced : watching.state.memory 6000 8 ≡ 1000
unfolding kedr_coi_instrumentor_watch find_elem find_in add_elem replace_operations
replaced = refl

original_found :
    kedr_coi_instrumentor_get_orig_operation low_bits 1 6000 8 watching ≡ done (success, some 77)
unfolding kedr_coi_instrumentor_watch kedr_coi_instrumentor_get_orig_operation find_elem find_in
    add_elem
original_found = refl
