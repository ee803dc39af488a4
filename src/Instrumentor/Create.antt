-- ===== src/Instrumentor/Create.antt =====
-- Creation and destruction of the normal instrumentor in core/kedr_coi_instrumentors.c, and of the
-- global table in core/kedr_coi_instrumentors_impl.c, which core/kedr_coi_module.c calls when the
-- module is loaded and unloaded.
use kedr_callback_operations.Prelude.{
  ℕ, Bool, Option, none, some, List, [], ◌∷◌, ◌++◌, if◌then◌else◌,
}
use kedr_callback_operations.Kernel.{Kernel, Code, success, fail, enomem, kmalloc, kfree}
use kedr_callback_operations.Payloads.Types.{Replacement}
use kedr_callback_operations.HashTable
use kedr_callback_operations.HashTable.{Table, elem_init}
use kedr_callback_operations.HashTable.Buckets.{Elem}
use kedr_callback_operations.Instrumentation.Replace.{Operations}
use kedr_callback_operations.Instrumentor.{Instrumentor, InstrumentData, at_place}
use kedr_callback_operations.Instrumentor.Data.{instrument_data_unref}

-- What exists without the instrumentor.
pub record World : Type 0 where
  pub memory : ℕ → Operations
  pub pointers : ℕ → ℕ
  pub ops_table_global : Table
  pub kernel : Kernel

-- for_each_replacement ends at the offset -1, so there are none.
unfoldable pub empty_replacements : List Replacement
empty_replacements = []

unfoldable pub or_empty : Option (List Replacement) → List Replacement
unfolding empty_replacements
or_empty none = empty_replacements
or_empty (some rs) = rs

-- No structure is at any address yet.
abbrev pub no_data : ℕ → InstrumentData
no_data a =
    let e : Elem = record { node = 0; key = 0 } in
    record {
      refs = 0;
      i_ops =
          at_place (record {
            ops_elem = record { ops_elem = e; ops_elem_global = e };
            ops_orig = λ off. 0;
          });
    }

-- The tables of a failed creation are destroyed without a callback, the last one first.
unfoldable pub destroy_table : Table → Kernel → Kernel
destroy_table t k = (HashTable.destroy none t kfree k).1

-- Behind the allocation of the structure, and behind each table.
unfoldable pub third_table :
    List Replacement
    → (ℕ → Bool)
    → World
    → (objects idata : Table) → Option Table × Kernel
    → Option Instrumentor × Kernel
unfolding destroy_table
third_table rs at_place? w objects idata (none, k) =
    (none, kfree (destroy_table objects (destroy_table idata k)))
third_table rs at_place? w objects idata (some foreign, k) = (
  some (record {
    state = record {
      memory = w.memory;
      ops_table_global = w.ops_table_global;
      idata_table = idata;
      kernel = k;
    };
    objects_table = objects;
    foreign_ops_p_table = foreign;
    replacements = rs;
    replace_at_place = at_place?;
    idatas = no_data;
    searches = λ node. 0;
    watches = λ node. 0;
    pointers = w.pointers;
  }),
  k,
)

unfoldable pub second_table :
    List Replacement
    → (ℕ → Bool)
    → World
    → Table
    → Option Table × Kernel
    → Option Instrumentor × Kernel
unfolding third_table HashTable.init destroy_table
second_table rs at_place? w objects (none, k) = (none, kfree (destroy_table objects k))
second_table rs at_place? w objects (some idata, k) =
    third_table rs at_place? w objects idata (HashTable.init k)

unfoldable pub first_table :
    List Replacement → (ℕ → Bool) → World → Option Table × Kernel → Option Instrumentor × Kernel
unfolding second_table HashTable.init
first_table rs at_place? w (none, k) = (none, kfree k)
first_table rs at_place? w (some objects, k) =
    second_table rs at_place? w objects (HashTable.init k)

-- NULL if there is no memory.
unfoldable pub kedr_coi_instrumentor_create :
    Option (List Replacement) → (ℕ → Bool) → World → Option Instrumentor × Kernel
unfolding or_empty first_table HashTable.init
kedr_coi_instrumentor_create rs at_place? w =
    let (ok, k) = kmalloc w.kernel in
    if ok then first_table (or_empty rs) at_place? w (HashTable.init k) else (none, k)

module _ (hash_ptr : ℕ → ℕ → ℕ) where
  -- The objects that were traced so far, and the instrumentor. The element itself is not unlinked.
  unfoldable pub instrumentor_destroy_watch_data_callback :
      Bool → Elem → List ℕ × Instrumentor → List ℕ × Instrumentor
  unfolding instrument_data_unref
  instrumentor_destroy_watch_data_callback trace e (traced, m) =
      let m' = instrument_data_unref hash_ptr (m.watches e.node) m in
      (
        if trace then traced ++ e.key ∷ [] else traced,
        record m' { state = record (m'.state) { kernel = kfree m'.state.kernel } },
      )

-- What the destruction leaves: the objects it traced, whether one of the three tables had an element
-- left that nobody frees, and the instrumentor and the kernel as they are then.
pub record Destroyed : Type 0 where
  pub traced : List ℕ
  pub warned : Bool × Bool × Bool
  pub rest : Instrumentor
  pub kernel : Kernel

-- Behind the destruction of the table of objects.
unfoldable pub destroy_others : Bool → List ℕ → Instrumentor → Destroyed
unfolding HashTable.destroy
destroy_others warned traced m =
    let (warned₂, k₂) = HashTable.destroy none m.foreign_ops_p_table kfree (kfree m.state.kernel) in
    let (warned₃, k₃) = HashTable.destroy none m.state.idata_table kfree k₂ in
    record { traced = traced; warned = (warned, warned₂, warned₃); rest = m; kernel = kfree k₃ }

unfoldable pub kedr_coi_instrumentor_destroy : (ℕ → ℕ → ℕ) → Bool → Instrumentor → Destroyed
unfolding HashTable.destroy instrumentor_destroy_watch_data_callback destroy_others
kedr_coi_instrumentor_destroy hash_ptr trace m =
    let (warned, (traced, m₁)) =
      HashTable.destroy (some (instrumentor_destroy_watch_data_callback hash_ptr trace))
        m.objects_table (λ s. s) ([], m) in
    destroy_others warned traced m₁

-- kedr_coi_module_init and kedr_coi_module_exit are these two calls.
unfoldable pub kedr_coi_instrumentors_init : Kernel → Code × Option Table × Kernel
unfolding HashTable.init
kedr_coi_instrumentors_init k =
    let (t, k') = HashTable.init k in
    elim t [ none ↦ (fail enomem, none, k') | some table ↦ (success, some table, k') ]

unfoldable pub kedr_coi_instrumentors_destroy : Table → Kernel → Bool × Kernel
unfolding HashTable.destroy
kedr_coi_instrumentors_destroy t k = HashTable.destroy none t kfree k
