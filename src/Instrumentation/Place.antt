-- ===== src/Instrumentation/Place.antt =====
-- The tables of instrumented operations, and both ways to instrument, in
-- core/kedr_coi_instrumentors_impl.c. The spin lock makes each change of the tables one step. The
-- replacements are those of the instrumentor, and their offsets lie within the structure of
-- operations, so a copy of the structure is a copy of all that is looked at.
use kedr_callback_operations.Prelude.{ℕ, Bool, true, Option, none, some, List, ◌==◌, if◌then◌else◌}
use kedr_callback_operations.Kernel.{
  Kernel, Code, success, ignored, fail, enomem, ebusy, kmalloc, kfree,
}
use kedr_callback_operations.Payloads.Types.{Replacement}
use kedr_callback_operations.Payloads.Operation.{is_success}
use kedr_callback_operations.HashTable.{Table, elem_init, add_elem, find_elem, remove_elem}
use kedr_callback_operations.HashTable.Buckets.{Elem}
use kedr_callback_operations.Instrumentation.Replace.{
  Operations, operation_at_offset, replace_operations, restore_operations,
}

-- `memory` holds the structure of operations at each address.
pub record InstrumentorState : Type 0 where
  pub memory : ℕ → Operations
  pub ops_table_global : Table
  pub idata_table : Table
  pub kernel : Kernel

pub record InstrumentDataSearch : Type 0 where
  pub ops_elem : Elem
  pub ops_elem_global : Elem

pub record ApInstrumentData : Type 0 where
  pub ops_elem : InstrumentDataSearch
  -- The copy of the original operations.
  pub ops_orig : Operations

pub record UcInstrumentData : Type 0 where
  pub ops_orig_elem : InstrumentDataSearch
  pub ops_repl_elem : InstrumentDataSearch

-- `node` and `node_global` are the addresses of the elements in the structure.
unfoldable pub instrument_data_search_init : (node node_global ops : ℕ) → InstrumentDataSearch
unfolding elem_init
instrument_data_search_init node node_global ops = record {
  ops_elem = elem_init node ops;
  ops_elem_global = elem_init node_global ops;
}

abbrev pub instrument_data_search_get_ops : InstrumentDataSearch → ℕ
instrument_data_search_get_ops d = d.ops_elem.key

abbrev pub write : (ℕ → Operations) → ℕ → Operations → ℕ → Operations
write memory ops new addr = if addr == ops then new else memory addr

module _ (hash_ptr : ℕ → ℕ → ℕ) where
  -- Behind the addition to the global table: an error takes the element out of it again.
  unfoldable pub add_own :
      InstrumentorState → InstrumentDataSearch → Code × Table × Kernel → Code × InstrumentorState
  unfolding is_success
  add_own s d (success, global, k) =
      let (result, own, k') = add_elem hash_ptr s.idata_table d.ops_elem k in
      let (back, k'') = remove_elem hash_ptr global d.ops_elem_global k' in
      if is_success result
      then (success, record s { ops_table_global = global; idata_table = own; kernel = k' })
      else (result, record s { ops_table_global = back; idata_table = own; kernel = k'' })
  add_own s d (ignored, global, k) = (ignored, record s { ops_table_global = global; kernel = k })
  add_own s d (fail e, global, k) = (fail e, record s { ops_table_global = global; kernel = k })

  unfoldable pub instrumentor_add_data_search :
      InstrumentDataSearch → InstrumentorState → Code × InstrumentorState
  unfolding add_own
  instrumentor_add_data_search d s =
      elim (find_elem hash_ptr s.ops_table_global (instrument_data_search_get_ops d)) [
        | some other ↦ (fail ebusy, s)
        | none ↦ add_own s d (add_elem hash_ptr s.ops_table_global d.ops_elem_global s.kernel)
      ]

  unfoldable pub instrumentor_remove_data_search :
      InstrumentDataSearch → InstrumentorState → InstrumentorState
  instrumentor_remove_data_search d s =
      let (own, k) = remove_elem hash_ptr s.idata_table d.ops_elem s.kernel in
      let (global, k') = remove_elem hash_ptr s.ops_table_global d.ops_elem_global k in
      record s { idata_table = own; ops_table_global = global; kernel = k' }

  -- Behind both allocations of ap_idata_create.
  unfoldable pub ap_created :
      List Replacement
      → InstrumentDataSearch
      → Code × InstrumentorState
      → Code × Option ApInstrumentData × InstrumentorState
  ap_created rs d (success, s) =
      let ops = instrument_data_search_get_ops d in
      (
        success,
        some (record { ops_elem = d; ops_orig = s.memory ops }),
        record s { memory = write s.memory ops (replace_operations rs (s.memory ops)) },
      )
  ap_created rs d (ignored, s) = (ignored, none, record s { kernel = kfree (kfree s.kernel) })
  ap_created rs d (fail e, s) = (fail e, none, record s { kernel = kfree (kfree s.kernel) })

  -- In place: the result is ERR_PTR of the code if it is not 0.
  unfoldable pub ap_idata_create :
      List Replacement
      → (node node_global ops : ℕ) → InstrumentorState
      → Code × Option ApInstrumentData × InstrumentorState
  unfolding instrument_data_search_init instrumentor_add_data_search ap_created
  ap_idata_create rs node node_global ops s =
      let (ok, k) = kmalloc s.kernel in
      let (ok₂, k₂) = kmalloc k in
      let d = instrument_data_search_init node node_global ops in
      if ok
      then (if ok₂
          then ap_created rs d (instrumentor_add_data_search d (record s { kernel = k₂ }))
          else (fail enomem, none, record s { kernel = kfree k₂ }))
      else (fail enomem, none, record s { kernel = k })

  unfoldable pub ap_idata_destroy_norestore :
      ApInstrumentData → InstrumentorState → InstrumentorState
  unfolding instrumentor_remove_data_search
  ap_idata_destroy_norestore d s =
      let s' = instrumentor_remove_data_search d.ops_elem s in
      record s' { kernel = kfree (kfree s'.kernel) }

  unfoldable pub ap_idata_destroy :
      List Replacement → ApInstrumentData → InstrumentorState → InstrumentorState
  unfolding ap_idata_destroy_norestore
  ap_idata_destroy rs d s =
      let ops = instrument_data_search_get_ops d.ops_elem in
      ap_idata_destroy_norestore d
        (record s { memory = write s.memory ops (restore_operations rs d.ops_orig (s.memory ops)) })

  -- Behind the first search element of uc_idata_create, and behind the second; `copy` is what the
  -- new structure at `ops_repl` holds so far.
  unfoldable pub uc_created :
      List Replacement
      → Operations
      → (first second : InstrumentDataSearch) → Code × InstrumentorState
      → Code × Option UcInstrumentData × InstrumentorState
  uc_created rs copy first second (success, s) = (
    success,
    some (record { ops_orig_elem = first; ops_repl_elem = second }),
    record s {
      memory = write s.memory (instrument_data_search_get_ops second) (replace_operations rs copy);
    },
  )
  uc_created rs copy first second (ignored, s) =
      let s' = instrumentor_remove_data_search first s in
      (ignored, none, record s' { kernel = kfree (kfree s'.kernel) })
  uc_created rs copy first second (fail e, s) =
      let s' = instrumentor_remove_data_search first s in
      (fail e, none, record s' { kernel = kfree (kfree s'.kernel) })

  unfoldable pub uc_added :
      List Replacement
      → Operations
      → (first second : InstrumentDataSearch) → Code × InstrumentorState
      → Code × Option UcInstrumentData × InstrumentorState
  unfolding uc_created instrumentor_add_data_search
  uc_added rs copy first second (success, s) =
      uc_created rs copy first second (instrumentor_add_data_search second s)
  uc_added rs copy first second (ignored, s) =
      (ignored, none, record s { kernel = kfree (kfree s.kernel) })
  uc_added rs copy first second (fail e, s) =
      (fail e, none, record s { kernel = kfree (kfree s.kernel) })

  -- In a copy, at the address `ops_repl` that kmalloc returns; all NULL if there are no operations.
  unfoldable pub uc_idata_create :
      List Replacement
      → (node node_global node₂ node_global₂ ops ops_repl : ℕ) → InstrumentorState
      → Code × Option UcInstrumentData × InstrumentorState
  unfolding uc_added instrument_data_search_init
  uc_idata_create rs node node_global node₂ node_global₂ ops ops_repl s =
      let (ok, k) = kmalloc s.kernel in
      let (ok₂, k₂) = kmalloc k in
      let copy : Operations = if ops == 0 then (λ off. 0) else s.memory ops in
      let first = instrument_data_search_init node node_global ops in
      let second = instrument_data_search_init node₂ node_global₂ ops_repl in
      if ok
      then (if ok₂
          then uc_added rs copy first second
              (instrumentor_add_data_search first (record s { kernel = k₂ }))
          else (fail enomem, none, record s { kernel = kfree k₂ }))
      else (fail enomem, none, record s { kernel = k })

  unfoldable pub uc_idata_destroy : UcInstrumentData → InstrumentorState → InstrumentorState
  unfolding instrumentor_remove_data_search
  uc_idata_destroy d s =
      let s' =
        instrumentor_remove_data_search d.ops_orig_elem
          (instrumentor_remove_data_search d.ops_repl_elem s) in
      record s' { kernel = kfree (kfree s'.kernel) }

unfoldable pub ap_idata_ops_get_orig_operation : ApInstrumentData → ℕ → ℕ
unfolding operation_at_offset
ap_idata_ops_get_orig_operation d offset = operation_at_offset (some d.ops_orig) offset

unfoldable pub ap_idata_ops_my_operations : ApInstrumentData → ℕ → Bool
ap_idata_ops_my_operations d ops = instrument_data_search_get_ops d.ops_elem == ops

unfoldable pub uc_idata_ops_get_orig_operation : UcInstrumentData → InstrumentorState → ℕ → ℕ
unfolding operation_at_offset
uc_idata_ops_get_orig_operation d s offset =
    let ops_orig = instrument_data_search_get_ops d.ops_orig_elem in
    operation_at_offset (if ops_orig == 0 then none else some (s.memory ops_orig)) offset

unfoldable pub uc_idata_ops_my_operations : UcInstrumentData → ℕ → Bool
uc_idata_ops_my_operations d ops =
    if instrument_data_search_get_ops d.ops_repl_elem == ops
    then true
    else instrument_data_search_get_ops d.ops_orig_elem == ops
