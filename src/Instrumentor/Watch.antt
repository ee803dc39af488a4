-- ===== src/Instrumentor/Watch.antt =====
-- Watching, forgetting and the original operation, in core/kedr_coi_instrumentors.c. The spin lock
-- makes each call one step.
use kedr_callback_operations.Prelude.{
  ℕ, Bool, true, Option, none, some, List, [], ◌∷◌, ◌==◌, if◌then◌else◌,
}
use kedr_callback_operations.Kernel.{
  Kernel, Code, success, ignored, fail, enomem, einval, kmalloc, kfree, Outcome, done, bug, ◌>>=◌,
}
use kedr_callback_operations.Payloads.Types.{Replacement}
use kedr_callback_operations.HashTable.{Table, elem_init, add_elem, find_elem, remove_elem}
use kedr_callback_operations.HashTable.Buckets.{Elem}
use kedr_callback_operations.Instrumentor.{Instrumentor, Addresses, at}
use kedr_callback_operations.Instrumentor.Data.{
  instrument_data_get_repl_operations, instrument_data_get_orig_operations,
  instrument_data_get_orig_operation, instrument_data_my_operations, instrument_data_unref,
  instrument_data_unref_norestore, instrumentor_find_data, instrumentor_get_data,
}

-- A write to the pointer only if it differs, as in the source.
unfoldable pub set_pointer : ℕ → ℕ → Instrumentor → Instrumentor
set_pointer ops ops_p m =
    if ops == m.pointers ops_p then m else record m { pointers = at m.pointers ops_p ops }

unfoldable pub instrument_data_replace_ops : ℕ → ℕ → Instrumentor → Instrumentor
unfolding instrument_data_get_repl_operations set_pointer
instrument_data_replace_ops a ops_p m =
    set_pointer (instrument_data_get_repl_operations m a) ops_p m

unfoldable pub instrument_data_restore_ops : ℕ → ℕ → Instrumentor → Instrumentor
unfolding instrument_data_get_orig_operations set_pointer
instrument_data_restore_ops a ops_p m =
    set_pointer (instrument_data_get_orig_operations m a) ops_p m

-- ERR_PTR(-EINVAL) if the operation is one of the replacements.
unfoldable pub original_lost : List Replacement → ℕ → Bool
original_lost [] op = Bool.false
original_lost (r ∷ rs) op = if r.repl == op then true else original_lost rs op

-- operation_at_offset of this file: a read through NULL operations is a bad access.
unfoldable pub operation_in_memory : Instrumentor → (ops offset : ℕ) → Outcome ℕ
operation_in_memory m ops offset = if ops == 0 then bug else done (m.state.memory ops offset)

module _ (hash_ptr : ℕ → ℕ → ℕ) where
  -- The element of the watch data of an object.
  unfoldable pub instrumentor_find_watch_data : Instrumentor → ℕ → Option Elem
  instrumentor_find_watch_data m object = find_elem hash_ptr m.objects_table object

  -- The element leaves the table, and its watch data is freed.
  unfoldable pub drop_watch : Elem → Instrumentor → Instrumentor
  drop_watch e m =
      let (objects, k) = remove_elem hash_ptr m.objects_table e m.state.kernel in
      record m { objects_table = objects; state = record (m.state) { kernel = kfree k } }

  unfoldable pub instrumentor_destroy_watch_data : Elem → Instrumentor → Instrumentor
  unfolding drop_watch instrument_data_unref
  instrumentor_destroy_watch_data e m =
      drop_watch e (instrument_data_unref hash_ptr (m.watches e.node) m)

  unfoldable pub instrumentor_destroy_watch_data_norestore : Elem → Instrumentor → Instrumentor
  unfolding drop_watch instrument_data_unref_norestore
  instrumentor_destroy_watch_data_norestore e m =
      drop_watch e (instrument_data_unref_norestore hash_ptr (m.watches e.node) m)

  -- Behind the allocation of the watch data, and behind the addition of its element.
  unfoldable pub watch_added :
      (a ops_p node : ℕ) → Instrumentor → Code × Table × Kernel → Code × Instrumentor
  unfolding instrument_data_replace_ops instrument_data_unref
  watch_added a ops_p node m (success, objects, k) = (
    success,
    instrument_data_replace_ops a ops_p (record m {
      objects_table = objects;
      watches = at m.watches node a;
      state = record (m.state) { kernel = k };
    }),
  )
  watch_added a ops_p node m (c, objects, k) = (
    c,
    instrument_data_unref hash_ptr a
        (record m { objects_table = objects; state = record (m.state) { kernel = kfree k } }),
  )

  unfoldable pub watch_new :
      Addresses → (object ops_p : ℕ) → Code × Option ℕ × Instrumentor → Code × Instrumentor
  unfolding watch_added elem_init instrument_data_unref
  watch_new p object ops_p (c, none, m) = (c, m)
  watch_new p object ops_p (c, some a, m) =
      let (ok, k) = kmalloc m.state.kernel in
      if ok
      then watch_added a ops_p p.watch_data m
          (add_elem hash_ptr m.objects_table (elem_init p.watch_data object) k)
      else (
        fail enomem,
        instrument_data_unref hash_ptr a (record m { state = record (m.state) { kernel = k } }),
      )

  -- The update of a watch whose operations have changed: the old data is unreferenced.
  unfoldable pub rewatch : Elem → ℕ → Code × Option ℕ × Instrumentor → Code × Instrumentor
  unfolding instrument_data_restore_ops instrumentor_destroy_watch_data instrument_data_unref
      instrument_data_replace_ops
  rewatch e ops_p (c, none, m) = (
    c,
    instrumentor_destroy_watch_data e (instrument_data_restore_ops (m.watches e.node) ops_p m),
  )
  rewatch e ops_p (c, some a, m) =
      let m' = instrument_data_unref hash_ptr (m.watches e.node) m in
      (
        ignored,
        instrument_data_replace_ops a ops_p (record m' { watches = at m'.watches e.node a }),
      )

  unfoldable pub instrumentor_watch_internal :
      Addresses → (object ops_p : ℕ) → Instrumentor → Code × Instrumentor
  unfolding instrumentor_find_watch_data instrument_data_my_operations instrument_data_replace_ops
      rewatch watch_new instrumentor_get_data
  instrumentor_watch_internal p object ops_p m = elim (instrumentor_find_watch_data m object) [
    | none ↦ watch_new p object ops_p (instrumentor_get_data hash_ptr p (m.pointers ops_p) m)
    | some e ↦
        if instrument_data_my_operations m (m.watches e.node) (m.pointers ops_p)
        then (ignored, instrument_data_replace_ops (m.watches e.node) ops_p m)
        else rewatch e ops_p (instrumentor_get_data hash_ptr p (m.pointers ops_p) m)
  ]

  unfoldable pub kedr_coi_instrumentor_watch :
      Addresses → (object ops_p : ℕ) → Instrumentor → Code × Instrumentor
  unfolding instrumentor_watch_internal
  kedr_coi_instrumentor_watch p object ops_p m = instrumentor_watch_internal p object ops_p m

  -- `ops_p` may be NULL, `none`.
  unfoldable pub forget_ops : Option ℕ → ℕ → Instrumentor → Instrumentor
  unfolding instrument_data_my_operations instrument_data_restore_ops
  forget_ops none a m = m
  forget_ops (some ops_p) a m =
      if instrument_data_my_operations m a (m.pointers ops_p)
      then instrument_data_restore_ops a ops_p m
      else m

  unfoldable pub kedr_coi_instrumentor_forget :
      (object : ℕ) → Option ℕ → Instrumentor → Code × Instrumentor
  unfolding instrumentor_find_watch_data forget_ops instrumentor_destroy_watch_data
  kedr_coi_instrumentor_forget object ops_p m = elim (instrumentor_find_watch_data m object) [
    | none ↦ (ignored, m)
    | some e ↦ (success, instrumentor_destroy_watch_data e (forget_ops ops_p (m.watches e.node) m))
  ]

  -- Behind the lookup of instrument data: the result and `op_orig`.
  unfoldable pub get_orig_operation_unwatched :
      Instrumentor → (ops offset : ℕ) → Option ℕ → Outcome (Code × Option ℕ)
  unfolding original_lost instrument_data_get_orig_operation operation_in_memory
  get_orig_operation_unwatched m ops offset (some a) =
      done (ignored, some (instrument_data_get_orig_operation m a offset))
  get_orig_operation_unwatched m ops offset none = operation_in_memory m ops offset >>= λ op.
      done (if original_lost m.replacements op then (fail einval, none) else (ignored, some op))

  unfoldable pub kedr_coi_instrumentor_get_orig_operation :
      (object ops offset : ℕ) → Instrumentor → Outcome (Code × Option ℕ)
  unfolding instrumentor_find_watch_data instrument_data_get_orig_operation
      get_orig_operation_unwatched instrumentor_find_data
  kedr_coi_instrumentor_get_orig_operation object ops offset m =
      elim (instrumentor_find_watch_data m object) [
        | some e ↦
            done (success, some (instrument_data_get_orig_operation m (m.watches e.node) offset))
        | none ↦ get_orig_operation_unwatched m ops offset (instrumentor_find_data hash_ptr m ops)
      ]

  -- `ops_p` is the address of the parameter `object`, a variable of the call alone.
  unfoldable pub kedr_coi_instrumentor_watch_direct :
      Addresses → (object local : ℕ) → Instrumentor → Code × Instrumentor
  unfolding kedr_coi_instrumentor_watch
  kedr_coi_instrumentor_watch_direct p object local m =
      kedr_coi_instrumentor_watch p object local
        (record m { pointers = at m.pointers local object })

  unfoldable pub kedr_coi_instrumentor_forget_direct :
      (object : ℕ) → Bool → (local : ℕ) → Instrumentor → Code × Instrumentor
  unfolding instrumentor_find_watch_data instrument_data_restore_ops instrumentor_destroy_watch_data
      instrumentor_destroy_watch_data_norestore
  kedr_coi_instrumentor_forget_direct object norestore local m =
      let here = record m { pointers = at m.pointers local object } in
      elim (instrumentor_find_watch_data m object) [
        | none ↦ (ignored, m)
        | some e ↦ (
          success,
          if norestore
              then instrumentor_destroy_watch_data_norestore e m
              else instrumentor_destroy_watch_data e
                  (instrument_data_restore_ops (m.watches e.node) local here),
        )
      ]
