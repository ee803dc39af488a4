-- ===== src/Foreign/Bind.antt =====
-- The bind of a foreign instrumentor in core/kedr_coi_instrumentors.c: what an intermediate operation
-- continues with, and the watch of the object that it has found. The lock makes it one step.
use kedr_callback_operations.Prelude.{ℕ, Option, none, some, if◌then◌else◌}
use kedr_callback_operations.Kernel.{Code, ignored, fail, einval, Outcome, done, bug, ◌>>=◌}
use kedr_callback_operations.Instrumentor.{Addresses}
use kedr_callback_operations.Instrumentor.Data.{
  instrument_data_get_orig_operation, instrumentor_find_data,
}
use kedr_callback_operations.Instrumentor.Watch.{
  instrument_data_replace_ops, instrument_data_restore_ops, original_lost, operation_in_memory,
  instrumentor_find_watch_data, instrumentor_watch_internal,
}
use kedr_callback_operations.Foreign.{Foreign}
use kedr_callback_operations.Foreign.Chain.{
  apf_idata_foreign_ops_get_normal_operation, apf_idata_foreign_ops_get_chain_operation,
}
use kedr_callback_operations.Foreign.Watch.{
  on_normal, instrumentor_foreign_find_data, instrumentor_foreign_find_watch_data_by_tie,
}

unfoldable pub instrument_data_foreign_normal_operation : Foreign → (f offset : ℕ) → ℕ
unfolding apf_idata_foreign_ops_get_normal_operation
instrument_data_foreign_normal_operation s f offset =
    apf_idata_foreign_ops_get_normal_operation s f offset

unfoldable pub instrument_data_foreign_chain_operation : Foreign → (f offset : ℕ) → ℕ
unfolding apf_idata_foreign_ops_get_chain_operation
instrument_data_foreign_chain_operation s f offset =
    apf_idata_foreign_ops_get_chain_operation s f offset

-- `none` is ERR_PTR(-EINVAL).
unfoldable pub instrumentor_foreign_get_orig_operation_nodata :
    (n ops offset : ℕ) → Foreign → Outcome (Option ℕ)
unfolding original_lost operation_in_memory
instrumentor_foreign_get_orig_operation_nodata n ops offset s =
    operation_in_memory s.normal ops offset >>= λ op.
    done (if original_lost (s.instrumentors n).replacements op then none else some op)

-- The result of a bind, with `op_chained` and `op_orig`: `none` is an error pointer.
abbrev pub Bound : Type 0
Bound = Code × Option ℕ × Option ℕ × Foreign

-- BUG_ON(IS_ERR(*op_chained)) in front of the result 1.
unfoldable pub chained_or_bug : Option ℕ → (op_orig : ℕ) → Foreign → Outcome Bound
chained_or_bug none op_orig s = bug
chained_or_bug (some op) op_orig s = done (ignored, some op, some op_orig, s)

-- The last branch: the operations are not instrumented.
unfoldable pub chained_plain : Option ℕ → Foreign → Bound
chained_plain none s = (fail einval, none, none, s)
chained_plain (some op) s = (ignored, some op, some op, s)

module _ (hash_ptr : ℕ → ℕ → ℕ) (n ops_p offset : ℕ) where
  -- The regular path: the tie is watched, with foreign data at `f`.
  unfoldable pub bind_regular : Addresses → (object f : ℕ) → Foreign → Bound
  unfolding instrument_data_foreign_normal_operation instrument_data_get_orig_operation
      instrumentor_watch_internal
  bind_regular p object f s =
      let (c, m) = instrumentor_watch_internal hash_ptr p object ops_p s.normal in
      (
        c,
        some (instrument_data_foreign_normal_operation s f offset),
        some (instrument_data_get_orig_operation s.normal (s.foreigns f).idata_binded offset),
        record s { normal = m },
      )

  -- Behind the update of the object's operations, with data at `a`.
  unfoldable pub bind_updated : (a : ℕ) → Foreign → Outcome Bound
  unfolding instrumentor_foreign_find_data chained_or_bug instrument_data_foreign_normal_operation
      instrument_data_get_orig_operation instrumentor_foreign_get_orig_operation_nodata
  bind_updated a s =
      let ops = s.normal.pointers ops_p in
      let op_orig = instrument_data_get_orig_operation s.normal a offset in
      elim (instrumentor_foreign_find_data hash_ptr n ops s) [
        | some f ↦
            done
              (ignored, some (instrument_data_foreign_normal_operation s f offset), some op_orig, s)
        | none ↦ instrumentor_foreign_get_orig_operation_nodata n ops offset s >>= λ op_chained.
            chained_or_bug op_chained op_orig s
      ]

  -- The tie is not watched, but the object is, with data at `a`.
  unfoldable pub bind_watched : (a : ℕ) → Foreign → Outcome Bound
  unfolding instrument_data_replace_ops bind_updated
  bind_watched a s = bind_updated a (on_normal (instrument_data_replace_ops a ops_p) s)

  -- Neither is watched, but the operations are instrumented, with data at `a`.
  unfoldable pub bind_instrumented : (a : ℕ) → Foreign → Outcome Bound
  unfolding instrument_data_restore_ops instrumentor_foreign_find_data chained_or_bug
      instrument_data_foreign_chain_operation instrument_data_get_orig_operation
      instrumentor_foreign_get_orig_operation_nodata
  bind_instrumented a s =
      let op_orig = instrument_data_get_orig_operation s.normal a offset in
      elim (instrumentor_foreign_find_data hash_ptr n (s.normal.pointers ops_p) s) [
        | some f ↦
            done
              (ignored, some (instrument_data_foreign_chain_operation s f offset), some op_orig, s)
        | none ↦
            let s' = on_normal (instrument_data_restore_ops a ops_p) s in
            instrumentor_foreign_get_orig_operation_nodata n (s'.normal.pointers ops_p) offset s'
            >>= λ op_chained. chained_or_bug op_chained op_orig s'
      ]

  -- Neither is watched.
  unfoldable pub bind_unwatched : Foreign → Outcome Bound
  unfolding instrumentor_find_data bind_instrumented chained_plain
      instrumentor_foreign_get_orig_operation_nodata
  bind_unwatched s =
      let ops = s.normal.pointers ops_p in
      elim (instrumentor_find_data hash_ptr s.normal ops) [
        | some a ↦ bind_instrumented a s
        | none ↦ instrumentor_foreign_get_orig_operation_nodata n ops offset s >>= λ op_chained.
            done (chained_plain op_chained s)
      ]

  unfoldable pub foreign_instrumentor_bind :
      Addresses → (object foreign_tie : ℕ) → Foreign → Outcome Bound
  unfolding instrumentor_foreign_find_watch_data_by_tie bind_regular instrumentor_find_watch_data
      bind_watched bind_unwatched
  foreign_instrumentor_bind p object foreign_tie s =
      elim (instrumentor_foreign_find_watch_data_by_tie hash_ptr n foreign_tie s) [
        | some w ↦ done (bind_regular p object (s.watches w).idata_foreign s)
        | none ↦ elim (instrumentor_find_watch_data hash_ptr s.normal object) [
          | some e ↦ bind_watched (s.normal.watches e.node) s
          | none ↦ bind_unwatched s
        ]
      ]

  unfoldable pub kedr_coi_foreign_instrumentor_bind :
      Addresses → (object foreign_tie : ℕ) → Foreign → Outcome Bound
  unfolding foreign_instrumentor_bind
  kedr_coi_foreign_instrumentor_bind p object foreign_tie s =
      foreign_instrumentor_bind p object foreign_tie s
