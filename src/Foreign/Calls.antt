-- ===== src/Foreign/Calls.antt =====
-- Watching, forgetting, creation and destruction of a foreign instrumentor in
-- core/kedr_coi_instrumentors.c. The lock of the normal instrumentor makes each call one step.
use kedr_callback_operations.Prelude.{
  ℕ, Bool, Option, none, some, List, [], ◌∷◌, ◌++◌, if◌then◌else◌,
}
use kedr_callback_operations.Kernel.{
  Kernel, Code, success, ignored, fail, ebusy, enomem, Outcome, done, bug, kmalloc, kfree,
}
use kedr_callback_operations.Payloads.Types.{Replacement}
use kedr_callback_operations.HashTable
use kedr_callback_operations.HashTable.{Table, elem_init, add_elem, find_elem, remove_elem}
use kedr_callback_operations.HashTable.Buckets.{Elem}
use kedr_callback_operations.Instrumentor.{at}
use kedr_callback_operations.Instrumentor.Data.{instrument_data_my_operations}
use kedr_callback_operations.Instrumentor.Watch.{instrument_data_restore_ops}
use kedr_callback_operations.Instrumentor.Create.{or_empty}
use kedr_callback_operations.Foreign.{ForeignWatch, ForeignInstrumentor, Foreign}
use kedr_callback_operations.Foreign.Watch.{
  ForeignAddresses, with_kernel, with_instrumentor, on_normal, instrument_data_foreign_replace_ops,
  instrument_data_foreign_unref, instrumentor_foreign_get_data,
  instrumentor_foreign_find_watch_data_by_id, instrumentor_foreign_destroy_watch_data,
}

abbrev kernel_of : Foreign → Kernel
kernel_of s = s.normal.state.kernel

module _ (hash_ptr : ℕ → ℕ → ℕ) (n f : ℕ) (d : ForeignWatch) where
  -- The labels of a failed watch, the last one first.
  unfoldable pub fail_add_id_elem : Foreign → Foreign
  unfolding instrument_data_foreign_unref
  fail_add_id_elem s =
      instrument_data_foreign_unref hash_ptr n f (with_kernel s (kfree (kernel_of s)))

  unfoldable pub fail_add_tie_elem : Foreign → Foreign
  unfolding fail_add_id_elem
  fail_add_tie_elem s =
      let i = s.instrumentors n in
      let (ids, k) = remove_elem hash_ptr i.ids_table d.id_elem (kernel_of s) in
      fail_add_id_elem (with_kernel (with_instrumentor s n (record i { ids_table = ids })) k)

  unfoldable pub fail_add_ops_p_elem : Foreign → Foreign
  unfolding fail_add_tie_elem
  fail_add_ops_p_elem s =
      let (ops_ps, k) =
        remove_elem hash_ptr s.normal.foreign_ops_p_table d.ops_p_elem (kernel_of s) in
      fail_add_tie_elem
        (with_kernel (on_normal (λ m. record m { foreign_ops_p_table = ops_ps }) s) k)

  -- Behind each of the three additions.
  unfoldable pub ops_p_added : (ops_p : ℕ) → Foreign → Code × Table × Kernel → Code × Foreign
  unfolding instrument_data_foreign_replace_ops fail_add_ops_p_elem
  ops_p_added ops_p s (success, ops_ps, k) = (
    success,
    instrument_data_foreign_replace_ops f ops_p
        (with_kernel (on_normal (λ m. record m { foreign_ops_p_table = ops_ps }) s) k),
  )
  ops_p_added ops_p s (c, ops_ps, k) = (
    c,
    fail_add_ops_p_elem
        (with_kernel (on_normal (λ m. record m { foreign_ops_p_table = ops_ps }) s) k),
  )

  unfoldable pub tie_added : (ops_p : ℕ) → Foreign → Code × Table × Kernel → Code × Foreign
  unfolding ops_p_added fail_add_tie_elem
  tie_added ops_p s (success, ties, k) =
      let s' =
        with_kernel (with_instrumentor s n (record (s.instrumentors n) { ties_table = ties })) k in
      ops_p_added ops_p s' (add_elem hash_ptr s'.normal.foreign_ops_p_table d.ops_p_elem k)
  tie_added ops_p s (c, ties, k) = (
    c,
    fail_add_tie_elem
        (with_kernel (with_instrumentor s n (record (s.instrumentors n) { ties_table = ties })) k),
  )

  unfoldable pub id_added : (ops_p : ℕ) → Foreign → Code × Table × Kernel → Code × Foreign
  unfolding tie_added fail_add_id_elem
  id_added ops_p s (success, ids, k) =
      let s' =
        with_kernel (with_instrumentor s n (record (s.instrumentors n) { ids_table = ids })) k in
      tie_added ops_p s' (add_elem hash_ptr (s'.instrumentors n).ties_table d.tie_elem k)
  id_added ops_p s (c, ids, k) = (
    c,
    fail_add_id_elem
        (with_kernel (with_instrumentor s n (record (s.instrumentors n) { ids_table = ids })) k),
  )

module _ (hash_ptr : ℕ → ℕ → ℕ) where
  abbrev pub new_watch : ForeignAddresses → (id tie ops_p f : ℕ) → ForeignWatch
  new_watch p id tie ops_p f = record {
    idata_foreign = f;
    id_elem = record { node = p.id_node; key = id };
    tie_elem = record { node = p.tie_node; key = tie };
    ops_p_elem = record { node = p.ops_p_node; key = ops_p };
  }

  -- Behind instrumentor_foreign_get_data.
  unfoldable pub foreign_watch_new :
      ForeignAddresses → (n id tie ops_p : ℕ) → Code × Option ℕ × Foreign → Code × Foreign
  unfolding id_added instrument_data_foreign_unref
  foreign_watch_new p n id tie ops_p (c, none, s) = (c, s)
  foreign_watch_new p n id tie ops_p (c, some f, s) =
      let (ok, k) = kmalloc (kernel_of s) in
      let d = new_watch p id tie ops_p f in
      let w = p.watch_data in
      let s' : Foreign = record s {
        watches = at s.watches w d;
        containers = at (at (at s.containers p.id_node w) p.tie_node w) p.ops_p_node w;
      } in
      if ok
      then id_added hash_ptr n f d ops_p s'
          (add_elem hash_ptr (s.instrumentors n).ids_table d.id_elem k)
      else (fail enomem, instrument_data_foreign_unref hash_ptr n f (with_kernel s k))

  -- The update of a watch. The error path reads through the error pointer that it has got.
  unfoldable pub foreign_rewatch :
      (n w ops_p : ℕ) → Code × Option ℕ × Foreign → Outcome (Code × Foreign)
  unfolding instrument_data_foreign_unref instrument_data_foreign_replace_ops
  foreign_rewatch n w ops_p (c, none, s) = bug
  foreign_rewatch n w ops_p (c, some f, s) =
      let s' = instrument_data_foreign_unref hash_ptr n (s.watches w).idata_foreign s in
      done (
        ignored,
        instrument_data_foreign_replace_ops f ops_p
            (record s' { watches = at s'.watches w (record (s'.watches w) { idata_foreign = f }) }),
      )

  unfoldable pub kedr_coi_foreign_instrumentor_watch :
      ForeignAddresses → (n id tie ops_p : ℕ) → Foreign → Outcome (Code × Foreign)
  unfolding instrumentor_foreign_find_watch_data_by_id instrument_data_my_operations
      instrument_data_foreign_replace_ops foreign_rewatch foreign_watch_new
      instrumentor_foreign_get_data
  kedr_coi_foreign_instrumentor_watch p n id tie ops_p s =
      let ops = s.normal.pointers ops_p in
      elim (instrumentor_foreign_find_watch_data_by_id hash_ptr n id s) [
        | some w ↦
            let f = (s.watches w).idata_foreign in
            if instrument_data_my_operations s.normal (s.foreigns f).idata_binded ops
            then done (ignored, instrument_data_foreign_replace_ops f ops_p s)
            else foreign_rewatch n w ops_p (instrumentor_foreign_get_data hash_ptr p n ops s)
        | none ↦ elim (find_elem hash_ptr s.normal.foreign_ops_p_table ops_p) [
          | some other ↦ done (fail ebusy, s)
          | none ↦ done (
              foreign_watch_new p n id tie ops_p (instrumentor_foreign_get_data hash_ptr p n ops s))
        ]
      ]

  -- `ops_p` may be NULL, `none`.
  unfoldable pub foreign_forget_ops : Option ℕ → (f : ℕ) → Foreign → Foreign
  unfolding instrument_data_restore_ops
  foreign_forget_ops none f s = s
  foreign_forget_ops (some ops_p) f s =
      on_normal (instrument_data_restore_ops (s.foreigns f).idata_binded ops_p) s

  unfoldable pub kedr_coi_foreign_instrumentor_forget :
      (n id : ℕ) → Option ℕ → Foreign → Code × Foreign
  unfolding instrumentor_foreign_find_watch_data_by_id foreign_forget_ops
      instrumentor_foreign_destroy_watch_data
  kedr_coi_foreign_instrumentor_forget n id ops_p s =
      elim (instrumentor_foreign_find_watch_data_by_id hash_ptr n id s) [
        | none ↦ (ignored, s)
        | some w ↦ (
          success,
          instrumentor_foreign_destroy_watch_data hash_ptr n w
              (foreign_forget_ops ops_p (s.watches w).idata_foreign s),
        )
      ]

  -- The objects traced so far, and the state. The element itself is not unlinked.
  unfoldable pub instrumentor_foreign_destroy_watch_data_callback :
      ℕ → Bool → Elem → List ℕ × Foreign → List ℕ × Foreign
  unfolding instrument_data_foreign_unref
  instrumentor_foreign_destroy_watch_data_callback n trace e (traced, s) =
      let d = s.watches (s.containers e.node) in
      let s₁ = instrument_data_foreign_unref hash_ptr n d.idata_foreign s in
      let i = s₁.instrumentors n in
      let (ties, k) = remove_elem hash_ptr i.ties_table d.tie_elem (kernel_of s₁) in
      let (ops_ps, k₂) = remove_elem hash_ptr s₁.normal.foreign_ops_p_table d.ops_p_elem k in
      let s₂ = with_instrumentor s₁ n (record i { ties_table = ties }) in
      (
        if trace then traced ++ e.key ∷ [] else traced,
        with_kernel (on_normal (λ m. record m { foreign_ops_p_table = ops_ps }) s₂) (kfree k₂),
      )

  -- The traced objects, whether a tie was left, and the state.
  unfoldable pub kedr_coi_foreign_instrumentor_destroy :
      ℕ → Bool → Foreign → List ℕ × Bool × Foreign
  unfolding HashTable.destroy instrumentor_foreign_destroy_watch_data_callback
  kedr_coi_foreign_instrumentor_destroy n trace s =
      let (_, (traced, s₁)) =
        HashTable.destroy (some (instrumentor_foreign_destroy_watch_data_callback n trace))
          (s.instrumentors n).ids_table (λ r. (r.0, with_kernel r.1 (kfree (kernel_of r.1))))
          ([], s) in
      let (warned, k) =
        HashTable.destroy none (s₁.instrumentors n).ties_table kfree (kernel_of s₁) in
      (traced, warned, with_kernel s₁ (kfree k))

-- Behind the first table of the creation.
unfoldable pub foreign_second_table :
    List Replacement → Option Table × Kernel → Option ForeignInstrumentor × Kernel
unfolding HashTable.init HashTable.destroy
foreign_second_table rs (none, k) = (none, kfree k)
foreign_second_table rs (some ids, k) =
    let (ties, k') = HashTable.init k in
    elim ties [
      | none ↦ (none, kfree (HashTable.destroy none ids kfree k').1)
      | some t ↦ (some (record { ids_table = ids; ties_table = t; replacements = rs }), k')
    ]

unfoldable pub kedr_coi_foreign_instrumentor_create :
    Option (List Replacement) → Kernel → Option ForeignInstrumentor × Kernel
unfolding or_empty foreign_second_table HashTable.init
kedr_coi_foreign_instrumentor_create rs k =
    let (ok, k') = kmalloc k in
    if ok then foreign_second_table (or_empty rs) (HashTable.init k') else (none, k')
