-- ===== src/Foreign/Watch.antt =====
-- The data of a foreign instrumentor in core/kedr_coi_instrumentors.c. References, lookups, and
-- the destruction of a watch.
use kedr_callback_operations.Prelude.{
  ℕ, ◌-◌, ◌+◌, true, false, Option, none, some, ◌==◌, if◌then◌else◌,
}
use kedr_callback_operations.Kernel.{Kernel, Code, success, kfree}
use kedr_callback_operations.HashTable.{find_elem, remove_elem}
use kedr_callback_operations.Instrumentor.{Instrumentor, Addresses, at}
use kedr_callback_operations.Instrumentor.Data.{
  instrument_data_unref, instrumentor_find_data, instrumentor_get_data,
}
use kedr_callback_operations.Instrumentor.Watch.{set_pointer}
use kedr_callback_operations.Foreign.{ForeignInstrumentor, Foreign}
use kedr_callback_operations.Foreign.Chain.{
  apf_idata_ops_create_foreign_data, apf_idata_ops_find_foreign_data,
  apf_idata_foreign_ops_get_repl_operations, apf_idata_foreign_ops_destroy_common,
}

-- What kmalloc would return in one call, and the addresses of the elements in the watch data.
pub record ForeignAddresses : Type 0 where
  pub normal : Addresses
  pub idata_foreign : ℕ
  pub watch_data : ℕ
  pub id_node : ℕ
  pub tie_node : ℕ
  pub ops_p_node : ℕ

unfoldable pub instrument_data_foreign_get_repl_operations : Foreign → ℕ → ℕ
unfolding apf_idata_foreign_ops_get_repl_operations
instrument_data_foreign_get_repl_operations s f = apf_idata_foreign_ops_get_repl_operations s f

abbrev pub with_foreign_refs : Foreign → ℕ → (ℕ → ℕ) → Foreign
with_foreign_refs s f change = record s {
  foreigns = at s.foreigns f (record (s.foreigns f) { refs = change (s.foreigns f).refs });
}

abbrev pub with_kernel : Foreign → Kernel → Foreign
with_kernel s k = record s {
  normal = record (s.normal) { state = record (s.normal.state) { kernel = k } };
}

abbrev pub with_instrumentor : Foreign → ℕ → ForeignInstrumentor → Foreign
with_instrumentor s n i = record s { instrumentors = at s.instrumentors n i }

unfoldable pub instrument_data_foreign_ref : ℕ → Foreign → Foreign
instrument_data_foreign_ref f s = with_foreign_refs s f (λ n. n + 1)

unfoldable pub instrument_data_foreign_replace_ops : (f ops_p : ℕ) → Foreign → Foreign
unfolding instrument_data_foreign_get_repl_operations set_pointer
instrument_data_foreign_replace_ops f ops_p s = record s {
  normal = set_pointer (instrument_data_foreign_get_repl_operations s f) ops_p s.normal;
}

-- An update of the normal instrumentor.
abbrev pub on_normal : (Instrumentor → Instrumentor) → Foreign → Foreign
on_normal change s = record s { normal = change s.normal }

module _ (hash_ptr : ℕ → ℕ → ℕ) where
  unfoldable pub instrument_data_foreign_unref : (n f : ℕ) → Foreign → Foreign
  unfolding apf_idata_foreign_ops_destroy_common
  instrument_data_foreign_unref n f s =
      let s' = with_foreign_refs s f (λ r. r - 1) in
      if (s.foreigns f).refs == 1
      then apf_idata_foreign_ops_destroy_common hash_ptr n f false s'
      else s'

  unfoldable pub instrument_data_foreign_unref_norestore : (n f : ℕ) → Foreign → Foreign
  unfolding apf_idata_foreign_ops_destroy_common
  instrument_data_foreign_unref_norestore n f s =
      let s' = with_foreign_refs s f (λ r. r - 1) in
      if (s.foreigns f).refs == 1
      then apf_idata_foreign_ops_destroy_common hash_ptr n f true s'
      else s'

  unfoldable pub instrumentor_foreign_find_data : (n ops : ℕ) → Foreign → Option ℕ
  unfolding apf_idata_ops_find_foreign_data instrumentor_find_data
  instrumentor_foreign_find_data n ops s = elim (instrumentor_find_data hash_ptr s.normal ops) [
    | none ↦ none
    | some a ↦ apf_idata_ops_find_foreign_data a n s
  ]

  -- Behind the creation of the foreign data: an error gives the reference to the normal data back.
  unfoldable pub foreign_created : (a : ℕ) → Code × Option ℕ × Foreign → Code × Option ℕ × Foreign
  unfolding instrument_data_unref
  foreign_created a (c, none, s) = (c, none, on_normal (instrument_data_unref hash_ptr a) s)
  foreign_created a (c, some f, s) = (c, some f, s)

  -- Behind instrumentor_get_data.
  unfoldable pub foreign_bound :
      ForeignAddresses
      → (n : ℕ) → Foreign
      → Code × Option ℕ × Instrumentor
      → Code × Option ℕ × Foreign
  unfolding foreign_created apf_idata_ops_create_foreign_data
  foreign_bound p n s (c, none, m) = (c, none, record s { normal = m })
  foreign_bound p n s (c, some a, m) =
      foreign_created a
        (apf_idata_ops_create_foreign_data p.idata_foreign a n (record s { normal = m }))

  unfoldable pub instrumentor_foreign_get_data :
      ForeignAddresses → (n ops : ℕ) → Foreign → Code × Option ℕ × Foreign
  unfolding instrumentor_foreign_find_data instrument_data_foreign_ref foreign_bound
      instrumentor_get_data
  instrumentor_foreign_get_data p n ops s = elim (instrumentor_foreign_find_data n ops s) [
    | some f ↦ (success, some f, instrument_data_foreign_ref f s)
    | none ↦ foreign_bound p n s (instrumentor_get_data hash_ptr p.normal ops s.normal)
  ]

  unfoldable pub instrumentor_foreign_find_watch_data_by_id : (n id : ℕ) → Foreign → Option ℕ
  instrumentor_foreign_find_watch_data_by_id n id s =
      elim (find_elem hash_ptr (s.instrumentors n).ids_table id) [
        | none ↦ none
        | some e ↦ some (s.containers e.node)
      ]

  unfoldable pub instrumentor_foreign_find_watch_data_by_tie : (n tie : ℕ) → Foreign → Option ℕ
  instrumentor_foreign_find_watch_data_by_tie n tie s =
      elim (find_elem hash_ptr (s.instrumentors n).ties_table tie) [
        | none ↦ none
        | some e ↦ some (s.containers e.node)
      ]

  unfoldable pub instrumentor_foreign_destroy_watch_data : (n w : ℕ) → Foreign → Foreign
  unfolding instrument_data_foreign_unref
  instrumentor_foreign_destroy_watch_data n w s =
      let d = s.watches w in
      let s₁ = instrument_data_foreign_unref n d.idata_foreign s in
      let i = s₁.instrumentors n in
      let (ids, k) = remove_elem hash_ptr i.ids_table d.id_elem s₁.normal.state.kernel in
      let (ties, k₂) = remove_elem hash_ptr i.ties_table d.tie_elem k in
      let (ops_ps, k₃) = remove_elem hash_ptr s₁.normal.foreign_ops_p_table d.ops_p_elem k₂ in
      let s₂ = with_instrumentor s₁ n (record i { ids_table = ids; ties_table = ties }) in
      with_kernel (on_normal (λ m. record m { foreign_ops_p_table = ops_ps }) s₂) (kfree k₃)
