-- ===== src/Instrumentor/Data.antt =====
-- The instrument data of core/kedr_coi_instrumentors.c and instrumentor_get_data of
-- core/kedr_coi_instrumentors_impl.c: references, lookups, and the callbacks of both mechanisms.
use kedr_callback_operations.Prelude.{
  ℕ, ◌+◌, ◌-◌, Bool, Option, none, some, List, ◌==◌, if◌then◌else◌,
}
use kedr_callback_operations.Kernel.{Code, success}
use kedr_callback_operations.Payloads.Types.{Replacement}
use kedr_callback_operations.HashTable.{find_elem}
use kedr_callback_operations.Instrumentation.Place.{
  InstrumentorState, ApInstrumentData, UcInstrumentData, instrument_data_search_get_ops,
  ap_idata_create, ap_idata_destroy, ap_idata_destroy_norestore, ap_idata_ops_get_orig_operation,
  ap_idata_ops_my_operations, uc_idata_create, uc_idata_destroy, uc_idata_ops_get_orig_operation,
  uc_idata_ops_my_operations,
}
use kedr_callback_operations.Instrumentor.{
  Mechanism, at_place, use_copy, Instrumentor, Addresses, at,
}

unfoldable pub get_repl_operations : Mechanism → ℕ
get_repl_operations (at_place d) = instrument_data_search_get_ops d.ops_elem
get_repl_operations (use_copy d) = instrument_data_search_get_ops d.ops_repl_elem

unfoldable pub get_orig_operations : Mechanism → ℕ
get_orig_operations (at_place d) = instrument_data_search_get_ops d.ops_elem
get_orig_operations (use_copy d) = instrument_data_search_get_ops d.ops_orig_elem

unfoldable pub get_orig_operation_of : Mechanism → InstrumentorState → ℕ → ℕ
unfolding ap_idata_ops_get_orig_operation uc_idata_ops_get_orig_operation
get_orig_operation_of (at_place d) s offset = ap_idata_ops_get_orig_operation d offset
get_orig_operation_of (use_copy d) s offset = uc_idata_ops_get_orig_operation d s offset

unfoldable pub my_operations : Mechanism → ℕ → Bool
unfolding ap_idata_ops_my_operations uc_idata_ops_my_operations
my_operations (at_place d) ops = ap_idata_ops_my_operations d ops
my_operations (use_copy d) ops = uc_idata_ops_my_operations d ops

unfoldable pub instrument_data_get_repl_operations : Instrumentor → ℕ → ℕ
unfolding get_repl_operations
instrument_data_get_repl_operations m a = get_repl_operations (m.idatas a).i_ops

unfoldable pub instrument_data_get_orig_operations : Instrumentor → ℕ → ℕ
unfolding get_orig_operations
instrument_data_get_orig_operations m a = get_orig_operations (m.idatas a).i_ops

unfoldable pub instrument_data_get_orig_operation : Instrumentor → ℕ → ℕ → ℕ
unfolding get_orig_operation_of
instrument_data_get_orig_operation m a offset =
    get_orig_operation_of (m.idatas a).i_ops m.state offset

unfoldable pub instrument_data_my_operations : Instrumentor → ℕ → ℕ → Bool
unfolding my_operations
instrument_data_my_operations m a ops = my_operations (m.idatas a).i_ops ops

abbrev pub with_refs : Instrumentor → ℕ → (ℕ → ℕ) → Instrumentor
with_refs m a change = record m {
  idatas = at m.idatas a (record (m.idatas a) { refs = change (m.idatas a).refs });
}

unfoldable pub instrument_data_ref : ℕ → Instrumentor → Instrumentor
instrument_data_ref a m = with_refs m a (λ n. n + 1)

module _ (hash_ptr : ℕ → ℕ → ℕ) where
  unfoldable pub destroy_idata :
      List Replacement → Mechanism → InstrumentorState → InstrumentorState
  unfolding ap_idata_destroy uc_idata_destroy
  destroy_idata rs (at_place d) s = ap_idata_destroy hash_ptr rs d s
  destroy_idata rs (use_copy d) s = uc_idata_destroy hash_ptr d s

  unfoldable pub destroy_idata_norestore : Mechanism → InstrumentorState → InstrumentorState
  unfolding ap_idata_destroy_norestore uc_idata_destroy
  destroy_idata_norestore (at_place d) s = ap_idata_destroy_norestore hash_ptr d s
  destroy_idata_norestore (use_copy d) s = uc_idata_destroy hash_ptr d s

  unfoldable pub instrument_data_unref : ℕ → Instrumentor → Instrumentor
  unfolding destroy_idata
  instrument_data_unref a m =
      let m' = with_refs m a (λ n. n - 1) in
      if (m.idatas a).refs == 1
      then record m' { state = destroy_idata m.replacements (m.idatas a).i_ops m.state }
      else m'

  unfoldable pub instrument_data_unref_norestore : ℕ → Instrumentor → Instrumentor
  unfolding destroy_idata_norestore
  instrument_data_unref_norestore a m =
      let m' = with_refs m a (λ n. n - 1) in
      if (m.idatas a).refs == 1
      then record m' { state = destroy_idata_norestore (m.idatas a).i_ops m.state }
      else m'

  unfoldable pub instrumentor_find_data : Instrumentor → ℕ → Option ℕ
  instrumentor_find_data m ops = elim (find_elem hash_ptr m.state.idata_table ops) [
    | none ↦ none
    | some e ↦ some (m.searches e.node)
  ]

  -- The new structure at its address, referenced once; ERR_PTR of the code if there is none.
  unfoldable pub ap_made :
      Instrumentor
      → ℕ
      → Code × Option ApInstrumentData × InstrumentorState
      → Code × Option ℕ × Instrumentor
  ap_made m a (c, none, s) = (c, none, record m { state = s })
  ap_made m a (c, some d, s) = (
    c,
    some a,
    record m {
      state = s;
      idatas = at m.idatas a (record { refs = 1; i_ops = at_place d });
      searches = at m.searches d.ops_elem.ops_elem.node a;
    },
  )

  unfoldable pub uc_made :
      Instrumentor
      → ℕ
      → Code × Option UcInstrumentData × InstrumentorState
      → Code × Option ℕ × Instrumentor
  uc_made m a (c, none, s) = (c, none, record m { state = s })
  uc_made m a (c, some d, s) = (
    c,
    some a,
    record m {
      state = s;
      idatas = at m.idatas a (record { refs = 1; i_ops = use_copy d });
      searches = at (at m.searches d.ops_orig_elem.ops_elem.node a) d.ops_repl_elem.ops_elem.node a;
    },
  )

  unfoldable pub create_at_place : Addresses → ℕ → Instrumentor → Code × Option ℕ × Instrumentor
  unfolding ap_made ap_idata_create
  create_at_place p ops m =
      ap_made m p.idata (ap_idata_create hash_ptr m.replacements p.node p.node_global ops m.state)

  unfoldable pub create_copy : Addresses → ℕ → Instrumentor → Code × Option ℕ × Instrumentor
  unfolding uc_made uc_idata_create
  create_copy p ops m = uc_made m p.idata (
      uc_idata_create hash_ptr m.replacements p.node p.node_global p.node₂ p.node_global₂ ops
        p.ops_repl m.state)

  -- Behind the lookup; `ops` may be NULL.
  unfoldable pub get_new_data : Addresses → ℕ → Instrumentor → Code × Option ℕ × Instrumentor
  unfolding create_at_place create_copy
  get_new_data p ops m =
      if ops == 0
      then create_copy p ops m
      else if m.replace_at_place ops
      then create_at_place p ops m
      else create_copy p ops m

  -- The address of a referenced structure; ERR_PTR of the code if there is none.
  unfoldable pub instrumentor_get_data :
      Addresses → ℕ → Instrumentor → Code × Option ℕ × Instrumentor
  unfolding instrumentor_find_data instrument_data_ref get_new_data
  instrumentor_get_data p ops m = elim (instrumentor_find_data m ops) [
    | some a ↦ (success, some a, instrument_data_ref a m)
    | none ↦ get_new_data p ops m
  ]
