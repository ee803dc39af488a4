-- ===== src/Tests/Binding.antt =====
-- A foreign instrumentor of core/kedr_coi_instrumentors.c binds at concrete states.
use kedr_callback_operations.Prelude.{
  ◌≡◌, refl, some, [], ◌∷◌, arith, Bool-cases, inl, inr, ◌==◌, if◌then◌else◌,
}
use kedr_callback_operations.Kernel.{ignored, done, bug}
use kedr_callback_operations.HashTable.{find_elem, find_in}
use kedr_callback_operations.Instrumentation.Place.{ap_idata_ops_get_orig_operation}
use kedr_callback_operations.Instrumentation.Replace.{
  operation_at_offset, replace_operation, replace_operation_generic,
}
use kedr_callback_operations.Instrumentor.{Instrumentor, use_copy}
use kedr_callback_operations.Instrumentor.Data.{
  instrument_data_get_orig_operations, get_orig_operations, instrument_data_get_orig_operation,
  get_orig_operation_of, instrumentor_find_data,
}
use kedr_callback_operations.Instrumentor.Watch.{
  instrumentor_find_watch_data, instrument_data_restore_ops, set_pointer, operation_in_memory,
}
use kedr_callback_operations.Foreign.{Foreign}
use kedr_callback_operations.Foreign.Chain.{
  find_in_chain, apf_idata_ops_find_foreign_data, apf_idata_foreign_ops_get_chain_operation,
  preceding, preceding_from, replacements_of, chain_over, chain_through,
}
use kedr_callback_operations.Foreign.Watch.{
  instrumentor_foreign_find_data, instrumentor_foreign_find_watch_data_by_tie,
}
use kedr_callback_operations.Foreign.Bind.{
  instrument_data_foreign_chain_operation, bind_instrumented, bind_unwatched,
  instrumentor_foreign_get_orig_operation_nodata, foreign_instrumentor_bind,
  kedr_coi_foreign_instrumentor_bind,
}
use kedr_callback_operations.Foreign.Continued.{IsApart, Continues, bind-Continues}
use kedr_callback_operations.Tests.Tables.{low_bits}
use kedr_callback_operations.Tests.Watching.{addresses}
use kedr_callback_operations.Tests.Chain.{plain, first, second, chained}

-- The operations at 6000 are instrumented by the data at 900.
abbrev instrumented : Instrumentor
instrumented = record plain {
  state = record (plain.state) {
    idata_table = record (plain.state.idata_table) {
      heads =
          (record { node = 901; key = 6000 } ∷ [])
          ∷ []
          ∷ []
          ∷ []
          ∷ []
          ∷ []
          ∷ []
          ∷ []
          ∷ []
          ∷ []
          ∷ []
          ∷ []
          ∷ []
          ∷ []
          ∷ []
          ∷ []
          ∷ [];
      n_elems = 1;
    };
  };
  searches = λ node. 900;
}

-- Foreign data 71 of instrumentor 1 and 72 of instrumentor 2 are in its chain.
abbrev pub bound : Foreign
bound = record chained {
  normal = instrumented;
  instrumentors = λ n. record {
    ids_table = plain.objects_table;
    ties_table = plain.objects_table;
    replacements = if n == 2 then second else first;
  };
  foreigns = λ f. record { refs = 1; idata_binded = 900; instrumentor = if f == 71 then 1 else 2 };
  chains = λ a. if a == 900 then 71 ∷ 72 ∷ [] else [];
}

bound-IsApart : IsApart 2 bound
unfolding instrument_data_get_orig_operation get_orig_operation_of ap_idata_ops_get_orig_operation
    operation_at_offset find_in_chain
bound-IsApart = record {
  originals = λ a off. ((λ e. ground (arith, e)), tt);
  normals = tt;
  others = λ g other. elim (Bool-cases (g == 2)) [
    | inl same ↦ absurd (ground (arith, same, other))
    | inr away ↦ rw away (((λ e. ground (arith, e)), tt), tt)
  ];
  chained = λ a f. elim (Bool-cases (a == 900)) [
    | inl here ↦ rw here (λ e. ground (arith, here))
    | inr away ↦ rw away (λ e. absurd (cc e))
  ];
}

bind-Continues_example :
    Continues low_bits 2 50 8 bound
      (kedr_coi_foreign_instrumentor_bind low_bits 2 50 8 addresses 1 3 bound)
bind-Continues_example = bind-Continues low_bits 2 50 8 bound bound-IsApart addresses 1 3

-- The bind of an object and a tie that are not watched goes on with the first one's replacement.
bound_to_first :
    kedr_coi_foreign_instrumentor_bind low_bits 2 50 8 addresses 1 3 bound
    ≡ done (ignored, some 3000, some 5, bound)
unfolding kedr_coi_foreign_instrumentor_bind foreign_instrumentor_bind bind_unwatched
    bind_instrumented instrumentor_foreign_find_data instrumentor_foreign_find_watch_data_by_tie
    instrumentor_find_watch_data find_elem find_in instrumentor_find_data
    apf_idata_ops_find_foreign_data find_in_chain instrument_data_get_orig_operation
    get_orig_operation_of ap_idata_ops_get_orig_operation operation_at_offset
    instrument_data_foreign_chain_operation apf_idata_foreign_ops_get_chain_operation preceding
    preceding_from replacements_of chain_over chain_through replace_operation
    replace_operation_generic
bound_to_first = refl

-- The operations at 6000 are a copy of NULL, without foreign data.
abbrev copied : Foreign
copied = record bound {
  normal = record instrumented {
    idatas = λ a. record {
      refs = 1;
      i_ops = use_copy (record {
        ops_orig_elem = record {
          ops_elem = record { node = 903; key = 0 };
          ops_elem_global = record { node = 904; key = 0 };
        };
        ops_repl_elem = record {
          ops_elem = record { node = 901; key = 6000 };
          ops_elem_global = record { node = 902; key = 6000 };
        };
      });
    };
  };
  chains = λ a. [];
}

-- Then a bind sets the pointer to NULL and reads through it.
bound_to_null : kedr_coi_foreign_instrumentor_bind low_bits 2 50 8 addresses 1 3 copied ≡ bug
unfolding kedr_coi_foreign_instrumentor_bind foreign_instrumentor_bind bind_unwatched
    bind_instrumented instrumentor_foreign_find_data instrumentor_foreign_find_watch_data_by_tie
    instrumentor_find_watch_data find_elem find_in instrumentor_find_data
    apf_idata_ops_find_foreign_data find_in_chain instrument_data_restore_ops
    instrument_data_get_orig_operations get_orig_operations set_pointer
    instrumentor_foreign_get_orig_operation_nodata operation_in_memory
bound_to_null = refl
