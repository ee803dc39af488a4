-- ===== src/Tests/Chain.antt =====
-- Two foreign instrumentors in one chain.
use kedr_callback_operations.Prelude.{◌≡◌, refl, List, [], ◌∷◌, arith}
use kedr_callback_operations.Payloads.Types.{Replacement, replace_all}
use kedr_callback_operations.Instrumentation.Place.{ap_idata_ops_get_orig_operation}
use kedr_callback_operations.Instrumentation.Replace.{operation_at_offset}
use kedr_callback_operations.Instrumentor.{at_place, Instrumentor}
use kedr_callback_operations.Instrumentor.Data.{
  get_repl_operations, instrument_data_get_repl_operations, instrument_data_get_orig_operation,
  get_orig_operation_of,
}
use kedr_callback_operations.Foreign.{Foreign}
use kedr_callback_operations.Foreign.Chain.{
  foreign_replace, foreign_restore, for_each_replacement, preceding, preceding_from,
  replacements_of, apf_idata_foreign_ops_get_normal_operation,
  apf_idata_foreign_ops_get_chain_operation,
}
use kedr_callback_operations.Foreign.Restored.{
  Stands, AreOwn, foreign_replace-Stands, foreign_restore-Stands,
}
use kedr_callback_operations.Foreign.Next.{next_operations}
use kedr_callback_operations.Tests.Watching.{idle}

-- One structure in place at 6000, whose operations are all 5; the normal instrumentor replaces none.
abbrev pub plain : Instrumentor
plain = record idle {
  state = record (idle.state) { memory = λ addr off. 5 };
  replacements = [];
  idatas = λ a. record {
    refs = 1;
    i_ops = at_place (record {
      ops_elem = record {
        ops_elem = record { node = 901; key = 6000 };
        ops_elem_global = record { node = 902; key = 6000 };
      };
      ops_orig = λ off. 5;
    });
  };
}

abbrev pub first : List Replacement
first = record { operation_offset = 8; repl = 3000; mode = replace_all } ∷ []

abbrev pub second : List Replacement
second = record { operation_offset = 8; repl = 4000; mode = replace_all } ∷ []

plain-Stands : Stands [] 900 plain
unfolding instrument_data_get_repl_operations instrument_data_get_orig_operation
    get_orig_operation_of ap_idata_ops_get_orig_operation operation_at_offset
plain-Stands off = refl

abbrev with_first : Instrumentor
with_first = foreign_replace first 900 6000 plain

abbrev with_both : Instrumentor
with_both = foreign_replace second 900 6000 with_first

foreign_replace-Stands_example : Stands (first ∷ []) 900 with_first
unfolding instrument_data_get_repl_operations get_repl_operations
foreign_replace-Stands_example =
    foreign_replace-Stands 900 plain first (refl, tt) tt [] plain-Stands

both-Stands : Stands (second ∷ first ∷ []) 900 with_both
unfolding instrument_data_get_repl_operations get_repl_operations foreign_replace
    for_each_replacement
both-Stands =
    foreign_replace-Stands 900 with_first second (refl, tt) tt (first ∷ [])
      (foreign_replace-Stands 900 plain first (refl, tt) tt [] plain-Stands)

first-own : AreOwn first (second ∷ []) [] 900 with_both
unfolding instrument_data_get_orig_operation get_orig_operation_of foreign_replace
    for_each_replacement ap_idata_ops_get_orig_operation operation_at_offset
first-own off r found = record {
  others = ((λ e. ground (arith, found, e)), tt);
  not_normal = λ e. cc e;
  not_original = λ e. ground (arith, found, e);
}

-- The first one leaves the chain: the second one's replacement stays.
foreign_restore-Stands_example :
    Stands (second ∷ []) 900 (foreign_restore first [] 900 6000 with_both)
unfolding instrument_data_get_repl_operations get_repl_operations foreign_replace
    for_each_replacement
foreign_restore-Stands_example =
    foreign_restore-Stands 900 with_both first (second ∷ []) [] (refl, tt) tt tt tt first-own
      both-Stands

-- Foreign data 71 and 72 of two instrumentors for it.
abbrev pub chained : Foreign
chained = record {
  normal = with_both;
  instrumentors = λ n. record {
    ids_table = idle.objects_table;
    ties_table = idle.objects_table;
    replacements = first;
  };
  foreigns = λ f. record { refs = 1; idata_binded = 900; instrumentor = 1 };
  chains = λ a. 71 ∷ 72 ∷ [];
  watches = λ w. record {
    idata_foreign = 71;
    id_elem = record { node = 1; key = 0 };
    tie_elem = record { node = 2; key = 0 };
    ops_p_elem = record { node = 3; key = 0 };
  };
  containers = λ node. 0;
}

next_operations_example :
    (apf_idata_foreign_ops_get_normal_operation chained 72 8 ≡ 5)
    × (apf_idata_foreign_ops_get_chain_operation chained 72 8 ≡ 3000)
unfolding instrument_data_get_orig_operation get_orig_operation_of foreign_replace
    for_each_replacement ap_idata_ops_get_orig_operation operation_at_offset preceding
    preceding_from replacements_of
next_operations_example =
    next_operations chained 72 8 ((refl, tt), tt) ((λ e. ground (arith, e)), tt)
