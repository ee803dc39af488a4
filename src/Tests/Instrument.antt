-- ===== src/Tests/Instrument.antt =====
-- The theorems of core/kedr_coi_instrumentors_impl.c at small structures of operations.
use kedr_callback_operations.Prelude.{◌≡◌, refl, true, List, [], ◌∷◌, arith, ◌==◌, if◌then◌else◌}
use kedr_callback_operations.Payloads.Types.{
  OperationInfo, Replacement, replace_all, replace_not_null,
}
use kedr_callback_operations.Payloads.Operation.{find_operation}
use kedr_callback_operations.Payloads.Use.{fill_replacements}
use kedr_callback_operations.Instrumentation.Replace.{
  Operations, replace_operations, restore_operations, restore-replace,
}
use kedr_callback_operations.Instrumentation.Selected.{replace-fill_replacements}
use kedr_callback_operations.Instrumentation.Place.{
  InstrumentorState, ap_idata_create, uc_idata_create,
}
use kedr_callback_operations.Instrumentation.Undo.{ApMade, ap_idata_create-ApMade}
use kedr_callback_operations.Instrumentation.Copy.{UcMade, uc_idata_create-UcMade}
use kedr_callback_operations.Tests.Data.{fair, open_operation, close_operation}
use kedr_callback_operations.Tests.Tables.{
  low_bits, low_bits-Bounded, two_buckets-IsValid, two_buckets,
}

-- The offset 8 holds an operation, all others NULL.
abbrev pub one_function : Operations
one_function off = if off == 8 then 77 else 0

abbrev pub two_replacements : List Replacement
two_replacements =
    record { operation_offset = 8; repl = 1000; mode = replace_not_null }
    ∷ record { operation_offset = 16; repl = 2000; mode = replace_all }
    ∷ []

abbrev changed : Operations
changed off = if off == 16 then 99 else replace_operations two_replacements one_function off

restore-replace_example :
    (restore_operations two_replacements one_function
        (replace_operations two_replacements one_function)
        16
      ≡ 0)
    × (restore_operations two_replacements one_function changed 16 ≡ 99)
restore-replace_example =
    restore-replace two_replacements one_function changed 16 (refl, (refl, tt))

abbrev intercepted : List OperationInfo
intercepted =
    record open_operation { is_intercepted = true }
    ∷ record close_operation { is_intercepted = true }
    ∷ []

-- The operation at 8 is replaced, the NULL at 16 stays.
replace-fill_replacements_example :
    replace_operations (fill_replacements intercepted) one_function 8 ≡ 1000
unfolding find_operation
replace-fill_replacements_example =
    replace-fill_replacements intercepted one_function 8 (refl, (refl, tt))

abbrev site : InstrumentorState
site = record {
  memory = λ addr. one_function;
  ops_table_global = two_buckets;
  idata_table = two_buckets;
  kernel = fair;
}

ap_idata_create-ApMade_example :
    ApMade low_bits two_replacements 6000 site
      (ap_idata_create low_bits two_replacements 401 402 6000 site)
ap_idata_create-ApMade_example =
    ap_idata_create-ApMade low_bits two_replacements 6000 site 401 402 (refl, (refl, tt))
      (refl, omega arith) (refl, omega arith)

uc_idata_create-UcMade_example :
    UcMade low_bits two_replacements 6000 7000 site
      (uc_idata_create low_bits two_replacements 401 402 403 404 6000 7000 site)
uc_idata_create-UcMade_example =
    uc_idata_create-UcMade low_bits two_replacements site low_bits-Bounded 401 402 403 404 6000 7000
      two_buckets-IsValid
      (record {
        first = (refl, omega arith);
        second = (refl, omega arith);
        apart = refl;
        small = omega arith;
      })
      (record {
        first = (refl, omega arith);
        second = (refl, omega arith);
        apart = refl;
        small = omega arith;
      })
