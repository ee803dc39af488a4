-- ===== src/Tests/Lifetime.antt =====
-- The lifetime of payloads, from their initialisation to their destruction, at small payloads.
use kedr_callback_operations.Prelude.{◌≡◌, refl, some, List, [], ◌∷◌, false}
use kedr_callback_operations.Kernel.{Kernel, done}
use kedr_callback_operations.Payloads.Types.{Intermediate}
use kedr_callback_operations.Payloads.Operation.{operation_info_init, find_operation}
use kedr_callback_operations.Payloads.Registration.{
  operation_payloads_init, operation_payloads_destroy,
}
use kedr_callback_operations.Payloads.Idle.{
  InitEnds, operation_payloads_init-InitEnds, destroy-idle,
}
use kedr_callback_operations.Tests.Data.{fair, two_operations, two_operations-IsIdle}
use kedr_callback_operations.Tests.Tables.{first_fails}

abbrev two_intermediates : List Intermediate
two_intermediates =
    record { operation_offset = 8; repl = 1000; group_id = 1; internal_only = false }
    ∷ record { operation_offset = 16; repl = 2000; group_id = 1; internal_only = false }
    ∷ []

operation_payloads_init-InitEnds_example :
    InitEnds two_intermediates first_fails
      (operation_payloads_init (some two_intermediates) first_fails)
unfolding find_operation operation_info_init
operation_payloads_init-InitEnds_example =
    operation_payloads_init-InitEnds (some two_intermediates) first_fails (refl, (refl, tt))

destroy-idle_example :
    (k : Kernel) × (operation_payloads_destroy two_operations fair ≡ done k) × (k.allocated ≡ 7)
destroy-idle_example = destroy-idle two_operations 7 fair two_operations-IsIdle refl
