-- ===== src/Payloads/Using/Info.antt =====
-- operation_payloads_get_interception_info after a successful use.
use kedr_callback_operations.Prelude.{ℕ, Bool, true, false, Option, List}
use mathlib.Core.Option
use kedr_callback_operations.Kernel.{Kernel}
use kedr_callback_operations.Payloads.Types.{Handler}
use kedr_callback_operations.Payloads.Spec.{funcs, external_funcs}

-- The functions of the handlers for an offset: of the external ones alone for a default operation.
abbrev pub funcs_for : Bool → ℕ → List Handler → List ℕ
funcs_for true off hs = external_funcs off hs
funcs_for false off hs = funcs off hs
