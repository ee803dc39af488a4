-- ===== src/Payloads/Cancel.antt =====
-- The way back from using payloads: every operation loses its interception, and its arrays are freed.
use kedr_callback_operations.Prelude.{ℕ, ◌+◌, ◌≡◌, refl, ◌∙◌, List, [], ◌∷◌, arith, map, All}
use kedr_callback_operations.Kernel.{Kernel, Holds}
use kedr_callback_operations.Payloads.Types.{OperationInfo}
use kedr_callback_operations.Payloads.Operation.{operation_info_clear_interception}
use kedr_callback_operations.Payloads.Use.{operation_payloads_unuse_all}
use kedr_callback_operations.Payloads.Tidy.{IsTidy, cleared, clear-cleared}
use kedr_callback_operations.Payloads.Lists.{blocks_all}

-- All operations are cleared, and exactly the memory of their arrays is freed.
pub unuse_all-cleared :
    (os : List OperationInfo) (base : ℕ) (k : Kernel)
    → All IsTidy os
    → k.allocated ≡ base + blocks_all os
    → let (os', k') = operation_payloads_unuse_all os k in
      (os' ≡ map cleared os) × Holds base 0 k k'
unfolding operation_payloads_unuse_all
unuse_all-cleared [] base k t m =
    (refl, record { memory = omega arith; answers = refl; refs = refl })
unuse_all-cleared (o ∷ os) base k t m =
    let one = clear-cleared o (base + blocks_all os) k t.0 (omega arith) in
    let k₁ = (operation_info_clear_interception o k).1 in
    let rest = unuse_all-cleared os base k₁ t.1 (omega (arith, one.1.memory)) in
    (
      ground (arith, one.0, rest.0),
      record {
        memory = rest.1.memory;
        answers = rest.1.answers ∙ one.1.answers;
        refs = rest.1.refs ∙ one.1.refs;
      },
    )
