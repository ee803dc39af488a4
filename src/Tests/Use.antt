-- ===== src/Tests/Use.antt =====
-- The theorems of core/payloads.c at small payloads.
use kedr_callback_operations.Prelude.{◌≡◌, refl, true, false, ◌↔◌, ◌⊎◌, [], ◌∷◌, arith}
use kedr_callback_operations.Kernel.{Kernel, Code, success, fail, einval, Outcome, done, bug}
use kedr_callback_operations.Payloads.Types.{OperationInfo, OperationPayloads}
use kedr_callback_operations.Payloads.Operation.{
  find_operation, put_operation, operation_info_add_pre, operation_info_add_post,
}
use kedr_callback_operations.Payloads.Parray.{parray_add_elem}
use kedr_callback_operations.Payloads.Registration.{
  operation_payloads_add, operation_payloads_remove, operation_payloads_check_payload,
}
use kedr_callback_operations.Payloads.Use.{
  use_pre, use_post, operation_payloads_use, operation_payloads_unuse, close_operations, fix_all,
  release_all,
}
use kedr_callback_operations.Payloads.Checked.{
  IsChecked, IsAllowedPayload, Added, check_payload_iff, operation_payloads_add-Added,
}
use kedr_callback_operations.Payloads.Checked.Removal.{add-remove-IsChecked, remove-add}
use kedr_callback_operations.Payloads.Groups.{close_operations-closed_by}
use kedr_callback_operations.Payloads.Fixing.{release-fix}
use kedr_callback_operations.Payloads.Tidy.{IsTidy, with_pre}
use kedr_callback_operations.Payloads.Using.{Uses}
use kedr_callback_operations.Payloads.Using.Run.{operation_payloads_use-Uses}
use kedr_callback_operations.Payloads.Using.Single.{intercept_all-bug}
use kedr_callback_operations.Payloads.Using.Unuse.{unuse-use}
use kedr_callback_operations.Tests.Data.{
  fair, fair-Reliable, open_operation, close_operation, counting, tracing, two_operations,
  one_operation, two_operations-IsChecked, two_operations-IsIdle, one_operation-IsIdle,
}

operation_payloads_use-Uses_example :
    Uses one_operation true fair (operation_payloads_use one_operation true fair)
operation_payloads_use-Uses_example =
    operation_payloads_use-Uses one_operation true fair one_operation-IsIdle (λ e. refl)

intercept_all-bug_example : operation_payloads_use two_operations true fair ≡ bug
intercept_all-bug_example =
    intercept_all-bug two_operations fair two_operations-IsIdle fair-Reliable (omega arith)

abbrev used : Outcome (Code × OperationPayloads × Kernel) → OperationPayloads × Kernel
used (done (c, ps, k)) = (ps, k)
used bug = (two_operations, fair)

unuse-use_example :
    let (ps, k) = used (operation_payloads_use two_operations false fair) in
    let (ps', k') = operation_payloads_unuse ps k in
    (ps' ≡ two_operations) × (k'.allocated ≡ 10) × (k'.module_refs ≡ λ m. 0)
unfolding operation_payloads_use use_pre use_post find_operation put_operation
    operation_info_add_pre operation_info_add_post parray_add_elem
unuse-use_example =
    let (ps, k) = used (operation_payloads_use two_operations false fair) in
    unuse-use two_operations ps false fair k k two_operations-IsIdle (λ e. cc) refl refl refl

abbrev by_default : OperationInfo → OperationInfo
by_default o = record o { default_is_intercepted = true }

close_operations-closed_by_example :
    close_operations (open_operation ∷ by_default close_operation ∷ [])
    ≡ by_default open_operation ∷ by_default close_operation ∷ []
close_operations-closed_by_example =
    close_operations-closed_by (open_operation ∷ by_default close_operation ∷ [])

check_payload_iff_example :
    ((operation_payloads_check_payload two_operations counting ≡ success)
      ↔ IsAllowedPayload two_operations.operations counting)
    × ((operation_payloads_check_payload two_operations counting ≡ success)
        ⊎ (operation_payloads_check_payload two_operations counting ≡ fail einval))
check_payload_iff_example = check_payload_iff two_operations counting

operation_payloads_add-Added_example :
    Added two_operations tracing fair (operation_payloads_add two_operations tracing fair)
operation_payloads_add-Added_example = operation_payloads_add-Added two_operations tracing fair

add-remove-IsChecked_example :
    IsChecked (operation_payloads_add two_operations tracing fair).1
    × IsChecked (operation_payloads_remove two_operations tracing fair).1
add-remove-IsChecked_example =
    add-remove-IsChecked two_operations tracing fair two_operations-IsChecked

remove-add_example :
    let (c, ps', k') = operation_payloads_add two_operations tracing fair in
    let (c', ps'', k'') = operation_payloads_remove ps' tracing k' in
    (c' ≡ success) × (ps'' ≡ two_operations) × (k''.allocated ≡ 10)
unfolding operation_payloads_add
remove-add_example =
    let (c, ps', k') = operation_payloads_add two_operations tracing fair in
    remove-add two_operations tracing fair k' ps' refl refl

release-fix_example :
    let (es, used, k) = fix_all two_operations.payload_elems fair in
    let (es', k') = release_all es k in
    (es' ≡ two_operations.payload_elems) × (k'.module_refs ≡ λ m. 0)
release-fix_example =
    release-fix two_operations.payload_elems fair (fix_all two_operations.payload_elems fair).2
      (refl, tt) refl

-- The first operation with an external handler before it: two arrays.
abbrev handled : OperationInfo
handled = with_pre 501 true open_operation

handled-IsTidy : IsTidy handled
handled-IsTidy = record {
  pre = refl;
  post = refl;
  default_pre = refl;
  default_post = refl;
  quiet = λ off. cc;
  default_quiet = λ off. cc;
}

close_operation-IsTidy : IsTidy close_operation
close_operation-IsTidy = record {
  pre = refl;
  post = refl;
  default_pre = refl;
  default_post = refl;
  quiet = λ off. (refl, refl);
  default_quiet = λ off. (refl, refl);
}
