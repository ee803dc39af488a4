-- ===== src/Payloads/Use.antt =====
-- Using payloads in core/payloads.c: fixing them, collecting their handlers, closing groups,
-- building the replacements, and the way back.
pub mod Fix
pub mod Close
unfoldable pub use Fix.*
unfoldable pub use Close.*
use kedr_callback_operations.Prelude.{
  ℕ, zero, suc, ◌+◌, ◌-◌, Bool, true, false, ◌||◌, ◌&&◌, not, Option, none, some, List, [], ◌∷◌,
  ◌++◌, map, ◌==◌, if◌then◌else◌, length, get_elem?,
}
use kedr_callback_operations.Kernel.{
  Kernel, Code, success, ignored, fail, Errno, enomem, ebusy, eintr, Outcome, done, bug, ◌>>=◌, ask,
  kmalloc, kfree, try_module_get, module_put,
}
use kedr_callback_operations.Payloads.Types.{
  Handler, Payload, OperationInfo, PayloadElem, OperationPayloads, Replacement, ReplacementMode,
  replace_null, replace_not_null, replace_all, handlers,
}
use kedr_callback_operations.Payloads.Operation.{
  operation_info_clear_interception, operation_info_add_pre, operation_info_add_post,
  find_operation, put_operation,
}

-- An error is returned at once, with what has been done so far.
abbrev pub and_then :
    {S : Type 0}
    → Outcome (Code × S × Kernel)
    → (S → Kernel → Outcome (Code × S × Kernel))
    → Outcome (Code × S × Kernel)
and_then (done (success, s, k)) next = next s k
and_then (done (ignored, s, k)) next = done (ignored, s, k)
and_then (done (fail e, s, k)) next = done (fail e, s, k)
and_then bug next = bug

-- The two loops of operation_payloads_use_elem.
unfoldable pub use_pre :
    List Handler → List OperationInfo → Kernel → Outcome (Code × List OperationInfo × Kernel)
use_pre [] os k = done (success, os, k)
use_pre (h ∷ hs) os k = elim (find_operation os h.operation_offset) [
  | none ↦ bug
  | some o ↦
      let (result, o', k') = operation_info_add_pre o h.func h.external k in
      and_then (done (result, put_operation os h.operation_offset o', k')) (use_pre hs)
]

unfoldable pub use_post :
    List Handler → List OperationInfo → Kernel → Outcome (Code × List OperationInfo × Kernel)
use_post [] os k = done (success, os, k)
use_post (h ∷ hs) os k = elim (find_operation os h.operation_offset) [
  | none ↦ bug
  | some o ↦
      let (result, o', k') = operation_info_add_post o h.func h.external k in
      and_then (done (result, put_operation os h.operation_offset o', k')) (use_post hs)
]

unfoldable pub operation_payloads_use_elem :
    PayloadElem → List OperationInfo → Kernel → Outcome (Code × List OperationInfo × Kernel)
operation_payloads_use_elem e os k =
    if e.is_fixed
    then and_then (use_pre (handlers e.payload.pre_handlers) os k)
        (use_post (handlers e.payload.post_handlers))
    else bug

unfoldable pub use_elems :
    List PayloadElem → List OperationInfo → Kernel → Outcome (Code × List OperationInfo × Kernel)
unfolding operation_payloads_use_elem
use_elems [] os k = done (success, os, k)
use_elems (e ∷ es) os k = and_then (operation_payloads_use_elem e os k) (use_elems es)

unfoldable pub operation_payloads_unuse_all :
    List OperationInfo → Kernel → List OperationInfo × Kernel
unfolding operation_info_clear_interception
operation_payloads_unuse_all [] k = ([], k)
operation_payloads_unuse_all (o ∷ os) k =
    let (o', k₁) = operation_info_clear_interception o k in
    let (os', k₂) = operation_payloads_unuse_all os k₁ in (o' ∷ os', k₂)

abbrev pub is_replaced : OperationInfo → Bool
is_replaced o = o.is_intercepted || o.default_is_intercepted

unfoldable pub count_replaced : List OperationInfo → ℕ
count_replaced [] = 0
count_replaced (o ∷ os) = if is_replaced o then count_replaced os + 1 else count_replaced os

abbrev pub replacement_of : OperationInfo → Replacement
replacement_of o = record {
  operation_offset = o.operation_offset;
  repl = o.repl;
  mode =
      if o.default_is_intercepted
      then (if o.is_intercepted then replace_all else replace_null)
      else replace_not_null;
}

unfoldable pub fill_replacements : List OperationInfo → List Replacement
fill_replacements [] = []
fill_replacements (o ∷ os) =
    let rest = fill_replacements os in if is_replaced o then replacement_of o ∷ rest else rest

unfoldable pub operation_payloads_create_replacements :
    OperationPayloads → Kernel → Outcome (Code × OperationPayloads × Kernel)
unfolding count_replaced fill_replacements
operation_payloads_create_replacements ps k =
    let n = count_replaced ps.operations in
    let rs = fill_replacements ps.operations in
    let (ok, k') = kmalloc k in
    if n == 0
    then done (success, record ps { replacements = none }, k)
    else if ok
    then (if length rs == n then done (success, record ps { replacements = some rs }, k') else bug)
    else done (fail enomem, ps, k')

-- What `intercept_all` insists on: one replacement.
abbrev pub is_single : Option (List Replacement) → Bool
is_single none = false
is_single (some []) = false
is_single (some (r ∷ [])) = true
is_single (some (r ∷ s ∷ rs)) = false

-- The error paths of operation_payloads_use behind the fixing.
unfoldable pub cancel_use : OperationPayloads → Kernel → OperationPayloads × Kernel
unfolding operation_payloads_unuse_all operation_payloads_release_all
cancel_use ps k =
    let (os, k') = operation_payloads_unuse_all ps.operations k in
    operation_payloads_release_all (record ps { operations = os }) k'

unfoldable pub finish_use :
    Bool → Outcome (Code × OperationPayloads × Kernel) → Outcome (Code × OperationPayloads × Kernel)
unfolding cancel_use
finish_use intercept_all (done (success, ps, k)) =
    if intercept_all && not (is_single ps.replacements)
    then bug
    else done (success, record ps { is_used = true }, k)
finish_use intercept_all (done (ignored, ps, k)) =
    let (ps', k') = cancel_use ps k in done (ignored, ps', k')
finish_use intercept_all (done (fail e, ps, k)) =
    let (ps', k') = cancel_use ps k in done (fail e, ps', k')
finish_use intercept_all bug = bug

-- Behind the fixing: the handlers of the used elements, the groups, the replacements.
unfoldable pub collect :
    OperationPayloads
    → Outcome (Code × List OperationInfo × Kernel)
    → Outcome (Code × OperationPayloads × Kernel)
unfolding operation_payloads_create_replacements close_operations
collect ps (done (success, os, k)) =
    operation_payloads_create_replacements (record ps { operations = close_operations os }) k
collect ps (done (ignored, os, k)) = done (ignored, record ps { operations = os }, k)
collect ps (done (fail e, os, k)) = done (fail e, record ps { operations = os }, k)
collect ps bug = bug

unfoldable pub operation_payloads_use :
    OperationPayloads → Bool → Kernel → Outcome (Code × OperationPayloads × Kernel)
unfolding operation_payloads_fix_all use_elems collect finish_use
operation_payloads_use ps intercept_all k =
    let (locked, k₁) = ask k in
    let (ps₁, k₂) = operation_payloads_fix_all (record ps { payload_elems_used = [] }) k₁ in
    let os : List OperationInfo =
      if intercept_all then map intercept_one ps₁.operations else ps₁.operations in
    if locked
    then (if ps.is_used
        then done (fail ebusy, ps, k₁)
        else finish_use intercept_all (collect ps₁ (use_elems ps₁.payload_elems_used os k₂)))
    else done (fail eintr, ps, k₁)

unfoldable pub free_replacements : Option (List Replacement) → Kernel → Kernel
free_replacements none k = k
free_replacements (some rs) k = kfree k

unfoldable pub operation_payloads_unuse : OperationPayloads → Kernel → OperationPayloads × Kernel
unfolding free_replacements cancel_use
operation_payloads_unuse ps k =
    cancel_use (record ps { is_used = false; replacements = none })
      (free_replacements ps.replacements k)

unfoldable pub operation_payloads_get_interception_info :
    OperationPayloads → ℕ → Bool → Outcome (Option (List ℕ) × Option (List ℕ))
unfolding find_operation
operation_payloads_get_interception_info ps offset is_default =
    if ps.is_used
    then elim (find_operation ps.operations offset) [
      | none ↦ bug
      | some o ↦ done (
        (if is_default then o.default_pre_handlers.elems else o.pre_handlers.elems),
        (if is_default then o.default_post_handlers.elems else o.post_handlers.elems),
      )
    ]
    else bug

unfoldable pub operation_payloads_get_replacements :
    OperationPayloads → Outcome (Option (List Replacement))
operation_payloads_get_replacements ps = if ps.is_used then done ps.replacements else bug
