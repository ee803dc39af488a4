-- ===== src/Payloads/Registration.antt =====
-- Registration of payloads in core/payloads.c: init, add, remove and destroy. The calls run under
-- the mutex of the payloads, one after another; `mutex_lock_killable` may be interrupted.
use kedr_callback_operations.Prelude.{
  ℕ, Bool, true, false, ◌&&◌, Option, none, some, List, [], ◌∷◌, ◌++◌, ◌==◌, if◌then◌else◌,
}
use kedr_callback_operations.Kernel.{
  Kernel, Code, success, ignored, fail, enomem, ebusy, einval, eexist, enoent, eintr, Outcome, done,
  bug, ask, kmalloc, kfree,
}
use kedr_callback_operations.Payloads.Types.{
  Handler, Payload, Intermediate, OperationInfo, PayloadElem, OperationPayloads, handlers,
}
use kedr_callback_operations.Payloads.Operation.{operation_info_init, find_operation}

unfoldable pub payload_elem_init : Payload → PayloadElem
payload_elem_init p = record { payload = p; is_fixed = false }

-- The loop that frees what `init` has allocated.
unfoldable pub free_operations : List OperationInfo → Kernel → Kernel
free_operations [] k = k
free_operations (o ∷ os) k = free_operations os (kfree k)

-- `os` is the operations list as it has grown so far.
unfoldable pub fill_operations :
    List Intermediate → List OperationInfo → Kernel → Code × List OperationInfo × Kernel
unfolding operation_info_init free_operations
fill_operations [] os k = (success, os, k)
fill_operations (i ∷ is) os k =
    let (ok, k') = kmalloc k in
    let rest = fill_operations is (os ++ operation_info_init i ∷ []) k' in
    if ok then rest else (fail enomem, [], free_operations os k')

abbrev pub intermediates : Option (List Intermediate) → List Intermediate
intermediates none = []
intermediates (some is) = is

unfoldable pub operation_payloads_init :
    Option (List Intermediate) → Kernel → Code × OperationPayloads × Kernel
unfolding fill_operations
operation_payloads_init is k =
    let (result, os, k') = fill_operations (intermediates is) [] k in
    (
      result,
      record {
        payload_elems = [];
        operations = os;
        is_used = false;
        payload_elems_used = [];
        replacements = none;
      },
      k',
    )

-- One loop of `operation_payloads_check_payload`; its two loops are alike.
unfoldable pub check_handlers : List OperationInfo → List Handler → Code
unfolding find_operation
check_handlers os [] = success
check_handlers os (h ∷ hs) = elim (find_operation os h.operation_offset) [
  | none ↦ fail einval
  | some o ↦ if h.external && o.internal_only then fail einval else check_handlers os hs
]

unfoldable pub operation_payloads_check_payload : OperationPayloads → Payload → Code
unfolding check_handlers
operation_payloads_check_payload ps p =
    elim (check_handlers ps.operations (handlers p.pre_handlers)) [
      | success ↦ check_handlers ps.operations (handlers p.post_handlers)
      | ignored ↦ ignored
      | fail e ↦ fail e
    ]

unfoldable pub is_registered : List PayloadElem → ℕ → Bool
is_registered [] self = false
is_registered (e ∷ es) self = if e.payload.self == self then true else is_registered es self

unfoldable pub operation_payloads_add :
    OperationPayloads → Payload → Kernel → Code × OperationPayloads × Kernel
unfolding operation_payloads_check_payload payload_elem_init is_registered
operation_payloads_add ps p k =
    let (allocated, k₁) = kmalloc k in
    let (locked, k₂) = ask k₁ in
    elim (operation_payloads_check_payload ps p) [
      | success ↦
          if allocated
          then (if locked
              then (if is_registered ps.payload_elems p.self then (fail eexist, ps, kfree k₂) else (
                success,
                record ps { payload_elems = ps.payload_elems ++ payload_elem_init p ∷ [] },
                k₂,
              ))
              else (fail eintr, ps, kfree k₂))
          else (fail enomem, ps, k₁)
      | ignored ↦ (ignored, ps, k)
      | fail e ↦ (fail e, ps, k)
    ]

-- The search of `operation_payloads_remove`: the result, and the elements that are left.
unfoldable pub remove_elem : List PayloadElem → ℕ → Code × List PayloadElem
remove_elem [] self = (fail enoent, [])
remove_elem (e ∷ es) self =
    let (result, rest) = remove_elem es self in
    if e.payload.self == self
    then (if e.is_fixed then (fail ebusy, e ∷ es) else (success, es))
    else (result, e ∷ rest)

unfoldable pub free_if : Code → Kernel → Kernel
free_if success k = kfree k
free_if ignored k = k
free_if (fail e) k = k

unfoldable pub operation_payloads_remove :
    OperationPayloads → Payload → Kernel → Code × OperationPayloads × Kernel
unfolding remove_elem free_if
operation_payloads_remove ps p k =
    let (locked, k₁) = ask k in
    let (result, es) = remove_elem ps.payload_elems p.self in
    if locked
    then (result, record ps { payload_elems = es }, free_if result k₁)
    else (fail eintr, ps, k₁)

unfoldable pub free_elems : List PayloadElem → Kernel → Kernel
free_elems [] k = k
free_elems (e ∷ es) k = free_elems es (kfree k)

-- Every payload that is still registered is unregistered, then the operations are freed.
unfoldable pub operation_payloads_destroy : OperationPayloads → Kernel → Outcome Kernel
unfolding free_elems free_operations
operation_payloads_destroy ps k =
    if ps.is_used then bug else done (free_operations ps.operations (free_elems ps.payload_elems k))
