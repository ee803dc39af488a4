-- ===== src/Payloads/Operation.antt =====
-- `struct operation_info` of core/payloads.c: the handlers of one operation.
use kedr_callback_operations.Prelude.{
  ℕ, Bool, true, false, Option, none, some, List, [], ◌∷◌, ◌==◌, if◌then◌else◌,
}
use kedr_callback_operations.Kernel.{Kernel, Code, success, ignored, fail}
use kedr_callback_operations.Payloads.Types.{Intermediate, OperationInfo}
use kedr_callback_operations.Payloads.Parray.{parray_init, parray_reset, parray_add_elem}

unfoldable pub operation_info_init : Intermediate → OperationInfo
operation_info_init i = record {
  operation_offset = i.operation_offset;
  repl = i.repl;
  group_id = i.group_id;
  internal_only = i.internal_only;
  is_intercepted = false;
  pre_handlers = parray_init;
  post_handlers = parray_init;
  default_is_intercepted = false;
  default_pre_handlers = parray_init;
  default_post_handlers = parray_init;
}

-- The two halves of operation_info_clear_interception.
unfoldable pub clear_handlers : OperationInfo → Kernel → OperationInfo × Kernel
clear_handlers o k =
    let (pre, k₁) = parray_reset o.pre_handlers k in
    let (post, k₂) = parray_reset o.post_handlers k₁ in
    if o.is_intercepted
    then (record o { is_intercepted = false; pre_handlers = pre; post_handlers = post }, k₂)
    else (o, k)

unfoldable pub clear_default_handlers : OperationInfo → Kernel → OperationInfo × Kernel
clear_default_handlers o k =
    let (pre, k₁) = parray_reset o.default_pre_handlers k in
    let (post, k₂) = parray_reset o.default_post_handlers k₁ in
    if o.default_is_intercepted
    then (
      record o {
        default_is_intercepted = false;
        default_pre_handlers = pre;
        default_post_handlers = post;
      },
      k₂,
    )
    else (o, k)

unfoldable pub operation_info_clear_interception : OperationInfo → Kernel → OperationInfo × Kernel
operation_info_clear_interception o k =
    let (o', k') = clear_handlers o k in clear_default_handlers o' k'

unfoldable pub is_success : Code → Bool
is_success success = true
is_success ignored = false
is_success (fail e) = false

unfoldable pub operation_info_add_pre :
    OperationInfo → ℕ → Bool → Kernel → Code × OperationInfo × Kernel
unfolding is_success
operation_info_add_pre o pre external k =
    let (result, pres, k₁) = parray_add_elem o.pre_handlers pre k in
    let o₁ : OperationInfo = record o { pre_handlers = pres; is_intercepted = true } in
    let (result₂, default_pres, k₂) = parray_add_elem o.default_pre_handlers pre k₁ in
    if is_success result
    then (if external
        then (if is_success result₂
            then (
              success,
              record o₁ { default_pre_handlers = default_pres; default_is_intercepted = true },
              k₂,
            )
            else (result₂, o₁, k₂))
        else (success, o₁, k₁))
    else (result, o, k₁)

unfoldable pub operation_info_add_post :
    OperationInfo → ℕ → Bool → Kernel → Code × OperationInfo × Kernel
unfolding is_success
operation_info_add_post o post external k =
    let (result, posts, k₁) = parray_add_elem o.post_handlers post k in
    let o₁ : OperationInfo = record o { post_handlers = posts; is_intercepted = true } in
    let (result₂, default_posts, k₂) = parray_add_elem o.default_post_handlers post k₁ in
    if is_success result
    then (if external
        then (if is_success result₂
            then (
              success,
              record o₁ { default_post_handlers = default_posts; default_is_intercepted = true },
              k₂,
            )
            else (result₂, o₁, k₂))
        else (success, o₁, k₁))
    else (result, o, k₁)

-- operation_payloads_find_operation: the first operation with the offset.
unfoldable pub find_operation : List OperationInfo → ℕ → Option OperationInfo
find_operation [] offset = none
find_operation (o ∷ os) offset =
    if o.operation_offset == offset then some o else find_operation os offset

-- A write through the pointer that `find_operation` returns.
unfoldable pub put_operation : List OperationInfo → ℕ → OperationInfo → List OperationInfo
put_operation [] offset new = []
put_operation (o ∷ os) offset new =
    if o.operation_offset == offset then new ∷ os else o ∷ put_operation os offset new
