-- ===== src/Payloads/Use/Fix.antt =====
-- Fixing and releasing payloads in core/payloads.c.
use kedr_callback_operations.Prelude.{
  ℕ, Bool, true, false, Option, none, some, List, [], ◌∷◌, ◌++◌, if◌then◌else◌,
}
use kedr_callback_operations.Kernel.{Kernel, try_module_get, module_put}
use kedr_callback_operations.Payloads.Types.{PayloadElem, OperationPayloads}

-- operation_payloads_fix_elem: whether the module of the payload is there, or there is none.
unfoldable pub get_owner : Option ℕ → Kernel → Bool × Kernel
get_owner none k = (true, k)
get_owner (some m) k = try_module_get m k

unfoldable pub put_owner : Option ℕ → Kernel → Kernel
put_owner none k = k
put_owner (some m) k = module_put m k

abbrev pub fixed : PayloadElem → PayloadElem
fixed e = record e { is_fixed = true }

-- operation_payloads_fix_all: the elements, those on the used list, and the kernel. An element that
-- cannot be fixed is left out.
unfoldable pub fix_all : List PayloadElem → Kernel → List PayloadElem × List PayloadElem × Kernel
unfolding get_owner
fix_all [] k = ([], [], k)
fix_all (e ∷ es) k =
    let (ok, k₁) = get_owner e.payload.owner k in
    let (all, used, k₂) = fix_all es k₁ in
    if ok then (fixed e ∷ all, fixed e ∷ used, k₂) else (e ∷ all, used, k₂)

-- operation_payloads_release_all: each fixed element gives its module back and leaves the used list.
unfoldable pub release_all : List PayloadElem → Kernel → List PayloadElem × Kernel
unfolding put_owner
release_all [] k = ([], k)
release_all (e ∷ es) k =
    let (es', k') = release_all es (if e.is_fixed then put_owner e.payload.owner k else k) in
    ((if e.is_fixed then record e { is_fixed = false } else e) ∷ es', k')

unfoldable pub operation_payloads_fix_all : OperationPayloads → Kernel → OperationPayloads × Kernel
unfolding fix_all
operation_payloads_fix_all ps k =
    let (all, used, k') = fix_all ps.payload_elems k in
    (record ps { payload_elems = all; payload_elems_used = ps.payload_elems_used ++ used }, k')

unfoldable pub operation_payloads_release_all :
    OperationPayloads → Kernel → OperationPayloads × Kernel
unfolding release_all
operation_payloads_release_all ps k =
    let (es, k') = release_all ps.payload_elems k in
    (record ps { payload_elems = es; payload_elems_used = [] }, k')
