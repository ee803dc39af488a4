-- ===== src/Instrumentors.antt =====
-- The interface of core/kedr_coi_instrumentors.c that the interceptors call, as
-- core/kedr_coi_instrumentor_internal.h declares it. `W` is the state behind it: the instrumentors,
-- the global table and the memory of the objects. Addresses are numbers.
use kedr_callback_operations.Prelude.{ℕ, Bool, Option, List}
use kedr_callback_operations.Kernel.{Kernel, Code}
use kedr_callback_operations.Payloads.Types.{Replacement}

pub record Instrumentors (W : Type 0) : Type 0 where
  -- NULL if there is no memory.
  pub create : ℕ → Option (List Replacement) → (ℕ → Bool) → W × Kernel → Option ℕ × (W × Kernel)
  -- The objects that are still watched, in the order in which they are traced.
  pub destroy : ℕ → W × Kernel → List ℕ × (W × Kernel)
  pub watch : ℕ → ℕ → ℕ → W × Kernel → Code × (W × Kernel)
  pub watch_direct : ℕ → ℕ → W × Kernel → Code × (W × Kernel)
  -- Without `ops_p` the operations are not restored.
  pub forget : ℕ → ℕ → Option ℕ → W × Kernel → Code × (W × Kernel)
  pub forget_direct : ℕ → ℕ → Bool → W × Kernel → Code × (W × Kernel)
  -- The result and `op_orig`.
  pub get_orig_operation : ℕ → ℕ → ℕ → ℕ → W × Kernel → Code × ℕ
  pub foreign_create : ℕ → Option (List Replacement) → W × Kernel → Option ℕ × (W × Kernel)
  pub foreign_destroy : ℕ → W × Kernel → List ℕ × (W × Kernel)
  pub foreign_watch : ℕ → ℕ → ℕ → ℕ → W × Kernel → Code × (W × Kernel)
  pub foreign_forget : ℕ → ℕ → Option ℕ → W × Kernel → Code × (W × Kernel)
  -- The result, `op_chained` and `op_orig`.
  pub foreign_bind : ℕ → ℕ → ℕ → ℕ → ℕ → W × Kernel → Code × ℕ × ℕ × (W × Kernel)
  -- A read of the pointer at an address.
  pub read : W → ℕ → ℕ
  -- IS_ERR and `__module_address` of the kernel.
  pub is_err : ℕ → Bool
  pub module_address : ℕ → Bool
