-- ===== src/Kernel.antt =====
-- What the sources use of the Linux kernel: error codes, memory, killable mutexes, module counts.
-- A call that may fail takes the next of a stream of answers, so a statement about every kernel is
-- about every pattern of failures.
use kedr_callback_operations.Prelude.{ℕ, ◌+◌, ◌-◌, ◌≡◌, Bool, true, ◌==◌, if◌then◌else◌}

pub data Errno : Type 0 where
  enomem ebusy einval eexist enoent eperm eintr : Errno

-- An `int` result: 0, 1 or a negative error.
pub data Code : Type 0 where
  success : Code
  ignored : Code
  fail : Errno → Code

-- A call that ends, or that meets `BUG_ON` or a bad pointer.
pub data Outcome {ℓ} (A : Type ℓ) : Type ℓ where
  done : A → Outcome A
  bug : Outcome A

infixl 5 ◌>>=◌
abbrev pub ◌>>=◌ {ℓ κ} : {A : Type ℓ} {B : Type κ} → Outcome A → (A → Outcome B) → Outcome B
done a >>= f = f a
bug >>= f = bug

pub record Kernel : Type 0 where
  -- The answer to the n-th call that may fail: true is success.
  pub answer : ℕ → Bool
  pub asked : ℕ
  -- Memory blocks that are allocated.
  pub allocated : ℕ
  -- The reference count of each module.
  pub module_refs : ℕ → ℕ

abbrev pub ask : Kernel → Bool × Kernel
ask k = (k.answer k.asked, record k { asked = k.asked + 1 })

-- kmalloc: whether it returned a block.
abbrev pub kmalloc : Kernel → Bool × Kernel
kmalloc k = (
  k.answer k.asked,
  record k {
    asked = k.asked + 1;
    allocated = if k.answer k.asked then k.allocated + 1 else k.allocated;
  },
)

abbrev pub kfree : Kernel → Kernel
kfree k = record k { allocated = k.allocated - 1 }

abbrev pub bump : (ℕ → ℕ) → ℕ → (ℕ → ℕ) → ℕ → ℕ
bump refs m change n = if n == m then change (refs n) else refs n

abbrev pub try_module_get : ℕ → Kernel → Bool × Kernel
try_module_get m k = (
  k.answer k.asked,
  record k {
    asked = k.asked + 1;
    module_refs = if k.answer k.asked then bump k.module_refs m (λ n. n + 1) else k.module_refs;
  },
)

abbrev pub module_put : ℕ → Kernel → Kernel
module_put m k = record k { module_refs = bump k.module_refs m (λ n. n - 1) }

-- No call fails from here on.
abbrev pub Reliable : Kernel → Type 0
Reliable k = (n : ℕ) → k.answer n ≡ true

-- `k'` differs from `k` in its memory and its answers so far alone, and has `blocks` more than `base`.
pub record Holds (base blocks : ℕ) (k k' : Kernel) : Type 0 where
  pub memory : k'.allocated ≡ base + blocks
  pub answers : k'.answer ≡ k.answer
  pub refs : k'.module_refs ≡ k.module_refs
