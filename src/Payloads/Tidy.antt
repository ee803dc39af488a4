-- ===== src/Payloads/Tidy.antt =====
-- The arrays of an operation through adding handlers and clearing: their shape and their memory.
pub mod Adding
use kedr_callback_operations.Prelude.{
  ℕ, ◌+◌, ◌-◌, ◌≡◌, refl, sym, ap, ◌∙◌, Bool, true, false, ◌||◌, Option, none, some, List, [], ◌∷◌,
  ◌++◌, arith, map, All, Bool-cases, inl, inr, ◌⊎◌, ◌==◌, if◌then◌else◌,
}
use kedr_callback_operations.Kernel.{Kernel, Code, success, ignored, fail, enomem, Holds}
use kedr_callback_operations.Payloads.Types.{Parray, OperationInfo}
use kedr_callback_operations.Payloads.Parray.{
  parray_init, parray_of, pointers, blocks, IsArray, Grown, grown, full, Reset, parray_add_elem,
  parray_reset, parray_add_elem-Grown, parray_reset-Reset, pointers-parray_of,
}
use kedr_callback_operations.Payloads.Operation.{
  clear_handlers, clear_default_handlers, operation_info_clear_interception, operation_info_add_pre,
  operation_info_add_post,
}

-- Each array ends with NULL, and an operation that is not intercepted holds no handlers.
pub record IsTidy (o : OperationInfo) : Type 0 where
  pub pre : IsArray o.pre_handlers
  pub post : IsArray o.post_handlers
  pub default_pre : IsArray o.default_pre_handlers
  pub default_post : IsArray o.default_post_handlers
  pub quiet :
      o.is_intercepted ≡ false → (o.pre_handlers ≡ parray_init) × (o.post_handlers ≡ parray_init)
  pub default_quiet :
      o.default_is_intercepted ≡ false
      → (o.default_pre_handlers ≡ parray_init) × (o.default_post_handlers ≡ parray_init)

abbrev pub op_blocks : OperationInfo → ℕ
op_blocks o =
    blocks o.pre_handlers
    + blocks o.post_handlers
    + blocks o.default_pre_handlers
    + blocks o.default_post_handlers

-- The operation with no interception.
abbrev pub cleared : OperationInfo → OperationInfo
cleared o = record o {
  is_intercepted = false;
  pre_handlers = parray_init;
  post_handlers = parray_init;
  default_is_intercepted = false;
  default_pre_handlers = parray_init;
  default_post_handlers = parray_init;
}

-- A change of an operation's interception: tidy arrays whose memory is accounted for, and nothing
-- else of the kernel or of the operation changed.
pub record Changed (base : ℕ) (o : OperationInfo) (k : Kernel) (o' : OperationInfo) (k' : Kernel)
    : Type 0 where
  pub tidy : IsTidy o'
  pub memory : k'.allocated ≡ base + op_blocks o'
  pub answers : k'.answer ≡ k.answer
  pub refs : k'.module_refs ≡ k.module_refs
  pub same : cleared o' ≡ cleared o

abbrev half_cleared : OperationInfo → OperationInfo
half_cleared o = record o {
  is_intercepted = false;
  pre_handlers = parray_init;
  post_handlers = parray_init;
}

module _ (o : OperationInfo) (base : ℕ) (k : Kernel) (t : IsTidy o) where
  clear_handlers-half :
      k.allocated ≡ base + op_blocks o
      → let (o', k') = clear_handlers o k in
        (o' ≡ half_cleared o)
        × Holds base (blocks o.default_pre_handlers + blocks o.default_post_handlers) k k'
  unfolding clear_handlers
  clear_handlers-half m =
      let rest = base + blocks o.default_pre_handlers + blocks o.default_post_handlers in
      let pre =
        parray_reset-Reset o.pre_handlers (rest + blocks o.post_handlers) k t.pre (omega arith) in
      let post =
        parray_reset-Reset o.post_handlers rest (parray_reset o.pre_handlers k).1 t.post
          (omega (arith, pre.memory)) in
      elim (Bool-cases o.is_intercepted) [
        | inl on ↦ (
          ground (arith, pre.array, post.array),
          record {
            memory = ground (arith, post.memory);
            answers = ground (arith, pre.answers, post.answers);
            refs = ground (arith, pre.refs, post.refs);
          },
        )
        | inr off ↦ (
          ground (arith, t.quiet off),
          record {
            memory = ground (arith, t.quiet off);
            answers = ground arith;
            refs = ground arith;
          },
        )
      ]

  clear_default_handlers-cleared :
      k.allocated ≡ base + blocks o.default_pre_handlers + blocks o.default_post_handlers
      → let (o', k') = clear_default_handlers (half_cleared o) k in
        (o' ≡ cleared o) × Holds base 0 k k'
  unfolding clear_default_handlers
  clear_default_handlers-cleared m =
      let pre =
        parray_reset-Reset o.default_pre_handlers (base + blocks o.default_post_handlers) k
          t.default_pre (omega arith) in
      let post =
        parray_reset-Reset o.default_post_handlers base (parray_reset o.default_pre_handlers k).1
          t.default_post (omega (arith, pre.memory)) in
      elim (Bool-cases o.default_is_intercepted) [
        | inl on ↦ (
          ground (arith, pre.array, post.array),
          record {
            memory = ground (arith, post.memory);
            answers = ground (arith, pre.answers, post.answers);
            refs = ground (arith, pre.refs, post.refs);
          },
        )
        | inr off ↦ (
          ground (arith, t.default_quiet off),
          record {
            memory = ground (arith, t.default_quiet off);
            answers = ground arith;
            refs = ground arith;
          },
        )
      ]

-- Clearing a tidy operation removes its interception and frees the arrays that it held.
pub clear-cleared :
    (o : OperationInfo) (base : ℕ) (k : Kernel)
    → IsTidy o
    → k.allocated ≡ base + op_blocks o
    → let (o', k') = operation_info_clear_interception o k in (o' ≡ cleared o) × Holds base 0 k k'
unfolding operation_info_clear_interception
clear-cleared o base k t m =
    let half = clear_handlers-half o base k t m in
    let k₁ = (clear_handlers o k).1 in
    let whole = clear_default_handlers-cleared o base k₁ t (omega (arith, half.1.memory)) in
    rw half.0 (
      whole.0,
      record {
        memory = whole.1.memory;
        answers = whole.1.answers ∙ half.1.answers;
        refs = whole.1.refs ∙ half.1.refs;
      },
    )

-- The operation with one more handler, for the default operation too if it is external.
abbrev pub with_pre : ℕ → Bool → OperationInfo → OperationInfo
with_pre f external o = record o {
  pre_handlers = parray_of (pointers o.pre_handlers ++ f ∷ []);
  is_intercepted = true;
  default_pre_handlers =
      if external
      then parray_of (pointers o.default_pre_handlers ++ f ∷ [])
      else o.default_pre_handlers;
  default_is_intercepted = if external then true else o.default_is_intercepted;
}

abbrev pub with_post : ℕ → Bool → OperationInfo → OperationInfo
with_post f external o = record o {
  post_handlers = parray_of (pointers o.post_handlers ++ f ∷ []);
  is_intercepted = true;
  default_post_handlers =
      if external
      then parray_of (pointers o.default_post_handlers ++ f ∷ [])
      else o.default_post_handlers;
  default_is_intercepted = if external then true else o.default_is_intercepted;
}

-- Adding a handler to an operation: done, or out of memory with the operation still tidy.
pub data Extended (base : ℕ) (o : OperationInfo) (k : Kernel) (goal : OperationInfo)
    : Code × OperationInfo × Kernel → Type 0 where
  added :
      {o' : OperationInfo} {k' : Kernel}
      → o' ≡ goal
      → Changed base o k o' k'
      → Extended base o k goal (success, o', k')
  no_memory :
      {o' : OperationInfo} {k' : Kernel} (n : ℕ)
      → k.answer n ≡ false
      → Changed base o k o' k'
      → Extended base o k goal (fail enomem, o', k')
