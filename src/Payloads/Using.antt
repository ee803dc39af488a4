-- ===== src/Payloads/Using.antt =====
-- operation_payloads_use and operation_payloads_unuse as a whole.
pub mod Marked
pub mod Start
pub mod Run
pub mod Single
pub mod Unuse
pub mod Info
use kedr_callback_operations.Prelude.{
  ℕ, ◌+◌, ◌-◌, ◌≡◌, ◌≢◌, refl, sym, ap, subst, ◌∙◌, Bool, true, false, ◌&&◌, ◌||◌, not, Option,
  none, some, List, [], ◌∷◌, ◌++◌, arith, map, All, Bool-cases, inl, inr, length, ◌==◌, ==-refl,
  if◌then◌else◌,
}
use kedr_callback_operations.Kernel.{
  Kernel, Code, success, ignored, fail, enomem, eintr, Outcome, done, bug, Holds,
}
use kedr_callback_operations.Payloads.Types.{
  Handler, Payload, OperationInfo, PayloadElem, OperationPayloads, Replacement, handlers,
}
use kedr_callback_operations.Payloads.Use.{
  fix_all, release_all, use_elems, close_operations, count_replaced, fill_replacements, is_replaced,
  intercept_one, replacement_of, collect, finish_use, cancel_use, operation_payloads_use,
  operation_payloads_unuse, operation_payloads_unuse_all, operation_payloads_fix_all,
  operation_payloads_release_all, operation_payloads_create_replacements, free_replacements,
}
use kedr_callback_operations.Payloads.Checked.{IsChecked, IsAllowed}
use kedr_callback_operations.Payloads.Groups.{any_default, closed_by, close_operations-closed_by}
use kedr_callback_operations.Payloads.Tidy.{IsTidy, op_blocks, cleared}
use kedr_callback_operations.Payloads.Lists.{blocks_all, DistinctOffsets}
use kedr_callback_operations.Payloads.Spec.{collected, pres_of, posts_of}
use kedr_callback_operations.Payloads.Collect.{
  IsKnown, Accounted, Collects, complete, stopped, use_elems-from,
}
use kedr_callback_operations.Payloads.Fixing.{
  Unfixed, owners, fix_all-kernel, release_all-kernel, fix_all-owners, release-fix, fix_all-fixed,
  fix_all-All,
}
use kedr_callback_operations.Payloads.Cancel.{unuse_all-cleared}

-- The payloads between two uses.
pub record IsIdle (ps : OperationPayloads) : Type 0 where
  pub checked : IsChecked ps
  pub offsets : DistinctOffsets ps.operations
  pub quiet : All (λ (o : OperationInfo). o ≡ cleared o) ps.operations
  pub unfixed : Unfixed ps.payload_elems
  pub unused : ps.is_used ≡ false
  pub no_used : ps.payload_elems_used ≡ []

-- The operations that the collecting starts from.
abbrev pub marked : Bool → List OperationInfo → List OperationInfo
marked intercept_all os = if intercept_all then map intercept_one os else os

-- The memory block of the replacements.
abbrev pub replacements_block : Option (List Replacement) → ℕ
replacements_block none = 0
replacements_block (some rs) = 1

-- What a successful use leaves. The used elements are fixed; each operation has the handlers for it
-- of all used payloads, and the groups are closed; the replacements are those of the intercepted
-- operations, NULL for none; memory and module counts grow by what is held.
pub record InUse (ps : OperationPayloads) (intercept_all : Bool) (k : Kernel)
    (ps' : OperationPayloads) (k' : Kernel) : Type 0 where
  pub fixed : All (λ (e : PayloadElem). e.is_fixed ≡ true) ps'.payload_elems_used
  pub operations :
      let goal =
        map
          (collected (pres_of ps'.payload_elems_used) (posts_of ps'.payload_elems_used))
          (marked intercept_all ps.operations) in
      ps'.operations ≡ map (closed_by goal) goal
  pub replaced : ps'.replacements ≡ (
      if count_replaced ps'.operations == 0 then none else some (fill_replacements ps'.operations))
  pub used : ps'.is_used ≡ true
  pub memory :
      k'.allocated ≡ k.allocated + blocks_all ps'.operations + replacements_block ps'.replacements
  pub refs : (m : ℕ) → k'.module_refs m ≡ k.module_refs m + owners m ps'.payload_elems
  -- The elements are those of a run of the fixing; the arrays are tidy, and nothing but interception
  -- has changed in the operations.
  pub fixing :
      (l : Kernel) × (l.module_refs ≡ k.module_refs)
      × (ps'.payload_elems ≡ (fix_all ps.payload_elems l).0)
      × (ps'.payload_elems_used ≡ (fix_all ps.payload_elems l).1)
      × (k'.module_refs ≡ (fix_all ps.payload_elems l).2.module_refs)
  pub tidy : All IsTidy ps'.operations
  pub same : map cleared ps'.operations ≡ ps.operations

-- A use ends in one of three ways, and never in a BUG_ON.
pub data Uses (ps : OperationPayloads) (intercept_all : Bool) (k : Kernel)
    : Outcome (Code × OperationPayloads × Kernel) → Type 0 where
  interrupted :
      {k' : Kernel} (n : ℕ)
      → k.answer n ≡ false
      → k'.allocated ≡ k.allocated
      → k'.module_refs ≡ k.module_refs
      → Uses ps intercept_all k (done (fail eintr, ps, k'))
  undone :
      {ps' : OperationPayloads} {k' : Kernel} (n : ℕ)
      → k.answer n ≡ false
      → ps' ≡ ps
      → k'.allocated ≡ k.allocated
      → k'.module_refs ≡ k.module_refs
      → Uses ps intercept_all k (done (fail enomem, ps', k'))
  in_use :
      {ps' : OperationPayloads} {k' : Kernel}
      → InUse ps intercept_all k ps' k'
      → Uses ps intercept_all k (done (success, ps', k'))

-- The second branch of a test that fails.
pub else_of :
    {A : Type 0} (P : A → Type 0) {b : Bool} (x : A) {y : A}
    → b ≡ false
    → P y
    → P (if b then x else y)
else_of P x e p = rw e p
