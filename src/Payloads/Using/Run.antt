-- ===== src/Payloads/Using/Run.antt =====
-- A whole run of operation_payloads_use.
use kedr_callback_operations.Prelude.{
  ℕ, ◌+◌, ◌≡◌, refl, sym, ap, ◌∙◌, Bool, true, List, arith, map, All, Bool-cases, inl, inr, length,
  ◌==◌, ==-refl,
}
use kedr_callback_operations.Kernel.{Kernel, Code, Outcome}
use kedr_callback_operations.Payloads.Types.{OperationInfo, OperationPayloads}
use kedr_callback_operations.Payloads.Use.{
  fix_all, use_elems, count_replaced, fill_replacements, collect, finish_use, cancel_use,
  operation_payloads_use, operation_payloads_unuse_all, operation_payloads_fix_all,
  operation_payloads_release_all,
}
use kedr_callback_operations.Payloads.Groups.{closed_by, close_operations-closed_by}
use kedr_callback_operations.Payloads.Tidy.{IsTidy, cleared}
use kedr_callback_operations.Payloads.Lists.{blocks_all}
use kedr_callback_operations.Payloads.Spec.{collected, pres_of, posts_of}
use kedr_callback_operations.Payloads.Collect.{Collects, complete, stopped}
use kedr_callback_operations.Payloads.Fixing.{
  owners, release_all-kernel, fix_all-owners, release-fix, fix_all-fixed,
}
use kedr_callback_operations.Payloads.Cancel.{unuse_all-cleared}
use kedr_callback_operations.Payloads.Using.{
  IsIdle, Uses, interrupted, undone, in_use, marked, else_of,
}
use kedr_callback_operations.Payloads.Using.Marked.{
  length-fill_replacements, closed-IsTidy, closed-blocks, closed-cleared, marked-cleared,
  marked-count, passes_none, passes_some,
}
use kedr_callback_operations.Payloads.Using.Start.{fix_state, idle-Collects}

-- `k` is the kernel once the lock is held.
module _ (ps : OperationPayloads) (idle : IsIdle ps) (b : Bool)
    (one : b ≡ true → length ps.operations ≡ 1) (k : Kernel) where
  -- The error paths undo everything.
  cancel-undone :
      (os : List OperationInfo) (k' : Kernel)
      → All IsTidy os
      → k'.allocated ≡ k.allocated + blocks_all os
      → map cleared os ≡ ps.operations
      → k'.module_refs ≡ (fix_all ps.payload_elems k).2.module_refs
      → let (ps', k'') = cancel_use (record (fix_state ps idle b k).0 { operations = os }) k' in
        (ps' ≡ ps) × (k''.allocated ≡ k.allocated) × (k''.module_refs ≡ k.module_refs)
  unfolding cancel_use operation_payloads_fix_all operation_payloads_release_all
  cancel-undone os k' t m c r =
      let cleared_ops = unuse_all-cleared os k.allocated k' t m in
      let k₁ = (operation_payloads_unuse_all os k').1 in
      let back = release-fix ps.payload_elems k k₁ idle.unfixed (cleared_ops.1.refs ∙ r) in
      let rest = release_all-kernel (fix_all ps.payload_elems k).0 k₁ in
      (
        ground (arith, cleared_ops.0, back.0, idle.no_used),
        omega (arith, rest.1, cleared_ops.1.memory),
        back.1,
      )

  record InUseParts (closed : List OperationInfo) (k' : Kernel) : Type 0 where
    operations :
        let es = (fix_all ps.payload_elems k).1 in
        let goal = map (collected (pres_of es) (posts_of es)) (marked b ps.operations) in
        closed ≡ map (closed_by goal) goal
    memory : k'.allocated ≡ k.allocated + blocks_all closed
    refs : (m : ℕ) → k'.module_refs m ≡ k.module_refs m + owners m (fix_all ps.payload_elems k).0

  finish-Uses :
      (r : Outcome (Code × List OperationInfo × Kernel))
      → let es = (fix_all ps.payload_elems k).1 in
        Collects
          (marked b ps.operations)
          k.allocated
          k.answer
          (fix_all ps.payload_elems k).2.module_refs
          (map (collected (pres_of es) (posts_of es)) (marked b ps.operations))
          r
        → Uses ps b k (finish_use b (collect (fix_state ps idle b k).0 r))
  unfolding finish_use collect operation_payloads_fix_all
  finish-Uses _ (stopped {os} {k = k'} n e acc) =
      let (same, m, refs) =
        cancel-undone os k' acc.tidy acc.memory
          (acc.same ∙ marked-cleared b ps.operations idle.quiet) acc.same_refs in
      undone n e same m refs
  finish-Uses _ (complete {os} {k = k'} e acc) =
      let closed = map (closed_by os) os in
      let tidy = closed-IsTidy os os acc.tidy in
      let same_ops : map cleared closed ≡ ps.operations =
        closed-cleared os os ∙ acc.same ∙ marked-cleared b ps.operations idle.quiet in
      let ready : InUseParts closed k' = record {
        operations = ap (λ (t : List OperationInfo). map (closed_by t) t) e;
        memory = acc.memory ∙ omega (arith, closed-blocks os os);
        refs = λ m.
            ap (λ (f : ℕ → ℕ). f m) acc.same_refs
            ∙ fix_all-owners m ps.payload_elems k idle.unfixed;
      } in
      let count : b ≡ true → count_replaced closed ≡ 1 = λ all.
        ap (λ (t : List OperationInfo). count_replaced (map (closed_by t) t)) e
        ∙ marked-count b _ _ _ ps.operations one all in
      elim (Bool-cases (count_replaced closed == 0)) [
        | inl nothing ↦
            rw
              (
                close_operations-closed_by os,
                nothing,
                passes_none b (count_replaced closed) count nothing,
              )
              (in_use (record {
                fixed = fix_all-fixed ps.payload_elems k;
                operations = ready.operations;
                replaced = rw nothing refl;
                used = refl;
                memory = omega (arith, ready.memory);
                refs = ready.refs;
                fixing = (k, refl, refl, refl, acc.same_refs);
                tidy = tidy;
                same = same_ops;
              }))
        | inr something ↦ elim (Bool-cases (k'.answer k'.asked)) [
          | inl ok ↦
              rw
                (
                  close_operations-closed_by os,
                  something,
                  ok,
                  length-fill_replacements closed,
                  ==-refl (count_replaced closed),
                  passes_some b (fill_replacements closed)
                      (λ all. length-fill_replacements closed ∙ count all),
                )
                (in_use (record {
                  fixed = fix_all-fixed ps.payload_elems k;
                  operations = ready.operations;
                  replaced = rw something refl;
                  used = refl;
                  memory = omega (arith, ready.memory);
                  refs = ready.refs;
                  fixing = (k, refl, refl, refl, acc.same_refs);
                  tidy = tidy;
                  same = same_ops;
                }))
          | inr full ↦
              let (same, m, refs) =
                cancel-undone closed (record k' { asked = k'.asked + 1 }) tidy
                  (acc.memory ∙ omega (arith, closed-blocks os os)) same_ops acc.same_refs in
              rw (close_operations-closed_by os, something, full)
                (undone k'.asked (ap (λ (a : ℕ → Bool). a k'.asked) (sym acc.answers) ∙ full) same m
                  refs)
        ]
      ]

  locked-Uses :
      let (ps₁, k₁) = fix_state ps idle b k in
      Uses ps b k
        (finish_use b (collect ps₁ (use_elems ps₁.payload_elems_used (marked b ps₁.operations) k₁)))
  unfolding operation_payloads_fix_all
  locked-Uses = finish-Uses (use_elems _ _ _) (idle-Collects ps idle b k)

Uses-before :
    {ps : OperationPayloads} {b : Bool} (k : Kernel)
    {r : Outcome (Code × OperationPayloads × Kernel)}
    → Uses ps b (record k { asked = k.asked + 1 }) r
    → Uses ps b k r
Uses-before k (interrupted n e m refs) = interrupted n e m refs
Uses-before k (undone n e same m refs) = undone n e same m refs
Uses-before k (in_use u) = in_use (record {
  fixed = u.fixed;
  operations = u.operations;
  replaced = u.replaced;
  used = u.used;
  memory = u.memory;
  refs = u.refs;
  fixing = u.fixing;
  tidy = u.tidy;
  same = u.same;
})

-- Whatever the lock, the allocator and the module loader answer, a use of idle payloads, with exactly
-- one operation if all are to be intercepted, meets no BUG_ON. It is interrupted with nothing done;
-- or fails with -ENOMEM only if memory was refused, and then payloads, memory and module counts are
-- as before; or succeeds, and then every operation has exactly the handlers for it of all used
-- payloads, in order, the groups are closed, and the replacements are those of the intercepted
-- operations, NULL for none.
pub operation_payloads_use-Uses :
    (ps : OperationPayloads) (b : Bool) (k : Kernel)
    → IsIdle ps
    → (b ≡ true → length ps.operations ≡ 1)
    → Uses ps b k (operation_payloads_use ps b k)
unfolding operation_payloads_use
operation_payloads_use-Uses ps b k idle one =
    let k₁ : Kernel = record k { asked = k.asked + 1 } in
    elim (Bool-cases (k.answer k.asked)) [
      | inr no_lock ↦ rw no_lock (interrupted k.asked no_lock refl refl)
      | inl locked ↦
          rw locked
            (else_of (Uses ps b k) _ idle.unused (Uses-before k (locked-Uses ps idle b one k₁)))
    ]
