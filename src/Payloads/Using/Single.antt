-- ===== src/Payloads/Using/Single.antt =====
-- The check of `intercept_all` in operation_payloads_use.
use kedr_callback_operations.Prelude.{
  ℕ, ◌+◌, ◌≡◌, ◌≢◌, refl, sym, ap, ◌∙◌, Bool, true, false, some, List, [], ◌∷◌, map, Bool-cases,
  inl, inr, length, ◌==◌, ==-refl,
}
use kedr_callback_operations.Kernel.{Kernel, Code, Reliable, Outcome, bug}
use kedr_callback_operations.Payloads.Types.{OperationInfo, OperationPayloads, Replacement}
use kedr_callback_operations.Payloads.Use.{
  fix_all, use_elems, count_replaced, fill_replacements, collect, finish_use, is_single,
  operation_payloads_use, operation_payloads_fix_all,
}
use kedr_callback_operations.Payloads.Groups.{closed_by, close_operations-closed_by}
use kedr_callback_operations.Payloads.Spec.{collected, pres_of, posts_of}
use kedr_callback_operations.Payloads.Collect.{Collects, complete, stopped}
use kedr_callback_operations.Payloads.Using.{IsIdle, marked, else_of}
use kedr_callback_operations.Payloads.Using.Marked.{length-fill_replacements, count-marked}
use kedr_callback_operations.Payloads.Using.Start.{fix_state, idle-Collects}

not_single : (rs : List Replacement) → length rs ≢ 1 → is_single (some rs) ≡ false
not_single [] e = refl
not_single (r ∷ []) e = absurd (e refl)
not_single (r ∷ s ∷ rs) e = refl

module _ (ps : OperationPayloads) (idle : IsIdle ps) (k : Kernel) (reliable : Reliable k)
    (many : length ps.operations ≢ 1) where
  finish-bug :
      (r : Outcome (Code × List OperationInfo × Kernel))
      → let es = (fix_all ps.payload_elems k).1 in
        Collects
          (marked true ps.operations)
          k.allocated
          k.answer
          (fix_all ps.payload_elems k).2.module_refs
          (map (collected (pres_of es) (posts_of es)) (marked true ps.operations))
          r
        → finish_use true (collect (fix_state ps idle true k).0 r) ≡ bug
  unfolding finish_use collect operation_payloads_fix_all
  finish-bug _ (stopped n e acc) = cc (reliable n)
  finish-bug _ (complete {os} {k = k'} e acc) =
      let closed = map (closed_by os) os in
      let count : count_replaced closed ≡ length ps.operations =
        ap (λ (t : List OperationInfo). count_replaced (map (closed_by t) t)) e
        ∙ count-marked _ _ _ ps.operations in
      let ok : k'.answer k'.asked ≡ true =
        ap (λ (a : ℕ → Bool). a k'.asked) acc.answers ∙ reliable k'.asked in
      let size : length (fill_replacements closed) ≡ count_replaced closed =
        length-fill_replacements closed in
      elim (Bool-cases (count_replaced closed == 0)) [
        | inl nothing ↦ rw (close_operations-closed_by os, nothing) refl
        | inr something ↦
            rw
              (
                close_operations-closed_by os,
                something,
                ok,
                size,
                ==-refl (count_replaced closed),
                not_single (fill_replacements closed) (λ h. many (sym (size ∙ count) ∙ h)),
              )
              refl
      ]

  locked-bug :
      let (ps₁, k₁) = fix_state ps idle true k in
      finish_use true
        (collect ps₁ (use_elems ps₁.payload_elems_used (marked true ps₁.operations) k₁))
      ≡ bug
  unfolding operation_payloads_fix_all
  locked-bug = finish-bug (use_elems _ _ _) (idle-Collects ps idle true k)

-- When no call fails, a use of idle payloads with `intercept_all` runs into the BUG_ON on its
-- replacements unless there is exactly one operation.
pub intercept_all-bug :
    (ps : OperationPayloads) (k : Kernel)
    → IsIdle ps
    → Reliable k
    → length ps.operations ≢ 1
    → operation_payloads_use ps true k ≡ bug
unfolding operation_payloads_use
intercept_all-bug ps k idle reliable many = rw (reliable k.asked) (
    else_of (λ (r : Outcome (Code × OperationPayloads × Kernel)). r ≡ bug) _ idle.unused
      (locked-bug ps idle (record k { asked = k.asked + 1 }) reliable many))
