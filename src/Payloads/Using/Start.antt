-- ===== src/Payloads/Using/Start.antt =====
-- From the fixing to the end of the collecting, in operation_payloads_use of idle payloads.
use kedr_callback_operations.Prelude.{refl, sym, ap, subst, Bool, List, [], arith, map, All}
use kedr_callback_operations.Kernel.{Kernel}
use kedr_callback_operations.Payloads.Types.{OperationInfo, OperationPayloads}
use kedr_callback_operations.Payloads.Use.{fix_all, use_elems, operation_payloads_fix_all}
use kedr_callback_operations.Payloads.Tidy.{IsTidy, cleared}
use kedr_callback_operations.Payloads.Lists.{blocks_all}
use kedr_callback_operations.Payloads.Spec.{collected, pres_of, posts_of}
use kedr_callback_operations.Payloads.Collect.{IsKnown, Accounted, Collects, use_elems-from}
use kedr_callback_operations.Payloads.Fixing.{fix_all-kernel, fix_all-fixed, fix_all-All}
use kedr_callback_operations.Payloads.Using.{IsIdle, marked}
use kedr_callback_operations.Payloads.Using.Marked.{
  marked-collected, marked-IsTidy, marked-blocks, marked-offsets, elems-IsKnown,
}

module _ (ps : OperationPayloads) (idle : IsIdle ps) (b : Bool) (k : Kernel) where
  abbrev pub fix_state : OperationPayloads × Kernel
  fix_state = operation_payloads_fix_all (record ps { payload_elems_used = [] }) k

  start-Accounted :
      Accounted
        (marked b ps.operations)
        k.allocated
        k.answer
        (fix_all ps.payload_elems k).2.module_refs
        (map (collected [] []) (marked b ps.operations))
        (fix_all ps.payload_elems k).2
  start-Accounted =
      let kept = fix_all-kernel ps.payload_elems k in
      let same = marked-collected b ps.operations idle.quiet in
      record {
        tidy = subst (All IsTidy) (sym same) (marked-IsTidy b ps.operations idle.quiet);
        memory =
            omega (arith, kept.1, ap blocks_all same, marked-blocks b ps.operations idle.quiet);
        answers = kept.0;
        same_refs = refl;
        same = ap (map cleared) same;
      }

  pub idle-Collects :
      let es = (fix_all ps.payload_elems k).1 in
      let k₁ = (fix_all ps.payload_elems k).2 in
      Collects
        (marked b ps.operations)
        k.allocated
        k.answer
        k₁.module_refs
        (map (collected (pres_of es) (posts_of es)) (marked b ps.operations))
        (use_elems es (marked b ps.operations) k₁)
  idle-Collects =
      let es = (fix_all ps.payload_elems k).1 in
      let k₁ = (fix_all ps.payload_elems k).2 in
      let known =
        fix_all-All (IsKnown (marked b ps.operations)) ps.payload_elems k
          (elems-IsKnown b ps.operations ps.payload_elems idle.checked.allowed) in
      subst
        (λ (os : List OperationInfo).
          Collects (marked b ps.operations) k.allocated k.answer k₁.module_refs
            (map (collected (pres_of es) (posts_of es)) (marked b ps.operations))
            (use_elems es os k₁))
        (marked-collected b ps.operations idle.quiet)
        (use_elems-from (marked b ps.operations) k.allocated k.answer k₁.module_refs
          (marked-offsets b ps.operations idle.offsets) es [] [] k₁
          (fix_all-fixed ps.payload_elems k) known.0 known.1 start-Accounted)
