-- ===== src/Payloads/Using/Unuse.antt =====
-- operation_payloads_unuse after a successful use.
use kedr_callback_operations.Prelude.{
  ◌-◌, ◌≡◌, refl, ap, subst, ◌∙◌, Bool, true, Option, none, some, List, arith, length,
}
use kedr_callback_operations.Kernel.{Kernel, Code, success, ignored, fail, Outcome, done, bug}
use kedr_callback_operations.Payloads.Types.{PayloadElem, OperationPayloads, Replacement}
use kedr_callback_operations.Payloads.Use.{
  release_all, cancel_use, operation_payloads_use, operation_payloads_unuse,
  operation_payloads_unuse_all, operation_payloads_release_all, free_replacements,
}
use kedr_callback_operations.Payloads.Fixing.{release_all-kernel, release-fix}
use kedr_callback_operations.Payloads.Cancel.{unuse_all-cleared}
use kedr_callback_operations.Payloads.Using.{
  IsIdle, InUse, Uses, interrupted, undone, in_use, replacements_block,
}
use kedr_callback_operations.Payloads.Using.Run.{operation_payloads_use-Uses}

-- What `Uses` says if the result is 0.
abbrev pub IfSuccess :
    OperationPayloads → Bool → Kernel → Outcome (Code × OperationPayloads × Kernel) → Type 0
IfSuccess ps b k (done (success, ps', k')) = InUse ps b k ps' k'
IfSuccess ps b k (done (ignored, ps', k')) = Unit
IfSuccess ps b k (done (fail e, ps', k')) = Unit
IfSuccess ps b k bug = Unit

pub if_success :
    {ps : OperationPayloads} {b : Bool} {k : Kernel}
    {r : Outcome (Code × OperationPayloads × Kernel)}
    → Uses ps b k r
    → IfSuccess ps b k r
if_success (interrupted n e m refs) = tt
if_success (undone n e same m refs) = tt
if_success (in_use u) = u

free_replacements-kernel :
    (rs : Option (List Replacement)) (k : Kernel)
    → ((free_replacements rs k).allocated ≡ k.allocated - replacements_block rs)
      × ((free_replacements rs k).module_refs ≡ k.module_refs)
unfolding free_replacements
free_replacements-kernel none k = (omega arith, refl)
free_replacements-kernel (some rs) k = (refl, refl)

-- Unusing payloads undoes a successful use of idle payloads (with exactly one operation if all are
-- intercepted), provided memory and module counts are meanwhile as the use left them: every payload
-- is unfixed again, every operation without interception, there are no replacements, and memory and
-- module counts are as they were before the use.
pub unuse-use :
    (ps ps' : OperationPayloads) (b : Bool) (k k' k₂ : Kernel)
    → IsIdle ps
    → (b ≡ true → length ps.operations ≡ 1)
    → operation_payloads_use ps b k ≡ done (success, ps', k')
    → k₂.allocated ≡ k'.allocated
    → k₂.module_refs ≡ k'.module_refs
    → let (ps'', k'') = operation_payloads_unuse ps' k₂ in
      (ps'' ≡ record ps { replacements = none })
      × (k''.allocated ≡ k.allocated)
      × (k''.module_refs ≡ k.module_refs)
unfolding operation_payloads_unuse cancel_use operation_payloads_release_all
unuse-use ps ps' b k k' k₂ idle one e m r =
    let u : InUse ps b k ps' k' =
      subst (IfSuccess ps b k) e (if_success (operation_payloads_use-Uses ps b k idle one)) in
    let k₃ = free_replacements ps'.replacements k₂ in
    let freed = free_replacements-kernel ps'.replacements k₂ in
    let cleared_ops =
      unuse_all-cleared ps'.operations k.allocated k₃ u.tidy
        (omega (arith, freed.0, m, u.memory)) in
    let k₄ = (operation_payloads_unuse_all ps'.operations k₃).1 in
    let (l, lr, le, lu, lk) = u.fixing in
    let back =
      release-fix ps.payload_elems l k₄ idle.unfixed (cleared_ops.1.refs ∙ freed.1 ∙ r ∙ lk) in
    let rest = release_all-kernel ps'.payload_elems k₄ in
    let elems = ap (λ (es : List PayloadElem). (release_all es k₄).0) le ∙ back.0 in
    (
      ground (arith, elems, cleared_ops.0, u.same, idle.unused, idle.no_used),
      omega (arith, rest.1, cleared_ops.1.memory),
      ap (λ (es : List PayloadElem). (release_all es k₄).1.module_refs) le ∙ back.1 ∙ lr,
    )
