-- ===== src/Payloads/Idle.antt =====
-- Payloads are idle when they are made, and stay so while payloads come and go.
use kedr_callback_operations.Prelude.{
  ℕ, ◌+◌, ◌-◌, ◌≡◌, refl, sym, ap, subst, ◌∙◌, true, false, Option, none, List, [], ◌∷◌, ◌++◌,
  append-nil, append_assoc, arith, map, All, All-append, Bool-cases, inl, inr, length,
  length-append,
}
use kedr_callback_operations.Kernel.{Kernel, Code, success, ignored, fail, enomem, kfree, done}
use kedr_callback_operations.Payloads.Types.{
  Payload, Intermediate, OperationInfo, PayloadElem, OperationPayloads,
}
use kedr_callback_operations.Payloads.Operation.{operation_info_init}
use kedr_callback_operations.Payloads.Registration.{
  payload_elem_init, free_operations, fill_operations, operation_payloads_init, intermediates,
  operation_payloads_add, remove_elem, operation_payloads_remove, free_elems,
  operation_payloads_destroy,
}
use kedr_callback_operations.Payloads.Checked.{
  IsChecked, Added, refused, no_memory, interrupted, twice, appended, operation_payloads_add-Added,
}
use kedr_callback_operations.Payloads.Checked.Removal.{add-remove-IsChecked, remove_elem-All}
use kedr_callback_operations.Payloads.Tidy.{cleared}
use kedr_callback_operations.Payloads.Lists.{DistinctOffsets}
use kedr_callback_operations.Payloads.Using.{IsIdle}

free_operations-allocated :
    (os : List OperationInfo) (k : Kernel)
    → (free_operations os k).allocated ≡ k.allocated - length os
unfolding free_operations
free_operations-allocated [] k = omega arith
free_operations-allocated (o ∷ os) k = omega (arith, free_operations-allocated os (kfree k))

free_elems-allocated :
    (es : List PayloadElem) (k : Kernel) → (free_elems es k).allocated ≡ k.allocated - length es
unfolding free_elems
free_elems-allocated [] k = omega arith
free_elems-allocated (e ∷ es) k = omega (arith, free_elems-allocated es (kfree k))

-- One block for each operation, or none and -ENOMEM.
data Filled (base : ℕ) (goal : List OperationInfo)
    : Code × List OperationInfo × Kernel → Type 0 where
  filled :
      {os : List OperationInfo} {k : Kernel}
      → os ≡ goal
      → k.allocated ≡ base + length goal
      → Filled base goal (success, os, k)
  unfilled : {k : Kernel} → k.allocated ≡ base → Filled base goal (fail enomem, [], k)

fill_operations-Filled :
    (is : List Intermediate) (os : List OperationInfo) (base : ℕ) (k : Kernel)
    → k.allocated ≡ base + length os
    → Filled base (os ++ map operation_info_init is) (fill_operations is os k)
unfolding fill_operations
fill_operations-Filled [] os base k m = filled (sym (append-nil os)) (rw (append-nil os) m)
fill_operations-Filled (i ∷ is) os base k m = elim (Bool-cases (k.answer k.asked)) [
  | inr full ↦
      rw full
        (unfilled (omega (arith, free_operations-allocated os (record k { asked = k.asked + 1 }))))
  | inl ok ↦
      let more = os ++ operation_info_init i ∷ [] in
      let k' : Kernel = record k { asked = k.asked + 1; allocated = k.allocated + 1 } in
      rw (ok, ← append_assoc os (operation_info_init i ∷ []) (map operation_info_init is))
        (fill_operations-Filled is more base k'
          (omega (arith, length-append os (operation_info_init i ∷ []))))
]

-- What an initialisation leaves: idle payloads and a block for each operation, or -ENOMEM and the
-- memory as before.
abbrev pub InitEnds : List Intermediate → Kernel → Code × OperationPayloads × Kernel → Type 0
InitEnds is k (success, ps, k') =
    IsIdle ps
    × (ps.operations ≡ map operation_info_init is)
    × (k'.allocated ≡ k.allocated + length ps.operations)
InitEnds is k (ignored, ps, k') = ⊥
InitEnds is k (fail e, ps, k') = (e ≡ enomem) × (k'.allocated ≡ k.allocated)

init-quiet :
    (is : List Intermediate)
    → All (λ (o : OperationInfo). o ≡ cleared o) (map operation_info_init is)
unfolding operation_info_init
init-quiet [] = tt
init-quiet (i ∷ is) = (refl, init-quiet is)

empty_payloads : List OperationInfo → OperationPayloads
empty_payloads os = record {
  payload_elems = [];
  operations = os;
  is_used = false;
  payload_elems_used = [];
  replacements = none;
}

Filled-InitEnds :
    (is : List Intermediate) (k : Kernel) (r : Code × List OperationInfo × Kernel)
    → DistinctOffsets (map operation_info_init is)
    → Filled k.allocated (map operation_info_init is) r
    → InitEnds is k (r.0, empty_payloads r.1, r.2)
unfolding empty_payloads
Filled-InitEnds is k _ distinct (filled {os} {k = k'} e m) = (
  record {
    checked = record { distinct = tt; allowed = tt };
    offsets = subst DistinctOffsets (sym e) distinct;
    quiet = subst (All (λ (o : OperationInfo). o ≡ cleared o)) (sym e) (init-quiet is);
    unfixed = tt;
    unused = refl;
    no_used = refl;
  },
  e,
  m ∙ ap (λ (t : List OperationInfo). k.allocated + length t) (sym e),
)
Filled-InitEnds is k _ distinct (unfilled m) = (refl, m)

-- Initialising payloads for intermediates with distinct offsets gives idle payloads with one
-- operation for each, in order, and takes a block for each; or fails with -ENOMEM and all memory
-- given back.
pub operation_payloads_init-InitEnds :
    (is : Option (List Intermediate)) (k : Kernel)
    → DistinctOffsets (map operation_info_init (intermediates is))
    → InitEnds (intermediates is) k (operation_payloads_init is k)
unfolding operation_payloads_init empty_payloads
operation_payloads_init-InitEnds is k distinct =
    Filled-InitEnds (intermediates is) k (fill_operations (intermediates is) [] k) distinct
      (fill_operations-Filled (intermediates is) [] k.allocated k (omega arith))

Added-IsIdle :
    {ps : OperationPayloads} {p : Payload} {k : Kernel} {r : Code × OperationPayloads × Kernel}
    → Added ps p k r
    → IsIdle ps
    → IsChecked r.1
    → IsIdle r.1
unfolding payload_elem_init
Added-IsIdle (refused _ _) i c = i
Added-IsIdle (no_memory _ _) i c = i
Added-IsIdle (interrupted _ _) i c = i
Added-IsIdle (twice _ _) i c = i
Added-IsIdle {ps} {p} (appended _ _ _) i c = record {
  checked = c;
  offsets = i.offsets;
  quiet = i.quiet;
  unfixed =
      All-append (λ (e : PayloadElem). e.is_fixed ≡ false) ps.payload_elems
        (payload_elem_init p ∷ []) i.unfixed (refl, tt);
  unused = i.unused;
  no_used = i.no_used;
}

remove-IsIdle :
    (ps : OperationPayloads) (p : Payload) (k : Kernel)
    → IsIdle ps
    → IsChecked (operation_payloads_remove ps p k).1
    → IsIdle (operation_payloads_remove ps p k).1
unfolding operation_payloads_remove
remove-IsIdle ps p k i c = elim (Bool-cases (k.answer k.asked)) [
  | inr no_lock ↦ rw no_lock i
  | inl locked ↦ rw locked (record {
    checked = subst IsChecked (removed locked) c;
    offsets = i.offsets;
    quiet = i.quiet;
    unfixed =
        remove_elem-All (λ (e : PayloadElem). e.is_fixed ≡ false) ps.payload_elems p.self i.unfixed;
    unused = i.unused;
    no_used = i.no_used;
  })
]
  where
    removed :
        k.answer k.asked ≡ true
        → (operation_payloads_remove ps p k).1
          ≡ record ps { payload_elems = (remove_elem ps.payload_elems p.self).1 }
    removed locked = unfold operation_payloads_remove in rw locked refl

-- Registrations and deregistrations, successful or not, keep idle payloads idle.
pub add-remove-IsIdle :
    (ps : OperationPayloads) (p : Payload) (k : Kernel)
    → IsIdle ps
    → IsIdle (operation_payloads_add ps p k).1 × IsIdle (operation_payloads_remove ps p k).1
add-remove-IsIdle ps p k i =
    let (c, c') = add-remove-IsChecked ps p k i.checked in
    (Added-IsIdle (operation_payloads_add-Added ps p k) i c, remove-IsIdle ps p k i c')

-- Destroying idle payloads meets no BUG_ON and frees a block for each operation and for each payload
-- that is still registered.
pub destroy-idle :
    (ps : OperationPayloads) (base : ℕ) (k : Kernel)
    → IsIdle ps
    → k.allocated ≡ base + length ps.operations + length ps.payload_elems
    → (k' : Kernel) × (operation_payloads_destroy ps k ≡ done k') × (k'.allocated ≡ base)
unfolding operation_payloads_destroy
destroy-idle ps base k i m =
    let k₁ = free_elems ps.payload_elems k in
    (
      free_operations ps.operations k₁,
      rw i.unused refl,
      omega (
        arith,
        free_operations-allocated ps.operations k₁,
        free_elems-allocated ps.payload_elems k,
      ),
    )
