-- ===== src/Instrumentation/Selected.antt =====
-- The replacements of core/payloads.c as core/kedr_coi_instrumentors_impl.c carries them out.
use kedr_callback_operations.Prelude.{
  ℕ, ◌≡◌, refl, ap, ◌∙◌, Option, none, some, List, [], ◌∷◌, arith, Bool-cases, inl, inr, ◌==◌,
  if◌then◌else◌,
}
use kedr_callback_operations.Payloads.Types.{OperationInfo, Replacement}
use kedr_callback_operations.Payloads.Operation.{find_operation}
use kedr_callback_operations.Payloads.Use.{fill_replacements, replacement_of, is_replaced}
use kedr_callback_operations.Payloads.Lists.{DistinctOffsets}
use kedr_callback_operations.Instrumentation.Replace.{
  Operations, DistinctReplacements, replacement_at, replace_operation, replace_operations, or_same,
  replace_operations-at,
}

-- The replacement of an operation that is found.
abbrev replacement_for : Option OperationInfo → Option Replacement
replacement_for none = none
replacement_for (some o) = if is_replaced o then some (replacement_of o) else none

fill_replacements-absent :
    (os : List OperationInfo) (off : ℕ)
    → find_operation os off ≡ none
    → replacement_at (fill_replacements os) off ≡ none
unfolding find_operation fill_replacements
fill_replacements-absent [] off e = refl
fill_replacements-absent (o ∷ os) off e = ground (arith, fill_replacements-absent os off)

fill_replacements-at :
    (os : List OperationInfo) (off : ℕ)
    → DistinctOffsets os
    → replacement_at (fill_replacements os) off ≡ replacement_for (find_operation os off)
unfolding find_operation fill_replacements
fill_replacements-at [] off d = refl
fill_replacements-at (o ∷ os) off d =
    ground (arith, fill_replacements-at os off d.1, fill_replacements-absent os off)

pub fill_replacements-Distinct :
    (os : List OperationInfo) → DistinctOffsets os → DistinctReplacements (fill_replacements os)
unfolding fill_replacements
fill_replacements-Distinct [] d = tt
fill_replacements-Distinct (o ∷ os) d = elim (Bool-cases (is_replaced o)) [
  | inl on ↦
      rw on (fill_replacements-absent os o.operation_offset d.0, fill_replacements-Distinct os d.1)
  | inr off ↦ rw off (fill_replacements-Distinct os d.1)
]

-- What an object's operation should become: the intermediate if the operation is intercepted, as a
-- default operation if it is NULL.
abbrev pub chosen : Option OperationInfo → ℕ → ℕ
chosen none op = op
chosen (some o) op =
    if (if op == 0 then o.default_is_intercepted else o.is_intercepted) then o.repl else op

replacement_for-chosen :
    (found : Option OperationInfo) (op : ℕ)
    → or_same replace_operation (replacement_for found) op ≡ chosen found op
unfolding replace_operation
replacement_for-chosen none op = refl
replacement_for-chosen (some o) op = ground arith

-- Carrying out the replacements of operations with distinct offsets puts the intermediate of an
-- operation exactly where it is intercepted: where there is an operation if it is intercepted,
-- and where there is NULL if it is intercepted by default. Everything else of the structure stays.
pub replace-fill_replacements :
    (os : List OperationInfo) (ops : Operations) (off : ℕ)
    → DistinctOffsets os
    → replace_operations (fill_replacements os) ops off ≡ chosen (find_operation os off) (ops off)
replace-fill_replacements os ops off d =
    replace_operations-at (fill_replacements os) ops off (fill_replacements-Distinct os d)
    ∙ ap (λ (f : Option Replacement). or_same replace_operation f (ops off))
        (fill_replacements-at os off d)
    ∙ replacement_for-chosen (find_operation os off) (ops off)
