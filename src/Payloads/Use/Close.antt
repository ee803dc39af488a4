-- ===== src/Payloads/Use/Close.antt =====
-- Marking operations and closing groups of operations in core/payloads.c.
use kedr_callback_operations.Prelude.{
  ℕ, zero, suc, true, ◌||◌, not, none, some, List, map, ◌==◌, if◌then◌else◌, length, get_elem?,
}
use kedr_callback_operations.Payloads.Types.{OperationInfo}

-- The marking of every operation when `intercept_all` is given.
abbrev pub intercept_one : OperationInfo → OperationInfo
intercept_one o = record o {
  is_intercepted = true;
  default_is_intercepted = if o.internal_only then o.default_is_intercepted else true;
}

-- close_operations. The inner loop marks the group; the outer loop stands at position i of the
-- list, n positions before its end, and reads the marks that are already made.
abbrev pub mark_group : ℕ → OperationInfo → OperationInfo
mark_group group o = if o.group_id == group then record o { default_is_intercepted = true } else o

unfoldable pub close_at : OperationInfo → List OperationInfo → List OperationInfo
close_at o os =
    if o.group_id == 0 || not o.default_is_intercepted then os else map (mark_group o.group_id) os

unfoldable pub close_step : ℕ → List OperationInfo → List OperationInfo
unfolding close_at
close_step i os = elim (get_elem? os i) [ none ↦ os | some o ↦ close_at o os ]

unfoldable pub close_from : ℕ → ℕ → List OperationInfo → List OperationInfo
unfolding close_step
close_from zero i os = os
close_from (suc n) i os = close_from n (suc i) (close_step i os)

unfoldable pub close_operations : List OperationInfo → List OperationInfo
unfolding close_from
close_operations os = close_from (length os) 0 os
