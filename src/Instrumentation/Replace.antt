-- ===== src/Instrumentation/Replace.antt =====
-- Replacing and restoring operations in core/kedr_coi_instrumentors_impl.c. A structure of operations
-- is the function from the offsets in it to the pointers there, 0 is NULL.
use kedr_callback_operations.Prelude.{
  ℕ, ◌≡◌, refl, sym, ap, ◌∙◌, true, false, Option, none, some, List, [], ◌∷◌, arith, Bool-cases,
  inl, inr, ◌==◌, ==_iff, if◌then◌else◌,
}
use kedr_callback_operations.Payloads.Types.{
  Replacement, replace_null, replace_not_null, replace_all,
}

abbrev pub Operations : Type 0
Operations = ℕ → ℕ

-- A write at an offset.
abbrev pub put : Operations → ℕ → ℕ → Operations
put ops offset op off = if off == offset then op else ops off

-- operation_at_offset, of operations at an address that may be NULL.
unfoldable pub operation_at_offset : Option Operations → ℕ → ℕ
operation_at_offset none offset = 0
operation_at_offset (some ops) offset = ops offset

-- The new value at `op_p`, where `op` stands.
unfoldable pub replace_operation_generic : (op op_orig : ℕ) → Replacement → ℕ
replace_operation_generic op op_orig r = elim r.mode [
  | replace_all ↦ r.repl
  | replace_not_null ↦ if op_orig == 0 then op else r.repl
  | replace_null ↦ if op_orig == 0 then r.repl else op
]

unfoldable pub replace_operation : ℕ → Replacement → ℕ
unfolding replace_operation_generic
replace_operation op r = replace_operation_generic op op r

unfoldable pub restore_operation : ℕ → Replacement → (op_orig : ℕ) → ℕ
restore_operation op r op_orig = if r.repl == op then op_orig else op

-- The loops over the replacements.
unfoldable pub replace_operations : List Replacement → Operations → Operations
unfolding replace_operation
replace_operations [] ops = ops
replace_operations (r ∷ rs) ops =
    replace_operations rs
      (put ops r.operation_offset (replace_operation (ops r.operation_offset) r))

unfoldable pub restore_operations : List Replacement → (ops_orig ops : Operations) → Operations
unfolding restore_operation
restore_operations [] orig ops = ops
restore_operations (r ∷ rs) orig ops = restore_operations rs orig (
    put ops r.operation_offset
      (restore_operation (ops r.operation_offset) r (orig r.operation_offset)))

-- The first replacement at an offset.
abbrev pub replacement_at : List Replacement → ℕ → Option Replacement
replacement_at [] off = none
replacement_at (r ∷ rs) off = if r.operation_offset == off then some r else replacement_at rs off

-- No two replacements at one offset.
abbrev pub DistinctReplacements : List Replacement → Type 0
DistinctReplacements [] = Unit {0}
DistinctReplacements (r ∷ rs) =
    (replacement_at rs r.operation_offset ≡ none) × DistinctReplacements rs

abbrev pub or_same : (ℕ → Replacement → ℕ) → Option Replacement → ℕ → ℕ
or_same f none op = op
or_same f (some r) op = f op r

put-here : (ops : Operations) (o v off : ℕ) → (o == off) ≡ true → put ops o v off ≡ v
put-here ops o v off e = ground (arith, e)

put-other : (ops : Operations) (o v off : ℕ) → (o == off) ≡ false → put ops o v off ≡ ops off
put-other ops o v off e = ground (arith, e)

replace_operations-absent :
    (rs : List Replacement) (ops : Operations) (off : ℕ)
    → replacement_at rs off ≡ none
    → replace_operations rs ops off ≡ ops off
unfolding replace_operations
replace_operations-absent [] ops off e = refl
replace_operations-absent (r ∷ rs) ops off e = elim (Bool-cases (r.operation_offset == off)) [
  | inl here ↦ ground arith
  | inr later ↦ replace_operations-absent rs _ off (ground arith) ∙ ground arith
]

-- What replacing does at each offset.
pub replace_operations-at :
    (rs : List Replacement) (ops : Operations) (off : ℕ)
    → DistinctReplacements rs
    → replace_operations rs ops off ≡ or_same replace_operation (replacement_at rs off) (ops off)
unfolding replace_operations
replace_operations-at [] ops off d = refl
replace_operations-at (r ∷ rs) ops off d = elim (Bool-cases (r.operation_offset == off)) [
  | inl here ↦
      let same : r.operation_offset ≡ off = (==_iff r.operation_offset off).0 here in
      let gone = ap (replacement_at rs) (sym same) ∙ d.0 in
      rw here (
        replace_operations-absent rs _ off gone
        ∙ put-here ops r.operation_offset (replace_operation (ops r.operation_offset) r) off here
        ∙ ap (λ (o : ℕ). replace_operation (ops o) r) same)
  | inr later ↦ rw later (
      replace_operations-at rs _ off d.1
      ∙ ap (or_same replace_operation (replacement_at rs off)) (
          put-other ops r.operation_offset (replace_operation (ops r.operation_offset) r) off
            later))
]

restore_operations-absent :
    (rs : List Replacement) (orig ops : Operations) (off : ℕ)
    → replacement_at rs off ≡ none
    → restore_operations rs orig ops off ≡ ops off
unfolding restore_operations
restore_operations-absent [] orig ops off e = refl
restore_operations-absent (r ∷ rs) orig ops off e = elim (Bool-cases (r.operation_offset == off)) [
  | inl here ↦ ground arith
  | inr later ↦ restore_operations-absent rs orig _ off (ground arith) ∙ ground arith
]

-- What restoring does at each offset.
pub restore_operations-at :
    (rs : List Replacement) (orig ops : Operations) (off : ℕ)
    → DistinctReplacements rs
    → restore_operations rs orig ops off
      ≡ or_same (λ op r. restore_operation op r (orig off)) (replacement_at rs off) (ops off)
unfolding restore_operations
restore_operations-at [] orig ops off d = refl
restore_operations-at (r ∷ rs) orig ops off d = elim (Bool-cases (r.operation_offset == off)) [
  | inl here ↦
      let same : r.operation_offset ≡ off = (==_iff r.operation_offset off).0 here in
      let gone = ap (replacement_at rs) (sym same) ∙ d.0 in
      rw here (
        restore_operations-absent rs orig _ off gone
        ∙ put-here ops r.operation_offset
            (restore_operation (ops r.operation_offset) r (orig r.operation_offset)) off here
        ∙ ap (λ (o : ℕ). restore_operation (ops o) r (orig o)) same)
  | inr later ↦ rw later (
      restore_operations-at rs orig _ off d.1
      ∙ ap (or_same (λ op r. restore_operation op r (orig off)) (replacement_at rs off)) (
          put-other ops r.operation_offset
            (restore_operation (ops r.operation_offset) r (orig r.operation_offset)) off later))
]

restore-replaced :
    (found : Option Replacement) (op : ℕ)
    → or_same (λ o r. restore_operation o r op) found (or_same replace_operation found op) ≡ op
unfolding replace_operation restore_operation
restore-replaced none op = refl
restore-replaced (some r) op = ground arith

-- An operation that is as the replacement left it becomes what it was.
pub restore-unchanged :
    (rs : List Replacement) (ops changed : Operations) (off : ℕ)
    → DistinctReplacements rs
    → changed off ≡ replace_operations rs ops off
    → restore_operations rs ops changed off ≡ ops off
restore-unchanged rs ops changed off d same =
    restore_operations-at rs ops changed off d
    ∙ ap (or_same (λ op r. restore_operation op r (ops off)) (replacement_at rs off))
        (same ∙ replace_operations-at rs ops off d)
    ∙ restore-replaced (replacement_at rs off) (ops off)

-- What should stand at an offset after restoring: the original for the intermediate of the
-- replacement there, and what stands there otherwise.
abbrev pub original_or : Option Replacement → (op_orig op : ℕ) → ℕ
original_or none op_orig op = op
original_or (some r) op_orig op = if r.repl == op then op_orig else op

restore-original_or :
    (found : Option Replacement) (op_orig op : ℕ)
    → or_same (λ o r. restore_operation o r op_orig) found op ≡ original_or found op_orig op
unfolding restore_operation
restore-original_or none op_orig op = refl
restore-original_or (some r) op_orig op = refl

-- With one replacement for an offset at most, restoring a structure of operations after its
-- replacement gives every operation back; and restoring one that was changed in between gives the
-- original wherever the intermediate still stands, and keeps what somebody else has written.
pub restore-replace :
    (rs : List Replacement) (ops changed : Operations) (off : ℕ)
    → DistinctReplacements rs
    → (restore_operations rs ops (replace_operations rs ops) off ≡ ops off)
      × (restore_operations rs ops changed off
          ≡ original_or (replacement_at rs off) (ops off) (changed off))
restore-replace rs ops changed off d = (
  restore-unchanged rs ops (replace_operations rs ops) off d refl,
  restore_operations-at rs ops changed off d
      ∙ restore-original_or (replacement_at rs off) (ops off) (changed off),
)
