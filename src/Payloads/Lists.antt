-- ===== src/Payloads/Lists.antt =====
-- The operations list through a write to the operation that was found.
use kedr_callback_operations.Prelude.{
  ℕ, ◌+◌, ◌≤◌, ◌≡◌, refl, sym, ap, subst, ◌∙◌, none, some, List, [], ◌∷◌, arith, map, All,
  Bool-cases, inl, inr, ◌==◌, if◌then◌else◌,
}
use mathlib.Core.Option
use kedr_callback_operations.Payloads.Types.{OperationInfo}
use kedr_callback_operations.Payloads.Operation.{find_operation, put_operation}
use kedr_callback_operations.Payloads.Tidy.{op_blocks, cleared}

abbrev pub blocks_all : List OperationInfo → ℕ
blocks_all [] = 0
blocks_all (o ∷ os) = op_blocks o + blocks_all os

-- No two operations of one interceptor have the same offset.
abbrev pub DistinctOffsets : List OperationInfo → Type 0
DistinctOffsets [] = Unit {0}
DistinctOffsets (o ∷ os) = (find_operation os o.operation_offset ≡ none) × DistinctOffsets os

module _ (off : ℕ) (o : OperationInfo) where
  pub find-All :
      (P : OperationInfo → Type 0) (os : List OperationInfo)
      → find_operation os off ≡ some o
      → All P os
      → P o
  unfolding find_operation
  find-All P [] e a = cc
  find-All P (x ∷ os) e a = elim (Bool-cases (x.operation_offset == off)) [
    | inl here ↦ subst P (ground arith) a.0
    | inr later ↦ find-All P os (ground arith) a.1
  ]

  pub find-offset :
      (os : List OperationInfo) → find_operation os off ≡ some o → o.operation_offset ≡ off
  unfolding find_operation
  find-offset [] e = cc
  find-offset (x ∷ os) e = ground (arith, find-offset os)

  pub find-blocks :
      (os : List OperationInfo) → find_operation os off ≡ some o → op_blocks o ≤ blocks_all os
  unfolding find_operation
  find-blocks [] e = cc
  find-blocks (x ∷ os) e = elim (Bool-cases (x.operation_offset == off)) [
    | inl here ↦ let same : x ≡ o = ground arith in omega (arith, ap op_blocks same)
    | inr later ↦ omega (arith, find-blocks os (ground arith))
  ]

  pub put-blocks :
      (os : List OperationInfo) (new : OperationInfo)
      → find_operation os off ≡ some o
      → blocks_all (put_operation os off new) + op_blocks o ≡ blocks_all os + op_blocks new
  unfolding find_operation put_operation
  put-blocks [] new e = cc
  put-blocks (x ∷ os) new e = elim (Bool-cases (x.operation_offset == off)) [
    | inl here ↦ let same : x ≡ o = ground arith in rw here (omega (arith, ap op_blocks same))
    | inr later ↦ rw later (omega (arith, put-blocks os new (ground arith)))
  ]

  pub put-cleared :
      (os : List OperationInfo) (new : OperationInfo)
      → find_operation os off ≡ some o
      → cleared new ≡ cleared o
      → map cleared (put_operation os off new) ≡ map cleared os
  unfolding find_operation put_operation
  put-cleared [] new e c = refl
  put-cleared (x ∷ os) new e c = elim (Bool-cases (x.operation_offset == off)) [
    | inl here ↦
        let same : x ≡ o = ground arith in
        rw here (ap (λ (y : OperationInfo). y ∷ map cleared os) (c ∙ ap cleared (sym same)))
    | inr later ↦ rw later (ap (◌∷◌ (cleared x)) (put-cleared os new (ground arith) c))
  ]

pub put-All :
    (P : OperationInfo → Type 0) (os : List OperationInfo) (off : ℕ) (new : OperationInfo)
    → P new
    → All P os
    → All P (put_operation os off new)
unfolding put_operation
put-All P [] off new p a = tt
put-All P (x ∷ os) off new p a = elim (Bool-cases (x.operation_offset == off)) [
  | inl here ↦ rw here (p, a.1)
  | inr later ↦ rw later (a.0, put-All P os off new p a.1)
]

module _ (g : OperationInfo → OperationInfo)
    (keep : (x : OperationInfo) → (g x).operation_offset ≡ x.operation_offset) where
  pub find-map :
      (os : List OperationInfo) (off : ℕ)
      → find_operation (map g os) off ≡ Option.map g (find_operation os off)
  unfolding find_operation
  find-map [] off = refl
  find-map (x ∷ os) off = ground (arith, keep x, find-map os off)

  -- The operations with the offset changed by `w`, the others by `g` alone.
  abbrev pub changed_at : ℕ → (OperationInfo → OperationInfo) → OperationInfo → OperationInfo
  changed_at off w x = if x.operation_offset == off then w (g x) else g x

  absent-map :
      (w : OperationInfo → OperationInfo) (os : List OperationInfo) (off : ℕ)
      → find_operation os off ≡ none
      → map g os ≡ map (changed_at off w) os
  unfolding find_operation
  absent-map w [] off e = refl
  absent-map w (x ∷ os) off e = ground (arith, absent-map w os off)

  pub put-map :
      (w : OperationInfo → OperationInfo) (os : List OperationInfo) (off : ℕ) (o : OperationInfo)
      → DistinctOffsets os
      → find_operation (map g os) off ≡ some o
      → put_operation (map g os) off (w o) ≡ map (changed_at off w) os
  unfolding find_operation put_operation
  put-map w [] off o d e = refl
  put-map w (x ∷ os) off o d e = elim (Bool-cases (x.operation_offset == off)) [
    | inl here ↦ ground (arith, keep x, absent-map w os off)
    | inr later ↦ ground (arith, keep x, put-map w os off o d.1)
  ]
