-- ===== src/Interceptors/Sound.antt =====
-- The states of interceptors and of their factory interceptors agree with what they hold.
use kedr_callback_operations.Prelude.{
  ℕ, ◌≡◌, refl, ap, ◌∙◌, Bool, true, false, ◌&&◌, not, Option, none, some, List, [], All,
  Bool-cases, inl, inr, length, ◌==◌, ◌+◌,
}
use kedr_callback_operations.Kernel.{Kernel, Code, success, ignored, fail, Outcome, done, bug}
use kedr_callback_operations.Payloads.Types.{OperationInfo, OperationPayloads}
use kedr_callback_operations.Payloads.Use.{
  operation_payloads_use, operation_payloads_unuse, operation_payloads_fix_all,
  operation_payloads_release_all, finish_use, cancel_use, collect, use_elems,
  operation_payloads_create_replacements, is_single, count_replaced, fill_replacements,
  close_operations,
}
use kedr_callback_operations.Payloads.Using.{
  else_of, marked, IsIdle, Uses, interrupted, undone, in_use,
}
use kedr_callback_operations.Payloads.Using.Run.{operation_payloads_use-Uses}
use kedr_callback_operations.Interceptors.Types.{
  InterceptorState, uninitialized, initialized, started, FactoryInterceptor, Interceptor,
}

-- An instrumentor and payloads in use while started, neither otherwise.
abbrev pub IsKept : InterceptorState → Option ℕ → OperationPayloads → Type 0
IsKept uninitialized instrumentor ps = ⊥
IsKept initialized instrumentor ps = (instrumentor ≡ none) × (ps.is_used ≡ false)
IsKept started instrumentor ps = ((n : ℕ) × (instrumentor ≡ some n)) × (ps.is_used ≡ true)

pub record IsSoundFactory (state : InterceptorState) (f : FactoryInterceptor) : Type 0 where
  pub same : f.state ≡ state
  pub kept : IsKept state f.instrumentor f.payloads

-- All factory interceptors of an interceptor share its state.
pub record IsSound (i : Interceptor) : Type 0 where
  pub kept : IsKept i.state i.instrumentor i.payloads
  pub factories : All (IsSoundFactory i.state) i.factory_interceptors

-- What a call that starts something leaves: `On` exactly if it returns 0, `Off` if it does not, and
-- `Bug` says what is known of a BUG_ON: nothing, or that there is none.
abbrev pub Ends :
    {A S : Type 0} (Bug : Type 0) (On Off : A → Type 0) → Outcome (Code × A × S) → Type 0
Ends Bug On Off (done (success, a, s)) = On a
Ends Bug On Off (done (ignored, a, s)) = Off a
Ends Bug On Off (done (fail e, a, s)) = Off a
Ends Bug On Off bug = Bug

abbrev pub EndsUsed : Type 0 → Outcome (Code × OperationPayloads × Kernel) → Type 0
EndsUsed Bug =
    Ends Bug (λ (ps : OperationPayloads). ps.is_used ≡ true)
      (λ (ps : OperationPayloads). ps.is_used ≡ false)

abbrev EndsUnused : Outcome (Code × OperationPayloads × Kernel) → Type 0
EndsUnused (done (c, ps, k)) = ps.is_used ≡ false
EndsUnused bug = Unit

create_replacements-unused :
    (ps : OperationPayloads) (k : Kernel)
    → ps.is_used ≡ false
    → EndsUnused (operation_payloads_create_replacements ps k)
unfolding operation_payloads_create_replacements
create_replacements-unused ps k u = elim (Bool-cases (count_replaced ps.operations == 0)) [
  | inl nothing ↦ rw nothing u
  | inr something ↦ elim (Bool-cases (k.answer k.asked)) [
    | inr full ↦ rw (something, full) u
    | inl ok ↦
        elim (Bool-cases
          (length (fill_replacements ps.operations) == count_replaced ps.operations)) [
            | inl same ↦ rw (something, ok, same) u
            | inr other ↦ rw (something, ok, other) tt
          ]
  ]
]

collect-unused :
    (ps : OperationPayloads) (r : Outcome (Code × List OperationInfo × Kernel))
    → ps.is_used ≡ false
    → EndsUnused (collect ps r)
unfolding collect
collect-unused ps (done (success, os, k)) u =
    create_replacements-unused (record ps { operations = close_operations os }) k u
collect-unused ps (done (ignored, os, k)) u = u
collect-unused ps (done (fail e, os, k)) u = u
collect-unused ps bug u = tt

cancel_use-flag : (ps : OperationPayloads) (k : Kernel) → (cancel_use ps k).0.is_used ≡ ps.is_used
unfolding cancel_use operation_payloads_release_all
cancel_use-flag ps k = refl

finish_use-EndsUsed :
    (b : Bool) (r : Outcome (Code × OperationPayloads × Kernel))
    → EndsUnused r
    → EndsUsed Unit (finish_use b r)
unfolding finish_use
finish_use-EndsUsed b (done (success, ps, k)) u =
    elim (Bool-cases (b && not (is_single ps.replacements))) [
      | inl bad ↦ rw bad tt
      | inr good ↦ rw good refl
    ]
finish_use-EndsUsed b (done (ignored, ps, k)) u = cancel_use-flag ps k ∙ u
finish_use-EndsUsed b (done (fail e, ps, k)) u = cancel_use-flag ps k ∙ u
finish_use-EndsUsed b bug u = tt

fix_all-flag :
    (ps : OperationPayloads) (k : Kernel) → (operation_payloads_fix_all ps k).0.is_used ≡ ps.is_used
unfolding operation_payloads_fix_all
fix_all-flag ps k = refl

pub use-EndsUsed :
    (ps : OperationPayloads) (b : Bool) (k : Kernel)
    → ps.is_used ≡ false
    → EndsUsed Unit (operation_payloads_use ps b k)
unfolding operation_payloads_use
use-EndsUsed ps b k u =
    let k₁ : Kernel = record k { asked = k.asked + 1 } in
    let idle : OperationPayloads = record ps { payload_elems_used = [] } in
    let fixed = operation_payloads_fix_all idle k₁ in
    elim (Bool-cases (k.answer k.asked)) [
      | inr no_lock ↦ rw no_lock u
      | inl locked ↦ rw locked (
          else_of (EndsUsed Unit) _ u (
            finish_use-EndsUsed b _ (
              collect-unused fixed.0
                (use_elems fixed.0.payload_elems_used (marked b fixed.0.operations) fixed.1)
                (fix_all-flag idle k₁ ∙ u))))
    ]

pub unuse-unused :
    (ps : OperationPayloads) (k : Kernel) → (operation_payloads_unuse ps k).0.is_used ≡ false
unfolding operation_payloads_unuse cancel_use operation_payloads_release_all
unuse-unused ps k = refl

Uses-EndsUsed :
    {ps : OperationPayloads} {b : Bool} {k : Kernel}
    {r : Outcome (Code × OperationPayloads × Kernel)}
    → ps.is_used ≡ false
    → Uses ps b k r
    → EndsUsed ⊥ r
Uses-EndsUsed u (interrupted n e m refs) = u
Uses-EndsUsed u (undone n e same m refs) = ap (λ (p : OperationPayloads). p.is_used) same ∙ u
Uses-EndsUsed u (in_use used) = used.used

pub idle-EndsUsed :
    (ps : OperationPayloads) (b : Bool) (k : Kernel)
    → IsIdle ps
    → (b ≡ true → length ps.operations ≡ 1)
    → EndsUsed ⊥ (operation_payloads_use ps b k)
idle-EndsUsed ps b k idle one =
    Uses-EndsUsed idle.unused (operation_payloads_use-Uses ps b k idle one)
