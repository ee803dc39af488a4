-- ===== src/Interceptors/Guards.antt =====
-- The checks of the state at the top of the calls, in every state that can be reached.
use kedr_callback_operations.Prelude.{
  inl, inr, map, sym, subst, ℕ, ◌≡◌, ◌≢◌, ◌∙◌, Bool-cases, ==_iff, refl, true, false, Option, none,
  some, List, [], ◌∷◌, All, length, ◌==◌, if◌then◌else◌,
}
use kedr_callback_operations.Payloads.Types.{OperationPayloads}
use kedr_callback_operations.Payloads.Registration.{operation_payloads_destroy}
use kedr_callback_operations.Interceptors.Factory.{
  kedr_coi_factory_interceptor_destroy, when_started, deref,
}
use kedr_callback_operations.Interceptors.Normal.{
  kedr_coi_interceptor_destroy, disconnect, kedr_coi_interceptor_start, kedr_coi_interceptor_watch,
  kedr_coi_interceptor_forget, kedr_coi_interceptor_forget_norestore,
}
use kedr_callback_operations.Kernel.{kfree, Kernel, Code, fail, eperm, Outcome, done}
use kedr_callback_operations.Payloads.Using.{IsIdle}
use kedr_callback_operations.Instrumentors.{Instrumentors}
use kedr_callback_operations.Interceptors.Types.{
  InterceptorState, uninitialized, initialized, started, minus_one, indirect_operations_p,
  FactoryInterceptor, Interceptor,
}
use kedr_callback_operations.Interceptors.Sound.{IsSoundFactory, IsKept, idle-EndsUsed}
use kedr_callback_operations.Interceptors.Starting.{Usable, StartEnds, start-StartEnds}
use kedr_callback_operations.Interceptors.Reach.{Reachable, Reachable-IsSound}

module _ {W : Type 0} (i : Interceptor) (s : W × Kernel) where
  -- How a call ends that has the instrumentor do `direct` or `indirect`.
  pub data Passes (direct indirect : ℕ → Code × (W × Kernel))
      : Outcome (Code × (W × Kernel)) → Type 0 where
    refused : i.state ≡ initialized → Passes direct indirect (done (fail eperm, s))
    passed_directly :
        (n : ℕ)
        → i.state ≡ started
        → i.instrumentor ≡ some n
        → i.operations_field_offset ≡ minus_one
        → Passes direct indirect (done (direct n))
    passed_indirectly :
        (n : ℕ)
        → i.state ≡ started
        → i.instrumentor ≡ some n
        → i.operations_field_offset ≢ minus_one
        → Passes direct indirect (done (indirect n))

  guarded-Passes :
      (direct indirect : ℕ → Code × (W × Kernel)) (state : InterceptorState) (held : Option ℕ)
      → i.state ≡ state
      → i.instrumentor ≡ held
      → IsKept state held i.payloads
      → Passes direct indirect (
          when_started state (done (fail eperm, s)) (
            deref held λ n.
              if i.operations_field_offset == minus_one
              then done (direct n)
              else done (indirect n)))
  guarded-Passes direct indirect uninitialized held e h kept = absurd kept
  guarded-Passes direct indirect initialized held e h kept = refused e
  guarded-Passes direct indirect started none e h kept = absurd (cc kept.0.1)
  guarded-Passes direct indirect started (some n) e h kept =
      elim (Bool-cases (i.operations_field_offset == minus_one)) [
        | inl same ↦ rw same (passed_directly n e h ((==_iff _ _).0 same))
        | inr other ↦
            rw other
              (passed_indirectly n e h (λ same. absurd (cc (sym other ∙ (==_iff _ _).1 same))))
      ]

module _ {W : Type 0} (api : Instrumentors W) where
  -- In every reachable state, a call on an object gives -EPERM and changes nothing while the
  -- interceptor is initialized. While it is started, the call is carried out by the instrumentor that
  -- the interceptor holds, with its result: as the direct one of the same name if the interceptor is
  -- for objects that are their own operations, and otherwise with the address of the operations
  -- field of the object, or without it for a forgetting that does not restore. No call meets a
  -- BUG_ON or a NULL instrumentor.
  pub Reachable-Passes :
      {i : Interceptor} (object : ℕ) (s : W × Kernel)
      → Reachable api i
      → let ops_p = indirect_operations_p object i.operations_field_offset in
        Passes i s
          (λ n. api.watch_direct n object s)
          (λ n. api.watch n object ops_p s)
          (kedr_coi_interceptor_watch api i object s)
        × Passes i s
            (λ n. api.forget_direct n object false s)
            (λ n. api.forget n object (some ops_p) s)
            (kedr_coi_interceptor_forget api i object s)
        × Passes i s
            (λ n. api.forget_direct n object true s)
            (λ n. api.forget n object none s)
            (kedr_coi_interceptor_forget_norestore api i object s)
  unfolding kedr_coi_interceptor_watch kedr_coi_interceptor_forget
      kedr_coi_interceptor_forget_norestore
  Reachable-Passes {i} object s reached =
      let kept = (Reachable-IsSound api reached).kept in
      (
        guarded-Passes i s _ _ i.state i.instrumentor refl refl kept,
        guarded-Passes i s _ _ i.state i.instrumentor refl refl kept,
        guarded-Passes i s _ _ i.state i.instrumentor refl refl kept,
      )

  single-Usable :
      (fs : List FactoryInterceptor)
      → All (λ (f : FactoryInterceptor). IsIdle f.payloads × (length f.payloads.operations ≡ 1)) fs
      → All (λ (f : FactoryInterceptor). Usable ⊥ true f.payloads) fs
  single-Usable [] idle = tt
  single-Usable (f ∷ fs) idle =
      ((λ k. idle-EndsUsed f.payloads true k idle.0.0 (λ e. idle.0.1)), single-Usable fs idle.1)

  -- An initialized interceptor, with idle payloads and factory interceptors of one operation each,
  -- starts without a BUG_ON: with 0 it and all its factory interceptors are started, each with an
  -- instrumentor and its payloads in use; with an error all of them are initialized again, none
  -- with an instrumentor or payloads in use, however far the start came.
  pub Reachable-start :
      {i : Interceptor} (s : W × Kernel)
      → Reachable api i
      → i.state ≡ initialized
      → IsIdle i.payloads
      → All
          (λ (f : FactoryInterceptor). IsIdle f.payloads × (length f.payloads.operations ≡ 1))
          i.factory_interceptors
      → StartEnds api ⊥ (kedr_coi_interceptor_start api i s)
  Reachable-start {i} s reached off idle single =
      start-StartEnds api ⊥ i s (off, Reachable-IsSound api reached)
        (λ k. idle-EndsUsed i.payloads false k idle (λ e. cc))
        (single-Usable i.factory_interceptors single)

module _ {W : Type 0} (api : Instrumentors W) where
  destroy-done :
      (ps : OperationPayloads) (k : Kernel)
      → ps.is_used ≡ false
      → (k' : Kernel) × (operation_payloads_destroy ps k ≡ done k')
  unfolding operation_payloads_destroy
  destroy-done ps k u = rw u (_, refl)

  -- Disconnected, and its destruction meets no BUG_ON.
  abbrev pub IsLoose : Kernel → FactoryInterceptor → Type 0
  IsLoose k f =
      (f.interceptor_binded ≡ false)
      × ((k' : Kernel) × (kedr_coi_factory_interceptor_destroy f k ≡ done k'))

  all-IsLoose :
      (fs : List FactoryInterceptor) (k : Kernel)
      → All (IsSoundFactory initialized) fs
      → All (IsLoose k) (map disconnect fs)
  unfolding kedr_coi_factory_interceptor_destroy disconnect
  all-IsLoose [] k sound = tt
  all-IsLoose (f ∷ fs) k sound =
      let (k', e) = destroy-done f.payloads k sound.0.kept.1 in
      ((refl, (kfree k', rw (sound.0.same, e) refl)), all-IsLoose fs k sound.1)

  -- Destroying a reachable interceptor that is initialized meets no BUG_ON, and leaves each of its
  -- factory interceptors disconnected and such that destroying it meets none either.
  pub Reachable-destroy :
      {i : Interceptor} (k k₁ : Kernel)
      → Reachable api i
      → i.state ≡ initialized
      → (k' : Kernel) × (kedr_coi_interceptor_destroy i k
          ≡ done (map disconnect i.factory_interceptors, k'))
        × All (IsLoose k₁) (map disconnect i.factory_interceptors)
  unfolding kedr_coi_interceptor_destroy
  Reachable-destroy {i} k k₁ reached off =
      let sound = Reachable-IsSound api reached in
      let kept : IsKept initialized i.instrumentor i.payloads =
        subst (λ (st : InterceptorState). IsKept st i.instrumentor i.payloads) off sound.kept in
      let (k', e) = destroy-done i.payloads k kept.1 in
      (
        kfree k',
        rw (off, e) refl,
        all-IsLoose i.factory_interceptors k₁ (
            subst (λ (st : InterceptorState). All (IsSoundFactory st) i.factory_interceptors) off
              sound.factories),
      )
