-- ===== src/Interceptors/Reach.antt =====
-- The calls on an interceptor and its factory interceptors as steps, in any order, with any change of
-- the world between them.
use kedr_callback_operations.Prelude.{
  ℕ, ◌≡◌, refl, subst, Bool, true, false, Option, none, some, List, [], ◌∷◌, ◌++◌, All, All-append,
  All-left, All-right, Bool-cases, inl, inr, ◌==◌, ◌⊎◌,
}
use kedr_callback_operations.Kernel.{Kernel, Code, success, ignored, fail, Outcome, done, bug}
use kedr_callback_operations.Payloads.Types.{Payload, Intermediate, OperationPayloads}
use kedr_callback_operations.Instrumentors.{Instrumentors}
use kedr_callback_operations.Interceptors.Types.{
  InterceptorState, uninitialized, initialized, started, minus_one, FactoryInterceptor, Interceptor,
}
use kedr_callback_operations.Interceptors.Factory.{
  kedr_coi_factory_interceptor_create_common, kedr_coi_factory_payload_register,
  kedr_coi_factory_payload_unregister, kedr_coi_factory_interceptor_destroy,
  kedr_coi_factory_interceptor_trace_unforgotten_object,
}
use kedr_callback_operations.Interceptors.Normal.{
  create_interceptor, kedr_coi_interceptor_create_common, kedr_coi_interceptor_start,
  kedr_coi_interceptor_stop, kedr_coi_payload_register, kedr_coi_payload_unregister,
  kedr_coi_interceptor_mechanism_selector, kedr_coi_interceptor_trace_unforgotten_object,
}
use kedr_callback_operations.Interceptors.Sound.{IsKept, IsSoundFactory, IsSound, use-EndsUsed}
use kedr_callback_operations.Interceptors.Stopping.{Stops, IsStopped, stop-Stops}
use kedr_callback_operations.Interceptors.Starting.{
  Usable, when_initialized, StartEnds, start-StartEnds,
}
use kedr_callback_operations.Interceptors.Registering.{
  put_factories, Leaves, register-IsSound, unregister-IsSound, factory_register-Sound,
  factory_unregister-Sound, factory_at, swap_factory, init-flag, Makes, create_factory-Makes,
}

module _ {W : Type 0} (api : Instrumentors W) where
  pub data Step : Interceptor → Interceptor → Type 0 where
    starts :
        {i i' : Interceptor} (c : Code) (s s' : W × Kernel)
        → kedr_coi_interceptor_start api i s ≡ done (c, i', s')
        → Step i i'
    stops :
        {i i' : Interceptor} (calls : List (ℕ × ℕ)) (s s' : W × Kernel)
        → kedr_coi_interceptor_stop api i s ≡ done (calls, i', s')
        → Step i i'
    registers :
        {i i' : Interceptor} (p : Payload) (c : Code) (k k' : Kernel)
        → kedr_coi_payload_register i p k ≡ done (c, i', k')
        → Step i i'
    unregisters :
        {i i' : Interceptor} (p : Payload) (c : Code) (k k' : Kernel)
        → kedr_coi_payload_unregister i p k ≡ done (c, i', k')
        → Step i i'
    traces :
        {i : Interceptor} (cb : Option ℕ)
        → Step i (kedr_coi_interceptor_trace_unforgotten_object i cb)
    selects :
        {i : Interceptor} (selector : Option (ℕ → Bool))
        → Step i (kedr_coi_interceptor_mechanism_selector i selector)
    creates_factory :
        {i i' : Interceptor} (self offset : ℕ) (ops : Option (List Intermediate))
        (f : Option FactoryInterceptor) (k k' : Kernel)
        → kedr_coi_factory_interceptor_create_common i self offset ops k ≡ done (f, i', k')
        → Step i i'
    factory_registers :
        {i : Interceptor} (before after : List FactoryInterceptor) (f f' : FactoryInterceptor)
        (p : Payload) (c : Code) (k k' : Kernel)
        → i.factory_interceptors ≡ before ++ f ∷ after
        → kedr_coi_factory_payload_register f p k ≡ done (c, f', k')
        → Step i (put_factories i (before ++ f' ∷ after))
    factory_unregisters :
        {i : Interceptor} (before after : List FactoryInterceptor) (f f' : FactoryInterceptor)
        (p : Payload) (c : Code) (k k' : Kernel)
        → i.factory_interceptors ≡ before ++ f ∷ after
        → kedr_coi_factory_payload_unregister f p k ≡ done (c, f', k')
        → Step i (put_factories i (before ++ f' ∷ after))
    factory_traces :
        {i : Interceptor} (before after : List FactoryInterceptor) (f : FactoryInterceptor)
        (cb : Option ℕ)
        → i.factory_interceptors ≡ before ++ f ∷ after
        → Step i (
            put_factories i
              (before ++ kedr_coi_factory_interceptor_trace_unforgotten_object f cb ∷ after))
    destroys_factory :
        {i : Interceptor} (before after : List FactoryInterceptor) (f : FactoryInterceptor)
        (k k' : Kernel)
        → i.factory_interceptors ≡ before ++ f ∷ after
        → kedr_coi_factory_interceptor_destroy f k ≡ done k'
        → Step i (put_factories i (before ++ after))

  -- From a creation of either kind on.
  pub data Reachable : Interceptor → Type 0 where
    created :
        {i : Interceptor} (offset size : ℕ) (selector : ℕ → Bool) (ops : Option (List Intermediate))
        (k k' : Kernel)
        → kedr_coi_interceptor_create_common offset size selector ops k ≡ (some i, k')
        → Reachable i
    next : {i i' : Interceptor} → Reachable i → Step i i' → Reachable i'

abbrev Made : Option Interceptor × Kernel → Type 0
Made (none, k) = Unit
Made (some i, k) = IsSound i

create_interceptor-Made :
    (offset size : ℕ) (selector : ℕ → Bool) (r : Code × OperationPayloads × Kernel)
    → r.1.is_used ≡ false
    → Made (create_interceptor offset size selector r)
unfolding create_interceptor
create_interceptor-Made offset size selector (success, ps, k) u = record {
  kept = (refl, u);
  factories = tt;
}
create_interceptor-Made offset size selector (ignored, ps, k) u = tt
create_interceptor-Made offset size selector (fail e, ps, k) u = tt

create-Made :
    (offset size : ℕ) (selector : ℕ → Bool) (ops : Option (List Intermediate)) (k : Kernel)
    → Made (kedr_coi_interceptor_create_common offset size selector ops k)
unfolding kedr_coi_interceptor_create_common
create-Made offset size selector ops k = elim (Bool-cases (k.answer k.asked)) [
  | inr full ↦ rw full tt
  | inl ok ↦ rw ok (create_interceptor-Made offset size selector _ (init-flag ops _))
]

State-cases : (st : InterceptorState) → (st ≡ uninitialized) ⊎ ((st ≡ initialized) ⊎ (st ≡ started))
State-cases uninitialized = inl refl
State-cases initialized = inr (inl refl)
State-cases started = inr (inr refl)

all-Usable :
    (fs : List FactoryInterceptor)
    → All (IsSoundFactory initialized) fs
    → All (λ (f : FactoryInterceptor). Usable Unit true f.payloads) fs
all-Usable [] sound = tt
all-Usable (f ∷ fs) sound =
    ((λ k. use-EndsUsed f.payloads true k sound.0.kept.1), all-Usable fs sound.1)

module _ {W : Type 0} (api : Instrumentors W) (i : Interceptor) (s : W × Kernel)
    (sound : IsSound i) where
  StartEnds-Leaves :
      (r : Outcome (Code × Interceptor × (W × Kernel))) → StartEnds api Unit r → Leaves IsSound r
  StartEnds-Leaves (done (success, j, t)) p = p.1
  StartEnds-Leaves (done (ignored, j, t)) p = p.1
  StartEnds-Leaves (done (fail e, j, t)) p = p.1
  StartEnds-Leaves bug p = tt

  start-Leaves : Leaves IsSound (kedr_coi_interceptor_start api i s)
  start-Leaves = elim (State-cases i.state) [
    | inl gone ↦
        absurd
          (subst (λ (st : InterceptorState). IsKept st i.instrumentor i.payloads) gone sound.kept)
    | inr (inl off) ↦
        let kept =
          subst (λ (st : InterceptorState). IsKept st i.instrumentor i.payloads) off sound.kept in
        let fs =
          subst (λ (st : InterceptorState). All (IsSoundFactory st) i.factory_interceptors) off
            sound.factories in
        StartEnds-Leaves _ (
          start-StartEnds api Unit i s (off, sound) (λ k. use-EndsUsed i.payloads false k kept.1)
            (all-Usable i.factory_interceptors fs))
    | inr (inr on) ↦ unfold kedr_coi_interceptor_start in rw on tt
  ]

  Stops-Leaves :
      (r : Outcome (List (ℕ × ℕ) × Interceptor × (W × Kernel)))
      → Stops api (IsStopped api) r
      → Leaves IsSound r
  Stops-Leaves (done (calls, j, t)) p = p.1
  Stops-Leaves bug p = tt

  stop-Leaves : Leaves IsSound (kedr_coi_interceptor_stop api i s)
  unfolding kedr_coi_interceptor_stop
  stop-Leaves = elim (State-cases i.state) [
    | inl gone ↦
        absurd
          (subst (λ (st : InterceptorState). IsKept st i.instrumentor i.payloads) gone sound.kept)
    | inr (inl off) ↦ when_initialized (Leaves {C = List (ℕ × ℕ)} IsSound) _ off sound
    | inr (inr on) ↦ Stops-Leaves _ (stop-Stops api i s on sound)
  ]

selects-IsSound :
    (i : Interceptor) (selector : Option (ℕ → Bool))
    → IsSound i
    → IsSound (kedr_coi_interceptor_mechanism_selector i selector)
unfolding kedr_coi_interceptor_mechanism_selector
selects-IsSound i none sound = sound
selects-IsSound i (some selector) sound =
    elim (Bool-cases (i.operations_field_offset == minus_one)) [
      | inl direct ↦ simp direct sound
      | inr other ↦ rw other (record { kept = sound.kept; factories = sound.factories })
    ]

module _ {W : Type 0} (api : Instrumentors W) where
  Step-IsSound : {i i' : Interceptor} → Step api i i' → IsSound i → IsSound i'
  unfolding kedr_coi_interceptor_trace_unforgotten_object
      kedr_coi_factory_interceptor_trace_unforgotten_object
  Step-IsSound {i} (starts c s s' e) sound = subst (Leaves IsSound) e (start-Leaves api i s sound)
  Step-IsSound {i} (stops calls s s' e) sound = subst (Leaves IsSound) e (stop-Leaves api i s sound)
  Step-IsSound {i} (registers p c k k' e) sound =
      subst (Leaves IsSound) e (register-IsSound i sound p k)
  Step-IsSound {i} (unregisters p c k k' e) sound =
      subst (Leaves IsSound) e (unregister-IsSound i sound p k)
  Step-IsSound (traces cb) sound = record { kept = sound.kept; factories = sound.factories }
  Step-IsSound {i} (selects selector) sound = selects-IsSound i selector sound
  Step-IsSound {i} (creates_factory self offset ops f k k' e) sound =
      subst Makes e (create_factory-Makes i self offset ops k sound)
  Step-IsSound {i} (factory_registers before after f f' p c k k' at e) sound =
      swap_factory before after f f' sound at
        (λ fs. subst (Leaves (IsSoundFactory i.state)) e (factory_register-Sound i.state f fs p k))
  Step-IsSound {i} (factory_unregisters before after f f' p c k k' at e) sound =
      swap_factory before after f f' sound at (λ fs.
        subst (Leaves (IsSoundFactory i.state)) e (factory_unregister-Sound i.state f fs p k))
  Step-IsSound {i} (factory_traces before after f cb at) sound =
      swap_factory before after f (kedr_coi_factory_interceptor_trace_unforgotten_object f cb) sound
        at (λ fs. record { same = fs.same; kept = fs.kept })
  Step-IsSound {i} (destroys_factory before after f k k' at e) sound =
      let all = factory_at before after f sound at in
      record {
        kept = sound.kept;
        factories =
            All-append (IsSoundFactory i.state) before after
              (All-left (IsSoundFactory i.state) before (f ∷ after) all)
              (All-right (IsSoundFactory i.state) before (f ∷ after) all).1;
      }

  -- Every interceptor that can be reached from its creation, by any calls in any order that do not
  -- meet a BUG_ON, is consistent: it is initialized or started, holds an instrumentor and uses its
  -- payloads exactly while it is started, and so does each of its factory interceptors.
  pub Reachable-IsSound : {i : Interceptor} → Reachable api i → IsSound i
  Reachable-IsSound (created offset size selector ops k k' e) =
      subst Made e (create-Made offset size selector ops k)
  Reachable-IsSound (next before step) = Step-IsSound step (Reachable-IsSound before)
