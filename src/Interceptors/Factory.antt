-- ===== src/Interceptors/Factory.antt =====
-- The operations of factory interceptors in core/kedr_coi_interceptors.c.
use kedr_callback_operations.Prelude.{
  ℕ, true, Option, none, some, List, [], ◌∷◌, ◌++◌, ◌==◌, if◌then◌else◌,
}
use kedr_callback_operations.Kernel.{
  Kernel, Code, success, ignored, fail, enomem, ebusy, einval, eperm, Outcome, done, bug, ◌>>=◌,
  kmalloc, kfree,
}
use kedr_callback_operations.Payloads.Types.{Payload, Intermediate, OperationPayloads}
use kedr_callback_operations.Payloads.Registration.{
  operation_payloads_init, operation_payloads_add, operation_payloads_remove,
  operation_payloads_destroy,
}
use kedr_callback_operations.Payloads.Use.{
  operation_payloads_use, operation_payloads_unuse, operation_payloads_get_interception_info,
  operation_payloads_get_replacements,
}
use kedr_callback_operations.Instrumentors.{Instrumentors}
use kedr_callback_operations.Interceptors.Types.{
  InterceptorState, uninitialized, initialized, started, minus_one, indirect_operations_p,
  FactoryInterceptor, Interceptor, IntermediateInfo, trace_unforgotten,
}

-- The switch on the state at the top of the calls that work on a started interceptor.
abbrev pub when_started : {A : Type 0} → InterceptorState → Outcome A → Outcome A → Outcome A
when_started uninitialized idle run = bug
when_started initialized idle run = idle
when_started started idle run = run

-- A use of a pointer that may be NULL.
abbrev pub deref : {A B : Type 0} → Option A → (A → Outcome B) → Outcome B
deref none run = bug
deref (some a) run = run a

-- kedr_coi_factory_payload_register, and kedr_coi_payload_register: both are this on their payloads.
unfoldable pub register_payload :
    InterceptorState
    → OperationPayloads
    → Payload
    → Kernel
    → Outcome (Code × OperationPayloads × Kernel)
register_payload state ps p k =
    when_started state (done (operation_payloads_add ps p k)) (done (fail ebusy, ps, k))

unfoldable pub unregister_payload :
    InterceptorState
    → OperationPayloads
    → Payload
    → Kernel
    → Outcome (Code × OperationPayloads × Kernel)
unregister_payload state ps p k =
    when_started state (done (operation_payloads_remove ps p k))
      (done (operation_payloads_remove ps p k))

module _ {W : Type 0} (api : Instrumentors W) where
  -- The instrumentor of the factory interceptor, made for the replacements; `k` is behind the use.
  unfoldable pub start_instrumentor :
      FactoryInterceptor
      → ℕ
      → W
      → Outcome (Code × OperationPayloads × Kernel)
      → Outcome (Code × FactoryInterceptor × (W × Kernel))
  start_instrumentor f binded w (done (success, ps, k)) =
      operation_payloads_get_replacements ps >>= λ replacements.
      let (made, (w', k')) = api.foreign_create binded replacements (w, k) in
      elim made [
        | none ↦
            let (ps', k'') = operation_payloads_unuse ps k' in
            done (fail enomem, record f { payloads = ps'; instrumentor = none }, (w', k''))
        | some n ↦
            done (
              success,
              record f { payloads = ps; instrumentor = some n; state = started },
              (w', k'),
            )
      ]
  start_instrumentor f binded w (done (ignored, ps, k)) =
      done (ignored, record f { payloads = ps }, (w, k))
  start_instrumentor f binded w (done (fail e, ps, k)) =
      done (fail e, record f { payloads = ps }, (w, k))
  start_instrumentor f binded w bug = bug

  -- `binded` is the instrumentor of the bound interceptor, whose state the caller has set.
  unfoldable pub factory_interceptor_start :
      FactoryInterceptor → ℕ → W × Kernel → Outcome (Code × FactoryInterceptor × (W × Kernel))
  unfolding start_instrumentor
  factory_interceptor_start f binded (w, k) =
      when_started f.state
        (start_instrumentor f binded w (operation_payloads_use f.payloads true k)) bug

  -- With the calls of the callback.
  unfoldable pub factory_interceptor_stop :
      FactoryInterceptor → W × Kernel → Outcome (List (ℕ × ℕ) × FactoryInterceptor × (W × Kernel))
  factory_interceptor_stop f s = when_started f.state (done ([], f, s)) (
      deref f.instrumentor λ n.
        let (objects, (w, k)) = api.foreign_destroy n s in
        let (ps, k') = operation_payloads_unuse f.payloads k in
        done (
          trace_unforgotten f.trace_unforgotten_object objects,
          record f { state = initialized; instrumentor = none; payloads = ps },
          (w, k'),
        ))

  unfoldable pub kedr_coi_factory_interceptor_watch_generic :
      FactoryInterceptor → (id tie ops_p : ℕ) → W × Kernel → Outcome (Code × (W × Kernel))
  kedr_coi_factory_interceptor_watch_generic f id tie ops_p s =
      when_started f.state (done (fail eperm, s))
        (deref f.instrumentor λ n. done (api.foreign_watch n id tie ops_p s))

  unfoldable pub kedr_coi_factory_interceptor_watch :
      FactoryInterceptor → (factory : ℕ) → W × Kernel → Outcome (Code × (W × Kernel))
  unfolding kedr_coi_factory_interceptor_watch_generic
  kedr_coi_factory_interceptor_watch f factory s =
      if f.factory_operations_field_offset == minus_one
      then done (fail einval, s)
      else kedr_coi_factory_interceptor_watch_generic f factory factory
          (indirect_operations_p factory f.factory_operations_field_offset) s

  unfoldable pub kedr_coi_factory_interceptor_forget_generic :
      FactoryInterceptor → (id : ℕ) → Option ℕ → W × Kernel → Outcome (Code × (W × Kernel))
  kedr_coi_factory_interceptor_forget_generic f id ops_p s =
      when_started f.state (done (fail eperm, s))
        (deref f.instrumentor λ n. done (api.foreign_forget n id ops_p s))

  unfoldable pub kedr_coi_factory_interceptor_forget :
      FactoryInterceptor → (factory : ℕ) → W × Kernel → Outcome (Code × (W × Kernel))
  unfolding kedr_coi_factory_interceptor_forget_generic
  kedr_coi_factory_interceptor_forget f factory s =
      if f.factory_operations_field_offset == minus_one
      then done (fail einval, s)
      else kedr_coi_factory_interceptor_forget_generic f factory
          (some (indirect_operations_p factory f.factory_operations_field_offset)) s

  unfoldable pub kedr_coi_factory_interceptor_forget_norestore :
      FactoryInterceptor → (factory : ℕ) → W × Kernel → Outcome (Code × (W × Kernel))
  unfolding kedr_coi_factory_interceptor_forget_generic
  kedr_coi_factory_interceptor_forget_norestore f factory s =
      kedr_coi_factory_interceptor_forget_generic f factory none s

  -- `i` is the bound interceptor.
  unfoldable pub kedr_coi_factory_interceptor_bind_object :
      FactoryInterceptor
      → Interceptor
      → (object factory operation_offset : ℕ) → W × Kernel
      → Outcome (Code × IntermediateInfo × (W × Kernel))
  kedr_coi_factory_interceptor_bind_object f i object factory operation_offset s =
      when_started f.state bug (
        deref f.instrumentor λ n.
          let (result, op_chained, op_orig, s') =
            api.foreign_bind n object factory
              (indirect_operations_p object i.operations_field_offset) operation_offset s in
          let bare : IntermediateInfo = record {
            op_chained = op_chained;
            op_orig = op_orig;
            pre = none;
            post = none;
          } in
          elim (if f.interceptor_binded then some result else none) [
            | none ↦ bug
            | some success ↦
                operation_payloads_get_interception_info f.payloads operation_offset (op_orig == 0)
                >>= λ arrays. done (success, record bare { pre = arrays.0; post = arrays.1 }, s')
            | some ignored ↦ done (success, bare, s')
            | some (fail e) ↦ done (fail e, bare, s')
          ])

-- Creation: `self` is the address that kmalloc returns. The new one stands at the list's end.
unfoldable pub create_factory :
    Interceptor
    → (self : ℕ) → (factory_operations_field_offset : ℕ) → Code × OperationPayloads × Kernel
    → Option FactoryInterceptor × Interceptor × Kernel
create_factory i self offset (success, ps, k) =
    let f : FactoryInterceptor = record {
      self = self;
      state = initialized;
      instrumentor = none;
      factory_operations_field_offset = offset;
      payloads = ps;
      interceptor_binded = true;
      trace_unforgotten_object = none;
    } in
    (some f, record i { factory_interceptors = i.factory_interceptors ++ f ∷ [] }, k)
create_factory i self offset (ignored, ps, k) = (none, i, kfree k)
create_factory i self offset (fail e, ps, k) = (none, i, kfree k)

-- The common part of both creations, which differ in the offset alone.
unfoldable pub kedr_coi_factory_interceptor_create_common :
    Interceptor
    → (self offset : ℕ) → Option (List Intermediate)
    → Kernel
    → Outcome (Option FactoryInterceptor × Interceptor × Kernel)
unfolding create_factory
kedr_coi_factory_interceptor_create_common i self offset none k =
    if i.operations_field_offset == minus_one
    then done (none, i, k)
    else when_started i.state (done (none, i, k)) bug
kedr_coi_factory_interceptor_create_common i self offset (some []) k =
    if i.operations_field_offset == minus_one
    then done (none, i, k)
    else when_started i.state (done (none, i, k)) bug
kedr_coi_factory_interceptor_create_common i self offset (some (op ∷ ops)) k =
    let (ok, k') = kmalloc k in
    if i.operations_field_offset == minus_one
    then done (none, i, k)
    else when_started i.state
        (done (
          if ok
          then create_factory i self offset (operation_payloads_init (some (op ∷ ops)) k')
          else (none, i, k')))
        bug

unfoldable pub kedr_coi_factory_interceptor_create :
    Interceptor
    → (self offset : ℕ) → Option (List Intermediate)
    → Kernel
    → Outcome (Option FactoryInterceptor × Interceptor × Kernel)
unfolding kedr_coi_factory_interceptor_create_common
kedr_coi_factory_interceptor_create i self offset ops k =
    kedr_coi_factory_interceptor_create_common i self offset ops k

unfoldable pub kedr_coi_factory_interceptor_create_generic :
    Interceptor
    → (self : ℕ) → Option (List Intermediate)
    → Kernel
    → Outcome (Option FactoryInterceptor × Interceptor × Kernel)
unfolding kedr_coi_factory_interceptor_create_common
kedr_coi_factory_interceptor_create_generic i self ops k =
    kedr_coi_factory_interceptor_create_common i self minus_one ops k

unfoldable pub kedr_coi_factory_payload_register :
    FactoryInterceptor → Payload → Kernel → Outcome (Code × FactoryInterceptor × Kernel)
unfolding register_payload
kedr_coi_factory_payload_register f p k =
    register_payload f.state f.payloads p k >>= λ r. done (r.0, record f { payloads = r.1 }, r.2)

unfoldable pub kedr_coi_factory_payload_unregister :
    FactoryInterceptor → Payload → Kernel → Outcome (Code × FactoryInterceptor × Kernel)
unfolding unregister_payload
kedr_coi_factory_payload_unregister f p k =
    unregister_payload f.state f.payloads p k >>= λ r. done (r.0, record f { payloads = r.1 }, r.2)

-- What is left of the memory; the list from which a bound one leaves is the caller's.
unfoldable pub kedr_coi_factory_interceptor_destroy : FactoryInterceptor → Kernel → Outcome Kernel
kedr_coi_factory_interceptor_destroy f k =
    when_started f.state (operation_payloads_destroy f.payloads k >>= λ k'. done (kfree k')) bug

unfoldable pub kedr_coi_factory_interceptor_trace_unforgotten_object :
    FactoryInterceptor → Option ℕ → FactoryInterceptor
kedr_coi_factory_interceptor_trace_unforgotten_object f cb = record f {
  trace_unforgotten_object = cb;
}
