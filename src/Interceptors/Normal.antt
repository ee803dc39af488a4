-- ===== src/Interceptors/Normal.antt =====
-- The operations of interceptors in core/kedr_coi_interceptors.c.
use kedr_callback_operations.Prelude.{
  ℕ, Bool, true, false, Option, none, some, List, [], ◌∷◌, ◌++◌, map, ◌==◌, if◌then◌else◌,
}
use kedr_callback_operations.Kernel.{
  Kernel, Code, success, ignored, fail, enomem, eperm, Outcome, done, bug, ◌>>=◌, kmalloc, kfree,
}
use kedr_callback_operations.Payloads.Types.{Payload, Intermediate, OperationPayloads}
use kedr_callback_operations.Payloads.Registration.{
  operation_payloads_init, operation_payloads_destroy,
}
use kedr_callback_operations.Payloads.Use.{
  operation_payloads_use, operation_payloads_unuse, operation_payloads_get_interception_info,
  operation_payloads_get_replacements,
}
use kedr_callback_operations.Instrumentors.{Instrumentors}
use kedr_callback_operations.Interceptors.Types.{
  initialized, started, minus_one, indirect_operations_p, FactoryInterceptor, Interceptor,
  IntermediateInfo, trace_unforgotten,
}
use kedr_callback_operations.Interceptors.Factory.{
  when_started, deref, register_payload, unregister_payload, factory_interceptor_start,
  factory_interceptor_stop,
}

unfoldable pub replace_at_place_always : ℕ → Bool
replace_at_place_always ops = true

-- kedr_coi_interceptor_create_common behind the allocation of the payloads.
unfoldable pub create_interceptor :
    (offset size : ℕ) → (ℕ → Bool) → Code × OperationPayloads × Kernel → Option Interceptor × Kernel
create_interceptor offset size selector (success, ps, k) = (
  some (record {
    state = initialized;
    instrumentor = none;
    operations_field_offset = offset;
    payloads = ps;
    factory_interceptors = [];
    operations_struct_size = size;
    replace_at_place = selector;
    trace_unforgotten_object = none;
  }),
  k,
)
create_interceptor offset size selector (ignored, ps, k) = (none, kfree k)
create_interceptor offset size selector (fail e, ps, k) = (none, kfree k)

unfoldable pub kedr_coi_interceptor_create_common :
    (offset size : ℕ)
    → (ℕ → Bool)
    → Option (List Intermediate)
    → Kernel
    → Option Interceptor × Kernel
unfolding create_interceptor
kedr_coi_interceptor_create_common offset size selector ops k =
    let (ok, k') = kmalloc k in
    if ok
    then create_interceptor offset size selector (operation_payloads_init ops k')
    else (none, k')

unfoldable pub kedr_coi_interceptor_create_direct :
    (object_size : ℕ) → Option (List Intermediate) → Kernel → Option Interceptor × Kernel
unfolding kedr_coi_interceptor_create_common
kedr_coi_interceptor_create_direct object_size ops k =
    kedr_coi_interceptor_create_common minus_one object_size replace_at_place_always ops k

unfoldable pub disconnect : FactoryInterceptor → FactoryInterceptor
disconnect f = record f { interceptor_binded = false }

-- The factory interceptors that are disconnected, and the memory.
unfoldable pub kedr_coi_interceptor_destroy :
    Interceptor → Kernel → Outcome (List FactoryInterceptor × Kernel)
unfolding disconnect
kedr_coi_interceptor_destroy i k =
    when_started i.state
      (operation_payloads_destroy i.payloads k >>= λ k'.
        done (map disconnect i.factory_interceptors, kfree k'))
      bug

unfoldable pub kedr_coi_payload_register :
    Interceptor → Payload → Kernel → Outcome (Code × Interceptor × Kernel)
unfolding register_payload
kedr_coi_payload_register i p k =
    register_payload i.state i.payloads p k >>= λ r. done (r.0, record i { payloads = r.1 }, r.2)

unfoldable pub kedr_coi_payload_unregister :
    Interceptor → Payload → Kernel → Outcome (Code × Interceptor × Kernel)
unfolding unregister_payload
kedr_coi_payload_unregister i p k =
    unregister_payload i.state i.payloads p k >>= λ r. done (r.0, record i { payloads = r.1 }, r.2)

unfoldable pub kedr_coi_interceptor_trace_unforgotten_object : Interceptor → Option ℕ → Interceptor
kedr_coi_interceptor_trace_unforgotten_object i cb = record i { trace_unforgotten_object = cb }

-- A NULL callback is refused, and a direct interceptor keeps its own.
unfoldable pub kedr_coi_interceptor_mechanism_selector :
    Interceptor → Option (ℕ → Bool) → Interceptor
kedr_coi_interceptor_mechanism_selector i none = i
kedr_coi_interceptor_mechanism_selector i (some selector) =
    if i.operations_field_offset == minus_one then i else record i { replace_at_place = selector }

module _ {W : Type 0} (api : Instrumentors W) where
  -- Without CONFIG_DEBUG_SET_MODULE_RONX.
  unfoldable pub kedr_coi_default_mechanism_selector : ℕ → Bool
  kedr_coi_default_mechanism_selector addr = api.module_address addr

  unfoldable pub kedr_coi_interceptor_create :
      (offset size : ℕ) → Option (List Intermediate) → Kernel → Option Interceptor × Kernel
  unfolding kedr_coi_interceptor_create_common kedr_coi_default_mechanism_selector
  kedr_coi_interceptor_create offset size ops k =
      kedr_coi_interceptor_create_common offset size kedr_coi_default_mechanism_selector ops k

  -- The loop that starts the factory interceptors. If one fails, those before it are stopped, the
  -- last one first; an error stops the recursion with everything stopped.
  unfoldable pub start_factories :
      List FactoryInterceptor
      → ℕ
      → W × Kernel
      → Outcome (Code × List FactoryInterceptor × (W × Kernel))
  start_factories [] binded s = done (success, [], s)
  start_factories (f ∷ fs) binded s = factory_interceptor_start api f binded s >>= λ r.
      let (result, f', s') = r in
      let rest = start_factories fs binded s' in
      elim result [
        | success ↦ rest >>= λ t.
            let (result', fs', s'') = t in
            elim result' [
              | success ↦ done (success, f' ∷ fs', s'')
              | ignored ↦
                  factory_interceptor_stop api f' s'' >>= λ u. done (ignored, u.1 ∷ fs', u.2)
              | fail e ↦ factory_interceptor_stop api f' s'' >>= λ u. done (fail e, u.1 ∷ fs', u.2)
            ]
        | ignored ↦ done (ignored, f' ∷ fs, s')
        | fail e ↦ done (fail e, f' ∷ fs, s')
      ]

  -- Behind the start of the factory interceptors of `i`, which is started by now with instrumentor
  -- `n`; an error goes all the way back.
  unfoldable pub finish_start :
      Interceptor
      → ℕ
      → Code × List FactoryInterceptor × (W × Kernel)
      → Outcome (Code × Interceptor × (W × Kernel))
  finish_start i n (success, fs, s) =
      done
        (success, record i { state = started; instrumentor = some n; factory_interceptors = fs }, s)
  finish_start i n (ignored, fs, s) =
      let (objects, (w, k)) = api.destroy n s in
      let (ps, k') = operation_payloads_unuse i.payloads k in
      done (
        ignored,
        record i {
          state = initialized;
          instrumentor = none;
          payloads = ps;
          factory_interceptors = fs;
        },
        (w, k'),
      )
  finish_start i n (fail e, fs, s) =
      let (objects, (w, k)) = api.destroy n s in
      let (ps, k') = operation_payloads_unuse i.payloads k in
      done (
        fail e,
        record i {
          state = initialized;
          instrumentor = none;
          payloads = ps;
          factory_interceptors = fs;
        },
        (w, k'),
      )

  -- Behind the use of the payloads.
  unfoldable pub start_used :
      Interceptor
      → W
      → Outcome (Code × OperationPayloads × Kernel)
      → Outcome (Code × Interceptor × (W × Kernel))
  unfolding start_factories finish_start
  start_used i w (done (success, ps, k)) =
      operation_payloads_get_replacements ps >>= λ replacements.
      let (made, (w', k')) =
        api.create i.operations_struct_size replacements i.replace_at_place (w, k) in
      elim made [
        | none ↦
            let (ps', k'') = operation_payloads_unuse ps k' in
            done (fail enomem, record i { payloads = ps'; instrumentor = none }, (w', k''))
        | some n ↦
            start_factories i.factory_interceptors n (w', k')
            >>= finish_start (record i { payloads = ps }) n
      ]
  start_used i w (done (ignored, ps, k)) = done (ignored, record i { payloads = ps }, (w, k))
  start_used i w (done (fail e, ps, k)) = done (fail e, record i { payloads = ps }, (w, k))
  start_used i w bug = bug

  unfoldable pub kedr_coi_interceptor_start :
      Interceptor → W × Kernel → Outcome (Code × Interceptor × (W × Kernel))
  unfolding start_used
  kedr_coi_interceptor_start i (w, k) =
      when_started i.state (start_used i w (operation_payloads_use i.payloads false k)) bug

  unfoldable pub stop_factories :
      List FactoryInterceptor
      → W × Kernel
      → Outcome (List (ℕ × ℕ) × List FactoryInterceptor × (W × Kernel))
  stop_factories [] s = done ([], [], s)
  stop_factories (f ∷ fs) s = factory_interceptor_stop api f s >>= λ r.
      stop_factories fs r.2 >>= λ t. done (r.0 ++ t.0, r.1 ∷ t.1, t.2)

  -- With the calls of the callbacks, in order.
  unfoldable pub kedr_coi_interceptor_stop :
      Interceptor → W × Kernel → Outcome (List (ℕ × ℕ) × Interceptor × (W × Kernel))
  unfolding stop_factories
  kedr_coi_interceptor_stop i s = when_started i.state (done ([], i, s)) (
      stop_factories i.factory_interceptors s >>= λ r. deref i.instrumentor λ n.
        let (objects, (w, k)) = api.destroy n r.2 in
        let (ps, k') = operation_payloads_unuse i.payloads k in
        done (
          r.0 ++ trace_unforgotten i.trace_unforgotten_object objects,
          record i {
            state = initialized;
            instrumentor = none;
            payloads = ps;
            factory_interceptors = r.1;
          },
          (w, k'),
        ))

  unfoldable pub kedr_coi_interceptor_watch :
      Interceptor → (object : ℕ) → W × Kernel → Outcome (Code × (W × Kernel))
  kedr_coi_interceptor_watch i object s = when_started i.state (done (fail eperm, s)) (
      deref i.instrumentor λ n.
        if i.operations_field_offset == minus_one
        then done (api.watch_direct n object s)
        else done (api.watch n object (indirect_operations_p object i.operations_field_offset) s))

  unfoldable pub kedr_coi_interceptor_forget :
      Interceptor → (object : ℕ) → W × Kernel → Outcome (Code × (W × Kernel))
  kedr_coi_interceptor_forget i object s = when_started i.state (done (fail eperm, s)) (
      deref i.instrumentor λ n.
        if i.operations_field_offset == minus_one
        then done (api.forget_direct n object false s)
        else done
            (api.forget n object (some (indirect_operations_p object i.operations_field_offset)) s))

  unfoldable pub kedr_coi_interceptor_forget_norestore :
      Interceptor → (object : ℕ) → W × Kernel → Outcome (Code × (W × Kernel))
  kedr_coi_interceptor_forget_norestore i object s = when_started i.state (done (fail eperm, s)) (
      deref i.instrumentor λ n.
        if i.operations_field_offset == minus_one
        then done (api.forget_direct n object true s)
        else done (api.forget n object none s))

  -- An error with an original operation all the same counts as no interception.
  abbrev pub info_of :
      OperationPayloads
      → (operation_offset op_orig : ℕ) → IntermediateInfo
      → Code
      → Outcome (Code × IntermediateInfo)
  info_of ps operation_offset op_orig info success =
      operation_payloads_get_interception_info ps operation_offset (op_orig == 0) >>= λ arrays.
      done (success, record info { op_orig = op_orig; pre = arrays.0; post = arrays.1 })
  info_of ps operation_offset op_orig info ignored =
      done (success, record info { op_orig = op_orig; pre = none; post = none })
  info_of ps operation_offset op_orig info (fail e) =
      if api.is_err op_orig
      then done (fail e, record info { op_orig = op_orig })
      else done (success, record info { op_orig = op_orig; pre = none; post = none })

  unfoldable pub kedr_coi_interceptor_get_intermediate_info :
      Interceptor
      → (object operation_offset : ℕ) → IntermediateInfo
      → W × Kernel
      → Outcome (Code × IntermediateInfo)
  kedr_coi_interceptor_get_intermediate_info i object operation_offset info (w, k) =
      when_started i.state bug (
        deref i.instrumentor λ n.
          let ops =
            if i.operations_field_offset == minus_one
            then object
            else api.read w (indirect_operations_p object i.operations_field_offset) in
          let (result, op_orig) = api.get_orig_operation n object ops operation_offset (w, k) in
          info_of i.payloads operation_offset op_orig info result)
