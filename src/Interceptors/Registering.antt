-- ===== src/Interceptors/Registering.antt =====
-- Registration of payloads and creation of factory interceptors keep an interceptor sound.
use kedr_callback_operations.Prelude.{
  ℕ, ◌≡◌, refl, sym, subst, ◌∙◌, Bool, true, false, Option, none, some, List, [], ◌∷◌, ◌++◌, All,
  All-append, All-left, All-right, ◌==◌, if◌then◌else◌, arith,
}
use kedr_callback_operations.Kernel.{
  Kernel, Code, success, ignored, fail, Outcome, done, bug, ◌>>=◌, kmalloc,
}
use kedr_callback_operations.Payloads.Types.{Payload, Intermediate, OperationPayloads}
use kedr_callback_operations.Payloads.Registration.{
  operation_payloads_init, operation_payloads_remove,
}
use kedr_callback_operations.Payloads.Checked.{
  Added, refused, no_memory, interrupted, twice, appended, operation_payloads_add-Added,
}
use kedr_callback_operations.Interceptors.Types.{
  InterceptorState, uninitialized, initialized, started, minus_one, FactoryInterceptor, Interceptor,
}
use kedr_callback_operations.Interceptors.Factory.{
  when_started, register_payload, unregister_payload, create_factory,
  kedr_coi_factory_interceptor_create_common, kedr_coi_factory_payload_register,
  kedr_coi_factory_payload_unregister,
}
use kedr_callback_operations.Interceptors.Normal.{
  kedr_coi_payload_register, kedr_coi_payload_unregister,
}
use kedr_callback_operations.Interceptors.Sound.{IsKept, IsSoundFactory, IsSound}

-- The interceptor with one of its factory interceptors replaced, or without it.
abbrev pub put_factories : Interceptor → List FactoryInterceptor → Interceptor
put_factories i fs = record i { factory_interceptors = fs }

-- What a call leaves, whatever its result.
abbrev pub Leaves : {C A S : Type 0} → (A → Type 0) → Outcome (C × A × S) → Type 0
Leaves P (done (c, a, s)) = P a
Leaves P bug = Unit

Added-flag :
    {ps : OperationPayloads} {p : Payload} {k : Kernel} {r : Code × OperationPayloads × Kernel}
    → Added ps p k r
    → r.1.is_used ≡ ps.is_used
Added-flag (refused _ _) = refl
Added-flag (no_memory _ _) = refl
Added-flag (interrupted _ _) = refl
Added-flag (twice _ _) = refl
Added-flag (appended _ _ _) = refl

remove-flag :
    (ps : OperationPayloads) (p : Payload) (k : Kernel)
    → (operation_payloads_remove ps p k).1.is_used ≡ ps.is_used
unfolding operation_payloads_remove
remove-flag ps p k = ground arith

-- A registration or deregistration neither starts nor stops the use.
register-flag :
    (state : InterceptorState) (ps : OperationPayloads) (p : Payload) (k : Kernel)
    → Leaves (λ (q : OperationPayloads). q.is_used ≡ ps.is_used) (register_payload state ps p k)
unfolding register_payload
register-flag uninitialized ps p k = tt
register-flag initialized ps p k = Added-flag (operation_payloads_add-Added ps p k)
register-flag started ps p k = refl

unregister-flag :
    (state : InterceptorState) (ps : OperationPayloads) (p : Payload) (k : Kernel)
    → Leaves (λ (q : OperationPayloads). q.is_used ≡ ps.is_used) (unregister_payload state ps p k)
unfolding unregister_payload
unregister-flag uninitialized ps p k = tt
unregister-flag initialized ps p k = remove-flag ps p k
unregister-flag started ps p k = remove-flag ps p k

kept-flag :
    (state : InterceptorState) (m : Option ℕ) (ps ps' : OperationPayloads)
    → IsKept state m ps
    → ps'.is_used ≡ ps.is_used
    → IsKept state m ps'
kept-flag uninitialized m ps ps' kept e = kept
kept-flag initialized m ps ps' kept e = (kept.0, e ∙ kept.1)
kept-flag started m ps ps' kept e = (kept.0, e ∙ kept.1)

Leaves-payloads :
    {A : Type 0} (P : OperationPayloads → Type 0) (Q : A → Type 0) (put : OperationPayloads → A)
    (r : Outcome (Code × OperationPayloads × Kernel))
    → ((ps : OperationPayloads) → P ps → Q (put ps))
    → Leaves P r
    → Leaves Q (r >>= λ t. done (t.0, put t.1, t.2))
Leaves-payloads P Q put (done t) go p = go t.1 p
Leaves-payloads P Q put bug go p = tt

module _ (i : Interceptor) (sound : IsSound i) where
  kept_payloads :
      (ps : OperationPayloads)
      → ps.is_used ≡ i.payloads.is_used
      → IsSound (record i { payloads = ps })
  kept_payloads ps e = record {
    kept = kept-flag i.state i.instrumentor i.payloads ps sound.kept e;
    factories = sound.factories;
  }

  pub register-IsSound :
      (p : Payload) (k : Kernel) → Leaves IsSound (kedr_coi_payload_register i p k)
  unfolding kedr_coi_payload_register
  register-IsSound p k =
      Leaves-payloads (λ (q : OperationPayloads). q.is_used ≡ i.payloads.is_used) IsSound
        (λ ps. record i { payloads = ps }) (register_payload i.state i.payloads p k) kept_payloads
        (register-flag i.state i.payloads p k)

  pub unregister-IsSound :
      (p : Payload) (k : Kernel) → Leaves IsSound (kedr_coi_payload_unregister i p k)
  unfolding kedr_coi_payload_unregister
  unregister-IsSound p k =
      Leaves-payloads (λ (q : OperationPayloads). q.is_used ≡ i.payloads.is_used) IsSound
        (λ ps. record i { payloads = ps }) (unregister_payload i.state i.payloads p k) kept_payloads
        (unregister-flag i.state i.payloads p k)

module _ (state : InterceptorState) (f : FactoryInterceptor) (sound : IsSoundFactory state f) where
  kept_factory_payloads :
      (ps : OperationPayloads)
      → ps.is_used ≡ f.payloads.is_used
      → IsSoundFactory state (record f { payloads = ps })
  kept_factory_payloads ps e = record {
    same = sound.same;
    kept = kept-flag state f.instrumentor f.payloads ps sound.kept e;
  }

  pub factory_register-Sound :
      (p : Payload) (k : Kernel)
      → Leaves (IsSoundFactory state) (kedr_coi_factory_payload_register f p k)
  unfolding kedr_coi_factory_payload_register
  factory_register-Sound p k =
      Leaves-payloads (λ (q : OperationPayloads). q.is_used ≡ f.payloads.is_used)
        (IsSoundFactory state) (λ ps. record f { payloads = ps })
        (register_payload f.state f.payloads p k) kept_factory_payloads
        (register-flag f.state f.payloads p k)

  pub factory_unregister-Sound :
      (p : Payload) (k : Kernel)
      → Leaves (IsSoundFactory state) (kedr_coi_factory_payload_unregister f p k)
  unfolding kedr_coi_factory_payload_unregister
  factory_unregister-Sound p k =
      Leaves-payloads (λ (q : OperationPayloads). q.is_used ≡ f.payloads.is_used)
        (IsSoundFactory state) (λ ps. record f { payloads = ps })
        (unregister_payload f.state f.payloads p k) kept_factory_payloads
        (unregister-flag f.state f.payloads p k)

-- One factory interceptor of the list.
pub factory_at :
    {i : Interceptor} (before after : List FactoryInterceptor) (f : FactoryInterceptor)
    → IsSound i
    → i.factory_interceptors ≡ before ++ f ∷ after
    → All (IsSoundFactory i.state) (before ++ f ∷ after)
factory_at {i} before after f sound e = subst (All (IsSoundFactory i.state)) e sound.factories

pub swap_factory :
    {i : Interceptor} (before after : List FactoryInterceptor) (f f' : FactoryInterceptor)
    → IsSound i
    → i.factory_interceptors ≡ before ++ f ∷ after
    → (IsSoundFactory i.state f → IsSoundFactory i.state f')
    → IsSound (put_factories i (before ++ f' ∷ after))
swap_factory {i} before after f f' sound e go =
    let all = factory_at before after f sound e in
    let tail = All-right (IsSoundFactory i.state) before (f ∷ after) all in
    record {
      kept = sound.kept;
      factories =
          All-append (IsSoundFactory i.state) before (f' ∷ after)
            (All-left (IsSoundFactory i.state) before (f ∷ after) all) (go tail.0, tail.1);
    }

pub init-flag :
    (ops : Option (List Intermediate)) (k : Kernel)
    → (operation_payloads_init ops k).1.is_used ≡ false
unfolding operation_payloads_init
init-flag ops k = refl

create_factory-IsSound :
    (i : Interceptor) (self offset : ℕ) (r : Code × OperationPayloads × Kernel)
    → IsSound i
    → i.state ≡ initialized
    → r.1.is_used ≡ false
    → IsSound (create_factory i self offset r).1
unfolding create_factory
create_factory-IsSound i self offset (success, ps, k) sound off u = record {
  kept = sound.kept;
  factories =
      subst
        (λ (st : InterceptorState).
          All (IsSoundFactory st)
            (create_factory i self offset (success, ps, k)).1.factory_interceptors)
        (sym off)
        (All-append (IsSoundFactory initialized) i.factory_interceptors _
          (subst (λ (st : InterceptorState). All (IsSoundFactory st) i.factory_interceptors) off
            sound.factories)
          (record { same = refl; kept = (refl, u) }, tt));
}
create_factory-IsSound i self offset (ignored, ps, k) sound off u = sound
create_factory-IsSound i self offset (fail e, ps, k) sound off u = sound

abbrev pub Makes : Outcome (Option FactoryInterceptor × Interceptor × Kernel) → Type 0
Makes (done (f, i, k)) = IsSound i
Makes bug = Unit

when-Makes :
    (state : InterceptorState) (idle : Outcome (Option FactoryInterceptor × Interceptor × Kernel))
    → (state ≡ initialized → Makes idle)
    → Makes (when_started state idle bug)
when-Makes uninitialized idle go = tt
when-Makes initialized idle go = go refl
when-Makes started idle go = tt

if-Makes :
    (b : Bool) (x y : Outcome (Option FactoryInterceptor × Interceptor × Kernel))
    → Makes x
    → Makes y
    → Makes (if b then x else y)
if-Makes true x y p q = p
if-Makes false x y p q = q

if-IsSound :
    (b : Bool) (x y : Option FactoryInterceptor × Interceptor × Kernel)
    → IsSound x.1
    → IsSound y.1
    → IsSound (if b then x else y).1
if-IsSound true x y p q = p
if-IsSound false x y p q = q

allocated_factory-Makes :
    (i : Interceptor) (self offset : ℕ) (ops : List Intermediate) (k : Kernel)
    → IsSound i
    → i.state ≡ initialized
    → Makes (
        done (
          let (ok, k') = kmalloc k in
          if ok
          then create_factory i self offset (operation_payloads_init (some ops) k')
          else (none, i, k')))
allocated_factory-Makes i self offset ops k sound off =
    if-IsSound (k.answer k.asked)
      (create_factory i self offset (operation_payloads_init (some ops) (kmalloc k).1))
      (none, i, (kmalloc k).1)
      (create_factory-IsSound i self offset (operation_payloads_init (some ops) (kmalloc k).1) sound
        off (init-flag (some ops) (kmalloc k).1))
      sound

pub create_factory-Makes :
    (i : Interceptor) (self offset : ℕ) (ops : Option (List Intermediate)) (k : Kernel)
    → IsSound i
    → Makes (kedr_coi_factory_interceptor_create_common i self offset ops k)
unfolding kedr_coi_factory_interceptor_create_common
create_factory-Makes i self offset none k sound =
    if-Makes (i.operations_field_offset == minus_one) (done (none, i, k)) _ sound
      (when-Makes i.state (done (none, i, k)) (λ off. sound))
create_factory-Makes i self offset (some []) k sound =
    if-Makes (i.operations_field_offset == minus_one) (done (none, i, k)) _ sound
      (when-Makes i.state (done (none, i, k)) (λ off. sound))
create_factory-Makes i self offset (some (op ∷ ops)) k sound =
    if-Makes (i.operations_field_offset == minus_one) (done (none, i, k)) _ sound
      (when-Makes i.state _ (λ off. allocated_factory-Makes i self offset (op ∷ ops) k sound off))
