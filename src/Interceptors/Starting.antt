-- ===== src/Interceptors/Starting.antt =====
-- Starting interceptors: everything is started, or everything that was started is stopped again.
use kedr_callback_operations.Prelude.{
  ℕ, ◌≡◌, refl, sym, subst, Bool, true, false, Option, none, List, [], ◌∷◌, All, Option-cases, inl,
  inr,
}
use kedr_callback_operations.Kernel.{
  Kernel, Code, success, ignored, fail, Outcome, done, bug, ◌>>=◌,
}
use kedr_callback_operations.Payloads.Types.{OperationPayloads}
use kedr_callback_operations.Payloads.Use.{
  operation_payloads_use, operation_payloads_unuse, operation_payloads_get_replacements,
}
use kedr_callback_operations.Instrumentors.{Instrumentors}
use kedr_callback_operations.Interceptors.Types.{
  InterceptorState, initialized, started, FactoryInterceptor, Interceptor,
}
use kedr_callback_operations.Interceptors.Factory.{
  factory_interceptor_start, factory_interceptor_stop, start_instrumentor, when_started,
}
use kedr_callback_operations.Interceptors.Normal.{
  start_factories, finish_start, start_used, kedr_coi_interceptor_start,
}
use kedr_callback_operations.Interceptors.Sound.{
  IsKept, IsSoundFactory, IsSound, Ends, EndsUsed, unuse-unused,
}
use kedr_callback_operations.Interceptors.Stopping.{Stops, IsStopped, factory_stop-Stops}

pub when_initialized :
    {A : Type 0} (P : Outcome A → Type 0) {state : InterceptorState} {idle : Outcome A}
    (run : Outcome A)
    → state ≡ initialized
    → P idle
    → P (when_started state idle run)
when_initialized P run e p = rw e p

-- Using the payloads meets no BUG_ON, if `Bug` is empty.
abbrev pub Usable : Type 0 → Bool → OperationPayloads → Type 0
Usable Bug b ps = (k : Kernel) → EndsUsed Bug (operation_payloads_use ps b k)

module _ {W : Type 0} (api : Instrumentors W) (Bug : Type 0) where
  start_instrumentor-Ends :
      (f : FactoryInterceptor) (n : ℕ) (w : W) (r : Outcome (Code × OperationPayloads × Kernel))
      → IsSoundFactory initialized f
      → EndsUsed Bug r
      → Ends Bug
          (IsSoundFactory started)
          (IsSoundFactory initialized)
          (start_instrumentor api f n w r)
  unfolding start_instrumentor operation_payloads_get_replacements
  start_instrumentor-Ends f n w (done (success, ps, k)) sound u =
      elim (Option-cases (api.foreign_create n ps.replacements (w, k)).0) [
        | inl no_memory ↦
            rw (u, no_memory) (record { same = sound.same; kept = (refl, unuse-unused ps _) })
        | inr (m, made) ↦ rw (u, made) (record { same = refl; kept = ((m, refl), u) })
      ]
  start_instrumentor-Ends f n w (done (ignored, ps, k)) sound u = record {
    same = sound.same;
    kept = (sound.kept.0, u);
  }
  start_instrumentor-Ends f n w (done (fail e, ps, k)) sound u = record {
    same = sound.same;
    kept = (sound.kept.0, u);
  }
  start_instrumentor-Ends f n w bug sound u = u

  factory_start-Ends :
      (f : FactoryInterceptor) (n : ℕ) (s : W × Kernel)
      → IsSoundFactory initialized f
      → Usable Bug true f.payloads
      → Ends Bug
          (IsSoundFactory started)
          (IsSoundFactory initialized)
          (factory_interceptor_start api f n s)
  unfolding factory_interceptor_start
  factory_start-Ends f n (w, k) sound usable =
      when_initialized (Ends Bug (IsSoundFactory started) (IsSoundFactory initialized)) _ sound.same
        (start_instrumentor-Ends f n w (operation_payloads_use f.payloads true k) sound (usable k))

  abbrev pub AllEnd : Outcome (Code × List FactoryInterceptor × (W × Kernel)) → Type 0
  AllEnd = Ends Bug (All (IsSoundFactory started)) (All (IsSoundFactory initialized))

  -- The rest has failed: the one before it is stopped.
  back-Ends :
      (c : Code) (f : FactoryInterceptor) (fs : List FactoryInterceptor) (s : W × Kernel)
      → ((g : FactoryInterceptor) (s' : W × Kernel)
          → IsSoundFactory initialized g
          → AllEnd (done (c, g ∷ fs, s')))
      → IsSoundFactory started f
      → AllEnd (factory_interceptor_stop api f s >>= λ u. done (c, u.1 ∷ fs, u.2))
  back-Ends c f fs s put on =
      after (factory_interceptor_stop api f s) (factory_stop-Stops api f s on)
    where
      after :
          (r : Outcome (List (ℕ × ℕ) × FactoryInterceptor × (W × Kernel)))
          → Stops api (IsSoundFactory initialized) r
          → AllEnd (r >>= λ u. done (c, u.1 ∷ fs, u.2))
      after (done u) p = put u.1 u.2 p
      after bug p = absurd p

  rest-Ends :
      (f : FactoryInterceptor) (rest : Outcome (Code × List FactoryInterceptor × (W × Kernel)))
      → IsSoundFactory started f
      → AllEnd rest
      → AllEnd (
          rest >>= λ t.
          let (result', fs', s'') = t in
          elim result' [
            | success ↦ done (success, f ∷ fs', s'')
            | ignored ↦ factory_interceptor_stop api f s'' >>= λ u. done (ignored, u.1 ∷ fs', u.2)
            | fail e ↦ factory_interceptor_stop api f s'' >>= λ u. done (fail e, u.1 ∷ fs', u.2)
          ])
  rest-Ends f (done (success, fs, s)) on p = (on, p)
  rest-Ends f (done (ignored, fs, s)) on p = back-Ends ignored f fs s (λ g s' q. (q, p)) on
  rest-Ends f (done (fail e, fs, s)) on p = back-Ends (fail e) f fs s (λ g s' q. (q, p)) on
  rest-Ends f bug on p = p

  first-AllEnd :
      (f : FactoryInterceptor) (fs : List FactoryInterceptor) (n : ℕ)
      (r : Outcome (Code × FactoryInterceptor × (W × Kernel)))
      → Ends Bug (IsSoundFactory started) (IsSoundFactory initialized) r
      → All (IsSoundFactory initialized) fs
      → ((s : W × Kernel) → AllEnd (start_factories api fs n s))
      → AllEnd (
          r >>= λ r.
          let (result, f', s') = r in
          let rest = start_factories api fs n s' in
          elim result [
            | success ↦ rest >>= λ t.
                let (result', fs', s'') = t in
                elim result' [
                  | success ↦ done (success, f' ∷ fs', s'')
                  | ignored ↦
                      factory_interceptor_stop api f' s'' >>= λ u. done (ignored, u.1 ∷ fs', u.2)
                  | fail e ↦
                      factory_interceptor_stop api f' s'' >>= λ u. done (fail e, u.1 ∷ fs', u.2)
                ]
            | ignored ↦ done (ignored, f' ∷ fs, s')
            | fail e ↦ done (fail e, f' ∷ fs, s')
          ])
  first-AllEnd f fs n (done (success, f', s')) on off rest =
      rest-Ends f' (start_factories api fs n s') on (rest s')
  first-AllEnd f fs n (done (ignored, f', s')) one off rest = (one, off)
  first-AllEnd f fs n (done (fail e, f', s')) one off rest = (one, off)
  first-AllEnd f fs n bug p off rest = p

  start_factories-AllEnd :
      (fs : List FactoryInterceptor) (n : ℕ) (s : W × Kernel)
      → All (IsSoundFactory initialized) fs
      → All (λ (f : FactoryInterceptor). Usable Bug true f.payloads) fs
      → AllEnd (start_factories api fs n s)
  unfolding start_factories
  start_factories-AllEnd [] n s sound usable = tt
  start_factories-AllEnd (f ∷ fs) n s sound usable =
      first-AllEnd f fs n (factory_interceptor_start api f n s)
        (factory_start-Ends f n s sound.0 usable.0) sound.1
        (λ s'. start_factories-AllEnd fs n s' sound.1 usable.1)

  abbrev pub IsRunning : Interceptor → Type 0
  IsRunning i = (i.state ≡ started) × IsSound i

  -- What a start leaves: everything started, or everything initialized.
  abbrev pub StartEnds : Outcome (Code × Interceptor × (W × Kernel)) → Type 0
  StartEnds = Ends Bug IsRunning (IsStopped api)

  finish_start-Ends :
      (i : Interceptor) (n : ℕ) (r : Outcome (Code × List FactoryInterceptor × (W × Kernel)))
      → i.payloads.is_used ≡ true
      → AllEnd r
      → StartEnds (r >>= finish_start api i n)
  unfolding finish_start
  finish_start-Ends i n (done (success, fs, s)) u p =
      (refl, record { kept = ((n, refl), u); factories = p })
  finish_start-Ends i n (done (ignored, fs, s)) u p =
      (refl, record { kept = (refl, unuse-unused i.payloads _); factories = p })
  finish_start-Ends i n (done (fail e, fs, s)) u p =
      (refl, record { kept = (refl, unuse-unused i.payloads _); factories = p })
  finish_start-Ends i n bug u p = p

  module _ (i : Interceptor) (off : i.state ≡ initialized) (instrumentor : i.instrumentor ≡ none)
      (factories : All (IsSoundFactory initialized) i.factory_interceptors) where
    put_payloads :
        (ps : OperationPayloads) (m : Option ℕ)
        → m ≡ none
        → ps.is_used ≡ false
        → IsStopped api (record i { payloads = ps; instrumentor = m })
    put_payloads ps m e u = (
      off,
      record {
        kept = subst (λ (st : InterceptorState). IsKept st m ps) (sym off) (e, u);
        factories =
            subst (λ (st : InterceptorState). All (IsSoundFactory st) i.factory_interceptors)
              (sym off) factories;
      },
    )

    start_used-Ends :
        (w : W) (r : Outcome (Code × OperationPayloads × Kernel))
        → All (λ (f : FactoryInterceptor). Usable Bug true f.payloads) i.factory_interceptors
        → EndsUsed Bug r
        → StartEnds (start_used api i w r)
    unfolding start_used operation_payloads_get_replacements
    start_used-Ends w (done (success, ps, k)) usable u =
        let made = api.create i.operations_struct_size ps.replacements i.replace_at_place (w, k) in
        elim (Option-cases made.0) [
          | inl no_memory ↦
              rw (u, no_memory)
                (put_payloads (operation_payloads_unuse ps made.1.1).0 none refl
                  (unuse-unused ps _))
          | inr (n, e) ↦
              rw (u, e)
                (finish_start-Ends (record i { payloads = ps }) n
                  (start_factories api i.factory_interceptors n made.1) u
                  (start_factories-AllEnd i.factory_interceptors n made.1 factories usable))
        ]
    start_used-Ends w (done (ignored, ps, k)) usable u =
        put_payloads ps i.instrumentor instrumentor u
    start_used-Ends w (done (fail e, ps, k)) usable u =
        put_payloads ps i.instrumentor instrumentor u
    start_used-Ends w bug usable u = u

  pub start-StartEnds :
      (i : Interceptor) (s : W × Kernel)
      → IsStopped api i
      → Usable Bug false i.payloads
      → All (λ (f : FactoryInterceptor). Usable Bug true f.payloads) i.factory_interceptors
      → StartEnds (kedr_coi_interceptor_start api i s)
  unfolding kedr_coi_interceptor_start
  start-StartEnds i (w, k) (off, sound) usable usable_factories =
      let kept : IsKept initialized i.instrumentor i.payloads =
        subst (λ (st : InterceptorState). IsKept st i.instrumentor i.payloads) off sound.kept in
      when_initialized StartEnds _ off (
        start_used-Ends i off kept.0
          (subst (λ (st : InterceptorState). All (IsSoundFactory st) i.factory_interceptors) off
            sound.factories)
          w (operation_payloads_use i.payloads false k) usable_factories (usable k))
