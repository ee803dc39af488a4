-- ===== src/Interceptors/Stopping.antt =====
-- Stopping interceptors: it meets no BUG_ON and leaves everything initialized.
use kedr_callback_operations.Prelude.{ℕ, ◌≡◌, refl, subst, List, [], ◌∷◌, ◌++◌, All}
use kedr_callback_operations.Kernel.{Kernel, Outcome, done, bug, ◌>>=◌}
use kedr_callback_operations.Instrumentors.{Instrumentors}
use kedr_callback_operations.Interceptors.Types.{
  InterceptorState, initialized, started, FactoryInterceptor, Interceptor,
}
use kedr_callback_operations.Interceptors.Factory.{factory_interceptor_stop}
use kedr_callback_operations.Interceptors.Normal.{stop_factories, kedr_coi_interceptor_stop}
use kedr_callback_operations.Interceptors.Sound.{IsKept, IsSoundFactory, IsSound, unuse-unused}

module _ {W : Type 0} (api : Instrumentors W) where
  -- A call that ends, in a state of which `P` holds.
  abbrev pub Stops :
      {A : Type 0} → (A → Type 0) → Outcome (List (ℕ × ℕ) × A × (W × Kernel)) → Type 0
  Stops P (done (calls, a, s)) = P a
  Stops P bug = ⊥

  pub factory_stop-Stops :
      (f : FactoryInterceptor) (s : W × Kernel)
      → IsSoundFactory started f
      → Stops (IsSoundFactory initialized) (factory_interceptor_stop api f s)
  unfolding factory_interceptor_stop
  factory_stop-Stops f s sound =
      rw (sound.same, sound.kept.0.1)
        (record { same = refl; kept = (refl, unuse-unused f.payloads _) })

  Stops-cons :
      (f : FactoryInterceptor) (calls : List (ℕ × ℕ))
      (r : Outcome (List (ℕ × ℕ) × List FactoryInterceptor × (W × Kernel)))
      → IsSoundFactory initialized f
      → Stops (All (IsSoundFactory initialized)) r
      → Stops (All (IsSoundFactory initialized)) (r >>= λ t. done (calls ++ t.0, f ∷ t.1, t.2))
  Stops-cons f calls (done (more, fs, s)) one rest = (one, rest)
  Stops-cons f calls bug one rest = absurd rest

  Stops-bind :
      {A B : Type 0} (P : A → Type 0) (Q : B → Type 0)
      (r : Outcome (List (ℕ × ℕ) × A × (W × Kernel)))
      (next : List (ℕ × ℕ) × A × (W × Kernel) → Outcome (List (ℕ × ℕ) × B × (W × Kernel)))
      → Stops P r
      → ((t : List (ℕ × ℕ) × A × (W × Kernel)) → P t.1 → Stops Q (next t))
      → Stops Q (r >>= next)
  Stops-bind P Q (done t) next p go = go t p
  Stops-bind P Q bug next p go = absurd p

  stop_factories-Stops :
      (fs : List FactoryInterceptor) (s : W × Kernel)
      → All (IsSoundFactory started) fs
      → Stops (All (IsSoundFactory initialized)) (stop_factories api fs s)
  unfolding stop_factories
  stop_factories-Stops [] s sound = tt
  stop_factories-Stops (f ∷ fs) s sound =
      Stops-bind (IsSoundFactory initialized) (All (IsSoundFactory initialized))
        (factory_interceptor_stop api f s) _ (factory_stop-Stops f s sound.0)
        (λ t p. Stops-cons t.1 t.0 _ p (stop_factories-Stops fs t.2 sound.1))

  -- Sound and not started.
  abbrev pub IsStopped : Interceptor → Type 0
  IsStopped i = (i.state ≡ initialized) × IsSound i

  -- A stop of a started interceptor whose parts agree with its state ends without a BUG_ON or a
  -- NULL instrumentor, and leaves it and all its factory interceptors initialized, with no
  -- instrumentor and no payload in use.
  pub stop-Stops :
      (i : Interceptor) (s : W × Kernel)
      → i.state ≡ started
      → IsSound i
      → Stops IsStopped (kedr_coi_interceptor_stop api i s)
  unfolding kedr_coi_interceptor_stop
  stop-Stops i s on sound =
      let fs =
        subst (λ (st : InterceptorState). All (IsSoundFactory st) i.factory_interceptors) on
          sound.factories in
      let kept =
        subst (λ (st : InterceptorState). IsKept st i.instrumentor i.payloads) on sound.kept in
      rw (on, kept.0.1)
        (Stops-bind (All (IsSoundFactory initialized)) IsStopped
          (stop_factories api i.factory_interceptors s) _
          (stop_factories-Stops i.factory_interceptors s fs)
          (λ t p. (refl, record { kept = (refl, unuse-unused i.payloads _); factories = p })))
