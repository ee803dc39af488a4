-- ===== src/Instrumentor/Forgotten.antt =====
-- Forgetting an object: the invariant is kept, and the caller sees a step of the specification.
use kedr_callback_operations.Prelude.{
  ℕ, ◌≡◌, refl, sym, ap, ◌∙◌, subst, Option, none, some, Bool-cases, Option-cases, inl, inr,
}
use mathlib.Core.Path.{fun_ext}
use kedr_callback_operations.Kernel.{success}
use kedr_callback_operations.HashTable.{Table, find_elem, remove_elem}
use kedr_callback_operations.HashTable.Buckets.{Elem}
use kedr_callback_operations.HashTable.Valid.{Bounded}
use kedr_callback_operations.HashTable.Unique.{IsUnique, found-Has, remove_elem-Loses}
use kedr_callback_operations.Instrumentor.{Mechanism, Instrumentor, at}
use kedr_callback_operations.Instrumentor.Data.{
  my_operations, get_orig_operations, instrument_data_get_orig_operations,
  instrument_data_my_operations, instrument_data_unref, instrument_data_unref_norestore,
}
use kedr_callback_operations.Instrumentor.Watch.{
  instrument_data_restore_ops, instrumentor_find_watch_data, drop_watch,
  instrumentor_destroy_watch_data, instrumentor_destroy_watch_data_norestore, forget_ops,
  kedr_coi_instrumentor_forget,
}
use kedr_callback_operations.Instrumentor.Release.{unref-IsTracked}
use kedr_callback_operations.Instrumentor.Acquire.{IsSame}
use kedr_callback_operations.Instrumentor.Watching.{
  holds, IsWatching, IsTracked-frame, unref-IsSame, watch-held, drop-IsWatching,
}
use kedr_callback_operations.Instrumentor.View.{
  View, ForgetStep, absent, forgotten, given_back, set_pointer-at, watched_of, view,
  watched_of-none, watched_of-some, same-view, view-Loses,
}

module _ (hash_ptr : ℕ → ℕ → ℕ) where
  -- The pointers do not matter to the invariant, nor to what is watched.
  pub pointed-IsWatching :
      (m : Instrumentor) (pointers : ℕ → ℕ)
      → IsWatching hash_ptr m
      → IsWatching hash_ptr (record m { pointers = pointers })
  pointed-IsWatching m pointers v = record {
    objects = v.objects;
    tracked =
        IsTracked-frame hash_ptr _ m m.objects_table m.watches pointers m.state.kernel v.tracked;
  }

  pub restore_ops-at :
      (a ops_p : ℕ) (m : Instrumentor)
      → instrument_data_restore_ops a ops_p m
        ≡ record m { pointers = at m.pointers ops_p (get_orig_operations (m.idatas a).i_ops) }
  unfolding instrument_data_restore_ops instrument_data_get_orig_operations
  restore_ops-at a ops_p m = set_pointer-at _ ops_p m

  pub forget_ops-at :
      (ops_p : Option ℕ) (a : ℕ) (m : Instrumentor)
      → forget_ops hash_ptr ops_p a m
        ≡ record m { pointers = given_back ops_p (m.idatas a).i_ops m.pointers }
  unfolding forget_ops instrument_data_my_operations
  forget_ops-at none a m = refl
  forget_ops-at (some ops_p) a m =
      elim (Bool-cases (my_operations (m.idatas a).i_ops (m.pointers ops_p))) [
        | inl mine ↦ rw mine (restore_ops-at a ops_p m)
        | inr other ↦ rw other refl
      ]

  module _ (bounded : Bounded hash_ptr) (m : Instrumentor) (v : IsWatching hash_ptr m) (object : ℕ)
      (e : Elem) (found : find_elem hash_ptr m.objects_table object ≡ some e) where
    dropped-view :
        (m' : Instrumentor)
        → ((held : ℕ → ℕ) → IsSame held m m')
        → view hash_ptr (drop_watch hash_ptr e m')
          ≡ record { watched = at (watched_of hash_ptr m) object none; pointers = m.pointers }
    unfolding drop_watch
    dropped-view m' same =
        let s = same (holds m.watches m.objects_table) in
        let key : e.key ≡ object =
          (found-Has hash_ptr bounded m.objects_table v.objects object e found).1 in
        let u : IsUnique hash_ptr m'.objects_table =
          subst (λ (o : Table). IsUnique hash_ptr o) (sym s.objects) v.objects in
        let here : find_elem hash_ptr m'.objects_table e.key ≡ some e =
          ap (λ (o : Table). find_elem hash_ptr o e.key) s.objects
          ∙ ap (find_elem hash_ptr m.objects_table) key
          ∙ found in
        let k = m'.state.kernel in
        let l = remove_elem-Loses hash_ptr bounded m'.objects_table u e k here in
        let old : watched_of hash_ptr m' ≡ watched_of hash_ptr m =
          ap (λ (w : View). w.watched) (same-view hash_ptr bounded m m' v s) in
        let each : (o : ℕ)
            → watched_of hash_ptr (drop_watch hash_ptr e m') o
              ≡ at (watched_of hash_ptr m) object none o =
          λ o.
            view-Loses hash_ptr bounded m' u _ e (remove_elem hash_ptr m'.objects_table e k).0 o l
            ∙ ap (λ (w : ℕ → Option Mechanism). at w e.key none o) old
            ∙ ap (λ (n : ℕ). at (watched_of hash_ptr m) n none o) key in
        rw (fun_ext each, s.pointers) refl

    -- Destroying the watch data, with and without restoring the operations.
    pub destroy_watch-lem :
        let seen : View = record {
          watched = at (watched_of hash_ptr m) object none;
          pointers = m.pointers;
        } in
        (IsWatching hash_ptr (instrumentor_destroy_watch_data hash_ptr e m)
          × (view hash_ptr (instrumentor_destroy_watch_data hash_ptr e m) ≡ seen))
        × (IsWatching hash_ptr (instrumentor_destroy_watch_data_norestore hash_ptr e m)
            × (view hash_ptr (instrumentor_destroy_watch_data_norestore hash_ptr e m) ≡ seen))
    unfolding instrumentor_destroy_watch_data instrumentor_destroy_watch_data_norestore
    destroy_watch-lem =
        let a = m.watches e.node in
        let held = holds m.watches m.objects_table in
        let alive = watch-held hash_ptr bounded m v object e found in
        let t = unref-IsTracked hash_ptr bounded held m v.tracked a alive in
        let s = λ (h : ℕ → ℕ). unref-IsSame hash_ptr h a m in
        let m₁ = instrument_data_unref hash_ptr a m in
        let m₂ = instrument_data_unref_norestore hash_ptr a m in
        (
          (
            drop-IsWatching hash_ptr bounded m v object e found held m₁ (s held).0 t.0,
            dropped-view m₁ (λ h. (s h).0),
          ),
          (
            drop-IsWatching hash_ptr bounded m v object e found held m₂ (s held).1 t.1,
            dropped-view m₂ (λ h. (s h).1),
          ),
        )

module _ (hash_ptr : ℕ → ℕ → ℕ) (bounded : Bounded hash_ptr) (m : Instrumentor)
    (v : IsWatching hash_ptr m) (object : ℕ) where
  -- Forgetting an object keeps the invariant, and what a caller sees is a step of the specification:
  -- 1 if the object was not watched, with nothing changed; otherwise 0, the object alone is not
  -- watched any more, and its pointer gets the original operations if it has those of its structure,
  -- and stays as it is if somebody else has put other ones there.
  pub forget-ForgetStep :
      (ops_p : Option ℕ)
      → let (c, m') = kedr_coi_instrumentor_forget hash_ptr object ops_p m in
        IsWatching hash_ptr m' × ForgetStep object ops_p (view hash_ptr m) (c, view hash_ptr m')
  unfolding kedr_coi_instrumentor_forget instrumentor_find_watch_data watched_of
  forget-ForgetStep ops_p = elim (Option-cases (find_elem hash_ptr m.objects_table object)) [
    | inl none' ↦
        rw (none', kedr_coi_instrumentor_forget)
          (v, absent (watched_of-none hash_ptr m object none'))
    | inr (e, found) ↦
        let kind = (m.idatas (m.watches e.node)).i_ops in
        let pointers = given_back ops_p kind m.pointers in
        let m₁ : Instrumentor = record m { pointers = pointers } in
        let d =
          (destroy_watch-lem hash_ptr bounded m₁ (pointed-IsWatching hash_ptr m pointers v) object e
            found).0 in
        let seen : View = record {
          watched = at (watched_of hash_ptr m) object none;
          pointers = pointers;
        } in
        let step : ForgetStep object ops_p (view hash_ptr m) (success, seen) =
          forgotten kind (watched_of-some hash_ptr m object e found) in
        rw (found, kedr_coi_instrumentor_forget)
          (rw (forget_ops-at hash_ptr ops_p (m.watches e.node) m) (
            d.0,
            subst (λ (w : View). ForgetStep object ops_p (view hash_ptr m) (success, w)) (sym d.1)
                step,
          ))
  ]
