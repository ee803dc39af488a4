-- ===== src/Instrumentor/Refines.antt =====
-- Every watch of the normal instrumentor is a step of the specification.
use kedr_callback_operations.Prelude.{
  ℕ, ◌+◌, ◌≡◌, refl, sym, ap, ◌∙◌, subst, true, false, Option, none, some, Bool-cases, Option-cases,
  inl, inr,
}
use kedr_callback_operations.Kernel.{Code, success, ignored, fail, bump}
use kedr_callback_operations.HashTable.{Table, find_elem}
use kedr_callback_operations.HashTable.Buckets.{Elem, elements}
use kedr_callback_operations.HashTable.Valid.{Bounded}
use kedr_callback_operations.HashTable.Registry.{has_node}
use kedr_callback_operations.HashTable.Unique.{IsUnique}
use kedr_callback_operations.Instrumentor.{Mechanism, Instrumentor, Addresses, at}
use kedr_callback_operations.Instrumentor.Data.{
  my_operations, get_repl_operations, get_orig_operations, instrument_data_my_operations,
}
use kedr_callback_operations.Instrumentor.Watch.{
  instrument_data_replace_ops, instrumentor_find_watch_data, instrumentor_destroy_watch_data,
  watch_new, rewatch, instrumentor_watch_internal, kedr_coi_instrumentor_watch,
}
use kedr_callback_operations.Instrumentor.Tracked.{IsTracked}
use kedr_callback_operations.Instrumentor.Acquire.{IsFresh, IsSame, Gets, got, lost}
use kedr_callback_operations.Instrumentor.Acquire.Get.{instrumentor_get_data-Gets}
use kedr_callback_operations.Instrumentor.Watching.{
  holds, IsWatching, IsTracked-ext, same-IsWatching, watch-held,
}
use kedr_callback_operations.Instrumentor.View.{
  View, WatchStep, kept, refused, dropped, watched_of, view, watched_of-none, watched_of-some,
  same-view,
}
use kedr_callback_operations.Instrumentor.Forgotten.{
  pointed-IsWatching, restore_ops-at, destroy_watch-lem,
}
use kedr_callback_operations.Instrumentor.Watched.{
  Watches, from_same, replace_ops-at, new-lem, moved-lem,
}

module _ (hash_ptr : ℕ → ℕ → ℕ) (bounded : Bounded hash_ptr) (m : Instrumentor)
    (v : IsWatching hash_ptr m) (p : Addresses) (object ops_p : ℕ)
    (f : IsFresh (holds m.watches m.objects_table) p m) where
  abbrev held : ℕ → ℕ
  held = holds m.watches m.objects_table

  abbrev IsLoaned : ℕ → Instrumentor → Type 0
  IsLoaned a m₁ =
      IsUnique hash_ptr m₁.objects_table
      × IsTracked hash_ptr (bump (holds m₁.watches m₁.objects_table) a (λ n. n + 1)) m₁

  same-IsLoaned :
      (a : ℕ) (m₁ : Instrumentor)
      → IsTracked hash_ptr (bump held a (λ n. n + 1)) m₁
      → IsSame held m m₁
      → IsLoaned a m₁
  same-IsLoaned a m₁ t s = (
    subst (λ (o : Table). IsUnique hash_ptr o) (sym s.objects) v.objects,
    IsTracked-ext hash_ptr _ _ m₁ (λ c. rw (s.objects, s.watches) refl) t,
  )

  new-Watches :
      (r : Code × Option ℕ × Instrumentor)
      → find_elem hash_ptr m.objects_table object ≡ none
      → Gets hash_ptr held m p (m.pointers ops_p) r
      → Watches hash_ptr m object ops_p (watch_new hash_ptr p object ops_p r)
  unfolding watch_new
  new-Watches _ unwatched (lost e {m' = m₁} t s) =
      from_same hash_ptr m object ops_p m₁ (fail e, m₁) (same-view hash_ptr bounded m m₁ v s)
        (same-IsWatching hash_ptr held m m₁ v s t)
        (refused e (
          ap (λ (x : View). x.watched object) (same-view hash_ptr bounded m m₁ v s)
          ∙ watched_of-none hash_ptr m object unwatched))
  new-Watches _ unwatched (got a {m' = m₁} t s mine from) =
      let (u, t₁) = same-IsLoaned a m₁ t s in
      let fresh : has_node p.watch_data (elements m₁.objects_table.heads) ≡ false =
        ap (λ (o : Table). has_node p.watch_data (elements o.heads)) s.objects ∙ f.watch_data in
      let unwatched₁ = ap (λ (o : Table). find_elem hash_ptr o object) s.objects ∙ unwatched in
      let mine₁ : my_operations (m₁.idatas a).i_ops (m₁.pointers ops_p) ≡ true =
        ap (λ (q : ℕ → ℕ). my_operations (m₁.idatas a).i_ops (q ops_p)) s.pointers ∙ mine in
      let r = watch_new hash_ptr p object ops_p (success, some a, m₁) in
      let n =
        new-lem hash_ptr bounded m₁ object ops_p a u t₁ p.watch_data fresh unwatched₁ mine₁ p
          refl in
      from_same hash_ptr m object ops_p m₁ r (same-view hash_ptr bounded m m₁ v s) n.0 n.1

  module _ (e : Elem) (found : find_elem hash_ptr m.objects_table object ≡ some e)
      (theirs : my_operations (m.idatas (m.watches e.node)).i_ops (m.pointers ops_p) ≡ false) where
    rewatch-Watches :
        (r : Code × Option ℕ × Instrumentor)
        → Gets hash_ptr held m p (m.pointers ops_p) r
        → Watches hash_ptr m object ops_p (rewatch hash_ptr e ops_p r)
    unfolding rewatch watched_of
    rewatch-Watches _ (lost err {m' = m₁} t s) =
        let w₁ = same-IsWatching hash_ptr held m m₁ v s t in
        let old = (m₁.idatas (m₁.watches e.node)).i_ops in
        let was : old ≡ (m.idatas (m.watches e.node)).i_ops =
          ap (λ (w : ℕ → ℕ). (m₁.idatas (w e.node)).i_ops) s.watches
          ∙ s.kinds (m.watches e.node) (watch-held hash_ptr bounded m v object e found) in
        let pointers = at m₁.pointers ops_p (get_orig_operations old) in
        let m₂ : Instrumentor = record m₁ { pointers = pointers } in
        let found₁ = ap (λ (o : Table). find_elem hash_ptr o object) s.objects ∙ found in
        let d =
          (destroy_watch-lem hash_ptr bounded m₂ (pointed-IsWatching hash_ptr m₁ pointers w₁) object
            e found₁).0 in
        let theirs₁ : my_operations old (m₁.pointers ops_p) ≡ false =
          ap (λ (k : Mechanism). my_operations k (m₁.pointers ops_p)) was
          ∙ ap (λ (q : ℕ → ℕ). my_operations (m.idatas (m.watches e.node)).i_ops (q ops_p))
              s.pointers
          ∙ theirs in
        let seen : View = record {
          watched = at (watched_of hash_ptr m₁) object none;
          pointers = pointers;
        } in
        let step : WatchStep object ops_p (view hash_ptr m₁) (fail err, seen) =
          dropped err old (watched_of-some hash_ptr m₁ object e found₁) theirs₁ in
        let same = same-view hash_ptr bounded m m₁ v s in
        rw (restore_ops-at hash_ptr (m₁.watches e.node) ops_p m₁) (
          from_same hash_ptr m object ops_p m₁
            (fail err, instrumentor_destroy_watch_data hash_ptr e m₂) same d.0
            (subst (λ (x : View). WatchStep object ops_p (view hash_ptr m₁) (fail err, x)) (sym d.1)
              step))
    rewatch-Watches _ (got a {m' = m₁} t s mine from) =
        let (u, t₁) = same-IsLoaned a m₁ t s in
        let found₁ = ap (λ (o : Table). find_elem hash_ptr o object) s.objects ∙ found in
        let was : (m₁.idatas (m₁.watches e.node)).i_ops ≡ (m.idatas (m.watches e.node)).i_ops =
          ap (λ (w : ℕ → ℕ). (m₁.idatas (w e.node)).i_ops) s.watches
          ∙ s.kinds (m.watches e.node) (watch-held hash_ptr bounded m v object e found) in
        let theirs₁ =
          ap (λ (k : Mechanism). my_operations k (m₁.pointers ops_p)) was
          ∙ ap (λ (q : ℕ → ℕ). my_operations (m.idatas (m.watches e.node)).i_ops (q ops_p))
              s.pointers
          ∙ theirs in
        let mine₁ =
          ap (λ (q : ℕ → ℕ). my_operations (m₁.idatas a).i_ops (q ops_p)) s.pointers ∙ mine in
        let r = rewatch hash_ptr e ops_p (success, some a, m₁) in
        let n = moved-lem hash_ptr bounded m₁ object ops_p a u t₁ e found₁ theirs₁ mine₁ in
        from_same hash_ptr m object ops_p m₁ r (same-view hash_ptr bounded m m₁ v s) n.0 n.1

  kept-Watches :
      (e : Elem)
      → find_elem hash_ptr m.objects_table object ≡ some e
      → my_operations (m.idatas (m.watches e.node)).i_ops (m.pointers ops_p) ≡ true
      → Watches hash_ptr m object ops_p
          (ignored, instrument_data_replace_ops (m.watches e.node) ops_p m)
  unfolding watched_of
  kept-Watches e found mine =
      let kind = (m.idatas (m.watches e.node)).i_ops in
      let pointers = at m.pointers ops_p (get_repl_operations kind) in
      rw (replace_ops-at (m.watches e.node) ops_p m) (record {
        watching = pointed-IsWatching hash_ptr m pointers v;
        step = kept kind (watched_of-some hash_ptr m object e found) mine;
      })

  -- From a state that satisfies the invariant, with memory at new addresses, a watch keeps the
  -- invariant, and what a caller sees is a step of the specification.
  pub watch-Watches :
      Watches hash_ptr m object ops_p (kedr_coi_instrumentor_watch hash_ptr p object ops_p m)
  unfolding kedr_coi_instrumentor_watch instrumentor_watch_internal instrumentor_find_watch_data
      instrument_data_my_operations
  watch-Watches =
      let ops = m.pointers ops_p in
      let gets = instrumentor_get_data-Gets hash_ptr held m bounded v.tracked p ops f in
      elim (Option-cases (find_elem hash_ptr m.objects_table object)) [
        | inl unwatched ↦
            rw (unwatched, kedr_coi_instrumentor_watch, instrumentor_watch_internal)
              (new-Watches _ unwatched gets)
        | inr (e, found) ↦
            elim (Bool-cases (my_operations (m.idatas (m.watches e.node)).i_ops ops)) [
              | inl mine ↦
                  rw (found, mine, kedr_coi_instrumentor_watch, instrumentor_watch_internal)
                    (kept-Watches e found mine)
              | inr theirs ↦
                  rw (found, theirs, kedr_coi_instrumentor_watch, instrumentor_watch_internal)
                    (rewatch-Watches e found theirs _ gets)
            ]
      ]
