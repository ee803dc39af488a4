-- ===== src/Instrumentor/Watched.antt =====
-- Watching an object: the invariant is kept, and the caller sees a step of the specification.
use kedr_callback_operations.Prelude.{
  ℕ, ◌+◌, ◌-◌, ◌<◌, ◌≡◌, refl, sym, ap, ◌∙◌, subst, true, false, Option, none, some, arith, if_both,
  ==-refl,
}
use mathlib.Core.Path.{fun_ext}
use kedr_callback_operations.Kernel.{Kernel, Code, success, ignored, fail, enomem, bump}
use kedr_callback_operations.HashTable.{Table, elem_init, find_elem, add_elem}
use kedr_callback_operations.HashTable.Buckets.{Elem, elements}
use kedr_callback_operations.HashTable.Valid.{Bounded}
use kedr_callback_operations.HashTable.Registry.{has_node}
use kedr_callback_operations.HashTable.Unique.{
  IsUnique, found-Has, add_elem-Gains, tally, tally-perm,
}
use kedr_callback_operations.Instrumentor.{Mechanism, Instrumentor, Addresses, at}
use kedr_callback_operations.Instrumentor.Data.{
  my_operations, get_repl_operations, instrument_data_get_repl_operations, instrument_data_unref,
}
use kedr_callback_operations.Instrumentor.Watch.{
  instrument_data_replace_ops, watch_added, watch_new, rewatch,
}
use kedr_callback_operations.Instrumentor.Tracked.{IsTracked}
use kedr_callback_operations.Instrumentor.Release.{unref-IsTracked}
use kedr_callback_operations.Instrumentor.Watching.{
  holds, IsWatching, IsTracked-ext, IsTracked-frame, unref-IsSame, tally-absent, tally-at,
  tally-Has,
}
use kedr_callback_operations.Instrumentor.View.{
  View, WatchStep, started, changed, refused, set_pointer-at, watched_of, view, watched_of-none,
  watched_of-some, view-Gains, view-moves, every-view, View-ext,
}

pub replace_ops-at :
    (a ops_p : ℕ) (m : Instrumentor)
    → instrument_data_replace_ops a ops_p m
      ≡ record m { pointers = at m.pointers ops_p (get_repl_operations (m.idatas a).i_ops) }
unfolding instrument_data_replace_ops instrument_data_get_repl_operations
replace_ops-at a ops_p m = set_pointer-at _ ops_p m

module _ (hash_ptr : ℕ → ℕ → ℕ) (m : Instrumentor) (object ops_p : ℕ) where
  -- What a watch does to the instrumentor `m`.
  pub record Watches (r : Code × Instrumentor) : Type 0 where
    pub watching : IsWatching hash_ptr r.1
    pub step : WatchStep object ops_p (view hash_ptr m) (r.0, view hash_ptr r.1)

  -- From a state that looks like `m` on.
  pub from_same :
      (m₁ : Instrumentor) (r : Code × Instrumentor)
      → view hash_ptr m₁ ≡ view hash_ptr m
      → IsWatching hash_ptr r.1
      → WatchStep object ops_p (view hash_ptr m₁) (r.0, view hash_ptr r.1)
      → Watches r
  from_same m₁ r same w step = record {
    watching = w;
    step = subst (λ (x : View). WatchStep object ops_p x (r.0, view hash_ptr r.1)) same step;
  }

-- Behind instrumentor_get_data, in the state that it leaves.
module _ (hash_ptr : ℕ → ℕ → ℕ) (bounded : Bounded hash_ptr) (m : Instrumentor) (object ops_p a : ℕ)
    (u : IsUnique hash_ptr m.objects_table)
    (t : IsTracked hash_ptr (bump (holds m.watches m.objects_table) a (λ n. n + 1)) m) where
  -- The new watch.
  module _ (node : ℕ) (fresh : has_node node (elements m.objects_table.heads) ≡ false)
      (unwatched : find_elem hash_ptr m.objects_table object ≡ none)
      (mine : my_operations (m.idatas a).i_ops (m.pointers ops_p) ≡ true) where
    pub added-lem :
        (k : Kernel)
        → let r =
            watch_added hash_ptr a ops_p node m
              (add_elem hash_ptr m.objects_table (elem_init node object) k) in
          IsWatching hash_ptr r.1
          × WatchStep object ops_p (view hash_ptr m) (r.0, view hash_ptr r.1)
    unfolding watch_added add_elem elem_init watched_of
    added-lem k =
        let e = elem_init node object in
        let g = add_elem-Gains hash_ptr bounded m.objects_table u e k unwatched fresh in
        let objects = (add_elem hash_ptr m.objects_table e k).1 in
        let kind = (m.idatas a).i_ops in
        let pointers = at m.pointers ops_p (get_repl_operations kind) in
        let watches = at m.watches node a in
        let more : (c : ℕ)
            → bump (holds m.watches m.objects_table) a (λ n. n + 1) c ≡ holds watches objects c =
          λ c. ground (
            arith,
            tally-perm watches c g.same,
            tally-absent m.watches node a c (elements m.objects_table.heads) fresh,
            ==-refl node,
          ) in
        let added : Instrumentor = record m {
          objects_table = objects;
          watches = watches;
          state = record (m.state) { kernel = k };
        } in
        let each : (o : ℕ)
            → watched_of hash_ptr added o ≡ at (watched_of hash_ptr m) object (some kind) o =
          λ o. view-Gains hash_ptr bounded m u k e objects a o g fresh in
        let seen : View = record {
          watched = at (watched_of hash_ptr m) object (some kind);
          pointers = pointers;
        } in
        let step : WatchStep object ops_p (view hash_ptr m) (success, seen) =
          started kind (watched_of-none hash_ptr m object unwatched) mine in
        let same : watched_of hash_ptr (record added { pointers = pointers }) ≡ seen.watched =
          fun_ext each in
        rw (replace_ops-at a ops_p added) (
          record {
            objects = g.unique;
            tracked =
                IsTracked-frame hash_ptr _ m objects watches pointers k
                  (IsTracked-ext hash_ptr _ _ m more t);
          },
          subst
              (λ (w : ℕ → Option Mechanism).
                WatchStep object ops_p (view hash_ptr m)
                  (success, record { watched = w; pointers = pointers }))
              (sym same) step,
        )

    -- Without memory for the watch, the reference is given back.
    unwatched-lem :
        (k : Kernel)
        → let m' =
            instrument_data_unref hash_ptr a
              (record m { state = record (m.state) { kernel = k } }) in
          IsWatching hash_ptr m'
          × WatchStep object ops_p (view hash_ptr m) (fail enomem, view hash_ptr m')
    unfolding watched_of
    unwatched-lem k =
        let held = bump (holds m.watches m.objects_table) a (λ n. n + 1) in
        let m₁ : Instrumentor = record m { state = record (m.state) { kernel = k } } in
        let t₁ = IsTracked-frame hash_ptr held m m.objects_table m.watches m.pointers k t in
        let alive : 0 < held a = rw (==-refl a) (omega arith) in
        let t₂ = (unref-IsTracked hash_ptr bounded held m₁ t₁ a alive).0 in
        let m₂ = instrument_data_unref hash_ptr a m₁ in
        let s = (unref-IsSame hash_ptr (holds m.watches m.objects_table) a m₁).0 in
        let before : (c : ℕ) → bump held a (λ n. n - 1) c ≡ holds m.watches m.objects_table c =
          λ c. ground arith in
        let back : IsTracked hash_ptr (holds m.watches m.objects_table) m₂ =
          IsTracked-ext hash_ptr _ _ m₂ before t₂ in
        let w : IsWatching hash_ptr m₂ = record {
          objects = subst (λ (o : Table). IsUnique hash_ptr o) (sym s.objects) u;
          tracked = IsTracked-ext hash_ptr _ _ m₂ (λ c. rw (s.objects, s.watches) refl) back;
        } in
        let every = (unref-IsSame hash_ptr (λ c. 1) a m₁).0 in
        (
          w,
          subst (λ (x : View). WatchStep object ops_p (view hash_ptr m) (fail enomem, x))
              (sym (every-view hash_ptr m₁ m₂ every))
              (refused enomem (watched_of-none hash_ptr m object unwatched)),
        )

    pub new-lem :
        (p : Addresses)
        → p.watch_data ≡ node
        → let r = watch_new hash_ptr p object ops_p (success, some a, m) in
          IsWatching hash_ptr r.1
          × WatchStep object ops_p (view hash_ptr m) (r.0, view hash_ptr r.1)
    unfolding watch_new
    new-lem p here =
        subst
          (λ (n : ℕ).
            let r =
              watch_new hash_ptr (record p { watch_data = n }) object ops_p (success, some a, m) in
            IsWatching hash_ptr r.1
            × WatchStep object ops_p (view hash_ptr m) (r.0, view hash_ptr r.1))
          (sym here)
          (if_both
            (λ (r : Code × Instrumentor).
              IsWatching hash_ptr r.1
              × WatchStep object ops_p (view hash_ptr m) (r.0, view hash_ptr r.1))
            (m.state.kernel.answer m.state.kernel.asked) (added-lem _) (unwatched-lem _))

  -- The old watch gets the new structure.
  pub moved-lem :
      (e : Elem)
      → find_elem hash_ptr m.objects_table object ≡ some e
      → my_operations (m.idatas (m.watches e.node)).i_ops (m.pointers ops_p) ≡ false
      → my_operations (m.idatas a).i_ops (m.pointers ops_p) ≡ true
      → let r = rewatch hash_ptr e ops_p (success, some a, m) in
        IsWatching hash_ptr r.1 × WatchStep object ops_p (view hash_ptr m) (r.0, view hash_ptr r.1)
  unfolding rewatch watched_of
  moved-lem e found theirs mine =
      let b = m.watches e.node in
      let h = holds m.watches m.objects_table in
      let held = bump h a (λ n. n + 1) in
      let has = found-Has hash_ptr bounded m.objects_table u object e found in
      let alive : 0 < held b =
        ground (arith, tally-Has m.watches e (elements m.objects_table.heads) has.0) in
      let t₂ = (unref-IsTracked hash_ptr bounded held m t b alive).0 in
      let m₂ = instrument_data_unref hash_ptr b m in
      let every = (unref-IsSame hash_ptr (λ c. 1) b m).0 in
      let kind = (m.idatas a).i_ops in
      let watches = at m₂.watches e.node a in
      let u₂ : IsUnique hash_ptr m₂.objects_table =
        subst (λ (o : Table). IsUnique hash_ptr o) (sym every.objects) u in
      let found₂ : find_elem hash_ptr m₂.objects_table e.key ≡ some e =
        ap (λ (o : Table). find_elem hash_ptr o e.key) every.objects
        ∙ ap (find_elem hash_ptr m.objects_table) has.1
        ∙ found in
      let counts : (c : ℕ) → bump held b (λ n. n - 1) c ≡ holds watches m₂.objects_table c = λ c.
        ground (
          arith,
          tally-at m.watches a c e (elements m.objects_table.heads) u.nodes has.0,
          tally-Has m.watches e (elements m.objects_table.heads) has.0,
          ap (λ (w : ℕ → ℕ). tally (at w e.node a) c (elements m.objects_table.heads))
              every.watches,
          ap (λ (o : Table). tally (at m₂.watches e.node a) c (elements o.heads)) every.objects,
        ) in
      let moved : Instrumentor = record m₂ { watches = watches } in
      let kind₂ = (m₂.idatas a).i_ops in
      let same_kind : kind₂ ≡ kind = every.kinds a (omega arith) in
      let pointers = at m₂.pointers ops_p (get_repl_operations kind₂) in
      let same : (o : ℕ)
          → watched_of hash_ptr moved o ≡ at (watched_of hash_ptr m) object (some kind) o =
        λ o.
          view-moves hash_ptr bounded m₂ u₂ m₂.state.kernel e a o found₂
          ∙ ap (λ (w : ℕ → Option Mechanism). at w e.key (some kind₂) o)
              (ap (λ (x : View). x.watched) (every-view hash_ptr m m₂ every))
          ∙ ap (λ (n : ℕ). at (watched_of hash_ptr m) n (some kind₂) o) has.1
          ∙ ap (λ (k : Mechanism). at (watched_of hash_ptr m) object (some k) o) same_kind in
      let step : WatchStep object ops_p (view hash_ptr m) (
        ignored,
        record {
          watched = at (watched_of hash_ptr m) object (some kind);
          pointers = at m.pointers ops_p (get_repl_operations kind);
        },
      ) =
        changed (m.idatas b).i_ops kind (watched_of-some hash_ptr m object e found) theirs mine in
      let seen : view hash_ptr (record moved { pointers = pointers }) ≡ record {
        watched = at (watched_of hash_ptr m) object (some kind);
        pointers = at m.pointers ops_p (get_repl_operations kind);
      } =
        View-ext _ _ _ _ (fun_ext same) (
          ap (λ (q : ℕ → ℕ). at q ops_p (get_repl_operations kind₂)) every.pointers
          ∙ ap (λ (k : Mechanism). at m.pointers ops_p (get_repl_operations k)) same_kind) in
      rw (replace_ops-at a ops_p moved) (
        record {
          objects = u₂;
          tracked =
              IsTracked-frame hash_ptr _ m₂ m₂.objects_table watches pointers m₂.state.kernel
                (IsTracked-ext hash_ptr _ _ m₂ counts t₂);
        },
        subst (λ (x : View). WatchStep object ops_p (view hash_ptr m) (ignored, x)) (sym seen) step,
      )
