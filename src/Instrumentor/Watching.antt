-- ===== src/Instrumentor/Watching.antt =====
-- The invariant of the normal instrumentor: the references to a structure are the watches of it.
use kedr_callback_operations.Prelude.{
  ℕ, ◌+◌, ◌-◌, ◌<◌, ◌≡◌, refl, sym, ap, ◌∙◌, subst, false, some, List, [], ◌∷◌, arith, Bool-cases,
  inl, inr, ◌==◌, ==-refl, if◌then◌else◌,
}
use mathlib.Core.Path.{fun_ext}
use kedr_callback_operations.Kernel.{Kernel, bump}
use kedr_callback_operations.HashTable.{Table, find_elem, remove_elem}
use kedr_callback_operations.HashTable.Buckets.{Elem, elements}
use kedr_callback_operations.HashTable.Valid.{Bounded}
use kedr_callback_operations.HashTable.Registry.{has_node, DistinctNodes, Has, has_node_of_Has}
use kedr_callback_operations.HashTable.Unique.{
  IsUnique, tally, tally-perm, found-Has, remove_elem-Loses,
}
use kedr_callback_operations.Instrumentor.{Instrumentor, at}
use kedr_callback_operations.Instrumentor.Data.{
  with_refs, instrument_data_unref, instrument_data_unref_norestore,
}
use kedr_callback_operations.Instrumentor.Watch.{drop_watch}
use kedr_callback_operations.Instrumentor.Tracked.{IsTracked}
use kedr_callback_operations.Instrumentor.Acquire.{IsSame}

-- The watches of each structure.
abbrev pub holds : (ℕ → ℕ) → Table → ℕ → ℕ
holds watches t a = tally watches a (elements t.heads)

pub tally-absent :
    (w : ℕ → ℕ) (n a c : ℕ) (es : List Elem)
    → has_node n es ≡ false
    → tally (at w n a) c es ≡ tally w c es
tally-absent w n a c [] h = refl
tally-absent w n a c (e ∷ es) h = ground (arith, tally-absent w n a c es)

pub tally-at :
    (w : ℕ → ℕ) (a c : ℕ) (e : Elem) (es : List Elem)
    → DistinctNodes es
    → Has e es
    → tally (at w e.node a) c es + (if w e.node == c then 1 else 0)
      ≡ tally w c es + (if a == c then 1 else 0)
tally-at w a c e [] d h = absurd h
tally-at w a c e (x ∷ es) d (inl h) =
    let absent : has_node e.node es ≡ false = ground (arith, d.0, h) in
    rw (h, ==-refl e.node) (ground (arith, tally-absent w e.node a c es absent))
tally-at w a c e (x ∷ es) d (inr h) =
    let other : (x.node == e.node) ≡ false = ground (arith, has_node_of_Has e es h, d.0) in
    rw other (ground (arith, tally-at w a c e es d.1 h))

pub tally-Has : (w : ℕ → ℕ) (e : Elem) (es : List Elem) → Has e es → 0 < tally w (w e.node) es
tally-Has w e [] h = absurd h
tally-Has w e (x ∷ es) (inl h) = rw (h, ==-refl (w e.node)) (omega arith)
tally-Has w e (x ∷ es) (inr h) = omega (arith, tally-Has w e es h)

module _ (hash_ptr : ℕ → ℕ → ℕ) where
  pub record IsWatching (m : Instrumentor) : Type 0 where
    pub objects : IsUnique hash_ptr m.objects_table
    pub tracked : IsTracked hash_ptr (holds m.watches m.objects_table) m

  pub IsTracked-ext :
      (held held' : ℕ → ℕ) (m : Instrumentor)
      → ((c : ℕ) → held c ≡ held' c)
      → IsTracked hash_ptr held m
      → IsTracked hash_ptr held' m
  IsTracked-ext held held' m e t = subst (λ (h : ℕ → ℕ). IsTracked hash_ptr h m) (fun_ext e) t

  -- The watches, the pointers and the kernel do not matter to the structures.
  pub IsTracked-frame :
      (held : ℕ → ℕ) (m : Instrumentor) (objects : Table) (watches pointers : ℕ → ℕ) (k : Kernel)
      → IsTracked hash_ptr held m
      → IsTracked hash_ptr held (record m {
        objects_table = objects;
        watches = watches;
        pointers = pointers;
        state = record (m.state) { kernel = k };
      })
  IsTracked-frame held m objects watches pointers k t = record {
    dir = t.dir;
    tabled = t.tabled;
    counted = t.counted;
    placed = t.placed;
    live = t.live;
    mine = t.mine;
  }

  pub same-IsWatching :
      (held : ℕ → ℕ) (m m' : Instrumentor)
      → IsWatching m
      → IsSame held m m'
      → IsTracked hash_ptr (holds m.watches m.objects_table) m'
      → IsWatching m'
  same-IsWatching held m m' v s t = record {
    objects = subst (λ (o : Table). IsUnique hash_ptr o) (sym s.objects) v.objects;
    tracked = IsTracked-ext _ _ m' (λ c. rw (s.objects, s.watches) refl) t;
  }

  pub unref-IsSame :
      (held : ℕ → ℕ) (a : ℕ) (m : Instrumentor)
      → IsSame held m (instrument_data_unref hash_ptr a m)
        × IsSame held m (instrument_data_unref_norestore hash_ptr a m)
  unfolding instrument_data_unref instrument_data_unref_norestore
  unref-IsSame held a m =
      let kind : (b : ℕ) → ((with_refs m a (λ n. n - 1)).idatas b).i_ops ≡ (m.idatas b).i_ops =
        λ b. ground arith in
      elim (Bool-cases ((m.idatas a).refs == 1)) [
        | inl last ↦ rw last (
          record {
            objects = refl;
            foreign = refl;
            watches = refl;
            pointers = refl;
            replacements = refl;
            kinds = λ b h. kind b;
          },
          record {
            objects = refl;
            foreign = refl;
            watches = refl;
            pointers = refl;
            replacements = refl;
            kinds = λ b h. kind b;
          },
        )
        | inr more ↦ rw more (
          record {
            objects = refl;
            foreign = refl;
            watches = refl;
            pointers = refl;
            replacements = refl;
            kinds = λ b h. kind b;
          },
          record {
            objects = refl;
            foreign = refl;
            watches = refl;
            pointers = refl;
            replacements = refl;
            kinds = λ b h. kind b;
          },
        )
      ]

  module _ (bounded : Bounded hash_ptr) (m : Instrumentor) (v : IsWatching m) (object : ℕ)
      (e : Elem) (found : find_elem hash_ptr m.objects_table object ≡ some e) where
    -- The structure of a watch is referenced.
    pub watch-held : 0 < holds m.watches m.objects_table (m.watches e.node)
    watch-held =
        tally-Has m.watches e (elements m.objects_table.heads)
          (found-Has hash_ptr bounded m.objects_table v.objects object e found).0

    -- Another structure for the watch.
    pub holds-at :
        (a c : ℕ)
        → holds (at m.watches e.node a) m.objects_table c + (if m.watches e.node == c then 1 else 0)
          ≡ holds m.watches m.objects_table c + (if a == c then 1 else 0)
    holds-at a c =
        tally-at m.watches a c e (elements m.objects_table.heads) v.objects.nodes
          (found-Has hash_ptr bounded m.objects_table v.objects object e found).0

    -- The watch is dropped once its reference is given back.
    pub drop-IsWatching :
        (held : ℕ → ℕ) (m' : Instrumentor)
        → IsSame held m m'
        → IsTracked hash_ptr
            (bump (holds m.watches m.objects_table) (m.watches e.node) (λ n. n - 1))
            m'
        → IsWatching (drop_watch hash_ptr e m')
    unfolding drop_watch
    drop-IsWatching held m' s t =
        let key = (found-Has hash_ptr bounded m.objects_table v.objects object e found).1 in
        let here : find_elem hash_ptr m.objects_table e.key ≡ some e =
          ap (find_elem hash_ptr m.objects_table) key ∙ found in
        let u : IsUnique hash_ptr m'.objects_table =
          subst (λ (o : Table). IsUnique hash_ptr o) (sym s.objects) v.objects in
        let k = m'.state.kernel in
        let l =
          remove_elem-Loses hash_ptr bounded m'.objects_table u e k
            (ap (λ (o : Table). find_elem hash_ptr o e.key) s.objects ∙ here) in
        let fewer : (c : ℕ)
            → bump (holds m.watches m.objects_table) (m.watches e.node) (λ n. n - 1) c
              ≡ holds m'.watches (remove_elem hash_ptr m'.objects_table e k).0 c =
          λ c.
            let p = tally-perm m'.watches c l.same in
            ground (
              arith,
              p,
              ap (λ (o : Table). tally m'.watches c (elements o.heads)) s.objects,
              ap (λ (w : ℕ → ℕ). tally w c (elements m.objects_table.heads)) s.watches,
              ap (λ (w : ℕ → ℕ). w e.node) s.watches,
            ) in
        record {
          objects = l.unique;
          tracked = IsTracked-frame _ m' _ _ _ _ (IsTracked-ext _ _ m' fewer t);
        }
