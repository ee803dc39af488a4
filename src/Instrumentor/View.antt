-- ===== src/Instrumentor/View.antt =====
-- What a caller of the normal instrumentor sees: which objects are watched, with which structure, and
-- the pointers to operations. A specification of watching and forgetting on it.
use kedr_callback_operations.Prelude.{
  ℕ, ◌≡◌, refl, sym, ap, ◌∙◌, true, false, Option, none, some, List, [], ◌∷◌, arith, Bool-cases,
  Option-cases, inl, inr, ◌==◌, ==-refl, if◌then◌else◌,
}
use mathlib.Core.Path.{fun_ext}
use kedr_callback_operations.Kernel.{Kernel, Code, success, ignored, fail, Errno}
use kedr_callback_operations.HashTable.{Table, find_elem}
use kedr_callback_operations.HashTable.Buckets.{Elem, elements}
use kedr_callback_operations.HashTable.Valid.{Bounded}
use kedr_callback_operations.HashTable.Registry.{has_node, DistinctNodes, Has, has_node_of_Has}
use kedr_callback_operations.HashTable.Unique.{IsUnique, Gains, Loses, found-Has, found-has_node}
use kedr_callback_operations.Instrumentor.{Mechanism, Instrumentor, at}
use kedr_callback_operations.Instrumentor.Data.{
  my_operations, get_repl_operations, get_orig_operations,
}
use kedr_callback_operations.Instrumentor.Watch.{set_pointer}
use kedr_callback_operations.Instrumentor.Acquire.{IsSame}
use kedr_callback_operations.Instrumentor.Watching.{holds, IsWatching, watch-held}

pub record View : Type 0 where
  pub watched : ℕ → Option Mechanism
  pub pointers : ℕ → ℕ

-- A watch of the object with the operations that `ops_p` points to.
pub data WatchStep (object ops_p : ℕ) (v : View) : Code × View → Type 0 where
  -- The object was not watched: it is now, with a structure for its operations.
  started :
      (kind : Mechanism)
      → v.watched object ≡ none
      → my_operations kind (v.pointers ops_p) ≡ true
      → WatchStep object ops_p v (
        success,
        record {
          watched = at v.watched object (some kind);
          pointers = at v.pointers ops_p (get_repl_operations kind);
        },
      )
  -- It is watched with a structure for its operations.
  kept :
      (kind : Mechanism)
      → v.watched object ≡ some kind
      → my_operations kind (v.pointers ops_p) ≡ true
      → WatchStep object ops_p v (
        ignored,
        record { watched = v.watched; pointers = at v.pointers ops_p (get_repl_operations kind) },
      )
  -- Its operations have changed: the structure is another one.
  changed :
      (old kind : Mechanism)
      → v.watched object ≡ some old
      → my_operations old (v.pointers ops_p) ≡ false
      → my_operations kind (v.pointers ops_p) ≡ true
      → WatchStep object ops_p v (
        ignored,
        record {
          watched = at v.watched object (some kind);
          pointers = at v.pointers ops_p (get_repl_operations kind);
        },
      )
  refused : (e : Errno) → v.watched object ≡ none → WatchStep object ops_p v (fail e, v)
  -- The update failed: the object is not watched any more, and gets the operations that it had
  -- when it was watched before.
  dropped :
      (e : Errno) (old : Mechanism)
      → v.watched object ≡ some old
      → my_operations old (v.pointers ops_p) ≡ false
      → WatchStep object ops_p v (
        fail e,
        record {
          watched = at v.watched object none;
          pointers = at v.pointers ops_p (get_orig_operations old);
        },
      )

-- The pointer that forgetting gives back, if there is one and it has operations of the structure.
abbrev pub given_back : Option ℕ → Mechanism → (ℕ → ℕ) → ℕ → ℕ
given_back none kind pointers = pointers
given_back (some ops_p) kind pointers =
    if my_operations kind (pointers ops_p)
    then at pointers ops_p (get_orig_operations kind)
    else pointers

pub data ForgetStep (object : ℕ) (ops_p : Option ℕ) (v : View) : Code × View → Type 0 where
  absent : v.watched object ≡ none → ForgetStep object ops_p v (ignored, v)
  forgotten :
      (kind : Mechanism)
      → v.watched object ≡ some kind
      → ForgetStep object ops_p v (
        success,
        record { watched = at v.watched object none; pointers = given_back ops_p kind v.pointers },
      )

pub View-ext :
    (w w' : ℕ → Option Mechanism) (p p' : ℕ → ℕ)
    → w ≡ w'
    → p ≡ p'
    → ◌≡◌ {A = View} (record { watched = w; pointers = p }) (record { watched = w'; pointers = p' })
View-ext w w' p p' e f =
    ap (λ (x : ℕ → Option Mechanism). record { watched = x; pointers = p }) e
    ∙ ap (λ (x : ℕ → ℕ). record { watched = w'; pointers = x }) f

-- A pointer that is written only if it differs.
pub set_pointer-at :
    (ops ops_p : ℕ) (m : Instrumentor)
    → set_pointer ops ops_p m ≡ record m { pointers = at m.pointers ops_p ops }
unfolding set_pointer
set_pointer-at ops ops_p m = elim (Bool-cases (ops == m.pointers ops_p)) [
  | inl same ↦
      let e : m.pointers ≡ at m.pointers ops_p ops = fun_ext (λ q. ground (arith, same)) in
      rw same (ap (λ (f : ℕ → ℕ). record m { pointers = f }) e)
  | inr other ↦ rw other refl
]

node-injective :
    (es : List Elem) (e x : Elem) → DistinctNodes es → Has e es → Has x es → x.node ≡ e.node → x ≡ e
node-injective [] e x d h h' same = absurd h
node-injective (y ∷ es) e x d (inl p) (inl q) same = sym q ∙ p
node-injective (y ∷ es) e x d (inl p) (inr q) same = ground (arith, has_node_of_Has x es q, d.0)
node-injective (y ∷ es) e x d (inr p) (inl q) same = ground (arith, has_node_of_Has e es p, d.0)
node-injective (y ∷ es) e x d (inr p) (inr q) same = node-injective es e x d.1 p q same

module _ (hash_ptr : ℕ → ℕ → ℕ) where
  unfoldable pub watched_of : Instrumentor → ℕ → Option Mechanism
  watched_of m object = elim (find_elem hash_ptr m.objects_table object) [
    | none ↦ none
    | some e ↦ some (m.idatas (m.watches e.node)).i_ops
  ]

  abbrev pub view : Instrumentor → View
  view m = record { watched = watched_of m; pointers = m.pointers }

  pub watched_of-none :
      (m : Instrumentor) (o : ℕ)
      → find_elem hash_ptr m.objects_table o ≡ none
      → watched_of m o ≡ none
  unfolding watched_of
  watched_of-none m o h = rw (h, watched_of) refl

  pub watched_of-some :
      (m : Instrumentor) (o : ℕ) (e : Elem)
      → find_elem hash_ptr m.objects_table o ≡ some e
      → watched_of m o ≡ some (m.idatas (m.watches e.node)).i_ops
  unfolding watched_of
  watched_of-some m o e h = rw (h, watched_of) refl

  -- Where all structures stay, nothing is seen.
  pub every-view : (m m' : Instrumentor) → IsSame (λ a. 1) m m' → view m' ≡ view m
  unfolding watched_of
  every-view m m' s =
      let each : (o : ℕ) → watched_of m' o ≡ watched_of m o = λ o.
        elim (Option-cases (find_elem hash_ptr m.objects_table o)) [
          | inl none' ↦
              watched_of-none m' o (ap (λ (t : Table). find_elem hash_ptr t o) s.objects ∙ none')
              ∙ sym (watched_of-none m o none')
          | inr (e, found) ↦
              watched_of-some m' o e (ap (λ (t : Table). find_elem hash_ptr t o) s.objects ∙ found)
              ∙ ap (λ (w : ℕ → ℕ). some (m'.idatas (w e.node)).i_ops) s.watches
              ∙ ap some (s.kinds (m.watches e.node) (omega arith))
              ∙ sym (watched_of-some m o e found)
        ] in
      View-ext _ _ _ _ (fun_ext each) s.pointers

  module _ (bounded : Bounded hash_ptr) where
    -- Where watched structures stay, nothing is seen.
    pub same-view :
        (m m' : Instrumentor)
        → IsWatching hash_ptr m
        → IsSame (holds m.watches m.objects_table) m m'
        → view m' ≡ view m
    same-view m m' v s =
        let each : (o : ℕ) → watched_of m' o ≡ watched_of m o = λ o.
          elim (Option-cases (find_elem hash_ptr m.objects_table o)) [
            | inl none' ↦
                watched_of-none m' o (ap (λ (t : Table). find_elem hash_ptr t o) s.objects ∙ none')
                ∙ sym (watched_of-none m o none')
            | inr (e, found) ↦
                watched_of-some m' o e
                  (ap (λ (t : Table). find_elem hash_ptr t o) s.objects ∙ found)
                ∙ ap (λ (w : ℕ → ℕ). some (m'.idatas (w e.node)).i_ops) s.watches
                ∙ ap some (s.kinds (m.watches e.node) (watch-held hash_ptr bounded m v o e found))
                ∙ sym (watched_of-some m o e found)
          ] in
        rw (fun_ext each, s.pointers) refl

    module _ (m : Instrumentor) (u : IsUnique hash_ptr m.objects_table) (k : Kernel) where
      -- Another key has another element at another address.
      other_node :
          (e x : Elem) (o : ℕ)
          → find_elem hash_ptr m.objects_table e.key ≡ some e
          → find_elem hash_ptr m.objects_table o ≡ some x
          → (o == e.key) ≡ false
          → (x.node == e.node) ≡ false
      other_node e x o here found away =
          let h = found-Has hash_ptr bounded m.objects_table u e.key e here in
          let h' = found-Has hash_ptr bounded m.objects_table u o x found in
          elim (Bool-cases (x.node == e.node)) [
            | inr miss ↦ miss
            | inl hit ↦
                let same : x ≡ e =
                  node-injective (elements m.objects_table.heads) e x u.nodes h.0 h'.0
                    (ground (arith, hit)) in
                ground (arith, h'.1, same, away)
          ]

      pub view-Gains :
          (e : Elem) (objects : Table) (a o : ℕ)
          → Gains hash_ptr e m.objects_table objects
          → has_node e.node (elements m.objects_table.heads) ≡ false
          → watched_of
              (record m {
                objects_table = objects;
                watches = at m.watches e.node a;
                state = record (m.state) { kernel = k };
              })
              o
            ≡ at (watched_of m) e.key (some (m.idatas a).i_ops) o
      view-Gains e objects a o g fresh =
          let m' : Instrumentor = record m {
            objects_table = objects;
            watches = at m.watches e.node a;
            state = record (m.state) { kernel = k };
          } in
          elim (Bool-cases (e.key == o)) [
            | inl here ↦
                let there : (o == e.key) ≡ true = ground (arith, here) in
                let found' : find_elem hash_ptr objects o ≡ some e = g.finds o ∙ rw here refl in
                watched_of-some m' o e found' ∙ rw (there, ==-refl e.node) refl
            | inr other ↦
                let away : (o == e.key) ≡ false = ground (arith, other) in
                let same : find_elem hash_ptr objects o ≡ find_elem hash_ptr m.objects_table o =
                  g.finds o ∙ rw other refl in
                rw away (elim (Option-cases (find_elem hash_ptr m.objects_table o)) [
                  | inl none' ↦
                      watched_of-none m' o (same ∙ none') ∙ sym (watched_of-none m o none')
                  | inr (x, found) ↦
                      let old : (x.node == e.node) ≡ false = ground (
                        arith,
                        fresh,
                        found-has_node hash_ptr bounded m.objects_table u o x found,
                      ) in
                      watched_of-some m' o x (same ∙ found)
                      ∙ rw old (sym (watched_of-some m o x found))
                ])
          ]

      pub view-Loses :
          (e : Elem) (objects : Table) (o : ℕ)
          → Loses hash_ptr e m.objects_table objects
          → watched_of
              (record m { objects_table = objects; state = record (m.state) { kernel = k } })
              o
            ≡ at (watched_of m) e.key none o
      view-Loses e objects o l =
          let m' : Instrumentor = record m {
            objects_table = objects;
            state = record (m.state) { kernel = k };
          } in
          elim (Bool-cases (e.key == o)) [
            | inl here ↦
                let there : (o == e.key) ≡ true = ground (arith, here) in
                watched_of-none m' o (l.finds o ∙ rw here refl) ∙ rw there refl
            | inr other ↦
                let away : (o == e.key) ≡ false = ground (arith, other) in
                let same : find_elem hash_ptr objects o ≡ find_elem hash_ptr m.objects_table o =
                  l.finds o ∙ rw other refl in
                rw away (elim (Option-cases (find_elem hash_ptr m.objects_table o)) [
                  | inl none' ↦
                      watched_of-none m' o (same ∙ none') ∙ sym (watched_of-none m o none')
                  | inr (x, found) ↦
                      watched_of-some m' o x (same ∙ found) ∙ sym (watched_of-some m o x found)
                ])
          ]

      -- Another structure for a watch.
      pub view-moves :
          (e : Elem) (a o : ℕ)
          → find_elem hash_ptr m.objects_table e.key ≡ some e
          → watched_of (record m { watches = at m.watches e.node a }) o
            ≡ at (watched_of m) e.key (some (m.idatas a).i_ops) o
      view-moves e a o here =
          let m' : Instrumentor = record m { watches = at m.watches e.node a } in
          elim (Bool-cases (o == e.key)) [
            | inl there ↦
                let found' : find_elem hash_ptr m.objects_table o ≡ some e =
                  ap (find_elem hash_ptr m.objects_table) (ground (arith, there)) ∙ here in
                watched_of-some m' o e found' ∙ rw (there, ==-refl e.node) refl
            | inr away ↦ rw away (elim (Option-cases (find_elem hash_ptr m.objects_table o)) [
              | inl none' ↦ watched_of-none m' o none' ∙ sym (watched_of-none m o none')
              | inr (x, found) ↦
                  let old : (x.node == e.node) ≡ false = other_node e x o here found away in
                  watched_of-some m' o x found ∙ rw old (sym (watched_of-some m o x found))
            ])
          ]
