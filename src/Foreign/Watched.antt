-- ===== src/Foreign/Watched.antt =====
-- Watching at a foreign instrumentor in core/kedr_coi_instrumentors.c.
use kedr_callback_operations.Prelude.{
  ℕ, ◌≡◌, refl, sym, ap, ◌∙◌, subst, false, Option, none, some, Bool-cases, Option-cases, inl, inr,
  ◌==◌, ==-refl, ==_iff, if◌then◌else◌,
}
use kedr_callback_operations.Kernel.{Kernel, Code, success}
use kedr_callback_operations.HashTable.{Table, find_elem, add_elem}
use kedr_callback_operations.HashTable.Buckets.{Elem, elements}
use kedr_callback_operations.HashTable.Valid.{Bounded}
use kedr_callback_operations.HashTable.Registry.{has_node, Has}
use kedr_callback_operations.HashTable.Unique.{found-has_node, add_elem-Gains}
use kedr_callback_operations.Instrumentor.{at}
use kedr_callback_operations.Instrumentor.Data.{instrumentor_get_data}
use kedr_callback_operations.Foreign.{ForeignWatch, ForeignInstrumentor, Foreign}
use kedr_callback_operations.Foreign.Chain.{apf_idata_ops_create_foreign_data}
use kedr_callback_operations.Foreign.Watch.{
  ForeignAddresses, instrument_data_foreign_ref, instrument_data_foreign_replace_ops,
  foreign_created, foreign_bound, instrumentor_foreign_find_data, instrumentor_foreign_get_data,
  instrumentor_foreign_find_watch_data_by_id,
}
use kedr_callback_operations.Foreign.Calls.{new_watch, id_added, tie_added, ops_p_added}
use kedr_callback_operations.Foreign.Watches.{watch_at, AreTied, AreWatches}
use kedr_callback_operations.Foreign.Forgotten.{around, find_by_id-around}
use kedr_callback_operations.Foreign.Entered.{entered-AreTied}

-- The instrumentors, the watches and their places are as before.
pub record IsSame (s s' : Foreign) : Type 0 where
  pub instrumentors : s'.instrumentors ≡ s.instrumentors
  pub containers : s'.containers ≡ s.containers
  pub watches : s'.watches ≡ s.watches

placed : (c : ℕ → ℕ) (a b e w : ℕ) → at (at (at c a w) b w) e w a ≡ w
placed c a b e w = elim (Bool-cases (a == e)) [
  | inl one ↦ rw one refl
  | inr other ↦ elim (Bool-cases (a == b)) [
    | inl two ↦ rw (other, two) refl
    | inr third ↦ rw (other, third, ==-refl a) refl
  ]
]

module _ (hash_ptr : ℕ → ℕ → ℕ) where
  foreign_created-IsSame :
      (a : ℕ) (s : Foreign) (r : Code × Option ℕ × Foreign)
      → IsSame s r.2
      → IsSame s (foreign_created hash_ptr a r).2
  unfolding foreign_created
  foreign_created-IsSame a s (c, none, t) h = record {
    instrumentors = h.instrumentors;
    containers = h.containers;
    watches = h.watches;
  }
  foreign_created-IsSame a s (c, some f, t) h = h

  create-IsSame :
      (address a n : ℕ) (s : Foreign) → IsSame s (apf_idata_ops_create_foreign_data address a n s).2
  unfolding apf_idata_ops_create_foreign_data
  create-IsSame address a n s =
      elim (Bool-cases (s.normal.state.kernel.answer s.normal.state.kernel.asked)) [
        | inl ok ↦ rw ok (record { instrumentors = refl; containers = refl; watches = refl })
        | inr full ↦ rw full (record { instrumentors = refl; containers = refl; watches = refl })
      ]

  bound-IsSame :
      (p : ForeignAddresses) (n : ℕ) (s : Foreign) (r : Code × Option ℕ × _)
      → IsSame s (foreign_bound hash_ptr p n s r).2
  unfolding foreign_bound
  bound-IsSame p n s (c, none, m) = record {
    instrumentors = refl;
    containers = refl;
    watches = refl;
  }
  bound-IsSame p n s (c, some a, m) =
      let h = create-IsSame p.idata_foreign a n (record s { normal = m }) in
      foreign_created-IsSame a s
        (apf_idata_ops_create_foreign_data p.idata_foreign a n (record s { normal = m }))
        (record { instrumentors = h.instrumentors; containers = h.containers; watches = h.watches })

  pub get_data-IsSame :
      (p : ForeignAddresses) (n ops : ℕ) (s : Foreign)
      → IsSame s (instrumentor_foreign_get_data hash_ptr p n ops s).2
  unfolding instrumentor_foreign_get_data instrument_data_foreign_ref
  get_data-IsSame p n ops s =
      elim (Option-cases (instrumentor_foreign_find_data hash_ptr n ops s)) [
        | inl none' ↦
            rw (none', instrumentor_foreign_get_data)
              (bound-IsSame p n s (instrumentor_get_data hash_ptr p.normal ops s.normal))
        | inr (f, found) ↦
            rw (found, instrumentor_foreign_get_data)
              (record { instrumentors = refl; containers = refl; watches = refl })
      ]

  -- What the three additions of a new watch leave.
  pub record Adds (n : ℕ) (d : ForeignWatch) (s : Foreign) (r : Code × Foreign) : Type 0 where
    pub k : Kernel
    pub k₂ : Kernel
    pub fine : r.0 ≡ success
    pub ids :
        (r.1.instrumentors n).ids_table
        ≡ (add_elem hash_ptr (s.instrumentors n).ids_table d.id_elem k).1
    pub ties :
        (r.1.instrumentors n).ties_table
        ≡ (add_elem hash_ptr (s.instrumentors n).ties_table d.tie_elem k₂).1
    pub containers : r.1.containers ≡ s.containers
    pub watches : r.1.watches ≡ s.watches

  pub id_added-Adds :
      (n f ops_p : ℕ) (d : ForeignWatch) (s : Foreign) (kernel : Kernel)
      → Adds n d s (
          id_added hash_ptr n f d ops_p s
            (add_elem hash_ptr (s.instrumentors n).ids_table d.id_elem kernel))
  unfolding id_added tie_added ops_p_added add_elem instrument_data_foreign_replace_ops
  id_added-Adds n f ops_p d s kernel = record {
    k = kernel;
    k₂ = kernel;
    fine = refl;
    ids = rw (==-refl n) refl;
    ties = rw (==-refl n) refl;
    containers = refl;
    watches = refl;
  }

  module _ (n : ℕ) where
    pub AreWatches-look :
        (s s' : Foreign)
        → s'.instrumentors ≡ s.instrumentors
        → ((x : Elem)
            → ((watch_at hash_ptr n s' x).id_elem ≡ (watch_at hash_ptr n s x).id_elem)
              × ((watch_at hash_ptr n s' x).tie_elem ≡ (watch_at hash_ptr n s x).tie_elem))
        → AreWatches hash_ptr n s
        → AreWatches hash_ptr n s'
    AreWatches-look s s' same look v =
        subst
          (λ (i : ℕ → ForeignInstrumentor).
            AreTied hash_ptr (i n).ids_table (i n).ties_table (watch_at hash_ptr n s'))
          (sym same)
          (record {
            ids = v.ids;
            ties_valid = v.ties_valid;
            ties_nodes = v.ties_nodes;
            own_id =
                λ id e found. let (own, at_id) = v.own_id id e found in ((look e).0 ∙ own, at_id);
            own_tie = λ id e found.
                subst (λ (t : Elem). Has t (elements (s.instrumentors n).ties_table.heads))
                  (sym (look e).1) (v.own_tie id e found);
            apart = λ id id' e e' found found' one. v.apart id id' e e' found found' (
                sym (ap (λ (t : Elem). t.node) (look e).1)
                ∙ one
                ∙ ap (λ (t : Elem). t.node) (look e').1);
          })

    pub AreWatches-same :
        (s s' : Foreign) → IsSame s s' → AreWatches hash_ptr n s → AreWatches hash_ptr n s'
    AreWatches-same s s' h v =
        AreWatches-look s s' h.instrumentors
          (λ x.
            let one =
              ap (λ (w : ℕ → ForeignWatch). w (s'.containers x.node)) h.watches
              ∙ ap (λ (c : ℕ → ℕ). s.watches (c x.node)) h.containers in
            (ap (λ (w : ForeignWatch). w.id_elem) one, ap (λ (w : ForeignWatch). w.tie_elem) one))
          v

    pub find_by_id-same :
        (s s' : Foreign)
        → s'.instrumentors ≡ s.instrumentors
        → s'.containers ≡ s.containers
        → (key : ℕ)
        → instrumentor_foreign_find_watch_data_by_id hash_ptr n key s'
          ≡ instrumentor_foreign_find_watch_data_by_id hash_ptr n key s
    find_by_id-same s s' same same₂ key =
        find_by_id-around hash_ptr n key s'
        ∙ ap (λ (c : ℕ → ℕ). around c (find_elem hash_ptr (s'.instrumentors n).ids_table key)) same₂
        ∙ ap
            (λ (i : ℕ → ForeignInstrumentor).
              around s.containers (find_elem hash_ptr (i n).ids_table key))
            same
        ∙ sym (find_by_id-around hash_ptr n key s)

    -- The addresses of a new watch are those of no other.
    pub record IsNewWatch (p : ForeignAddresses) (s : Foreign) : Type 0 where
      pub id_node : has_node p.id_node (elements (s.instrumentors n).ids_table.heads) ≡ false
      pub tie_node : has_node p.tie_node (elements (s.instrumentors n).ties_table.heads) ≡ false
      pub others :
          (id : ℕ) (e : Elem)
          → find_elem hash_ptr (s.instrumentors n).ids_table id ≡ some e
          → ((e.node == p.tie_node) ≡ false)
            × ((e.node == p.ops_p_node) ≡ false)
            × ((s.containers e.node == p.watch_data) ≡ false)

    module _ (bounded : Bounded hash_ptr) (p : ForeignAddresses) (id tie ops_p f : ℕ) (s : Foreign)
        (v : AreWatches hash_ptr n s) (new : IsNewWatch p s)
        (absent : find_elem hash_ptr (s.instrumentors n).ids_table id ≡ none) where
      abbrev d : ForeignWatch
      d = new_watch hash_ptr p id tie ops_p f

      -- The state with the new watch data, before the additions.
      abbrev entered : Foreign
      entered = record s {
        watches = at s.watches p.watch_data d;
        containers =
            at (at (at s.containers p.id_node p.watch_data) p.tie_node p.watch_data) p.ops_p_node
              p.watch_data;
      }

      at_new : watch_at hash_ptr n entered d.id_elem ≡ d
      at_new =
          ap entered.watches (placed s.containers p.id_node p.tie_node p.ops_p_node p.watch_data)
          ∙ rw (==-refl p.watch_data) refl

      container_old :
          (key : ℕ) (x : Elem)
          → find_elem hash_ptr (s.instrumentors n).ids_table key ≡ some x
          → (entered.containers x.node ≡ s.containers x.node)
            × ((s.containers x.node == p.watch_data) ≡ false)
      container_old key x found =
          let there = found-has_node hash_ptr bounded _ v.ids key x found in
          let (away₂, away₃, elsewhere) = new.others key x found in
          let away : (x.node == p.id_node) ≡ false = elim (Bool-cases (x.node == p.id_node)) [
            | inr differs ↦ differs
            | inl one ↦
                let node : x.node ≡ p.id_node = (==_iff _ _).0 one in
                absurd (
                  cc (
                    sym there
                    ∙ ap (λ (m : ℕ). has_node m (elements (s.instrumentors n).ids_table.heads)) node
                    ∙ new.id_node))
          ] in
          (rw (away₃, away₂, away) refl, elsewhere)

      at_old :
          (key : ℕ) (x : Elem)
          → find_elem hash_ptr (s.instrumentors n).ids_table key ≡ some x
          → watch_at hash_ptr n entered x ≡ watch_at hash_ptr n s x
      at_old key x found =
          let (there, elsewhere) = container_old key x found in
          ap entered.watches there ∙ rw elsewhere refl

      around_entered :
          (key : ℕ)
          → around entered.containers (
              if id == key
              then some d.id_elem
              else find_elem hash_ptr (s.instrumentors n).ids_table key)
            ≡ (if id == key
                then some p.watch_data
                else instrumentor_foreign_find_watch_data_by_id hash_ptr n key s)
      around_entered key = elim (Bool-cases (id == key)) [
        | inl here ↦ rw here (
            ap (λ (w : ℕ). some w)
              (placed s.containers p.id_node p.tie_node p.ops_p_node p.watch_data))
        | inr away ↦
            rw (away, find_by_id-around hash_ptr n key s)
              (around_old (find_elem hash_ptr (s.instrumentors n).ids_table key) refl)
      ]
        where
          around_old :
              (found : Option Elem)
              → find_elem hash_ptr (s.instrumentors n).ids_table key ≡ found
              → around entered.containers found ≡ around s.containers found
          around_old none e = refl
          around_old (some x) e = ap (λ (w : ℕ). some w) (container_old key x e).0

      pub added-AreWatches :
          (r : Code × Foreign)
          → Adds n d entered r
          → AreWatches hash_ptr n r.1
            × ((key : ℕ)
                → instrumentor_foreign_find_watch_data_by_id hash_ptr n key r.1 ≡ (
                    if id == key
                    then some p.watch_data
                    else instrumentor_foreign_find_watch_data_by_id hash_ptr n key s))
      added-AreWatches r a =
          let ids = (s.instrumentors n).ids_table in
          let ties = (s.instrumentors n).ties_table in
          let tied =
            entered-AreTied hash_ptr bounded ids ties (watch_at hash_ptr n s)
              (watch_at hash_ptr n entered) d.id_elem d.tie_elem a.k a.k₂ v absent new.id_node
              new.tie_node (ap (λ (w : ForeignWatch). w.id_elem) at_new)
              (ap (λ (w : ForeignWatch). w.tie_elem) at_new) at_old in
          (
            subst
                (λ (t : Table).
                  AreTied hash_ptr t (r.1.instrumentors n).ties_table (watch_at hash_ptr n r.1))
                (sym a.ids)
                (subst
                  (λ (t : Table).
                    AreTied hash_ptr (add_elem hash_ptr ids d.id_elem a.k).1 t
                      (watch_at hash_ptr n r.1))
                  (sym a.ties)
                  (subst
                    (λ (c : ℕ → ℕ).
                      AreTied hash_ptr (add_elem hash_ptr ids d.id_elem a.k).1
                        (add_elem hash_ptr ties d.tie_elem a.k₂).1 (λ e. r.1.watches (c e.node)))
                    (sym a.containers)
                    (subst
                      (λ (w : ℕ → ForeignWatch).
                        AreTied hash_ptr (add_elem hash_ptr ids d.id_elem a.k).1
                          (add_elem hash_ptr ties d.tie_elem a.k₂).1
                          (λ e. w (entered.containers e.node)))
                      (sym a.watches) tied))),
            λ key.
                find_by_id-around hash_ptr n key r.1
                ∙ ap
                    (λ (c : ℕ → ℕ).
                      around c (find_elem hash_ptr (r.1.instrumentors n).ids_table key))
                    a.containers
                ∙ ap (λ (t : Table). around entered.containers (find_elem hash_ptr t key)) a.ids
                ∙ ap (around entered.containers) (
                    (add_elem-Gains hash_ptr bounded ids v.ids d.id_elem a.k absent
                        new.id_node).finds
                      key)
                ∙ around_entered key,
          )
