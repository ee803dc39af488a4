-- ===== src/Foreign/Watches.antt =====
-- The tables of a foreign instrumentor of core/kedr_coi_instrumentors.c: each watch stands in that of
-- the ids and in that of the ties. Ids are distinct; watches may share a tie.
use kedr_callback_operations.Prelude.{
  ℕ, ◌≡◌, sym, ap, ◌∙◌, subst, false, none, some, arith, Bool-cases, inl, inr, ◌==◌, ==-refl,
  ==_iff, if◌then◌else◌,
}
use kedr_callback_operations.Kernel.{Kernel}
use kedr_callback_operations.HashTable.{Table, find_elem, remove_elem}
use kedr_callback_operations.HashTable.Buckets.{Elem, elements, unlink_in}
use kedr_callback_operations.HashTable.Valid.{Bounded, IsValid}
use kedr_callback_operations.HashTable.Registry.{DistinctNodes, Has, Has-unlink_in, perm-unlink_in}
use kedr_callback_operations.HashTable.Update.{remove_elem-unlink_in}
use kedr_callback_operations.HashTable.Unique.{
  IsUnique, Loses, remove_elem-Loses, DistinctNodes-perm,
}
use kedr_callback_operations.Foreign.{ForeignWatch, ForeignInstrumentor, Foreign}
use kedr_callback_operations.Foreign.Kept.{unref-Keeps}
use kedr_callback_operations.Foreign.Watch.{
  instrument_data_foreign_unref, instrumentor_foreign_destroy_watch_data,
}

module _ (hash_ptr : ℕ → ℕ → ℕ) where
  -- The watch data that `look` gives for the elements of `ids` stand in both tables.
  pub record AreTied (ids_table ties_table : Table) (look : Elem → ForeignWatch) : Type 0 where
    pub ids : IsUnique hash_ptr ids_table
    pub ties_valid : IsValid hash_ptr ties_table
    pub ties_nodes : DistinctNodes (elements ties_table.heads)
    pub own_id :
        (id : ℕ) (e : Elem)
        → find_elem hash_ptr ids_table id ≡ some e
        → ((look e).id_elem ≡ e) × (e.key ≡ id)
    pub own_tie :
        (id : ℕ) (e : Elem)
        → find_elem hash_ptr ids_table id ≡ some e
        → Has (look e).tie_elem (elements ties_table.heads)
    -- Two watches do not have one element for their ties.
    pub apart :
        (id id' : ℕ) (e e' : Elem)
        → find_elem hash_ptr ids_table id ≡ some e
        → find_elem hash_ptr ids_table id' ≡ some e'
        → (look e).tie_elem.node ≡ (look e').tie_elem.node
        → id ≡ id'

module _ (hash_ptr : ℕ → ℕ → ℕ) (n : ℕ) where
  -- The watch data around an element.
  abbrev pub watch_at : Foreign → Elem → ForeignWatch
  watch_at s e = s.watches (s.containers e.node)

  abbrev pub AreWatches : Foreign → Type 0
  AreWatches s =
      AreTied hash_ptr (s.instrumentors n).ids_table (s.instrumentors n).ties_table (watch_at s)

  -- What the destruction of a watch leaves, whatever the kernel answers to the two tables.
  pub record Destroys (w : ℕ) (s s' : Foreign) : Type 0 where
    pub k : Kernel
    pub k₂ : Kernel
    pub ids :
        (s'.instrumentors n).ids_table
        ≡ (remove_elem hash_ptr (s.instrumentors n).ids_table (s.watches w).id_elem k).0
    pub ties :
        (s'.instrumentors n).ties_table
        ≡ (remove_elem hash_ptr (s.instrumentors n).ties_table (s.watches w).tie_elem k₂).0
    pub containers : s'.containers ≡ s.containers
    pub watches : s'.watches ≡ s.watches
    pub pointers : s'.normal.pointers ≡ s.normal.pointers

  pub destroy-Destroys :
      (w : ℕ) (s : Foreign) → Destroys w s (instrumentor_foreign_destroy_watch_data hash_ptr n w s)
  unfolding instrumentor_foreign_destroy_watch_data
  destroy-Destroys w s =
      let d = s.watches w in
      let s₁ = instrument_data_foreign_unref hash_ptr n d.idata_foreign s in
      let v = unref-Keeps hash_ptr n d.idata_foreign s in
      let kernel = s₁.normal.state.kernel in
      let kernel₂ = (remove_elem hash_ptr (s₁.instrumentors n).ids_table d.id_elem kernel).1 in
      record {
        k = kernel;
        k₂ = kernel₂;
        ids = rw (==-refl n) (
            ap
              (λ (t : ℕ → ForeignInstrumentor).
                (remove_elem hash_ptr (t n).ids_table d.id_elem kernel).0)
              v.instrumentors);
        ties = rw (==-refl n) (
            ap
              (λ (t : ℕ → ForeignInstrumentor).
                (remove_elem hash_ptr (t n).ties_table d.tie_elem kernel₂).0)
              v.instrumentors);
        containers = v.containers;
        watches = v.watches;
        pointers = v.pointers;
      }

  module _ (bounded : Bounded hash_ptr) (id : ℕ) (s s' : Foreign) (v : AreWatches s) (e : Elem)
      (found : find_elem hash_ptr (s.instrumentors n).ids_table id ≡ some e)
      (d : Destroys (s.containers e.node) s s') where
    -- The table of the ids without the watch.
    pub destroy-ids : Loses hash_ptr e (s.instrumentors n).ids_table (s'.instrumentors n).ids_table
    destroy-ids =
        let (own, at_id) = v.own_id id e found in
        let t = (s.instrumentors n).ids_table in
        let removed : (s'.instrumentors n).ids_table ≡ (remove_elem hash_ptr t e d.k).0 =
          subst (λ (x : Elem). (s'.instrumentors n).ids_table ≡ (remove_elem hash_ptr t x d.k).0)
            own d.ids in
        let there : find_elem hash_ptr t e.key ≡ some e =
          subst (λ (x : ℕ). find_elem hash_ptr t x ≡ some e) (sym at_id) found in
        subst (Loses hash_ptr e t) (sym removed)
          (remove_elem-Loses hash_ptr bounded t v.ids e d.k there)

    -- The table of the ties without it, the others in their order.
    pub destroy-ties :
        IsValid hash_ptr (s'.instrumentors n).ties_table
        × (elements (s'.instrumentors n).ties_table.heads
            ≡ unlink_in
                (watch_at s e).tie_elem.node
                (elements (s.instrumentors n).ties_table.heads))
    destroy-ties =
        let t = (s.instrumentors n).ties_table in
        let tie = (watch_at s e).tie_elem in
        subst
          (λ (x : Table).
            IsValid hash_ptr x × (elements x.heads ≡ unlink_in tie.node (elements t.heads)))
          (sym d.ties)
          (remove_elem-unlink_in hash_ptr bounded t tie d.k₂ v.ties_valid v.ties_nodes
            (v.own_tie id e found))

    same-watch : (x : Elem) → watch_at s' x ≡ watch_at s x
    same-watch x =
        ap (λ (ws : ℕ → ForeignWatch). ws (s'.containers x.node)) d.watches
        ∙ ap (λ (c : ℕ → ℕ). s.watches (c x.node)) d.containers

    still_found :
        (key : ℕ) (e' : Elem)
        → find_elem hash_ptr (s'.instrumentors n).ids_table key ≡ some e'
        → ((id == key) ≡ false) × (find_elem hash_ptr (s.instrumentors n).ids_table key ≡ some e')
    still_found key e' h =
        let at_id = (v.own_id id e found).1 in
        let both : (if id == key
              then none
              else find_elem hash_ptr (s.instrumentors n).ids_table key)
            ≡ some e' =
          rw (sym at_id) (sym (destroy-ids.finds key) ∙ h) in
        elim (Bool-cases (id == key)) [
          | inl here ↦ absurd (ground (arith, here, both))
          | inr away ↦ (away, ground (arith, away, both))
        ]

    pub destroy-AreWatches : AreWatches s'
    destroy-AreWatches =
        let ties = elements (s.instrumentors n).ties_table.heads in
        let own = (watch_at s e).tie_elem in
        let (valid, rest) = destroy-ties in
        record {
          ids = destroy-ids.unique;
          ties_valid = valid;
          ties_nodes =
              subst DistinctNodes (sym rest)
                (DistinctNodes-perm (perm-unlink_in own ties v.ties_nodes (v.own_tie id e found))
                  v.ties_nodes).1;
          own_id = λ key e' h.
              let (away, h') = still_found key e' h in
              let (own', at_key) = v.own_id key e' h' in
              (ap (λ (w : ForeignWatch). w.id_elem) (same-watch e') ∙ own', at_key);
          own_tie = λ key e' h.
              let (away, h') = still_found key e' h in
              let tie = (watch_at s e').tie_elem in
              let other : (tie.node == own.node) ≡ false =
                elim (Bool-cases (tie.node == own.node)) [
                  | inr differs ↦ differs
                  | inl same ↦
                      let one = v.apart id key e e' found h' (sym ((==_iff _ _).0 same)) in
                      absurd (cc (sym away ∙ (==_iff id key).1 one))
                ] in
              subst
                (λ (w : ForeignWatch).
                  Has w.tie_elem (elements (s'.instrumentors n).ties_table.heads))
                (sym (same-watch e'))
                (subst (Has tie) (sym rest)
                  (Has-unlink_in own.node tie ties (v.own_tie key e' h') other));
          apart = λ key key' x x' h h' same.
              v.apart key key' x x' (still_found key x h).1 (still_found key' x' h').1 (
                sym (ap (λ (w : ForeignWatch). w.tie_elem.node) (same-watch x))
                ∙ same
                ∙ ap (λ (w : ForeignWatch). w.tie_elem.node) (same-watch x'));
        }
