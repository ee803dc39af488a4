-- ===== src/Instrumentor/Destroyed.antt =====
-- Destroying the normal instrumentor: every watch gives its reference back.
use kedr_callback_operations.Prelude.{
  ℕ, ◌-◌, ◌<◌, ◌≡◌, refl, sym, ap, ◌∙◌, subst, Bool, true, false, none, List, [], ◌∷◌, ◌++◌, map,
  append-nil, append_assoc, arith, Option-cases, inl, inr, ==-refl, if◌then◌else◌,
}
use kedr_callback_operations.Kernel.{Kernel, bump, kfree}
use kedr_callback_operations.HashTable
use kedr_callback_operations.HashTable.{Table, find_in, find_elem}
use kedr_callback_operations.HashTable.Buckets.{Elem, elements}
use kedr_callback_operations.HashTable.Valid.{Bounded}
use kedr_callback_operations.HashTable.Lookup.{find_elem-find_in}
use kedr_callback_operations.HashTable.Destroy.{each, is_cons, destroy-each, destroy-warns}
use kedr_callback_operations.HashTable.Unique.{tally}
use kedr_callback_operations.Instrumentor.{Instrumentor}
use kedr_callback_operations.Instrumentor.Data.{instrument_data_unref}
use kedr_callback_operations.Instrumentor.Create.{
  Destroyed, destroy_others, instrumentor_destroy_watch_data_callback,
  kedr_coi_instrumentor_destroy,
}
use kedr_callback_operations.Instrumentor.Tables.{own_elem}
use kedr_callback_operations.Instrumentor.Tracked.{IsTracked}
use kedr_callback_operations.Instrumentor.Release.{unref-IsTracked}
use kedr_callback_operations.Instrumentor.Watching.{
  IsWatching, IsTracked-ext, IsTracked-frame, unref-IsSame,
}

-- The objects in the order of the buckets, if they are traced.
abbrev pub traced_objects : Bool → List Elem → List ℕ
traced_objects trace es = if trace then map (λ (e : Elem). e.key) es else []

module _ (hash_ptr : ℕ → ℕ → ℕ) (bounded : Bounded hash_ptr) where
  empty_of_none : (es : List Elem) → ((key : ℕ) → find_in key es ≡ none) → is_cons es ≡ false
  unfolding find_in
  empty_of_none [] h = refl
  empty_of_none (e ∷ es) h = ground (arith, h e.key, ==-refl e.key)

  -- Without references no structure is in the tables.
  absent_dir : (m : Instrumentor) (t : IsTracked hash_ptr (λ a. 0) m) (key : ℕ) → t.dir key ≡ none
  absent_dir m t key = elim (Option-cases (t.dir key)) [
    | inl absent ↦ absent
    | inr (d, found) ↦ absurd (omega (arith, t.live key d found))
  ]

  released-lem :
      (m : Instrumentor)
      → IsTracked hash_ptr (λ a. 0) m
      → is_cons (elements m.state.idata_table.heads) ≡ false
  released-lem m t = empty_of_none (elements m.state.idata_table.heads) (λ key.
      sym (find_elem-find_in hash_ptr bounded m.state.idata_table key t.tabled.own.valid)
      ∙ t.tabled.own_finds key
      ∙ ap own_elem (absent_dir m t key))

  -- The state behind the callbacks for a list of watches.
  pub record Freed (trace : Bool) (es : List Elem) (traced : List ℕ) (m : Instrumentor)
      (r : List ℕ × Instrumentor) : Type 0 where
    pub tracked : IsTracked hash_ptr (λ a. 0) r.1
    pub traces : r.0 ≡ traced ++ traced_objects trace es
    pub foreign : r.1.foreign_ops_p_table ≡ m.foreign_ops_p_table
    pub pointers : r.1.pointers ≡ m.pointers

  traced-cons :
      (trace : Bool) (e : Elem) (es : List Elem) (traced : List ℕ)
      → (if trace then traced ++ e.key ∷ [] else traced) ++ traced_objects trace es
        ≡ traced ++ traced_objects trace (e ∷ es)
  traced-cons true e es traced = append_assoc traced (e.key ∷ []) (map (λ (x : Elem). x.key) es)
  traced-cons false e es traced = refl

  each-Freed :
      (trace : Bool) (es : List Elem) (traced : List ℕ) (m : Instrumentor)
      → IsTracked hash_ptr (λ a. tally m.watches a es) m
      → Freed trace es traced m
          (each (instrumentor_destroy_watch_data_callback hash_ptr trace) es (traced, m))
  unfolding each instrumentor_destroy_watch_data_callback
  each-Freed true [] traced m t = record {
    tracked = t;
    traces = sym (append-nil traced);
    foreign = refl;
    pointers = refl;
  }
  each-Freed false [] traced m t = record {
    tracked = t;
    traces = sym (append-nil traced);
    foreign = refl;
    pointers = refl;
  }
  each-Freed trace (e ∷ es) traced m t =
      let a = m.watches e.node in
      let m₁ = instrument_data_unref hash_ptr a m in
      let s = (unref-IsSame hash_ptr (λ c. 1) a m).0 in
      let alive : 0 < tally m.watches a (e ∷ es) = rw (==-refl a) (omega arith) in
      let t₁ = (unref-IsTracked hash_ptr bounded _ m t a alive).0 in
      let fewer : (c : ℕ)
          → bump (λ b. tally m.watches b (e ∷ es)) a (λ n. n - 1) c ≡ tally m₁.watches c es =
        λ c. ground (arith, ap (λ (w : ℕ → ℕ). tally w c es) s.watches) in
      let m₂ : Instrumentor = record m₁ {
        state = record (m₁.state) { kernel = kfree m₁.state.kernel };
      } in
      let t₂ : IsTracked hash_ptr (λ c. tally m₁.watches c es) m₂ =
        IsTracked-frame hash_ptr _ m₁ m₁.objects_table m₁.watches m₁.pointers
          (kfree m₁.state.kernel) (IsTracked-ext hash_ptr _ _ m₁ fewer t₁) in
      let traced' = if trace then traced ++ e.key ∷ [] else traced in
      let rest = each-Freed trace es traced' m₂ t₂ in
      record {
        tracked = rest.tracked;
        traces = rest.traces ∙ traced-cons trace e es traced;
        foreign = rest.foreign ∙ s.foreign;
        pointers = rest.pointers ∙ s.pointers;
      }

  abbrev Ends : Bool → Instrumentor → Destroyed → Type 0
  Ends trace m d =
      (d.traced ≡ traced_objects trace (elements m.objects_table.heads))
      × ((a : ℕ) → (d.rest.idatas a).refs ≡ 0)
      × ((key : ℕ) → find_elem hash_ptr d.rest.state.idata_table key ≡ none)
      × (d.warned ≡ (false, is_cons (elements m.foreign_ops_p_table.heads), false))

  others-Ends :
      (trace : Bool) (m : Instrumentor) (traced : List ℕ) (r : Instrumentor)
      → traced ≡ traced_objects trace (elements m.objects_table.heads)
      → IsTracked hash_ptr (λ a. 0) r
      → r.foreign_ops_p_table ≡ m.foreign_ops_p_table
      → Ends trace m (destroy_others false traced r)
  unfolding destroy_others
  others-Ends trace m traced r e t foreign =
      let k = kfree r.state.kernel in
      let first = destroy-warns r.foreign_ops_p_table kfree k in
      let second =
        destroy-warns r.state.idata_table kfree
          (HashTable.destroy none r.foreign_ops_p_table kfree k).1 in
      let warned₂ = ap (λ (x : Bool × Kernel). x.0) first in
      let warned₃ = ap (λ (x : Bool × Kernel). x.0) second in
      (
        e,
        t.counted,
        (λ key. t.tabled.own_finds key ∙ ap own_elem (absent_dir r t key)),
        ap
              (λ (b : Bool). (
                false,
                b,
                (HashTable.destroy none r.state.idata_table kfree
                    (HashTable.destroy none r.foreign_ops_p_table kfree k).1).0,
              ))
              warned₂
            ∙ ap (λ (b : Bool). (false, is_cons (elements r.foreign_ops_p_table.heads), b))
                (warned₃ ∙ released-lem r t)
            ∙ ap (λ (x : Table). (false, is_cons (elements x.heads), false)) foreign,
      )

  -- Destroying an instrumentor that satisfies the invariant traces each watched object once, if it
  -- traces at all, leaves no reference to any structure and no element in the table of operations,
  -- and warns exactly if a foreign watch is left.
  pub destroy-released :
      (trace : Bool) (m : Instrumentor)
      → IsWatching hash_ptr m
      → let d = kedr_coi_instrumentor_destroy hash_ptr trace m in
        (d.traced ≡ traced_objects trace (elements m.objects_table.heads))
        × ((a : ℕ) → (d.rest.idatas a).refs ≡ 0)
        × ((key : ℕ) → find_elem hash_ptr d.rest.state.idata_table key ≡ none)
        × (d.warned ≡ (false, is_cons (elements m.foreign_ops_p_table.heads), false))
  unfolding kedr_coi_instrumentor_destroy
  destroy-released trace m v =
      let callback = instrumentor_destroy_watch_data_callback hash_ptr trace in
      let es = elements m.objects_table.heads in
      let f = each-Freed trace es [] m v.tracked in
      let ends = destroy-each callback m.objects_table (λ s. s) ([], m) in
      subst (λ (r : Bool × (List ℕ × Instrumentor)). Ends trace m (destroy_others r.0 r.1.0 r.1.1))
        (sym ends) (others-Ends trace m (each callback es ([], m)).0 _ f.traces f.tracked f.foreign)
