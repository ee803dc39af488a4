-- ===== src/Instrumentor/Acquire/Place.antt =====
-- A new structure in place.
use kedr_callback_operations.Prelude.{
  ℕ, ◌+◌, ◌≡◌, refl, sym, subst, Option, none, arith, Bool-cases, inl, inr, ==-refl,
}
use kedr_callback_operations.Kernel.{Kernel, Code, fail, enomem, ebusy, bump}
use kedr_callback_operations.HashTable.{elem_init}
use kedr_callback_operations.HashTable.Valid.{Bounded}
use kedr_callback_operations.Instrumentation.Place.{
  InstrumentorState, ApInstrumentData, instrument_data_search_init, instrumentor_add_data_search,
  ap_created, ap_idata_create, ap_idata_ops_my_operations,
}
use kedr_callback_operations.Instrumentation.Undo.{write-kept, restored}
use kedr_callback_operations.Instrumentor.{
  Mechanism, at_place, InstrumentData, Instrumentor, Addresses, at,
}
use kedr_callback_operations.Instrumentor.Data.{
  my_operations, get_orig_operations, ap_made, create_at_place,
}
use kedr_callback_operations.Instrumentor.Tables.{
  Entering, refused, entered, add_data_search-Entering,
}
use kedr_callback_operations.Instrumentor.Tracked.{IsTracked}
use kedr_callback_operations.Instrumentor.Grow.{
  kinds_of, Leads-new, Placed-grow, Owns-grow, Owns-more, new-IsTracked,
}
use kedr_callback_operations.Instrumentor.Acquire.{
  IsFresh, Gets, made, got, lost, refused_first, refused_second, granted, state-IsSame, with_tables,
  new-IsSame,
}

module _ (hash_ptr : ℕ → ℕ → ℕ) (bounded : Bounded hash_ptr) (held : ℕ → ℕ) (m : Instrumentor)
    (t : IsTracked hash_ptr held m) where
  module _ (p : Addresses) (ops : ℕ) (f : IsFresh held p m) where
    ap_created-Gets :
        (k : Kernel) (r : Code × InstrumentorState)
        → Entering hash_ptr t.dir
            (instrument_data_search_init p.node p.node_global ops)
            (record (m.state) { kernel = k })
            r
        → Gets hash_ptr held m p ops (
            ap_made hash_ptr m p.idata (
              ap_created hash_ptr m.replacements
                (instrument_data_search_init p.node p.node_global ops)
                r))
    unfolding ap_created ap_made instrument_data_search_init elem_init my_operations
        ap_idata_ops_my_operations get_orig_operations
    ap_created-Gets k _ (refused e found) =
        lost ebusy (with_tables hash_ptr held m t _ t.tabled) (state-IsSame hash_ptr held m t _)
    ap_created-Gets k _ (entered free absent tab occ occ') =
        let d = instrument_data_search_init p.node p.node_global ops in
        let grow =
          Placed-grow hash_ptr bounded t.dir m.state m.searches d p.idata t.tabled f.node in
        let lead = Leads-new hash_ptr bounded t.dir m.state m.searches d p.idata t.tabled f.node in
        let kind : Mechanism = at_place (record { ops_elem = d; ops_orig = m.state.memory ops }) in
        let new : InstrumentData = record { refs = 1; i_ops = kind } in
        let owns =
          Owns-grow hash_ptr bounded t.dir m.state m.searches d p.idata t.tabled f.node
            (bump held p.idata (λ n. n + 1)) (kinds_of (at m.idatas p.idata new))
            (rw (==-refl p.idata) (omega arith)) (rw (kinds_of, ==-refl p.idata) (==-refl ops))
            (Owns-more hash_ptr held m t p.idata new f.idata) in
        got p.idata
          (new-IsTracked hash_ptr held m t p.idata kind _ _ _ f.idata tab lead
            (λ b kd q. grow b kd absent q) owns)
          (new-IsSame hash_ptr held m t p.idata new _ _ f.idata)
          (rw (==-refl p.idata) (==-refl ops))
          (made kind (rw (==-refl p.idata) refl) refl (λ addr off distinct other.
            write-kept hash_ptr m.replacements ops m.state _ addr off
              (restored hash_ptr m.replacements ops m.state distinct)))

    pub create_at_place-Gets : Gets hash_ptr held m p ops (create_at_place hash_ptr p ops m)
    unfolding create_at_place ap_idata_create ap_made instrument_data_search_init elem_init
    create_at_place-Gets =
        let n = m.state.kernel.asked in
        let goal : Code × Option ApInstrumentData × InstrumentorState → Type 0 =
          λ r. Gets hash_ptr held m p ops (ap_made hash_ptr m p.idata r) in
        let no_memory : (k : Kernel) → goal (fail enomem, none, record (m.state) { kernel = k }) =
          λ k.
            lost enomem (with_tables hash_ptr held m t _ t.tabled)
              (state-IsSame hash_ptr held m t _) in
        let d = instrument_data_search_init p.node p.node_global ops in
        let s : InstrumentorState = record (m.state) { kernel = (granted m.state.kernel) } in
        let made = ap_idata_create hash_ptr m.replacements p.node p.node_global ops m.state in
        elim (Bool-cases (m.state.kernel.answer n)) [
          | inr full ↦
              let e : made ≡ (
                fail enomem,
                none,
                record (m.state) { kernel = (refused_first m.state.kernel) },
              ) =
                rw full refl in
              subst goal (sym e) (no_memory (refused_first m.state.kernel))
          | inl ok ↦ elim (Bool-cases (m.state.kernel.answer (n + 1))) [
            | inr full ↦
                let e : made ≡ (
                  fail enomem,
                  none,
                  record (m.state) { kernel = (refused_second m.state.kernel) },
                ) =
                  rw (ok, full) refl in
                subst goal (sym e) (no_memory (refused_second m.state.kernel))
            | inl ok₂ ↦
                let e : made
                    ≡ ap_created hash_ptr m.replacements d
                        (instrumentor_add_data_search hash_ptr d s) =
                  rw (ok, ok₂) refl in
                subst goal (sym e) (
                  ap_created-Gets (granted m.state.kernel) _ (
                    add_data_search-Entering hash_ptr bounded t.dir d s t.tabled
                      (record { own_free = f.node; global_free = f.node_global; one_key = refl })))
          ]
        ]
