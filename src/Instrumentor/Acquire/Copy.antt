-- ===== src/Instrumentor/Acquire/Copy.antt =====
-- A new structure with a copy.
use kedr_callback_operations.Prelude.{
  ℕ, ◌+◌, ◌<◌, ◌≡◌, ◌≢◌, refl, sym, ap, subst, true, false, Option, none, some, arith, Bool-cases,
  inl, inr, ◌==◌, ==-refl, if◌then◌else◌,
}
use kedr_callback_operations.Kernel.{Kernel, Code, fail, enomem, ebusy, bump}
use kedr_callback_operations.HashTable.{elem_init}
use kedr_callback_operations.HashTable.Buckets.{elements}
use kedr_callback_operations.HashTable.Valid.{Bounded}
use kedr_callback_operations.HashTable.Registry.{has_node}
use kedr_callback_operations.Instrumentation.Replace.{Operations}
use kedr_callback_operations.Instrumentation.Place.{
  InstrumentorState, InstrumentDataSearch, UcInstrumentData, instrument_data_search_init,
  instrumentor_add_data_search, instrumentor_remove_data_search, uc_created, uc_added,
  uc_idata_create, uc_idata_ops_my_operations,
}
use kedr_callback_operations.Instrumentor.{
  Mechanism, use_copy, InstrumentData, Instrumentor, Addresses, at,
}
use kedr_callback_operations.Instrumentor.Data.{
  my_operations, get_orig_operations, uc_made, create_copy,
}
use kedr_callback_operations.Instrumentor.Tables.{
  Directory, TabledIn, Entering, refused, entered, add_data_search-Entering,
  remove_data_search-Tabled,
}
use kedr_callback_operations.Instrumentor.Tracked.{IsTracked}
use kedr_callback_operations.Instrumentor.Grow.{
  kinds_of, Leads-new, Leads-grow, Placed-grow, Owns-grow, Owns-more, new-IsTracked,
}
use mathlib.Core.Path.{fun_ext}
use kedr_callback_operations.Instrumentor.Acquire.{
  IsFresh, Gets, made, got, lost, refused_first, refused_second, granted, state-IsSame, with_tables,
  new-IsSame,
}

module _ (hash_ptr : ℕ → ℕ → ℕ) (bounded : Bounded hash_ptr) (held : ℕ → ℕ) (m : Instrumentor)
    (t : IsTracked hash_ptr held m) where
  module _ (p : Addresses) (ops : ℕ) (f : IsFresh held p m) where
    abbrev first : InstrumentDataSearch
    first = instrument_data_search_init p.node p.node_global ops

    abbrev second : InstrumentDataSearch
    second = instrument_data_search_init p.node₂ p.node_global₂ p.ops_repl

    abbrev CopyGets : Code × Option UcInstrumentData × InstrumentorState → Type 0
    CopyGets r = Gets hash_ptr held m p ops (uc_made hash_ptr m p.idata r)

    -- Behind the second search element; the first one is taken out again on an error.
    uc_created-Gets :
        (copy : Operations) (s : InstrumentorState) (r : Code × InstrumentorState)
        → TabledIn hash_ptr (at t.dir ops (some first)) s
        → s.memory ≡ m.state.memory
        → t.dir ops ≡ none
        → has_node p.node₂ (elements s.idata_table.heads) ≡ false
        → Entering hash_ptr (at t.dir ops (some first)) second s r
        → CopyGets (uc_created hash_ptr m.replacements copy first second r)
    unfolding uc_created uc_made instrument_data_search_init elem_init my_operations
        uc_idata_ops_my_operations instrumentor_remove_data_search get_orig_operations
    uc_created-Gets copy s _ tab old absent free₂ (refused e found) =
        let gone =
          remove_data_search-Tabled hash_ptr bounded (at t.dir ops (some first)) first s tab
            (rw (==-refl ops) refl) in
        let back : at (at t.dir ops (some first)) ops none ≡ t.dir =
          fun_ext (λ key. ground (arith, absent)) in
        lost ebusy
          (with_tables hash_ptr held m t _ (
            subst
              (λ (dir : Directory).
                TabledIn hash_ptr dir (instrumentor_remove_data_search hash_ptr first s))
              back gone))
          (state-IsSame hash_ptr held m t _)
    uc_created-Gets copy s _ tab old absent free₂ (entered free absent₂ tab₂ occ occ') =
        let a = p.idata in
        let dir = at t.dir ops (some first) in
        let searches = at m.searches p.node a in
        let held' = bump held a (λ n. n + 1) in
        let kind : Mechanism =
          use_copy (record { ops_orig_elem = first; ops_repl_elem = second }) in
        let new : InstrumentData = record { refs = 1; i_ops = kind } in
        let kinds = kinds_of (at m.idatas a new) in
        let apart : ops ≢ p.ops_repl = λ e. ground (arith, absent₂, e) in
        let alive : 0 < held' a = rw (==-refl a) (omega arith) in
        let mine : my_operations (kinds a) ops ≡ true = rw (kinds_of, ==-refl a) (ground arith) in
        let mine₂ : my_operations (kinds a) p.ops_repl ≡ true =
          rw (kinds_of, ==-refl a) (ground arith) in
        let lead = Leads-new hash_ptr bounded t.dir m.state m.searches first a t.tabled f.node in
        let lead₂ = Leads-new hash_ptr bounded dir s searches second a tab free₂ in
        let grow = Placed-grow hash_ptr bounded t.dir m.state m.searches first a t.tabled f.node in
        let grow₂ = Placed-grow hash_ptr bounded dir s searches second a tab free₂ in
        let owns =
          Owns-grow hash_ptr bounded t.dir m.state m.searches first a t.tabled f.node held' kinds
            alive mine (Owns-more hash_ptr held m t a new f.idata) in
        let owns₂ =
          Owns-grow hash_ptr bounded dir s searches second a tab free₂ held' kinds alive mine₂
            owns in
        got a
          (new-IsTracked hash_ptr held m t a kind _ _ _ f.idata tab₂
            (
              Leads-grow hash_ptr bounded dir s searches second a tab free₂ a first absent₂ lead,
              lead₂,
              apart,
            )
            (λ b kd q. grow₂ b kd absent₂ (grow b kd absent q)) owns₂)
          (new-IsSame hash_ptr held m t a new _ _ f.idata) mine
          (made kind (rw (==-refl a) refl) refl
            (λ addr off distinct other. rw other (ap (λ (f : ℕ → Operations). f addr off) old)))

    uc_added-Gets :
        (copy : Operations) (k : Kernel) (r : Code × InstrumentorState)
        → Entering hash_ptr t.dir first (record (m.state) { kernel = k }) r
        → CopyGets (uc_added hash_ptr m.replacements copy first second r)
    unfolding uc_added uc_made instrument_data_search_init elem_init
    uc_added-Gets copy k _ (refused e found) =
        lost ebusy (with_tables hash_ptr held m t _ t.tabled) (state-IsSame hash_ptr held m t _)
    uc_added-Gets copy k _ (entered {global} {own} free absent tab occ occ') =
        let s : InstrumentorState = record (m.state) {
          ops_table_global = global;
          idata_table = own;
          kernel = k;
        } in
        let free₂ : has_node p.node₂ (elements own.heads) ≡ false =
          ground (arith, occ p.node₂, f.apart, f.node₂) in
        let free_global₂ : has_node p.node_global₂ (elements global.heads) ≡ false =
          ground (arith, occ' p.node_global₂, f.apart_global, f.node_global₂) in
        uc_created-Gets copy s _ tab refl absent free₂ (
          add_data_search-Entering hash_ptr bounded (at t.dir ops (some first)) second s tab
            (record { own_free = free₂; global_free = free_global₂; one_key = refl }))

    pub create_copy-Gets : Gets hash_ptr held m p ops (create_copy hash_ptr p ops m)
    unfolding create_copy uc_idata_create uc_made instrument_data_search_init elem_init
    create_copy-Gets =
        let n = m.state.kernel.asked in
        let no_memory : (k : Kernel)
            → CopyGets (fail enomem, none, record (m.state) { kernel = k }) =
          λ k.
            lost enomem (with_tables hash_ptr held m t _ t.tabled)
              (state-IsSame hash_ptr held m t _) in
        let k₁ = refused_first m.state.kernel in
        let k₂ = refused_second m.state.kernel in
        let k₃ = granted m.state.kernel in
        let s : InstrumentorState = record (m.state) { kernel = k₃ } in
        let copy : Operations = if ops == 0 then (λ off. 0) else m.state.memory ops in
        let made =
          uc_idata_create hash_ptr m.replacements p.node p.node_global p.node₂ p.node_global₂ ops
            p.ops_repl m.state in
        elim (Bool-cases (m.state.kernel.answer n)) [
          | inr full ↦
              let e : made ≡ (fail enomem, none, record (m.state) { kernel = k₁ }) = rw full refl in
              subst (λ r. CopyGets r) (sym e) (no_memory k₁)
          | inl ok ↦ elim (Bool-cases (m.state.kernel.answer (n + 1))) [
            | inr full ↦
                let e : made ≡ (fail enomem, none, record (m.state) { kernel = k₂ }) =
                  rw (ok, full) refl in
                subst (λ r. CopyGets r) (sym e) (no_memory k₂)
            | inl ok₂ ↦
                let e : made
                    ≡ uc_added hash_ptr m.replacements copy first second
                        (instrumentor_add_data_search hash_ptr first s) =
                  rw (ok, ok₂) refl in
                subst (λ r. CopyGets r) (sym e)
                  (uc_added-Gets copy k₃ _ (
                    add_data_search-Entering hash_ptr bounded t.dir first s t.tabled
                      (record { own_free = f.node; global_free = f.node_global; one_key = refl })))
          ]
        ]
