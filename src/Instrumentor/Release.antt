-- ===== src/Instrumentor/Release.antt =====
-- instrument_data_unref: the last reference takes the structure out of the tables.
use kedr_callback_operations.Prelude.{
  ℕ, ◌-◌, ◌<◌, ◌≡◌, ◌≢◌, sym, ap, ◌∙◌, subst, true, false, none, some, List, arith, Bool-cases, inl,
  inr, ◌==◌,
}
use kedr_callback_operations.Kernel.{bump}
use kedr_callback_operations.Payloads.Types.{Replacement}
use kedr_callback_operations.HashTable.Valid.{Bounded}
use kedr_callback_operations.Instrumentation.Place.{
  InstrumentorState, InstrumentDataSearch, ap_idata_destroy, ap_idata_destroy_norestore,
  uc_idata_destroy, ap_idata_ops_my_operations, uc_idata_ops_my_operations,
  instrumentor_remove_data_search,
}
use kedr_callback_operations.Instrumentor.{Mechanism, at_place, use_copy, Instrumentor, at}
use kedr_callback_operations.Instrumentor.Data.{
  my_operations, with_refs, destroy_idata, destroy_idata_norestore, instrument_data_unref,
  instrument_data_unref_norestore,
}
use kedr_callback_operations.Instrumentor.Tables.{Directory, TabledIn, remove_data_search-Tabled}
use kedr_callback_operations.Instrumentor.Tracked.{Leads, Placed, IsTracked, with_refs-IsTracked}

-- The directory without the entries of a structure.
abbrev pub without : Directory → Mechanism → Directory
without dir (at_place d) = at dir d.ops_elem.ops_elem.key none
without dir (use_copy d) =
    at (at dir d.ops_repl_elem.ops_elem.key none) d.ops_orig_elem.ops_elem.key none

without-mine :
    (dir : Directory) (kind : Mechanism) (key : ℕ) (d : InstrumentDataSearch)
    → without dir kind key ≡ some d
    → (dir key ≡ some d) × (my_operations kind key ≡ false)
unfolding my_operations ap_idata_ops_my_operations uc_idata_ops_my_operations
without-mine dir (at_place x) key d h = ground arith
without-mine dir (use_copy x) key d h = ground arith

module _ (dir : Directory) (searches : ℕ → ℕ) where
  Leads-other :
      (a b : ℕ) (d d' : InstrumentDataSearch)
      → Leads dir searches a d
      → Leads dir searches b d'
      → b ≢ a
      → d'.ops_elem.key ≢ d.ops_elem.key
  Leads-other a b d d' l l' ne same =
      let e : some d' ≡ some d = sym l'.found ∙ ap dir same ∙ l.found in
      let e' : d' ≡ d = cc e in
      ne (sym l'.owned ∙ ap (λ (x : InstrumentDataSearch). searches x.ops_elem.node) e' ∙ l.owned)

  Leads-drop :
      (b key : ℕ) (d : InstrumentDataSearch)
      → Leads dir searches b d
      → d.ops_elem.key ≢ key
      → Leads (at dir key none) searches b d
  Leads-drop b key d l ne = record { found = ground (arith, l.found); owned = l.owned }

  Placed-drop :
      (a b : ℕ) (d : InstrumentDataSearch) (kind : Mechanism)
      → Leads dir searches a d
      → b ≢ a
      → Placed dir searches b kind
      → Placed (at dir d.ops_elem.key none) searches b kind
  Placed-drop a b d (at_place x) l ne p =
      Leads-drop b d.ops_elem.key x.ops_elem p (Leads-other a b d x.ops_elem l p ne)
  Placed-drop a b d (use_copy x) l ne (p, q, apart) = (
    Leads-drop b d.ops_elem.key x.ops_orig_elem p (Leads-other a b d x.ops_orig_elem l p ne),
    Leads-drop b d.ops_elem.key x.ops_repl_elem q (Leads-other a b d x.ops_repl_elem l q ne),
    apart,
  )

Placed-without :
    (dir : Directory) (searches : ℕ → ℕ) (a b : ℕ) (kind kind' : Mechanism)
    → Placed dir searches a kind
    → b ≢ a
    → Placed dir searches b kind'
    → Placed (without dir kind) searches b kind'
Placed-without dir searches a b (at_place x) kind' p ne q =
    Placed-drop dir searches a b x.ops_elem kind' p ne q
Placed-without dir searches a b (use_copy x) kind' (p, r, apart) ne q =
    let key = x.ops_repl_elem.ops_elem.key in
    Placed-drop (at dir key none) searches a b x.ops_orig_elem kind'
      (Leads-drop dir searches a key x.ops_orig_elem p apart) ne
      (Placed-drop dir searches a b x.ops_repl_elem kind' r ne q)

module _ (hash_ptr : ℕ → ℕ → ℕ) (bounded : Bounded hash_ptr) where
  pub destroy_idata-Tabled :
      (rs : List Replacement) (dir : Directory) (searches : ℕ → ℕ) (a : ℕ) (kind : Mechanism)
      (s : InstrumentorState)
      → TabledIn hash_ptr dir s
      → Placed dir searches a kind
      → TabledIn hash_ptr (without dir kind) (destroy_idata hash_ptr rs kind s)
        × TabledIn hash_ptr (without dir kind) (destroy_idata_norestore hash_ptr kind s)
  unfolding destroy_idata destroy_idata_norestore ap_idata_destroy ap_idata_destroy_norestore
      uc_idata_destroy instrumentor_remove_data_search
  destroy_idata-Tabled rs dir searches a (at_place x) s t p =
      let r = remove_data_search-Tabled hash_ptr bounded dir x.ops_elem s t p.found in (r, r)
  destroy_idata-Tabled rs dir searches a (use_copy x) s t (p, q, apart) =
      let key = x.ops_repl_elem.ops_elem.key in
      let first = remove_data_search-Tabled hash_ptr bounded dir x.ops_repl_elem s t q.found in
      let r =
        remove_data_search-Tabled hash_ptr bounded (at dir key none) x.ops_orig_elem
          (instrumentor_remove_data_search hash_ptr x.ops_repl_elem s) first
          (Leads-drop dir searches a key x.ops_orig_elem p apart).found in
      (r, r)

  module _ (held : ℕ → ℕ) (m : Instrumentor) (t : IsTracked hash_ptr held m) (a : ℕ) where
    destroyed-IsTracked :
        (s' : InstrumentorState)
        → held a ≡ 1
        → TabledIn hash_ptr (without t.dir (m.idatas a).i_ops) s'
        → IsTracked hash_ptr
            (bump held a (λ n. n - 1))
            (record (with_refs m a (λ n. n - 1)) { state = s' })
    destroyed-IsTracked s' one tab =
        let m' = record (with_refs m a (λ n. n - 1)) { state = s' } in
        let same : (b : ℕ) → (m.idatas b).i_ops ≡ (m'.idatas b).i_ops = λ b. ground arith in
        let alive : (b : ℕ) → 0 < bump held a (λ n. n - 1) b → (0 < held b) × (b ≢ a) =
          λ b h. ground arith in
        let owner : (key : ℕ) (d : InstrumentDataSearch)
            → without t.dir (m.idatas a).i_ops key ≡ some d
            → m.searches d.ops_elem.node ≢ a =
          λ key d h e.
            let w = without-mine t.dir (m.idatas a).i_ops key d h in
            let yes = t.mine key d w.0 in
            cc (yes, w.1, ap (λ (b : ℕ). my_operations (m.idatas b).i_ops key) e) in
        record {
          dir = without t.dir (m.idatas a).i_ops;
          tabled = tab;
          counted = λ b. ground (arith, t.counted b);
          placed = λ b h. subst (Placed (without t.dir (m.idatas a).i_ops) m.searches b) (same b) (
              Placed-without t.dir m.searches a b (m.idatas a).i_ops (m.idatas b).i_ops
                (t.placed a (omega (arith, one))) (alive b h).1 (t.placed b (alive b h).0));
          live = λ key d h.
              let w = without-mine t.dir (m.idatas a).i_ops key d h in
              ground (arith, t.live key d w.0, owner key d h);
          mine = λ key d h.
              let w = without-mine t.dir (m.idatas a).i_ops key d h in
              subst (λ (k : Mechanism). my_operations k key ≡ true)
                (same (m.searches d.ops_elem.node)) (t.mine key d w.0);
        }

    -- Giving back a reference that is held.
    pub unref-IsTracked :
        0 < held a
        → IsTracked hash_ptr (bump held a (λ n. n - 1)) (instrument_data_unref hash_ptr a m)
          × IsTracked hash_ptr
              (bump held a (λ n. n - 1))
              (instrument_data_unref_norestore hash_ptr a m)
    unfolding instrument_data_unref instrument_data_unref_norestore
    unref-IsTracked h = elim (Bool-cases ((m.idatas a).refs == 1)) [
      | inl last ↦
          let gone =
            destroy_idata-Tabled m.replacements t.dir m.searches a (m.idatas a).i_ops m.state
              t.tabled (t.placed a h) in
          let one : held a ≡ 1 = ground (arith, t.counted a) in
          rw (last) (destroyed-IsTracked _ one gone.0, destroyed-IsTracked _ one gone.1)
      | inr more ↦
          let kept =
            with_refs-IsTracked hash_ptr held m t a (λ n. n - 1) h
              (ground (arith, t.counted a, more)) in
          rw (more) (kept, kept)
    ]
