-- ===== src/Foreign/Continued.antt =====
-- The bind of a foreign instrumentor in core/kedr_coi_instrumentors.c: what its caller calls next.
use kedr_callback_operations.Prelude.{
  ℕ, ◌≡◌, ◌≢◌, refl, sym, subst, Option, none, some, List, Bool-cases, Option-cases, inl, inr, ◌==◌,
  ==-refl, ==_iff, ◌⊎◌, arith,
}
use kedr_callback_operations.Kernel.{Code, fail, einval, Outcome, done, bug, ◌>>=◌}
use kedr_callback_operations.Payloads.Types.{Replacement}
use kedr_callback_operations.HashTable.Buckets.{Elem}
use kedr_callback_operations.Instrumentor.{Instrumentor, Addresses, at}
use kedr_callback_operations.Instrumentor.Data.{
  instrument_data_get_repl_operations, instrument_data_get_orig_operations,
  instrument_data_get_orig_operation, instrumentor_find_data,
}
use kedr_callback_operations.Instrumentor.Watch.{
  set_pointer, instrument_data_replace_ops, instrument_data_restore_ops, original_lost,
  operation_in_memory, instrumentor_find_watch_data,
}
use kedr_callback_operations.Instrumentor.Original.{
  IsForeignTo, IsReplacement, original_lost-false, original_lost-true,
}
use kedr_callback_operations.Foreign.{Foreign}
use kedr_callback_operations.Foreign.Chain.{
  find_in_chain, apf_idata_ops_find_foreign_data, apf_idata_foreign_ops_get_normal_operation,
  apf_idata_foreign_ops_get_chain_operation,
}
use kedr_callback_operations.Foreign.Watch.{
  instrumentor_foreign_find_data, instrumentor_foreign_find_watch_data_by_tie,
}
use kedr_callback_operations.Foreign.Bind.{
  Bound, instrument_data_foreign_normal_operation, instrument_data_foreign_chain_operation,
  instrumentor_foreign_get_orig_operation_nodata, chained_or_bug, chained_plain, bind_regular,
  bind_updated, bind_watched, bind_instrumented, bind_unwatched, foreign_instrumentor_bind,
  kedr_coi_foreign_instrumentor_bind,
}
use kedr_callback_operations.Foreign.Apart.{
  AreForeignTo, replaced_normally-foreign, chain_over-foreign, preceding-foreign,
}

-- The replacements of instrumentor `n` are neither originals nor replacements of another one.
pub record IsApart (n : ℕ) (s : Foreign) : Type 0 where
  pub originals :
      (a off : ℕ)
      → IsForeignTo
          (s.instrumentors n).replacements
          (instrument_data_get_orig_operation s.normal a off)
  pub normals : AreForeignTo (s.instrumentors n).replacements s.normal.replacements
  pub others :
      (g : ℕ)
      → g ≢ n
      → AreForeignTo (s.instrumentors n).replacements (s.instrumentors g).replacements
  -- Foreign data belong to a chain of their own normal data.
  pub chained :
      (a f : ℕ) → find_in_chain s.foreigns n (s.chains a) ≡ some f → (s.foreigns f).idata_binded ≡ a

set_pointer-pointers :
    (ops ops_p : ℕ) (m : Instrumentor)
    → (pointers : ℕ → ℕ) × (set_pointer ops ops_p m ≡ record m { pointers = pointers })
      × (pointers ops_p ≡ ops)
unfolding set_pointer
set_pointer-pointers ops ops_p m = elim (Bool-cases (ops == m.pointers ops_p)) [
  | inl same ↦ (m.pointers, rw same refl, ground (arith, same))
  | inr other ↦ (at m.pointers ops_p ops, rw other refl, rw (==-refl ops_p) refl)
]

module _ (hash_ptr : ℕ → ℕ → ℕ) (n ops_p offset : ℕ) (s : Foreign) where
  abbrev own : List Replacement
  own = (s.instrumentors n).replacements

  -- NULL, or a replacement of `n` stands there.
  abbrev pub IsUnfit : List Replacement → ℕ → Type 0
  IsUnfit rs ops = (ops ≡ 0) ⊎ IsReplacement rs (s.normal.state.memory ops offset)

  pub data Continues : Outcome Bound → Type 0 where
    -- Neither the chained operation nor the original one is a replacement of `n`.
    onwards :
        {c : Code} {op_chained op_orig : ℕ} {s' : Foreign}
        → IsForeignTo own op_chained
        → IsForeignTo own op_orig
        → Continues (done (c, some op_chained, some op_orig, s'))
    -- A replacement of `n` stands in operations that have no instrument data.
    lost :
        instrumentor_find_data hash_ptr s.normal (s.normal.pointers ops_p) ≡ none
        → s.normal.pointers ops_p ≢ 0
        → IsReplacement own (s.normal.state.memory (s.normal.pointers ops_p) offset)
        → Continues (done (fail einval, none, none, s))
    -- NULL operations without instrument data.
    null :
        instrumentor_find_data hash_ptr s.normal (s.normal.pointers ops_p) ≡ none
        → s.normal.pointers ops_p ≡ 0
        → Continues bug
    -- The replaced operations of a watched object.
    replaced :
        (object : ℕ) (e : Elem)
        → instrumentor_find_watch_data hash_ptr s.normal object ≡ some e
        → IsUnfit own (instrument_data_get_repl_operations s.normal (s.normal.watches e.node))
        → Continues bug
    -- The original operations of instrument data, to which the pointer is set.
    restored :
        (a : ℕ)
        → instrumentor_find_data hash_ptr s.normal (s.normal.pointers ops_p) ≡ some a
        → IsUnfit own (instrument_data_get_orig_operations s.normal a)
        → Continues bug

  module _ (v : IsApart n s) where
    normal-foreign : (f : ℕ) → IsForeignTo own (instrument_data_foreign_normal_operation s f offset)
    unfolding instrument_data_foreign_normal_operation apf_idata_foreign_ops_get_normal_operation
    normal-foreign f =
        replaced_normally-foreign own s.normal.replacements offset _ v.normals
          (v.originals _ offset)

    chain-foreign :
        (f : ℕ)
        → find_in_chain s.foreigns n (s.chains (s.foreigns f).idata_binded) ≡ some f
        → IsForeignTo own (instrument_data_foreign_chain_operation s f offset)
    unfolding instrument_data_foreign_chain_operation apf_idata_foreign_ops_get_chain_operation
    chain-foreign f e =
        let orig = v.originals (s.foreigns f).idata_binded offset in
        chain_over-foreign own _ offset _ _ (preceding-foreign own s n f _ v.others e) orig orig

    chained_or_bug-Continues :
        (ops orig : ℕ) (s' : Foreign)
        → IsForeignTo own orig
        → (IsUnfit own ops → Continues bug)
        → Continues (
            instrumentor_foreign_get_orig_operation_nodata n ops offset s >>= λ op_chained.
            chained_or_bug op_chained orig s')
    unfolding chained_or_bug instrumentor_foreign_get_orig_operation_nodata operation_in_memory
    chained_or_bug-Continues ops orig s' h unfit = elim (Bool-cases (ops == 0)) [
      | inl null' ↦ rw null' (unfit (inl ((==_iff ops 0).0 null')))
      | inr given ↦ elim (Bool-cases (original_lost own (s.normal.state.memory ops offset))) [
        | inl there ↦ rw (given, there) (unfit (inr (original_lost-true own _ there)))
        | inr none' ↦ rw (given, none') (onwards (original_lost-false own _ none') h)
      ]
    ]

    chained_plain-Continues :
        let ops = s.normal.pointers ops_p in
        instrumentor_find_data hash_ptr s.normal ops ≡ none
        → Continues (
            instrumentor_foreign_get_orig_operation_nodata n ops offset s >>= λ op_chained.
            done (chained_plain op_chained s))
    unfolding chained_plain instrumentor_foreign_get_orig_operation_nodata operation_in_memory
    chained_plain-Continues unknown =
        let ops = s.normal.pointers ops_p in
        elim (Bool-cases (ops == 0)) [
          | inl null' ↦ rw null' (null unknown ((==_iff ops 0).0 null'))
          | inr given ↦
              let other : ops ≢ 0 = λ same. ground (arith, given, same) in
              elim (Bool-cases (original_lost own (s.normal.state.memory ops offset))) [
                | inl there ↦
                    rw (given, there) (lost unknown other (original_lost-true own _ there))
                | inr away ↦
                    let foreign = original_lost-false own _ away in
                    rw (given, away) (onwards foreign foreign)
              ]
        ]

    -- Another pointer changes nothing that the operations are taken from.
    bind_updated-Continues :
        (a : ℕ) (pointers : ℕ → ℕ)
        → pointers ops_p ≡ instrument_data_get_repl_operations s.normal a
        → (IsUnfit own (instrument_data_get_repl_operations s.normal a) → Continues bug)
        → let s' : Foreign = record s { normal = record (s.normal) { pointers = pointers } } in
          Continues (bind_updated hash_ptr n ops_p offset a s')
    unfolding bind_updated instrumentor_foreign_get_orig_operation_nodata
        instrument_data_get_orig_operation instrument_data_foreign_normal_operation
        apf_idata_foreign_ops_get_normal_operation
    bind_updated-Continues a pointers here unfit =
        let s' : Foreign = record s { normal = record (s.normal) { pointers = pointers } } in
        elim (Option-cases (instrumentor_foreign_find_data hash_ptr n (pointers ops_p) s')) [
          | inl none' ↦
              rw (none', bind_updated)
                (chained_or_bug-Continues (pointers ops_p) _ s' (v.originals a offset)
                  (λ g. unfit (subst (IsUnfit own) here g)))
          | inr (f, found) ↦
              rw (found, bind_updated) (onwards (normal-foreign f) (v.originals a offset))
        ]

    bind_watched-Continues :
        (a : ℕ)
        → (IsUnfit own (instrument_data_get_repl_operations s.normal a) → Continues bug)
        → Continues (bind_watched hash_ptr n ops_p offset a s)
    unfolding bind_watched instrument_data_replace_ops
    bind_watched-Continues a unfit =
        let ops = instrument_data_get_repl_operations s.normal a in
        let (pointers, e, here) = set_pointer-pointers ops ops_p s.normal in
        subst (λ m. Continues (bind_updated hash_ptr n ops_p offset a (record s { normal = m })))
          (sym e) (bind_updated-Continues a pointers here unfit)

    find_data-chained :
        (ops f : ℕ)
        → instrumentor_foreign_find_data hash_ptr n ops s ≡ some f
        → find_in_chain s.foreigns n (s.chains (s.foreigns f).idata_binded) ≡ some f
    unfolding instrumentor_foreign_find_data apf_idata_ops_find_foreign_data
    find_data-chained ops f e = elim (Option-cases (instrumentor_find_data hash_ptr s.normal ops)) [
      | inl none' ↦ absurd (cc (in_chain none' e))
      | inr (a, found) ↦
          let e' = in_chain found e in
          subst (λ b. find_in_chain s.foreigns n (s.chains b) ≡ some f) (sym (v.chained a f e')) e'
    ]
      where
        in_chain :
            {found : Option ℕ}
            → instrumentor_find_data hash_ptr s.normal ops ≡ found
            → instrumentor_foreign_find_data hash_ptr n ops s ≡ some f
            → elim found [ none ↦ none | some a ↦ find_in_chain s.foreigns n (s.chains a) ] ≡ some f
        in_chain found e =
            subst
              (λ o.
                elim o [ none ↦ none | some a ↦ find_in_chain s.foreigns n (s.chains a) ] ≡ some f)
              found e

    bind_instrumented-Continues :
        (a : ℕ)
        → instrumentor_find_data hash_ptr s.normal (s.normal.pointers ops_p) ≡ some a
        → Continues (bind_instrumented hash_ptr n ops_p offset a s)
    unfolding bind_instrumented instrument_data_restore_ops
        instrumentor_foreign_get_orig_operation_nodata
    bind_instrumented-Continues a known =
        elim (Option-cases
          (instrumentor_foreign_find_data hash_ptr n (s.normal.pointers ops_p) s)) [
            | inl none' ↦
                let ops = instrument_data_get_orig_operations s.normal a in
                let (pointers, e, here) = set_pointer-pointers ops ops_p s.normal in
                let orig = instrument_data_get_orig_operation s.normal a offset in
                rw (none', bind_instrumented)
                  (subst
                    (λ m.
                      let s' : Foreign = record s { normal = m } in
                      Continues (
                        instrumentor_foreign_get_orig_operation_nodata n (m.pointers ops_p) offset
                          s'
                        >>= λ op_chained. chained_or_bug op_chained orig s'))
                    (sym e)
                    (chained_or_bug-Continues (pointers ops_p) orig
                      (record s { normal = record (s.normal) { pointers = pointers } })
                      (v.originals a offset) (λ g. restored a known (subst (IsUnfit own) here g))))
            | inr (f, found) ↦
                rw (found, bind_instrumented)
                  (onwards (chain-foreign f (find_data-chained _ f found)) (v.originals a offset))
          ]

    bind_unwatched-Continues : Continues (bind_unwatched hash_ptr n ops_p offset s)
    unfolding bind_unwatched
    bind_unwatched-Continues =
        elim (Option-cases (instrumentor_find_data hash_ptr s.normal (s.normal.pointers ops_p))) [
          | inl none' ↦ rw (none', bind_unwatched) (chained_plain-Continues none')
          | inr (a, found) ↦ rw (found, bind_unwatched) (bind_instrumented-Continues a found)
        ]

    -- If the replacements of a foreign instrumentor are no originals and none of another
    -- instrumentor, a bind of it gives operations that are none of its own replacements, so an
    -- intermediate operation that calls them is not called again through them. Otherwise it reads
    -- operations in which a replacement of its own stands or that are NULL: for operations without
    -- instrument data it gives -EINVAL for the first and meets a bad access for the second; for the
    -- replaced operations of a watched object, and for the original ones of instrument data, to which
    -- it has set the pointer before, it meets BUG_ON or a bad access.
    pub bind-Continues :
        (p : Addresses) (object foreign_tie : ℕ)
        → Continues
            (kedr_coi_foreign_instrumentor_bind hash_ptr n ops_p offset p object foreign_tie s)
    unfolding kedr_coi_foreign_instrumentor_bind foreign_instrumentor_bind bind_regular
    bind-Continues p object foreign_tie =
        elim (Option-cases (instrumentor_foreign_find_watch_data_by_tie hash_ptr n foreign_tie s)) [
          | inr (w, found) ↦
              rw (found, foreign_instrumentor_bind)
                (onwards (normal-foreign (s.watches w).idata_foreign) (v.originals _ offset))
          | inl unwatched ↦
              elim (Option-cases (instrumentor_find_watch_data hash_ptr s.normal object)) [
                | inr (e, found) ↦
                    rw (unwatched, found, foreign_instrumentor_bind)
                      (bind_watched-Continues (s.normal.watches e.node) (replaced object e found))
                | inl none' ↦
                    rw (unwatched, none', foreign_instrumentor_bind) bind_unwatched-Continues
              ]
        ]
