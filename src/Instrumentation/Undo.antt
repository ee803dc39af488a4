-- ===== src/Instrumentation/Undo.antt =====
-- Instrumenting and removing the instrumentation again, in place and in a copy.
use kedr_callback_operations.Prelude.{
  ℕ, ◌+◌, ◌<◌, ◌≡◌, refl, sym, ap, subst, ◌∙◌, false, Option, none, some, List, arith, Bool-cases,
  Option-cases, inl, inr, ◌==◌, ==_iff, ==-refl,
}
use kedr_callback_operations.Kernel.{Kernel, Code, success, fail, enomem, ebusy, kfree}
use kedr_callback_operations.Payloads.Types.{Replacement}
use kedr_callback_operations.Payloads.Operation.{is_success}
use kedr_callback_operations.HashTable.{Table, size_mod, elem_init, add_elem, find_elem}
use kedr_callback_operations.HashTable.Buckets.{Elem, elements}
use kedr_callback_operations.HashTable.Registry.{has_node}
use kedr_callback_operations.HashTable.Undo.{remove_elem-add_elem}
use kedr_callback_operations.Instrumentation.Replace.{
  Operations, DistinctReplacements, replace_operations, restore_operations, restore-unchanged,
}
use kedr_callback_operations.Instrumentation.Place.{
  InstrumentorState, InstrumentDataSearch, ApInstrumentData, write, instrument_data_search_init,
  add_own, instrumentor_add_data_search, instrumentor_remove_data_search, ap_created,
  ap_idata_create, ap_idata_destroy, ap_idata_destroy_norestore,
}

-- A new element: no other has its address, and the table is not full.
abbrev pub IsNew : ℕ → Table → Type 0
IsNew node t = (has_node node (elements t.heads) ≡ false) × (t.n_elems < size_mod)

module _ (hash_ptr : ℕ → ℕ → ℕ) (d : InstrumentDataSearch) (s : InstrumentorState) where
  -- Either the operations are in the global table, and then nothing changes; or the elements
  -- are in both tables, and taking them out again gives the tables back.
  pub data Registered : Code × InstrumentorState → Type 0 where
    busy :
        (e : Elem)
        → find_elem hash_ptr s.ops_table_global d.ops_elem.key ≡ some e
        → Registered (fail ebusy, s)
    entered :
        {global own : Table}
        → find_elem hash_ptr s.ops_table_global d.ops_elem.key ≡ none
        → ((memory : ℕ → Operations) (k : Kernel)
            → instrumentor_remove_data_search hash_ptr d (record {
              memory = memory;
              ops_table_global = global;
              idata_table = own;
              kernel = k;
            })
              ≡ record s { memory = memory; kernel = k })
        → Registered (success, record s { ops_table_global = global; idata_table = own })

  pub add-Registered :
      IsNew d.ops_elem.node s.idata_table
      → IsNew d.ops_elem_global.node s.ops_table_global
      → Registered (instrumentor_add_data_search hash_ptr d s)
  unfolding instrumentor_add_data_search add_own add_elem is_success instrumentor_remove_data_search
  add-Registered own global =
      elim (Option-cases (find_elem hash_ptr s.ops_table_global d.ops_elem.key)) [
        | inr (other, found) ↦ rw (found, instrumentor_add_data_search) (busy other found)
        | inl free ↦
            rw (free, instrumentor_add_data_search)
              (entered free (λ memory k.
                rw
                  (
                    remove_elem-add_elem hash_ptr s.idata_table d.ops_elem s.kernel k own.0 own.1,
                    remove_elem-add_elem hash_ptr s.ops_table_global d.ops_elem_global s.kernel k
                        global.0 global.1,
                  )
                  refl))
      ]

-- Everything but the count of answers is as before.
pub record IsKept (s s' : InstrumentorState) : Type 0 where
  pub memory : (addr off : ℕ) → s'.memory addr off ≡ s.memory addr off
  pub global : s'.ops_table_global ≡ s.ops_table_global
  pub own : s'.idata_table ≡ s.idata_table
  pub allocated : s'.kernel.allocated ≡ s.kernel.allocated

module _ (hash_ptr : ℕ → ℕ → ℕ) (rs : List Replacement) (ops : ℕ) (s : InstrumentorState) where
  -- What an instrumentation in place does. An error leaves everything as it was. Otherwise the
  -- original operations are copied and the replacements carried out at the address alone, and
  -- removing the instrumentation afterwards gives everything back.
  pub data ApMade : Code × Option ApInstrumentData × InstrumentorState → Type 0 where
    no_memory :
        {s' : InstrumentorState} (n : ℕ)
        → s.kernel.answer n ≡ false
        → IsKept s s'
        → ApMade (fail enomem, none, s')
    conflict :
        {s' : InstrumentorState} (e : Elem)
        → find_elem hash_ptr s.ops_table_global ops ≡ some e
        → IsKept s s'
        → ApMade (fail ebusy, none, s')
    made :
        {d : ApInstrumentData} {s' : InstrumentorState}
        → find_elem hash_ptr s.ops_table_global ops ≡ none
        → d.ops_orig ≡ s.memory ops
        → s'.memory ≡ write s.memory ops (replace_operations rs (s.memory ops))
        → IsKept s (ap_idata_destroy hash_ptr rs d s')
        → ApMade (success, some d, s')

  pub write-kept :
      (ops' : Operations) (addr off : ℕ)
      → ((o : ℕ) → ops' o ≡ s.memory ops o)
      → write (write s.memory ops (replace_operations rs (s.memory ops))) ops ops' addr off
        ≡ s.memory addr off
  write-kept ops' addr off e = elim (Bool-cases (addr == ops)) [
    | inl here ↦
        let same : addr ≡ ops = (==_iff addr ops).0 here in
        rw here (e off ∙ ap (λ (a : ℕ). s.memory a off) (sym same))
    | inr other ↦ rw other refl
  ]

  pub restored :
      DistinctReplacements rs
      → (o : ℕ)
      → restore_operations rs
          (s.memory ops)
          (write s.memory ops (replace_operations rs (s.memory ops)) ops)
          o
        ≡ s.memory ops o
  restored distinct o =
      restore-unchanged rs (s.memory ops)
        (write s.memory ops (replace_operations rs (s.memory ops)) ops) o distinct
        (rw (==-refl ops) refl)

module _ (hash_ptr : ℕ → ℕ → ℕ) (rs : List Replacement) (s : InstrumentorState)
    (d : InstrumentDataSearch) where
  created-ApMade :
      (k : Kernel) (r : Code × InstrumentorState)
      → DistinctReplacements rs
      → k.allocated ≡ s.kernel.allocated + 2
      → Registered hash_ptr d (record s { kernel = k }) r
      → ApMade hash_ptr rs d.ops_elem.key s (ap_created hash_ptr rs d r)
  unfolding ap_created ap_idata_destroy ap_idata_destroy_norestore
  created-ApMade k _ distinct m (busy e found) =
      conflict e found
        (record { memory = λ addr off. refl; global = refl; own = refl; allocated = omega arith })
  created-ApMade k _ distinct m (entered {global} {own} free back) =
      let ops = d.ops_elem.key in
      let replaced = write s.memory ops (replace_operations rs (s.memory ops)) in
      let given_back = write replaced ops (restore_operations rs (s.memory ops) (replaced ops)) in
      made free refl refl (
        subst (IsKept s)
          (sym (
            ap (λ (t : InstrumentorState). record t { kernel = kfree (kfree t.kernel) })
              (back given_back k)))
          (record {
            memory = λ addr off.
                write-kept hash_ptr rs d.ops_elem.key s _ addr off
                  (restored hash_ptr rs d.ops_elem.key s distinct);
            global = refl;
            own = refl;
            allocated = omega arith;
          }))

module _ (hash_ptr : ℕ → ℕ → ℕ) (rs : List Replacement) (ops : ℕ) (s : InstrumentorState) where
  kept-but : (k : Kernel) → k.allocated ≡ s.kernel.allocated → IsKept s (record s { kernel = k })
  kept-but k e = record { memory = λ addr off. refl; global = refl; own = refl; allocated = e }

  -- With one replacement for an offset at most and new search elements, instrumenting in place ends
  -- with -ENOMEM only if memory was refused, with -EBUSY exactly if the global table has the
  -- operations already, everything as before then; otherwise it copies the original operations,
  -- replaces at their address alone, and its destruction gives memory, tables and operations back.
  pub ap_idata_create-ApMade :
      (node node_global : ℕ)
      → DistinctReplacements rs
      → IsNew node s.idata_table
      → IsNew node_global s.ops_table_global
      → ApMade hash_ptr rs ops s (ap_idata_create hash_ptr rs node node_global ops s)
  unfolding ap_idata_create instrument_data_search_init elem_init
  ap_idata_create-ApMade node node_global distinct own global =
      let d = instrument_data_search_init node node_global ops in
      let n = s.kernel.asked in
      elim (Bool-cases (s.kernel.answer n)) [
        | inr full ↦ rw full (no_memory n full (kept-but _ refl))
        | inl ok ↦ elim (Bool-cases (s.kernel.answer (n + 1))) [
          | inr full ↦ rw (ok, full) (no_memory (n + 1) full (kept-but _ (omega arith)))
          | inl ok₂ ↦
              let k : Kernel = record s.kernel {
                asked = n + 1 + 1;
                allocated = s.kernel.allocated + 1 + 1;
              } in
              rw (ok, ok₂)
                (created-ApMade hash_ptr rs s d k
                  (instrumentor_add_data_search hash_ptr d (record s { kernel = k })) distinct
                  (omega arith) (add-Registered hash_ptr d (record s { kernel = k }) own global))
        ]
      ]
