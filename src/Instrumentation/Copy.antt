-- ===== src/Instrumentation/Copy.antt =====
-- Instrumenting a copy, and removing the instrumentation again.
use kedr_callback_operations.Prelude.{
  ℕ, zero, suc, ◌+◌, ◌<◌, ◌≡◌, refl, sym, ap, subst, ◌∙◌, false, Option, none, some, List, [], ◌∷◌,
  arith, Bool-cases, Option-cases, inl, inr, ◌==◌, ==_iff, ◌⊎◌, if◌then◌else◌, get_or, set,
}
use kedr_callback_operations.Kernel.{Kernel, Code, success, ignored, fail, enomem, ebusy, kfree}
use kedr_callback_operations.Payloads.Types.{Replacement}
use kedr_callback_operations.Payloads.Operation.{is_success}
use kedr_callback_operations.HashTable.{Table, size_mod, elem_init, add_elem, find_elem, add_head}
use kedr_callback_operations.HashTable.Buckets.{Elem, Heads, elements}
use kedr_callback_operations.HashTable.Valid.{Bounded, IsValid}
use kedr_callback_operations.HashTable.Update.{add_elem-lem}
use kedr_callback_operations.HashTable.Registry.{has_node, has_node-append}
use kedr_callback_operations.Instrumentation.Replace.{Operations, replace_operations}
use kedr_callback_operations.Instrumentation.Place.{
  InstrumentorState, InstrumentDataSearch, UcInstrumentData, write, instrument_data_search_init,
  add_own, instrumentor_add_data_search, instrumentor_remove_data_search, uc_created, uc_added,
  uc_idata_create, uc_idata_destroy,
}
use kedr_callback_operations.Instrumentation.Undo.{
  IsNew, Registered, busy, entered, add-Registered, IsKept,
}

has_node-set :
    (n : ℕ) (e : Elem) (i : ℕ) (hs : Heads)
    → has_node n (elements hs) ≡ false
    → (e.node == n) ≡ false
    → has_node n (elements (set hs i (e ∷ get_or hs i []))) ≡ false
has_node-set n e i [] h ne = refl
has_node-set n e zero (b ∷ hs) h ne = ground (arith, has_node-append n b (elements hs))
has_node-set n e (suc i) (b ∷ hs) h ne = ground (
  arith,
  has_node-append n b (elements hs),
  has_node-append n b (elements (set hs i (e ∷ get_or hs i []))),
  has_node-set n e i hs,
)

module _ (hash_ptr : ℕ → ℕ → ℕ) where
  -- Another new element after the addition of the first.
  IsNew-add_elem :
      (n : ℕ) (e : Elem) (t : Table) (k : Kernel)
      → IsNew n t
      → (e.node == n) ≡ false
      → t.n_elems + 1 < size_mod
      → IsNew n (add_elem hash_ptr t e k).1
  unfolding add_elem add_head
  IsNew-add_elem n e t k new ne small = (has_node-set n e _ t.heads new.0 ne, omega arith)

  module _ (rs : List Replacement) (ops ops_repl : ℕ) (s : InstrumentorState) where
    abbrev pub copy_of : Operations
    copy_of = if ops == 0 then (λ off. 0) else s.memory ops

    -- The address of the copy is in the global table, or that of the operations themselves.
    abbrev pub IsTaken : Type 0
    IsTaken =
        (ops ≡ ops_repl) ⊎ ((e : Elem) × (find_elem hash_ptr s.ops_table_global ops_repl ≡ some e))

    -- What an instrumentation by copy does. An error leaves everything as it was. Otherwise the new
    -- structure holds the original operations, or NULL ones, with the replacements carried out, all
    -- other memory is untouched, and removing the instrumentation gives back tables and memory.
    pub data UcMade : Code × Option UcInstrumentData × InstrumentorState → Type 0 where
      no_memory :
          {s' : InstrumentorState} (n : ℕ)
          → s.kernel.answer n ≡ false
          → IsKept s s'
          → UcMade (fail enomem, none, s')
      conflict :
          {s' : InstrumentorState} (e : Elem)
          → (find_elem hash_ptr s.ops_table_global ops ≡ some e)
          → IsKept s s'
          → UcMade (fail ebusy, none, s')
      copy_conflict :
          {s' : InstrumentorState}
          → find_elem hash_ptr s.ops_table_global ops ≡ none
          → IsTaken
          → IsKept s s'
          → UcMade (fail ebusy, none, s')
      made :
          {d : UcInstrumentData} {s' : InstrumentorState}
          → find_elem hash_ptr s.ops_table_global ops ≡ none
          → s'.memory ≡ write s.memory ops_repl (replace_operations rs copy_of)
          → ((uc_idata_destroy hash_ptr d s').ops_table_global ≡ s.ops_table_global)
            × ((uc_idata_destroy hash_ptr d s').idata_table ≡ s.idata_table)
            × ((uc_idata_destroy hash_ptr d s').kernel.allocated ≡ s.kernel.allocated)
          → UcMade (success, some d, s')

  module _ (rs : List Replacement) (s : InstrumentorState) (first second : InstrumentDataSearch)
      (k : Kernel) (m : k.allocated ≡ s.kernel.allocated + 2)
      (free : find_elem hash_ptr s.ops_table_global first.ops_elem.key ≡ none) (global own : Table)
      (back : (memory : ℕ → Operations) (k' : Kernel)
        → instrumentor_remove_data_search hash_ptr first
            (record { memory = memory; ops_table_global = global; idata_table = own; kernel = k' })
          ≡ record s { memory = memory; kernel = k' }) where
    freed : InstrumentorState → InstrumentorState
    freed t = record t { kernel = kfree (kfree t.kernel) }

    created-UcMade :
        (r : Code × InstrumentorState)
        → Registered hash_ptr second
            (record { memory = s.memory; ops_table_global = global; idata_table = own; kernel = k })
            r
        → ((e : Elem)
            → find_elem hash_ptr global second.ops_elem.key ≡ some e
            → IsTaken rs first.ops_elem.key second.ops_elem.key s)
        → UcMade rs first.ops_elem.key second.ops_elem.key s (
            uc_created hash_ptr rs
              (copy_of rs first.ops_elem.key second.ops_elem.key s)
              first
              second
              r)
    unfolding uc_created uc_idata_destroy freed
    created-UcMade _ (busy e found) taken = copy_conflict free (taken e found) (
        subst (IsKept s) (sym (ap freed (back s.memory k))) (record {
          memory = λ addr off. refl;
          global = refl;
          own = refl;
          allocated = omega arith;
        }))
    created-UcMade _ (entered free₂ back₂) taken =
        let ops = first.ops_elem.key in
        let ops_repl = second.ops_elem.key in
        let memory = write s.memory ops_repl (replace_operations rs (copy_of rs ops ops_repl s)) in
        let undone =
          ap freed (
            ap (instrumentor_remove_data_search hash_ptr first) (back₂ memory k) ∙ back memory k) in
        made free refl (
          ap (λ (t : InstrumentorState). t.ops_table_global) undone,
          ap (λ (t : InstrumentorState). t.idata_table) undone,
          ap (λ (t : InstrumentorState). t.kernel.allocated) undone ∙ omega arith,
        )

  -- The addition of `first` leaves room for `second`, which is refused only if `taken`.
  abbrev HasRoom : InstrumentDataSearch → Type 0 → Code × InstrumentorState → Type 0
  HasRoom second taken (success, s) =
      IsNew second.ops_elem.node s.idata_table
      × IsNew second.ops_elem_global.node s.ops_table_global
      × ((e : Elem) → find_elem hash_ptr s.ops_table_global second.ops_elem.key ≡ some e → taken)
  HasRoom second taken (ignored, s) = Unit
  HasRoom second taken (fail e, s) = Unit

  add-HasRoom :
      (bounded : Bounded hash_ptr) (rs : List Replacement) (first second : InstrumentDataSearch)
      (s : InstrumentorState)
      → IsValid hash_ptr s.ops_table_global
      → first.ops_elem_global.key ≡ first.ops_elem.key
      → IsNew second.ops_elem.node s.idata_table
      → IsNew second.ops_elem_global.node s.ops_table_global
      → (first.ops_elem.node == second.ops_elem.node) ≡ false
      → (first.ops_elem_global.node == second.ops_elem_global.node) ≡ false
      → s.idata_table.n_elems + 1 < size_mod
      → s.ops_table_global.n_elems + 1 < size_mod
      → HasRoom second
          (IsTaken rs first.ops_elem.key second.ops_elem.key s)
          (instrumentor_add_data_search hash_ptr first s)
  unfolding instrumentor_add_data_search add_own add_elem is_success
  add-HasRoom bounded rs first second s valid keys new new₂ ne ne₂ small small₂ =
      elim (Option-cases (find_elem hash_ptr s.ops_table_global first.ops_elem.key)) [
        | inr (other, found) ↦ rw (found, instrumentor_add_data_search) tt
        | inl free ↦
            rw (free, instrumentor_add_data_search)
              (
                IsNew-add_elem second.ops_elem.node first.ops_elem s.idata_table s.kernel new ne
                    small,
                IsNew-add_elem second.ops_elem_global.node first.ops_elem_global s.ops_table_global
                    s.kernel new₂ ne₂ small₂,
                λ e found. taken_by e (
                    sym
                      (add_elem-lem hash_ptr bounded s.ops_table_global first.ops_elem_global
                        second.ops_elem.key s.kernel valid).4
                    ∙ found),
              )
      ]
    where
      taken_by :
          (e : Elem)
          → (if first.ops_elem_global.key == second.ops_elem.key
              then some first.ops_elem_global
              else find_elem hash_ptr s.ops_table_global second.ops_elem.key)
            ≡ some e
          → IsTaken rs first.ops_elem.key second.ops_elem.key s
      taken_by e found = elim (Bool-cases (first.ops_elem_global.key == second.ops_elem.key)) [
        | inl same ↦ inl (sym keys ∙ (==_iff _ _).0 same)
        | inr other ↦ inr (e, ground (arith, other, found))
      ]

  module _ (rs : List Replacement) (s : InstrumentorState) (first second : InstrumentDataSearch)
      (k : Kernel) (m : k.allocated ≡ s.kernel.allocated + 2) where
    added-UcMade :
        (r : Code × InstrumentorState)
        → Registered hash_ptr first (record s { kernel = k }) r
        → HasRoom second (IsTaken rs first.ops_elem.key second.ops_elem.key s) r
        → UcMade rs first.ops_elem.key second.ops_elem.key s (
            uc_added hash_ptr rs
              (copy_of rs first.ops_elem.key second.ops_elem.key s)
              first
              second
              r)
    unfolding uc_added
    added-UcMade _ (busy e found) room =
        conflict e found
          (record { memory = λ addr off. refl; global = refl; own = refl; allocated = omega arith })
    added-UcMade _ (entered {global} {own} free back) room =
        let s' : InstrumentorState = record s {
          ops_table_global = global;
          idata_table = own;
          kernel = k;
        } in
        created-UcMade rs s first second k m free global own back
          (instrumentor_add_data_search hash_ptr second s')
          (add-Registered hash_ptr second s' room.0 room.1) room.2

  module _ (rs : List Replacement) (s : InstrumentorState) where
    uc_kept : (k : Kernel) → k.allocated ≡ s.kernel.allocated → IsKept s (record s { kernel = k })
    uc_kept k e = record { memory = λ addr off. refl; global = refl; own = refl; allocated = e }

    -- Room for two new elements in each table.
    pub record HasRoomForTwo (node node₂ : ℕ) (t : Table) : Type 0 where
      pub first : IsNew node t
      pub second : IsNew node₂ t
      pub apart : (node == node₂) ≡ false
      pub small : t.n_elems + 1 < size_mod

    -- With a valid global table and new search elements, instrumenting by copy ends with -ENOMEM only
    -- if memory was refused, with -EBUSY only if the global table has the operations or the copy
    -- already, or these have one address, everything as before then; otherwise the new structure alone is written, with the original operations (NULL for no
    -- operations) and the replacements carried out, and the destruction gives tables and memory back.
    pub uc_idata_create-UcMade :
        (bounded : Bounded hash_ptr) (node node_global node₂ node_global₂ ops ops_repl : ℕ)
        → IsValid hash_ptr s.ops_table_global
        → HasRoomForTwo node node₂ s.idata_table
        → HasRoomForTwo node_global node_global₂ s.ops_table_global
        → UcMade rs ops ops_repl s
            (uc_idata_create hash_ptr rs node node_global node₂ node_global₂ ops ops_repl s)
    unfolding uc_idata_create instrument_data_search_init elem_init
    uc_idata_create-UcMade bounded node node_global node₂ node_global₂ ops ops_repl valid own
          global =
        let first = instrument_data_search_init node node_global ops in
        let second = instrument_data_search_init node₂ node_global₂ ops_repl in
        let n = s.kernel.asked in
        elim (Bool-cases (s.kernel.answer n)) [
          | inr full ↦ rw full (no_memory n full (uc_kept _ refl))
          | inl ok ↦ elim (Bool-cases (s.kernel.answer (n + 1))) [
            | inr full ↦ rw (ok, full) (no_memory (n + 1) full (uc_kept _ (omega arith)))
            | inl ok₂ ↦
                let k : Kernel = record s.kernel {
                  asked = n + 1 + 1;
                  allocated = s.kernel.allocated + 1 + 1;
                } in
                let s' : InstrumentorState = record s { kernel = k } in
                rw (ok, ok₂)
                  (added-UcMade rs s first second k (omega arith)
                    (instrumentor_add_data_search hash_ptr first s')
                    (add-Registered hash_ptr first s' own.first global.first)
                    (add-HasRoom bounded rs first second s' valid refl own.second global.second
                      own.apart global.apart own.small global.small))
          ]
        ]
