-- ===== src/Instrumentor/Tables.antt =====
-- The tables of instrumented operations as one directory from the address of operations to the
-- search structure for them, and what instrumentor_add_data_search and instrumentor_remove_data_search
-- do to it.
use kedr_callback_operations.Prelude.{
  ℕ, ◌≡◌, ap, ◌∙◌, true, false, ◌||◌, Option, none, some, arith, Option-cases, inl, inr, ◌==◌,
}
use kedr_callback_operations.Kernel.{Code, success, fail, ebusy}
use kedr_callback_operations.HashTable.{Table, add_elem, find_elem, remove_elem}
use kedr_callback_operations.HashTable.Buckets.{Elem, elements}
use kedr_callback_operations.HashTable.Valid.{Bounded}
use kedr_callback_operations.HashTable.Registry.{has_node}
use kedr_callback_operations.HashTable.Unique.{
  IsUnique, Gains, add_elem-Gains, remove_elem-Loses, found-has_node,
}
use kedr_callback_operations.Instrumentation.Place.{
  InstrumentorState, InstrumentDataSearch, add_own, instrumentor_add_data_search,
  instrumentor_remove_data_search,
}
use kedr_callback_operations.Payloads.Operation.{is_success}
use kedr_callback_operations.Instrumentor.{at}

abbrev pub Directory : Type 0
Directory = ℕ → Option InstrumentDataSearch

abbrev pub own_elem : Option InstrumentDataSearch → Option Elem
own_elem none = none
own_elem (some d) = some d.ops_elem

module _ (hash_ptr : ℕ → ℕ → ℕ) where
  -- Other instrumentors may have elements in the global table besides.
  pub record Tabled (dir : Directory) (idata_table ops_table_global : Table) : Type 0 where
    pub own : IsUnique hash_ptr idata_table
    pub global : IsUnique hash_ptr ops_table_global
    pub own_finds : (key : ℕ) → find_elem hash_ptr idata_table key ≡ own_elem (dir key)
    pub global_finds :
        (key : ℕ) (d : InstrumentDataSearch)
        → dir key ≡ some d
        → find_elem hash_ptr ops_table_global key ≡ some d.ops_elem_global
    pub own_key : (key : ℕ) (d : InstrumentDataSearch) → dir key ≡ some d → d.ops_elem.key ≡ key
    pub global_key :
        (key : ℕ) (d : InstrumentDataSearch) → dir key ≡ some d → d.ops_elem_global.key ≡ key

  abbrev pub TabledIn : Directory → InstrumentorState → Type 0
  TabledIn dir s = Tabled dir s.idata_table s.ops_table_global

  -- Elements at addresses that neither table has.
  pub record IsFree (d : InstrumentDataSearch) (s : InstrumentorState) : Type 0 where
    pub own_free : has_node d.ops_elem.node (elements s.idata_table.heads) ≡ false
    pub global_free : has_node d.ops_elem_global.node (elements s.ops_table_global.heads) ≡ false
    pub one_key : d.ops_elem_global.key ≡ d.ops_elem.key

  -- Either the operations are in the global table and nothing changes, or they are entered.
  pub data Entering (dir : Directory) (d : InstrumentDataSearch) (s : InstrumentorState)
      : Code × InstrumentorState → Type 0 where
    refused :
        (e : Elem)
        → find_elem hash_ptr s.ops_table_global d.ops_elem.key ≡ some e
        → Entering dir d s (fail ebusy, s)
    entered :
        {global own : Table}
        → find_elem hash_ptr s.ops_table_global d.ops_elem.key ≡ none
        → dir d.ops_elem.key ≡ none
        → Tabled (at dir d.ops_elem.key (some d)) own global
        → ((n : ℕ)
            → has_node n (elements own.heads)
              ≡ ((d.ops_elem.node == n) || has_node n (elements s.idata_table.heads)))
        → ((n : ℕ)
            → has_node n (elements global.heads)
              ≡ ((d.ops_elem_global.node == n) || has_node n (elements s.ops_table_global.heads)))
        → Entering dir d s (success, record s { ops_table_global = global; idata_table = own })

  absent_in_dir :
      (dir : Directory) (s : InstrumentorState) (key : ℕ)
      → TabledIn dir s
      → find_elem hash_ptr s.ops_table_global key ≡ none
      → dir key ≡ none
  absent_in_dir dir s key t free = elim (Option-cases (dir key)) [
    | inl absent ↦ absent
    | inr (d, found) ↦ cc (t.global_finds key d found)
  ]

  module _ (bounded : Bounded hash_ptr) where
    entered-Tabled :
        (dir : Directory) (d : InstrumentDataSearch) (s : InstrumentorState) {own global : Table}
        → TabledIn dir s
        → dir d.ops_elem.key ≡ none
        → d.ops_elem_global.key ≡ d.ops_elem.key
        → Gains hash_ptr d.ops_elem s.idata_table own
        → Gains hash_ptr d.ops_elem_global s.ops_table_global global
        → Tabled (at dir d.ops_elem.key (some d)) own global
    entered-Tabled dir d s t absent one_key g gg = record {
      own = g.unique;
      global = gg.unique;
      own_finds = λ key. ground (arith, g.finds key, t.own_finds key);
      global_finds = λ key d' h. ground (arith, gg.finds key, t.global_finds key d');
      own_key = λ key d' h. ground (arith, t.own_key key d');
      global_key = λ key d' h. ground (arith, t.global_key key d');
    }

    pub add_data_search-Entering :
        (dir : Directory) (d : InstrumentDataSearch) (s : InstrumentorState)
        → TabledIn dir s
        → IsFree d s
        → Entering dir d s (instrumentor_add_data_search hash_ptr d s)
    unfolding instrumentor_add_data_search add_own add_elem is_success
    add_data_search-Entering dir d s t f =
        elim (Option-cases (find_elem hash_ptr s.ops_table_global d.ops_elem.key)) [
          | inr (other, found) ↦ rw (found, instrumentor_add_data_search) (refused other found)
          | inl free ↦
              let absent = absent_in_dir dir s d.ops_elem.key t free in
              let g =
                add_elem-Gains hash_ptr bounded s.idata_table t.own d.ops_elem s.kernel
                  (t.own_finds d.ops_elem.key ∙ ap own_elem absent) f.own_free in
              let gg =
                add_elem-Gains hash_ptr bounded s.ops_table_global t.global d.ops_elem_global
                  s.kernel (ap (find_elem hash_ptr s.ops_table_global) f.one_key ∙ free)
                  f.global_free in
              rw (free, instrumentor_add_data_search)
                (entered free absent (entered-Tabled dir d s t absent f.one_key g gg) g.occupied
                  gg.occupied)
        ]

    -- Removing a search structure of the directory.
    pub remove_data_search-Tabled :
        (dir : Directory) (d : InstrumentDataSearch) (s : InstrumentorState)
        → TabledIn dir s
        → dir d.ops_elem.key ≡ some d
        → TabledIn (at dir d.ops_elem.key none) (instrumentor_remove_data_search hash_ptr d s)
    unfolding instrumentor_remove_data_search
    remove_data_search-Tabled dir d s t found =
        let one_key : d.ops_elem_global.key ≡ d.ops_elem.key =
          t.global_key d.ops_elem.key d found in
        let l =
          remove_elem-Loses hash_ptr bounded s.idata_table t.own d.ops_elem s.kernel
            (t.own_finds d.ops_elem.key ∙ ap own_elem found) in
        let k = (remove_elem hash_ptr s.idata_table d.ops_elem s.kernel).1 in
        let ll =
          remove_elem-Loses hash_ptr bounded s.ops_table_global t.global d.ops_elem_global k (
            ap (find_elem hash_ptr s.ops_table_global) one_key
            ∙ t.global_finds d.ops_elem.key d found) in
        record {
          own = l.unique;
          global = ll.unique;
          own_finds = λ key. ground (arith, l.finds key, t.own_finds key);
          global_finds = λ key d' h. ground (arith, ll.finds key, t.global_finds key d');
          own_key = λ key d' h. ground (arith, t.own_key key d');
          global_key = λ key d' h. ground (arith, t.global_key key d');
        }

    -- The address of an element in the directory is taken.
    pub dir-has_node :
        (dir : Directory) (s : InstrumentorState) (key : ℕ) (d : InstrumentDataSearch)
        → TabledIn dir s
        → dir key ≡ some d
        → has_node d.ops_elem.node (elements s.idata_table.heads) ≡ true
    dir-has_node dir s key d t found =
        found-has_node hash_ptr bounded s.idata_table t.own key d.ops_elem
          (t.own_finds key ∙ ap own_elem found)
