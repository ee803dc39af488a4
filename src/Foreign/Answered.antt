-- ===== src/Foreign/Answered.antt =====
-- All outcomes of a watch at a foreign instrumentor in core/kedr_coi_instrumentors.c.
use kedr_callback_operations.Prelude.{ℕ, ◌≡◌, false, Option, none, some, ◌==◌, if◌then◌else◌}
use kedr_callback_operations.Kernel.{
  Code, success, ignored, fail, ebusy, enomem, Outcome, done, bug,
}
use kedr_callback_operations.HashTable.{find_elem}
use kedr_callback_operations.HashTable.Buckets.{Elem}
use kedr_callback_operations.HashTable.Valid.{Bounded}
use kedr_callback_operations.Instrumentor.Data.{instrument_data_my_operations}
use kedr_callback_operations.Foreign.{Foreign}
use kedr_callback_operations.Foreign.Watch.{
  ForeignAddresses, instrumentor_foreign_get_data, instrumentor_foreign_find_watch_data_by_id,
}
use kedr_callback_operations.Foreign.Watches.{AreWatches}

module _ (hash_ptr : ℕ → ℕ → ℕ) (bounded : Bounded hash_ptr) (p : ForeignAddresses)
    (n id tie ops_p : ℕ) (s : Foreign) where
  abbrev found_by : ℕ → Foreign → Option ℕ
  found_by key t = instrumentor_foreign_find_watch_data_by_id hash_ptr n key t

  abbrev get : Code × Option ℕ × Foreign
  get = instrumentor_foreign_get_data hash_ptr p n (s.normal.pointers ops_p) s

  -- The watches are those of before.
  pub record AreKept (s' : Foreign) : Type 0 where
    pub tables : AreWatches hash_ptr n s'
    pub lookups : (key : ℕ) → found_by key s' ≡ found_by key s

  pub data Outcomes : Outcome (Code × Foreign) → Type 0 where
    updated :
        (w : ℕ) {s' : Foreign} → found_by id s ≡ some w → AreKept s' → Outcomes (done (ignored, s'))
    -- The update needs new foreign data, and there is none.
    misread :
        (w : ℕ)
        → found_by id s ≡ some w
        → instrument_data_my_operations s.normal
            (s.foreigns (s.watches w).idata_foreign).idata_binded
            (s.normal.pointers ops_p)
          ≡ false
        → get.1 ≡ none
        → Outcomes bug
    -- Another watch has the pointer.
    busy :
        (e : Elem)
        → found_by id s ≡ none
        → find_elem hash_ptr s.normal.foreign_ops_p_table ops_p ≡ some e
        → Outcomes (done (fail ebusy, s))
    no_data :
        {c : Code} {s' : Foreign}
        → found_by id s ≡ none
        → get ≡ (c, none, s')
        → AreKept s'
        → Outcomes (done (c, s'))
    no_memory :
        {s' : Foreign} → found_by id s ≡ none → AreKept s' → Outcomes (done (fail enomem, s'))
    added :
        {s' : Foreign}
        → found_by id s ≡ none
        → find_elem hash_ptr s.normal.foreign_ops_p_table ops_p ≡ none
        → AreWatches hash_ptr n s'
        → ((key : ℕ) → found_by key s' ≡ (if id == key then some p.watch_data else found_by key s))
        → Outcomes (done (success, s'))
