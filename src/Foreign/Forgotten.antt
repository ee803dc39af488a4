-- ===== src/Foreign/Forgotten.antt =====
-- Forgetting at a foreign instrumentor in core/kedr_coi_instrumentors.c.
use kedr_callback_operations.Prelude.{
  ℕ, ◌≡◌, refl, ap, ◌∙◌, Bool, Option, none, some, arith, Bool-cases, Option-cases, inl, inr, ◌==◌,
  if◌then◌else◌,
}
use kedr_callback_operations.Kernel.{Code, success, ignored}
use kedr_callback_operations.HashTable.{find_in, find_elem}
use kedr_callback_operations.HashTable.Lookup.{find_elem-find_in}
use kedr_callback_operations.HashTable.Buckets.{Elem, elements, unlink_in}
use kedr_callback_operations.HashTable.Valid.{Bounded}
use kedr_callback_operations.Instrumentor.{Instrumentor, at}
use kedr_callback_operations.Instrumentor.Data.{instrument_data_get_orig_operations}
use kedr_callback_operations.Instrumentor.Watch.{set_pointer, instrument_data_restore_ops}
use kedr_callback_operations.Foreign.{Foreign}
use kedr_callback_operations.Foreign.Watches.{
  watch_at, AreWatches, Destroys, destroy-Destroys, destroy-ids, destroy-ties, destroy-AreWatches,
}
use kedr_callback_operations.Foreign.Watch.{
  instrumentor_foreign_find_watch_data_by_id, instrumentor_foreign_find_watch_data_by_tie,
  instrumentor_foreign_destroy_watch_data,
}
use kedr_callback_operations.Foreign.Calls.{
  foreign_forget_ops, kedr_coi_foreign_instrumentor_forget,
}

-- The pointer at `ops_p`, if there is one, points to `orig`.
abbrev pub restored : Option ℕ → (orig : ℕ) → (ℕ → ℕ) → ℕ → ℕ
restored none orig pointers = pointers
restored (some ops_p) orig pointers = at pointers ops_p orig

set_pointer-at :
    (ops ops_p q : ℕ) (m : Instrumentor)
    → (set_pointer ops ops_p m).pointers q ≡ at m.pointers ops_p ops q
unfolding set_pointer
set_pointer-at ops ops_p q m = elim (Bool-cases (ops == m.pointers ops_p)) [
  | inr other ↦ rw other refl
  | inl same ↦ elim (Bool-cases (q == ops_p)) [
    | inl here ↦ ground (arith, same, here)
    | inr away ↦ ground (arith, same, away)
  ]
]

-- container_of, for the result of a lookup.
abbrev pub around : (ℕ → ℕ) → Option Elem → Option ℕ
around containers none = none
around containers (some e) = some (containers e.node)

module _ (hash_ptr : ℕ → ℕ → ℕ) (n : ℕ) where
  pub data Forgets (id : ℕ) (ops_p : Option ℕ) (s : Foreign) : Code × Foreign → Type 0 where
    unwatched :
        instrumentor_foreign_find_watch_data_by_id hash_ptr n id s ≡ none
        → Forgets id ops_p s (ignored, s)
    forgotten :
        (w : ℕ) {s' : Foreign}
        → instrumentor_foreign_find_watch_data_by_id hash_ptr n id s ≡ some w
        → ((key : ℕ)
            → instrumentor_foreign_find_watch_data_by_id hash_ptr n key s' ≡ (
                if id == key
                then none
                else instrumentor_foreign_find_watch_data_by_id hash_ptr n key s))
        → ((tie : ℕ)
            → instrumentor_foreign_find_watch_data_by_tie hash_ptr n tie s'
              ≡ around s.containers (
                  find_in tie (
                    unlink_in
                      (s.watches w).tie_elem.node
                      (elements (s.instrumentors n).ties_table.heads))))
        → ((q : ℕ)
            → s'.normal.pointers q
              ≡ restored ops_p
                  (instrument_data_get_orig_operations s.normal
                    (s.foreigns (s.watches w).idata_foreign).idata_binded)
                  s.normal.pointers
                  q)
        → AreWatches hash_ptr n s'
        → Forgets id ops_p s (success, s')

  pub find_by_id-around :
      (key : ℕ) (s : Foreign)
      → instrumentor_foreign_find_watch_data_by_id hash_ptr n key s
        ≡ around s.containers (find_elem hash_ptr (s.instrumentors n).ids_table key)
  unfolding instrumentor_foreign_find_watch_data_by_id
  find_by_id-around key s =
      elim (Option-cases (find_elem hash_ptr (s.instrumentors n).ids_table key)) [
        | inl none' ↦ rw (none', instrumentor_foreign_find_watch_data_by_id) refl
        | inr (e, found) ↦ rw (found, instrumentor_foreign_find_watch_data_by_id) refl
      ]

  find_by_tie-around :
      (tie : ℕ) (s : Foreign)
      → instrumentor_foreign_find_watch_data_by_tie hash_ptr n tie s
        ≡ around s.containers (find_elem hash_ptr (s.instrumentors n).ties_table tie)
  unfolding instrumentor_foreign_find_watch_data_by_tie
  find_by_tie-around tie s =
      elim (Option-cases (find_elem hash_ptr (s.instrumentors n).ties_table tie)) [
        | inl none' ↦ rw (none', instrumentor_foreign_find_watch_data_by_tie) refl
        | inr (e, found) ↦ rw (found, instrumentor_foreign_find_watch_data_by_tie) refl
      ]

  around-if :
      (b : Bool) (containers : ℕ → ℕ) (found : Option Elem)
      → around containers (if b then none else found)
        ≡ (if b then none else around containers found)
  around-if Bool.true containers found = refl
  around-if Bool.false containers found = refl

  forget_ops-pointers :
      (ops_p : Option ℕ) (f : ℕ) (s : Foreign) (q : ℕ)
      → (foreign_forget_ops hash_ptr ops_p f s).normal.pointers q
        ≡ restored ops_p
            (instrument_data_get_orig_operations s.normal (s.foreigns f).idata_binded)
            s.normal.pointers
            q
  unfolding foreign_forget_ops instrument_data_restore_ops
  forget_ops-pointers none f s q = refl
  forget_ops-pointers (some p) f s q = set_pointer-at _ p q s.normal

  module _ (bounded : Bounded hash_ptr) where
    module _ (id : ℕ) (s s' : Foreign) (v : AreWatches hash_ptr n s) (e : Elem)
        (found : find_elem hash_ptr (s.instrumentors n).ids_table id ≡ some e)
        (d : Destroys hash_ptr n (s.containers e.node) s s') where
      destroy-by_id :
          (key : ℕ)
          → instrumentor_foreign_find_watch_data_by_id hash_ptr n key s' ≡ (
              if id == key
              then none
              else instrumentor_foreign_find_watch_data_by_id hash_ptr n key s)
      destroy-by_id key =
          let l = destroy-ids hash_ptr n bounded id s s' v e found d in
          find_by_id-around key s'
          ∙ ap (λ (c : ℕ → ℕ). around c (find_elem hash_ptr (s'.instrumentors n).ids_table key))
              d.containers
          ∙ ap (around s.containers) (l.finds key)
          ∙ around-if (e.key == key) s.containers _
          ∙ rw ((v.own_id id e found).1, find_by_id-around key s) refl

      destroy-by_tie :
          (tie : ℕ)
          → instrumentor_foreign_find_watch_data_by_tie hash_ptr n tie s'
            ≡ around s.containers (
                find_in tie (
                  unlink_in
                    (watch_at hash_ptr n s e).tie_elem.node
                    (elements (s.instrumentors n).ties_table.heads)))
      destroy-by_tie tie =
          let (valid, rest) = destroy-ties hash_ptr n bounded id s s' v e found d in
          find_by_tie-around tie s'
          ∙ ap (λ (c : ℕ → ℕ). around c (find_elem hash_ptr (s'.instrumentors n).ties_table tie))
              d.containers
          ∙ ap (around s.containers) (
              find_elem-find_in hash_ptr bounded (s'.instrumentors n).ties_table tie valid
              ∙ ap (find_in tie) rest)

    forget-found :
        (id : ℕ) (ops_p : Option ℕ) (s : Foreign)
        → AreWatches hash_ptr n s
        → (e : Elem) → find_elem hash_ptr (s.instrumentors n).ids_table id ≡ some e
        → let w = s.containers e.node in
          let s₀ = foreign_forget_ops hash_ptr ops_p (s.watches w).idata_foreign s in
          Forgets id ops_p s (success, instrumentor_foreign_destroy_watch_data hash_ptr n w s₀)
    unfolding foreign_forget_ops instrumentor_foreign_find_watch_data_by_id
        instrumentor_foreign_find_watch_data_by_tie
    forget-found id none s v e found =
        let w = s.containers e.node in
        let d = destroy-Destroys hash_ptr n w s in
        forgotten w (find_by_id-around id s ∙ rw found refl) (destroy-by_id id s _ v e found d)
          (destroy-by_tie id s _ v e found d) (λ q. ap (λ (p : ℕ → ℕ). p q) d.pointers)
          (destroy-AreWatches hash_ptr n bounded id s _ v e found d)
    forget-found id (some p) s v e found =
        let w = s.containers e.node in
        let f = (s.watches w).idata_foreign in
        let s₀ = foreign_forget_ops hash_ptr (some p) f s in
        let d = destroy-Destroys hash_ptr n w s₀ in
        let v₀ : AreWatches hash_ptr n s₀ = record {
          ids = v.ids;
          ties_valid = v.ties_valid;
          ties_nodes = v.ties_nodes;
          own_id = v.own_id;
          own_tie = v.own_tie;
          apart = v.apart;
        } in
        forgotten w (find_by_id-around id s ∙ rw found refl) (destroy-by_id id s₀ _ v₀ e found d)
          (destroy-by_tie id s₀ _ v₀ e found d)
          (λ q. ap (λ (p : ℕ → ℕ). p q) d.pointers ∙ forget_ops-pointers (some p) f s q)
          (destroy-AreWatches hash_ptr n bounded id s₀ _ v₀ e found d)

    -- In a state whose tables are valid, with distinct ids and elements, and in which each watch stands
    -- in both; watches may share a tie. To forget an object that is not watched has the result 1 and
    -- changes nothing. Otherwise the result is 0 and the tables are so again: the lookup by id finds
    -- all watches but the one that was forgotten, the lookup by tie finds the first watch with the
    -- tie among all but that one, in the order of before, and a given pointer points to the original
    -- operations of its data, whether that data is destroyed by it or not; no other pointer changes.
    pub forget-Forgets :
        (id : ℕ) (ops_p : Option ℕ) (s : Foreign)
        → AreWatches hash_ptr n s
        → Forgets id ops_p s (kedr_coi_foreign_instrumentor_forget hash_ptr n id ops_p s)
    unfolding kedr_coi_foreign_instrumentor_forget
    forget-Forgets id ops_p s v =
        elim (Option-cases (find_elem hash_ptr (s.instrumentors n).ids_table id)) [
          | inl none' ↦
              let absent : instrumentor_foreign_find_watch_data_by_id hash_ptr n id s ≡ none =
                find_by_id-around id s ∙ rw none' refl in
              rw (absent, kedr_coi_foreign_instrumentor_forget) (unwatched absent)
          | inr (e, found) ↦
              let there : instrumentor_foreign_find_watch_data_by_id hash_ptr n id s
                  ≡ some (s.containers e.node) =
                find_by_id-around id s ∙ rw found refl in
              rw (there, kedr_coi_foreign_instrumentor_forget) (forget-found id ops_p s v e found)
        ]
