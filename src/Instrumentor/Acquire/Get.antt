-- ===== src/Instrumentor/Acquire/Get.antt =====
-- instrumentor_get_data: every outcome.
use kedr_callback_operations.Prelude.{
  ℕ, ◌≡◌, refl, sym, subst, true, arith, Option-cases, inl, inr, ◌==◌, if_both,
}
use kedr_callback_operations.HashTable.Valid.{Bounded}
use kedr_callback_operations.Instrumentor.{Mechanism, Instrumentor, Addresses}
use kedr_callback_operations.Instrumentor.Data.{
  my_operations, instrumentor_find_data, instrument_data_ref, get_new_data, instrumentor_get_data,
}
use kedr_callback_operations.Instrumentor.Tracked.{IsTracked, find_data-live, ref-IsTracked}
use kedr_callback_operations.Instrumentor.Acquire.{IsFresh, IsSame, Gets, known, got}
use kedr_callback_operations.Instrumentor.Acquire.Place.{create_at_place-Gets}
use kedr_callback_operations.Instrumentor.Acquire.Copy.{create_copy-Gets}

module _ (hash_ptr : ℕ → ℕ → ℕ) (held : ℕ → ℕ) (m : Instrumentor) where
  same_kind : (a b : ℕ) → ((instrument_data_ref a m).idatas b).i_ops ≡ (m.idatas b).i_ops
  unfolding instrument_data_ref
  same_kind a b = ground arith

  ref-IsSame : (a : ℕ) → IsSame held m (instrument_data_ref a m)
  unfolding instrument_data_ref
  ref-IsSame a = record {
    objects = refl;
    foreign = refl;
    watches = refl;
    pointers = refl;
    replacements = refl;
    kinds = λ b h. same_kind a b;
  }

  module _ (bounded : Bounded hash_ptr) (t : IsTracked hash_ptr held m) (p : Addresses) (ops : ℕ)
      (f : IsFresh held p m) where
    get_new_data-Gets : Gets hash_ptr held m p ops (get_new_data hash_ptr p ops m)
    unfolding get_new_data
    get_new_data-Gets =
        let copied = create_copy-Gets hash_ptr bounded held m t p ops f in
        let placed = create_at_place-Gets hash_ptr bounded held m t p ops f in
        if_both (Gets hash_ptr held m p ops) (ops == 0) copied
          (if_both (Gets hash_ptr held m p ops) (m.replace_at_place ops) placed copied)

    -- Either a structure for the operations, referenced once more, or an error and no reference.
    pub instrumentor_get_data-Gets :
        Gets hash_ptr held m p ops (instrumentor_get_data hash_ptr p ops m)
    unfolding instrumentor_get_data
    instrumentor_get_data-Gets = elim (Option-cases (instrumentor_find_data hash_ptr m ops)) [
      | inl absent ↦ rw (absent, instrumentor_get_data) get_new_data-Gets
      | inr (a, found) ↦
          let (alive, mine) = find_data-live hash_ptr held m t ops a found in
          rw (found, instrumentor_get_data)
            (got a (ref-IsTracked hash_ptr held m t a alive) (ref-IsSame a)
              (subst (λ (k : Mechanism). my_operations k ops ≡ true) (sym (same_kind a a)) mine)
              (known found))
    ]
