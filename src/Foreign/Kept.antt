-- ===== src/Foreign/Kept.antt =====
-- A reference to foreign data of core/kedr_coi_instrumentors.c that is given back, whether the data is
-- destroyed by it or not.
use kedr_callback_operations.Prelude.{
  ℕ, ◌≡◌, refl, ◌∙◌, false, List, [], ◌∷◌, map, ◌-◌, Bool-cases, inl, inr, ◌==◌,
}
use kedr_callback_operations.Payloads.Types.{Replacement}
use kedr_callback_operations.Instrumentor.{Instrumentor}
use kedr_callback_operations.Instrumentor.Data.{instrument_data_unref}
use kedr_callback_operations.Foreign.{Foreign}
use kedr_callback_operations.Foreign.Chain.{
  for_each_replacement, foreign_restore, foreign_restore_op, preceding, replacements_of,
  apf_idata_foreign_ops_get_repl_operations, apf_idata_foreign_ops_destroy_common,
}
use kedr_callback_operations.Foreign.Watch.{with_foreign_refs, instrument_data_foreign_unref}

for_each_replacement-pointers :
    (change : Replacement → (op_orig op : ℕ) → ℕ) (rs : List Replacement) (a ops : ℕ)
    (m : Instrumentor)
    → (for_each_replacement change rs a ops m).pointers ≡ m.pointers
unfolding for_each_replacement
for_each_replacement-pointers change [] a ops m = refl
for_each_replacement-pointers change (r ∷ rs) a ops m =
    for_each_replacement-pointers change rs a ops _

module _ (hash_ptr : ℕ → ℕ → ℕ) where
  instrument_data_unref-pointers :
      (a : ℕ) (m : Instrumentor) → (instrument_data_unref hash_ptr a m).pointers ≡ m.pointers
  unfolding instrument_data_unref
  instrument_data_unref-pointers a m = elim (Bool-cases ((m.idatas a).refs == 1)) [
    | inl last ↦ rw last refl
    | inr more ↦ rw more refl
  ]

  destroy_common-pointers :
      (n f : ℕ) (s : Foreign)
      → (apf_idata_foreign_ops_destroy_common hash_ptr n f false s).normal.pointers
        ≡ s.normal.pointers
  unfolding apf_idata_foreign_ops_destroy_common foreign_restore
  destroy_common-pointers n f s =
      let a = (s.foreigns f).idata_binded in
      let ops = apf_idata_foreign_ops_get_repl_operations s f in
      let rs = (s.instrumentors n).replacements in
      let others = map (replacements_of s) (preceding f (s.chains a)) in
      instrument_data_unref-pointers a (foreign_restore rs others a ops s.normal)
      ∙ for_each_replacement-pointers
          (λ r op_orig op. foreign_restore_op r others s.normal.replacements op_orig op) rs a ops
          s.normal

  -- What a reference given back leaves alone.
  pub record Keeps (s s' : Foreign) : Type 0 where
    pub instrumentors : s'.instrumentors ≡ s.instrumentors
    pub containers : s'.containers ≡ s.containers
    pub watches : s'.watches ≡ s.watches
    pub pointers : s'.normal.pointers ≡ s.normal.pointers

  pub unref-Keeps : (n f : ℕ) (s : Foreign) → Keeps s (instrument_data_foreign_unref hash_ptr n f s)
  unfolding instrument_data_foreign_unref apf_idata_foreign_ops_destroy_common
  unref-Keeps n f s = elim (Bool-cases ((s.foreigns f).refs == 1)) [
    | inr more ↦
        rw more
          (record { instrumentors = refl; containers = refl; watches = refl; pointers = refl })
    | inl last ↦ rw last (record {
      instrumentors = refl;
      containers = refl;
      watches = refl;
      pointers = destroy_common-pointers n f (with_foreign_refs s f (λ r. r - 1));
    })
  ]
