-- ===== src/Foreign/Next.antt =====
-- The operations that a bind continues with.
use kedr_callback_operations.Prelude.{
  ℕ, ◌≡◌, ◌≢◌, refl, sym, ap, ◌∙◌, Bool, true, false, Option, none, some, List, [], ◌∷◌, map, arith,
  Bool-cases, Option-cases, inl, inr, ◌==◌, ==_iff, ==-refl, if◌then◌else◌, All,
}
use kedr_callback_operations.Payloads.Types.{Replacement}
use kedr_callback_operations.Instrumentation.Replace.{
  DistinctReplacements, replacement_at, replace_operation,
}
use kedr_callback_operations.Instrumentor.Data.{instrument_data_get_orig_operation}
use kedr_callback_operations.Foreign.{Foreign}
use kedr_callback_operations.Foreign.Chain.{
  replaced_normally, chain_through, chain_over, preceding, replacements_of,
  apf_idata_foreign_ops_get_normal_operation, apf_idata_foreign_ops_get_chain_operation,
}
use kedr_callback_operations.Foreign.Standing.{placed, or_op, placed_by, standing, generic-placed}

replace_operation-placed :
    (op : ℕ) (r : Replacement) → replace_operation op r ≡ or_op (placed (some r) op) op
unfolding replace_operation
replace_operation-placed op r = generic-placed op op r

replaced_normally-placed :
    (rs : List Replacement) (off op : ℕ)
    → replaced_normally rs off op ≡ or_op (placed_by rs off op) op
unfolding replaced_normally
replaced_normally-placed [] off op = refl
replaced_normally-placed (r ∷ rs) off op = elim (Bool-cases (r.operation_offset == off)) [
  | inl here ↦ rw here (replace_operation-placed op r)
  | inr later ↦ rw later (replaced_normally-placed rs off op)
]

-- What one instrumentor of the chain makes of the original, and whether it differs.
abbrev through : Option ℕ → ℕ → ℕ × Bool
through none orig = (orig, false)
through (some op) orig = (op, true)

chain_through-absent :
    (rs : List Replacement) (off orig : ℕ)
    → replacement_at rs off ≡ none
    → chain_through rs off orig orig ≡ (orig, false)
unfolding chain_through
chain_through-absent [] off orig h = refl
chain_through-absent (r ∷ rs) off orig h = ground (arith, chain_through-absent rs off orig)

chain_through-placed :
    (rs : List Replacement) (off orig : ℕ)
    → DistinctReplacements rs
    → placed_by rs off orig ≢ some orig
    → chain_through rs off orig orig ≡ through (placed_by rs off orig) orig
unfolding chain_through
chain_through-placed [] off orig d other = refl
chain_through-placed (r ∷ rs) off orig d other = elim (Bool-cases (r.operation_offset == off)) [
  | inl here ↦
      let gone : replacement_at rs off ≡ none =
        ap (replacement_at rs) (sym ((==_iff r.operation_offset off).0 here)) ∙ d.0 in
      let differs : placed (some r) orig ≢ some orig = λ e. other (rw here e) in
      rw here (replaced-through r rs off orig gone differs)
  | inr later ↦ rw later (chain_through-placed rs off orig d.1 (λ e. other (rw later e)))
]
  where
    replaced-through :
        (r : Replacement) (rs : List Replacement) (off orig : ℕ)
        → replacement_at rs off ≡ none
        → placed (some r) orig ≢ some orig
        → (if replace_operation orig r == orig
            then chain_through rs off orig (replace_operation orig r)
            else (replace_operation orig r, true))
          ≡ through (placed (some r) orig) orig
    replaced-through r rs off orig gone differs = elim (Option-cases (placed (some r) orig)) [
      | inl absent ↦
          let e : replace_operation orig r ≡ orig =
            replace_operation-placed orig r ∙ rw absent refl in
          rw (absent, e, ==-refl orig) (chain_through-absent rs off orig gone)
      | inr (x, there) ↦
          let e : replace_operation orig r ≡ x = replace_operation-placed orig r ∙ rw there refl in
          let away : (x == orig) ≡ false = ground (arith, differs, there) in
          rw (there, e, away) refl
    ]

chain_over-standing :
    (rss : List (List Replacement)) (off orig : ℕ)
    → All DistinctReplacements rss
    → All (λ (rs : List Replacement). placed_by rs off orig ≢ some orig) rss
    → chain_over rss off orig orig ≡ standing rss [] off orig
unfolding chain_over
chain_over-standing [] off orig ds others = refl
chain_over-standing (rs ∷ rss) off orig ds others =
    let e = chain_through-placed rs off orig ds.0 others.0 in
    elim (Option-cases (placed_by rs off orig)) [
      | inl absent ↦
          let e' : chain_through rs off orig orig ≡ (orig, false) = e ∙ rw absent refl in
          rw (absent, e') (chain_over-standing rss off orig ds.1 others.1)
      | inr (x, there) ↦
          let e' : chain_through rs off orig orig ≡ (x, true) = e ∙ rw there refl in
          rw (there, e') refl
    ]

-- The normal operation for foreign data is what the normal instrumentor alone puts in the place of
-- the original. If each instrumentor before it in the chain has one replacement for an offset at most,
-- and none puts the original itself there, the chained operation is what they would put there without
-- the normal one: the replacement of the last of them that has one, or the original.
pub next_operations :
    (s : Foreign) (f offset : ℕ)
    → let op_orig =
        instrument_data_get_orig_operation s.normal (s.foreigns f).idata_binded offset in
      let before = map (replacements_of s) (preceding f (s.chains (s.foreigns f).idata_binded)) in
      All DistinctReplacements before
      → All (λ (rs : List Replacement). placed_by rs offset op_orig ≢ some op_orig) before
      → (apf_idata_foreign_ops_get_normal_operation s f offset
          ≡ standing [] s.normal.replacements offset op_orig)
        × (apf_idata_foreign_ops_get_chain_operation s f offset ≡ standing before [] offset op_orig)
unfolding apf_idata_foreign_ops_get_normal_operation apf_idata_foreign_ops_get_chain_operation
next_operations s f offset ds others = (
  replaced_normally-placed s.normal.replacements offset _,
  chain_over-standing _ offset _ ds others,
)
