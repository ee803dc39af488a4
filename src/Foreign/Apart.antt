-- ===== src/Foreign/Apart.antt =====
-- What a bind of a foreign instrumentor continues with is none of its own replacements.
use kedr_callback_operations.Prelude.{
  ℕ, ◌≡◌, ◌≢◌, some, List, [], ◌∷◌, map, arith, Bool-cases, inl, inr, ◌==◌, All,
}
use kedr_callback_operations.Payloads.Types.{
  Replacement, replace_all, replace_not_null, replace_null,
}
use kedr_callback_operations.Instrumentation.Replace.{replace_operation_generic, replace_operation}
use kedr_callback_operations.Instrumentor.Original.{IsForeignTo}
use kedr_callback_operations.Foreign.{ForeignData, Foreign}
use kedr_callback_operations.Foreign.Chain.{
  replaced_normally, chain_through, chain_over, preceding_from, preceding, find_in_chain,
  replacements_of,
}

module _ (own : List Replacement) where
  abbrev pub AreForeignTo : List Replacement → Type 0
  AreForeignTo rs = All (λ (r : Replacement). IsForeignTo own r.repl) rs

  replace_operation-foreign :
      (op : ℕ) (r : Replacement)
      → IsForeignTo own op
      → IsForeignTo own r.repl
      → IsForeignTo own (replace_operation op r)
  unfolding replace_operation replace_operation_generic
  replace_operation-foreign op r h hr = replaced op r.repl r.mode h hr
    where
      replaced :
          (op repl : ℕ) (mode : _)
          → IsForeignTo own op
          → IsForeignTo own repl
          → IsForeignTo own
              (replace_operation op (record { operation_offset = 0; repl = repl; mode = mode }))
      replaced op repl replace_all h hr = hr
      replaced op repl replace_not_null h hr = elim (Bool-cases (op == 0)) [
        | inl null ↦ rw null h
        | inr other ↦ rw other hr
      ]
      replaced op repl replace_null h hr = elim (Bool-cases (op == 0)) [
        | inl null ↦ rw null hr
        | inr other ↦ rw other h
      ]

  pub replaced_normally-foreign :
      (rs : List Replacement) (off op : ℕ)
      → AreForeignTo rs
      → IsForeignTo own op
      → IsForeignTo own (replaced_normally rs off op)
  unfolding replaced_normally
  replaced_normally-foreign [] off op hs h = h
  replaced_normally-foreign (r ∷ rs) off op hs h = elim (Bool-cases (r.operation_offset == off)) [
    | inl here ↦ rw here (replace_operation-foreign op r h hs.0)
    | inr later ↦ rw later (replaced_normally-foreign rs off op hs.1 h)
  ]

  chain_through-foreign :
      (rs : List Replacement) (off orig op : ℕ)
      → AreForeignTo rs
      → IsForeignTo own op
      → IsForeignTo own (chain_through rs off orig op).0
  unfolding chain_through
  chain_through-foreign [] off orig op hs h = h
  chain_through-foreign (r ∷ rs) off orig op hs h = elim (Bool-cases (r.operation_offset == off)) [
    | inr later ↦ rw later (chain_through-foreign rs off orig op hs.1 h)
    | inl here ↦
        let h' = replace_operation-foreign op r h hs.0 in
        elim (Bool-cases (replace_operation op r == orig)) [
          | inl same ↦ rw (here, same) (chain_through-foreign rs off orig _ hs.1 h')
          | inr other ↦ rw (here, other) h'
        ]
  ]

  pub chain_over-foreign :
      (rss : List (List Replacement)) (off orig op : ℕ)
      → All AreForeignTo rss
      → IsForeignTo own orig
      → IsForeignTo own op
      → IsForeignTo own (chain_over rss off orig op)
  unfolding chain_over
  chain_over-foreign [] off orig op hs ho h = ho
  chain_over-foreign (rs ∷ rss) off orig op hs ho h =
      let h' = chain_through-foreign rs off orig op hs.0 h in
      elim (Bool-cases (chain_through rs off orig op).1) [
        | inl returned ↦ rw returned h'
        | inr passed ↦ rw passed (chain_over-foreign rss off orig _ hs.1 ho h')
      ]

-- Entries of other instrumentors than `n`.
abbrev AreOthers : (ℕ → ForeignData) → ℕ → List ℕ → Type 0
AreOthers foreigns n fs = All (λ (g : ℕ). (foreigns g).instrumentor ≢ n) fs

preceding_from-others :
    (foreigns : ℕ → ForeignData) (n f : ℕ) (seen fs : List ℕ)
    → find_in_chain foreigns n fs ≡ some f
    → AreOthers foreigns n seen
    → AreOthers foreigns n (preceding_from seen f fs)
unfolding find_in_chain preceding_from
preceding_from-others foreigns n f seen [] e hs = tt
preceding_from-others foreigns n f seen (g ∷ gs) e hs = elim (Bool-cases (g == f)) [
  | inl here ↦ rw here hs
  | inr away ↦ elim (Bool-cases ((foreigns g).instrumentor == n)) [
    | inl found ↦ absurd (ground (arith, e, found, away))
    | inr other ↦ rw away (
        preceding_from-others foreigns n f (g ∷ seen) gs (ground (arith, e, other))
          ((λ same. ground (arith, other, same)), hs))
  ]
]

-- Every other instrumentor's replacements are foreign to `own`, so are those before `f`.
pub preceding-foreign :
    (own : List Replacement) (s : Foreign) (n f : ℕ) (fs : List ℕ)
    → ((g : ℕ) → g ≢ n → AreForeignTo own (s.instrumentors g).replacements)
    → find_in_chain s.foreigns n fs ≡ some f
    → All (AreForeignTo own) (map (replacements_of s) (preceding f fs))
unfolding preceding replacements_of
preceding-foreign own s n f fs others e =
    mapped (preceding_from [] f fs) (preceding_from-others s.foreigns n f [] fs e tt)
  where
    mapped :
        (gs : List ℕ)
        → AreOthers s.foreigns n gs
        → All (AreForeignTo own) (map (replacements_of s) gs)
    mapped [] h = tt
    mapped (g ∷ gs) h = (others _ h.0, mapped gs h.1)
