-- ===== src/Foreign/Restored.antt =====
-- Creating foreign data puts its replacements on top of the chain, and destroying it takes them away.
use kedr_callback_operations.Prelude.{
  ℕ, ◌≡◌, ◌≢◌, refl, sym, ap, ◌∙◌, subst, true, false, Option, none, some, List, [], ◌∷◌, ◌++◌,
  arith, Bool-cases, Option-cases, inl, inr, ◌==◌, ==_iff, ==-refl, All, All-left, All-right,
}
use kedr_callback_operations.Payloads.Types.{Replacement}
use kedr_callback_operations.Instrumentation.Replace.{
  Operations, put, DistinctReplacements, replacement_at, replace_operation_generic,
  operation_at_offset,
}
use kedr_callback_operations.Instrumentation.Place.{
  InstrumentorState, write, ap_idata_ops_get_orig_operation, uc_idata_ops_get_orig_operation,
}
use kedr_callback_operations.Instrumentor.{Mechanism, at_place, use_copy, Instrumentor}
use kedr_callback_operations.Instrumentor.Data.{
  get_repl_operations, get_orig_operation_of, instrument_data_get_repl_operations,
  instrument_data_get_orig_operation,
}
use kedr_callback_operations.Foreign.Chain.{
  write_op, for_each_replacement, foreign_replace, foreign_restore_op, foreign_restore,
}
use kedr_callback_operations.Foreign.Standing.{
  placed, or_op, placed_by, standing, generic-placed, IsOwn, foreign_restore_op-standing,
}

-- The original operations stand elsewhere than the replaced ones, or in a copy.
abbrev pub IsApart : Mechanism → Type 0
IsApart (at_place d) = Unit {0}
IsApart (use_copy d) = d.ops_orig_elem.ops_elem.key ≢ d.ops_repl_elem.ops_elem.key

orig-write :
    (kind : Mechanism) (s : InstrumentorState) (ops : ℕ) (new : Operations) (off : ℕ)
    → IsApart kind
    → ops ≡ get_repl_operations kind
    → get_orig_operation_of kind (record s { memory = write s.memory ops new }) off
      ≡ get_orig_operation_of kind s off
unfolding get_orig_operation_of get_repl_operations ap_idata_ops_get_orig_operation
    uc_idata_ops_get_orig_operation operation_at_offset
orig-write (at_place d) s ops new off apart same = refl
orig-write (use_copy d) s ops new off apart same =
    let other : (d.ops_orig_elem.ops_elem.key == ops) ≡ false = ground (arith, apart, same) in
    rw other refl

pub replacement_at-offset :
    (rs : List Replacement) (off : ℕ) (r : Replacement)
    → replacement_at rs off ≡ some r
    → r.operation_offset ≡ off
replacement_at-offset [] off r h = cc
replacement_at-offset (x ∷ rs) off r h = elim (Bool-cases (x.operation_offset == off)) [
  | inl here ↦ ground (arith, h, here)
  | inr later ↦ replacement_at-offset rs off r (ground (arith, h, later))
]

-- The new value at an offset.
abbrev changed_by : (Replacement → ℕ → ℕ → ℕ) → Option Replacement → (op_orig op : ℕ) → ℕ
changed_by change none op_orig op = op
changed_by change (some r) op_orig op = change r op_orig op

value-cons :
    (change : Replacement → ℕ → ℕ → ℕ) (r : Replacement) (rs : List Replacement)
    (orig mem : Operations) (off orig₁ op₁ : ℕ)
    → replacement_at rs r.operation_offset ≡ none
    → orig₁ ≡ orig off
    → op₁
      ≡ put mem r.operation_offset (change r (orig r.operation_offset) (mem r.operation_offset)) off
    → changed_by change (replacement_at rs off) orig₁ op₁
      ≡ changed_by change (replacement_at (r ∷ rs) off) (orig off) (mem off)
value-cons change r rs orig mem off orig₁ op₁ absent same written =
    let o = r.operation_offset in
    elim (Bool-cases (o == off)) [
      | inl here ↦
          let e : o ≡ off = (==_iff o off).0 here in
          let gone : replacement_at rs off ≡ none = ap (replacement_at rs) (sym e) ∙ absent in
          let there : (off == o) ≡ true = ground (arith, e) in
          rw (here, gone) (written ∙ rw there (ap (λ (n : ℕ). change r (orig n) (mem n)) e))
      | inr later ↦
          let away : (off == o) ≡ false = ground (arith, later) in
          let kept : op₁ ≡ mem off = written ∙ rw away refl in rw (later, same, kept) refl
    ]

module _ (change : Replacement → ℕ → ℕ → ℕ) (a : ℕ) where
  -- The original operations, the other structures and the replacements are as before.
  pub record Loops (found : ℕ → Option Replacement) (m m' : Instrumentor) : Type 0 where
    pub values :
        (off : ℕ)
        → m'.state.memory (instrument_data_get_repl_operations m a) off
          ≡ changed_by change
              (found off)
              (instrument_data_get_orig_operation m a off)
              (m.state.memory (instrument_data_get_repl_operations m a) off)
    pub origs :
        (off : ℕ)
        → instrument_data_get_orig_operation m' a off ≡ instrument_data_get_orig_operation m a off
    pub replacements : m'.replacements ≡ m.replacements
    pub repl : instrument_data_get_repl_operations m' a ≡ instrument_data_get_repl_operations m a

  for_each_replacement-Loops :
      (rs : List Replacement) (m : Instrumentor)
      → DistinctReplacements rs
      → IsApart (m.idatas a).i_ops
      → Loops
          (replacement_at rs)
          m
          (for_each_replacement change rs a (instrument_data_get_repl_operations m a) m)
  unfolding for_each_replacement instrument_data_get_repl_operations
      instrument_data_get_orig_operation
  for_each_replacement-Loops [] m d apart = record {
    values = λ off. refl;
    origs = λ off. refl;
    replacements = refl;
    repl = refl;
  }
  for_each_replacement-Loops (r ∷ rs) m d apart =
      let ops = get_repl_operations (m.idatas a).i_ops in
      let o = r.operation_offset in
      let orig = get_orig_operation_of (m.idatas a).i_ops m.state in
      let op = change r (orig o) (m.state.memory ops o) in
      let m₁ = write_op ops o op m in
      let rest = for_each_replacement-Loops rs m₁ d.1 apart in
      let same : (off : ℕ) → get_orig_operation_of (m.idatas a).i_ops m₁.state off ≡ orig off =
        λ off. orig-write (m.idatas a).i_ops m.state ops _ off apart refl in
      let written : (off : ℕ) → m₁.state.memory ops off ≡ put (m.state.memory ops) o op off =
        λ off. rw (==-refl ops) refl in
      record {
        values = λ off.
            rest.values off
            ∙ value-cons change r rs orig (m.state.memory ops) off _ _ d.0 (same off) (written off);
        origs = λ off. rest.origs off ∙ same off;
        replacements = rest.replacements;
        repl = rest.repl;
      }

-- In the replaced operations of the data at `a` stands what the chain `rss` puts there, the last
-- instrumentor first.
abbrev pub Stands : List (List Replacement) → ℕ → Instrumentor → Type 0
Stands rss a m =
    (off : ℕ)
    → m.state.memory (instrument_data_get_repl_operations m a) off
      ≡ standing rss m.replacements off (instrument_data_get_orig_operation m a off)

-- No other replacement of the chain, and no original operation, is one of `rs`.
abbrev pub AreOwn :
    List Replacement → (after before : List (List Replacement)) → ℕ → Instrumentor → Type 0
AreOwn rs after before a m =
    (off : ℕ) (r : Replacement)
    → replacement_at rs off ≡ some r
    → IsOwn r.repl (after ++ before) m.replacements off (instrument_data_get_orig_operation m a off)

changed_by-placed :
    (found : Option Replacement) (orig op : ℕ)
    → changed_by (λ r o x. replace_operation_generic x o r) found orig op
      ≡ or_op (placed found orig) op
changed_by-placed none orig op = refl
changed_by-placed (some r) orig op = generic-placed op orig r

module _ (a : ℕ) (m : Instrumentor) (rs : List Replacement) (d : DistinctReplacements rs)
    (apart : IsApart (m.idatas a).i_ops) where
  -- With one replacement for an offset at most and original operations that stand apart: the loop
  -- of the creation puts the instrumentor on top of a chain, whatever the chain is.
  pub foreign_replace-Stands :
      (rss : List (List Replacement))
      → Stands rss a m
      → Stands (rs ∷ rss) a (foreign_replace rs a (instrument_data_get_repl_operations m a) m)
  unfolding foreign_replace
  foreign_replace-Stands rss before off =
      let change : Replacement → ℕ → ℕ → ℕ = λ r o x. replace_operation_generic x o r in
      let m' = for_each_replacement change rs a (instrument_data_get_repl_operations m a) m in
      let l = for_each_replacement-Loops change a rs m d apart in
      ap (λ (ops : ℕ). m'.state.memory ops off) l.repl
      ∙ l.values off
      ∙ changed_by-placed (replacement_at rs off) _ _
      ∙ ap (λ (x : ℕ). or_op (placed_by rs off (instrument_data_get_orig_operation m a off)) x)
          (before off)
      ∙ sym (
          ap (λ (o : ℕ). standing (rs ∷ rss) m'.replacements off o) (l.origs off)
          ∙ ap
              (λ (n : List Replacement).
                standing (rs ∷ rss) n off (instrument_data_get_orig_operation m a off))
              l.replacements)

standing-absent :
    (after : List (List Replacement)) (rs : List Replacement) (before : List (List Replacement))
    (normal : List Replacement) (off orig : ℕ)
    → replacement_at rs off ≡ none
    → standing (after ++ rs ∷ before) normal off orig ≡ standing (after ++ before) normal off orig
standing-absent [] rs before normal off orig h = rw h refl
standing-absent (other ∷ after) rs before normal off orig h =
    ap (or_op (placed_by other off orig)) (standing-absent after rs before normal off orig h)

module _ (rs : List Replacement) (after before : List (List Replacement))
    (normal : List Replacement) (ds : All DistinctReplacements before)
    (dn : DistinctReplacements normal) where
  restored-at :
      (off orig : ℕ) (r : Replacement)
      → replacement_at rs off ≡ some r
      → IsOwn r.repl (after ++ before) normal off orig
      → foreign_restore_op r before normal orig (standing (after ++ rs ∷ before) normal off orig)
        ≡ standing (after ++ before) normal off orig
  restored-at off orig r found own =
      subst
        (λ (o : ℕ).
          replacement_at rs o ≡ some r
          → IsOwn r.repl (after ++ before) normal o orig
          → foreign_restore_op r before normal orig (standing (after ++ rs ∷ before) normal o orig)
            ≡ standing (after ++ before) normal o orig)
        (replacement_at-offset rs off r found)
        (λ found' own'.
          foreign_restore_op-standing r after rs before normal orig found' ds dn
            (All-left _ after before own'.others)
            (record {
              others = All-right _ after before own'.others;
              not_normal = own'.not_normal;
              not_original = own'.not_original;
            }))
        found own

  restored-value :
      (off orig op : ℕ)
      → op ≡ standing (after ++ rs ∷ before) normal off orig
      → ((r : Replacement)
          → replacement_at rs off ≡ some r
          → IsOwn r.repl (after ++ before) normal off orig)
      → changed_by (λ r o x. foreign_restore_op r before normal o x) (replacement_at rs off) orig op
        ≡ standing (after ++ before) normal off orig
  restored-value off orig op same own = elim (Option-cases (replacement_at rs off)) [
    | inl absent ↦ rw absent (same ∙ standing-absent after rs before normal off orig absent)
    | inr (r, found) ↦ rw found (
        ap (foreign_restore_op r before normal orig) same
        ∙ restored-at off orig r found (own r found))
  ]

-- With one replacement for an offset at most in each instrumentor, original operations that stand
-- apart, and replacements that no other one of the chain and no original shares: the loop of the
-- destruction takes an instrumentor out of any place of a chain, as if it had never been there.
pub foreign_restore-Stands :
    (a : ℕ) (m : Instrumentor) (rs : List Replacement) (after before : List (List Replacement))
    → DistinctReplacements rs
    → All DistinctReplacements before
    → DistinctReplacements m.replacements
    → IsApart (m.idatas a).i_ops
    → AreOwn rs after before a m
    → Stands (after ++ rs ∷ before) a m
    → Stands
        (after ++ before)
        a
        (foreign_restore rs before a (instrument_data_get_repl_operations m a) m)
unfolding foreign_restore
foreign_restore-Stands a m rs after before d ds dn apart own stood off =
    let change : Replacement → ℕ → ℕ → ℕ =
      λ r o x. foreign_restore_op r before m.replacements o x in
    let m' = for_each_replacement change rs a (instrument_data_get_repl_operations m a) m in
    let l = for_each_replacement-Loops change a rs m d apart in
    ap (λ (ops : ℕ). m'.state.memory ops off) l.repl
    ∙ l.values off
    ∙ restored-value rs after before m.replacements ds dn off _ _ (stood off) (own off)
    ∙ sym (
        ap (λ (o : ℕ). standing (after ++ before) m'.replacements off o) (l.origs off)
        ∙ ap
            (λ (n : List Replacement).
              standing (after ++ before) n off (instrument_data_get_orig_operation m a off))
            l.replacements)
