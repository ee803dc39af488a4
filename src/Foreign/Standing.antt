-- ===== src/Foreign/Standing.antt =====
-- What stands in the operations of a chain, at one offset: the replacement of the last instrumentor
-- that has one for the original operation, of the normal one if there is none, or the original.
use kedr_callback_operations.Prelude.{
  ℕ, ◌≡◌, ◌≢◌, refl, sym, ap, ◌∙◌, Bool, true, false, Option, none, some, List, [], ◌∷◌, ◌++◌,
  arith, Bool-cases, Option-cases, inl, inr, ◌==◌, ==_iff, ==-refl, if◌then◌else◌, All,
}
use kedr_callback_operations.Payloads.Types.{
  Replacement, replace_null, replace_not_null, replace_all,
}
use kedr_callback_operations.Instrumentation.Replace.{
  DistinctReplacements, replacement_at, replace_operation_generic,
}
use kedr_callback_operations.Foreign.Chain.{
  repeat, repeat_others, repeat_normal, foreign_restore_op,
}

-- What a replacement puts in the place of an original operation.
abbrev pub placed : Option Replacement → ℕ → Option ℕ
placed none op_orig = none
placed (some r) op_orig = elim r.mode [
  | replace_all ↦ some r.repl
  | replace_not_null ↦ if op_orig == 0 then none else some r.repl
  | replace_null ↦ if op_orig == 0 then some r.repl else none
]

abbrev pub or_op : Option ℕ → ℕ → ℕ
or_op none op = op
or_op (some op') op = op'

abbrev pub placed_by : List Replacement → (offset op_orig : ℕ) → Option ℕ
placed_by rs offset op_orig = placed (replacement_at rs offset) op_orig

-- The instrumentors of the chain, the last one first, above the normal one.
abbrev pub standing : List (List Replacement) → List Replacement → (offset op_orig : ℕ) → ℕ
standing [] normal offset op_orig = or_op (placed_by normal offset op_orig) op_orig
standing (rs ∷ rss) normal offset op_orig =
    or_op (placed_by rs offset op_orig) (standing rss normal offset op_orig)

pub generic-placed :
    (op op_orig : ℕ) (r : Replacement)
    → replace_operation_generic op op_orig r ≡ or_op (placed (some r) op_orig) op
unfolding replace_operation_generic
generic-placed op op_orig r = ground arith

repeat-absent :
    (rs : List Replacement) (off orig op : ℕ)
    → replacement_at rs off ≡ none
    → repeat rs off orig op ≡ op
unfolding repeat
repeat-absent [] off orig op h = refl
repeat-absent (r ∷ rs) off orig op h = ground (arith, repeat-absent rs off orig op)

repeat-placed :
    (rs : List Replacement) (off orig op : ℕ)
    → DistinctReplacements rs
    → repeat rs off orig op ≡ or_op (placed_by rs off orig) op
unfolding repeat
repeat-placed [] off orig op d = refl
repeat-placed (r ∷ rs) off orig op d = elim (Bool-cases (r.operation_offset == off)) [
  | inl here ↦
      let gone : replacement_at rs off ≡ none =
        ap (replacement_at rs) (sym ((==_iff r.operation_offset off).0 here)) ∙ d.0 in
      rw here (repeat-absent rs off orig _ gone ∙ generic-placed op orig r)
  | inr later ↦ rw later (repeat-placed rs off orig op d.1)
]

repeat_normal-absent :
    (mine : ℕ) (rs : List Replacement) (off orig op : ℕ)
    → replacement_at rs off ≡ none
    → repeat_normal mine rs off orig op ≡ op
unfolding repeat_normal
repeat_normal-absent mine [] off orig op h = refl
repeat_normal-absent mine (r ∷ rs) off orig op h =
    ground (arith, repeat_normal-absent mine rs off orig op)

repeat_normal-placed :
    (mine : ℕ) (rs : List Replacement) (off orig op : ℕ)
    → DistinctReplacements rs
    → repeat_normal mine rs off orig op ≡ or_op (placed_by rs off orig) op
unfolding repeat_normal
repeat_normal-placed mine [] off orig op d = refl
repeat_normal-placed mine (r ∷ rs) off orig op d = elim (Bool-cases (r.operation_offset == off)) [
  | inl here ↦
      let gone : replacement_at rs off ≡ none =
        ap (replacement_at rs) (sym ((==_iff r.operation_offset off).0 here)) ∙ d.0 in
      let op' = replace_operation_generic op orig r in
      rw here (
        ap (λ (x : ℕ). if op' == mine then x else op')
          (repeat_normal-absent mine rs off orig op' gone)
        ∙ if_same (op' == mine) op'
        ∙ generic-placed op orig r)
  | inr later ↦ rw later (repeat_normal-placed mine rs off orig op d.1)
]
  where
    if_same : (b : Bool) (x : ℕ) → (if b then x else x) ≡ x
    if_same true x = refl
    if_same false x = refl

-- No other instrumentor puts `mine` there.
pub record IsOwn (mine : ℕ) (rss : List (List Replacement)) (normal : List Replacement)
    (off orig : ℕ) : Type 0 where
  pub others : All (λ (rs : List Replacement). placed_by rs off orig ≢ some mine) rss
  pub not_normal : placed_by normal off orig ≢ some mine
  pub not_original : orig ≢ mine

pub standing-other :
    (mine : ℕ) (rss : List (List Replacement)) (normal : List Replacement) (off orig : ℕ)
    → IsOwn mine rss normal off orig
    → standing rss normal off orig ≢ mine
standing-other mine [] normal off orig o same = elim (Option-cases (placed_by normal off orig)) [
  | inl absent ↦ o.not_original (rw absent at same)
  | inr (x, there) ↦ o.not_normal (there ∙ ap some (rw there at same))
]
standing-other mine (rs ∷ rss) normal off orig o same =
    elim (Option-cases (placed_by rs off orig)) [
      | inl absent ↦
          standing-other mine rss normal off orig
            (record {
              others = o.others.1;
              not_normal = o.not_normal;
              not_original = o.not_original;
            })
            (rw absent at same)
      | inr (x, there) ↦ o.others.0 (there ∙ ap some (rw there at same))
    ]

-- The search through the others and the normal instrumentor ends with what stands below.
restored_op :
    (r : Replacement) (rss : List (List Replacement)) (normal : List Replacement) (off orig : ℕ)
    → All DistinctReplacements rss
    → DistinctReplacements normal
    → IsOwn r.repl rss normal off orig
    → let op₁ = repeat_others r.repl rss off orig r.repl in
      let op₂ = repeat_normal r.repl normal off orig op₁ in
      (if op₁ == r.repl then (if op₂ == r.repl then orig else op₂) else op₁)
      ≡ standing rss normal off orig
unfolding repeat_others
restored_op r [] normal off orig ds d o = elim (Option-cases (placed_by normal off orig)) [
  | inl absent ↦
      let e : repeat_normal r.repl normal off orig r.repl ≡ r.repl =
        repeat_normal-placed r.repl normal off orig r.repl d ∙ rw absent refl in
      rw (absent, e, ==-refl r.repl) refl
  | inr (x, there) ↦
      let e : repeat_normal r.repl normal off orig r.repl ≡ x =
        repeat_normal-placed r.repl normal off orig r.repl d ∙ rw there refl in
      let other : (x == r.repl) ≡ false = ground (arith, o.not_normal, there) in
      rw (there, e, ==-refl r.repl, other) refl
]
restored_op r (rs ∷ rss) normal off orig ds d o = elim (Option-cases (placed_by rs off orig)) [
  | inl absent ↦
      let e : repeat rs off orig r.repl ≡ r.repl =
        repeat-placed rs off orig r.repl ds.0 ∙ rw absent refl in
      rw (absent, e, ==-refl r.repl)
        (restored_op r rss normal off orig ds.1 d (record {
          others = o.others.1;
          not_normal = o.not_normal;
          not_original = o.not_original;
        }))
  | inr (x, there) ↦
      let e : repeat rs off orig r.repl ≡ x =
        repeat-placed rs off orig r.repl ds.0 ∙ rw there refl in
      let other : (x == r.repl) ≡ false = ground (arith, o.others.0, there) in
      rw (there, e, other) (rw other refl)
]

placed-repl : (r : Replacement) (orig x : ℕ) → placed (some r) orig ≡ some x → x ≡ r.repl
placed-repl r orig x h = ground (arith, h)

-- Where one instrumentor of the chain has the replacement `r`: destroying its data leaves what would
-- stand there without it, whether or not a later one has replaced the operation again.
pub foreign_restore_op-standing :
    (r : Replacement) (after : List (List Replacement)) (rs : List Replacement)
    (before : List (List Replacement)) (normal : List Replacement) (orig : ℕ)
    → replacement_at rs r.operation_offset ≡ some r
    → All DistinctReplacements before
    → DistinctReplacements normal
    → All
        (λ (other : List Replacement). placed_by other r.operation_offset orig ≢ some r.repl)
        after
    → IsOwn r.repl before normal r.operation_offset orig
    → foreign_restore_op r before normal orig
        (standing (after ++ rs ∷ before) normal r.operation_offset orig)
      ≡ standing (after ++ before) normal r.operation_offset orig
unfolding foreign_restore_op
foreign_restore_op-standing r [] rs before normal orig at_r ds d others o =
    let off = r.operation_offset in
    elim (Option-cases (placed (some r) orig)) [
      | inl absent ↦
          let other : (standing before normal off orig == r.repl) ≡ false =
            ground (arith, standing-other r.repl before normal off orig o) in
          rw (at_r, absent, other) refl
      | inr (x, there) ↦
          let mine : x ≡ r.repl = placed-repl r orig x there in
          rw (at_r, there, mine, ==-refl r.repl) (restored_op r before normal off orig ds d o)
    ]
foreign_restore_op-standing r (other ∷ after) rs before normal orig at_r ds d others o =
    let off = r.operation_offset in
    elim (Option-cases (placed_by other off orig)) [
      | inl absent ↦
          rw absent (foreign_restore_op-standing r after rs before normal orig at_r ds d others.1 o)
      | inr (x, there) ↦
          let away : (x == r.repl) ≡ false = ground (arith, others.0, there) in
          rw (there, away) refl
    ]
