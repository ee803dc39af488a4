-- ===== src/Instrumentor/Tracked.antt =====
-- The invariant of the instrument data: each structure is referenced as often as it is held, it is in
-- the tables as long as it is, and the tables lead to such structures only.
use kedr_callback_operations.Prelude.{
  ℕ, ◌+◌, ◌<◌, ◌≡◌, ◌≢◌, ap, ◌∙◌, subst, true, none, some, arith, Option-cases, inl, inr,
}
use kedr_callback_operations.Kernel.{bump}
use kedr_callback_operations.HashTable.{find_elem}
use kedr_callback_operations.Instrumentation.Place.{InstrumentDataSearch}
use kedr_callback_operations.Instrumentor.{Mechanism, at_place, use_copy, Instrumentor}
use kedr_callback_operations.Instrumentor.Data.{
  my_operations, instrumentor_find_data, instrument_data_ref, with_refs,
}
use kedr_callback_operations.Instrumentor.Tables.{Directory, own_elem, TabledIn}

-- The search structure is in the directory, and leads to `a`.
pub record Leads (dir : Directory) (searches : ℕ → ℕ) (a : ℕ) (d : InstrumentDataSearch)
    : Type 0 where
  pub found : dir d.ops_elem.key ≡ some d
  pub owned : searches d.ops_elem.node ≡ a

abbrev pub Placed : Directory → (ℕ → ℕ) → ℕ → Mechanism → Type 0
Placed dir searches a (at_place d) = Leads dir searches a d.ops_elem
Placed dir searches a (use_copy d) =
    Leads dir searches a d.ops_orig_elem
    × Leads dir searches a d.ops_repl_elem
    × (d.ops_orig_elem.ops_elem.key ≢ d.ops_repl_elem.ops_elem.key)

module _ (hash_ptr : ℕ → ℕ → ℕ) where
  -- `held` says how many references there are to the structure at each address.
  pub record IsTracked (held : ℕ → ℕ) (m : Instrumentor) : Type 0 where
    pub dir : Directory
    pub tabled : TabledIn hash_ptr dir m.state
    pub counted : (a : ℕ) → (m.idatas a).refs ≡ held a
    pub placed : (a : ℕ) → 0 < held a → Placed dir m.searches a (m.idatas a).i_ops
    pub live :
        (key : ℕ) (d : InstrumentDataSearch)
        → dir key ≡ some d
        → 0 < held (m.searches d.ops_elem.node)
    pub mine :
        (key : ℕ) (d : InstrumentDataSearch)
        → dir key ≡ some d
        → my_operations (m.idatas (m.searches d.ops_elem.node)).i_ops key ≡ true

  module _ (held : ℕ → ℕ) (m : Instrumentor) (t : IsTracked held m) where
    -- What a lookup finds is referenced and has the operations.
    pub find_data-live :
        (ops a : ℕ)
        → instrumentor_find_data hash_ptr m ops ≡ some a
        → (0 < held a) × (my_operations (m.idatas a).i_ops ops ≡ true)
    unfolding instrumentor_find_data
    find_data-live ops a h = elim (Option-cases (t.dir ops)) [
      | inl absent ↦ cc (t.tabled.own_finds ops, h, absent)
      | inr (d, found) ↦
          let e : find_elem hash_ptr m.state.idata_table ops ≡ some d.ops_elem =
            t.tabled.own_finds ops ∙ ap own_elem found in
          let same : m.searches d.ops_elem.node ≡ a = ground (arith, e, h) in
          subst (λ (b : ℕ). (0 < held b) × (my_operations (m.idatas b).i_ops ops ≡ true)) same
            (t.live ops d found, t.mine ops d found)
    ]

    pub find_data-absent :
        (ops : ℕ) → instrumentor_find_data hash_ptr m ops ≡ none → t.dir ops ≡ none
    unfolding instrumentor_find_data
    find_data-absent ops h = elim (Option-cases (t.dir ops)) [
      | inl absent ↦ absent
      | inr (d, found) ↦
          let e : find_elem hash_ptr m.state.idata_table ops ≡ some d.ops_elem =
            t.tabled.own_finds ops ∙ ap own_elem found in
          ground (arith, e, h)
    ]

    -- A change of the count of a structure that stays alive.
    pub with_refs-IsTracked :
        (a : ℕ) (change : ℕ → ℕ)
        → 0 < held a
        → 0 < change (held a)
        → IsTracked (bump held a change) (with_refs m a change)
    with_refs-IsTracked a change old new =
        let kind : (b : ℕ) → (m.idatas b).i_ops ≡ ((with_refs m a change).idatas b).i_ops =
          λ b. ground arith in
        let alive : (b : ℕ) → 0 < bump held a change b → 0 < held b = λ b h. ground arith in
        let alive' : (b : ℕ) → 0 < held b → 0 < bump held a change b = λ b h. ground arith in
        record {
          dir = t.dir;
          tabled = t.tabled;
          counted = λ b. ground (arith, t.counted b);
          placed = λ b h. subst (Placed t.dir m.searches b) (kind b) (t.placed b (alive b h));
          live = λ key d h. alive' (m.searches d.ops_elem.node) (t.live key d h);
          mine = λ key d h.
              subst (λ (k : Mechanism). my_operations k key ≡ true)
                (kind (m.searches d.ops_elem.node)) (t.mine key d h);
        }

    pub ref-IsTracked :
        (a : ℕ) → 0 < held a → IsTracked (bump held a (λ n. n + 1)) (instrument_data_ref a m)
    unfolding instrument_data_ref
    ref-IsTracked a h = with_refs-IsTracked a (λ n. n + 1) h (omega arith)
