-- ===== src/Instrumentor/Grow.antt =====
-- A new structure in the tables: what its search elements change for the others.
use kedr_callback_operations.Prelude.{
  ℕ, ◌+◌, ◌<◌, ◌≡◌, refl, sym, ◌∙◌, subst, true, false, none, some, arith, Bool-cases, inl, inr,
  ◌==◌, ==-refl,
}
use kedr_callback_operations.Kernel.{bump}
use kedr_callback_operations.HashTable.Buckets.{elements}
use kedr_callback_operations.HashTable.Valid.{Bounded}
use kedr_callback_operations.HashTable.Registry.{has_node}
use kedr_callback_operations.Instrumentation.Place.{InstrumentorState, InstrumentDataSearch}
use kedr_callback_operations.Instrumentor.{
  Mechanism, at_place, use_copy, InstrumentData, Instrumentor, at,
}
use kedr_callback_operations.Instrumentor.Data.{my_operations}
use kedr_callback_operations.Instrumentor.Tables.{Directory, TabledIn, dir-has_node}
use kedr_callback_operations.Instrumentor.Tracked.{Leads, Placed, IsTracked}

-- Every entry leads to a structure that is held and has the operations.
abbrev pub Owns : Directory → (ℕ → ℕ) → (ℕ → ℕ) → (ℕ → Mechanism) → Type 0
Owns dir searches held kinds =
    (key : ℕ) (d : InstrumentDataSearch)
    → dir key ≡ some d
    → (0 < held (searches d.ops_elem.node))
      × (my_operations (kinds (searches d.ops_elem.node)) key ≡ true)

abbrev pub kinds_of : (ℕ → InstrumentData) → ℕ → Mechanism
kinds_of idatas b = (idatas b).i_ops

module _ (hash_ptr : ℕ → ℕ → ℕ) (bounded : Bounded hash_ptr) (dir : Directory)
    (s : InstrumentorState) (searches : ℕ → ℕ) (d : InstrumentDataSearch) (a : ℕ)
    (t : TabledIn hash_ptr dir s)
    (fresh : has_node d.ops_elem.node (elements s.idata_table.heads) ≡ false) where
  old_node :
      (key : ℕ) (d' : InstrumentDataSearch)
      → dir key ≡ some d'
      → (d'.ops_elem.node == d.ops_elem.node) ≡ false
  old_node key d' h = ground (arith, dir-has_node hash_ptr bounded dir s key d' t h, fresh)

  old_search :
      (key : ℕ) (d' : InstrumentDataSearch)
      → dir key ≡ some d'
      → at searches d.ops_elem.node a d'.ops_elem.node ≡ searches d'.ops_elem.node
  old_search key d' h = rw (old_node key d' h) refl

  pub Leads-grow :
      (b : ℕ) (d' : InstrumentDataSearch)
      → dir d.ops_elem.key ≡ none
      → Leads dir searches b d'
      → Leads (at dir d.ops_elem.key (some d)) (at searches d.ops_elem.node a) b d'
  Leads-grow b d' absent l = record {
    found = ground (arith, l.found, absent);
    owned = old_search d'.ops_elem.key d' l.found ∙ l.owned;
  }

  pub Leads-new : Leads (at dir d.ops_elem.key (some d)) (at searches d.ops_elem.node a) a d
  Leads-new = record {
    found = rw (==-refl d.ops_elem.key) refl;
    owned = rw (==-refl d.ops_elem.node) refl;
  }

  pub Placed-grow :
      (b : ℕ) (kind : Mechanism)
      → dir d.ops_elem.key ≡ none
      → Placed dir searches b kind
      → Placed (at dir d.ops_elem.key (some d)) (at searches d.ops_elem.node a) b kind
  Placed-grow b (at_place x) absent p = Leads-grow b x.ops_elem absent p
  Placed-grow b (use_copy x) absent (p, q, apart) =
      (Leads-grow b x.ops_orig_elem absent p, Leads-grow b x.ops_repl_elem absent q, apart)

  pub Owns-grow :
      (held : ℕ → ℕ) (kinds : ℕ → Mechanism)
      → 0 < held a
      → my_operations (kinds a) d.ops_elem.key ≡ true
      → Owns dir searches held kinds
      → Owns (at dir d.ops_elem.key (some d)) (at searches d.ops_elem.node a) held kinds
  Owns-grow held kinds alive mine o key d' h = elim (Bool-cases (key == d.ops_elem.key)) [
    | inl here ↦
        let same : d ≡ d' = ground (arith, h, here) in
        let lead : a ≡ at searches d.ops_elem.node a d'.ops_elem.node =
          ground (arith, same, ==-refl d.ops_elem.node) in
        subst (λ (b : ℕ). (0 < held b) × (my_operations (kinds b) key ≡ true)) lead
          (alive, subst (λ (n : ℕ). my_operations (kinds a) n ≡ true) (ground (arith, here)) mine)
    | inr other ↦
        let old : dir key ≡ some d' = ground (arith, h, other) in
        subst (λ (b : ℕ). (0 < held b) × (my_operations (kinds b) key ≡ true))
          (sym (old_search key d' old)) (o key d' old)
  ]

-- The entries of the old structures, once a new one is held at the free address `a`.
pub Owns-more :
    (hash_ptr : ℕ → ℕ → ℕ) (held : ℕ → ℕ) (m : Instrumentor) (t : IsTracked hash_ptr held m) (a : ℕ)
    (new : InstrumentData)
    → held a ≡ 0
    → Owns t.dir m.searches (bump held a (λ n. n + 1)) (kinds_of (at m.idatas a new))
Owns-more hash_ptr held m t a new free key d h =
    let b = m.searches d.ops_elem.node in
    let live : 0 < held b = t.live key d h in
    let other : (b == a) ≡ false = ground (arith, live, free) in
    (rw other live, rw (other, kinds_of) (t.mine key d h))

-- A new structure at the free address `a`, given the state of the tables that has it.
pub new-IsTracked :
    (hash_ptr : ℕ → ℕ → ℕ) (held : ℕ → ℕ) (m : Instrumentor) (t : IsTracked hash_ptr held m) (a : ℕ)
    (kind : Mechanism) (s' : InstrumentorState) (dir' : Directory) (searches' : ℕ → ℕ)
    → held a ≡ 0
    → TabledIn hash_ptr dir' s'
    → Placed dir' searches' a kind
    → ((b : ℕ) (k : Mechanism) → Placed t.dir m.searches b k → Placed dir' searches' b k)
    → Owns dir' searches'
        (bump held a (λ n. n + 1))
        (kinds_of (at m.idatas a (record { refs = 1; i_ops = kind })))
    → IsTracked hash_ptr (bump held a (λ n. n + 1)) (record m {
      state = s';
      idatas = at m.idatas a (record { refs = 1; i_ops = kind });
      searches = searches';
    })
new-IsTracked hash_ptr held m t a kind s' dir' searches' free tab mine others owns =
    let new : InstrumentData = record { refs = 1; i_ops = kind } in
    record {
      dir = dir';
      tabled = tab;
      counted = λ b. ground (arith, t.counted b, free);
      placed = λ b h. elim (Bool-cases (b == a)) [
        | inl here ↦
            rw here (subst (λ (c : ℕ). Placed dir' searches' c kind) (ground (arith, here)) mine)
        | inr other ↦ rw other (others b (m.idatas b).i_ops (t.placed b (ground (arith, h, other))))
      ];
      live = λ key d h. (owns key d h).0;
      mine = λ key d h. (owns key d h).1;
    }
