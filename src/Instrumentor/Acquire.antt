-- ===== src/Instrumentor/Acquire.antt =====
-- instrumentor_get_data: a reference more to an old structure, or a new structure.
pub mod Place
pub mod Copy
pub mod Get
use kedr_callback_operations.Prelude.{
  ℕ, ◌+◌, ◌-◌, ◌<◌, ◌≡◌, ◌≢◌, refl, sym, ap, ◌∙◌, subst, Bool, true, false, ◌||◌, Option, none,
  some, List, arith, Bool-cases, Option-cases, inl, inr, ◌==◌, ==-refl, if◌then◌else◌,
}
use kedr_callback_operations.Kernel.{Kernel, Code, success, fail, Errno, enomem, ebusy, bump}
use kedr_callback_operations.HashTable.{Table, elem_init}
use kedr_callback_operations.HashTable.Buckets.{elements}
use kedr_callback_operations.HashTable.Valid.{Bounded}
use kedr_callback_operations.HashTable.Registry.{has_node}
use kedr_callback_operations.Payloads.Types.{Replacement}
use kedr_callback_operations.Instrumentation.Replace.{
  Operations, DistinctReplacements, restore_operations,
}
use kedr_callback_operations.Instrumentation.Place.{
  InstrumentorState, write, InstrumentDataSearch, ApInstrumentData, UcInstrumentData,
  instrument_data_search_init, instrumentor_add_data_search, instrumentor_remove_data_search,
  ap_created, ap_idata_create, uc_created, uc_added, uc_idata_create, ap_idata_ops_my_operations,
  uc_idata_ops_my_operations,
}
use kedr_callback_operations.Instrumentor.{
  Mechanism, at_place, use_copy, InstrumentData, Instrumentor, Addresses, at,
}
use kedr_callback_operations.Instrumentor.Data.{
  my_operations, get_orig_operations, instrumentor_find_data, instrument_data_ref, ap_made, uc_made,
  create_at_place, create_copy, get_new_data, instrumentor_get_data,
}
use kedr_callback_operations.Instrumentor.Tables.{
  Directory, TabledIn, IsFree, Entering, refused, entered, add_data_search-Entering,
  remove_data_search-Tabled,
}
use kedr_callback_operations.Instrumentor.Tracked.{
  Leads, Placed, IsTracked, find_data-live, find_data-absent, ref-IsTracked,
}
use kedr_callback_operations.Instrumentor.Grow.{
  Owns, kinds_of, Leads-new, Placed-grow, Owns-grow, Owns-more, new-IsTracked,
}

-- No element or structure is at these addresses yet.
pub record IsFresh (held : ℕ → ℕ) (p : Addresses) (m : Instrumentor) : Type 0 where
  pub idata : held p.idata ≡ 0
  pub node : has_node p.node (elements m.state.idata_table.heads) ≡ false
  pub node₂ : has_node p.node₂ (elements m.state.idata_table.heads) ≡ false
  pub node_global : has_node p.node_global (elements m.state.ops_table_global.heads) ≡ false
  pub node_global₂ : has_node p.node_global₂ (elements m.state.ops_table_global.heads) ≡ false
  pub apart : p.node ≢ p.node₂
  pub apart_global : p.node_global ≢ p.node_global₂
  pub watch_data : has_node p.watch_data (elements m.objects_table.heads) ≡ false

-- The watches, the pointers and the structures that are held are as before.
pub record IsSame (held : ℕ → ℕ) (m m' : Instrumentor) : Type 0 where
  pub objects : m'.objects_table ≡ m.objects_table
  pub foreign : m'.foreign_ops_p_table ≡ m.foreign_ops_p_table
  pub watches : m'.watches ≡ m.watches
  pub pointers : m'.pointers ≡ m.pointers
  pub replacements : m'.replacements ≡ m.replacements
  pub kinds : (b : ℕ) → 0 < held b → (m'.idatas b).i_ops ≡ (m.idatas b).i_ops

-- What the destruction of a structure makes of the memory.
abbrev pub undone : List Replacement → Mechanism → (ℕ → Operations) → ℕ → Operations
undone rs (at_place d) memory =
    let ops = d.ops_elem.ops_elem.key in
    write memory ops (restore_operations rs d.ops_orig (memory ops))
undone rs (use_copy d) memory = memory

-- Where the structure at `a` comes from. A new one is referenced once, its original operations are
-- those at `ops`, and its destruction gives the memory back but for the block of the copy.
pub data Origin (hash_ptr : ℕ → ℕ → ℕ) (m : Instrumentor) (p : Addresses) (ops a : ℕ)
    (m' : Instrumentor) : Type 0 where
  known : instrumentor_find_data hash_ptr m ops ≡ some a → Origin hash_ptr m p ops a m'
  made :
      (kind : Mechanism)
      → m'.idatas a ≡ record { refs = 1; i_ops = kind }
      → get_orig_operations kind ≡ ops
      → ((addr off : ℕ)
          → DistinctReplacements m.replacements
          → (addr == p.ops_repl) ≡ false
          → undone m.replacements kind m'.state.memory addr off ≡ m.state.memory addr off)
      → Origin hash_ptr m p ops a m'

module _ (hash_ptr : ℕ → ℕ → ℕ) (held : ℕ → ℕ) (m : Instrumentor) (p : Addresses) (ops : ℕ) where
  -- The outcomes for the operations at `ops`: one more reference to a structure that has them, or
  -- an error and no reference.
  pub data Gets : Code × Option ℕ × Instrumentor → Type 0 where
    got :
        (a : ℕ) {m' : Instrumentor}
        → IsTracked hash_ptr (bump held a (λ n. n + 1)) m'
        → IsSame held m m'
        → my_operations (m'.idatas a).i_ops ops ≡ true
        → Origin hash_ptr m p ops a m'
        → Gets (success, some a, m')
    lost :
        (e : Errno) {m' : Instrumentor}
        → IsTracked hash_ptr held m'
        → IsSame held m m'
        → Gets (fail e, none, m')

-- The kernel after the refusal of the first of two blocks, after that of the second, and with both.
abbrev pub refused_first : Kernel → Kernel
refused_first k = record k { asked = k.asked + 1 }

abbrev pub refused_second : Kernel → Kernel
refused_second k = record k { asked = k.asked + 1 + 1; allocated = k.allocated + 1 - 1 }

abbrev pub granted : Kernel → Kernel
granted k = record k { asked = k.asked + 1 + 1; allocated = k.allocated + 1 + 1 }

module _ (hash_ptr : ℕ → ℕ → ℕ) (held : ℕ → ℕ) (m : Instrumentor)
    (t : IsTracked hash_ptr held m) where
  pub state-IsSame : (s' : InstrumentorState) → IsSame held m (record m { state = s' })
  state-IsSame s' = record {
    objects = refl;
    foreign = refl;
    watches = refl;
    pointers = refl;
    replacements = refl;
    kinds = λ b h. refl;
  }

  pub with_tables :
      (s' : InstrumentorState)
      → TabledIn hash_ptr t.dir s'
      → IsTracked hash_ptr held (record m { state = s' })
  with_tables s' tab = record {
    dir = t.dir;
    tabled = tab;
    counted = t.counted;
    placed = t.placed;
    live = t.live;
    mine = t.mine;
  }

  pub new-IsSame :
      (a : ℕ) (new : InstrumentData) (s' : InstrumentorState) (searches' : ℕ → ℕ)
      → held a ≡ 0
      → IsSame held m (record m { state = s'; idatas = at m.idatas a new; searches = searches' })
  new-IsSame a new s' searches' free = record {
    objects = refl;
    foreign = refl;
    watches = refl;
    pointers = refl;
    replacements = refl;
    kinds = λ b h. let other : (b == a) ≡ false = ground (arith, h, free) in rw other refl;
  }
