-- ===== src/Instrumentor.antt =====
-- The normal instrumentor of core/kedr_coi_instrumentors.c: its state, as
-- core/kedr_coi_instrumentor_internal.h declares it, with the structures that its tables point to.
pub mod Data
pub mod Watch
pub mod Create
pub mod Tables
pub mod Tracked
pub mod Release
pub mod Grow
pub mod Acquire
pub mod Watching
pub mod View
pub mod Forgotten
pub mod Watched
pub mod Refines
pub mod Destroyed
pub mod Created
pub mod Reachable
pub mod Original
pub mod Undone
use kedr_callback_operations.Prelude.{ℕ, Bool, List, ◌==◌, if◌then◌else◌}
use kedr_callback_operations.Payloads.Types.{Replacement}
use kedr_callback_operations.HashTable.{Table}
use kedr_callback_operations.Instrumentation.Place.{
  InstrumentorState, ApInstrumentData, UcInstrumentData,
}

-- `i_ops`: which of the two tables of callbacks, with the structure around `idata_base`.
pub data Mechanism : Type 0 where
  at_place : ApInstrumentData → Mechanism
  use_copy : UcInstrumentData → Mechanism

-- `refs` is an int in the source: it is never decremented at 0, and 0 here once it is freed.
pub record InstrumentData : Type 0 where
  pub refs : ℕ
  pub i_ops : Mechanism

-- A structure is known by its address. An element of a table stands first in its container, so
-- container_of is the address itself: `searches` and `watches` give the `idata` field of the search
-- structure or the watch data there.
pub record Instrumentor : Type 0 where
  -- The tables idata_table and ops_table_global, the operations in memory, and the kernel.
  pub state : InstrumentorState
  pub objects_table : Table
  pub foreign_ops_p_table : Table
  pub replacements : List Replacement
  pub replace_at_place : ℕ → Bool
  pub idatas : ℕ → InstrumentData
  pub searches : ℕ → ℕ
  pub watches : ℕ → ℕ
  -- The pointer to operations at each address `ops_p`.
  pub pointers : ℕ → ℕ

-- The addresses that kmalloc would return in one call, and those of the elements in the structures.
pub record Addresses : Type 0 where
  pub idata : ℕ
  pub node : ℕ
  pub node_global : ℕ
  pub node₂ : ℕ
  pub node_global₂ : ℕ
  pub ops_repl : ℕ
  pub watch_data : ℕ

-- A write to the structure at an address.
abbrev pub at {ℓ} : {A : Type ℓ} → (ℕ → A) → ℕ → A → ℕ → A
at f a v b = if b == a then v else f b
