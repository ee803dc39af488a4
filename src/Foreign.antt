-- ===== src/Foreign.antt =====
-- Foreign instrumentation in core/kedr_coi_instrumentors.c and core/kedr_coi_instrumentors_impl.c:
-- other instrumentors replace operations in a structure that the normal one has instrumented, one
-- after another, in a chain. The structures are known by their addresses.
pub mod Chain
pub mod Standing
pub mod Restored
pub mod Next
pub mod Watch
pub mod Calls
pub mod Bind
pub mod Apart
pub mod Continued
pub mod Kept
pub mod Watches
pub mod Entered
pub mod Forgotten
pub mod Watched
pub mod Answered
use kedr_callback_operations.Prelude.{ℕ, List}
use kedr_callback_operations.Payloads.Types.{Replacement}
use kedr_callback_operations.HashTable.{Table}
use kedr_callback_operations.HashTable.Buckets.{Elem}
use kedr_callback_operations.Instrumentor.{Instrumentor}

-- `struct apf_instrument_data_foreign` with its base; its place in the list is in `chains`.
pub record ForeignData : Type 0 where
  pub refs : ℕ
  pub idata_binded : ℕ
  pub instrumentor : ℕ

-- `struct kedr_coi_foreign_instrumentor_watch_data`, with its elements of three tables.
pub record ForeignWatch : Type 0 where
  pub idata_foreign : ℕ
  pub id_elem : Elem
  pub tie_elem : Elem
  pub ops_p_elem : Elem

-- All foreign instrumentors here are bound to one normal one.
pub record ForeignInstrumentor : Type 0 where
  pub ids_table : Table
  pub ties_table : Table
  pub replacements : List Replacement

pub record Foreign : Type 0 where
  pub normal : Instrumentor
  pub instrumentors : ℕ → ForeignInstrumentor
  pub foreigns : ℕ → ForeignData
  -- `foreign_data_list` of the instrument data at each address.
  pub chains : ℕ → List ℕ
  pub watches : ℕ → ForeignWatch
  -- container_of: the watch data around the element at each address.
  pub containers : ℕ → ℕ
