-- ===== src/Lib.antt =====
-- KEDR COI: interception of callback operations of objects in the Linux kernel.
--
-- A kernel module registers payloads, arrays of handlers that run before and after operations of
-- some kind of object. An interceptor collects the handlers of its payloads when it is started,
-- makes the array of replacements that they call for, and has an instrumentor replace the operations
-- of each object that is watched by intermediate ones. A factory interceptor, bound to an
-- interceptor, does so for the objects that other objects make. Hash tables hold what is watched.
--
-- The parts, each a file with the modules of its definitions and proofs below it:
--
--   Prelude        numbers, tests and lists that all parts share.
--   Kernel         what the sources use of the kernel: kmalloc, krealloc and kfree as a count of
--                  blocks, try_module_get and module_put as a count for each module, error codes, and
--                  an outcome `bug` for BUG_ON and bad pointers. Each call that may fail, an
--                  interruptible lock among them, reads the next of an arbitrary stream of answers.
--   HashTable      sources/core/kedr_coi_hash_table.c and .h; each function keeps its name without
--                  the prefix `kedr_coi_hash_table_`. Buckets are lists, the head first.
--   Payloads       sources/core/payloads.c and payloads.h under their names: Types for the
--                  structures, Parray, Operation (`struct operation_info`), Registration (init, add,
--                  remove, destroy), Use (use, unuse and what they call, with Use/Fix and Use/Close).
--   Instrumentors  the interface of sources/core/kedr_coi_instrumentors.c as
--                  sources/core/kedr_coi_instrumentor_internal.h declares it.
--   Instrumentation  sources/core/kedr_coi_instrumentors_impl.c: Replace for operations, Place for
--                  the tables and for both ways to instrument, in place (`ap_`) and by copy (`uc_`).
--   Instrumentor   the normal instrumentor of sources/core/kedr_coi_instrumentors.c under its names:
--                  Data for `struct instrument_data` and its references, with instrumentor_get_data of
--                  kedr_coi_instrumentors_impl.c, Watch for the calls, Create for creation and
--                  destruction and for the two functions of sources/core/kedr_coi_module.c. Tables
--                  states what the hash tables hold as a directory, Tracked and Watching the
--                  invariant, View a specification of the calls, Refines and Forgotten that they
--                  implement it.
--   Foreign        the foreign instrumentors. The chain of foreign data of one instrumentation in
--                  kedr_coi_instrumentors_impl.c, functions with the prefix `apf_`: Chain for the
--                  operations, Standing and Restored for what stands in the operations of a chain,
--                  Next for those that a bind continues with. Their part of
--                  kedr_coi_instrumentors.c: Watch for the foreign data and the watches, Calls for
--                  watch, forget, creation and destruction, Bind for a bind. Apart and
--                  Continued are about a bind, Kept, Watches and Forgotten about a forget,
--                  Entered, Watched and Answered about a watch.
--   Interceptors   sources/core/kedr_coi_interceptors.c under its names: Types, Factory and Normal
--                  for the operations, Reach for the calls as steps in any order.
--   Tests          runs at concrete inputs.
--
-- The modules meet where the code's parts do: Interceptors call Payloads and the record of
-- Instrumentors, which is a parameter of everything that uses it; both pass the Kernel along.
--
-- Addresses are natural numbers, NULL is 0 or `none`. The count of a hash table and an address with
-- an offset wrap at 2 ^ 64; the other counters count what stands in memory and are not bounded, and
-- reference counts of modules are those of the kernel. An array that ends with a mark is the list
-- before the mark; an array of pointers keeps its NULL, since its users rely on it. A list of the
-- kernel is a list, a write through a pointer into it is a replacement of the entry at that place.
-- The mutex of the payloads makes its calls happen one after another. All loops are structural recursion on the list
-- that they walk, the loop of close_operations on the positions that are left, so nothing runs out.
--
-- A structure of the instrumentor is known by its address: the state has the structure at each
-- address, and the first field of a structure stands at the address of the structure itself. The
-- addresses that kmalloc would return are an argument of a call. The count of references is an int in
-- the source and not bounded here: it counts watches, and for normal data the
-- foreign data in its chain.
--
-- The interceptors take the record of Instrumentors as a parameter; the normal instrumentor stands
-- by itself below it, and the foreign instrumentors below that. Not modelled: messages;
-- the choice of the mechanism under CONFIG_DEBUG_SET_MODULE_RONX; the generator and its
-- template engine under sources/tools; examples, tests and generated interceptors. `hash_ptr` of the
-- kernel is a parameter, of which it is assumed that it gives as many bits as it is asked for.
pub mod Prelude
pub mod Kernel
pub mod HashTable
pub mod Payloads
pub mod Instrumentors
pub mod Instrumentor
pub mod Foreign
pub mod Interceptors
pub mod Tests
pub mod Instrumentation
