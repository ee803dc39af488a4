-- ===== src/Instrumentor/Reachable.antt =====
-- The states of the normal instrumentor that calls and the instrumented program lead to.
use kedr_callback_operations.Prelude.{
  ℕ, ◌+◌, ◌≡◌, refl, sym, ap, ◌∙◌, subst, Bool, false, Option, none, some, List, Bool-cases,
  Option-cases, inl, inr, ◌==◌, if_both, arith,
}
use kedr_callback_operations.Kernel.{Kernel, Code, success, ignored}
use kedr_callback_operations.Payloads.Types.{Replacement}
use kedr_callback_operations.HashTable.{find_elem}
use kedr_callback_operations.HashTable.Buckets.{Elem}
use kedr_callback_operations.HashTable.Valid.{Bounded}
use kedr_callback_operations.HashTable.Unique.{IsUnique}
use kedr_callback_operations.Instrumentation.Replace.{Operations}
use kedr_callback_operations.Instrumentor.{Mechanism, Instrumentor, Addresses, at}
use kedr_callback_operations.Instrumentor.Data.{get_orig_operations}
use kedr_callback_operations.Instrumentor.Watch.{
  instrumentor_find_watch_data, instrumentor_destroy_watch_data,
  instrumentor_destroy_watch_data_norestore, instrument_data_restore_ops,
  kedr_coi_instrumentor_watch, kedr_coi_instrumentor_forget, kedr_coi_instrumentor_watch_direct,
  kedr_coi_instrumentor_forget_direct,
}
use kedr_callback_operations.Instrumentor.Create.{World, kedr_coi_instrumentor_create}
use kedr_callback_operations.Instrumentor.Tracked.{IsTracked}
use kedr_callback_operations.Instrumentor.Acquire.{IsFresh}
use kedr_callback_operations.Instrumentor.Watching.{holds, IsWatching}
use kedr_callback_operations.Instrumentor.View.{View, watched_of, watched_of-none, watched_of-some}
use kedr_callback_operations.Instrumentor.Forgotten.{
  pointed-IsWatching, restore_ops-at, destroy_watch-lem, forget-ForgetStep,
}
use kedr_callback_operations.Instrumentor.Refines.{watch-Watches}
use kedr_callback_operations.Instrumentor.Created.{Creates, create-Creates, no_memory, created}

abbrev code_of : Option Mechanism → Code
code_of none = ignored
code_of (some kind) = success

module _ (hash_ptr : ℕ → ℕ → ℕ) (bounded : Bounded hash_ptr) where
  module _ (m : Instrumentor) (v : IsWatching hash_ptr m) (object : ℕ) where
    abbrev Direct : (local o q : ℕ) → Instrumentor → Type 0
    Direct local o q m' =
        IsWatching hash_ptr m'
        × (watched_of hash_ptr m' o ≡ at (watched_of hash_ptr m) object none o)
        × (m'.pointers q ≡ m.pointers q)

    unwatched :
        (o : ℕ)
        → watched_of hash_ptr m object ≡ none
        → watched_of hash_ptr m o ≡ at (watched_of hash_ptr m) object none o
    unwatched o e = elim (Bool-cases (o == object)) [
      | inl here ↦ rw here (ap (watched_of hash_ptr m) (ground (arith, here)) ∙ e)
      | inr away ↦ rw away refl
    ]

    module _ (local o q : ℕ) (other : (q == local) ≡ false) (e : Elem)
        (found : find_elem hash_ptr m.objects_table object ≡ some e) where
      norestore-lem : Direct local o q (instrumentor_destroy_watch_data_norestore hash_ptr e m)
      norestore-lem =
          let n = (destroy_watch-lem hash_ptr bounded m v object e found).1 in
          (n.0, ap (λ (w : View). w.watched o) n.1, ap (λ (w : View). w.pointers q) n.1)

      restore-lem : Direct local o q (
          instrumentor_destroy_watch_data hash_ptr e (
            instrument_data_restore_ops
              (m.watches e.node)
              local
              (record m { pointers = at m.pointers local object })))
      unfolding watched_of
      restore-lem =
          let here : Instrumentor = record m { pointers = at m.pointers local object } in
          let orig = get_orig_operations (m.idatas (m.watches e.node)).i_ops in
          let restored : Instrumentor = record m { pointers = at here.pointers local orig } in
          let d =
            (destroy_watch-lem hash_ptr bounded restored
              (pointed-IsWatching hash_ptr m restored.pointers v) object e found).0 in
          rw (restore_ops-at hash_ptr (m.watches e.node) local here) (
            d.0,
            ap (λ (w : View). w.watched o) d.1,
            ap (λ (w : View). w.pointers q) d.1 ∙ rw other refl,
          )

    -- Forgetting an object that holds its operations itself keeps the invariant, with and without
    -- restoring them; the result says whether it was watched, it alone is not watched any more, and
    -- no pointer but the variable of the call changes.
    pub forget_direct-lem :
        (norestore : Bool) (local o q : ℕ)
        → (q == local) ≡ false
        → let (c, m') = kedr_coi_instrumentor_forget_direct hash_ptr object norestore local m in
          (c ≡ code_of (watched_of hash_ptr m object))
          × (IsWatching hash_ptr m'
              × (watched_of hash_ptr m' o ≡ at (watched_of hash_ptr m) object none o)
              × (m'.pointers q ≡ m.pointers q))
    unfolding kedr_coi_instrumentor_forget_direct instrumentor_find_watch_data
    forget_direct-lem norestore local o q other =
        elim (Option-cases (find_elem hash_ptr m.objects_table object)) [
          | inl none' ↦
              let was = watched_of-none hash_ptr m object none' in
              rw (none', kedr_coi_instrumentor_forget_direct)
                (ap code_of (sym was), (v, unwatched o was, refl))
          | inr (e, found) ↦
              rw (found, kedr_coi_instrumentor_forget_direct)
                (
                  ap code_of (sym (watched_of-some hash_ptr m object e found)),
                  if_both (Direct local o q) norestore (norestore-lem local o q other e found)
                      (restore-lem local o q other e found),
                )
        ]

  -- Calls, and what the program under instrumentation does to its memory and pointers.
  pub data Reachable : Instrumentor → Type 0 where
    creation :
        (rs : Option (List Replacement)) (at_place? : ℕ → Bool) (w : World) {m : Instrumentor}
        {k : Kernel}
        → IsUnique hash_ptr w.ops_table_global
        → kedr_coi_instrumentor_create rs at_place? w ≡ (some m, k)
        → Reachable m
    watch :
        {m : Instrumentor} (p : Addresses) (object ops_p : ℕ)
        → Reachable m
        → IsFresh (holds m.watches m.objects_table) p m
        → Reachable (kedr_coi_instrumentor_watch hash_ptr p object ops_p m).1
    forget :
        {m : Instrumentor} (object : ℕ) (ops_p : Option ℕ)
        → Reachable m
        → Reachable (kedr_coi_instrumentor_forget hash_ptr object ops_p m).1
    watch_direct :
        {m : Instrumentor} (p : Addresses) (object local : ℕ)
        → Reachable m
        → IsFresh (holds m.watches m.objects_table) p m
        → Reachable (kedr_coi_instrumentor_watch_direct hash_ptr p object local m).1
    forget_direct :
        {m : Instrumentor} (object : ℕ) (norestore : Bool) (local : ℕ)
        → Reachable m
        → Reachable (kedr_coi_instrumentor_forget_direct hash_ptr object norestore local m).1
    writes :
        {m : Instrumentor} (memory : ℕ → Operations) (pointers : ℕ → ℕ)
        → Reachable m
        → Reachable (record m { pointers = pointers; state = record (m.state) { memory = memory } })

  written-IsTracked :
      (m : Instrumentor) (memory : ℕ → Operations) (pointers : ℕ → ℕ)
      → IsTracked hash_ptr (holds m.watches m.objects_table) m
      → IsTracked hash_ptr
          (holds m.watches m.objects_table)
          (record m { pointers = pointers; state = record (m.state) { memory = memory } })
  written-IsTracked m memory pointers t = record {
    dir = t.dir;
    tabled = t.tabled;
    counted = t.counted;
    placed = t.placed;
    live = t.live;
    mine = t.mine;
  }

  created-IsWatching :
      (rs : Option (List Replacement)) (w : World) (r : Option Instrumentor × Kernel)
      (m : Instrumentor) (k : Kernel)
      → Creates hash_ptr rs w r
      → r ≡ (some m, k)
      → IsWatching hash_ptr m
  created-IsWatching rs w _ m k (no_memory n h e) same = cc same
  created-IsWatching rs w _ m k (created {m = m₁} v seen p q r a) same =
      let e : m₁ ≡ m = cc same in subst (IsWatching hash_ptr) e v

  -- In every state that creation, calls of the instrumentor with memory at new addresses, and writes
  -- of the program lead to, each structure of instrument data is referenced exactly once by each
  -- watch of it, is in the tables as long as one is left, and the tables lead to such structures.
  pub Reachable-IsWatching : {m : Instrumentor} → Reachable m → IsWatching hash_ptr m
  unfolding kedr_coi_instrumentor_watch_direct
  Reachable-IsWatching (creation rs at_place? w {m} {k} global e) =
      created-IsWatching rs w _ m k (create-Creates hash_ptr bounded rs at_place? w global) e
  Reachable-IsWatching (watch p object ops_p r f) =
      (watch-Watches hash_ptr bounded _ (Reachable-IsWatching r) p object ops_p f).watching
  Reachable-IsWatching (forget object ops_p r) =
      (forget-ForgetStep hash_ptr bounded _ (Reachable-IsWatching r) object ops_p).0
  Reachable-IsWatching (watch_direct {m} p object local r f) =
      let here = at m.pointers local object in
      (watch-Watches hash_ptr bounded (record m { pointers = here })
        (pointed-IsWatching hash_ptr m here (Reachable-IsWatching r)) p object local
        (record {
          idata = f.idata;
          node = f.node;
          node₂ = f.node₂;
          node_global = f.node_global;
          node_global₂ = f.node_global₂;
          apart = f.apart;
          apart_global = f.apart_global;
          watch_data = f.watch_data;
        })).watching
  Reachable-IsWatching (forget_direct {m} object norestore local r) =
      (forget_direct-lem m (Reachable-IsWatching r) object norestore local 0 (local + 1)
        (ground arith)).1.0
  Reachable-IsWatching (writes {m} memory pointers r) =
      let v = Reachable-IsWatching r in
      record { objects = v.objects; tracked = written-IsTracked m memory pointers v.tracked }
