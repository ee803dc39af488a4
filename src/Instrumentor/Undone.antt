-- ===== src/Instrumentor/Undone.antt =====
-- Watching an object with operations that are not instrumented yet, and forgetting it again.
use kedr_callback_operations.Prelude.{
  ℕ, ◌≡◌, refl, sym, ap, ◌∙◌, subst, true, false, Option, none, some, List, Bool-cases, inl, inr,
  ◌==◌, if_both, arith, ==-refl,
}
use kedr_callback_operations.Kernel.{Kernel, Code, success, fail, Errno, enomem}
use kedr_callback_operations.Payloads.Types.{Replacement}
use kedr_callback_operations.HashTable.{Table, elem_init, find_elem, add_elem}
use kedr_callback_operations.HashTable.Buckets.{Elem, elements}
use kedr_callback_operations.HashTable.Valid.{Bounded}
use kedr_callback_operations.HashTable.Registry.{has_node}
use kedr_callback_operations.HashTable.Unique.{IsUnique, add_elem-Gains}
use kedr_callback_operations.Instrumentation.Replace.{Operations, DistinctReplacements}
use kedr_callback_operations.Instrumentation.Place.{
  InstrumentorState, ap_idata_destroy, ap_idata_destroy_norestore, uc_idata_destroy,
  instrumentor_remove_data_search, ap_idata_ops_my_operations, uc_idata_ops_my_operations,
}
use kedr_callback_operations.Instrumentor.{
  Mechanism, at_place, use_copy, InstrumentData, Instrumentor, Addresses, at,
}
use kedr_callback_operations.Instrumentor.Data.{
  my_operations, get_repl_operations, get_orig_operations, destroy_idata, instrument_data_unref,
  instrumentor_find_data,
}
use kedr_callback_operations.Instrumentor.Watch.{
  instrumentor_find_watch_data, drop_watch, instrumentor_destroy_watch_data, watch_added, watch_new,
  instrumentor_watch_internal, kedr_coi_instrumentor_watch, kedr_coi_instrumentor_forget,
}
use kedr_callback_operations.Instrumentor.Acquire.{
  IsFresh, IsSame, Gets, got, lost, Origin, known, made, undone,
}
use kedr_callback_operations.Instrumentor.Acquire.Get.{instrumentor_get_data-Gets}
use kedr_callback_operations.Instrumentor.Watching.{holds, IsWatching, unref-IsSame}
use kedr_callback_operations.Instrumentor.View.{
  View, WatchStep, started, kept, changed, refused, dropped, ForgetStep, absent, forgotten,
  given_back, watched_of, view,
}
use kedr_callback_operations.Instrumentor.Forgotten.{forget_ops-at, forget-ForgetStep}
use kedr_callback_operations.Instrumentor.Watched.{replace_ops-at}
use kedr_callback_operations.Instrumentor.Refines.{watch-Watches}

repl-mine : (kind : Mechanism) → my_operations kind (get_repl_operations kind) ≡ true
unfolding my_operations get_repl_operations ap_idata_ops_my_operations uc_idata_ops_my_operations
repl-mine (at_place d) = ==-refl d.ops_elem.ops_elem.key
repl-mine (use_copy d) = ground (arith, ==-refl d.ops_repl_elem.ops_elem.key)

at-here : (n : ℕ) (kind : Option Mechanism) (f : ℕ → Option Mechanism) → at f n kind n ≡ kind
at-here n kind f = rw (==-refl n) refl

module _ (hash_ptr : ℕ → ℕ → ℕ) where
  destroy_idata-undone :
      (rs : List Replacement) (kind : Mechanism) (s : InstrumentorState)
      → (destroy_idata hash_ptr rs kind s).memory ≡ undone rs kind s.memory
  unfolding destroy_idata ap_idata_destroy ap_idata_destroy_norestore uc_idata_destroy
      instrumentor_remove_data_search
  destroy_idata-undone rs (at_place d) s = refl
  destroy_idata-undone rs (use_copy d) s = refl

  last_unref-undone :
      (a : ℕ) (kind : Mechanism) (m : Instrumentor)
      → m.idatas a ≡ record { refs = 1; i_ops = kind }
      → (instrument_data_unref hash_ptr a m).state.memory
        ≡ undone m.replacements kind m.state.memory
  unfolding instrument_data_unref
  last_unref-undone a kind m e =
      let last : ((m.idatas a).refs == 1) ≡ true = ap (λ (d : InstrumentData). d.refs == 1) e in
      rw last (
        destroy_idata-undone m.replacements (m.idatas a).i_ops m.state
        ∙ ap (λ (d : InstrumentData). undone m.replacements d.i_ops m.state.memory) e)

  -- Nobody else is watched or forgotten by the two calls.
  steps-undo :
      (object ops_p : ℕ) (v : View) (r : Code × View) (ops_p' : Option ℕ) (r' : Code × View)
      → WatchStep object ops_p v r
      → ForgetStep object ops_p' r.1 r'
      → r.0 ≡ success
      → (o : ℕ) → r'.1.watched o ≡ v.watched o
  steps-undo object ops_p v _ ops_p' _ (started kind was mine) (absent none') ok o =
      absurd (cc (none', at-here object (some kind) v.watched))
  steps-undo object ops_p v _ ops_p' _ (started kind was mine) (forgotten kind' some') ok o =
      elim (Bool-cases (o == object)) [
        | inl here ↦ rw here (sym (ap v.watched (ground (arith, here)) ∙ was))
        | inr away ↦ rw (away) refl
      ]
  steps-undo object ops_p v _ ops_p' _ (kept kind was mine) step ok o = cc ok
  steps-undo object ops_p v _ ops_p' _ (changed old kind was theirs mine) step ok o = cc ok
  steps-undo object ops_p v _ ops_p' _ (refused e was) step ok o = cc ok
  steps-undo object ops_p v _ ops_p' _ (dropped e old was theirs) step ok o = cc ok

  module _ (m : Instrumentor) (p : Addresses) (object ops_p : ℕ) where
    -- The new watch and its new structure.
    pub data Begins : Code × Instrumentor → Type 0 where
      failed : (e : Errno) {m' : Instrumentor} → Begins (fail e, m')
      begun :
          (kind : Mechanism) (e : Elem) {m' : Instrumentor}
          → find_elem hash_ptr m'.objects_table object ≡ some e
          → m'.idatas (m'.watches e.node) ≡ record { refs = 1; i_ops = kind }
          → get_orig_operations kind ≡ m.pointers ops_p
          → m'.pointers ≡ at m.pointers ops_p (get_repl_operations kind)
          → m'.replacements ≡ m.replacements
          → ((addr off : ℕ)
              → DistinctReplacements m.replacements
              → (addr == p.ops_repl) ≡ false
              → undone m.replacements kind m'.state.memory addr off ≡ m.state.memory addr off)
          → Begins (success, m')

    given_back-lem :
        (kind : Mechanism) (pointers : ℕ → ℕ) (q : ℕ)
        → get_orig_operations kind ≡ pointers ops_p
        → given_back (some ops_p) kind (at pointers ops_p (get_repl_operations kind)) q ≡ pointers q
    given_back-lem kind pointers q orig =
        let here : at pointers ops_p (get_repl_operations kind) ops_p ≡ get_repl_operations kind =
          rw (==-refl ops_p) refl in
        let mine : my_operations kind (at pointers ops_p (get_repl_operations kind) ops_p) ≡ true =
          ap (my_operations kind) here ∙ repl-mine kind in
        rw mine (elim (Bool-cases (q == ops_p)) [
          | inl there ↦ rw there (orig ∙ ap pointers (ground (arith, there)))
          | inr away ↦ rw (away) refl
        ])

    module _ (bounded : Bounded hash_ptr) (v : IsWatching hash_ptr m)
        (f : IsFresh (holds m.watches m.objects_table) p m)
        (unwatched : find_elem hash_ptr m.objects_table object ≡ none)
        (unknown : instrumentor_find_data hash_ptr m (m.pointers ops_p) ≡ none) where
      added-Begins :
          (a : ℕ) (m₁ : Instrumentor) (k : Kernel)
          → IsSame (holds m.watches m.objects_table) m m₁
          → Origin hash_ptr m p (m.pointers ops_p) a m₁
          → Begins (
              watch_added hash_ptr a ops_p p.watch_data m₁
                (add_elem hash_ptr m₁.objects_table (elem_init p.watch_data object) k))
      unfolding watch_added add_elem elem_init
      added-Begins a m₁ k s (known old) = absurd (cc (old, unknown))
      added-Begins a m₁ k s (made kind new orig back) =
          let e = elem_init p.watch_data object in
          let u : IsUnique hash_ptr m₁.objects_table =
            subst (λ (o : Table). IsUnique hash_ptr o) (sym s.objects) v.objects in
          let g =
            add_elem-Gains hash_ptr bounded m₁.objects_table u e k
              (ap (λ (o : Table). find_elem hash_ptr o object) s.objects ∙ unwatched)
              (ap (λ (o : Table). has_node p.watch_data (elements o.heads)) s.objects
                ∙ f.watch_data) in
          let added : Instrumentor = record m₁ {
            objects_table = (add_elem hash_ptr m₁.objects_table e k).1;
            watches = at m₁.watches p.watch_data a;
            state = record (m₁.state) { kernel = k };
          } in
          let same_kind : (m₁.idatas a).i_ops ≡ kind = ap (λ (d : InstrumentData). d.i_ops) new in
          rw (replace_ops-at a ops_p added) (
            begun kind e (g.finds object ∙ rw (==-refl object) refl) (rw (==-refl p.watch_data) new)
              orig
              (ap (λ (q : ℕ → ℕ). at q ops_p (get_repl_operations (m₁.idatas a).i_ops)) s.pointers
                ∙ ap (λ (kd : Mechanism). at m.pointers ops_p (get_repl_operations kd)) same_kind)
              s.replacements back)

      new-Begins :
          (r : Code × Option ℕ × Instrumentor)
          → Gets hash_ptr (holds m.watches m.objects_table) m p (m.pointers ops_p) r
          → Begins (watch_new hash_ptr p object ops_p r)
      unfolding watch_new
      new-Begins _ (lost e t s) = failed e
      new-Begins _ (got a {m' = m₁} t s mine from) =
          if_both (λ (r : Code × Instrumentor). Begins r)
            (m₁.state.kernel.answer m₁.state.kernel.asked) (added-Begins a m₁ _ s from)
            (failed enomem)

      watch-Begins : Begins (kedr_coi_instrumentor_watch hash_ptr p object ops_p m)
      unfolding kedr_coi_instrumentor_watch instrumentor_watch_internal instrumentor_find_watch_data
      watch-Begins =
          rw (unwatched, kedr_coi_instrumentor_watch, instrumentor_watch_internal)
            (new-Begins _ (
              instrumentor_get_data-Gets hash_ptr (holds m.watches m.objects_table) m bounded
                v.tracked p (m.pointers ops_p) f))

    -- What forgetting a new watch gives back.
    forget-Begins :
        (r : Code × Instrumentor)
        → Begins r
        → r.0 ≡ success
        → DistinctReplacements m.replacements
        → (q addr off : ℕ) → (addr == p.ops_repl) ≡ false
        → let m'' = (kedr_coi_instrumentor_forget hash_ptr object (some ops_p) r.1).1 in
          (m''.pointers q ≡ m.pointers q) × (m''.state.memory addr off ≡ m.state.memory addr off)
    unfolding kedr_coi_instrumentor_forget instrumentor_find_watch_data drop_watch
        instrumentor_destroy_watch_data
    forget-Begins _ (failed e) ok distinct q addr off other = cc ok
    forget-Begins _ (begun kind e {m' = m'} found new orig pointers replacements back) ok distinct q
          addr off other =
        let a = m'.watches e.node in
        let given = given_back (some ops_p) (m'.idatas a).i_ops m'.pointers in
        let m₁ : Instrumentor = record m' { pointers = given } in
        let same_kind : (m'.idatas a).i_ops ≡ kind = ap (λ (d : InstrumentData). d.i_ops) new in
        let s = (unref-IsSame hash_ptr (λ c. 1) a m₁).0 in
        let repl = get_repl_operations kind in
        let gives : given q ≡ m.pointers q =
          ap (λ (kd : Mechanism). given_back (some ops_p) kd m'.pointers q) same_kind
          ∙ ap (λ (f : ℕ → ℕ). given_back (some ops_p) kind f q) pointers
          ∙ given_back-lem kind m.pointers q orig in
        rw (found, kedr_coi_instrumentor_forget)
          (rw (forget_ops-at hash_ptr (some ops_p) a m') (
            ap (λ (f : ℕ → ℕ). f q) s.pointers ∙ gives,
            ap (λ (mem : ℕ → Operations). mem addr off)
                  (last_unref-undone a kind m₁ new
                    ∙ ap (λ (rs : List Replacement). undone rs kind m'.state.memory) replacements)
                ∙ back addr off distinct other,
          ))

  -- In a state that satisfies the invariant, with one replacement for an offset at most and memory at
  -- new addresses: if an object was not watched, its operations were not instrumented, and watching
  -- it succeeds, then forgetting it with the same pointer gives back every pointer, every structure
  -- of operations but the block of the copy, and what each object was watched with.
  pub forget-watch :
      Bounded hash_ptr
      → (m : Instrumentor) (p : Addresses) (object ops_p : ℕ) (q o addr off : ℕ)
      → IsWatching hash_ptr m
      → IsFresh (holds m.watches m.objects_table) p m
      → find_elem hash_ptr m.objects_table object ≡ none
      → instrumentor_find_data hash_ptr m (m.pointers ops_p) ≡ none
      → DistinctReplacements m.replacements
      → (addr == p.ops_repl) ≡ false
      → (kedr_coi_instrumentor_watch hash_ptr p object ops_p m).0 ≡ success
      → let m' = (kedr_coi_instrumentor_watch hash_ptr p object ops_p m).1 in
        let m'' = (kedr_coi_instrumentor_forget hash_ptr object (some ops_p) m').1 in
        ((m''.pointers q ≡ m.pointers q) × (m''.state.memory addr off ≡ m.state.memory addr off))
        × (watched_of hash_ptr m'' o ≡ watched_of hash_ptr m o)
  forget-watch bounded m p object ops_p q o addr off v f unwatched unknown distinct other ok =
      let r = kedr_coi_instrumentor_watch hash_ptr p object ops_p m in
      let w = watch-Watches hash_ptr bounded m v p object ops_p f in
      let r' = kedr_coi_instrumentor_forget hash_ptr object (some ops_p) r.1 in
      let g = forget-ForgetStep hash_ptr bounded r.1 w.watching object (some ops_p) in
      (
        forget-Begins m p object ops_p r
            (watch-Begins m p object ops_p bounded v f unwatched unknown) ok distinct q addr off
            other,
        steps-undo object ops_p (view hash_ptr m) (r.0, view hash_ptr r.1) (some ops_p)
            (r'.0, view hash_ptr r'.1) w.step g.1 ok o,
      )
