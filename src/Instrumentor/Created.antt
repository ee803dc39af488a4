-- ===== src/Instrumentor/Created.antt =====
-- Creating the normal instrumentor: every outcome.
use kedr_callback_operations.Prelude.{
  ℕ, ◌+◌, ◌%◌, ◌≡◌, refl, sym, ap, ◌∙◌, subst, Bool, true, false, Option, none, some, List, arith,
  Bool-cases, inl, inr, length,
}
use kedr_callback_operations.Kernel.{Kernel, kfree}
use kedr_callback_operations.Payloads.Types.{Replacement}
use kedr_callback_operations.HashTable
use kedr_callback_operations.HashTable.{
  Table, size_mod, bits_default, init_hlist_heads, find_in, find_elem,
}
use kedr_callback_operations.HashTable.Buckets.{Elem}
use kedr_callback_operations.HashTable.Valid.{Bounded, init_hlist_heads-IsFilled}
use kedr_callback_operations.HashTable.Contents.{elements-init}
use kedr_callback_operations.HashTable.Registry.{DistinctNodes, DistinctKeys}
use kedr_callback_operations.HashTable.Lookup.{find_elem-find_in}
use kedr_callback_operations.HashTable.Unique.{IsUnique, tally}
use kedr_callback_operations.HashTable.Destroy.{destroy-warns}
use kedr_callback_operations.Instrumentor.{Instrumentor}
use kedr_callback_operations.Instrumentor.Create.{
  World, or_empty, destroy_table, third_table, second_table, first_table,
  kedr_coi_instrumentor_create,
}
use kedr_callback_operations.Instrumentor.Watching.{IsWatching}
use kedr_callback_operations.Instrumentor.View.{watched_of, watched_of-none}

abbrev new_table : Table
new_table = record { heads = init_hlist_heads bits_default; bits = bits_default; n_elems = 0 }

-- What a table costs, and what its failure and its destruction leave.
init-some :
    (k : Kernel)
    → k.answer k.asked ≡ true
    → HashTable.init k
      ≡ (some new_table, record k { asked = k.asked + 1; allocated = k.allocated + 1 })
unfolding HashTable.init
init-some k ok = rw ok refl

init-none :
    (k : Kernel)
    → k.answer k.asked ≡ false
    → HashTable.init k ≡ (none, record k { asked = k.asked + 1 })
unfolding HashTable.init
init-none k full = rw full refl

destroy_table-kfree : (t : Table) (k : Kernel) → destroy_table t k ≡ kfree k
unfolding destroy_table
destroy_table-kfree t k = ap (λ (r : Bool × Kernel). r.1) (destroy-warns t kfree k)

module _ (hash_ptr : ℕ → ℕ → ℕ) where
  new_table-IsUnique : IsUnique hash_ptr new_table
  new_table-IsUnique = record {
    valid = record {
      filled = init_hlist_heads-IsFilled hash_ptr bits_default;
      counted = sym (ap (λ (es : List Elem). (length es) % size_mod) (elements-init bits_default));
    };
    nodes = subst (λ (es : List Elem). DistinctNodes es) (sym (elements-init bits_default)) tt;
    keys = subst (λ (es : List Elem). DistinctKeys es) (sym (elements-init bits_default)) tt;
  }

  new_table-finds : Bounded hash_ptr → (key : ℕ) → find_elem hash_ptr new_table key ≡ none
  unfolding find_in
  new_table-finds bounded key =
      find_elem-find_in hash_ptr bounded new_table key new_table-IsUnique.valid
      ∙ ap (find_in key) (elements-init bits_default)

  -- Either nothing is left of a creation and a request for memory was refused, or the new
  -- instrumentor satisfies the invariant, watches nothing and has the replacements given.
  pub data Creates (rs : Option (List Replacement)) (w : World)
      : Option Instrumentor × Kernel → Type 0 where
    no_memory :
        {k : Kernel} (n : ℕ)
        → w.kernel.answer n ≡ false
        → k.allocated ≡ w.kernel.allocated
        → Creates rs w (none, k)
    created :
        {m : Instrumentor}
        → IsWatching hash_ptr m
        → ((o : ℕ) → watched_of hash_ptr m o ≡ none)
        → m.pointers ≡ w.pointers
        → m.replacements ≡ or_empty rs
        → m.state.memory ≡ w.memory
        → m.state.kernel.allocated ≡ w.kernel.allocated + 4
        → Creates rs w (some m, m.state.kernel)

  module _ (bounded : Bounded hash_ptr) (rs : Option (List Replacement)) (at_place? : ℕ → Bool)
      (w : World) (global : IsUnique hash_ptr w.ops_table_global) where
    third-Creates :
        (k : Kernel)
        → k.answer ≡ w.kernel.answer
        → k.allocated ≡ w.kernel.allocated + 3
        → Creates rs w
            (third_table (or_empty rs) at_place? w new_table new_table (HashTable.init k))
    unfolding third_table HashTable.init
    third-Creates k answers e = elim (Bool-cases (k.answer k.asked)) [
      | inr full ↦
          let k' : Kernel = record k { asked = k.asked + 1 } in
          subst (λ r. Creates rs w (third_table (or_empty rs) at_place? w new_table new_table r))
            (sym (init-none k full))
            (no_memory k.asked (ap (λ (f : ℕ → Bool). f k.asked) (sym answers) ∙ full) (
              rw (destroy_table-kfree new_table k', destroy_table-kfree new_table (kfree k'))
                (omega (arith, e))))
      | inl ok ↦
          subst (λ r. Creates rs w (third_table (or_empty rs) at_place? w new_table new_table r))
            (sym (init-some k ok))
            (created
              (record {
                objects = new_table-IsUnique;
                tracked = record {
                  dir = λ key. none;
                  tabled = record {
                    own = new_table-IsUnique;
                    global = global;
                    own_finds = λ key. new_table-finds bounded key;
                    global_finds = λ key d h. cc;
                    own_key = λ key d h. cc;
                    global_key = λ key d h. cc;
                  };
                  counted = λ a. sym (
                      ap (λ (es : List Elem). tally (λ node. 0) a es) (elements-init bits_default));
                  placed = λ a h. absurd (
                      omega (
                        arith,
                        h,
                        ap (λ (es : List Elem). tally (λ node. 0) a es)
                            (elements-init bits_default),
                      ));
                  live = λ key d h. cc;
                  mine = λ key d h. cc;
                };
              })
              (λ o. watched_of-none hash_ptr _ o (new_table-finds bounded o)) refl refl refl
              (omega (arith, e)))
    ]

    second-Creates :
        (k : Kernel)
        → k.answer ≡ w.kernel.answer
        → k.allocated ≡ w.kernel.allocated + 2
        → Creates rs w (second_table (or_empty rs) at_place? w new_table (HashTable.init k))
    unfolding second_table HashTable.init
    second-Creates k answers e = elim (Bool-cases (k.answer k.asked)) [
      | inr full ↦
          let k' : Kernel = record k { asked = k.asked + 1 } in
          subst (λ r. Creates rs w (second_table (or_empty rs) at_place? w new_table r))
            (sym (init-none k full))
            (no_memory k.asked (ap (λ (f : ℕ → Bool). f k.asked) (sym answers) ∙ full)
              (rw (destroy_table-kfree new_table k') (omega (arith, e))))
      | inl ok ↦
          subst (λ r. Creates rs w (second_table (or_empty rs) at_place? w new_table r))
            (sym (init-some k ok)) (third-Creates _ answers (omega (arith, e)))
    ]

    first-Creates :
        (k : Kernel)
        → k.answer ≡ w.kernel.answer
        → k.allocated ≡ w.kernel.allocated + 1
        → Creates rs w (first_table (or_empty rs) at_place? w (HashTable.init k))
    unfolding first_table HashTable.init
    first-Creates k answers e = elim (Bool-cases (k.answer k.asked)) [
      | inr full ↦
          subst (λ r. Creates rs w (first_table (or_empty rs) at_place? w r))
            (sym (init-none k full))
            (no_memory k.asked (ap (λ (f : ℕ → Bool). f k.asked) (sym answers) ∙ full)
              (omega (arith, e)))
      | inl ok ↦
          subst (λ r. Creates rs w (first_table (or_empty rs) at_place? w r)) (sym (init-some k ok))
            (second-Creates _ answers (omega (arith, e)))
    ]

    -- Creating an instrumentor, beside a global table with distinct keys and addresses, gives NULL and
    -- all memory back if a request for memory was refused; otherwise four blocks are used, and the
    -- new instrumentor satisfies the invariant, watches nothing and has the replacements given.
    pub create-Creates : Creates rs w (kedr_coi_instrumentor_create rs at_place? w)
    unfolding kedr_coi_instrumentor_create
    create-Creates = elim (Bool-cases (w.kernel.answer w.kernel.asked)) [
      | inr full ↦ rw full (no_memory w.kernel.asked full refl)
      | inl ok ↦ rw ok (first-Creates _ refl refl)
    ]
