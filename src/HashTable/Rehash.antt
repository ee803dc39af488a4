-- ===== src/HashTable/Rehash.antt =====
-- The reallocation of the heads: it loses no element, whatever the allocator answers.
use mathlib.Core.List.{Perm}
use mathlib.Core.List.Perm
use kedr_callback_operations.Prelude.{
  ℕ, ◌+◌, ◌%◌, ◌≡◌, ◌⊎◌, inl, inr, refl, sym, ap, ◌∙◌, ◌&&◌, not, arith, length-perm, Bool-cases,
  ltb, ◌==◌,
}
use kedr_callback_operations.Kernel.{Kernel, Code, success, fail, enomem}
use kedr_callback_operations.HashTable.Buckets.{Heads, elements}
use kedr_callback_operations.HashTable.{
  Table, bits_min, size_mod, realloc, realloc_slowpath, fill_from, init_hlist_heads,
}
use kedr_callback_operations.HashTable.Valid.{Bounded, IsFilled, IsValid}
use kedr_callback_operations.HashTable.Contents.{fill_from-init}

module _ (hash_ptr : ℕ → ℕ → ℕ) where
  -- What a reallocation to `bits` leaves of a table: a valid table of the same elements, as many
  -- blocks of memory, and the new size or an error.
  pub record Reallocated (t : Table) (bits : ℕ) (k : Kernel) (r : Code × Table × Kernel)
      : Type 0 where
    pub valid : IsValid hash_ptr r.1
    pub same : Perm (elements r.1.heads) (elements t.heads)
    pub memory : r.2.allocated ≡ k.allocated
    pub outcome :
        ((r.0 ≡ success) × (r.1.bits ≡ bits))
        ⊎ ((r.0 ≡ fail enomem) × ((r.1.bits ≡ t.bits) ⊎ (r.1.bits ≡ bits_min)))

module _ (hash_ptr : ℕ → ℕ → ℕ) (bounded : Bounded hash_ptr) where
  refilled :
      (t : Table) (bits : ℕ) (heads : Heads)
      → IsValid hash_ptr t
      → IsFilled hash_ptr bits heads
      → Perm (elements heads) (elements t.heads)
      → IsValid hash_ptr (record t { heads = heads; bits = bits })
  refilled t bits heads v f p = record {
    filled = f;
    counted = v.counted ∙ ap (λ n. n % size_mod) (sym (length-perm p));
  }

  module _ (t : Table) (bits : ℕ) (v : IsValid hash_ptr t) where
    realloc_slowpath-Reallocated :
        (k : Kernel) → Reallocated hash_ptr t bits k (realloc_slowpath hash_ptr t bits k)
    unfolding realloc_slowpath
    realloc_slowpath-Reallocated k =
        let heads_min = fill_from hash_ptr bits_min t.heads (init_hlist_heads bits_min) in
        let small = fill_from-init hash_ptr bounded bits_min t.heads in
        let large = fill_from-init hash_ptr bounded bits heads_min in
        elim (Bool-cases (k.answer k.asked)) [
          | inr full ↦
              rw full (record {
                valid = v;
                same = Perm.rfl;
                memory = refl;
                outcome = inr (refl, inl refl);
              })
          | inl ok ↦ elim (Bool-cases (k.answer (k.asked + 1))) [
            | inr full ↦
                rw (ok, full)
                  (record {
                    valid = refilled t bits_min _ v small.0 small.1;
                    same = small.1;
                    memory = omega arith;
                    outcome = inr (refl, inr refl);
                  })
            | inl ok₂ ↦
                rw (ok, ok₂)
                  (record {
                    valid = refilled t bits _ v large.0 (Perm.trans large.1 small.1);
                    same = Perm.trans large.1 small.1;
                    memory = omega arith;
                    outcome = inl (refl, refl);
                  })
          ]
        ]

    -- Whatever the allocator answers, a reallocation keeps the table valid and its elements the
    -- same, frees as many blocks as it takes, and ends with the new size, or with -ENOMEM and the
    -- old size or the smallest one.
    pub realloc-Reallocated :
        (k : Kernel) → Reallocated hash_ptr t bits k (realloc hash_ptr t bits k)
    unfolding realloc
    realloc-Reallocated k =
        let moved = fill_from-init hash_ptr bounded bits t.heads in
        elim (Bool-cases (k.answer k.asked)) [
          | inl ok ↦ rw ok (record {
            valid = refilled t bits _ v moved.0 moved.1;
            same = moved.1;
            memory = omega arith;
            outcome = inl (refl, refl);
          })
          | inr full ↦ elim (Bool-cases (ltb bits t.bits && not (bits == bits_min))) [
            | inl narrower ↦
                let slow = realloc_slowpath-Reallocated (record k { asked = k.asked + 1 }) in
                rw (full, narrower)
                  (record {
                    valid = slow.valid;
                    same = slow.same;
                    memory = slow.memory;
                    outcome = slow.outcome;
                  })
            | inr other ↦
                rw (full, other)
                  (record {
                    valid = v;
                    same = Perm.rfl;
                    memory = refl;
                    outcome = inr (refl, inl refl);
                  })
          ]
        ]
