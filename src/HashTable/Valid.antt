-- ===== src/HashTable/Valid.antt =====
-- Well-formed tables: `1 << bits` buckets, each element in the bucket of its hash, and the count.
use kedr_callback_operations.Prelude.{
  ℕ, zero, suc, ◌+◌, ◌%◌, ◌^◌, ◌<◌, ◌≡◌, ◌∙◌, [], ◌∷◌, arith, length, length-set, length-replicate,
  get_or, set, replicate, All,
}
use kedr_callback_operations.HashTable.Buckets.{Elem, Heads, elements}
use kedr_callback_operations.HashTable.{Table, size_mod, add_head, init_hlist_heads}

-- What `hash_ptr` promises: a value of `bits` bits.
abbrev pub Bounded : (ℕ → ℕ → ℕ) → Type 0
Bounded hash_ptr = (key bits : ℕ) → hash_ptr key bits < 2 ^ bits

module _ (hash_ptr : ℕ → ℕ → ℕ) where
  -- The buckets from number `i` on hold elements of their own hash.
  abbrev pub Placed : ℕ → ℕ → Heads → Type 0
  Placed bits i [] = Unit {0}
  Placed bits i (h ∷ hs) = All (λ (e : Elem). hash_ptr e.key bits ≡ i) h × Placed bits (suc i) hs

  pub record IsFilled (bits : ℕ) (heads : Heads) : Type 0 where
    pub size : length heads ≡ 2 ^ bits
    pub placed : Placed bits 0 heads

  pub record IsValid (t : Table) : Type 0 where
    pub filled : IsFilled t.bits t.heads
    pub counted : t.n_elems ≡ length (elements t.heads) % size_mod

  Placed-replicate : (bits n i : ℕ) → Placed bits i (replicate n [])
  Placed-replicate bits zero i = tt
  Placed-replicate bits (suc n) i = (tt, Placed-replicate bits n (suc i))

  pub init_hlist_heads-IsFilled : (bits : ℕ) → IsFilled bits (init_hlist_heads bits)
  unfolding init_hlist_heads
  init_hlist_heads-IsFilled bits = record {
    size = length-replicate (2 ^ bits) [];
    placed = Placed-replicate bits (2 ^ bits) 0;
  }

  Placed-set :
      (bits i j : ℕ) (e : Elem) (heads : Heads)
      → hash_ptr e.key bits ≡ i + j
      → Placed bits i heads
      → Placed bits i (set heads j (e ∷ get_or heads j []))
  Placed-set bits i j e [] eq p = tt
  Placed-set bits i zero e (h ∷ hs) eq p = ((omega arith, p.0), p.1)
  Placed-set bits i (suc j) e (h ∷ hs) eq p =
      (p.0, Placed-set bits (suc i) j e hs (omega arith) p.1)

  pub add_head-IsFilled :
      (bits : ℕ) (e : Elem) (heads : Heads)
      → IsFilled bits heads
      → IsFilled bits (add_head hash_ptr bits e heads)
  unfolding add_head
  add_head-IsFilled bits e heads f = record {
    size = length-set heads (hash_ptr e.key bits) _ ∙ f.size;
    placed = Placed-set bits 0 (hash_ptr e.key bits) e heads (omega arith) f.placed;
  }
