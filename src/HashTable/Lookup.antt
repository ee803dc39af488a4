-- ===== src/HashTable/Lookup.antt =====
-- Looking up in the bucket of the hash finds what a search of all elements finds.
use kedr_callback_operations.Prelude.{
  ℕ, zero, suc, ◌+◌, ◌<◌, ◌≡◌, ◌≢◌, refl, sym, ◌∙◌, List, [], ◌∷◌, ◌++◌, arith, Option, none, some,
  length, get_or, All,
}
use kedr_callback_operations.HashTable.Buckets.{Elem, Heads, elements}
use kedr_callback_operations.HashTable.{Table, find_in, find_elem}
use kedr_callback_operations.HashTable.Valid.{Bounded, Placed, IsValid}

abbrev or_else {ℓ} : {A : Type ℓ} → Option A → Option A → Option A
or_else none o = o
or_else (some a) o = some a

find_in-append :
    (key : ℕ) (xs ys : List Elem)
    → find_in key (xs ++ ys) ≡ or_else (find_in key xs) (find_in key ys)
unfolding find_in
find_in-append key [] ys = refl
find_in-append key (x ∷ xs) ys = ground (arith, find_in-append key xs ys)

or_else-none : {A : Type 0} (o : Option A) → or_else o none ≡ o
or_else-none none = refl
or_else-none (some a) = refl

module _ (hash_ptr : ℕ → ℕ → ℕ) where
  find_in-other :
      (bits i key : ℕ) (es : List Elem)
      → All (λ (e : Elem). hash_ptr e.key bits ≡ i) es
      → hash_ptr key bits ≢ i
      → find_in key es ≡ none
  unfolding find_in
  find_in-other bits i key [] p ne = refl
  find_in-other bits i key (e ∷ es) p ne = ground (arith, find_in-other bits i key es p.1 ne)

  find_in-later :
      (bits i key : ℕ) (hs : Heads)
      → Placed hash_ptr bits i hs
      → hash_ptr key bits < i
      → find_in key (elements hs) ≡ none
  unfolding find_in
  find_in-later bits i key [] p lt = refl
  find_in-later bits i key (h ∷ hs) p lt =
      find_in-append key h (elements hs)
      ∙ ground (arith, find_in-other bits i key h p.0, find_in-later bits (suc i) key hs p.1)

  find_in-bucket :
      (bits i j key : ℕ) (hs : Heads)
      → Placed hash_ptr bits i hs
      → hash_ptr key bits ≡ i + j
      → j < length hs
      → find_in key (elements hs) ≡ find_in key (get_or hs j [])
  find_in-bucket bits i j key [] p eq lt = absurd (omega arith)
  find_in-bucket bits i zero key (h ∷ hs) p eq lt =
      find_in-append key h (elements hs)
      ∙ ground (arith, find_in-later bits (suc i) key hs p.1, or_else-none (find_in key h))
  find_in-bucket bits i (suc j) key (h ∷ hs) p eq lt =
      find_in-append key h (elements hs)
      ∙ ground (arith, find_in-other bits i key h p.0, find_in-bucket bits (suc i) j key hs p.1)

  -- In a well-formed table the lookup of a key finds the first element that has the key in the
  -- whole table, bucket after bucket, and finds none when no element has it.
  pub find_elem-find_in :
      Bounded hash_ptr
      → (t : Table) (key : ℕ) → IsValid hash_ptr t
      → find_elem hash_ptr t key ≡ find_in key (elements t.heads)
  unfolding find_elem
  find_elem-find_in bounded t key v = sym (
      find_in-bucket t.bits 0 (hash_ptr key t.bits) key t.heads v.filled.placed (omega arith)
        (omega (arith, bounded key t.bits, v.filled.size)))
