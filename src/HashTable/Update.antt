-- ===== src/HashTable/Update.antt =====
-- Adding, removing and moving elements, and what a lookup finds afterwards.
use mathlib.Core.List.{Perm}
use mathlib.Core.List.Perm
use kedr_callback_operations.Prelude.{
  ℕ, zero, suc, ◌^◌, ◌<◌, ◌≡◌, refl, sym, ap, ◌∙◌, none, some, List, [], ◌∷◌, arith, length,
  length-perm, get_or, set, All, Bool-cases, ◌==◌, if◌then◌else◌, inl, inr,
}
use kedr_callback_operations.Kernel.{Kernel, success}
use kedr_callback_operations.HashTable.Buckets.{Elem, Heads, elements, unlink, unlink_in}
use kedr_callback_operations.HashTable.{
  Table, find_in, add_head, add_elem, find_elem, remove_elem, realloc,
}
use kedr_callback_operations.HashTable.Valid.{Bounded, Placed, IsValid, add_head-IsFilled}
use kedr_callback_operations.HashTable.Lookup.{find_elem-find_in}
use kedr_callback_operations.HashTable.Contents.{elements-add_head}
use kedr_callback_operations.HashTable.Rehash.{realloc-Reallocated}
use kedr_callback_operations.HashTable.Registry.{
  DistinctNodes, DistinctKeys, Has, elements-unlink, perm-unlink_in, find_in-unlink_in,
  find_in-perm,
}

get_or-set :
    {A : Type 0} (xs : List A) (i j : ℕ) (v d : A)
    → i < length xs
    → get_or (set xs i v) j d ≡ (if i == j then v else get_or xs j d)
get_or-set [] i j v d h = absurd (omega arith)
get_or-set (x ∷ xs) zero zero v d h = refl
get_or-set (x ∷ xs) zero (suc j) v d h = ground arith
get_or-set (x ∷ xs) (suc i) zero v d h = ground arith
get_or-set (x ∷ xs) (suc i) (suc j) v d h = ground (arith, get_or-set xs i j v d)

All-unlink_in : (P : Elem → Type 0) (n : ℕ) (es : List Elem) → All P es → All P (unlink_in n es)
unfolding unlink_in
All-unlink_in P n [] a = tt
All-unlink_in P n (e ∷ es) a = elim (Bool-cases (e.node == n)) [
  | inl hit ↦ rw hit a.1
  | inr miss ↦ rw miss (a.0, All-unlink_in P n es a.1)
]

module _ (hash_ptr : ℕ → ℕ → ℕ) where
  Placed-unlink :
      (bits i n : ℕ) (hs : Heads) → Placed hash_ptr bits i hs → Placed hash_ptr bits i (unlink n hs)
  unfolding unlink
  Placed-unlink bits i n [] p = tt
  Placed-unlink bits i n (h ∷ hs) p = (All-unlink_in _ n h p.0, Placed-unlink bits (suc i) n hs p.1)

  length-unlink : (n : ℕ) (hs : Heads) → length (unlink n hs) ≡ length hs
  unfolding unlink
  length-unlink n [] = refl
  length-unlink n (h ∷ hs) = ap suc (length-unlink n hs)

module _ (hash_ptr : ℕ → ℕ → ℕ) (bounded : Bounded hash_ptr) where
  find_in-add_head :
      (bits : ℕ) (e : Elem) (key : ℕ) (hs : Heads)
      → length hs ≡ 2 ^ bits
      → find_in key (get_or (add_head hash_ptr bits e hs) (hash_ptr key bits) [])
        ≡ (if e.key == key then some e else find_in key (get_or hs (hash_ptr key bits) []))
  unfolding add_head find_in
  find_in-add_head bits e key hs size =
      let i = hash_ptr e.key bits in
      let j = hash_ptr key bits in
      let same : e.key ≡ key → i ≡ j = λ p. ap (λ t. hash_ptr t bits) p in
      rw (get_or-set hs i j (e ∷ get_or hs i []) [] (omega (arith, bounded e.key bits)))
        (ground (arith, same))

  -- Adding succeeds, keeps the table valid and adds the element to its elements, and a lookup then
  -- finds the new element under its key and under any other key what it found before.
  pub add_elem-lem :
      (t : Table) (e : Elem) (key : ℕ) (k : Kernel)
      → IsValid hash_ptr t
      → let (c, t', k') = add_elem hash_ptr t e k in
        (c ≡ success)
        × (k' ≡ k)
        × IsValid hash_ptr t'
        × Perm (elements t'.heads) (e ∷ elements t.heads)
        × (find_elem hash_ptr t' key ≡ (if e.key == key then some e else find_elem hash_ptr t key))
  unfolding add_elem find_elem
  add_elem-lem t e key k v =
      let added = elements-add_head hash_ptr bounded t.bits e t.heads v.filled in
      (
        refl,
        refl,
        record {
          filled = add_head-IsFilled hash_ptr t.bits e t.heads v.filled;
          counted = omega (arith, length-perm added, v.counted);
        },
        added,
        find_in-add_head t.bits e key t.heads v.filled.size,
      )

  -- Removing an element of a table with distinct addresses, whatever the keys: the table stays valid,
  -- and the others stay in their order.
  pub remove_elem-unlink_in :
      (t : Table) (e : Elem) (k : Kernel)
      → IsValid hash_ptr t
      → DistinctNodes (elements t.heads)
      → Has e (elements t.heads)
      → let t' = (remove_elem hash_ptr t e k).0 in
        IsValid hash_ptr t' × (elements t'.heads ≡ unlink_in e.node (elements t.heads))
  unfolding remove_elem
  remove_elem-unlink_in t e k v d h =
      let after = elements-unlink e.node t.heads d in
      let removed : Perm (elements t.heads) (e ∷ elements (unlink e.node t.heads)) =
        rw after (perm-unlink_in e (elements t.heads) d h) in
      (
        record {
          filled = record {
            size = length-unlink hash_ptr e.node t.heads ∙ v.filled.size;
            placed = Placed-unlink hash_ptr t.bits 0 e.node t.heads v.filled.placed;
          };
          counted = omega (arith, length-perm removed, v.counted);
        },
        after,
      )

  -- Removing an element of a table with distinct addresses and keys keeps the table valid and takes
  -- just that element away, and a lookup then finds nothing under its key and under any other key
  -- what it found before.
  pub remove_elem-lem :
      (t : Table) (e : Elem) (key : ℕ) (k : Kernel)
      → IsValid hash_ptr t
      → DistinctNodes (elements t.heads)
      → DistinctKeys (elements t.heads)
      → Has e (elements t.heads)
      → let (t', k') = remove_elem hash_ptr t e k in
        (k' ≡ k)
        × IsValid hash_ptr t'
        × Perm (elements t.heads) (e ∷ elements t'.heads)
        × (find_elem hash_ptr t' key ≡ (if e.key == key then none else find_elem hash_ptr t key))
  unfolding remove_elem
  remove_elem-lem t e key k v d dk h =
      let after = elements-unlink e.node t.heads d in
      let removed : Perm (elements t.heads) (e ∷ elements (unlink e.node t.heads)) =
        rw after (perm-unlink_in e (elements t.heads) d h) in
      let valid = (remove_elem-unlink_in t e k v d h).0 in
      (
        refl,
        valid,
        removed,
        find_elem-find_in hash_ptr bounded (remove_elem hash_ptr t e k).0 key valid
            ∙ rw (after, find_elem-find_in hash_ptr bounded t key v)
                (find_in-unlink_in e key (elements t.heads) d dk h),
      )

  -- A reallocation changes no lookup in a table with distinct keys, even when it fails.
  pub find_elem-realloc :
      (t : Table) (bits key : ℕ) (k : Kernel)
      → IsValid hash_ptr t
      → DistinctKeys (elements t.heads)
      → find_elem hash_ptr (realloc hash_ptr t bits k).1 key ≡ find_elem hash_ptr t key
  find_elem-realloc t bits key k v d =
      let r = realloc-Reallocated hash_ptr bounded t bits v k in
      find_elem-find_in hash_ptr bounded (realloc hash_ptr t bits k).1 key r.valid
      ∙ sym (find_in-perm key (Perm.symm r.same) d)
      ∙ sym (find_elem-find_in hash_ptr bounded t key v)
