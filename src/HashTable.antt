-- ===== src/HashTable.antt =====
-- core/kedr_coi_hash_table.c and .h: the table of chained buckets that every registry uses.
-- An element is known by the address of its node; `hash_ptr` belongs to the kernel and is a
-- parameter. A bucket is a list, its head first. Arguments are never NULL.
pub mod Buckets
pub mod Valid
pub mod Lookup
pub mod Contents
pub mod Rehash
pub mod Registry
pub mod Update
pub mod Unique
pub mod Entered
pub mod Destroy
pub mod Undo
use kedr_callback_operations.Prelude.{
  ℕ, ◌+◌, ◌-◌, ◌%◌, ◌^◌, Bool, true, false, ◌&&◌, not, Option, none, some, List, [], ◌∷◌, map, ltb,
  ◌==◌, if◌then◌else◌, get_or, set, replicate,
}
use kedr_callback_operations.Kernel.{Kernel, Code, success, fail, enomem, kmalloc, kfree}
use Buckets.{Elem, Heads, unlink, relink}

abbrev pub size_mod : ℕ
size_mod = 2 ^ 64

abbrev pub bits_default : ℕ
bits_default = 4

abbrev pub bits_min : ℕ
bits_min = 1

pub record Table : Type 0 where
  pub heads : Heads
  pub bits : ℕ
  pub n_elems : ℕ

unfoldable pub elem_init : (node key : ℕ) → Elem
elem_init node key = record { node = node; key = key }

unfoldable pub init_hlist_heads : ℕ → Heads
init_hlist_heads bits = replicate (2 ^ bits) []

-- `none` is -ENOMEM.
unfoldable pub init : Kernel → Option Table × Kernel
unfolding init_hlist_heads
init k =
    let (ok, k') = kmalloc k in
    (
      if ok
          then some
              (record { heads = init_hlist_heads bits_default; bits = bits_default; n_elems = 0 })
          else none,
      k',
    )

-- Not implemented in the source: both say 0.
unfoldable pub is_need_expand : Table → Bool
is_need_expand t = false

unfoldable pub is_need_narrow : Table → Bool
is_need_narrow t = false

-- The first element of a chain with the key.
unfoldable pub find_in : ℕ → List Elem → Option Elem
find_in key [] = none
find_in key (e ∷ es) = if e.key == key then some e else find_in key es

unfoldable pub first_nonempty : Heads → Heads
first_nonempty [] = []
first_nonempty ([] ∷ hs) = first_nonempty hs
first_nonempty ((e ∷ es) ∷ hs) = (e ∷ es) ∷ hs

module _ {S : Type 0} (free_elem : Elem → S → S) where
  unfoldable pub free_bucket : List Elem → S → S
  free_bucket [] s = s
  free_bucket (e ∷ es) s = free_bucket es (free_elem e s)

  unfoldable pub free_heads : Heads → S → S
  unfolding free_bucket
  free_heads [] s = s
  free_heads (h ∷ hs) s = free_heads hs (free_bucket h s)

-- The result says whether the warning was printed. `kfree` of the heads is the last step.
module _ {S : Type 0} where
  destroy_from : Option (Elem → S → S) → Heads → S → Bool × S
  unfolding free_heads
  destroy_from free_elem [] s = (false, s)
  destroy_from none (h ∷ hs) s = (true, s)
  destroy_from (some free_elem) (h ∷ hs) s = (false, free_heads free_elem (h ∷ hs) s)

  unfoldable pub destroy : Option (Elem → S → S) → Table → (S → S) → S → Bool × S
  unfolding destroy_from first_nonempty
  destroy free_elem t kfree_heads s =
      let (warned, s') = destroy_from free_elem (first_nonempty t.heads) s in
      (warned, kfree_heads s')

module _ (hash_ptr : ℕ → ℕ → ℕ) where
  abbrev pub hash_function : ℕ → ℕ → ℕ
  hash_function key bits = hash_ptr key bits

  unfoldable pub add_head : ℕ → Elem → Heads → Heads
  add_head bits e heads = let i = hash_function e.key bits in set heads i (e ∷ get_or heads i [])

  unfoldable pub fill_from_bucket : ℕ → List Elem → Heads → Heads
  unfolding add_head
  fill_from_bucket bits [] heads = heads
  fill_from_bucket bits (e ∷ es) heads = fill_from_bucket bits es (add_head bits e heads)

  unfoldable pub fill_from : ℕ → Heads → Heads → Heads
  unfolding fill_from_bucket
  fill_from bits [] heads = heads
  fill_from bits (old ∷ olds) heads = fill_from bits olds (fill_from_bucket bits old heads)

  unfoldable pub realloc_slowpath : Table → ℕ → Kernel → Code × Table × Kernel
  unfolding init_hlist_heads fill_from
  realloc_slowpath t bits_new k =
      let (ok, k₁) = kmalloc k in
      let heads_min = fill_from bits_min t.heads (init_hlist_heads bits_min) in
      let (ok₂, k₂) = kmalloc (kfree k₁) in
      if ok
      then (if ok₂
          then (
            success,
            record t {
              heads = fill_from bits_new heads_min (init_hlist_heads bits_new);
              bits = bits_new;
            },
            kfree k₂,
          )
          else (fail enomem, record t { heads = heads_min; bits = bits_min }, k₂))
      else (fail enomem, t, k₁)

  unfoldable pub realloc : Table → ℕ → Kernel → Code × Table × Kernel
  unfolding realloc_slowpath
  realloc t bits_new k =
      let (ok, k₁) = kmalloc k in
      if ok
      then (
        success,
        record t {
          heads = fill_from bits_new t.heads (init_hlist_heads bits_new);
          bits = bits_new;
        },
        kfree k₁,
      )
      else if ltb bits_new t.bits && not (bits_new == bits_min)
      then realloc_slowpath t bits_new k₁
      else (fail enomem, t, k₁)

  -- The result of a failed expansion is not looked at.
  unfoldable pub add_elem : Table → Elem → Kernel → Code × Table × Kernel
  unfolding is_need_expand realloc add_head
  add_elem t e k =
      let (_, t', k') : Code × Table × Kernel =
        if is_need_expand t then realloc t (t.bits + 1) k else (success, t, k) in
      (
        success,
        record t' { heads = add_head t'.bits e t'.heads; n_elems = (t'.n_elems + 1) % size_mod },
        k',
      )

  unfoldable pub find_elem : Table → ℕ → Option Elem
  unfolding find_in
  find_elem t key = find_in key (get_or t.heads (hash_function key t.bits) [])

  unfoldable pub remove_elem : Table → Elem → Kernel → Table × Kernel
  unfolding is_need_narrow realloc
  remove_elem t e k =
      let t' : Table = record t {
        heads = unlink e.node t.heads;
        n_elems = (t.n_elems + size_mod - 1) % size_mod;
      } in
      if is_need_narrow t'
      then (let (_, t'', k'') = realloc t' (t'.bits - 1) k in (t'', k''))
      else (t', k)

  -- `elem_new` takes the place and the key of `e`.
  unfoldable pub transmit_elem : Table → Elem → ℕ → Table
  transmit_elem t e node_new = record t {
    heads = relink e.node (record { node = node_new; key = e.key }) t.heads;
  }
