-- ===== src/HashTable/Undo.antt =====
-- Removing an element that was added just now.
use kedr_callback_operations.Prelude.{
  ℕ, zero, suc, ◌+◌, ◌-◌, ◌%◌, ◌<◌, ◌≡◌, refl, false, [], ◌∷◌, arith, get_or, set,
}
use kedr_callback_operations.Kernel.{Kernel}
use kedr_callback_operations.HashTable.{Table, size_mod, add_head, add_elem, remove_elem}
use kedr_callback_operations.HashTable.Buckets.{Elem, Heads, elements, unlink, unlink_in}
use kedr_callback_operations.HashTable.Registry.{has_node, has_node-append, unlink_in-absent}

unlink-absent : (n : ℕ) (hs : Heads) → has_node n (elements hs) ≡ false → unlink n hs ≡ hs
unfolding unlink
unlink-absent n [] e = refl
unlink-absent n (h ∷ hs) e =
    ground (arith, has_node-append n h (elements hs), unlink_in-absent n h, unlink-absent n hs)

unlink-add :
    (e : Elem) (i : ℕ) (hs : Heads)
    → has_node e.node (elements hs) ≡ false
    → unlink e.node (set hs i (e ∷ get_or hs i [])) ≡ hs
unfolding unlink unlink_in
unlink-add e i [] absent = refl
unlink-add e zero (h ∷ hs) absent =
    ground (arith, has_node-append e.node h (elements hs), unlink-absent e.node hs)
unlink-add e (suc i) (h ∷ hs) absent =
    ground
      (arith, has_node-append e.node h (elements hs), unlink_in-absent e.node h, unlink-add e i hs)

-- Removing an element right after it was added gives back the very table, if no other element has
-- its address and the count had not wrapped.
pub remove_elem-add_elem :
    (hash_ptr : ℕ → ℕ → ℕ) (t : Table) (e : Elem) (k k' : Kernel)
    → has_node e.node (elements t.heads) ≡ false
    → t.n_elems < size_mod
    → remove_elem hash_ptr (add_elem hash_ptr t e k).1 e k' ≡ (t, k')
unfolding remove_elem add_elem add_head
remove_elem-add_elem hash_ptr t e k k' absent small =
    let heads = unlink-add e (hash_ptr e.key t.bits) t.heads absent in
    let count : ((t.n_elems + 1) % size_mod + size_mod - 1) % size_mod ≡ t.n_elems = omega arith in
    rw (heads, count) refl
