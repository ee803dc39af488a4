-- ===== src/HashTable/Buckets.antt =====
-- Elements and chains of the hash table: `hlist_del` and `hlist_add_before` on the linked nodes.
use kedr_callback_operations.Prelude.{ℕ, List, [], ◌∷◌, ◌++◌, map, ◌==◌, if◌then◌else◌}

pub record Elem : Type 0 where
  -- The address of the element, by which its container is known.
  pub node : ℕ
  pub key : ℕ

abbrev pub Heads : Type 0
Heads = List (List Elem)

-- hlist_del: the node leaves the chain that holds it.
unfoldable pub unlink_in : ℕ → List Elem → List Elem
unlink_in node [] = []
unlink_in node (e ∷ es) = if e.node == node then es else e ∷ unlink_in node es

unfoldable pub unlink : ℕ → Heads → Heads
unfolding unlink_in
unlink node = map (unlink_in node)

-- hlist_add_before and hlist_del: `new` stands where the node stood.
unfoldable pub relink_in : ℕ → Elem → List Elem → List Elem
relink_in node new [] = []
relink_in node new (e ∷ es) = if e.node == node then new ∷ es else e ∷ relink_in node new es

unfoldable pub relink : ℕ → Elem → Heads → Heads
unfolding relink_in
relink node new = map (relink_in node new)

-- All elements, bucket by bucket.
abbrev pub elements : Heads → List Elem
elements [] = []
elements (h ∷ hs) = h ++ elements hs
