-- ===== src/HashTable/Entered.antt =====
-- The elements of a table of core/kedr_coi_hash_table.c after the addition of one.
use kedr_callback_operations.Prelude.{
  ℕ, zero, suc, ◌<◌, ◌⊎◌, refl, List, [], ◌∷◌, ◌++◌, arith, inl, inr, length, get_or, set,
}
use kedr_callback_operations.Kernel.{Kernel}
use kedr_callback_operations.HashTable.{Table, add_elem, add_head}
use kedr_callback_operations.HashTable.Buckets.{Elem, Heads, elements}
use kedr_callback_operations.HashTable.Valid.{Bounded, IsValid}
use kedr_callback_operations.HashTable.Registry.{Has}

Has-left : (x : Elem) (xs ys : List Elem) → Has x xs → Has x (xs ++ ys)
Has-left x [] ys h = absurd h
Has-left x (y ∷ xs) ys (inl h) = inl h
Has-left x (y ∷ xs) ys (inr h) = inr (Has-left x xs ys h)

Has-right : (x : Elem) (xs ys : List Elem) → Has x ys → Has x (xs ++ ys)
Has-right x [] ys h = h
Has-right x (y ∷ xs) ys h = inr (Has-right x xs ys h)

Has-either : (x : Elem) (xs ys : List Elem) → Has x (xs ++ ys) → Has x xs ⊎ Has x ys
Has-either x [] ys h = inr h
Has-either x (y ∷ xs) ys (inl h) = inl (inl h)
Has-either x (y ∷ xs) ys (inr h) = elim (Has-either x xs ys h) [
  | inl left ↦ inl (inr left)
  | inr right ↦ inr right
]

Has-set :
    (x e : Elem) (i : ℕ) (hs : Heads)
    → Has x (elements hs)
    → Has x (elements (set hs i (e ∷ get_or hs i [])))
Has-set x e i [] h = absurd h
Has-set x e zero (b ∷ hs) h = inr h
Has-set x e (suc i) (b ∷ hs) h = elim (Has-either x b (elements hs) h) [
  | inl left ↦ Has-left x b _ left
  | inr right ↦ Has-right x b _ (Has-set x e i hs right)
]

set-Has :
    (e : Elem) (i : ℕ) (hs : Heads)
    → i < length hs
    → Has e (elements (set hs i (e ∷ get_or hs i [])))
set-Has e i [] small = absurd (omega (arith, small))
set-Has e zero (b ∷ hs) small = inl refl
set-Has e (suc i) (b ∷ hs) small = Has-right e b _ (set-Has e i hs (omega (arith, small)))

module _ (hash_ptr : ℕ → ℕ → ℕ) (t : Table) (e : Elem) (k : Kernel) where
  -- The elements of before are in the table still, and the new one is.
  pub add_elem-Has :
      Bounded hash_ptr
      → IsValid hash_ptr t
      → Has e (elements (add_elem hash_ptr t e k).1.heads)
        × ((x : Elem)
            → Has x (elements t.heads)
            → Has x (elements (add_elem hash_ptr t e k).1.heads))
  unfolding add_elem add_head
  add_elem-Has bounded v = (
    set-Has e (hash_ptr e.key t.bits) t.heads (omega (arith, bounded e.key t.bits, v.filled.size)),
    λ x h. Has-set x e (hash_ptr e.key t.bits) t.heads h,
  )
