-- ===== src/HashTable/Unique.antt =====
-- Tables whose elements have distinct addresses and keys: adding a new key and removing an element.
use kedr_callback_operations.Prelude.{
  ℕ, ◌≡◌, refl, sym, ◌∙◌, subst, Bool, true, false, ◌||◌, none, some, List, [], ◌∷◌, arith,
  Bool-cases, inl, inr, ◌==◌, if◌then◌else◌, ◌+◌,
}
use mathlib.Core.Logic.{∥∥₁_elim}
use mathlib.Core.List.Perm
use mathlib.Core.List.{Perm, Permᴰ}
use native.Mathlib.Nat.{ℕ_set}
use kedr_callback_operations.Kernel.{Kernel}
use kedr_callback_operations.HashTable.{Table, find_in, add_elem, find_elem, remove_elem}
use kedr_callback_operations.HashTable.Buckets.{Elem, elements}
use kedr_callback_operations.HashTable.Valid.{Bounded, IsValid}
use kedr_callback_operations.HashTable.Lookup.{find_elem-find_in}
use kedr_callback_operations.HashTable.Registry.{
  has_node, DistinctNodes, DistinctKeys, DistinctKeys-permᴰ, Has, has_node_of_Has,
}
use kedr_callback_operations.HashTable.Update.{add_elem-lem, remove_elem-lem}

has_node-permᴰ : (n : ℕ) {xs ys : List Elem} → Permᴰ xs ys → has_node n xs ≡ has_node n ys
has_node-permᴰ n Permᴰ.nil = refl
has_node-permᴰ n (Permᴰ.cons e d) = ground (arith, has_node-permᴰ n d)
has_node-permᴰ n (Permᴰ.swap e f) = ground arith
has_node-permᴰ n (Permᴰ.trans d d') = has_node-permᴰ n d ∙ has_node-permᴰ n d'

Bool_set : IsSet Bool
Bool_set = hlevel

pub has_node-perm : (n : ℕ) {xs ys : List Elem} → Perm xs ys → has_node n xs ≡ has_node n ys
has_node-perm n p = ∥∥₁_elim p (Bool_set _ _) (has_node-permᴰ n)

DistinctNodes-permᴰ : {xs ys : List Elem} → Permᴰ xs ys → DistinctNodes xs → DistinctNodes ys
DistinctNodes-permᴰ Permᴰ.nil h = h
DistinctNodes-permᴰ (Permᴰ.cons {a} {b} {l₁} e d) h = (
  sym (has_node-permᴰ b.node d) ∙ subst (λ (t : Elem). has_node t.node l₁ ≡ false) e h.0,
  DistinctNodes-permᴰ d h.1,
)
DistinctNodes-permᴰ (Permᴰ.swap e f) h = ground arith
DistinctNodes-permᴰ (Permᴰ.trans d d') h = DistinctNodes-permᴰ d' (DistinctNodes-permᴰ d h)

DistinctNodes-prop : (xs : List Elem) → IsProp (DistinctNodes xs)
DistinctNodes-prop [] = hlevel
DistinctNodes-prop (x ∷ xs) = hlevel (DistinctNodes-prop xs)

DistinctKeys-prop : (xs : List Elem) → IsProp (DistinctKeys xs)
DistinctKeys-prop [] = hlevel
DistinctKeys-prop (x ∷ xs) = hlevel (DistinctKeys-prop xs)

pub find_in-Has :
    (key : ℕ) (es : List Elem) (e : Elem) → find_in key es ≡ some e → Has e es × (e.key ≡ key)
unfolding find_in
find_in-Has key [] e h = cc
find_in-Has key (x ∷ xs) e h = elim (Bool-cases (x.key == key)) [
  | inl here ↦ (inl (ground arith), ground arith)
  | inr later ↦ let rest = find_in-Has key xs e (ground arith) in (inr rest.0, rest.1)
]

pub DistinctNodes-perm : {xs ys : List Elem} → Perm xs ys → DistinctNodes xs → DistinctNodes ys
DistinctNodes-perm {xs} {ys} p h = ∥∥₁_elim p (DistinctNodes-prop ys) (λ d. DistinctNodes-permᴰ d h)

DistinctKeys-perm : {xs ys : List Elem} → Perm xs ys → DistinctKeys xs → DistinctKeys ys
DistinctKeys-perm {xs} {ys} p h = ∥∥₁_elim p (DistinctKeys-prop ys) (λ d. DistinctKeys-permᴰ d h)

-- How often `f` takes the value `a` on the addresses of the elements.
abbrev pub tally : (ℕ → ℕ) → ℕ → List Elem → ℕ
tally f a [] = 0
tally f a (e ∷ es) = (if f e.node == a then 1 else 0) + tally f a es

tally-permᴰ : (f : ℕ → ℕ) (a : ℕ) {xs ys : List Elem} → Permᴰ xs ys → tally f a xs ≡ tally f a ys
tally-permᴰ f a Permᴰ.nil = refl
tally-permᴰ f a (Permᴰ.cons e d) = ground (arith, tally-permᴰ f a d)
tally-permᴰ f a (Permᴰ.swap e g) = ground arith
tally-permᴰ f a (Permᴰ.trans d d') = tally-permᴰ f a d ∙ tally-permᴰ f a d'

pub tally-perm : (f : ℕ → ℕ) (a : ℕ) {xs ys : List Elem} → Perm xs ys → tally f a xs ≡ tally f a ys
tally-perm f a p = ∥∥₁_elim p (ℕ_set _ _) (tally-permᴰ f a)

module _ (hash_ptr : ℕ → ℕ → ℕ) where
  pub record IsUnique (t : Table) : Type 0 where
    pub valid : IsValid hash_ptr t
    pub nodes : DistinctNodes (elements t.heads)
    pub keys : DistinctKeys (elements t.heads)

  -- `t'` is `t` with the element `e` besides.
  pub record Gains (e : Elem) (t t' : Table) : Type 0 where
    pub unique : IsUnique t'
    pub same : Perm (elements t'.heads) (e ∷ elements t.heads)
    pub finds :
        (key : ℕ)
        → find_elem hash_ptr t' key ≡ (if e.key == key then some e else find_elem hash_ptr t key)
    pub occupied :
        (n : ℕ) → has_node n (elements t'.heads) ≡ ((e.node == n) || has_node n (elements t.heads))

  -- `t'` is `t` without its element `e`.
  pub record Loses (e : Elem) (t t' : Table) : Type 0 where
    pub unique : IsUnique t'
    pub same : Perm (elements t.heads) (e ∷ elements t'.heads)
    pub finds :
        (key : ℕ)
        → find_elem hash_ptr t' key ≡ (if e.key == key then none else find_elem hash_ptr t key)

  module _ (bounded : Bounded hash_ptr) (t : Table) (u : IsUnique t) where
    pub found-Has :
        (key : ℕ) (e : Elem)
        → find_elem hash_ptr t key ≡ some e
        → Has e (elements t.heads) × (e.key ≡ key)
    found-Has key e h =
        find_in-Has key (elements t.heads) e
          (sym (find_elem-find_in hash_ptr bounded t key u.valid) ∙ h)

    -- An element that a lookup finds has its address in the table.
    pub found-has_node :
        (key : ℕ) (e : Elem)
        → find_elem hash_ptr t key ≡ some e
        → has_node e.node (elements t.heads) ≡ true
    found-has_node key e h = has_node_of_Has e (elements t.heads) (found-Has key e h).0

    pub add_elem-Gains :
        (e : Elem) (k : Kernel)
        → find_elem hash_ptr t e.key ≡ none
        → has_node e.node (elements t.heads) ≡ false
        → Gains e t (add_elem hash_ptr t e k).1
    add_elem-Gains e k new fresh =
        let lem = add_elem-lem hash_ptr bounded t e e.key k u.valid in
        let same = lem.3 in
        let absent = sym (find_elem-find_in hash_ptr bounded t e.key u.valid) ∙ new in
        record {
          unique = record {
            valid = lem.2;
            nodes = DistinctNodes-perm (Perm.symm same) (fresh, u.nodes);
            keys = DistinctKeys-perm (Perm.symm same) (absent, u.keys);
          };
          same = same;
          finds = λ key. (add_elem-lem hash_ptr bounded t e key k u.valid).4;
          occupied = λ n. has_node-perm n same;
        }

    pub remove_elem-Loses :
        (e : Elem) (k : Kernel)
        → find_elem hash_ptr t e.key ≡ some e
        → Loses e t (remove_elem hash_ptr t e k).0
    remove_elem-Loses e k found =
        let h = (found-Has e.key e found).0 in
        let lem = remove_elem-lem hash_ptr bounded t e e.key k u.valid u.nodes u.keys h in
        let same = lem.2 in
        record {
          unique = record {
            valid = lem.1;
            nodes = (DistinctNodes-perm same u.nodes).1;
            keys = (DistinctKeys-perm same u.keys).1;
          };
          same = same;
          finds = λ key. (remove_elem-lem hash_ptr bounded t e key k u.valid u.nodes u.keys h).3;
        }
