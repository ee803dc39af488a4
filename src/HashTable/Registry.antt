-- ===== src/HashTable/Registry.antt =====
-- Lists of elements with distinct addresses and keys, as every table of the library holds them.
use mathlib.Core.List.{Perm, Permᴰ}
use mathlib.Core.Logic.{∥∥₁_elim}
use mathlib.Core.List.Perm
use kedr_callback_operations.Prelude.{
  ℕ, ◌≡◌, ◌≢◌, ◌⊎◌, inl, inr, refl, ap, subst, ◌∙◌, Bool, true, false, ◌||◌, Option, none, List, [],
  ◌∷◌, ◌++◌, arith, Bool-cases, ◌==◌, ==-refl, if◌then◌else◌,
}
use kedr_callback_operations.HashTable.Buckets.{Elem, Heads, elements, unlink, unlink_in}
use kedr_callback_operations.HashTable.{find_in}

abbrev pub has_node : ℕ → List Elem → Bool
has_node n [] = false
has_node n (e ∷ es) = (e.node == n) || has_node n es

abbrev pub DistinctNodes : List Elem → Type 0
DistinctNodes [] = Unit {0}
DistinctNodes (e ∷ es) = (has_node e.node es ≡ false) × DistinctNodes es

abbrev pub DistinctKeys : List Elem → Type 0
DistinctKeys [] = Unit {0}
DistinctKeys (e ∷ es) = (find_in e.key es ≡ none) × DistinctKeys es

abbrev pub Has : Elem → List Elem → Type 0
Has e [] = ⊥
Has e (x ∷ xs) = (x ≡ e) ⊎ Has e xs

pub has_node-append :
    (n : ℕ) (xs ys : List Elem) → has_node n (xs ++ ys) ≡ (has_node n xs || has_node n ys)
has_node-append n [] ys = refl
has_node-append n (x ∷ xs) ys = ground (arith, has_node-append n xs ys)

pub has_node_of_Has : (e : Elem) (xs : List Elem) → Has e xs → has_node e.node xs ≡ true
has_node_of_Has e [] h = absurd h
has_node_of_Has e (x ∷ xs) (inl h) = ground arith
has_node_of_Has e (x ∷ xs) (inr h) = ground (arith, has_node_of_Has e xs h)

pub unlink_in-absent : (n : ℕ) (xs : List Elem) → has_node n xs ≡ false → unlink_in n xs ≡ xs
unfolding unlink_in
unlink_in-absent n [] h = refl
unlink_in-absent n (x ∷ xs) h = ground (arith, unlink_in-absent n xs)

unlink_in-append :
    (n : ℕ) (xs ys : List Elem)
    → unlink_in n (xs ++ ys)
      ≡ (if has_node n xs then unlink_in n xs ++ ys else xs ++ unlink_in n ys)
unfolding unlink_in
unlink_in-append n [] ys = refl
unlink_in-append n (x ∷ xs) ys = ground (arith, unlink_in-append n xs ys)

elements-unlink_absent :
    (n : ℕ) (hs : Heads) → has_node n (elements hs) ≡ false → elements (unlink n hs) ≡ elements hs
unfolding unlink
elements-unlink_absent n [] h = refl
elements-unlink_absent n (es ∷ hs) h =
    ground (
      arith,
      has_node-append n es (elements hs),
      unlink_in-absent n es,
      elements-unlink_absent n hs,
    )

DistinctNodes-right : (xs ys : List Elem) → DistinctNodes (xs ++ ys) → DistinctNodes ys
DistinctNodes-right [] ys d = d
DistinctNodes-right (x ∷ xs) ys d = DistinctNodes-right xs ys d.1

right-absent :
    (n : ℕ) (xs ys : List Elem)
    → DistinctNodes (xs ++ ys)
    → has_node n xs ≡ true
    → has_node n ys ≡ false
right-absent n [] ys d h = cc
right-absent n (x ∷ xs) ys d h =
    ground (arith, has_node-append x.node xs ys, right-absent n xs ys d.1)

-- Where addresses are distinct, deleting a node from its chain deletes it from the whole list.
pub elements-unlink :
    (n : ℕ) (hs : Heads)
    → DistinctNodes (elements hs)
    → elements (unlink n hs) ≡ unlink_in n (elements hs)
unfolding unlink
elements-unlink n [] d = refl
elements-unlink n (es ∷ hs) d = elim (Bool-cases (has_node n es)) [
  | inl here ↦ rw (
    unlink_in-append n es (elements hs),
    here,
    elements-unlink_absent n hs (right-absent n es (elements hs) d here),
  )
  | inr away ↦ rw (
    unlink_in-append n es (elements hs),
    away,
    unlink_in-absent n es away,
    elements-unlink n hs (DistinctNodes-right es (elements hs) d),
  )
]

pub Has-unlink_in :
    (n : ℕ) (e : Elem) (xs : List Elem) → Has e xs → (e.node == n) ≡ false → Has e (unlink_in n xs)
unfolding unlink_in
Has-unlink_in n e [] h other = absurd h
Has-unlink_in n e (x ∷ xs) (inl h) other =
    let away : (x.node == n) ≡ false = ap (λ (y : Elem). y.node == n) h ∙ other in rw away (inl h)
Has-unlink_in n e (x ∷ xs) (inr h) other = elim (Bool-cases (x.node == n)) [
  | inl here ↦ rw here h
  | inr away ↦ rw away (inr (Has-unlink_in n e xs h other))
]

pub perm-unlink_in :
    (e : Elem) (xs : List Elem) → DistinctNodes xs → Has e xs → Perm xs (e ∷ unlink_in e.node xs)
unfolding unlink_in
perm-unlink_in e [] d h = absurd h
perm-unlink_in e (x ∷ xs) d (inl h) = rw (h, ==-refl e.node) Perm.rfl
perm-unlink_in e (x ∷ xs) d (inr h) =
    let other : (x.node == e.node) ≡ false = ground (arith, has_node_of_Has e xs h) in
    rw other (Perm.trans (Perm.cons x (perm-unlink_in e xs d.1 h)) (Perm.swap e x _))

find_in_of_Has-ne : (e : Elem) (k : ℕ) (xs : List Elem) → find_in k xs ≡ none → Has e xs → e.key ≢ k
unfolding find_in
find_in_of_Has-ne e k [] n h = absurd h
find_in_of_Has-ne e k (x ∷ xs) n (inl h) = ground arith
find_in_of_Has-ne e k (x ∷ xs) n (inr h) = ground (arith, find_in_of_Has-ne e k xs)

pub find_in-unlink_in :
    (e : Elem) (k : ℕ) (xs : List Elem)
    → DistinctNodes xs
    → DistinctKeys xs
    → Has e xs
    → find_in k (unlink_in e.node xs) ≡ (if e.key == k then none else find_in k xs)
unfolding unlink_in find_in
find_in-unlink_in e k [] d dk h = absurd h
find_in-unlink_in e k (x ∷ xs) d dk (inl h) = ground (arith)
find_in-unlink_in e k (x ∷ xs) d dk (inr h) = ground (
  arith,
  find_in-unlink_in e k xs d.1 dk.1 h,
  has_node_of_Has e xs h,
  find_in_of_Has-ne e x.key xs,
)

-- A lookup by distinct keys does not depend on the order of the elements.
absent-permᴰ : (k : ℕ) {xs ys : List Elem} → Permᴰ xs ys → find_in k xs ≡ none → find_in k ys ≡ none
unfolding find_in
absent-permᴰ k Permᴰ.nil h = h
absent-permᴰ k (Permᴰ.cons e d) h = ground (arith, absent-permᴰ k d)
absent-permᴰ k (Permᴰ.swap e f) h = ground arith
absent-permᴰ k (Permᴰ.trans d d') h = absent-permᴰ k d' (absent-permᴰ k d h)

pub DistinctKeys-permᴰ : {xs ys : List Elem} → Permᴰ xs ys → DistinctKeys xs → DistinctKeys ys
unfolding find_in
DistinctKeys-permᴰ Permᴰ.nil h = h
DistinctKeys-permᴰ (Permᴰ.cons {a} {b} {l₁} e d) h = (
  absent-permᴰ b.key d (subst (λ (t : Elem). find_in t.key l₁ ≡ none) e h.0),
  DistinctKeys-permᴰ d h.1,
)
DistinctKeys-permᴰ (Permᴰ.swap e f) h = ground arith
DistinctKeys-permᴰ (Permᴰ.trans d d') h = DistinctKeys-permᴰ d' (DistinctKeys-permᴰ d h)

find_in-permᴰ :
    (k : ℕ) {xs ys : List Elem} → Permᴰ xs ys → DistinctKeys xs → find_in k xs ≡ find_in k ys
unfolding find_in
find_in-permᴰ k Permᴰ.nil h = refl
find_in-permᴰ k (Permᴰ.cons e d) h = ground (arith, find_in-permᴰ k d h.1)
find_in-permᴰ k (Permᴰ.swap e f) h = ground arith
find_in-permᴰ k (Permᴰ.trans d d') h =
    find_in-permᴰ k d h ∙ find_in-permᴰ k d' (DistinctKeys-permᴰ d h)

Elem-option_set : IsSet (Option Elem)
Elem-option_set = hlevel

pub find_in-perm :
    (k : ℕ) {xs ys : List Elem} → Perm xs ys → DistinctKeys xs → find_in k xs ≡ find_in k ys
find_in-perm k p h = ∥∥₁_elim p (Elem-option_set _ _) (λ d. find_in-permᴰ k d h)
