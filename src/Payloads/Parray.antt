-- ===== src/Payloads/Parray.antt =====
-- `struct parray` of core/payloads.c: an array of pointers that grows and ends with NULL.
use kedr_callback_operations.Prelude.{
  ℕ, suc, ◌+◌, ◌-◌, ◌≤◌, ◌≡◌, refl, sym, ap, subst, ◌∙◌, Bool, false, Option, none, some, List, [],
  ◌∷◌, ◌++◌, arith, length, length-append, take, take-length, Bool-cases, ◌==◌, if◌then◌else◌,
  append_assoc, inl, inr,
}
use kedr_callback_operations.Kernel.{Kernel, Code, success, fail, enomem, kfree, Holds}
use kedr_callback_operations.Payloads.Types.{Parray}

abbrev pub null : ℕ
null = 0

abbrev pub parray_init : Parray
parray_init = record { elems = none; n_elems = 0 }

unfoldable pub parray_reset : Parray → Kernel → Parray × Kernel
parray_reset a k = if a.n_elems == 0 then (a, k) else (parray_init, kfree k)

-- krealloc to n words: the first words are kept, and a block is new only if there was none.
abbrev kept : Option (List ℕ) → ℕ → List ℕ
kept none n = []
kept (some words) n = take n words

abbrev blocks_of : Option (List ℕ) → ℕ
blocks_of none = 0
blocks_of (some words) = 1

unfoldable pub krealloc : Parray → Kernel → Bool × Kernel
krealloc a k = (
  k.answer k.asked,
  record k {
    asked = k.asked + 1;
    allocated = if k.answer k.asked then k.allocated + (1 - blocks_of a.elems) else k.allocated;
  },
)

-- The words behind the kept ones are written before anybody reads them.
unfoldable pub parray_add_elem : Parray → ℕ → Kernel → Code × Parray × Kernel
unfolding krealloc
parray_add_elem a elem k =
    let (ok, k') = krealloc a k in
    if ok
    then (
      success,
      record {
        elems = some (kept a.elems a.n_elems ++ (elem ∷ null ∷ []));
        n_elems = a.n_elems + 1;
      },
      k',
    )
    else (fail enomem, a, k')

-- The array for a list of pointers: NULL for no pointer.
abbrev pub terminated : List ℕ → Option (List ℕ)
terminated [] = none
terminated (x ∷ xs) = some ((x ∷ xs) ++ null ∷ [])

abbrev pub parray_of : List ℕ → Parray
parray_of xs = record { elems = terminated xs; n_elems = length xs }

-- The memory blocks of an array.
abbrev pub blocks : Parray → ℕ
blocks a = blocks_of a.elems

suc-ne-zero : (n : ℕ) → (suc n == 0) ≡ false
suc-ne-zero n = ground arith

terminated-snoc :
    (xs : List ℕ) (x : ℕ)
    → terminated (xs ++ x ∷ []) ≡ some (kept (terminated xs) (length xs) ++ (x ∷ null ∷ []))
terminated-snoc [] x = refl
terminated-snoc (y ∷ ys) x = ap some (
    append_assoc (y ∷ ys) (x ∷ []) (null ∷ [])
    ∙ ap (λ (t : List ℕ). t ++ (x ∷ null ∷ [])) (sym (take-length (y ∷ ys) (null ∷ []))))

pub parray_of-snoc :
    (xs : List ℕ) (x : ℕ)
    → parray_of (xs ++ x ∷ []) ≡ record {
      elems = some (kept (terminated xs) (length xs) ++ (x ∷ null ∷ []));
      n_elems = length xs + 1;
    }
parray_of-snoc xs x = ground (arith, terminated-snoc xs x, length-append xs (x ∷ []))

blocks-terminated : (xs : List ℕ) → blocks_of (terminated xs) ≤ 1
blocks-terminated [] = omega arith
blocks-terminated (x ∷ xs) = omega arith

-- The pointers that an array holds.
abbrev pub pointers : Parray → List ℕ
pointers a = kept a.elems a.n_elems

-- The array ends with NULL behind its pointers, or is NULL and empty.
abbrev pub IsArray : Parray → Type 0
IsArray a = a ≡ parray_of (pointers a)

pub pointers-parray_of : (xs : List ℕ) → pointers (parray_of xs) ≡ xs
pointers-parray_of [] = refl
pointers-parray_of (x ∷ xs) = take-length (x ∷ xs) (null ∷ [])

-- Adding a pointer to an array gives the longer array, or -ENOMEM and the same array.
pub data Grown (a : Parray) (x base : ℕ) (k : Kernel) (r : Code × Parray × Kernel) : Type 0 where
  grown :
      (k' : Kernel)
      → r ≡ (success, parray_of (pointers a ++ x ∷ []), k')
      → Holds base (blocks (parray_of (pointers a ++ x ∷ []))) k k'
      → Grown a x base k r
  full :
      (k' : Kernel)
      → r ≡ (fail enomem, a, k')
      → k.answer k.asked ≡ false
      → Holds base (blocks a) k k'
      → Grown a x base k r

abbrev triple : Kernel → Parray → Code × Parray × Kernel
triple k a = (success, a, k)

parray_of-Grown :
    (xs : List ℕ) (x base : ℕ) (k : Kernel)
    → k.allocated ≡ base + blocks (parray_of xs)
    → Grown (parray_of xs) x base k (parray_add_elem (parray_of xs) x k)
unfolding parray_add_elem
parray_of-Grown xs x base k h =
    let longer = ap (λ (ys : List ℕ). parray_of (ys ++ x ∷ [])) (pointers-parray_of xs) in
    let k' = (krealloc (parray_of xs) k).1 in
    let k₁ : Kernel = record k {
      asked = k.asked + 1;
      allocated = k.allocated + (1 - blocks_of (terminated xs));
    } in
    elim (Bool-cases (k.answer k.asked)) [
      | inl ok ↦ grown k' (rw ok (ap (triple k₁) (sym (longer ∙ parray_of-snoc xs x)))) (record {
        memory =
            rw ok (omega (arith, blocks-terminated xs, ap blocks (longer ∙ parray_of-snoc xs x)));
        answers = refl;
        refs = refl;
      })
      | inr out ↦
          full k' (rw out refl) out (record { memory = rw out h; answers = refl; refs = refl })
    ]

pub parray_add_elem-Grown :
    (a : Parray) (x base : ℕ) (k : Kernel)
    → IsArray a
    → k.allocated ≡ base + blocks a
    → Grown a x base k (parray_add_elem a x k)
parray_add_elem-Grown a x base k arr =
    subst (λ (b : Parray). k.allocated ≡ base + blocks b → Grown b x base k (parray_add_elem b x k))
      (sym arr) (parray_of-Grown (pointers a) x base k)

-- The array is reset and its block freed; nothing else of the kernel changes.
pub record Reset (base : ℕ) (k : Kernel) (r : Parray × Kernel) : Type 0 where
  pub array : r.0 ≡ parray_init
  pub memory : r.1.allocated ≡ base
  pub answers : r.1.answer ≡ k.answer
  pub refs : r.1.module_refs ≡ k.module_refs

parray_of-Reset :
    (xs : List ℕ) (base : ℕ) (k : Kernel)
    → k.allocated ≡ base + blocks (parray_of xs)
    → Reset base k (parray_reset (parray_of xs) k)
unfolding parray_reset
parray_of-Reset [] base k h = record {
  array = refl;
  memory = omega arith;
  answers = refl;
  refs = refl;
}
parray_of-Reset (x ∷ xs) base k h =
    rw (suc-ne-zero (length xs))
      (record { array = refl; memory = omega arith; answers = refl; refs = refl })

pub parray_reset-Reset :
    (a : Parray) (base : ℕ) (k : Kernel)
    → IsArray a
    → k.allocated ≡ base + blocks a
    → Reset base k (parray_reset a k)
parray_reset-Reset a base k arr =
    subst (λ (b : Parray). k.allocated ≡ base + blocks b → Reset base k (parray_reset b k))
      (sym arr) (parray_of-Reset (pointers a) base k)
