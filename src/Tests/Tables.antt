-- ===== src/Tests/Tables.antt =====
-- A table of two buckets, and the theorems of core/kedr_coi_hash_table.c on it.
use kedr_callback_operations.Prelude.{
  ℕ, zero, suc, ◌%◌, ◌^◌, ◌<◌, ◌≡◌, refl, none, some, [], ◌∷◌, inl, inr, arith, not, ◌==◌,
}
use mathlib.Core.List.{Perm}
use native.Mathlib.Nat.{mod-lt}
use kedr_callback_operations.Kernel.{Kernel, success}
use kedr_callback_operations.HashTable.{Table, add_elem, remove_elem, find_elem, realloc, find_in}
use kedr_callback_operations.HashTable.Buckets.{Elem, elements}
use kedr_callback_operations.HashTable.Valid.{Bounded, IsValid}
use kedr_callback_operations.HashTable.Lookup.{find_elem-find_in}
use kedr_callback_operations.HashTable.Rehash.{Reallocated, realloc-Reallocated}
use kedr_callback_operations.HashTable.Update.{add_elem-lem, remove_elem-lem, find_elem-realloc}
use kedr_callback_operations.HashTable.Undo.{remove_elem-add_elem}

-- The low bits of the key.
abbrev pub low_bits : ℕ → ℕ → ℕ
low_bits key bits = key % 2 ^ bits

positive_power : (bits : ℕ) → 0 < 2 ^ bits
positive_power zero = omega arith
positive_power (suc bits) = omega (arith, positive_power bits)

pub low_bits-Bounded : Bounded low_bits
low_bits-Bounded key bits = mod-lt key (positive_power bits)

abbrev four : Elem
four = record { node = 100; key = 4 }

abbrev three : Elem
three = record { node = 200; key = 3 }

abbrev pub five : Elem
five = record { node = 300; key = 5 }

abbrev pub two_buckets : Table
two_buckets = record { heads = (four ∷ []) ∷ (three ∷ []) ∷ []; bits = 1; n_elems = 2 }

pub two_buckets-IsValid : IsValid low_bits two_buckets
two_buckets-IsValid = record {
  filled = record { size = refl; placed = ((refl, tt), ((refl, tt), tt)) };
  counted = refl;
}

-- The first call fails, all others succeed.
abbrev pub first_fails : Kernel
first_fails = record { answer = λ n. not (n == 0); asked = 0; allocated = 7; module_refs = λ m. 0 }

add_elem-lem_example :
    let (c, t', k') = add_elem low_bits two_buckets five first_fails in
    (c ≡ success)
    × (k' ≡ first_fails)
    × IsValid low_bits t'
    × Perm (elements t'.heads) (five ∷ four ∷ three ∷ [])
    × (find_elem low_bits t' 5 ≡ some five)
add_elem-lem_example =
    add_elem-lem low_bits low_bits-Bounded two_buckets five 5 first_fails two_buckets-IsValid

remove_elem-lem_example :
    let (t', k') = remove_elem low_bits two_buckets three first_fails in
    (k' ≡ first_fails)
    × IsValid low_bits t'
    × Perm (four ∷ three ∷ []) (three ∷ elements t'.heads)
    × (find_elem low_bits t' 3 ≡ none)
unfolding find_in
remove_elem-lem_example =
    remove_elem-lem low_bits low_bits-Bounded two_buckets three 3 first_fails two_buckets-IsValid
      (refl, (refl, tt)) (refl, (refl, tt)) (inr (inl refl))

-- The new heads are refused, and the table keeps its size.
realloc-Reallocated_example :
    Reallocated low_bits two_buckets 2 first_fails (realloc low_bits two_buckets 2 first_fails)
realloc-Reallocated_example =
    realloc-Reallocated low_bits low_bits-Bounded two_buckets 2 two_buckets-IsValid first_fails

find_elem-realloc_example :
    find_elem low_bits (realloc low_bits two_buckets 2 first_fails).1 3
    ≡ find_elem low_bits two_buckets 3
unfolding find_in
find_elem-realloc_example =
    find_elem-realloc low_bits low_bits-Bounded two_buckets 2 3 first_fails two_buckets-IsValid
      (refl, (refl, tt))

find_elem-find_in_example : find_elem low_bits two_buckets 3 ≡ some three
unfolding find_in
find_elem-find_in_example =
    find_elem-find_in low_bits low_bits-Bounded two_buckets 3 two_buckets-IsValid

remove_elem-add_elem_example :
    remove_elem low_bits (add_elem low_bits two_buckets five first_fails).1 five first_fails
    ≡ (two_buckets, first_fails)
remove_elem-add_elem_example =
    remove_elem-add_elem low_bits two_buckets five first_fails first_fails refl (omega arith)
