-- ===== src/HashTable/Contents.antt =====
-- The elements of a table as a multiset: what adding, moving and unlinking do to them.
use mathlib.Core.List.{Perm, perm_middle, perm_append_comm}
use mathlib.Core.List.Perm
use kedr_callback_operations.Prelude.{
  ℕ, zero, suc, ◌<◌, ◌^◌, ◌≡◌, refl, List, [], ◌∷◌, ◌++◌, arith, append-nil, append_assoc, length,
  get_or, set, replicate,
}
use kedr_callback_operations.HashTable.Buckets.{Elem, Heads, elements}
use kedr_callback_operations.HashTable.{add_head, fill_from_bucket, fill_from, init_hlist_heads}
use kedr_callback_operations.HashTable.Valid.{
  Bounded, IsFilled, add_head-IsFilled, init_hlist_heads-IsFilled,
}

elements-set :
    (i : ℕ) (e : Elem) (heads : Heads)
    → i < length heads
    → Perm (elements (set heads i (e ∷ get_or heads i []))) (e ∷ elements heads)
elements-set i e [] lt = absurd (omega arith)
elements-set zero e (h ∷ hs) lt = Perm.rfl
elements-set (suc i) e (h ∷ hs) lt =
    Perm.trans (Perm.append (Perm.refl h) (elements-set i e hs (omega arith)))
      (perm_middle h (elements hs))

regroup : (xs ys zs : List Elem) → Perm (xs ++ (ys ++ zs)) ((ys ++ xs) ++ zs)
regroup xs ys zs = rw (← append_assoc) (Perm.append (perm_append_comm xs ys) (Perm.refl zs))

elements-replicate : (n : ℕ) → elements (replicate n []) ≡ []
elements-replicate zero = refl
elements-replicate (suc n) = elements-replicate n

pub elements-init : (bits : ℕ) → elements (init_hlist_heads bits) ≡ []
unfolding init_hlist_heads
elements-init bits = elements-replicate (2 ^ bits)

module _ (hash_ptr : ℕ → ℕ → ℕ) (bounded : Bounded hash_ptr) where
  pub elements-add_head :
      (bits : ℕ) (e : Elem) (heads : Heads)
      → IsFilled hash_ptr bits heads
      → Perm (elements (add_head hash_ptr bits e heads)) (e ∷ elements heads)
  unfolding add_head
  elements-add_head bits e heads f =
      elements-set (hash_ptr e.key bits) e heads (omega (arith, bounded e.key bits, f.size))

  fill_from_bucket-lem :
      (bits : ℕ) (es : List Elem) (heads : Heads)
      → IsFilled hash_ptr bits heads
      → IsFilled hash_ptr bits (fill_from_bucket hash_ptr bits es heads)
        × Perm (elements (fill_from_bucket hash_ptr bits es heads)) (es ++ elements heads)
  unfolding fill_from_bucket
  fill_from_bucket-lem bits [] heads f = (f, Perm.rfl)
  fill_from_bucket-lem bits (e ∷ es) heads f =
      let next = add_head hash_ptr bits e heads in
      let rest = fill_from_bucket-lem bits es next (add_head-IsFilled hash_ptr bits e heads f) in
      (
        rest.0,
        Perm.trans rest.1 (
            Perm.trans (Perm.append (Perm.refl es) (elements-add_head bits e heads f))
              (perm_middle es (elements heads))),
      )

  pub fill_from-lem :
      (bits : ℕ) (olds heads : Heads)
      → IsFilled hash_ptr bits heads
      → IsFilled hash_ptr bits (fill_from hash_ptr bits olds heads)
        × Perm (elements (fill_from hash_ptr bits olds heads)) (elements olds ++ elements heads)
  unfolding fill_from
  fill_from-lem bits [] heads f = (f, Perm.rfl)
  fill_from-lem bits (old ∷ olds) heads f =
      let next = fill_from_bucket hash_ptr bits old heads in
      let moved = fill_from_bucket-lem bits old heads f in
      let rest = fill_from-lem bits olds next moved.0 in
      (
        rest.0,
        Perm.trans rest.1 (
            Perm.trans (Perm.append (Perm.refl (elements olds)) moved.1)
              (regroup (elements olds) old (elements heads))),
      )

  -- Into fresh heads, `fill_from` moves every element of the old ones.
  pub fill_from-init :
      (bits : ℕ) (olds : Heads)
      → IsFilled hash_ptr bits (fill_from hash_ptr bits olds (init_hlist_heads bits))
        × Perm (elements (fill_from hash_ptr bits olds (init_hlist_heads bits))) (elements olds)
  fill_from-init bits olds =
      let moved =
        fill_from-lem bits olds (init_hlist_heads bits) (init_hlist_heads-IsFilled hash_ptr bits) in
      (moved.0, rw (elements-init bits, append-nil) at (moved.1))
