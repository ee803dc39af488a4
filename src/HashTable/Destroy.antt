-- ===== src/HashTable/Destroy.antt =====
-- Destroying a table hands each element to the callback once.
use kedr_callback_operations.Prelude.{
  ◌≡◌, refl, sym, ◌∙◌, Bool, true, false, none, some, List, [], ◌∷◌, ◌++◌, ap,
}
use kedr_callback_operations.HashTable.Buckets.{Elem, Heads, elements}
use kedr_callback_operations.HashTable.{
  Table, first_nonempty, free_bucket, free_heads, destroy_from, destroy,
}

-- The callback on each element of a list, in order.
unfoldable pub each : {S : Type 0} → (Elem → S → S) → List Elem → S → S
each f [] s = s
each f (e ∷ es) s = each f es (f e s)

abbrev pub is_cons : List Elem → Bool
is_cons [] = false
is_cons (e ∷ es) = true

module _ {S : Type 0} where
  each-append :
      (f : Elem → S → S) (xs ys : List Elem) (s : S) → each f (xs ++ ys) s ≡ each f ys (each f xs s)
  unfolding each
  each-append f [] ys s = refl
  each-append f (x ∷ xs) ys s = each-append f xs ys (f x s)

  free_bucket-each : (f : Elem → S → S) (es : List Elem) (s : S) → free_bucket f es s ≡ each f es s
  unfolding free_bucket each
  free_bucket-each f [] s = refl
  free_bucket-each f (e ∷ es) s = free_bucket-each f es (f e s)

  free_heads-each :
      (f : Elem → S → S) (hs : Heads) (s : S) → free_heads f hs s ≡ each f (elements hs) s
  unfolding free_heads each
  free_heads-each f [] s = refl
  free_heads-each f (h ∷ hs) s =
      free_heads-each f hs (free_bucket f h s)
      ∙ ap (each f (elements hs)) (free_bucket-each f h s)
      ∙ sym (each-append f h (elements hs) s)

  destroy_from-some :
      (f : Elem → S → S) (hs : Heads) (s : S)
      → destroy_from (some f) (first_nonempty hs) s ≡ (false, each f (elements hs) s)
  unfolding destroy_from first_nonempty each
  destroy_from-some f [] s = refl
  destroy_from-some f ([] ∷ hs) s = destroy_from-some f hs s
  destroy_from-some f ((e ∷ es) ∷ hs) s = ap (λ r. (false, r)) (free_heads-each f ((e ∷ es) ∷ hs) s)

  destroy_from-none :
      (hs : Heads) (s : S) → destroy_from none (first_nonempty hs) s ≡ (is_cons (elements hs), s)
  unfolding destroy_from first_nonempty
  destroy_from-none [] s = refl
  destroy_from-none ([] ∷ hs) s = destroy_from-none hs s
  destroy_from-none ((e ∷ es) ∷ hs) s = refl

  -- With a callback, destroying a table calls it on each element once, in the order of the buckets,
  -- prints no warning, and frees the heads last.
  pub destroy-each :
      (f : Elem → S → S) (t : Table) (kfree_heads : S → S) (s : S)
      → destroy (some f) t kfree_heads s ≡ (false, kfree_heads (each f (elements t.heads) s))
  unfolding destroy
  destroy-each f t kfree_heads s = rw (destroy_from-some f t.heads s)

  -- With no callback, it warns exactly if an element is left, and touches none.
  pub destroy-warns :
      (t : Table) (kfree_heads : S → S) (s : S)
      → destroy none t kfree_heads s ≡ (is_cons (elements t.heads), kfree_heads s)
  unfolding destroy
  destroy-warns t kfree_heads s = rw (destroy_from-none t.heads s)
