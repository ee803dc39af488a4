-- ===== src/Tests/Ties.antt =====
-- A foreign instrumentor of core/kedr_coi_instrumentors.c with two watches that share a tie: a forget,
-- and one more watch.
use kedr_callback_operations.Prelude.{
  ◌≡◌, ◌⊎◌, ℕ, subst, refl, sym, ap, ◌∙◌, some, [], ◌∷◌, arith, inl, inr, ◌==◌, if◌then◌else◌,
}
use kedr_callback_operations.HashTable.{Table, find_elem, find_in}
use kedr_callback_operations.HashTable.Buckets.{Elem}
use kedr_callback_operations.HashTable.Unique.{IsUnique, found-Has}
use kedr_callback_operations.HashTable.Registry.{Has}
use kedr_callback_operations.Foreign.{Foreign}
use kedr_callback_operations.Foreign.Calls.{kedr_coi_foreign_instrumentor_forget}
use kedr_callback_operations.Foreign.Forgotten.{Forgets, forget-Forgets}
use kedr_callback_operations.Foreign.Watches.{watch_at, AreWatches}
use kedr_callback_operations.Tests.Tables.{low_bits, low_bits-Bounded}
use kedr_callback_operations.Tests.Watching.{addresses}
use kedr_callback_operations.Tests.Chain.{first, second}
use kedr_callback_operations.Foreign.Watch.{ForeignAddresses}
use kedr_callback_operations.Tests.Binding.{bound}

abbrev id_two : Elem
id_two = record { node = 21; key = 2 }

abbrev tie_four : Elem
tie_four = record { node = 22; key = 4 }

abbrev id_six : Elem
id_six = record { node = 31; key = 6 }

abbrev tie_four_too : Elem
tie_four_too = record { node = 32; key = 4 }

abbrev pair : (e e' : Elem) → Table
pair e e' = record { heads = (e ∷ e' ∷ []) ∷ [] ∷ []; bits = 1; n_elems = 2 }

-- Instrumentor 2 watches two objects that share the tie 4: that with the id 2 by the watch data at 20,
-- that with the id 6 by the watch data at 30.
abbrev watched : Foreign
watched = record bound {
  instrumentors = λ n. record {
    ids_table = pair id_two id_six;
    ties_table = pair tie_four tie_four_too;
    replacements = if n == 2 then second else first;
  };
  watches = λ w. record {
    idata_foreign = 72;
    id_elem = if w == 20 then id_two else id_six;
    tie_elem = if w == 20 then tie_four else tie_four_too;
    ops_p_elem = record { node = 23; key = 50 };
  };
  containers = λ node. if node == 21 then 20 else 30;
}

ids-IsUnique : IsUnique low_bits (pair id_two id_six)
unfolding find_in
ids-IsUnique = record {
  valid = record {
    filled = record { size = refl; placed = ((refl, (refl, tt)), (tt, tt)) };
    counted = refl;
  };
  nodes = (refl, (refl, tt));
  keys = (refl, (refl, tt));
}

-- The two elements and their ids.
data IsOne (id : ℕ) : Elem → Type 0 where
  two : 2 ≡ id → IsOne id id_two
  six : 6 ≡ id → IsOne id id_six

ids-IsOne : (id : ℕ) (e : Elem) → find_elem low_bits (pair id_two id_six) id ≡ some e → IsOne id e
ids-IsOne id e found =
    let (here, at_id) =
      found-Has low_bits low_bits-Bounded (pair id_two id_six) ids-IsUnique id e found in
    cases here at_id
  where
    cases : (id_two ≡ e) ⊎ ((id_six ≡ e) ⊎ ⊥) → e.key ≡ id → IsOne id e
    cases (inl h) k = subst (IsOne id) h (two (ap (λ (x : Elem). x.key) h ∙ k))
    cases (inr (inl h)) k = subst (IsOne id) h (six (ap (λ (x : Elem). x.key) h ∙ k))
    cases (inr (inr never)) k = absurd never

same_tie :
    (id id' : ℕ) (e e' : Elem)
    → IsOne id e
    → IsOne id' e'
    → (watch_at low_bits 2 watched e).tie_elem.node ≡ (watch_at low_bits 2 watched e').tie_elem.node
    → id ≡ id'
same_tie id id' e e' (two h) (two h') same = sym h ∙ h'
same_tie id id' e e' (six h) (six h') same = sym h ∙ h'
same_tie id id' e e' (two h) (six h') same = absurd (ground (arith, same))
same_tie id id' e e' (six h) (two h') same = absurd (ground (arith, same))

own_elements :
    (id : ℕ) (e : Elem)
    → IsOne id e
    → (((watch_at low_bits 2 watched e).id_elem ≡ e) × (e.key ≡ id))
      × Has (watch_at low_bits 2 watched e).tie_elem (tie_four ∷ tie_four_too ∷ [])
own_elements id e (two h) = ((refl, h), inl refl)
own_elements id e (six h) = ((refl, h), inr (inl refl))

watched-AreWatches : AreWatches low_bits 2 watched
watched-AreWatches = record {
  ids = ids-IsUnique;
  ties_valid = record {
    filled = record { size = refl; placed = ((refl, (refl, tt)), (tt, tt)) };
    counted = refl;
  };
  ties_nodes = (refl, (refl, tt));
  own_id = λ id e found. (own_elements id e (ids-IsOne id e found)).0;
  own_tie = λ id e found. (own_elements id e (ids-IsOne id e found)).1;
  apart = λ id id' e e' found found' same.
      same_tie id id' e e' (ids-IsOne id e found) (ids-IsOne id' e' found') same;
}

forget-Forgets_example :
    Forgets low_bits 2 2
      (some 50)
      watched
      (kedr_coi_foreign_instrumentor_forget low_bits 2 2 (some 50) watched)
forget-Forgets_example =
    forget-Forgets low_bits 2 low_bits-Bounded 2 (some 50) watched watched-AreWatches

abbrev third : ForeignAddresses
third = record {
  normal = addresses;
  idata_foreign = 80;
  watch_data = 40;
  id_node = 41;
  tie_node = 42;
  ops_p_node = 43;
}
