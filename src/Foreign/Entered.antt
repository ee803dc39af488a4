-- ===== src/Foreign/Entered.antt =====
-- A new watch in the tables of a foreign instrumentor of core/kedr_coi_instrumentors.c.
use mathlib.Core.List.Perm
use kedr_callback_operations.Prelude.{
  ℕ, ◌≡◌, ◌⊎◌, sym, ap, ◌∙◌, subst, true, false, none, some, arith, Bool-cases, inl, inr, ◌==◌,
  ==_iff, if◌then◌else◌,
}
use kedr_callback_operations.Kernel.{Kernel}
use kedr_callback_operations.HashTable.{Table, find_elem, add_elem}
use kedr_callback_operations.HashTable.Buckets.{Elem, elements}
use kedr_callback_operations.HashTable.Valid.{Bounded}
use kedr_callback_operations.HashTable.Registry.{Has, has_node, has_node_of_Has}
use kedr_callback_operations.HashTable.Update.{add_elem-lem}
use kedr_callback_operations.HashTable.Unique.{Gains, add_elem-Gains, DistinctNodes-perm}
use kedr_callback_operations.HashTable.Entered.{add_elem-Has}
use kedr_callback_operations.Foreign.{ForeignWatch}
use kedr_callback_operations.Foreign.Watches.{AreTied}

module _ (hash_ptr : ℕ → ℕ → ℕ) (bounded : Bounded hash_ptr) (ids ties : Table)
    (look look' : Elem → ForeignWatch) (e tie : Elem) (k k₂ : Kernel)
    (v : AreTied hash_ptr ids ties look) (new_id : find_elem hash_ptr ids e.key ≡ none)
    (new_node : has_node e.node (elements ids.heads) ≡ false)
    (new_tie : has_node tie.node (elements ties.heads) ≡ false) (own : (look' e).id_elem ≡ e)
    (own_tie : (look' e).tie_elem ≡ tie)
    (old : (id : ℕ) (x : Elem) → find_elem hash_ptr ids id ≡ some x → look' x ≡ look x) where
  gains : Gains hash_ptr e ids (add_elem hash_ptr ids e k).1
  gains = add_elem-Gains hash_ptr bounded ids v.ids e k new_id new_node

  -- An element that is found afterwards.
  found-either :
      (key : ℕ) (x : Elem)
      → find_elem hash_ptr (add_elem hash_ptr ids e k).1 key ≡ some x
      → ((e ≡ x) × (e.key ≡ key)) ⊎ (find_elem hash_ptr ids key ≡ some x)
  found-either key x h =
      let both : (if e.key == key then some e else find_elem hash_ptr ids key) ≡ some x =
        sym (gains.finds key) ∙ h in
      elim (Bool-cases (e.key == key)) [
        | inl here ↦ inl (ground (arith, here, both), (==_iff _ _).0 here)
        | inr away ↦ inr (ground (arith, away, both))
      ]

  -- The element for the tie of an old watch is another one.
  old-apart :
      (key : ℕ) (x : Elem)
      → find_elem hash_ptr ids key ≡ some x
      → (look' x).tie_elem.node ≡ tie.node
      → ⊥
  old-apart key x h same =
      let there : has_node (look x).tie_elem.node (elements ties.heads) ≡ true =
        has_node_of_Has (look x).tie_elem (elements ties.heads) (v.own_tie key x h) in
      let node : (look x).tie_elem.node ≡ tie.node =
        sym (ap (λ (w : ForeignWatch). w.tie_elem.node) (old key x h)) ∙ same in
      cc (sym there ∙ ap (λ (m : ℕ). has_node m (elements ties.heads)) node ∙ new_tie)

  pub entered-AreTied :
      AreTied hash_ptr (add_elem hash_ptr ids e k).1 (add_elem hash_ptr ties tie k₂).1 look'
  entered-AreTied =
      let added = add_elem-lem hash_ptr bounded ties tie tie.key k₂ v.ties_valid in
      let has = add_elem-Has hash_ptr ties tie k₂ bounded v.ties_valid in
      let all = elements (add_elem hash_ptr ties tie k₂).1.heads in
      record {
        ids = gains.unique;
        ties_valid = added.2;
        ties_nodes = DistinctNodes-perm (Perm.symm added.3) (new_tie, v.ties_nodes);
        own_id = λ key x h. elim (found-either key x h) [
          | inl (same, at_key) ↦
              subst (λ (y : Elem). ((look' y).id_elem ≡ y) × (y.key ≡ key)) same (own, at_key)
          | inr before ↦
              let (mine, at_key) = v.own_id key x before in
              (ap (λ (w : ForeignWatch). w.id_elem) (old key x before) ∙ mine, at_key)
        ];
        own_tie = λ key x h. elim (found-either key x h) [
          | inl (same, at_key) ↦
              subst (λ (y : Elem). Has (look' y).tie_elem all) same
                (subst (λ (y : Elem). Has y all) (sym own_tie) has.0)
          | inr before ↦
              subst (λ (w : ForeignWatch). Has w.tie_elem all) (sym (old key x before))
                (has.1 (look x).tie_elem (v.own_tie key x before))
        ];
        apart = λ key key' x x' h h' same. elim (found-either key x h) [
          | inl (one, at_key) ↦ elim (found-either key' x' h') [
            | inl (two, at_key') ↦ sym at_key ∙ at_key'
            | inr before' ↦ absurd (old-apart key' x' before' (sym same ∙ sym (tie_of x one)))
          ]
          | inr before ↦ elim (found-either key' x' h') [
            | inl (two, at_key') ↦ absurd (old-apart key x before (same ∙ sym (tie_of x' two)))
            | inr before' ↦ v.apart key key' x x' before before' (
                sym (ap (λ (w : ForeignWatch). w.tie_elem.node) (old key x before))
                ∙ same
                ∙ ap (λ (w : ForeignWatch). w.tie_elem.node) (old key' x' before'))
          ]
        ];
      }
    where
      tie_of : (x : Elem) → e ≡ x → tie.node ≡ (look' x).tie_elem.node
      tie_of x one =
          sym (ap (λ (y : Elem). y.node) own_tie) ∙ ap (λ (y : Elem). (look' y).tie_elem.node) one
