-- ===== src/Payloads/Groups.antt =====
-- The closing of groups in core/payloads.c, in one pass that marks operations while it reads them.
use kedr_callback_operations.Prelude.{
  ℕ, suc, ◌≡◌, refl, sym, ap, ◌∙◌, Bool, true, false, ◌||◌, ◌&&◌, not, some, List, [], ◌∷◌, ◌++◌,
  map, append-nil, append_assoc, arith, length, length-append, get_elem?, Bool-cases, inl, inr,
  ◌==◌, if◌then◌else◌,
}
use kedr_callback_operations.Payloads.Types.{OperationInfo}
use kedr_callback_operations.Payloads.Use.{
  mark_group, close_at, close_step, close_from, close_operations,
}

-- Some operation of the group is intercepted by default.
abbrev pub any_default : ℕ → List OperationInfo → Bool
any_default group [] = false
any_default group (o ∷ os) =
    ((o.group_id == group) && o.default_is_intercepted) || any_default group os

-- An operation of a group, seen against the operations that mark it.
abbrev pub closed_by : List OperationInfo → OperationInfo → OperationInfo
closed_by os o =
    if not (o.group_id == 0) && any_default o.group_id os
    then record o { default_is_intercepted = true }
    else o

any_default-append :
    (g : ℕ) (xs ys : List OperationInfo)
    → any_default g (xs ++ ys) ≡ (any_default g xs || any_default g ys)
any_default-append g [] ys = refl
any_default-append g (x ∷ xs) ys = ground (arith, any_default-append g xs ys)

map_congr : {A B : Type 0} (f g : A → B) (xs : List A) → ((x : A) → f x ≡ g x) → map f xs ≡ map g xs
map_congr f g [] h = refl
map_congr f g (x ∷ xs) h = ground (arith, h x, map_congr f g xs h)

get_elem?-map_append :
    {A B : Type 0} (f : A → B) (xs : List A) (y : A) (ys : List A)
    → get_elem? (map f (xs ++ y ∷ ys)) (length xs) ≡ some (f y)
get_elem?-map_append f [] y ys = refl
get_elem?-map_append f (x ∷ xs) y ys = get_elem?-map_append f xs y ys

map-map_lem :
    {A B C : Type 0} (f : A → B) (g : B → C) (xs : List A)
    → map g (map f xs) ≡ map (λ x. g (f x)) xs
map-map_lem f g [] = refl
map-map_lem f g (x ∷ xs) = ap (◌∷◌ (g (f x))) (map-map_lem f g xs)

map_id : (os : List OperationInfo) → map (closed_by []) os ≡ os
map_id [] = refl
map_id (o ∷ os) = ground (arith, map_id os)

mark-closed_by :
    (pre : List OperationInfo) (o x : OperationInfo)
    → ((closed_by pre o).group_id == 0 || not (closed_by pre o).default_is_intercepted) ≡ false
    → mark_group (closed_by pre o).group_id (closed_by pre x) ≡ closed_by (pre ++ o ∷ []) x
mark-closed_by pre o x open' = ground (arith, any_default-append x.group_id pre (o ∷ []))

skip-closed_by :
    (pre : List OperationInfo) (o x : OperationInfo)
    → ((closed_by pre o).group_id == 0 || not (closed_by pre o).default_is_intercepted) ≡ true
    → closed_by pre x ≡ closed_by (pre ++ o ∷ []) x
skip-closed_by pre o x skip = ground (arith, any_default-append x.group_id pre (o ∷ []))

close_at-closed_by :
    (pre all : List OperationInfo) (o : OperationInfo)
    → close_at (closed_by pre o) (map (closed_by pre) all) ≡ map (closed_by (pre ++ o ∷ [])) all
unfolding close_at
close_at-closed_by pre all o =
    elim (Bool-cases
      ((closed_by pre o).group_id == 0 || not (closed_by pre o).default_is_intercepted)) [
        | inl skip ↦ rw skip (map_congr _ _ all λ x. skip-closed_by pre o x skip)
        | inr mark ↦
            rw mark (map-map_lem _ _ all ∙ map_congr _ _ all λ x. mark-closed_by pre o x mark)
      ]

close_from-closed_by :
    (pre todo all : List OperationInfo) (i : ℕ)
    → all ≡ pre ++ todo
    → i ≡ length pre
    → close_from (length todo) i (map (closed_by pre) all) ≡ map (closed_by all) all
unfolding close_from
close_from-closed_by pre [] all i e p = let same : pre ≡ all = sym (e ∙ append-nil pre) in rw same
close_from-closed_by pre (o ∷ todo) all i e p =
    let here : get_elem? (map (closed_by pre) all) i ≡ some (closed_by pre o) =
      rw (e, p) (get_elem?-map_append (closed_by pre) pre o todo) in
    let step : close_step i (map (closed_by pre) all) ≡ map (closed_by (pre ++ o ∷ [])) all =
      rw (here, close_step) (close_at-closed_by pre all o) in
    rw (step, close_from)
      (close_from-closed_by (pre ++ o ∷ []) todo all (suc i)
        (e ∙ sym (append_assoc pre (o ∷ []) todo)) (omega (arith, length-append pre (o ∷ []))))

-- The one pass over the operations marks exactly those whose group, other than 0, has a member that
-- was intercepted by default when it began; nothing else of any operation changes.
pub close_operations-closed_by :
    (os : List OperationInfo) → close_operations os ≡ map (closed_by os) os
unfolding close_operations
close_operations-closed_by os =
    ap (close_from (length os) 0) (sym (map_id os)) ∙ close_from-closed_by [] os os 0 refl refl
