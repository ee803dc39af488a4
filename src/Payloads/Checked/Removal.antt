-- ===== src/Payloads/Checked/Removal.antt =====
-- What operation_payloads_add and operation_payloads_remove keep, and that they undo each other.
use kedr_callback_operations.Prelude.{
  ℕ, ◌+◌, ◌-◌, ◌≡◌, inl, inr, refl, sym, ap, ◌∙◌, true, false, List, [], ◌∷◌, ◌++◌, arith, All,
  All-append, Bool-cases, ◌==◌, if◌then◌else◌,
}
use kedr_callback_operations.Kernel.{Kernel, Code, success}
use kedr_callback_operations.Payloads.Types.{Payload, PayloadElem, OperationPayloads}
use kedr_callback_operations.Payloads.Registration.{
  payload_elem_init, is_registered, operation_payloads_add, remove_elem, operation_payloads_remove,
}
use kedr_callback_operations.Payloads.Checked.{
  IsAllowedPayload, DistinctPayloads, IsChecked, Added, refused, no_memory, interrupted, twice,
  appended, operation_payloads_add-Added,
}

is_registered-append :
    (es : List PayloadElem) (p : Payload) (self : ℕ)
    → is_registered (es ++ payload_elem_init p ∷ []) self
      ≡ (if p.self == self then true else is_registered es self)
unfolding is_registered payload_elem_init
is_registered-append [] p self = refl
is_registered-append (e ∷ es) p self = ground (arith, is_registered-append es p self)

DistinctPayloads-append :
    (es : List PayloadElem) (p : Payload)
    → is_registered es p.self ≡ false
    → DistinctPayloads es
    → DistinctPayloads (es ++ payload_elem_init p ∷ [])
unfolding is_registered payload_elem_init
DistinctPayloads-append [] p new d = (refl, tt)
DistinctPayloads-append (e ∷ es) p new d = (
  ground (arith, is_registered-append es p e.payload.self),
  DistinctPayloads-append es p (ground arith) d.1,
)

Added-IsChecked :
    {ps : OperationPayloads} {p : Payload} {k : Kernel} {r : Code × OperationPayloads × Kernel}
    → Added ps p k r
    → IsChecked ps
    → IsChecked r.1
Added-IsChecked (refused _ _) c = c
Added-IsChecked (no_memory _ _) c = c
Added-IsChecked (interrupted _ _) c = c
Added-IsChecked (twice _ _) c = c
Added-IsChecked {ps} {p} (appended allowed new _) c = record {
  distinct = DistinctPayloads-append ps.payload_elems p new c.distinct;
  allowed = All-append _ ps.payload_elems (payload_elem_init p ∷ []) c.allowed (init_allowed, tt);
}
  where
    init_allowed : IsAllowedPayload ps.operations (payload_elem_init p).payload
    init_allowed = unfold payload_elem_init in allowed

remove_elem-registered :
    (es : List PayloadElem) (self j : ℕ)
    → is_registered es j ≡ false
    → is_registered (remove_elem es self).1 j ≡ false
unfolding is_registered remove_elem
remove_elem-registered [] self j h = refl
remove_elem-registered (e ∷ es) self j h = ground (arith, remove_elem-registered es self j)

remove_elem-Distinct :
    (es : List PayloadElem) (self : ℕ)
    → DistinctPayloads es
    → DistinctPayloads (remove_elem es self).1
unfolding remove_elem
remove_elem-Distinct [] self d = tt
remove_elem-Distinct (e ∷ es) self d =
    ground (arith, remove_elem-Distinct es self d.1, remove_elem-registered es self e.payload.self)

pub remove_elem-All :
    (P : PayloadElem → Type 0) (es : List PayloadElem) (self : ℕ)
    → All P es
    → All P (remove_elem es self).1
unfolding remove_elem
remove_elem-All P [] self a = tt
remove_elem-All P (e ∷ es) self a = elim (Bool-cases (e.payload.self == self)) [
  | inr other ↦ rw other (a.0, remove_elem-All P es self a.1)
  | inl this ↦ elim (Bool-cases e.is_fixed) [
    | inl busy ↦ simp (this, busy) a
    | inr free ↦ simp (this, free) (a.1)
  ]
]

remove-IsChecked :
    (ps : OperationPayloads) (p : Payload) (k : Kernel)
    → IsChecked ps
    → IsChecked (operation_payloads_remove ps p k).1
unfolding operation_payloads_remove
remove-IsChecked ps p k c = elim (Bool-cases (k.answer k.asked)) [
  | inr no_lock ↦ rw no_lock c
  | inl locked ↦ rw locked (record {
    distinct = remove_elem-Distinct ps.payload_elems p.self c.distinct;
    allowed = remove_elem-All _ ps.payload_elems p.self c.allowed;
  })
]

-- Neither a registration nor a deregistration, whether it succeeds or fails, brings an unchecked
-- payload into the registry or a payload twice.
pub add-remove-IsChecked :
    (ps : OperationPayloads) (p : Payload) (k : Kernel)
    → IsChecked ps
    → IsChecked (operation_payloads_add ps p k).1 × IsChecked (operation_payloads_remove ps p k).1
add-remove-IsChecked ps p k c =
    (Added-IsChecked (operation_payloads_add-Added ps p k) c, remove-IsChecked ps p k c)

remove_elem-append :
    (es : List PayloadElem) (p : Payload)
    → is_registered es p.self ≡ false
    → remove_elem (es ++ payload_elem_init p ∷ []) p.self ≡ (success, es)
unfolding remove_elem is_registered payload_elem_init
remove_elem-append [] p new = ground arith
remove_elem-append (e ∷ es) p new = ground (arith, remove_elem-append es p)

success_appended :
    {ps : OperationPayloads} {p : Payload} {k : Kernel} {r : Code × OperationPayloads × Kernel}
    → Added ps p k r
    → r.0 ≡ success
    → (is_registered ps.payload_elems p.self ≡ false)
      × (r.1 ≡ record ps { payload_elems = ps.payload_elems ++ payload_elem_init p ∷ [] })
      × (r.2.allocated ≡ k.allocated + 1)
success_appended (refused _ _) e = cc
success_appended (no_memory _ _) e = cc
success_appended (interrupted _ _) e = cc
success_appended (twice _ _) e = cc
success_appended (appended _ new m) e = (new, refl, m)

remove_appended :
    (ps : OperationPayloads) (p : Payload) (k : Kernel)
    → is_registered ps.payload_elems p.self ≡ false
    → k.answer k.asked ≡ true
    → let ps' : OperationPayloads = record ps {
      payload_elems = ps.payload_elems ++ payload_elem_init p ∷ [];
    } in
      let (c, ps'', k'') = operation_payloads_remove ps' p k in
      (c ≡ success) × (ps'' ≡ ps) × (k''.allocated ≡ k.allocated - 1)
unfolding operation_payloads_remove
remove_appended ps p k new locked =
    rw (locked, remove_elem-append ps.payload_elems p new) (refl, refl, refl)

-- A payload that was registered just now can be unregistered, unless the lock is interrupted: the
-- registry and the memory are then as they were before the registration.
pub remove-add :
    (ps : OperationPayloads) (p : Payload) (k k' : Kernel) (ps' : OperationPayloads)
    → operation_payloads_add ps p k ≡ (success, ps', k')
    → k'.answer k'.asked ≡ true
    → let (c, ps'', k'') = operation_payloads_remove ps' p k' in
      (c ≡ success) × (ps'' ≡ ps) × (k''.allocated ≡ k.allocated)
remove-add ps p k k' ps' e locked =
    let (new, same, m) = success_appended (operation_payloads_add-Added ps p k) (ap (λ r. r.0) e) in
    let back = remove_appended ps p k' new locked in
    let here : ps' ≡ record ps { payload_elems = ps.payload_elems ++ payload_elem_init p ∷ [] } =
      sym (ap (λ r. r.1) e) ∙ same in
    rw here (back.0, back.1, back.2 ∙ omega (arith, ap (λ r. r.2.allocated) e))
