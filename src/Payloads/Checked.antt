-- ===== src/Payloads/Checked.antt =====
-- Registered payloads are distinct and passed the check; add and remove on every branch.
pub mod Removal
use kedr_callback_operations.Prelude.{
  ℕ, ◌+◌, ◌-◌, ◌≤◌, ◌<◌, ◌≡◌, ◌≢◌, ◌↔◌, ◌⊎◌, inl, inr, refl, sym, ap, ◌∙◌, Bool, true, false, ◌&&◌,
  Option, none, some, List, [], ◌∷◌, ◌++◌, arith, length, All, All-append, Bool-cases, Option-cases,
  ◌==◌, if◌then◌else◌,
}
use kedr_callback_operations.Kernel.{
  Kernel, Code, success, ignored, fail, Errno, enomem, ebusy, einval, eexist, enoent, eintr,
}
use kedr_callback_operations.Payloads.Types.{
  Handler, Payload, OperationInfo, PayloadElem, OperationPayloads, handlers,
}
use kedr_callback_operations.Payloads.Operation.{find_operation}
use kedr_callback_operations.Payloads.Registration.{
  check_handlers, operation_payloads_check_payload, payload_elem_init, is_registered,
  operation_payloads_add, remove_elem, operation_payloads_remove,
}

-- The handler is for a known operation, and not an external one for an operation that is only
-- intercepted internally.
abbrev pub IsAllowed : List OperationInfo → Handler → Type 0
IsAllowed os h =
    (o : OperationInfo) × (find_operation os h.operation_offset ≡ some o)
    × ((h.external && o.internal_only) ≡ false)

abbrev pub IsAllowedPayload : List OperationInfo → Payload → Type 0
IsAllowedPayload os p =
    All (IsAllowed os) (handlers p.pre_handlers) × All (IsAllowed os) (handlers p.post_handlers)

check_handlers-cases :
    (os : List OperationInfo) (hs : List Handler)
    → ((check_handlers os hs ≡ success) × All (IsAllowed os) hs)
      ⊎ ((check_handlers os hs ≡ fail einval) × ¬ All (IsAllowed os) hs)
unfolding check_handlers
check_handlers-cases os [] = inl (refl, tt)
check_handlers-cases os (h ∷ hs) = elim (Option-cases (find_operation os h.operation_offset)) [
  | inl unknown ↦ inr (ground arith, λ a. ground (arith, a.0))
  | inr (o, known) ↦ elim (Bool-cases (h.external && o.internal_only)) [
    | inl refused ↦ inr (ground arith, λ a. ground (arith, a.0))
    | inr open' ↦ elim (check_handlers-cases os hs) [
      | inl (c, a) ↦ inl (ground arith, ((o, known, open'), a))
      | inr (c, a) ↦ inr (ground arith, λ b. a b.1)
    ]
  ]
]

-- The check passes exactly the payloads whose handlers are all for known operations, the external
-- ones for operations that may be intercepted externally; the others get -EINVAL.
pub check_payload_iff :
    (ps : OperationPayloads) (p : Payload)
    → ((operation_payloads_check_payload ps p ≡ success) ↔ IsAllowedPayload ps.operations p)
      × ((operation_payloads_check_payload ps p ≡ success)
          ⊎ (operation_payloads_check_payload ps p ≡ fail einval))
unfolding operation_payloads_check_payload
check_payload_iff ps p = elim (check_handlers-cases ps.operations (handlers p.pre_handlers)) [
  | inr (c, a) ↦ rw (c, operation_payloads_check_payload) ((λ h. cc, λ b. absurd (a b.0)), inr refl)
  | inl (c, a) ↦
      rw (c, operation_payloads_check_payload)
        (elim (check_handlers-cases ps.operations (handlers p.post_handlers)) [
          | inl (d, b) ↦ rw d ((λ h. (a, b), λ h. refl), inl refl)
          | inr (d, b) ↦ rw d ((λ h. cc, λ h. absurd (b h.1)), inr refl)
        ])
]

abbrev pub DistinctPayloads : List PayloadElem → Type 0
DistinctPayloads [] = Unit {0}
DistinctPayloads (e ∷ es) = (is_registered es e.payload.self ≡ false) × DistinctPayloads es

-- Every registered payload passed the check, and none is registered twice.
pub record IsChecked (ps : OperationPayloads) : Type 0 where
  pub distinct : DistinctPayloads ps.payload_elems
  pub allowed : All (λ (e : PayloadElem). IsAllowedPayload ps.operations e.payload) ps.payload_elems

-- What a registration does: it succeeds for a payload that passes the check and is not registered,
-- unless memory or the lock is refused, and appends an unfixed element in a new block; otherwise it
-- reports the reason and leaves registry and memory as they were.
pub data Added (ps : OperationPayloads) (p : Payload) (k : Kernel)
    : Code × OperationPayloads × Kernel → Type 0 where
  refused :
      {k' : Kernel}
      → ¬ IsAllowedPayload ps.operations p
      → k' ≡ k
      → Added ps p k (fail einval, ps, k')
  no_memory :
      {k' : Kernel}
      → k.answer k.asked ≡ false
      → k'.allocated ≡ k.allocated
      → Added ps p k (fail enomem, ps, k')
  interrupted :
      {k' : Kernel}
      → k.answer (k.asked + 1) ≡ false
      → k'.allocated ≡ k.allocated
      → Added ps p k (fail eintr, ps, k')
  twice :
      {k' : Kernel}
      → is_registered ps.payload_elems p.self ≡ true
      → k'.allocated ≡ k.allocated
      → Added ps p k (fail eexist, ps, k')
  appended :
      {k' : Kernel}
      → IsAllowedPayload ps.operations p
      → is_registered ps.payload_elems p.self ≡ false
      → k'.allocated ≡ k.allocated + 1
      → Added ps p k
          (success, record ps { payload_elems = ps.payload_elems ++ payload_elem_init p ∷ [] }, k')

-- Registration ends in one of these ways, for every payload and every kernel.
pub operation_payloads_add-Added :
    (ps : OperationPayloads) (p : Payload) (k : Kernel)
    → Added ps p k (operation_payloads_add ps p k)
unfolding operation_payloads_add
operation_payloads_add-Added ps p k =
    let (iff, either) = check_payload_iff ps p in
    elim either [
      | inr bad ↦ rw (bad, operation_payloads_add) (refused (λ a. cc (iff.1 a)) refl)
      | inl good ↦
          rw (good, operation_payloads_add)
            (elim (Bool-cases (k.answer k.asked)) [
              | inr a ↦ rw a (no_memory a refl)
              | inl a ↦ elim (Bool-cases (k.answer (k.asked + 1))) [
                | inr b ↦ rw (a, b) (interrupted b (omega arith))
                | inl b ↦ elim (Bool-cases (is_registered ps.payload_elems p.self)) [
                  | inl old ↦ rw (a, b, old) (twice old (omega arith))
                  | inr new ↦ rw (a, b, new) (appended (iff.0 good) new refl)
                ]
              ]
            ])
    ]
