-- ===== src/Payloads/Tidy/Adding.antt =====
-- operation_info_add_pre and operation_info_add_post on tidy operations.
use kedr_callback_operations.Prelude.{
  ℕ, ◌+◌, ◌≡◌, refl, sym, ap, ◌∙◌, Bool, true, List, [], ◌∷◌, ◌++◌, arith, Bool-cases, inl, inr,
}
use kedr_callback_operations.Kernel.{Kernel, Holds}
use kedr_callback_operations.Payloads.Types.{OperationInfo}
use kedr_callback_operations.Payloads.Parray.{
  parray_of, pointers, blocks, IsArray, grown, full, parray_add_elem-Grown, pointers-parray_of,
}
use kedr_callback_operations.Payloads.Operation.{operation_info_add_pre, operation_info_add_post}
use kedr_callback_operations.Payloads.Tidy.{
  IsTidy, op_blocks, Changed, with_pre, with_post, Extended, added, no_memory,
}

IsArray-parray_of : (xs : List ℕ) → IsArray (parray_of xs)
IsArray-parray_of xs = ap parray_of (sym (pointers-parray_of xs))

module _ (o : OperationInfo) (f base : ℕ) (k : Kernel) (t : IsTidy o) where
  -- The first half: the handler stands in the pre array alone.
  grown_pre :
      (k₁ : Kernel)
      → Holds
          (base
            + blocks o.post_handlers
            + blocks o.default_pre_handlers
            + blocks o.default_post_handlers)
          (blocks (parray_of (pointers o.pre_handlers ++ f ∷ [])))
          k
          k₁
      → Changed base o k
          (record o {
            is_intercepted = true;
            pre_handlers = parray_of (pointers o.pre_handlers ++ f ∷ []);
          })
          k₁
  grown_pre k₁ h = record {
    tidy = record {
      pre = IsArray-parray_of (pointers o.pre_handlers ++ f ∷ []);
      post = t.post;
      default_pre = t.default_pre;
      default_post = t.default_post;
      quiet = λ off. cc;
      default_quiet = t.default_quiet;
    };
    memory = omega (arith, h.memory);
    answers = h.answers;
    refs = h.refs;
    same = refl;
  }

  module _ (m : k.allocated ≡ base + op_blocks o) where
    pub operation_info_add_pre-Extended :
        (external : Bool)
        → Extended base o k (with_pre f external o) (operation_info_add_pre o f external k)
    unfolding operation_info_add_pre
    operation_info_add_pre-Extended external =
        let rest =
          base
          + blocks o.post_handlers
          + blocks o.default_pre_handlers
          + blocks o.default_post_handlers in
        let array = parray_of (pointers o.pre_handlers ++ f ∷ []) in
        elim (parray_add_elem-Grown o.pre_handlers f rest k t.pre (omega arith)) [
          | full k₁ e out h ↦ rw e (
              no_memory k.asked out (record {
                tidy = t;
                memory = omega (arith, h.memory);
                answers = h.answers;
                refs = h.refs;
                same = refl;
              }))
          | grown k₁ e h ↦ elim (Bool-cases external) [
            | inr internal ↦ rw (e, internal) (added refl (grown_pre k₁ h))
            | inl extern ↦
                elim (parray_add_elem-Grown o.default_pre_handlers f
                  (base + blocks array + blocks o.post_handlers + blocks o.default_post_handlers) k₁
                  t.default_pre (omega (arith, h.memory))) [
                    | full k₂ e₂ out h₂ ↦
                        let half = grown_pre k₁ h in
                        rw (e, extern, e₂)
                          (no_memory k₁.asked
                            (ap (λ (a : ℕ → Bool). a k₁.asked) (sym h.answers) ∙ out)
                            (record {
                              tidy = half.tidy;
                              memory = omega (arith, h₂.memory);
                              answers = h₂.answers ∙ h.answers;
                              refs = h₂.refs ∙ h.refs;
                              same = refl;
                            }))
                    | grown k₂ e₂ h₂ ↦
                        rw (e, extern, e₂)
                          (added refl (record {
                            tidy = record {
                              pre = IsArray-parray_of (pointers o.pre_handlers ++ f ∷ []);
                              post = t.post;
                              default_pre =
                                  IsArray-parray_of (pointers o.default_pre_handlers ++ f ∷ []);
                              default_post = t.default_post;
                              quiet = λ off. cc;
                              default_quiet = λ off. cc;
                            };
                            memory = omega (arith, h₂.memory);
                            answers = h₂.answers ∙ h.answers;
                            refs = h₂.refs ∙ h.refs;
                            same = refl;
                          }))
                  ]
          ]
        ]

module _ (o : OperationInfo) (f base : ℕ) (k : Kernel) (t : IsTidy o) where
  -- The first half: the handler stands in the post array alone.
  grown_post :
      (k₁ : Kernel)
      → Holds
          (base
            + blocks o.pre_handlers
            + blocks o.default_pre_handlers
            + blocks o.default_post_handlers)
          (blocks (parray_of (pointers o.post_handlers ++ f ∷ [])))
          k
          k₁
      → Changed base o k
          (record o {
            is_intercepted = true;
            post_handlers = parray_of (pointers o.post_handlers ++ f ∷ []);
          })
          k₁
  grown_post k₁ h = record {
    tidy = record {
      pre = t.pre;
      post = IsArray-parray_of (pointers o.post_handlers ++ f ∷ []);
      default_pre = t.default_pre;
      default_post = t.default_post;
      quiet = λ off. cc;
      default_quiet = t.default_quiet;
    };
    memory = omega (arith, h.memory);
    answers = h.answers;
    refs = h.refs;
    same = refl;
  }

  module _ (m : k.allocated ≡ base + op_blocks o) where
    pub operation_info_add_post-Extended :
        (external : Bool)
        → Extended base o k (with_post f external o) (operation_info_add_post o f external k)
    unfolding operation_info_add_post
    operation_info_add_post-Extended external =
        let rest =
          base
          + blocks o.pre_handlers
          + blocks o.default_pre_handlers
          + blocks o.default_post_handlers in
        let array = parray_of (pointers o.post_handlers ++ f ∷ []) in
        elim (parray_add_elem-Grown o.post_handlers f rest k t.post (omega arith)) [
          | full k₁ e out h ↦ rw e (
              no_memory k.asked out (record {
                tidy = t;
                memory = omega (arith, h.memory);
                answers = h.answers;
                refs = h.refs;
                same = refl;
              }))
          | grown k₁ e h ↦ elim (Bool-cases external) [
            | inr internal ↦ rw (e, internal) (added refl (grown_post k₁ h))
            | inl extern ↦
                elim (parray_add_elem-Grown o.default_post_handlers f
                  (base + blocks array + blocks o.pre_handlers + blocks o.default_pre_handlers) k₁
                  t.default_post (omega (arith, h.memory))) [
                    | full k₂ e₂ out h₂ ↦
                        let half = grown_post k₁ h in
                        rw (e, extern, e₂)
                          (no_memory k₁.asked
                            (ap (λ (a : ℕ → Bool). a k₁.asked) (sym h.answers) ∙ out)
                            (record {
                              tidy = half.tidy;
                              memory = omega (arith, h₂.memory);
                              answers = h₂.answers ∙ h.answers;
                              refs = h₂.refs ∙ h.refs;
                              same = refl;
                            }))
                    | grown k₂ e₂ h₂ ↦
                        rw (e, extern, e₂)
                          (added refl (record {
                            tidy = record {
                              pre = t.pre;
                              post = IsArray-parray_of (pointers o.post_handlers ++ f ∷ []);
                              default_pre = t.default_pre;
                              default_post =
                                  IsArray-parray_of (pointers o.default_post_handlers ++ f ∷ []);
                              quiet = λ off. cc;
                              default_quiet = λ off. cc;
                            };
                            memory = omega (arith, h₂.memory);
                            answers = h₂.answers ∙ h.answers;
                            refs = h₂.refs ∙ h.refs;
                            same = refl;
                          }))
                  ]
          ]
        ]
