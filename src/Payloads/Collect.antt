-- ===== src/Payloads/Collect.antt =====
-- Collecting the handlers of the used payloads: with memory enough it gives every operation exactly
-- the handlers for it, and otherwise it stops with everything accounted for.
use kedr_callback_operations.Prelude.{
  ℕ, ◌+◌, ◌-◌, ◌≡◌, refl, sym, ap, subst, ◌∙◌, Bool, true, false, some, List, [], ◌∷◌, ◌++◌,
  append-nil, append_assoc, arith, map, All, All-left, All-right,
}
use mathlib.Core.Option
use kedr_callback_operations.Kernel.{Kernel, Code, success, fail, enomem, Outcome, done}
use kedr_callback_operations.Payloads.Types.{Handler, OperationInfo, PayloadElem, handlers}
use kedr_callback_operations.Payloads.Operation.{find_operation, put_operation}
use kedr_callback_operations.Payloads.Tidy.{
  IsTidy, Changed, Extended, added, no_memory, op_blocks, cleared, with_pre, with_post,
}
use kedr_callback_operations.Payloads.Tidy.Adding.{
  operation_info_add_pre-Extended, operation_info_add_post-Extended,
}
use kedr_callback_operations.Payloads.Lists.{
  blocks_all, DistinctOffsets, find-All, find-blocks, put-blocks, put-cleared, put-All, put-map,
  find-map,
}
use kedr_callback_operations.Payloads.Spec.{
  collected, collected-pre, collected-post, pres_of, posts_of,
}
use kedr_callback_operations.Payloads.Use.{
  use_pre, use_post, and_then, operation_payloads_use_elem, use_elems,
}

-- Somebody knows the operation that the handler is for.
abbrev pub IsKnown : List OperationInfo → Handler → Type 0
IsKnown os h = (o : OperationInfo) × (find_operation os h.operation_offset ≡ some o)

map-pointwise :
    {A B : Type 0} (f g : A → B) (xs : List A) → ((x : A) → f x ≡ g x) → map f xs ≡ map g xs
map-pointwise f g [] e = refl
map-pointwise f g (x ∷ xs) e = ground (arith, e x, map-pointwise f g xs e)

-- `os₀` is the list before any handler; the kernel answers by `answer`, holds the module references
-- `refs`, and has `base` blocks besides the arrays of handlers.
module _ (os₀ : List OperationInfo) (base : ℕ) (answer : ℕ → Bool) (refs : ℕ → ℕ) where
  pub record Accounted (os : List OperationInfo) (k : Kernel) : Type 0 where
    pub tidy : All IsTidy os
    pub memory : k.allocated ≡ base + blocks_all os
    pub answers : k.answer ≡ answer
    pub same_refs : k.module_refs ≡ refs
    pub same : map cleared os ≡ map cleared os₀

  -- All handlers are collected, or memory was refused; never a BUG_ON.
  pub data Collects (goal : List OperationInfo)
      : Outcome (Code × List OperationInfo × Kernel) → Type 0 where
    complete :
        {os : List OperationInfo} {k : Kernel}
        → os ≡ goal
        → Accounted os k
        → Collects goal (done (success, os, k))
    stopped :
        {os : List OperationInfo} {k : Kernel} (n : ℕ)
        → answer n ≡ false
        → Accounted os k
        → Collects goal (done (fail enomem, os, k))

  and_then-Collects :
      {goal goal' : List OperationInfo} {r : Outcome (Code × List OperationInfo × Kernel)}
      (next : List OperationInfo → Kernel → Outcome (Code × List OperationInfo × Kernel))
      → Collects goal r
      → ((k : Kernel) → Accounted goal k → Collects goal' (next goal k))
      → Collects goal' (and_then r next)
  and_then-Collects next (stopped n e acc) then' = stopped n e acc
  and_then-Collects {goal} {goal'} next (complete {k} e acc) then' =
      subst (λ (t : List OperationInfo). Collects goal' (next t k)) (sym e)
        (then' k (subst (λ (t : List OperationInfo). Accounted t k) e acc))

  put-Accounted :
      (os : List OperationInfo) (off : ℕ) (o o' : OperationInfo) (k k' : Kernel)
      → find_operation os off ≡ some o
      → Accounted os k
      → Changed (base + (blocks_all os - op_blocks o)) o k o' k'
      → Accounted (put_operation os off o') k'
  put-Accounted os off o o' k k' found acc c = record {
    tidy = put-All IsTidy os off o' c.tidy acc.tidy;
    memory = omega (arith, c.memory, put-blocks off o os o' found, find-blocks off o os found);
    answers = c.answers ∙ acc.answers;
    same_refs = c.refs ∙ acc.same_refs;
    same = put-cleared off o os o' found c.same ∙ acc.same;
  }

  IsKnown-map :
      (pres posts : List Handler) (h : Handler)
      → IsKnown os₀ h
      → IsKnown (map (collected pres posts) os₀) h
  IsKnown-map pres posts h (o, found) = (
    collected pres posts o,
    find-map (collected pres posts) (λ x. refl) os₀ h.operation_offset
        ∙ ap (Option.map (collected pres posts)) found,
  )

  module _ (distinct : DistinctOffsets os₀) where
    -- The list after one more pre-handler.
    put-collected_pre :
        (pres posts : List Handler) (h : Handler) (o : OperationInfo)
        → find_operation (map (collected pres posts) os₀) h.operation_offset ≡ some o
        → put_operation
            (map (collected pres posts) os₀)
            h.operation_offset
            (with_pre h.func h.external o)
          ≡ map (collected (pres ++ h ∷ []) posts) os₀
    put-collected_pre pres posts h o found =
        put-map (collected pres posts) (λ x. refl) (with_pre h.func h.external) os₀
          h.operation_offset o distinct found
        ∙ map-pointwise _ _ os₀ (λ x. collected-pre pres posts h x)

  module _ {goal : List OperationInfo} (pres posts : List Handler) (h : Handler) (k : Kernel) where
    finish_pre :
        (o : OperationInfo)
        (next : List OperationInfo → Kernel → Outcome (Code × List OperationInfo × Kernel))
        → DistinctOffsets os₀
        → find_operation (map (collected pres posts) os₀) h.operation_offset ≡ some o
        → Accounted (map (collected pres posts) os₀) k
        → {r : Code × OperationInfo × Kernel}
        → Extended
            (base + (blocks_all (map (collected pres posts) os₀) - op_blocks o))
            o
            k
            (with_pre h.func h.external o)
            r
        → ((k' : Kernel)
            → Accounted (map (collected (pres ++ h ∷ []) posts) os₀) k'
            → Collects goal (next (map (collected (pres ++ h ∷ []) posts) os₀) k'))
        → Collects goal (
            and_then
              (done
                (r.0, put_operation (map (collected pres posts) os₀) h.operation_offset r.1, r.2))
              next)
    finish_pre o next distinct found acc (no_memory {o'} {k'} n e c) rest =
        stopped n (ap (λ (a : ℕ → Bool). a n) (sym acc.answers) ∙ e)
          (put-Accounted (map (collected pres posts) os₀) h.operation_offset o o' k k' found acc c)
    finish_pre o next distinct found acc (added {o'} {k'} e c) rest =
        let put =
          put-Accounted (map (collected pres posts) os₀) h.operation_offset o o' k k' found acc c in
        let same =
          ap (put_operation (map (collected pres posts) os₀) h.operation_offset) e
          ∙ put-collected_pre distinct pres posts h o found in
        subst (λ (t : List OperationInfo). Collects goal (next t k')) (sym same)
          (rest k' (subst (λ (t : List OperationInfo). Accounted t k') same put))

  module _ (distinct : DistinctOffsets os₀) where
    use_pre-Collects :
        (hs : List Handler) (pres posts : List Handler) (k : Kernel)
        → All (IsKnown os₀) hs
        → Accounted (map (collected pres posts) os₀) k
        → Collects
            (map (collected (pres ++ hs) posts) os₀)
            (use_pre hs (map (collected pres posts) os₀) k)
    unfolding use_pre
    use_pre-Collects [] pres posts k known acc = rw (append-nil pres) (complete refl acc)
    use_pre-Collects (h ∷ hs) pres posts k known acc =
        let os = map (collected pres posts) os₀ in
        let (o, found) = IsKnown-map pres posts h known.0 in
        let step =
          operation_info_add_pre-Extended o h.func (base + (blocks_all os - op_blocks o)) k
            (find-All h.operation_offset o IsTidy os found acc.tidy)
            (omega (arith, acc.memory, find-blocks h.operation_offset o os found)) h.external in
        let rest = λ (k' : Kernel). use_pre-Collects hs (pres ++ h ∷ []) posts k' known.1 in
        let longer : (pres ++ h ∷ []) ++ hs ≡ pres ++ (h ∷ hs) = append_assoc pres (h ∷ []) hs in
        rw (found, use_pre, ← longer)
          (finish_pre pres posts h k o (use_pre hs) distinct found acc step rest)

  module _ (distinct : DistinctOffsets os₀) where
    -- The list after one more post-handler.
    put-collected_post :
        (pres posts : List Handler) (h : Handler) (o : OperationInfo)
        → find_operation (map (collected pres posts) os₀) h.operation_offset ≡ some o
        → put_operation
            (map (collected pres posts) os₀)
            h.operation_offset
            (with_post h.func h.external o)
          ≡ map (collected pres (posts ++ h ∷ [])) os₀
    put-collected_post pres posts h o found =
        put-map (collected pres posts) (λ x. refl) (with_post h.func h.external) os₀
          h.operation_offset o distinct found
        ∙ map-pointwise _ _ os₀ (λ x. collected-post pres posts h x)

  module _ {goal : List OperationInfo} (pres posts : List Handler) (h : Handler) (k : Kernel) where
    finish_post :
        (o : OperationInfo)
        (next : List OperationInfo → Kernel → Outcome (Code × List OperationInfo × Kernel))
        → DistinctOffsets os₀
        → find_operation (map (collected pres posts) os₀) h.operation_offset ≡ some o
        → Accounted (map (collected pres posts) os₀) k
        → {r : Code × OperationInfo × Kernel}
        → Extended
            (base + (blocks_all (map (collected pres posts) os₀) - op_blocks o))
            o
            k
            (with_post h.func h.external o)
            r
        → ((k' : Kernel)
            → Accounted (map (collected pres (posts ++ h ∷ [])) os₀) k'
            → Collects goal (next (map (collected pres (posts ++ h ∷ [])) os₀) k'))
        → Collects goal (
            and_then
              (done
                (r.0, put_operation (map (collected pres posts) os₀) h.operation_offset r.1, r.2))
              next)
    finish_post o next distinct found acc (no_memory {o'} {k'} n e c) rest =
        stopped n (ap (λ (a : ℕ → Bool). a n) (sym acc.answers) ∙ e)
          (put-Accounted (map (collected pres posts) os₀) h.operation_offset o o' k k' found acc c)
    finish_post o next distinct found acc (added {o'} {k'} e c) rest =
        let put =
          put-Accounted (map (collected pres posts) os₀) h.operation_offset o o' k k' found acc c in
        let same =
          ap (put_operation (map (collected pres posts) os₀) h.operation_offset) e
          ∙ put-collected_post distinct pres posts h o found in
        subst (λ (t : List OperationInfo). Collects goal (next t k')) (sym same)
          (rest k' (subst (λ (t : List OperationInfo). Accounted t k') same put))

  module _ (distinct : DistinctOffsets os₀) where
    use_post-Collects :
        (hs : List Handler) (pres posts : List Handler) (k : Kernel)
        → All (IsKnown os₀) hs
        → Accounted (map (collected pres posts) os₀) k
        → Collects
            (map (collected pres (posts ++ hs)) os₀)
            (use_post hs (map (collected pres posts) os₀) k)
    unfolding use_post
    use_post-Collects [] pres posts k known acc = rw (append-nil posts) (complete refl acc)
    use_post-Collects (h ∷ hs) pres posts k known acc =
        let os = map (collected pres posts) os₀ in
        let (o, found) = IsKnown-map pres posts h known.0 in
        let step =
          operation_info_add_post-Extended o h.func (base + (blocks_all os - op_blocks o)) k
            (find-All h.operation_offset o IsTidy os found acc.tidy)
            (omega (arith, acc.memory, find-blocks h.operation_offset o os found)) h.external in
        let rest = λ (k' : Kernel). use_post-Collects hs pres (posts ++ h ∷ []) k' known.1 in
        let longer : (posts ++ h ∷ []) ++ hs ≡ posts ++ (h ∷ hs) = append_assoc posts (h ∷ []) hs in
        rw (found, use_post, ← longer)
          (finish_post pres posts h k o (use_post hs) distinct found acc step rest)

  module _ (distinct : DistinctOffsets os₀) where
    -- One fixed payload whose handlers are all known.
    use_elem-Collects :
        (e : PayloadElem) (pres posts : List Handler) (k : Kernel)
        → e.is_fixed ≡ true
        → All (IsKnown os₀) (handlers e.payload.pre_handlers)
        → All (IsKnown os₀) (handlers e.payload.post_handlers)
        → Accounted (map (collected pres posts) os₀) k
        → Collects
            (map
              (collected
                (pres ++ handlers e.payload.pre_handlers)
                (posts ++ handlers e.payload.post_handlers))
              os₀)
            (operation_payloads_use_elem e (map (collected pres posts) os₀) k)
    unfolding operation_payloads_use_elem
    use_elem-Collects e pres posts k fix known_pre known_post acc = rw fix (
        and_then-Collects (use_post (handlers e.payload.post_handlers))
          (use_pre-Collects distinct (handlers e.payload.pre_handlers) pres posts k known_pre acc)
          (λ k'.
            use_post-Collects distinct (handlers e.payload.post_handlers)
              (pres ++ handlers e.payload.pre_handlers) posts k' known_post))

    pub use_elems-from :
        (es : List PayloadElem) (pres posts : List Handler) (k : Kernel)
        → All (λ (e : PayloadElem). e.is_fixed ≡ true) es
        → All (IsKnown os₀) (pres_of es)
        → All (IsKnown os₀) (posts_of es)
        → Accounted (map (collected pres posts) os₀) k
        → Collects
            (map (collected (pres ++ pres_of es) (posts ++ posts_of es)) os₀)
            (use_elems es (map (collected pres posts) os₀) k)
    unfolding use_elems
    use_elems-from [] pres posts k fix known_pre known_post acc =
        rw (append-nil pres, append-nil posts) (complete refl acc)
    use_elems-from (e ∷ es) pres posts k fix known_pre known_post acc =
        let hs = handlers e.payload.pre_handlers in
        let ts = handlers e.payload.post_handlers in
        rw (← append_assoc pres hs (pres_of es), ← append_assoc posts ts (posts_of es))
          (and_then-Collects (use_elems es)
            (use_elem-Collects e pres posts k fix.0
              (All-left (IsKnown os₀) hs (pres_of es) known_pre)
              (All-left (IsKnown os₀) ts (posts_of es) known_post) acc)
            (λ k'.
              use_elems-from es (pres ++ hs) (posts ++ ts) k' fix.1
                (All-right (IsKnown os₀) hs (pres_of es) known_pre)
                (All-right (IsKnown os₀) ts (posts_of es) known_post)))
