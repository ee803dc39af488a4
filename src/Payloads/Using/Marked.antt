-- ===== src/Payloads/Using/Marked.antt =====
-- The operations of idle payloads before the collecting, marked or not, and after the closing.
use kedr_callback_operations.Prelude.{
  ℕ, ◌≡◌, refl, sym, ap, subst, ◌∙◌, Bool, true, false, ◌&&◌, not, none, some, List, [], ◌∷◌, arith,
  map, All, Bool-cases, inl, inr, length, ◌==◌,
}
use mathlib.Core.Option
use kedr_callback_operations.Payloads.Types.{
  Handler, OperationInfo, PayloadElem, Replacement, handlers,
}
use kedr_callback_operations.Payloads.Use.{
  count_replaced, fill_replacements, intercept_one, is_single,
}
use kedr_callback_operations.Payloads.Checked.{IsAllowed}
use kedr_callback_operations.Payloads.Groups.{any_default, closed_by}
use kedr_callback_operations.Payloads.Tidy.{IsTidy, op_blocks, cleared}
use kedr_callback_operations.Payloads.Lists.{blocks_all, DistinctOffsets, find-map}
use kedr_callback_operations.Payloads.Spec.{collected}
use kedr_callback_operations.Payloads.Collect.{IsKnown}
use kedr_callback_operations.Payloads.Using.{marked}

-- The count that sizes the array of replacements is the number of those that are filled in.
pub length-fill_replacements :
    (os : List OperationInfo) → length (fill_replacements os) ≡ count_replaced os
unfolding fill_replacements count_replaced
length-fill_replacements [] = refl
length-fill_replacements (o ∷ os) = ground (arith, length-fill_replacements os)

module _ (marks : List OperationInfo) where
  closed_by-IsTidy : (o : OperationInfo) → IsTidy o → IsTidy (closed_by marks o)
  closed_by-IsTidy o t = elim (Bool-cases (not (o.group_id == 0) && any_default o.group_id marks)) [
    | inl marked ↦ rw marked (record {
      pre = t.pre;
      post = t.post;
      default_pre = t.default_pre;
      default_post = t.default_post;
      quiet = t.quiet;
      default_quiet = λ off. cc;
    })
    | inr other ↦ rw other t
  ]

  pub closed-IsTidy :
      (os : List OperationInfo) → All IsTidy os → All IsTidy (map (closed_by marks) os)
  closed-IsTidy [] t = tt
  closed-IsTidy (o ∷ os) t = (closed_by-IsTidy o t.0, closed-IsTidy os t.1)

  pub closed-blocks :
      (os : List OperationInfo) → blocks_all (map (closed_by marks) os) ≡ blocks_all os
  closed-blocks [] = refl
  closed-blocks (o ∷ os) = ground (arith, closed-blocks os)

  pub closed-cleared :
      (os : List OperationInfo) → map cleared (map (closed_by marks) os) ≡ map cleared os
  closed-cleared [] = refl
  closed-cleared (o ∷ os) = ground (arith, closed-cleared os)

quiet-cleared :
    (os : List OperationInfo) → All (λ (o : OperationInfo). o ≡ cleared o) os → map cleared os ≡ os
quiet-cleared [] q = refl
quiet-cleared (o ∷ os) q = ground (arith, q.0, quiet-cleared os q.1)

quiet-collected :
    (os : List OperationInfo)
    → All (λ (o : OperationInfo). o ≡ cleared o) os
    → map (collected [] []) os ≡ os
quiet-collected [] q = refl
quiet-collected (o ∷ os) q = ground (arith, q.0, quiet-collected os q.1)

cleared-IsTidy : (o : OperationInfo) → IsTidy (cleared o)
cleared-IsTidy o = record {
  pre = refl;
  post = refl;
  default_pre = refl;
  default_post = refl;
  quiet = λ e. (refl, refl);
  default_quiet = λ e. (refl, refl);
}

quiet-IsTidy :
    (os : List OperationInfo) → All (λ (o : OperationInfo). o ≡ cleared o) os → All IsTidy os
quiet-IsTidy [] q = tt
quiet-IsTidy (o ∷ os) q = (subst IsTidy (sym q.0) (cleared-IsTidy o), quiet-IsTidy os q.1)

quiet-blocks :
    (os : List OperationInfo) → All (λ (o : OperationInfo). o ≡ cleared o) os → blocks_all os ≡ 0
quiet-blocks [] q = refl
quiet-blocks (o ∷ os) q = omega (arith, ap op_blocks q.0, quiet-blocks os q.1)

abbrev Quiet : List OperationInfo → Type 0
Quiet = All (λ (o : OperationInfo). o ≡ cleared o)

intercept-collected :
    (o : OperationInfo) → o ≡ cleared o → collected [] [] (intercept_one o) ≡ intercept_one o
intercept-collected o q = ground (
  arith,
  ap (λ (x : OperationInfo). x.pre_handlers) q,
  ap (λ (x : OperationInfo). x.post_handlers) q,
  ap (λ (x : OperationInfo). x.default_pre_handlers) q,
  ap (λ (x : OperationInfo). x.default_post_handlers) q,
)

intercept-all-collected :
    (os : List OperationInfo)
    → Quiet os
    → map (collected [] []) (map intercept_one os) ≡ map intercept_one os
intercept-all-collected [] q = refl
intercept-all-collected (o ∷ os) q =
    ground (arith, intercept-collected o q.0, intercept-all-collected os q.1)

intercept_one-IsTidy : (o : OperationInfo) → IsTidy (intercept_one (cleared o))
intercept_one-IsTidy o = record {
  pre = refl;
  post = refl;
  default_pre = refl;
  default_post = refl;
  quiet = λ e. (refl, refl);
  default_quiet = λ e. (refl, refl);
}

intercept-all-IsTidy : (os : List OperationInfo) → Quiet os → All IsTidy (map intercept_one os)
intercept-all-IsTidy [] q = tt
intercept-all-IsTidy (o ∷ os) q = (
  subst (λ (x : OperationInfo). IsTidy (intercept_one x)) (sym q.0) (intercept_one-IsTidy o),
  intercept-all-IsTidy os q.1,
)

intercept-all-blocks : (os : List OperationInfo) → blocks_all (map intercept_one os) ≡ blocks_all os
intercept-all-blocks [] = refl
intercept-all-blocks (o ∷ os) = ground (arith, intercept-all-blocks os)

intercept-all-cleared :
    (os : List OperationInfo) → map cleared (map intercept_one os) ≡ map cleared os
intercept-all-cleared [] = refl
intercept-all-cleared (o ∷ os) = ground (arith, intercept-all-cleared os)

intercept-all-offsets :
    (os : List OperationInfo) → DistinctOffsets os → DistinctOffsets (map intercept_one os)
intercept-all-offsets [] d = tt
intercept-all-offsets (o ∷ os) d = (
  find-map intercept_one (λ x. refl) os o.operation_offset ∙ ap (Option.map intercept_one) d.0,
  intercept-all-offsets os d.1,
)

pub marked-collected :
    (b : Bool) (os : List OperationInfo)
    → Quiet os
    → map (collected [] []) (marked b os) ≡ marked b os
marked-collected true os q = intercept-all-collected os q
marked-collected false os q = quiet-collected os q

pub marked-IsTidy : (b : Bool) (os : List OperationInfo) → Quiet os → All IsTidy (marked b os)
marked-IsTidy true os q = intercept-all-IsTidy os q
marked-IsTidy false os q = quiet-IsTidy os q

pub marked-blocks : (b : Bool) (os : List OperationInfo) → Quiet os → blocks_all (marked b os) ≡ 0
marked-blocks true os q = intercept-all-blocks os ∙ quiet-blocks os q
marked-blocks false os q = quiet-blocks os q

pub marked-cleared :
    (b : Bool) (os : List OperationInfo) → Quiet os → map cleared (marked b os) ≡ os
marked-cleared true os q = intercept-all-cleared os ∙ quiet-cleared os q
marked-cleared false os q = quiet-cleared os q

pub marked-offsets :
    (b : Bool) (os : List OperationInfo) → DistinctOffsets os → DistinctOffsets (marked b os)
marked-offsets true os d = intercept-all-offsets os d
marked-offsets false os d = d

marked-IsKnown :
    (b : Bool) (os : List OperationInfo) (h : Handler) → IsAllowed os h → IsKnown (marked b os) h
marked-IsKnown true os h a = (
  intercept_one a.0,
  find-map intercept_one (λ x. refl) os h.operation_offset ∙ ap (Option.map intercept_one) a.1,
)
marked-IsKnown false os h a = (a.0, a.1)

-- With every operation marked, all are replaced.
pub count-marked :
    (m : List OperationInfo) (pres posts : List Handler) (os : List OperationInfo)
    → count_replaced (map (closed_by m) (map (collected pres posts) (map intercept_one os)))
      ≡ length os
unfolding count_replaced
count-marked m pres posts [] = refl
count-marked m pres posts (o ∷ os) = ground (arith, count-marked m pres posts os)

pub marked-count :
    (b : Bool) (m : List OperationInfo) (pres posts : List Handler) (os : List OperationInfo)
    → (b ≡ true → length os ≡ 1)
    → b ≡ true
    → count_replaced (map (closed_by m) (map (collected pres posts) (marked b os))) ≡ 1
marked-count true m pres posts os one e = count-marked m pres posts os ∙ one e
marked-count false m pres posts os one e = cc

single_of : (rs : List Replacement) → length rs ≡ 1 → is_single (some rs) ≡ true
single_of [] e = absurd (omega arith)
single_of (r ∷ []) e = refl
single_of (r ∷ s ∷ rs) e = absurd (omega arith)

-- The check of `intercept_all` passes.
pub passes_none :
    (b : Bool) (n : ℕ) → (b ≡ true → n ≡ 1) → (n == 0) ≡ true → (b && not (is_single none)) ≡ false
passes_none true n one e = ground (arith, one refl)
passes_none false n one e = refl

pub passes_some :
    (b : Bool) (rs : List Replacement)
    → (b ≡ true → length rs ≡ 1)
    → (b && not (is_single (some rs))) ≡ false
passes_some true rs one = ap not (single_of rs (one refl))
passes_some false rs one = refl

allowed-IsKnown :
    (b : Bool) (os : List OperationInfo) (hs : List Handler)
    → All (IsAllowed os) hs
    → All (IsKnown (marked b os)) hs
allowed-IsKnown b os [] a = tt
allowed-IsKnown b os (h ∷ hs) a = (marked-IsKnown b os h a.0, allowed-IsKnown b os hs a.1)

pub elems-IsKnown :
    (b : Bool) (os : List OperationInfo) (es : List PayloadElem)
    → All
        (λ (e : PayloadElem).
          All (IsAllowed os) (handlers e.payload.pre_handlers)
          × All (IsAllowed os) (handlers e.payload.post_handlers))
        es
    → All
        (λ (e : PayloadElem).
          All (IsKnown (marked b os)) (handlers e.payload.pre_handlers)
          × All (IsKnown (marked b os)) (handlers e.payload.post_handlers))
        es
elems-IsKnown b os [] a = tt
elems-IsKnown b os (e ∷ es) a =
    ((allowed-IsKnown b os _ a.0.0, allowed-IsKnown b os _ a.0.1), elems-IsKnown b os es a.1)
