-- ===== src/Payloads/Spec.antt =====
-- What the used payloads intercept of an operation, said directly.
use kedr_callback_operations.Prelude.{
  ℕ, ◌≡◌, refl, sym, ap, ◌∙◌, Bool, false, ◌||◌, ◌&&◌, List, [], ◌∷◌, ◌++◌, append-nil, arith, ◌==◌,
  if◌then◌else◌, Bool-cases, inl, inr,
}
use kedr_callback_operations.Payloads.Types.{Handler, OperationInfo, PayloadElem, handlers}
use kedr_callback_operations.Payloads.Parray.{parray_of, pointers, pointers-parray_of}
use kedr_callback_operations.Payloads.Tidy.{with_pre, with_post}

-- The functions of the handlers for an offset, in order; of the external ones; whether there are any.
abbrev pub funcs : ℕ → List Handler → List ℕ
funcs off [] = []
funcs off (h ∷ hs) = if h.operation_offset == off then h.func ∷ funcs off hs else funcs off hs

abbrev pub external_funcs : ℕ → List Handler → List ℕ
external_funcs off [] = []
external_funcs off (h ∷ hs) =
    if (h.operation_offset == off) && h.external
    then h.func ∷ external_funcs off hs
    else external_funcs off hs

abbrev pub has_handler : ℕ → List Handler → Bool
has_handler off [] = false
has_handler off (h ∷ hs) = (h.operation_offset == off) || has_handler off hs

abbrev pub has_external : ℕ → List Handler → Bool
has_external off [] = false
has_external off (h ∷ hs) = ((h.operation_offset == off) && h.external) || has_external off hs

-- The operation with the handlers for it out of all `pres` and all `posts`.
abbrev pub collected : List Handler → List Handler → OperationInfo → OperationInfo
collected pres posts o =
    let off = o.operation_offset in
    record o {
      is_intercepted = o.is_intercepted || (has_handler off pres || has_handler off posts);
      pre_handlers = parray_of (funcs off pres);
      post_handlers = parray_of (funcs off posts);
      default_is_intercepted =
          o.default_is_intercepted || (has_external off pres || has_external off posts);
      default_pre_handlers = parray_of (external_funcs off pres);
      default_post_handlers = parray_of (external_funcs off posts);
    }

-- All pre-handlers, and all post-handlers, of payloads in order.
abbrev pub pres_of : List PayloadElem → List Handler
pres_of [] = []
pres_of (e ∷ es) = handlers e.payload.pre_handlers ++ pres_of es

abbrev pub posts_of : List PayloadElem → List Handler
posts_of [] = []
posts_of (e ∷ es) = handlers e.payload.post_handlers ++ posts_of es

module _ (off : ℕ) where
  funcs-append : (xs ys : List Handler) → funcs off (xs ++ ys) ≡ funcs off xs ++ funcs off ys
  funcs-append [] ys = refl
  funcs-append (x ∷ xs) ys = ground (arith, funcs-append xs ys)

  external_funcs-append :
      (xs ys : List Handler)
      → external_funcs off (xs ++ ys) ≡ external_funcs off xs ++ external_funcs off ys
  external_funcs-append [] ys = refl
  external_funcs-append (x ∷ xs) ys = ground (arith, external_funcs-append xs ys)

  has_handler-append :
      (xs ys : List Handler)
      → has_handler off (xs ++ ys) ≡ (has_handler off xs || has_handler off ys)
  has_handler-append [] ys = refl
  has_handler-append (x ∷ xs) ys = ground (arith, has_handler-append xs ys)

  has_external-append :
      (xs ys : List Handler)
      → has_external off (xs ++ ys) ≡ (has_external off xs || has_external off ys)
  has_external-append [] ys = refl
  has_external-append (x ∷ xs) ys = ground (arith, has_external-append xs ys)

  pointers-snoc :
      (xs ys : List ℕ) (f : ℕ) → ys ≡ xs ++ f ∷ [] → pointers (parray_of xs) ++ f ∷ [] ≡ ys
  pointers-snoc xs ys f e = ap (λ (t : List ℕ). t ++ f ∷ []) (pointers-parray_of xs) ∙ sym e

-- An operation with its interception replaced.
build : OperationInfo → Bool → List ℕ → List ℕ → Bool → List ℕ → List ℕ → OperationInfo
build o i pre post di dpre dpost = record o {
  is_intercepted = i;
  pre_handlers = parray_of pre;
  post_handlers = parray_of post;
  default_is_intercepted = di;
  default_pre_handlers = parray_of dpre;
  default_post_handlers = parray_of dpost;
}

module _ (o : OperationInfo) where
  build-cong :
      (i i' : Bool) (p p' q q' : List ℕ) (d d' : Bool) (dp dp' dq dq' : List ℕ)
      → i ≡ i'
      → p ≡ p'
      → q ≡ q'
      → d ≡ d'
      → dp ≡ dp'
      → dq ≡ dq'
      → build o i p q d dp dq ≡ build o i' p' q' d' dp' dq'
  build-cong i i' p p' q q' d d' dp dp' dq dq' e₁ e₂ e₃ e₄ e₅ e₆ = cc

module _ (pres posts : List Handler) (h : Handler) (o : OperationInfo) where
  -- One more pre-handler, at the operation that it is for and at any other.
  pub collected-pre :
      (if o.operation_offset == h.operation_offset
        then with_pre h.func h.external (collected pres posts o)
        else collected pres posts o)
      ≡ collected (pres ++ h ∷ []) posts o
  unfolding build
  collected-pre =
      let off = o.operation_offset in
      let one = h ∷ [] in
      let fs = funcs-append off pres one in
      let es = external_funcs-append off pres one in
      let hs = has_handler-append off pres one in
      let xs = has_external-append off pres one in
      let nil = append-nil (funcs off pres) in
      let enil = append-nil (external_funcs off pres) in
      elim (Bool-cases (off == h.operation_offset)) [
        | inr miss ↦ rw miss (
            build-cong o _ _ _ _ _ _ _ _ _ _ _ _ (ground (arith, hs)) (ground (arith, fs, nil)) refl
              (ground (arith, xs)) (ground (arith, es, enil)) refl)
        | inl hit ↦ elim (Bool-cases h.external) [
          | inr internal ↦
              rw (hit, internal)
                (build-cong o _ _ _ _ _ _ _ _ _ _ _ _ (ground (arith, hs))
                  (pointers-snoc off (funcs off pres) _ h.func (ground (arith, fs))) refl
                  (ground (arith, xs)) (ground (arith, es, enil)) refl)
          | inl extern ↦
              rw (hit, extern)
                (build-cong o _ _ _ _ _ _ _ _ _ _ _ _ (ground (arith, hs))
                  (pointers-snoc off (funcs off pres) _ h.func (ground (arith, fs))) refl
                  (ground (arith, xs))
                  (pointers-snoc off (external_funcs off pres) _ h.func (ground (arith, es))) refl)
        ]
      ]

module _ (pres posts : List Handler) (h : Handler) (o : OperationInfo) where
  -- One more post-handler, at the operation that it is for and at any other.
  pub collected-post :
      (if o.operation_offset == h.operation_offset
        then with_post h.func h.external (collected pres posts o)
        else collected pres posts o)
      ≡ collected pres (posts ++ h ∷ []) o
  unfolding build
  collected-post =
      let off = o.operation_offset in
      let one = h ∷ [] in
      let fs = funcs-append off posts one in
      let es = external_funcs-append off posts one in
      let hs = has_handler-append off posts one in
      let xs = has_external-append off posts one in
      let nil = append-nil (funcs off posts) in
      let enil = append-nil (external_funcs off posts) in
      elim (Bool-cases (off == h.operation_offset)) [
        | inr miss ↦ rw miss (
            build-cong o _ _ _ _ _ _ _ _ _ _ _ _ (ground (arith, hs)) refl (ground (arith, fs, nil))
              (ground (arith, xs)) refl (ground (arith, es, enil)))
        | inl hit ↦ elim (Bool-cases h.external) [
          | inr internal ↦
              rw (hit, internal)
                (build-cong o _ _ _ _ _ _ _ _ _ _ _ _ (ground (arith, hs)) refl
                  (pointers-snoc off (funcs off posts) _ h.func (ground (arith, fs)))
                  (ground (arith, xs)) refl (ground (arith, es, enil)))
          | inl extern ↦
              rw (hit, extern)
                (build-cong o _ _ _ _ _ _ _ _ _ _ _ _ (ground (arith, hs)) refl
                  (pointers-snoc off (funcs off posts) _ h.func (ground (arith, fs)))
                  (ground (arith, xs)) refl
                  (pointers-snoc off (external_funcs off posts) _ h.func (ground (arith, es))))
        ]
      ]
