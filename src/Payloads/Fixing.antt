-- ===== src/Payloads/Fixing.antt =====
-- Fixing payloads takes a reference to the module of each; releasing gives back what was taken.
use mathlib.Core.Path.{fun_ext}
use kedr_callback_operations.Prelude.{
  ℕ, ◌+◌, ◌-◌, ◌≡◌, refl, ap, true, false, Option, none, some, List, [], ◌∷◌, arith, All,
  All-append, Bool-cases, inl, inr, ◌==◌, if◌then◌else◌,
}
use kedr_callback_operations.Kernel.{Kernel}
use kedr_callback_operations.Payloads.Types.{Handler, PayloadElem, handlers}
use kedr_callback_operations.Payloads.Use.{fix_all, release_all, get_owner, put_owner}
use kedr_callback_operations.Payloads.Spec.{pres_of, posts_of}

abbrev pub Unfixed : List PayloadElem → Type 0
Unfixed = All (λ (e : PayloadElem). e.is_fixed ≡ false)

abbrev owner_is : ℕ → Option ℕ → ℕ
owner_is m none = 0
owner_is m (some n) = if m == n then 1 else 0

-- The references to a module that the fixed payloads hold.
abbrev pub owners : ℕ → List PayloadElem → ℕ
owners m [] = 0
owners m (e ∷ es) = (if e.is_fixed then owner_is m e.payload.owner else 0) + owners m es

get_owner-refs :
    (m : ℕ) (o : Option ℕ) (k : Kernel)
    → (get_owner o k).1.module_refs m
      ≡ k.module_refs m + (if (get_owner o k).0 then owner_is m o else 0)
unfolding get_owner
get_owner-refs m none k = omega arith
get_owner-refs m (some n) k = ground arith

put_owner-refs :
    (m : ℕ) (o : Option ℕ) (k : Kernel)
    → (put_owner o k).module_refs m ≡ k.module_refs m - owner_is m o
unfolding put_owner
put_owner-refs m none k = omega arith
put_owner-refs m (some n) k = ground arith

get_owner-kernel :
    (o : Option ℕ) (k : Kernel)
    → ((get_owner o k).1.answer ≡ k.answer) × ((get_owner o k).1.allocated ≡ k.allocated)
unfolding get_owner
get_owner-kernel none k = (refl, refl)
get_owner-kernel (some n) k = (refl, refl)

put_owner-kernel :
    (o : Option ℕ) (k : Kernel)
    → ((put_owner o k).answer ≡ k.answer) × ((put_owner o k).allocated ≡ k.allocated)
unfolding put_owner
put_owner-kernel none k = (refl, refl)
put_owner-kernel (some n) k = (refl, refl)

pub fix_all-kernel :
    (es : List PayloadElem) (k : Kernel)
    → ((fix_all es k).2.answer ≡ k.answer) × ((fix_all es k).2.allocated ≡ k.allocated)
unfolding fix_all
fix_all-kernel [] k = (refl, refl)
fix_all-kernel (e ∷ es) k =
    ground
      (arith, get_owner-kernel e.payload.owner k, fix_all-kernel es (get_owner e.payload.owner k).1)

pub release_all-kernel :
    (es : List PayloadElem) (k : Kernel)
    → ((release_all es k).1.answer ≡ k.answer) × ((release_all es k).1.allocated ≡ k.allocated)
unfolding release_all
release_all-kernel [] k = (refl, refl)
release_all-kernel (e ∷ es) k = ground (
  arith,
  put_owner-kernel e.payload.owner k,
  release_all-kernel es (if e.is_fixed then put_owner e.payload.owner k else k),
)

-- Fixing adds to the count of each module the references that its fixed payloads hold.
pub fix_all-owners :
    (m : ℕ) (es : List PayloadElem) (k : Kernel)
    → Unfixed es
    → (fix_all es k).2.module_refs m ≡ k.module_refs m + owners m (fix_all es k).0
unfolding fix_all
fix_all-owners m [] k u = omega arith
fix_all-owners m (e ∷ es) k u = ground (
  arith,
  get_owner-refs m e.payload.owner k,
  fix_all-owners m es (get_owner e.payload.owner k).1 u.1,
)

release_all-owners :
    (m : ℕ) (es : List PayloadElem) (k : Kernel)
    → (release_all es k).1.module_refs m ≡ k.module_refs m - owners m es
unfolding release_all
release_all-owners m [] k = omega arith
release_all-owners m (e ∷ es) k = ground (
  arith,
  put_owner-refs m e.payload.owner k,
  release_all-owners m es (if e.is_fixed then put_owner e.payload.owner k else k),
)

release_all-elems :
    (es : List PayloadElem) (k k' : Kernel) → Unfixed es → (release_all (fix_all es k).0 k').0 ≡ es
unfolding fix_all release_all
release_all-elems [] k k' u = refl
release_all-elems (e ∷ es) k k' u =
    let k₁ = (get_owner e.payload.owner k).1 in
    ground (
      arith,
      release_all-elems es k₁ (put_owner e.payload.owner k') u.1,
      release_all-elems es k₁ k' u.1,
    )

-- After fixing, with any number of calls between that leave the module counts alone, releasing
-- makes every payload unfixed again and every module count what it was.
pub release-fix :
    (es : List PayloadElem) (k k' : Kernel)
    → Unfixed es
    → k'.module_refs ≡ (fix_all es k).2.module_refs
    → let (es', k'') = release_all (fix_all es k).0 k' in
      (es' ≡ es) × (k''.module_refs ≡ k.module_refs)
release-fix es k k' u e = (
  release_all-elems es k k' u,
  fun_ext λ m. omega (
    arith,
    release_all-owners m (fix_all es k).0 k',
    fix_all-owners m es k u,
    ap (λ (r : ℕ → ℕ). r m) e,
  ),
)

pub fix_all-fixed :
    (es : List PayloadElem) (k : Kernel)
    → All (λ (e : PayloadElem). e.is_fixed ≡ true) (fix_all es k).1
unfolding fix_all
fix_all-fixed [] k = tt
fix_all-fixed (e ∷ es) k = ground (arith, fix_all-fixed es (get_owner e.payload.owner k).1)

-- What all handlers of the registered payloads satisfy, those of the used ones do.
pub fix_all-All :
    (P : Handler → Type 0) (es : List PayloadElem) (k : Kernel)
    → All
        (λ (e : PayloadElem).
          All P (handlers e.payload.pre_handlers) × All P (handlers e.payload.post_handlers))
        es
    → All P (pres_of (fix_all es k).1) × All P (posts_of (fix_all es k).1)
unfolding fix_all
fix_all-All P [] k a = (tt, tt)
fix_all-All P (e ∷ es) k a =
    let rest = fix_all-All P es (get_owner e.payload.owner k).1 a.1 in
    elim (Bool-cases (get_owner e.payload.owner k).0) [
      | inl ok ↦ rw ok (All-append P _ _ a.0.0 rest.0, All-append P _ _ a.0.1 rest.1)
      | inr gone ↦ rw gone rest
    ]
