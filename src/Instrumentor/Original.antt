-- ===== src/Instrumentor/Original.antt =====
-- The original operation of an object, as kedr_coi_instrumentor_get_orig_operation finds it.
use kedr_callback_operations.Prelude.{
  ℕ, ◌<◌, ◌≡◌, ◌≢◌, true, false, Option, none, some, List, [], ◌∷◌, Bool-cases, inl, inr, ◌==◌,
  arith, All,
}
use kedr_callback_operations.Kernel.{Code, success, ignored, fail, einval, Outcome, done, bug}
use kedr_callback_operations.Payloads.Types.{Replacement}
use kedr_callback_operations.Instrumentor.{Mechanism, Instrumentor}
use kedr_callback_operations.Instrumentor.Data.{
  my_operations, get_orig_operation_of, instrumentor_find_data,
}
use kedr_callback_operations.Instrumentor.Watch.{original_lost}
use kedr_callback_operations.Instrumentor.View.{watched_of}

-- The operation is none of the replacements.
abbrev pub IsForeignTo : List Replacement → ℕ → Type 0
IsForeignTo rs op = All (λ (r : Replacement). r.repl ≢ op) rs

pub original_lost-false :
    (rs : List Replacement) (op : ℕ) → original_lost rs op ≡ false → IsForeignTo rs op
unfolding original_lost
original_lost-false [] op h = tt
original_lost-false (r ∷ rs) op h =
    ((λ same. ground (arith, h, same)), original_lost-false rs op (ground (arith, h)))

pub data IsReplacement : List Replacement → ℕ → Type 0 where
  first :
      {r : Replacement} {rs : List Replacement} {op : ℕ} → r.repl ≡ op → IsReplacement (r ∷ rs) op
  later :
      {r : Replacement} {rs : List Replacement} {op : ℕ}
      → IsReplacement rs op
      → IsReplacement (r ∷ rs) op

pub original_lost-true :
    (rs : List Replacement) (op : ℕ) → original_lost rs op ≡ true → IsReplacement rs op
unfolding original_lost
original_lost-true [] op h = absurd (cc h)
original_lost-true (r ∷ rs) op h = elim (Bool-cases (r.repl == op)) [
  | inl here ↦ first (ground (arith, here))
  | inr other ↦ later (original_lost-true rs op (ground (arith, h, other)))
]

module _ (hash_ptr : ℕ → ℕ → ℕ) (m : Instrumentor) (object ops offset : ℕ) where
  -- No structure is known for the object or for its operations.
  abbrev IsUnknown : Type 0
  IsUnknown = (watched_of hash_ptr m object ≡ none) × (instrumentor_find_data hash_ptr m ops ≡ none)

  pub data Answers : Outcome (Code × Option ℕ) → Type 0 where
    -- A watched object: the original of its structure, whatever `ops` is.
    watched :
        (kind : Mechanism)
        → watched_of hash_ptr m object ≡ some kind
        → Answers (done (success, some (get_orig_operation_of kind m.state offset)))
    -- Another object with instrumented operations.
    instrumented :
        (a : ℕ)
        → watched_of hash_ptr m object ≡ none
        → 0 < (m.idatas a).refs
        → my_operations (m.idatas a).i_ops ops ≡ true
        → Answers (done (ignored, some (get_orig_operation_of (m.idatas a).i_ops m.state offset)))
    -- Operations without instrumentation.
    plain :
        IsUnknown
        → ops ≢ 0
        → IsForeignTo m.replacements (m.state.memory ops offset)
        → Answers (done (ignored, some (m.state.memory ops offset)))
    -- A replacement stands there, but its original is not known.
    lost :
        IsUnknown
        → ops ≢ 0
        → IsReplacement m.replacements (m.state.memory ops offset)
        → Answers (done (fail einval, none))
    -- NULL operations are read.
    null : IsUnknown → ops ≡ 0 → Answers bug
