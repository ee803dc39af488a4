-- ===== src/Payloads/Types.antt =====
-- The data of core/payloads.c, payloads.h and include/kedr-coi/operations_interception.h. Pointers
-- are numbers, 0 is NULL. An array that ends with the offset -1 is the list of what stands before
-- the mark.
use kedr_callback_operations.Prelude.{ℕ, Bool, Option, List, [], none, some}

-- `elems` is the C array with its terminating NULL, or NULL.
pub record Parray : Type 0 where
  pub elems : Option (List ℕ)
  pub n_elems : ℕ

pub record Handler : Type 0 where
  pub operation_offset : ℕ
  pub func : ℕ
  pub external : Bool

-- `self` is the address of the payload, `owner` its field `mod`.
pub record Payload : Type 0 where
  pub self : ℕ
  pub owner : Option ℕ
  pub pre_handlers : Option (List Handler)
  pub post_handlers : Option (List Handler)

pub record Intermediate : Type 0 where
  pub operation_offset : ℕ
  pub repl : ℕ
  pub group_id : ℕ
  pub internal_only : Bool

pub data ReplacementMode : Type 0 where
  replace_null replace_not_null replace_all : ReplacementMode

pub record Replacement : Type 0 where
  pub operation_offset : ℕ
  pub repl : ℕ
  pub mode : ReplacementMode

pub record OperationInfo : Type 0 where
  pub operation_offset : ℕ
  pub repl : ℕ
  pub group_id : ℕ
  pub internal_only : Bool
  pub is_intercepted : Bool
  pub pre_handlers : Parray
  pub post_handlers : Parray
  pub default_is_intercepted : Bool
  pub default_pre_handlers : Parray
  pub default_post_handlers : Parray

pub record PayloadElem : Type 0 where
  pub payload : Payload
  pub is_fixed : Bool

-- `payload_elems_used` holds the elements as they stand while they are fixed.
pub record OperationPayloads : Type 0 where
  pub payload_elems : List PayloadElem
  pub operations : List OperationInfo
  pub is_used : Bool
  pub payload_elems_used : List PayloadElem
  pub replacements : Option (List Replacement)

-- A loop over an array of handlers: none if the array is NULL.
abbrev pub handlers : Option (List Handler) → List Handler
handlers none = []
handlers (some hs) = hs
