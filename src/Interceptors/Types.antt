-- ===== src/Interceptors/Types.antt =====
-- The structures of core/kedr_coi_interceptors.c.
use kedr_callback_operations.Prelude.{
  ℕ, ◌+◌, ◌-◌, ◌%◌, ◌^◌, Bool, Option, none, some, List, [], map,
}
use kedr_callback_operations.Payloads.Types.{OperationPayloads}

pub data InterceptorState : Type 0 where
  uninitialized initialized started : InterceptorState

-- The offset -1, as the unsigned number that it is.
abbrev pub minus_one : ℕ
minus_one = 2 ^ 64 - 1

abbrev pub indirect_operations_p : ℕ → ℕ → ℕ
indirect_operations_p object offset = (object + offset) % 2 ^ 64

-- `self` is the address. `interceptor_binded` says whether the pointer is not NULL, and then the
-- interceptor's list holds the factory interceptor.
pub record FactoryInterceptor : Type 0 where
  pub self : ℕ
  pub state : InterceptorState
  pub instrumentor : Option ℕ
  pub factory_operations_field_offset : ℕ
  pub payloads : OperationPayloads
  pub interceptor_binded : Bool
  pub trace_unforgotten_object : Option ℕ

pub record Interceptor : Type 0 where
  pub state : InterceptorState
  pub instrumentor : Option ℕ
  pub operations_field_offset : ℕ
  pub payloads : OperationPayloads
  pub factory_interceptors : List FactoryInterceptor
  pub operations_struct_size : ℕ
  pub replace_at_place : ℕ → Bool
  pub trace_unforgotten_object : Option ℕ

-- `struct kedr_coi_intermediate_info`.
pub record IntermediateInfo : Type 0 where
  pub op_chained : ℕ
  pub op_orig : ℕ
  pub pre : Option (List ℕ)
  pub post : Option (List ℕ)

-- The calls of the callback for the objects that were not forgotten: the callback and the object.
abbrev pub trace_unforgotten : Option ℕ → List ℕ → List (ℕ × ℕ)
trace_unforgotten none objects = []
trace_unforgotten (some callback) objects = map (λ o. (callback, o)) objects
