-- ===== src/Tests/Data.antt =====
-- Payloads of a small interceptor: two operations and two payloads of two modules.
use kedr_callback_operations.Prelude.{ℕ, Bool, true, false, none, some, [], ◌∷◌, refl}
use kedr_callback_operations.Kernel.{Kernel, Reliable}
use kedr_callback_operations.Payloads.Types.{Payload, OperationInfo, OperationPayloads}
use kedr_callback_operations.Payloads.Parray.{parray_init}
use kedr_callback_operations.Payloads.Operation.{find_operation}
use kedr_callback_operations.Payloads.Registration.{is_registered}
use kedr_callback_operations.Payloads.Checked.{IsChecked}
use kedr_callback_operations.Payloads.Using.{IsIdle}

-- No call fails.
abbrev pub fair : Kernel
fair = record { answer = λ n. true; asked = 0; allocated = 10; module_refs = λ m. 0 }

pub fair-Reliable : Reliable fair
fair-Reliable n = refl

abbrev operation : ℕ → ℕ → Bool → OperationInfo
operation offset group internal = record {
  operation_offset = offset;
  repl = 1000;
  group_id = group;
  internal_only = internal;
  is_intercepted = false;
  pre_handlers = parray_init;
  post_handlers = parray_init;
  default_is_intercepted = false;
  default_pre_handlers = parray_init;
  default_post_handlers = parray_init;
}

abbrev pub open_operation : OperationInfo
open_operation = operation 8 1 false

abbrev pub close_operation : OperationInfo
close_operation = operation 16 1 false

abbrev pub counting : Payload
counting = record {
  self = 70;
  owner = some 3;
  pre_handlers = some (record { operation_offset = 8; func = 501; external = true } ∷ []);
  post_handlers = some (record { operation_offset = 8; func = 502; external = false } ∷ []);
}

abbrev pub tracing : Payload
tracing = record { self = 80; owner = none; pre_handlers = none; post_handlers = none }

abbrev pub two_operations : OperationPayloads
two_operations = record {
  payload_elems = record { payload = counting; is_fixed = false } ∷ [];
  operations = open_operation ∷ close_operation ∷ [];
  is_used = false;
  payload_elems_used = [];
  replacements = none;
}

abbrev pub one_operation : OperationPayloads
one_operation = record two_operations { operations = open_operation ∷ [] }

pub two_operations-IsChecked : IsChecked two_operations
unfolding find_operation is_registered
two_operations-IsChecked = record {
  distinct = (refl, tt);
  allowed = ((((open_operation, refl, refl), tt), ((open_operation, refl, refl), tt)), tt);
}

pub two_operations-IsIdle : IsIdle two_operations
unfolding find_operation
two_operations-IsIdle = record {
  checked = two_operations-IsChecked;
  offsets = (refl, (refl, tt));
  quiet = (refl, (refl, tt));
  unfixed = (refl, tt);
  unused = refl;
  no_used = refl;
}

pub one_operation-IsIdle : IsIdle one_operation
unfolding find_operation is_registered
one_operation-IsIdle = record {
  checked = record {
    distinct = (refl, tt);
    allowed = ((((open_operation, refl, refl), tt), ((open_operation, refl, refl), tt)), tt);
  };
  offsets = (refl, tt);
  quiet = (refl, tt);
  unfixed = (refl, tt);
  unused = refl;
  no_used = refl;
}
