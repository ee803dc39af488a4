-- ===== src/Tests/Interceptor.antt =====
-- The theorems of core/kedr_coi_interceptors.c at an interceptor with one factory interceptor, over
-- instrumentors that are numbered in the order of their creation.
use kedr_callback_operations.Prelude.{◌≡◌, map, All, ℕ, ◌+◌, refl, true, false, none, some, [], ◌∷◌}
use kedr_callback_operations.Interceptors.Normal.{
  finish_start, start_factories, start_used, kedr_coi_interceptor_create_common,
  kedr_coi_interceptor_start, kedr_coi_interceptor_stop, kedr_coi_interceptor_watch,
  kedr_coi_interceptor_forget, kedr_coi_interceptor_forget_norestore, kedr_coi_interceptor_destroy,
  disconnect,
}
use kedr_callback_operations.Interceptors.Factory.{
  factory_interceptor_start, kedr_coi_factory_interceptor_create_common,
}
use kedr_callback_operations.Payloads.Use.{
  operation_payloads_get_replacements, operation_payloads_use,
}
use kedr_callback_operations.Kernel.{Kernel, success, done}
use kedr_callback_operations.Payloads.Types.{Intermediate, OperationPayloads, replace_all}
use kedr_callback_operations.Payloads.Registration.{operation_payloads_init}
use kedr_callback_operations.Instrumentors.{Instrumentors}
use kedr_callback_operations.Payloads.Using.{IsIdle}
use kedr_callback_operations.Interceptors.Types.{
  initialized, started, indirect_operations_p, FactoryInterceptor, Interceptor,
}
use kedr_callback_operations.Interceptors.Sound.{IsSound}
use kedr_callback_operations.Interceptors.Stopping.{Stops, IsStopped, stop-Stops}
use kedr_callback_operations.Interceptors.Starting.{StartEnds}
use kedr_callback_operations.Interceptors.Reach.{
  Reachable, created, next, starts, creates_factory, Reachable-IsSound,
}
use kedr_callback_operations.Interceptors.Guards.{
  Passes, Reachable-Passes, Reachable-start, IsLoose, Reachable-destroy,
}
use kedr_callback_operations.Tests.Data.{
  open_operation, fair, two_operations, one_operation, two_operations-IsIdle, one_operation-IsIdle,
}

abbrev numbered : Instrumentors ℕ
numbered = record {
  create = λ size replacements selector s. (some (s.0 + 1), (s.0 + 1, s.1));
  destroy = λ n s. ([], s);
  watch = λ n object ops_p s. (success, s);
  watch_direct = λ n object s. (success, s);
  forget = λ n object ops_p s. (success, s);
  forget_direct = λ n object norestore s. (success, s);
  get_orig_operation = λ n object ops offset s. (success, 0);
  foreign_create = λ n replacements s. (some (s.0 + 1), (s.0 + 1, s.1));
  foreign_destroy = λ n s. ([], s);
  foreign_watch = λ n id tie ops_p s. (success, s);
  foreign_forget = λ n id ops_p s. (success, s);
  foreign_bind = λ n object factory ops_p offset s. (success, 0, 0, s);
  read = λ w p. 0;
  is_err = λ p. false;
  module_address = λ p. true;
}

abbrev intermediate : Intermediate
intermediate = record { operation_offset = 8; repl = 1000; group_id = 1; internal_only = false }

abbrev second : Intermediate
second = record { operation_offset = 16; repl = 1000; group_id = 1; internal_only = false }

abbrev bare : OperationPayloads
bare = record two_operations { payload_elems = [] }

-- Created, with a factory interceptor, before any payload.
abbrev fresh : Interceptor
fresh = record {
  state = initialized;
  instrumentor = none;
  operations_field_offset = 24;
  payloads = bare;
  factory_interceptors = [];
  operations_struct_size = 32;
  replace_at_place = λ ops. false;
  trace_unforgotten_object = none;
}

abbrev after_creation : Kernel
after_creation = record { answer = λ n. true; asked = 3; allocated = 13; module_refs = λ m. 0 }

fresh-Reachable : Reachable numbered fresh
unfolding kedr_coi_interceptor_create_common operation_payloads_init
fresh-Reachable =
    created 24 32 (λ ops. false) (some (intermediate ∷ second ∷ [])) fair after_creation refl

abbrev factory : FactoryInterceptor
factory = record {
  self = 500;
  state = initialized;
  instrumentor = none;
  factory_operations_field_offset = 40;
  payloads = record one_operation { payload_elems = [] };
  interceptor_binded = true;
  trace_unforgotten_object = none;
}

abbrev with_factory : Interceptor
with_factory = record fresh { factory_interceptors = factory ∷ [] }

with_factory-Reachable : Reachable numbered with_factory
unfolding kedr_coi_factory_interceptor_create_common operation_payloads_init
with_factory-Reachable = next fresh-Reachable (
    creates_factory 500 40 (some (intermediate ∷ [])) (some factory) fair
      (record fair { asked = 2; allocated = 12 }) refl)

Reachable-IsSound_example : IsSound with_factory
Reachable-IsSound_example = Reachable-IsSound numbered with_factory-Reachable

bare-IsIdle : IsIdle bare
bare-IsIdle = record {
  checked = record { distinct = tt; allowed = tt };
  offsets = two_operations-IsIdle.offsets;
  quiet = (refl, (refl, tt));
  unfixed = tt;
  unused = refl;
  no_used = refl;
}

factory-IsIdle : IsIdle factory.payloads
factory-IsIdle = record {
  checked = record { distinct = tt; allowed = tt };
  offsets = one_operation-IsIdle.offsets;
  quiet = (refl, tt);
  unfixed = tt;
  unused = refl;
  no_used = refl;
}

Reachable-start_example :
    StartEnds numbered ⊥ (kedr_coi_interceptor_start numbered with_factory (0, fair))
Reachable-start_example =
    Reachable-start numbered (0, fair) with_factory-Reachable refl bare-IsIdle
      ((factory-IsIdle, refl), tt)

abbrev running : Interceptor
running = record with_factory {
  state = started;
  instrumentor = some 1;
  payloads = record bare { is_used = true };
  factory_interceptors =
      record factory {
        state = started;
        instrumentor = some 2;
        payloads = record factory.payloads { is_used = true };
      }
      ∷ [];
}

stop-Stops_example :
    Stops numbered (IsStopped numbered) (kedr_coi_interceptor_stop numbered running (2, fair))
stop-Stops_example =
    stop-Stops numbered running (2, fair) refl
      (record {
        kept = ((1, refl), refl);
        factories = (record { same = refl; kept = ((2, refl), refl) }, tt);
      })

Reachable-destroy_example :
    (k : Kernel) × (kedr_coi_interceptor_destroy with_factory fair
      ≡ done (map disconnect (factory ∷ []), k))
    × All (IsLoose numbered fair) (map disconnect (factory ∷ []))
Reachable-destroy_example = Reachable-destroy numbered fair fair with_factory-Reachable refl

-- What the start makes of `with_factory`.
abbrev launched : Interceptor
launched = record running {
  factory_interceptors =
      record factory {
        state = started;
        instrumentor = some 2;
        payloads = record factory.payloads {
          is_used = true;
          operations =
              record open_operation { is_intercepted = true; default_is_intercepted = true } ∷ [];
          replacements =
              some (record { operation_offset = 8; repl = 1000; mode = replace_all } ∷ []);
        };
      }
      ∷ [];
}

launched-Reachable : Reachable numbered launched
unfolding finish_start start_factories start_used factory_interceptor_start
    operation_payloads_get_replacements operation_payloads_use kedr_coi_interceptor_start
launched-Reachable =
    next with_factory-Reachable
      (starts success (0, fair) (2, record fair { asked = 3; allocated = 11 }) refl)

Reachable-Passes_example :
    let ops_p = indirect_operations_p 900 launched.operations_field_offset in
    Passes launched
      (2, fair)
      (λ n. numbered.watch_direct n 900 (2, fair))
      (λ n. numbered.watch n 900 ops_p (2, fair))
      (kedr_coi_interceptor_watch numbered launched 900 (2, fair))
    × Passes launched
        (2, fair)
        (λ n. numbered.forget_direct n 900 false (2, fair))
        (λ n. numbered.forget n 900 (some ops_p) (2, fair))
        (kedr_coi_interceptor_forget numbered launched 900 (2, fair))
    × Passes launched
        (2, fair)
        (λ n. numbered.forget_direct n 900 true (2, fair))
        (λ n. numbered.forget n 900 none (2, fair))
        (kedr_coi_interceptor_forget_norestore numbered launched 900 (2, fair))
Reachable-Passes_example = Reachable-Passes numbered 900 (2, fair) launched-Reachable
