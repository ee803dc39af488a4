-- ===== src/Foreign/Chain.antt =====
-- The chain of foreign data: creation at its end, lookup, the operations for a bind, and destruction
-- at any place, which gives each operation back to what would stand there without it.
use kedr_callback_operations.Prelude.{
  ℕ, Bool, true, false, Option, none, some, List, [], ◌∷◌, ◌++◌, map, ◌==◌, if◌then◌else◌,
}
use kedr_callback_operations.Kernel.{Code, success, fail, enomem, kmalloc, kfree}
use kedr_callback_operations.Payloads.Types.{Replacement}
use kedr_callback_operations.Instrumentation.Replace.{
  put, replace_operation_generic, replace_operation,
}
use kedr_callback_operations.Instrumentation.Place.{write}
use kedr_callback_operations.Instrumentor.{Instrumentor, at}
use kedr_callback_operations.Instrumentor.Data.{
  instrument_data_get_repl_operations, instrument_data_get_orig_operations,
  instrument_data_get_orig_operation, instrument_data_unref, instrument_data_unref_norestore,
}
use kedr_callback_operations.Foreign.{ForeignData, Foreign}

abbrev pub write_op : (ops offset op : ℕ) → Instrumentor → Instrumentor
write_op ops offset op m = record m {
  state = record (m.state) {
    memory = write m.state.memory ops (put (m.state.memory ops) offset op);
  };
}

-- The loops over replacements: the new value at the offset of each one, in the replaced operations
-- `ops` of the data at `a`, from the original operation and from what stands there.
unfoldable pub for_each_replacement :
    (Replacement → (op_orig op : ℕ) → ℕ)
    → List Replacement
    → (a ops : ℕ) → Instrumentor
    → Instrumentor
unfolding instrument_data_get_orig_operation
for_each_replacement change [] a ops m = m
for_each_replacement change (r ∷ rs) a ops m =
    let off = r.operation_offset in
    let op = change r (instrument_data_get_orig_operation m a off) (m.state.memory ops off) in
    for_each_replacement change rs a ops (write_op ops off op m)

-- The loop of the creation.
unfoldable pub foreign_replace : List Replacement → (a ops : ℕ) → Instrumentor → Instrumentor
unfolding for_each_replacement replace_operation_generic
foreign_replace rs a ops m =
    for_each_replacement (λ r op_orig op. replace_operation_generic op op_orig r) rs a ops m

-- `n` is the foreign instrumentor, `address` what kmalloc would return.
unfoldable pub apf_idata_ops_create_foreign_data :
    (address a n : ℕ) → Foreign → Code × Option ℕ × Foreign
unfolding foreign_replace instrument_data_get_repl_operations
apf_idata_ops_create_foreign_data address a n s =
    let (ok, k) = kmalloc s.normal.state.kernel in
    let m : Instrumentor = record (s.normal) { state = record (s.normal.state) { kernel = k } } in
    let ops = instrument_data_get_repl_operations m a in
    if ok
    then (
      success,
      some address,
      record s {
        normal = foreign_replace (s.instrumentors n).replacements a ops m;
        foreigns = at s.foreigns address (record { refs = 1; idata_binded = a; instrumentor = n });
        chains = at s.chains a (s.chains a ++ address ∷ []);
      },
    )
    else (fail enomem, none, record s { normal = m })

unfoldable pub find_in_chain : (ℕ → ForeignData) → ℕ → List ℕ → Option ℕ
find_in_chain foreigns n [] = none
find_in_chain foreigns n (f ∷ fs) =
    if (foreigns f).instrumentor == n then some f else find_in_chain foreigns n fs

unfoldable pub apf_idata_ops_find_foreign_data : (a n : ℕ) → Foreign → Option ℕ
unfolding find_in_chain
apf_idata_ops_find_foreign_data a n s = find_in_chain s.foreigns n (s.chains a)

unfoldable pub apf_idata_foreign_ops_get_repl_operations : Foreign → ℕ → ℕ
unfolding instrument_data_get_repl_operations
apf_idata_foreign_ops_get_repl_operations s f =
    instrument_data_get_repl_operations s.normal (s.foreigns f).idata_binded

-- The first replacement for the offset.
unfoldable pub replaced_normally : List Replacement → (offset op : ℕ) → ℕ
unfolding replace_operation
replaced_normally [] offset op = op
replaced_normally (r ∷ rs) offset op =
    if r.operation_offset == offset then replace_operation op r else replaced_normally rs offset op

unfoldable pub apf_idata_foreign_ops_get_normal_operation : Foreign → (f offset : ℕ) → ℕ
unfolding replaced_normally instrument_data_get_orig_operation
apf_idata_foreign_ops_get_normal_operation s f offset =
    replaced_normally s.normal.replacements offset
      (instrument_data_get_orig_operation s.normal (s.foreigns f).idata_binded offset)

-- The entries before one of a list, the last of them first.
unfoldable pub preceding_from : List ℕ → ℕ → List ℕ → List ℕ
preceding_from seen f [] = []
preceding_from seen f (g ∷ gs) = if g == f then seen else preceding_from (g ∷ seen) f gs

unfoldable pub preceding : ℕ → List ℕ → List ℕ
unfolding preceding_from
preceding f fs = preceding_from [] f fs

unfoldable pub replacements_of : Foreign → ℕ → List Replacement
replacements_of s f = (s.instrumentors (s.foreigns f).instrumentor).replacements

-- One foreign instrumentor of the chain: `op` so far, and whether it is returned.
unfoldable pub chain_through : List Replacement → (offset op_orig op : ℕ) → ℕ × Bool
unfolding replace_operation
chain_through [] offset op_orig op = (op, false)
chain_through (r ∷ rs) offset op_orig op =
    let op' = replace_operation op r in
    let later = chain_through rs offset op_orig op' in
    let rest = chain_through rs offset op_orig op in
    if r.operation_offset == offset then (if op' == op_orig then later else (op', true)) else rest

unfoldable pub chain_over : List (List Replacement) → (offset op_orig op : ℕ) → ℕ
unfolding chain_through
chain_over [] offset op_orig op = op_orig
chain_over (rs ∷ rss) offset op_orig op =
    let (op', returned) = chain_through rs offset op_orig op in
    let rest = chain_over rss offset op_orig op' in if returned then op' else rest

unfoldable pub apf_idata_foreign_ops_get_chain_operation : Foreign → (f offset : ℕ) → ℕ
unfolding chain_over preceding replacements_of instrument_data_get_orig_operation
apf_idata_foreign_ops_get_chain_operation s f offset =
    let a = (s.foreigns f).idata_binded in
    let op_orig = instrument_data_get_orig_operation s.normal a offset in
    chain_over (map (replacements_of s) (preceding f (s.chains a))) offset op_orig op_orig

-- All replacements of another one for the offset are repeated.
unfoldable pub repeat : List Replacement → (offset op_orig op : ℕ) → ℕ
unfolding replace_operation_generic
repeat [] offset op_orig op = op
repeat (r ∷ rs) offset op_orig op =
    let again = repeat rs offset op_orig (replace_operation_generic op op_orig r) in
    let rest = repeat rs offset op_orig op in if r.operation_offset == offset then again else rest

-- Until the operation is not `mine` any more.
unfoldable pub repeat_others : ℕ → List (List Replacement) → (offset op_orig op : ℕ) → ℕ
unfolding repeat
repeat_others mine [] offset op_orig op = op
repeat_others mine (rs ∷ rss) offset op_orig op =
    let op' = repeat rs offset op_orig op in
    let rest = repeat_others mine rss offset op_orig op' in if op' == mine then rest else op'

unfoldable pub repeat_normal : ℕ → List Replacement → (offset op_orig op : ℕ) → ℕ
unfolding replace_operation_generic
repeat_normal mine [] offset op_orig op = op
repeat_normal mine (r ∷ rs) offset op_orig op =
    let op' = replace_operation_generic op op_orig r in
    let again = repeat_normal mine rs offset op_orig op' in
    let rest = repeat_normal mine rs offset op_orig op in
    if r.operation_offset == offset then (if op' == mine then again else op') else rest

-- The new value of an operation where `op` stands.
unfoldable pub foreign_restore_op :
    Replacement → List (List Replacement) → List Replacement → (op_orig op : ℕ) → ℕ
unfolding repeat_others repeat_normal
foreign_restore_op r others normal op_orig op =
    let off = r.operation_offset in
    let op₁ = repeat_others r.repl others off op_orig op in
    let op₂ = repeat_normal r.repl normal off op_orig op₁ in
    if op == r.repl
    then (if op₁ == r.repl then (if op₂ == r.repl then op_orig else op₂) else op₁)
    else op

-- The loop of the destruction.
unfoldable pub foreign_restore :
    List Replacement → List (List Replacement) → (a ops : ℕ) → Instrumentor → Instrumentor
unfolding for_each_replacement foreign_restore_op
foreign_restore rs others a ops m =
    for_each_replacement (λ r op_orig op. foreign_restore_op r others m.replacements op_orig op) rs
      a ops m

unfoldable pub list_del : ℕ → List ℕ → List ℕ
list_del f [] = []
list_del f (g ∷ gs) = if g == f then gs else g ∷ list_del f gs

-- `n` is the foreign instrumentor that calls.
unfoldable pub apf_idata_foreign_ops_destroy_common :
    (ℕ → ℕ → ℕ) → (n f : ℕ) → Bool → Foreign → Foreign
unfolding foreign_restore preceding replacements_of list_del instrument_data_unref
    instrument_data_unref_norestore instrument_data_get_orig_operations
    apf_idata_foreign_ops_get_repl_operations
apf_idata_foreign_ops_destroy_common hash_ptr n f norestore s =
    let a = (s.foreigns f).idata_binded in
    let ops = apf_idata_foreign_ops_get_repl_operations s f in
    let others = map (replacements_of s) (preceding f (s.chains a)) in
    let skipped =
      if norestore then instrument_data_get_orig_operations s.normal a == ops else false in
    let m : Instrumentor =
      if skipped
      then s.normal
      else foreign_restore (s.instrumentors n).replacements others a ops s.normal in
    let m' : Instrumentor =
      if norestore
      then instrument_data_unref_norestore hash_ptr a m
      else instrument_data_unref hash_ptr a m in
    record s {
      normal = record m' { state = record (m'.state) { kernel = kfree m'.state.kernel } };
      chains = at s.chains a (list_del f (s.chains a));
    }
