-- ===== src/QoalaHost/GateCount.antt =====
-- lib/Analysis/QoalaHost/GateCount.cpp: the gates of a callee, counted per qubit. Values, qubit
-- identifiers and blocks are numbers, maps are association lists whose newest entry is found, counters are
-- uint32_t, and a failed assertion is `none`.
pub mod Traverse
pub mod Trace
pub mod Drain
pub mod Traced
pub mod Balance
pub mod Totals
mod Checks
use qoala_mlir.Common.{
  ℕ, zero, suc, ◌+◌, ◌%◌, ◌^◌, Bool, true, false, not, ◌&&◌, List, [], ◌∷◌, Option, none, some,
  ◌>>=◌, ◌==◌, if◌then◌else◌, elem, leb,
}

-- The operations of a callee, with the qubit operands that the cases read; `init` is also eprs.
pub data GateOp : Type 0 where
  measure init one_qubit : ℕ → GateOp
  two_qubit : List ℕ → GateOp
  other : GateOp

-- The operations are in the order of the walk. `returned` is the first netqasm.return, where there is one.
pub record Callee : Type 0 where
  pub args : List ℕ
  pub ops : List GateOp
  pub returned : Option (List ℕ)

pub record Call : Type 0 where
  pub callee : Callee
  pub operands : List ℕ
  pub results : List ℕ

abbrev pub Map : Type 0
Map = List (ℕ × ℕ)

unfoldable pub lookup : Map → ℕ → Option ℕ
lookup [] k = none
lookup ((j, v) ∷ m) k = if j == k then some v else lookup m k

-- operator[] makes an entry that is 0.
unfoldable pub count_of : Map → ℕ → ℕ
count_of [] k = 0
count_of ((j, v) ∷ m) k = if j == k then v else count_of m k

abbrev pub put : Map → ℕ → ℕ → Map
put m k v = (k, v) ∷ m

abbrev pub plus : ℕ → ℕ → ℕ
plus a b = (a + b) % 2 ^ 32

unfoldable pub add : Map → ℕ → ℕ → Map
unfolding count_of
add m k n = put m k (plus (count_of m k) n)

pub record GateCountState : Type 0 where
  pub qubit_ids : Map
  pub temp_one_qubit_gate_count : Map
  pub gate_count : ℕ
  pub one_qubit_gate_count : ℕ
  pub two_qubit_gate_count : ℕ
  pub detailed_gate_count : Map
  pub detailed_one_qubit_gate_count : Map
  pub detailed_two_qubit_gate_count : Map

abbrev pub no_gates : GateCountState
no_gates = record {
  qubit_ids = [];
  temp_one_qubit_gate_count = [];
  gate_count = 0;
  one_qubit_gate_count = 0;
  two_qubit_gate_count = 0;
  detailed_gate_count = [];
  detailed_one_qubit_gate_count = [];
  detailed_two_qubit_gate_count = [];
}

-- try_emplace keeps the entry of a key that is there.
unfoldable pub try_emplace : Map → ℕ → ℕ → Map
unfolding lookup
try_emplace m k v = elim (lookup m k) [ none ↦ put m k v | some old ↦ m ]

-- The results of the call, in the order of the returned values.
unfoldable pub map_return_val_to_caller : Map → List ℕ → List ℕ → Option Map
unfolding try_emplace
map_return_val_to_caller m [] results = some m
map_return_val_to_caller m (v ∷ returned) [] = none
map_return_val_to_caller m (v ∷ returned) (r ∷ results) =
    map_return_val_to_caller (try_emplace m v r) returned results

-- getRoutineArgVals: as many operands as arguments, and no value twice.
unfoldable pub get_routine_arg_values : List ℕ → List ℕ → Option Map
get_routine_arg_values [] [] = some []
get_routine_arg_values [] (v ∷ operands) = none
get_routine_arg_values (a ∷ args) [] = none
get_routine_arg_values (a ∷ args) (v ∷ operands) =
    if elem v operands
    then none
    else if elem a args
    then none
    else get_routine_arg_values args operands >>= λ m. some (put m a v)

unfoldable pub flush_temp_one_qubit_count : ℕ → GateCountState → GateCountState
unfolding lookup add
flush_temp_one_qubit_count q s = elim (lookup s.temp_one_qubit_gate_count q) [
  | none ↦ s
  | some n ↦ if n == 0 then s else record s {
    gate_count = plus s.gate_count n;
    one_qubit_gate_count = plus s.one_qubit_gate_count n;
    detailed_gate_count = add s.detailed_gate_count q n;
    detailed_one_qubit_gate_count = add s.detailed_one_qubit_gate_count q n;
    temp_one_qubit_gate_count = put s.temp_one_qubit_gate_count q 0;
  }
]

-- The inner `none` is std::nullopt.
unfoldable pub get_call_val_from_callee : ℕ → List ℕ → Map → Map → Option (Option ℕ)
unfolding lookup
get_call_val_from_callee qubit args values_arg_map returned =
    if elem qubit args
    then (lookup values_arg_map qubit >>= λ v. some (some v))
    else some (lookup returned qubit)

unfoldable pub get_qubit_id : ℕ → Map → List ℕ → Map → Map → Option ℕ
unfolding lookup get_call_val_from_callee
get_qubit_id operand qubit_ids args values_arg_map returned = do
  call_val ← get_call_val_from_callee operand args values_arg_map returned
  value ← call_val
  lookup qubit_ids value

-- The counters of a new qubit.
unfoldable pub reset_counts : ℕ → GateCountState → GateCountState
reset_counts q s = record s {
  temp_one_qubit_gate_count = put s.temp_one_qubit_gate_count q 0;
  detailed_one_qubit_gate_count = put s.detailed_one_qubit_gate_count q 0;
  detailed_two_qubit_gate_count = put s.detailed_two_qubit_gate_count q 0;
  detailed_gate_count = put s.detailed_gate_count q 0;
}

-- The two-qubit gate of an operand.
unfoldable pub count_two_qubit : ℕ → GateCountState → GateCountState
unfolding add
count_two_qubit q s = record s {
  detailed_gate_count = add s.detailed_gate_count q 1;
  detailed_two_qubit_gate_count = add s.detailed_two_qubit_gate_count q 1;
}

module _ (args : List ℕ) (values_arg_map : Map) where
  -- The operands of a two-qubit gate, all of them.
  unfoldable pub count_operands : List ℕ → Map → GateCountState → Option GateCountState
  unfolding get_qubit_id count_two_qubit flush_temp_one_qubit_count
  count_operands [] returned s = some s
  count_operands (operand ∷ operands) returned s = do
    q ← get_qubit_id operand s.qubit_ids args values_arg_map returned
    count_operands operands returned (flush_temp_one_qubit_count q (count_two_qubit q s))

  -- One operation of the callee; `q_id` is the identifier that an initialisation here gives.
  unfoldable pub process_op : ℕ → GateOp → Map → GateCountState → Option (Map × GateCountState)
  unfolding get_call_val_from_callee get_qubit_id flush_temp_one_qubit_count reset_counts add
      count_operands
  process_op q_id (measure operand) returned s = do
    q ← get_qubit_id operand s.qubit_ids args values_arg_map returned
    some (returned, flush_temp_one_qubit_count q s)
  process_op q_id (init operand) returned s =
      get_call_val_from_callee operand args values_arg_map returned >>= λ call_val. elim call_val [
        | some new_qubit ↦
            some (
              returned,
              reset_counts q_id (record s { qubit_ids = put s.qubit_ids new_qubit q_id }),
            )
        | none ↦ some (
          put returned operand operand,
          reset_counts q_id (record s { qubit_ids = put s.qubit_ids operand q_id }),
        )
      ]
  process_op q_id (one_qubit operand) returned s = do
    q ← get_qubit_id operand s.qubit_ids args values_arg_map returned
    some (returned, record s { temp_one_qubit_gate_count = add s.temp_one_qubit_gate_count q 1 })
  process_op q_id (two_qubit operands) returned s = do
    counted ← count_operands operands returned (record s {
      gate_count = plus s.gate_count 1;
      two_qubit_gate_count = plus s.two_qubit_gate_count 1;
    })
    some (returned, counted)
  process_op q_id other returned s = some (returned, s)

  -- The walk; `qubit_id` is the block's identifier, "::" and the index of an operation.
  unfoldable pub process_ops :
      (ℕ → ℕ) → ℕ → List GateOp → Map → GateCountState → Option GateCountState
  unfolding process_op
  process_ops qubit_id op_idx [] returned s = some s
  process_ops qubit_id op_idx (op ∷ ops) returned s = do
    next ← process_op (qubit_id op_idx) op returned s
    process_ops qubit_id (suc op_idx) ops next.0 next.1

unfoldable pub process_callee_gates : (ℕ → ℕ) → Call → GateCountState → Option GateCountState
unfolding get_routine_arg_values map_return_val_to_caller process_ops
process_callee_gates qubit_id call s = do
  values_arg_map ← get_routine_arg_values call.callee.args call.operands
  return_values ← call.callee.returned
  returned ← map_return_val_to_caller [] return_values call.results
  process_ops call.callee.args values_arg_map qubit_id 1 call.callee.ops returned s
