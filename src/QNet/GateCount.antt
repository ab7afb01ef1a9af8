-- ===== src/QNet/GateCount.antt =====
-- lib/Analysis/QNet/GateCount.cpp: the gates of the worst case through a qnet.func. A Value is a number,
-- a DenseMap is an association list that is extended at the front, and a failed assertion is `none`.
pub mod Scope
pub mod Worst
use qoala_mlir.Common.{
  ℕ, suc, ◌+◌, ◌%◌, ◌^◌, Bool, true, false, List, [], ◌∷◌, Option, none, some, ◌>>=◌, ◌==◌,
  if◌then◌else◌, leb,
}

-- An operation, as TypeSwitch tells them apart. `scf_if` without an else region is `scf_if_then`.
mutual
  pub data Op : Type 0 where
    new_qubits : List ℕ → Op
    gate : Bool → List ℕ → List ℕ → Op
    scf_if : List ℕ → Ops → Ops → Op
    scf_if_then : List ℕ → Ops → Op
    other : Op

  -- The block of a region, with the operands of its terminator.
  pub data Ops : Type 0 where
    yields : List ℕ → Ops
    op_then : Op → Ops → Ops

pub record BranchCounts : Type 0 where
  pub gate_count : ℕ
  pub one_qubit_gate_count : ℕ
  pub two_qubit_gate_count : ℕ
  pub detailed_gate_count : List (ℕ × ℕ)
  pub detailed_one_qubit_gate_count : List (ℕ × ℕ)
  pub detailed_two_qubit_gate_count : List (ℕ × ℕ)
  pub op_res_to_id : List (ℕ × ℕ)

abbrev pub no_gates : BranchCounts
no_gates = record {
  gate_count = 0;
  one_qubit_gate_count = 0;
  two_qubit_gate_count = 0;
  detailed_gate_count = [];
  detailed_one_qubit_gate_count = [];
  detailed_two_qubit_gate_count = [];
  op_res_to_id = [];
}

abbrev pub increment : ℕ → ℕ
increment n = (n + 1) % 2 ^ 32

unfoldable pub lookup : ℕ → List (ℕ × ℕ) → Option ℕ
lookup k [] = none
lookup k ((j, v) ∷ m) = if j == k then some v else lookup k m

-- m[k]++, where a missing entry counts as 0.
unfoldable pub count_at : ℕ → List (ℕ × ℕ) → List (ℕ × ℕ)
unfolding lookup
count_at k m = elim (lookup k m) [ none ↦ (k, 1) ∷ m | some n ↦ (k, increment n) ∷ m ]

-- The branch for NewQubitOp and EprsOp.
unfoldable pub visit_new_qubits : List ℕ → ℕ → BranchCounts → ℕ × BranchCounts
visit_new_qubits [] q_id s = (q_id, s)
visit_new_qubits (result ∷ results) q_id s = visit_new_qubits results (increment q_id) (record s {
  op_res_to_id = (result, q_id) ∷ s.op_res_to_id;
  detailed_one_qubit_gate_count = (q_id, 0) ∷ s.detailed_one_qubit_gate_count;
  detailed_two_qubit_gate_count = (q_id, 0) ∷ s.detailed_two_qubit_gate_count;
  detailed_gate_count = (q_id, 0) ∷ s.detailed_gate_count;
})

abbrev pub count_operand : Bool → ℕ → ℕ → BranchCounts → BranchCounts
count_operand two_qubit init_id result s =
    if two_qubit
    then record s {
      detailed_gate_count = count_at init_id s.detailed_gate_count;
      detailed_two_qubit_gate_count = count_at init_id s.detailed_two_qubit_gate_count;
      op_res_to_id = (result, init_id) ∷ s.op_res_to_id;
    }
    else record s {
      detailed_gate_count = count_at init_id s.detailed_gate_count;
      detailed_one_qubit_gate_count = count_at init_id s.detailed_one_qubit_gate_count;
      op_res_to_id = (result, init_id) ∷ s.op_res_to_id;
    }

-- The loop over operands and results, which stops with the shorter of the two.
unfoldable pub visit_operands : Bool → List ℕ → List ℕ → BranchCounts → Option BranchCounts
unfolding lookup count_at
visit_operands two_qubit (operand ∷ operands) (result ∷ results) s =
    lookup operand s.op_res_to_id >>= λ init_id.
    visit_operands two_qubit operands results (count_operand two_qubit init_id result s)
visit_operands two_qubit _ _ s = some s

unfoldable pub visit_gate : Bool → List ℕ → List ℕ → BranchCounts → Option BranchCounts
unfolding visit_operands
visit_gate two_qubit operands results s = visit_operands two_qubit operands results (
    if two_qubit
    then record s {
      gate_count = increment s.gate_count;
      two_qubit_gate_count = increment s.two_qubit_gate_count;
    }
    else record s {
      gate_count = increment s.gate_count;
      one_qubit_gate_count = increment s.one_qubit_gate_count;
    })

unfoldable pub terminator : Ops → List ℕ
terminator (yields values) = values
terminator (op_then op ops) = terminator ops

-- The last loop of visitScfIfOp.
unfoldable pub map_results : List ℕ → List ℕ → List (ℕ × ℕ) → List (ℕ × ℕ)
unfolding lookup
map_results (result ∷ results) (value ∷ values) m =
    map_results results values (elim (lookup value m) [ none ↦ m | some id ↦ (result, id) ∷ m ])
map_results _ _ m = m

-- The branch with more gates, the then-branch among equals, and its yields.
unfoldable pub select_branch : List ℕ → Ops → Ops → BranchCounts → BranchCounts → BranchCounts
unfolding map_results terminator
select_branch results then_ops else_ops then_state else_state =
    if leb else_state.gate_count then_state.gate_count
    then record then_state {
      op_res_to_id = map_results results (terminator then_ops) then_state.op_res_to_id;
    }
    else record else_state {
      op_res_to_id = map_results results (terminator else_ops) else_state.op_res_to_id;
    }

unfoldable mutual
  unfolding visit_new_qubits visit_gate select_branch map_results terminator

  pub visit_op : Op → ℕ → BranchCounts → Option (ℕ × BranchCounts)
  visit_op (new_qubits results) q_id s = some (visit_new_qubits results q_id s)
  visit_op (gate two_qubit operands results) q_id s =
      visit_gate two_qubit operands results s >>= λ s'. some (q_id, s')
  visit_op (scf_if results then_ops else_ops) q_id s =
      -- the else region goes on with the qubit id that the then region has left
      visit_operations_in_region then_ops 0 s >>= λ (t, then_state).
      visit_operations_in_region else_ops t s >>= λ (e, else_state).
      some (q_id, select_branch results then_ops else_ops then_state else_state)
  visit_op (scf_if_then results then_ops) q_id s =
      visit_operations_in_region then_ops 0 s >>= λ (t, then_state).
      if leb s.gate_count then_state.gate_count
      then some (
        q_id,
        record then_state {
          op_res_to_id = map_results results (terminator then_ops) then_state.op_res_to_id;
        },
      )
      -- front() of the empty else region
      else none
  visit_op other q_id s = some (q_id, s)

  pub visit_operations_in_region : Ops → ℕ → BranchCounts → Option (ℕ × BranchCounts)
  visit_operations_in_region (yields values) q_id s = some (q_id, s)
  visit_operations_in_region (op_then op ops) q_id s =
      visit_op op q_id s >>= λ (q_id', s'). visit_operations_in_region ops q_id' s'
