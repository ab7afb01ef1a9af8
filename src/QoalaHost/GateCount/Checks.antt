-- ===== src/QoalaHost/GateCount/Checks.antt =====
-- The theorems about the gate count at a region with a conditional branch.
use qoala_mlir.Common.{
  ℕ, ◌+◌, ◌*◌, ◌≡◌, refl, true, List, [], ◌∷◌, Option, none, some, ◌==◌, if◌then◌else◌, elem, inl,
  inr,
}
use qoala_mlir.QoalaHost.Graph.{contains_key, deps_of}
use qoala_mlir.QoalaHost.Traversal.{BlockPrerequisites}
use qoala_mlir.QoalaHost.GateCount.{
  init, one_qubit, two_qubit, Call, GateCountState, no_gates, count_operands, get_qubit_id,
}
use qoala_mlir.QoalaHost.GateCount.Traverse.{
  BlockOp, call, cond_branch, plain, get_terminator, process_block, count_gates,
}
use qoala_mlir.QoalaHost.GateCount.Trace.{Trace, IsClosed}
use qoala_mlir.QoalaHost.GateCount.Balance.{IsBalanced, count_operands-untracked}
use qoala_mlir.QoalaHost.GateCount.Totals.{count_gates-Trace, count_gates-IsBalanced}

abbrev identify : ℕ → ℕ → ℕ
identify b i = 100 * b + i

abbrev region : List ℕ
region = 0 ∷ 1 ∷ 2 ∷ 3 ∷ []

-- Allocates a qubit and returns it.
abbrev allocate : ℕ → Call
allocate result = record {
  callee = record { args = []; ops = init 50 ∷ []; returned = some (50 ∷ []) };
  operands = [];
  results = result ∷ [];
}

-- A rotation, then a controlled gate, then a rotation that is not counted.
abbrev entangle : Call
entangle = record {
  callee = record {
    args = 60 ∷ 61 ∷ [];
    ops = one_qubit 60 ∷ two_qubit (60 ∷ 61 ∷ []) ∷ one_qubit 61 ∷ [];
    returned = some [];
  };
  operands = 10 ∷ 11 ∷ [];
  results = [];
}

abbrev contents : ℕ → List BlockOp
contents b =
    if b == 0
    then call (allocate 10) ∷ plain ∷ []
    else if b == 1
    then call (allocate 11) ∷ cond_branch 2 3 ∷ []
    else if b == 2
    then call entangle ∷ plain ∷ []
    else plain ∷ []

abbrev prereqs : BlockPrerequisites
prereqs = record { predecessors = []; dependencies = [] }

abbrev counted : GateCountState
counted = record {
  qubit_ids = (11, 101) ∷ (10, 1) ∷ [];
  temp_one_qubit_gate_count = (101, 1) ∷ (1, 0) ∷ (1, 1) ∷ (101, 0) ∷ (1, 0) ∷ [];
  gate_count = 2;
  one_qubit_gate_count = 1;
  two_qubit_gate_count = 1;
  detailed_gate_count = (101, 1) ∷ (1, 2) ∷ (1, 1) ∷ (101, 0) ∷ (1, 0) ∷ [];
  detailed_one_qubit_gate_count = (1, 1) ∷ (101, 0) ∷ (1, 0) ∷ [];
  detailed_two_qubit_gate_count = (101, 1) ∷ (1, 1) ∷ (101, 0) ∷ (1, 0) ∷ [];
}

-- The branch to block 2 is the worse one.
gates_counted : count_gates identify region contents prereqs 0 ≡ some (2 ∷ 1 ∷ 0 ∷ [], some counted)
unfolding count_gates contains_key deps_of
gates_counted = refl

region-IsClosed : IsClosed region (λ b. get_terminator (contents b))
unfolding get_terminator
region-IsClosed = (tt, ((refl, (refl, tt)), (tt, (tt, tt))))

count_gates-Trace_example :
    (visited : List ℕ) × (s : Option GateCountState) × (count_gates identify region contents prereqs
        0
      ≡ some (visited, s))
    × Trace (λ b. process_block (identify b) (contents b)) region [] (some no_gates) visited s
    × (elem 0 visited ≡ true)
count_gates-Trace_example =
    count_gates-Trace identify region contents prereqs 0 region-IsClosed refl

count_gates-IsBalanced_example : IsBalanced counted
count_gates-IsBalanced_example =
    count_gates-IsBalanced identify region contents prereqs 0 region-IsClosed refl (2 ∷ 1 ∷ 0 ∷ [])
      counted gates_counted

-- A crot_x by the angle of the argument 62, for which the caller passes 12.
count_operands-untracked_example :
    count_operands
      (60 ∷ 61 ∷ 62 ∷ [])
      ((60, 10) ∷ (61, 11) ∷ (62, 12) ∷ [])
      (60 ∷ 61 ∷ 62 ∷ [])
      []
      counted
    ≡ none
unfolding get_qubit_id
count_operands-untracked_example =
    count_operands-untracked (60 ∷ 61 ∷ 62 ∷ []) ((60, 10) ∷ (61, 11) ∷ (62, 12) ∷ []) 62
      (60 ∷ 61 ∷ 62 ∷ []) [] counted (inr (inr (inl refl))) refl
