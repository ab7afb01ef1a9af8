-- ===== src/QNet/Linearity/Uses.antt =====
-- When the linearity check fails.
use qoala_mlir.Common.{ℕ, ◌+◌, ◌≤◌, List, [], ◌∷◌, ◌++◌, ◌==◌, if◌then◌else◌, All}
use qoala_mlir.QNet.Linearity.{
  Kind, gate_x, gate_y, gate_z, rot_x_int, rot_y_int, rot_z_int, crot_x_int, other, Operation,
}

-- All operands of the operations, in their order.
abbrev pub all_operands : List Operation → List ℕ
all_operands [] = []
all_operands (op ∷ ops) = op.operands ++ all_operands ops

abbrev pub occurrences : ℕ → List ℕ → ℕ
occurrences v [] = 0
occurrences v (x ∷ xs) = (if x == v then 1 else 0) + occurrences v xs

-- What the check leaves out: the Pauli gates, the integer rotations, and operations without qubits.
pub data IsExempt : Kind → Type 0 where
  pauli_x : IsExempt gate_x
  pauli_y : IsExempt gate_y
  pauli_z : IsExempt gate_z
  int_x : IsExempt rot_x_int
  int_y : IsExempt rot_y_int
  int_z : IsExempt rot_z_int
  int_controlled : IsExempt crot_x_int
  classical : IsExempt other

-- The results of all other operations, qubits and measured bits, occur at most once as operands.
abbrev pub IsLinear : List Operation → List Operation → Type 0
IsLinear all_ops ops =
    All
      (λ (op : Operation).
        ¬ IsExempt op.kind → All (λ v. occurrences v (all_operands all_ops) ≤ 1) op.results)
      ops
