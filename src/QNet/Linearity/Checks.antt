-- ===== src/QNet/Linearity/Checks.antt =====
-- The linearity check at programs that use a qubit twice.
use qoala_mlir.Common.{◌≡◌, refl, true, false, List, [], ◌∷◌}
use qoala_mlir.QNet.Linearity.{
  Kind, new_qubit, hadamard, gate_x, measure, Operation, run_on_operation,
}

-- The result of a gate is measured twice.
abbrev twice : Kind → List Operation
twice gate =
    record { id = 0; kind = new_qubit; operands = []; results = 10 ∷ [] }
    ∷ record { id = 1; kind = gate; operands = 10 ∷ []; results = 11 ∷ [] }
    ∷ record { id = 2; kind = measure; operands = 11 ∷ []; results = 12 ∷ [] }
    ∷ record { id = 3; kind = measure; operands = 11 ∷ []; results = 13 ∷ [] }
    ∷ []

fails_for_hadamard : run_on_operation (twice hadamard) ≡ (2 ∷ 3 ∷ [], false)
unfolding run_on_operation
fails_for_hadamard = refl

-- X is not among the operations that the check looks at.
passes_for_x : run_on_operation (twice gate_x) ≡ ([], true)
unfolding run_on_operation
passes_for_x = refl
