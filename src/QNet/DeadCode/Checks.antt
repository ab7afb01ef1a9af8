-- ===== src/QNet/DeadCode/Checks.antt =====
-- The theorems about the dead code elimination at a program that measures one qubit of two.
use qoala_mlir.Common.{◌≡◌, ◌↔◌, refl, Bool, true, false, not, List, [], ◌∷◌, some, keep}
use qoala_mlir.QNet.DeadCode.{
  Operation, new_qubit, gate, measure, qnet_return, measurement_result_is_observed,
  run_on_operation, is_dead,
}
use qoala_mlir.QNet.DeadCode.Observed.{IsObserved, measurement_result_is_observed_lem}

abbrev program : List Operation
program =
    record {
      id = 0;
      kind = new_qubit;
      operands = [];
      results = 10 ∷ [];
      is_terminator = false;
      has_effects = false;
    }
    ∷ record {
      id = 1;
      kind = gate;
      operands = 10 ∷ [];
      results = 11 ∷ [];
      is_terminator = false;
      has_effects = false;
    }
    ∷ record {
      id = 2;
      kind = new_qubit;
      operands = [];
      results = 12 ∷ [];
      is_terminator = false;
      has_effects = false;
    }
    ∷ record {
      id = 3;
      kind = gate;
      operands = 12 ∷ [];
      results = 13 ∷ [];
      is_terminator = false;
      has_effects = false;
    }
    ∷ record {
      id = 4;
      kind = measure 14;
      operands = 11 ∷ [];
      results = 14 ∷ [];
      is_terminator = false;
      has_effects = false;
    }
    ∷ record {
      id = 5;
      kind = qnet_return;
      operands = 14 ∷ [];
      results = [];
      is_terminator = true;
      has_effects = false;
    }
    ∷ []

eliminated :
    run_on_operation true program ≡ some (keep (λ o. not (is_dead true (0 ∷ 1 ∷ 4 ∷ []) o)) program)
unfolding run_on_operation
eliminated = refl

measurement_result_is_observed_lem_example :
    (observed : Bool) × (measurement_result_is_observed program 14 ≡ some observed)
    × ((observed ≡ true) ↔ IsObserved program 14)
measurement_result_is_observed_lem_example = measurement_result_is_observed_lem program 14
