-- ===== src/QNet/Linearity.antt =====
-- lib/Analysis/QNet/CheckLinear.cpp: each qubit value has at most one use. The operations of the module
-- stand in the order of the walk; values and operations are numbers.
pub mod Uses
mod Checks
use qoala_mlir.Common.{
  ℕ, Bool, true, false, not, ◌&&◌, List, [], ◌∷◌, ◌++◌, ◌==◌, if◌then◌else◌, length, leb,
}

pub data Kind : Type 0 where
  new_qubit rot_x rot_y rot_z hadamard gate_x gate_y gate_z cnot cz crot_x : Kind
  rot_x_int rot_y_int rot_z_int crot_x_int : Kind
  measure eprs eprs_measure other : Kind

pub record Operation : Type 0 where
  pub id : ℕ
  pub kind : Kind
  pub operands : List ℕ
  pub results : List ℕ

abbrev pub is_quantum_op : Kind → Bool
is_quantum_op gate_x = false
is_quantum_op gate_y = false
is_quantum_op gate_z = false
is_quantum_op rot_x_int = false
is_quantum_op rot_y_int = false
is_quantum_op rot_z_int = false
is_quantum_op crot_x_int = false
is_quantum_op other = false
is_quantum_op _ = true

-- The owners of the uses of a value, once for each use, in the order of the program; the order that MLIR
-- keeps them in is left out.
unfoldable pub owners : ℕ → List ℕ → ℕ → List ℕ
owners op [] v = []
owners op (operand ∷ operands) v =
    if operand == v then op ∷ owners op operands v else owners op operands v

unfoldable pub get_uses : List Operation → ℕ → List ℕ
unfolding owners
get_uses [] v = []
get_uses (op ∷ ops) v = owners op.id op.operands v ++ get_uses ops v

-- The operations with an error, and whether the pass goes on without a failure.
abbrev pub Report : Type 0
Report = List ℕ × Bool

-- `hasOneUse` or `use_empty`.
unfoldable pub check_results : List Operation → List ℕ → Report → Report
unfolding get_uses
check_results all_ops [] report = report
check_results all_ops (v ∷ results) report = check_results all_ops results (
    if leb (length (get_uses all_ops v)) 1 then report else (report.0 ++ get_uses all_ops v, false))

unfoldable pub check_operations : List Operation → List Operation → Report → Report
unfolding check_results
check_operations all_ops [] report = report
check_operations all_ops (op ∷ ops) report =
    check_operations all_ops ops
      (if is_quantum_op op.kind then check_results all_ops op.results report else report)

unfoldable pub run_on_operation : List Operation → Report
unfolding check_operations
run_on_operation ops = check_operations ops ops ([], true)
