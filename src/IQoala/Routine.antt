-- ===== src/IQoala/Routine.antt =====
-- Quantum routines: lib/Target/iQoala/MC/iQoalaMCRoutines.cpp. An MLIR value is a number.
pub mod Qubits
pub mod Branches
use Prim.Native.String.{String}
use qoala_mlir.Common.{
  ℕ, zero, suc, ◌+◌, ◌*◌, Bool, true, false, List, [], ◌∷◌, ◌++◌, Option, none, some, ◌>>=◌, ◌==◌,
  if◌then◌else◌, elem, keep, not, length, ◌%◌, ◌^◌,
}
use qoala_mlir.Common.Int.{ℤ, pos, ◌-ℤ◌}
use qoala_mlir.IQoala.Program.{Expr, symbol_ref, instruction_ref, Operand, expression, Instruction}

pub data VirtualIdType : Type 0 where
  all_ids increment custom : VirtualIdType

pub record VirtualIds : Type 0 where
  pub id_type : VirtualIdType
  pub args : List ℕ

-- The loop of resolve over neighbours; uint32_t wraps.
scan_neighbours : VirtualIdType → List ℕ → VirtualIdType
scan_neighbours t [] = t
scan_neighbours t (x ∷ []) = t
scan_neighbours t (x ∷ y ∷ rest) =
    let next = scan_neighbours t (y ∷ rest) in
    let broken = scan_neighbours custom (y ∷ rest) in if (x + 1) % 2 ^ 32 == y then next else broken

-- VirtualIDs::resolve: the statement after the loop overwrites what the loop stored.
unfoldable pub resolve : VirtualIds → VirtualIds
unfolding scan_neighbours
resolve ids =
    if length ids.args == 1
    then record ids { id_type = all_ids }
    else let scanned = record ids { id_type = scan_neighbours ids.id_type ids.args } in
      record scanned { id_type = increment }

pub record LocalQuantumRoutine : Type 0 where
  pub qubit_map : List (ℕ × ℕ)
  pub uses_qubits : List ℕ
  pub keeps_qubits : List ℕ
  pub params : List String
  pub returns : List String

abbrev pub empty_routine : LocalQuantumRoutine
empty_routine = record {
  qubit_map = [];
  uses_qubits = [];
  keeps_qubits = [];
  params = [];
  returns = [];
}

unfoldable pub lookup_value : ℕ → List (ℕ × ℕ) → Option ℕ
lookup_value v [] = none
lookup_value v ((k, n) ∷ m) = if k == v then some n else lookup_value v m

unfoldable pub erase_value : ℕ → List (ℕ × ℕ) → List (ℕ × ℕ)
erase_value v [] = []
erase_value v ((k, n) ∷ m) = if k == v then erase_value v m else (k, n) ∷ erase_value v m

-- std::set::emplace
unfoldable pub emplace : ℕ → List ℕ → List ℕ
emplace n s = if elem n s then s else n ∷ s

unfoldable pub register_qubit : ℕ → ℕ → LocalQuantumRoutine → Option LocalQuantumRoutine
unfolding lookup_value emplace
register_qubit value phy_qubit_num rt = elim (lookup_value value rt.qubit_map) [
  | some n ↦ none
  | none ↦ some (record rt {
    qubit_map = (value, phy_qubit_num) ∷ rt.qubit_map;
    uses_qubits = emplace phy_qubit_num rt.uses_qubits;
    keeps_qubits = emplace phy_qubit_num rt.keeps_qubits;
  })
]

unfoldable pub release_qubit : ℕ → LocalQuantumRoutine → Option (ℕ × LocalQuantumRoutine)
unfolding lookup_value erase_value
release_qubit value rt = elim (lookup_value value rt.qubit_map) [
  | none ↦ none
  | some n ↦ some (
    n,
    record rt {
      qubit_map = erase_value value rt.qubit_map;
      keeps_qubits = keep (λ k. not (k == n)) rt.keeps_qubits;
    },
  )
]

-- 0xFF where the value is not mapped.
unfoldable pub get_qubit_num : ℕ → LocalQuantumRoutine → ℕ
unfolding lookup_value
get_qubit_num value rt = elim (lookup_value value rt.qubit_map) [ none ↦ 0xFF | some n ↦ n ]

unfoldable pub add_argument : String → LocalQuantumRoutine → LocalQuantumRoutine
add_argument arg_name rt = record rt { params = rt.params ++ arg_name ∷ [] }

unfoldable pub add_return_value : String → LocalQuantumRoutine → LocalQuantumRoutine
add_return_value val_name rt = record rt { returns = rt.returns ++ val_name ∷ [] }

-- The key of an instruction: its operation, or an address behind it where another instruction of the
-- operation came before. A pointer counts in units of its type.
unfoldable pub instruction_key : Option ℕ → ℕ → ℕ → ℕ
instruction_key none op i = op
instruction_key (some j) op i = op + 4 * i

-- try_emplace and its assertion.
unfoldable pub emplace_index :
    Option ℕ → Option (List (ℕ × ℕ) × List ℕ) → ℕ → Option (List (ℕ × ℕ) × List ℕ)
emplace_index (some j) tail key = none
emplace_index none tail key = tail >>= λ (all_indices, keys). some (all_indices, key ∷ keys)

-- operationToIndex and the key of each instruction.
unfoldable pub index_operations :
    ℕ → List (ℕ × ℕ) → List Instruction → Option (List (ℕ × ℕ) × List ℕ)
unfolding lookup_value instruction_key emplace_index
index_operations i indices [] = some (indices, [])
index_operations i indices (instruction ∷ rest) =
    let op = instruction.original_op in
    let key = instruction_key (lookup_value op indices) op i in
    emplace_index (lookup_value key indices) (index_operations (suc i) ((key, i) ∷ indices) rest)
      key

abbrev pub displacement : ℕ → ℕ → ℤ
displacement to from = pos to -ℤ pos from

unfoldable pub resolve_operand : List (ℕ × ℕ) → ℕ → Operand → Option Operand
unfolding lookup_value
resolve_operand indices key (expression (instruction_ref target d resolved)) = do
  from ← lookup_value key indices
  to ← lookup_value target indices
  some (expression (instruction_ref target (displacement to from) true))
resolve_operand indices key o = some o

unfoldable pub resolve_operands : List (ℕ × ℕ) → ℕ → List Operand → Option (List Operand)
unfolding resolve_operand
resolve_operands indices key [] = some []
resolve_operands indices key (o ∷ os) = do
  o' ← resolve_operand indices key o
  os' ← resolve_operands indices key os
  some (o' ∷ os')

unfoldable pub resolve_instructions :
    List (ℕ × ℕ) → List ℕ → List Instruction → Option (List Instruction)
unfolding resolve_operands
resolve_instructions indices (key ∷ keys) (instruction ∷ rest) = do
  operands' ← resolve_operands indices key instruction.operands
  rest' ← resolve_instructions indices keys rest
  some (record instruction { operands = operands' } ∷ rest')
resolve_instructions indices _ _ = some []

-- An expression belongs to one operand of one instruction.
unfoldable pub resolve_internal_instr_refs : List Instruction → Option (List Instruction)
unfolding index_operations resolve_instructions
resolve_internal_instr_refs instructions = index_operations 0 [] instructions >>= λ (indices, keys).
    resolve_instructions indices keys instructions
