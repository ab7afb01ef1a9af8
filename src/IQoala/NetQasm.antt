-- ===== src/IQoala/NetQasm.antt =====
-- NetQASM instructions: lib/Target/iQoala/MC/NetQASMASM.cpp, their builder and their printer.
pub mod Resolved
pub mod Printing
use Prim.Native.String.{String}
use qoala_mlir.Common.{
  ℕ, Bool, true, false, List, [], ◌∷◌, ◌++◌, map, Option, none, some, ◌>>=◌, if◌then◌else◌, ◌&&◌,
  ◌||◌, not,
}
use qoala_mlir.IQoala.Program.{RegReference, Operand}
use qoala_mlir.IQoala.Operands.{
  Token, text, is_quantum, create_register_operand, get_reg_ref, is_placeholder, is_immediate,
  is_register, is_expression, is_instruction_ref, print_operand, one, two, three, four,
  register_or_immediate,
}

pub data OpCode : Type 0 where
  unknown init set_reg load store lea jmp bez bnz beq bne blt bge : OpCode
  add sub addm subm mul div rem : OpCode
  gate_x gate_y gate_z gate_h gate_s gate_k gate_t rot_x rot_y rot_z cnot cphase meas : OpCode

pub record NetQasmInstr : Type 0 where
  pub op_code : OpCode
  pub operands : List Operand

-- The loop under `mapResults`: what mapValueToRegRef is called with.
unfoldable pub map_results : List ℕ → List Operand → Option (List (ℕ × RegReference))
unfolding get_reg_ref
map_results [] operands = some []
map_results (value ∷ values) [] = none
map_results (value ∷ values) (o ∷ operands) = do
  ref ← get_reg_ref o
  rest ← map_results values operands
  if is_quantum ref then some ((value, ref) ∷ rest) else none

-- The loop over the operation's operands; `none` in the list is an operand that is not mapped.
unfoldable pub mapped_operands : List (Option RegReference) → Option (List Operand)
unfolding create_register_operand
mapped_operands [] = some []
mapped_operands (none ∷ refs) = none
mapped_operands (some ref ∷ refs) = do
  rest ← mapped_operands refs
  if is_quantum ref then some (create_register_operand ref ∷ rest) else none

-- The assertions of the switch, and for `meas` the exchange of its operands; an opcode that the
-- switch does not list is an error.
unfoldable pub check_operands : OpCode → List Operand → Option (List Operand)
check_operands code operands =
    let accept = λ (ok : Bool). if ok then some operands else none in
    elim code [
      | add ↦ accept (three is_register is_register is_register operands)
      | sub ↦ accept (three is_register is_register is_register operands)
      | mul ↦ accept (three is_register is_register is_register operands)
      | div ↦ accept (three is_register is_register is_register operands)
      | rem ↦ accept (three is_register is_register is_register operands)
      | jmp ↦ accept (one is_expression operands)
      | beq ↦ accept (three is_register is_register is_expression operands)
      | bne ↦ accept (three is_register is_register is_expression operands)
      | bge ↦ accept (three is_register is_register is_expression operands)
      | blt ↦ accept (three is_register is_register is_expression operands)
      | cphase ↦ accept (two is_register register_or_immediate operands)
      | cnot ↦ accept (two is_register register_or_immediate operands)
      | load ↦ accept (two is_register register_or_immediate operands)
      | meas ↦ elim operands [
        | a ∷ b ∷ [] ↦ if is_register a && is_register b then some (b ∷ a ∷ []) else none
        | _ ↦ none
      ]
      | store ↦ accept (two is_register (λ o. is_immediate o || is_placeholder o) operands)
      | set_reg ↦ accept (two is_register (λ o. is_immediate o || is_placeholder o) operands)
      | bez ↦ accept (two is_register is_expression operands)
      | bnz ↦ accept (two is_register is_expression operands)
      | gate_h ↦ accept (one is_register operands)
      | gate_x ↦ accept (one is_register operands)
      | gate_y ↦ accept (one is_register operands)
      | gate_z ↦ accept (one is_register operands)
      | init ↦ accept (one is_register operands)
      | rot_x ↦ accept (three is_register register_or_immediate register_or_immediate operands)
      | rot_y ↦ accept (three is_register register_or_immediate register_or_immediate operands)
      | rot_z ↦ accept (three is_register register_or_immediate register_or_immediate operands)
      | _ ↦ none
    ]

-- NetQASMMCInstr::build with the registers that were allocated for its results: what it maps, and
-- the instruction.
unfoldable pub build :
    OpCode
    → List RegReference
    → Bool
    → List ℕ
    → List (Option RegReference)
    → List Operand
    → Option (List (ℕ × RegReference) × NetQasmInstr)
unfolding map_results mapped_operands check_operands create_register_operand
build code results maps_results values op_operands extra_operands = do
  mapped ←
      if maps_results then map_results values (map create_register_operand results) else some []
  own ← mapped_operands op_operands
  operands ← check_operands code (map create_register_operand results ++ own ++ extra_operands)
  some (mapped, record { op_code = code; operands = operands })

abbrev print_operands : List Operand → Option (List Token)
print_operands [] = some []
print_operands (o ∷ os) = do
  here ← print_operand o
  rest ← print_operands os
  some (text " " ∷ here ++ rest)

unfoldable pub print_instr_in_generic_form : String → List Operand → Option (List Token)
print_instr_in_generic_form mnemonic operands =
    print_operands operands >>= λ l. some (text mnemonic ∷ l)

unfoldable pub print_store_or_load : String → String → List Operand → Option (List Token)
print_store_or_load mnemonic array (a ∷ b ∷ _) = do
  first ← print_operand a
  second ← print_operand b
  some (text mnemonic ∷ first ++ text array ∷ second ++ text "]" ∷ [])
print_store_or_load mnemonic array _ = none

unfoldable pub print : NetQasmInstr → Option (List Token)
unfolding print_instr_in_generic_form print_store_or_load
print instr =
    let generic = λ (mnemonic : String) (ok : Bool).
      if ok then print_instr_in_generic_form mnemonic instr.operands else none in
    let regs = three is_register is_register is_register instr.operands in
    let four_regs = four is_register is_register is_register is_register instr.operands in
    let one_reg = one is_register instr.operands in
    let two_regs = two is_register is_register instr.operands in
    let rotation = three is_register register_or_immediate register_or_immediate instr.operands in
    elim instr.op_code [
      | init ↦ generic "init" one_reg
      | set_reg ↦
          generic "set" (two is_register (λ o. is_immediate o || is_placeholder o) instr.operands)
      | load ↦
          if two is_register register_or_immediate instr.operands
          then print_store_or_load "load " " @input[" instr.operands
          else none
      | store ↦
          if two is_register is_immediate instr.operands
          then print_store_or_load "store " " @output[" instr.operands
          else none
      | lea ↦ generic "lea" (two is_register is_expression instr.operands)
      | jmp ↦ generic "jmp" (one is_expression instr.operands)
      | bez ↦ generic "bez" (two is_register is_instruction_ref instr.operands)
      | bnz ↦ generic "bnz" (two is_register is_instruction_ref instr.operands)
      | beq ↦ generic "beq" (three is_register is_register is_instruction_ref instr.operands)
      | bne ↦ generic "bne" (three is_register is_register is_instruction_ref instr.operands)
      | blt ↦ generic "blt" (three is_register is_register is_instruction_ref instr.operands)
      | bge ↦ generic "bge" (three is_register is_register is_instruction_ref instr.operands)
      | add ↦ generic "add" regs
      | sub ↦ generic "sub" regs
      | addm ↦ generic "addm" four_regs
      | subm ↦ generic "subm" four_regs
      | mul ↦ generic "mul" regs
      | div ↦ generic "div" regs
      | rem ↦ generic "rem" regs
      | gate_x ↦ generic "x" one_reg
      | gate_y ↦ generic "y" one_reg
      | gate_z ↦ generic "z" one_reg
      | gate_h ↦ generic "h" one_reg
      | gate_s ↦ generic "s" one_reg
      | gate_k ↦ generic "k" one_reg
      | gate_t ↦ generic "t" one_reg
      | rot_x ↦ generic "rot_x" rotation
      | rot_y ↦ generic "rot_y" rotation
      | rot_z ↦ generic "rot_z" rotation
      | cnot ↦ generic "cnot" two_regs
      | cphase ↦ generic "cphase" two_regs
      | meas ↦ generic "meas" two_regs
      | unknown ↦ none
    ]
