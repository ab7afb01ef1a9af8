-- ===== src/IQoala/HostAsm.antt =====
-- QoalaHost instructions: lib/Target/iQoala/MC/QoalaHostASM.cpp, their builder and their printer.
pub mod Printing
pub mod Shapes
pub mod Builds
use Prim.Native.String.{String}
use qoala_mlir.Common.{
  ℕ, zero, suc, ◌+◌, ◌-◌, Bool, true, false, List, [], ◌∷◌, ◌++◌, map, Option, none, some, ◌>>=◌,
  if◌then◌else◌, ◌&&◌, ◌||◌, not, length, all, ◌==◌,
}
use qoala_mlir.IQoala.Program.{
  RegReference, Operand, Opcode, unknown, assign_cval, copy_cval, add, multiply, subtract,
  multiply_constant, bi_cond_multiply, jump, beq, bne, bgt, blt, send_cmsg, recv_cmsg,
  run_subroutine, run_request, submit_routines, join_routines, return_result,
}
use qoala_mlir.IQoala.Operands.{
  Token, text, is_local, create_register_operand, get_reg_ref, is_immediate, is_local_register,
  is_expression, is_symbol_ref, print_operand, one, two, three, four,
}

pub data InstrType : Type 0 where
  unknown_type cc_type cl_type : InstrType

pub record HostInstr : Type 0 where
  pub op_code : Opcode
  pub instr_type : InstrType
  pub num_results : ℕ
  pub operands : List Operand

unfoldable pub map_results : List ℕ → List Operand → Option (List (ℕ × RegReference))
unfolding get_reg_ref
map_results [] operands = some []
map_results (value ∷ values) [] = none
map_results (value ∷ values) (o ∷ operands) = do
  ref ← get_reg_ref o
  rest ← map_results values operands
  if is_local ref then some ((value, ref) ∷ rest) else none

unfoldable pub mapped_operands : List (Option RegReference) → Option (List Operand)
unfolding create_register_operand
mapped_operands [] = some []
mapped_operands (none ∷ refs) = none
mapped_operands (some ref ∷ refs) = do
  rest ← mapped_operands refs
  if is_local ref then some (create_register_operand ref ∷ rest) else none

abbrev behind_callee : Operand → List Operand → Option (List Operand)
behind_callee o [] = none
behind_callee o (callee ∷ args) = some (callee ∷ o ∷ args)

-- A call: results and arguments are local registers, the last operand is the callee, which moves to
-- the front.
unfoldable pub callee_first : List Operand → Option (List Operand)
callee_first [] = none
callee_first (o ∷ []) = if is_symbol_ref o then some (o ∷ []) else none
callee_first (o ∷ o' ∷ os) =
    let rest = callee_first (o' ∷ os) in
    if is_local_register o then (rest >>= λ moved. behind_callee o moved) else none

-- `results` and `extras` are resRegRefs.size() and extraOperands.size(). Without an extra operand the
-- unsigned bound of the loop over the arguments wraps, so that the accesses leave the operands.
unfoldable pub check_call : ℕ → ℕ → List Operand → Option (List Operand)
unfolding callee_first
check_call results zero operands = none
check_call results (suc extras) operands =
    if length operands == results + suc extras then callee_first operands else none

abbrev pub accept : Bool → ℕ → InstrType → List Operand → Option (ℕ × InstrType × List Operand)
accept ok results t operands = if ok then some (results, t, operands) else none

-- The switch: the number of results, the type of the instruction and its operands.
unfoldable pub check_operands :
    Opcode → ℕ → ℕ → List Operand → Option (ℕ × InstrType × List Operand)
unfolding check_call
check_operands assign_cval results extras operands =
    accept (two is_local_register is_immediate operands) 1 cl_type operands
check_operands copy_cval results extras operands =
    accept (two is_local_register is_local_register operands) 1 cl_type operands
check_operands add results extras operands =
    accept (three is_local_register is_local_register is_local_register operands) 1 cl_type operands
check_operands subtract results extras operands =
    accept (three is_local_register is_local_register is_local_register operands) 1 cl_type operands
check_operands multiply results extras operands =
    accept (three is_local_register is_local_register is_local_register operands) 1 cl_type operands
check_operands multiply_constant results extras operands =
    accept (three is_local_register is_local_register is_immediate operands) 1 cl_type operands
check_operands jump results extras operands = accept (one is_symbol_ref operands) 1 cl_type operands
check_operands beq results extras operands =
    accept (three is_local_register is_local_register is_symbol_ref operands) 1 cl_type operands
check_operands bne results extras operands =
    accept (three is_local_register is_local_register is_symbol_ref operands) 1 cl_type operands
check_operands bgt results extras operands =
    accept (three is_local_register is_local_register is_symbol_ref operands) 1 cl_type operands
check_operands blt results extras operands =
    accept (three is_local_register is_local_register is_symbol_ref operands) 1 cl_type operands
check_operands run_subroutine results extras operands =
    check_call results extras operands >>= λ os. some (results, cl_type, os)
check_operands run_request results extras operands =
    check_call results extras operands >>= λ os. some (results, cl_type, os)
check_operands return_result results extras operands =
    accept (one is_local_register operands) 1 cl_type operands
check_operands send_cmsg results extras (value ∷ csocket ∷ rest) =
    accept (two is_local_register is_local_register (csocket ∷ value ∷ rest)) 1 cc_type
      (csocket ∷ value ∷ rest)
check_operands send_cmsg results extras _ = none
check_operands recv_cmsg results extras operands =
    accept (two (λ o. true) is_local_register operands) 1 cc_type operands
check_operands bi_cond_multiply results extras operands = some (1, cl_type, operands)
check_operands _ results extras operands = none

unfoldable pub build :
    Opcode
    → List RegReference
    → Bool
    → List ℕ
    → List (Option RegReference)
    → List Operand
    → Option (List (ℕ × RegReference) × HostInstr)
unfolding map_results mapped_operands check_operands create_register_operand
build code results maps_results values op_operands extra_operands = do
  mapped ←
      if maps_results then map_results values (map create_register_operand results) else some []
  own ← mapped_operands op_operands
  checked ←
      check_operands code (length results) (length extra_operands)
        (map create_register_operand results ++ own ++ extra_operands)
  some (
    mapped,
    record {
      op_code = code;
      num_results = checked.0;
      instr_type = checked.1;
      operands = checked.2;
    },
  )

-- Operands with a separator between them.
unfoldable pub print_separated : String → List Operand → Option (List Token)
print_separated separator [] = some []
print_separated separator (o ∷ []) = print_operand o
print_separated separator (o ∷ o' ∷ os) = do
  here ← print_operand o
  rest ← print_separated separator (o' ∷ os)
  some (here ++ text separator ∷ rest)

-- The loop's operands, and the one behind them.
unfoldable pub split_last : List Operand → Option (List Operand × Operand)
split_last [] = none
split_last (o ∷ []) = some ([], o)
split_last (o ∷ o' ∷ os) = split_last (o' ∷ os) >>= λ (front, back). some (o ∷ front, back)

unfoldable pub print_arguments : String → Bool → List Operand → Option (List Token)
unfolding print_separated split_last
print_arguments mnemonic false operands = do
  arguments ← print_separated ", " operands
  some (text mnemonic ∷ text "(" ∷ arguments ++ text ")" ∷ [])
print_arguments mnemonic true operands = do
  split ← split_last operands
  arguments ← print_separated ", " split.0
  immediate ← print_operand split.1
  some (text mnemonic ∷ text "(" ∷ arguments ++ text ")" ∷ text " : " ∷ immediate)

unfoldable pub print_instr_generic : String → Bool → Bool → List Operand → Option (List Token)
unfolding print_arguments
print_instr_generic mnemonic false last_is_immediate operands =
    print_arguments mnemonic last_is_immediate operands
print_instr_generic mnemonic true last_is_immediate [] = none
print_instr_generic mnemonic true last_is_immediate (o ∷ operands) = do
  first ← print_operand o
  rest ← print_arguments mnemonic last_is_immediate operands
  some (first ++ text " = " ∷ rest)

-- The operands 1 to `n`, and those behind them; `none` where there are fewer.
unfoldable pub split_results : ℕ → List Operand → Option (List Operand × List Operand)
split_results zero operands = some ([], operands)
split_results (suc n) [] = none
split_results (suc n) (o ∷ operands) =
    split_results n operands >>= λ (front, back). some (o ∷ front, back)

abbrev print_tuple : String → List Operand → Option (List Token)
print_tuple close os = print_separated "; " os >>= λ l. some (text "tuple<" ∷ l ++ text close ∷ [])

abbrev print_results : ℕ → List Operand → Option (List Token)
print_results zero os = some []
print_results (suc n) os = print_tuple "> = " os

abbrev print_call_arguments : List Operand → Option (List Token)
print_call_arguments [] = some []
print_call_arguments (o ∷ os) = print_tuple ">" (o ∷ os)

unfoldable pub print_call_instr : String → ℕ → List Operand → Option (List Token)
unfolding split_results print_separated
print_call_instr mnemonic num_results [] = none
print_call_instr mnemonic num_results (callee ∷ operands) = do
  split ← split_results num_results operands
  results ← print_results num_results split.0
  arguments ← print_call_arguments split.1
  name ← print_operand callee
  some (results ++ text mnemonic ∷ text "(" ∷ arguments ++ text ")" ∷ text " : " ∷ name)

-- The assertions before a call is printed, whose loop stops before operand `num_results`.
unfoldable pub call_asserts : ℕ → List Operand → Bool
unfolding split_results
call_asserts num_results [] = false
call_asserts num_results (callee ∷ operands) =
    is_symbol_ref callee && (elim (split_results (num_results - 1) operands) [
      | none ↦ false
      | some (front, back) ↦ all is_local_register front
    ])

unfoldable pub print : HostInstr → Option (List Token)
unfolding print_instr_generic print_call_instr call_asserts
print instr =
    let generic = λ (mnemonic : String) (first last ok : Bool).
      if ok then print_instr_generic mnemonic first last instr.operands else none in
    let call = λ (mnemonic : String).
      if call_asserts instr.num_results instr.operands
      then print_call_instr mnemonic instr.num_results instr.operands
      else none in
    let regs = three is_local_register is_local_register is_local_register instr.operands in
    let branch = three is_local_register is_local_register is_expression instr.operands in
    let two_regs = two is_local_register is_local_register instr.operands in
    elim instr.op_code [
      | assign_cval ↦
          generic "assign_cval" true true (two is_local_register is_immediate instr.operands)
      | copy_cval ↦ generic "copy_cval" true false two_regs
      | add ↦ generic "add_cval_c" true false regs
      | subtract ↦ generic "sub_cval_c" true false regs
      | multiply ↦ generic "mult_cval" true false regs
      | multiply_constant ↦
          generic "mult_const" true true
            (three is_local_register is_local_register is_immediate instr.operands)
      | bi_cond_multiply ↦
          generic "bcond_mult_const" true true
            (four is_local_register is_local_register is_local_register is_immediate instr.operands)
      | jump ↦ generic "jump" false true (one is_expression instr.operands)
      | beq ↦ generic "beq" false true branch
      | bne ↦ generic "bne" false true branch
      | bgt ↦ generic "bgt" false true branch
      | blt ↦ generic "blt" false true branch
      | send_cmsg ↦ generic "send_cmsg" false false two_regs
      | recv_cmsg ↦ generic "recv_cmsg" true false two_regs
      | run_subroutine ↦ call "run_subroutine"
      | run_request ↦ call "run_request"
      | return_result ↦ generic "return_result" false false true
      | _ ↦ none
    ]
