-- ===== src/IQoala/NetQasm/Printing.antt =====
-- What the builder accepts the printer prints.
use qoala_mlir.Common.{
  ℕ, Bool, true, List, [], ◌∷◌, ◌++◌, map, ◌≡◌, sym, ap, ◌∙◌, subst, bind-some, Option, some, ◌>>=◌,
  if◌then◌else◌, ◌&&◌, ◌||◌, arith,
}
use qoala_mlir.IQoala.Program.{RegReference, Operand}
use qoala_mlir.IQoala.Operands.{
  Token, create_register_operand, is_placeholder, is_immediate, is_register, is_expression,
  is_instruction_ref, one, two, three, register_or_immediate,
}
use qoala_mlir.IQoala.NetQasm.{
  OpCode, unknown, init, set_reg, load, store, lea, jmp, bez, bnz, beq, bne, blt, bge, add, sub,
  addm, subm, mul, div, rem, gate_x, gate_y, gate_z, gate_h, gate_s, gate_k, gate_t, rot_x, rot_y,
  rot_z, cnot, cphase, meas, NetQasmInstr, map_results, mapped_operands, check_operands, build,
  print,
}
use qoala_mlir.IQoala.NetQasm.Resolved.{
  is_ready, Prints, instr_of, generic-Prints, store_or_load-Prints, accepted, target-ref,
  two-second, three-third, not_placeholder, registers, registers-resolved,
}

swapped :
    (a b : Operand)
    → (is_register a && is_register b) ≡ true
    → two is_register is_register (b ∷ a ∷ []) ≡ true
swapped a b e = ground arith

check_operands-Prints :
    (code : OpCode) (os os' : List Operand)
    → check_operands code os ≡ some os'
    → is_ready code os' ≡ true
    → Prints (print (instr_of code os'))
unfolding check_operands print
check_operands-Prints add os os' e r =
    let (a, b) = accepted (three is_register is_register is_register os) os os' e in
    generic-Prints "add" os' _ (rw b at a) r
check_operands-Prints sub os os' e r =
    let (a, b) = accepted (three is_register is_register is_register os) os os' e in
    generic-Prints "sub" os' _ (rw b at a) r
check_operands-Prints mul os os' e r =
    let (a, b) = accepted (three is_register is_register is_register os) os os' e in
    generic-Prints "mul" os' _ (rw b at a) r
check_operands-Prints div os os' e r =
    let (a, b) = accepted (three is_register is_register is_register os) os os' e in
    generic-Prints "div" os' _ (rw b at a) r
check_operands-Prints rem os os' e r =
    let (a, b) = accepted (three is_register is_register is_register os) os os' e in
    generic-Prints "rem" os' _ (rw b at a) r
check_operands-Prints jmp os os' e r =
    let (a, b) = accepted (one is_expression os) os os' e in
    generic-Prints "jmp" os' _ (rw b at a) r
check_operands-Prints beq os os' e r =
    let (a, b) = accepted (three is_register is_register is_expression os) os os' e in
    generic-Prints "beq" os' _ (three-third is_register is_register os' (rw b at a) r) r
check_operands-Prints bne os os' e r =
    let (a, b) = accepted (three is_register is_register is_expression os) os os' e in
    generic-Prints "bne" os' _ (three-third is_register is_register os' (rw b at a) r) r
check_operands-Prints bge os os' e r =
    let (a, b) = accepted (three is_register is_register is_expression os) os os' e in
    generic-Prints "bge" os' _ (three-third is_register is_register os' (rw b at a) r) r
check_operands-Prints blt os os' e r =
    let (a, b) = accepted (three is_register is_register is_expression os) os os' e in
    generic-Prints "blt" os' _ (three-third is_register is_register os' (rw b at a) r) r
check_operands-Prints bez os os' e r =
    let (a, b) = accepted (two is_register is_expression os) os os' e in
    generic-Prints "bez" os' _
      (two-second is_register is_expression is_instruction_ref os' target-ref (rw b at a) r) r
check_operands-Prints bnz os os' e r =
    let (a, b) = accepted (two is_register is_expression os) os os' e in
    generic-Prints "bnz" os' _
      (two-second is_register is_expression is_instruction_ref os' target-ref (rw b at a) r) r
check_operands-Prints cphase os os' e r =
    let (a, b) = accepted (two is_register register_or_immediate os) os os' e in
    generic-Prints "cphase" os' _ (registers os' (rw b at a) r) (registers-resolved os' r)
check_operands-Prints cnot os os' e r =
    let (a, b) = accepted (two is_register register_or_immediate os) os os' e in
    generic-Prints "cnot" os' _ (registers os' (rw b at a) r) (registers-resolved os' r)
check_operands-Prints load os os' e r =
    let (a, b) = accepted (two is_register register_or_immediate os) os os' e in
    store_or_load-Prints "load " " @input[" is_register register_or_immediate os' (rw b at a) r
check_operands-Prints store os os' e r =
    let (a, b) = accepted (two is_register (λ o. is_immediate o || is_placeholder o) os) os os' e in
    store_or_load-Prints "store " " @output[" is_register is_immediate os'
      (two-second is_register (λ o. is_immediate o || is_placeholder o) is_immediate os'
        not_placeholder (rw b at a) r)
      r
check_operands-Prints set_reg os os' e r =
    let (a, b) = accepted (two is_register (λ o. is_immediate o || is_placeholder o) os) os os' e in
    generic-Prints "set" os' _ (rw b at a) r
check_operands-Prints gate_h os os' e r =
    let (a, b) = accepted (one is_register os) os os' e in generic-Prints "h" os' _ (rw b at a) r
check_operands-Prints gate_x os os' e r =
    let (a, b) = accepted (one is_register os) os os' e in generic-Prints "x" os' _ (rw b at a) r
check_operands-Prints gate_y os os' e r =
    let (a, b) = accepted (one is_register os) os os' e in generic-Prints "y" os' _ (rw b at a) r
check_operands-Prints gate_z os os' e r =
    let (a, b) = accepted (one is_register os) os os' e in generic-Prints "z" os' _ (rw b at a) r
check_operands-Prints init os os' e r =
    let (a, b) = accepted (one is_register os) os os' e in generic-Prints "init" os' _ (rw b at a) r
check_operands-Prints rot_x os os' e r =
    let (a, b) =
      accepted (three is_register register_or_immediate register_or_immediate os) os os' e in
    generic-Prints "rot_x" os' _ (rw b at a) r
check_operands-Prints rot_y os os' e r =
    let (a, b) =
      accepted (three is_register register_or_immediate register_or_immediate os) os os' e in
    generic-Prints "rot_y" os' _ (rw b at a) r
check_operands-Prints rot_z os os' e r =
    let (a, b) =
      accepted (three is_register register_or_immediate register_or_immediate os) os os' e in
    generic-Prints "rot_z" os' _ (rw b at a) r
check_operands-Prints unknown os os' e r = absurd cc
check_operands-Prints lea os os' e r = absurd cc
check_operands-Prints addm os os' e r = absurd cc
check_operands-Prints subm os os' e r = absurd cc
check_operands-Prints gate_s os os' e r = absurd cc
check_operands-Prints gate_k os os' e r = absurd cc
check_operands-Prints gate_t os os' e r = absurd cc
check_operands-Prints meas [] os' e r = absurd cc
check_operands-Prints meas (a ∷ []) os' e r = absurd cc
check_operands-Prints meas (a ∷ b ∷ c ∷ os) os' e r = absurd cc
check_operands-Prints meas (a ∷ b ∷ []) os' e r =
    let (p, q) = accepted (is_register a && is_register b) (b ∷ a ∷ []) os' e in
    generic-Prints "meas" os' _
      (subst (λ t. two is_register is_register t ≡ true) q (swapped a b p)) r

build-check :
    (code : OpCode) (results : List RegReference) (maps_results : Bool) (values : List ℕ)
    (op_operands : List (Option RegReference)) (extra : List Operand)
    (mapped : List (ℕ × RegReference)) (instr : NetQasmInstr)
    → build code results maps_results values op_operands extra ≡ some (mapped, instr)
    → (os : List Operand) × (check_operands code os ≡ some instr.operands) × (instr.op_code ≡ code)
unfolding build
build-check code results maps_results values op_operands extra mapped instr e =
    let regs = map create_register_operand results in
    let finish : List (ℕ × RegReference)
        → List Operand
        → Option (List (ℕ × RegReference) × NetQasmInstr) =
      λ m os. some (m, instr_of code os) in
    let check : List (ℕ × RegReference)
        → List Operand
        → Option (List (ℕ × RegReference) × NetQasmInstr) =
      λ m own. check_operands code (regs ++ own ++ extra) >>= finish m in
    let (m, p, e1) =
      bind-some (if maps_results then map_results values regs else some [])
        (λ m. mapped_operands op_operands >>= check m) (mapped, instr) e in
    let (own, p', e2) = bind-some (mapped_operands op_operands) (check m) (mapped, instr) e1 in
    let (os, p'', e3) =
      bind-some (check_operands code (regs ++ own ++ extra)) (finish m) (mapped, instr) e2 in
    let i : instr_of code os ≡ instr = cc in
    (
      regs ++ own ++ extra,
      subst (λ j. check_operands code (regs ++ own ++ extra) ≡ some j.operands) i p'',
      sym (ap (λ j. j.op_code) i),
    )

-- If the builder makes an instruction, for any opcode, allocated registers and operands, and its operands
-- are then resolved (every reference with a displacement other than 0, no placeholder, no float, and only
-- registers for cnot and cphase), printing it fails no assertion and emits no error.
pub build-print_netqasm :
    (code : OpCode) (results : List RegReference) (maps_results : Bool) (values : List ℕ)
    (op_operands : List (Option RegReference)) (extra : List Operand)
    (mapped : List (ℕ × RegReference)) (instr : NetQasmInstr)
    → build code results maps_results values op_operands extra ≡ some (mapped, instr)
    → is_ready code instr.operands ≡ true
    → (tokens : List Token) × (print instr ≡ some tokens)
build-print_netqasm code results maps_results values op_operands extra mapped instr e r =
    let (os, p, q) =
      build-check code results maps_results values op_operands extra mapped instr e in
    let (l, f) = check_operands-Prints code os instr.operands p r in
    let i : instr_of code instr.operands ≡ instr = ap (λ c. instr_of c instr.operands) (sym q) in
    (l, ap print (sym i) ∙ f)
