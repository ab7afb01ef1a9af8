-- ===== src/IQoala/HostAsm/Builds.antt =====
-- Every branch of the builder of host instructions, and the printer on what it makes.
use Prim.Native.String.{String}
use qoala_mlir.Common.{
  ℕ, ◌-◌, ◌≤◌, Bool, true, false, List, [], ◌∷◌, ◌++◌, map, ◌≡◌, refl, sym, ap, subst, ◌∙◌,
  bind-some, some-inj, Option, none, some, ◌>>=◌, if◌then◌else◌, all, length, arith,
}
use qoala_mlir.IQoala.Program.{
  RegReference, Operand, Opcode, unknown, assign_cval, copy_cval, add, multiply, subtract,
  multiply_constant, bi_cond_multiply, jump, beq, bne, bgt, blt, send_cmsg, recv_cmsg,
  run_subroutine, run_request, submit_routines, join_routines, return_result,
}
use qoala_mlir.IQoala.Operands.{
  Token, is_immediate, is_local_register, is_symbol_ref, one, two, three, four,
}
use qoala_mlir.IQoala.Operands.{create_register_operand}
use qoala_mlir.IQoala.HostAsm.{
  HostInstr, InstrType, map_results, mapped_operands, check_call, check_operands, build,
  call_asserts, print, print_call_instr,
}
use qoala_mlir.IQoala.HostAsm.Printing.{
  Prints, generic-Prints, print_call_instr-Prints, locals-plain, split_results-local,
}
use qoala_mlir.IQoala.HostAsm.Shapes.{
  is_ready, instr_of, accepted, length-one, length-two, length-three, length-four, symbol-plain,
  one-symbol, three-symbol, check_call-shape,
}

call-Prints :
    (mnemonic : String) (n : ℕ) (callee : Operand) (args : List Operand)
    → is_symbol_ref callee ≡ true
    → all is_local_register args ≡ true
    → n ≤ length args
    → Prints (
        if call_asserts n (callee ∷ args)
        then print_call_instr mnemonic n (callee ∷ args)
        else none)
unfolding call_asserts
call-Prints mnemonic n callee args h e le =
    let (front, back, p, q) = split_results-local (n - 1) args e (omega arith) in
    let a : call_asserts n (callee ∷ args) ≡ true = rw (h, p, q, call_asserts) refl in
    let (l, r) =
      print_call_instr-Prints mnemonic n callee args (symbol-plain callee h) (locals-plain args e)
        le in
    (l, rw (a, r) refl)

check_operands-Prints :
    (code : Opcode) (results extras : ℕ) (os : List Operand) (n : ℕ) (t : InstrType)
    (os' : List Operand)
    → check_operands code results extras os ≡ some (n, t, os')
    → is_ready code os' ≡ true
    → Prints (print (instr_of code n t os'))
unfolding check_operands print
check_operands-Prints assign_cval results extras os n t os' e r =
    let (a, b) =
      accepted (two is_local_register is_immediate os) 1 n InstrType.cl_type t os os' e in
    let w : two is_local_register is_immediate os' ≡ true = rw b at a in
    let k = length-two is_local_register is_immediate os' w in
    generic-Prints "assign_cval" true true _ os' w r (omega arith)
check_operands-Prints copy_cval results extras os n t os' e r =
    let (a, b) =
      accepted (two is_local_register is_local_register os) 1 n InstrType.cl_type t os os' e in
    let w : two is_local_register is_local_register os' ≡ true = rw b at a in
    let k = length-two is_local_register is_local_register os' w in
    generic-Prints "copy_cval" true false _ os' w r (omega arith)
check_operands-Prints add results extras os n t os' e r =
    let (a, b) =
      accepted (three is_local_register is_local_register is_local_register os) 1 n
        InstrType.cl_type t os os' e in
    let w : three is_local_register is_local_register is_local_register os' ≡ true = rw b at a in
    let k = length-three is_local_register is_local_register is_local_register os' w in
    generic-Prints "add_cval_c" true false _ os' w r (omega arith)
check_operands-Prints subtract results extras os n t os' e r =
    let (a, b) =
      accepted (three is_local_register is_local_register is_local_register os) 1 n
        InstrType.cl_type t os os' e in
    let w : three is_local_register is_local_register is_local_register os' ≡ true = rw b at a in
    let k = length-three is_local_register is_local_register is_local_register os' w in
    generic-Prints "sub_cval_c" true false _ os' w r (omega arith)
check_operands-Prints multiply results extras os n t os' e r =
    let (a, b) =
      accepted (three is_local_register is_local_register is_local_register os) 1 n
        InstrType.cl_type t os os' e in
    let w : three is_local_register is_local_register is_local_register os' ≡ true = rw b at a in
    let k = length-three is_local_register is_local_register is_local_register os' w in
    generic-Prints "mult_cval" true false _ os' w r (omega arith)
check_operands-Prints multiply_constant results extras os n t os' e r =
    let (a, b) =
      accepted (three is_local_register is_local_register is_immediate os) 1 n InstrType.cl_type t
        os os' e in
    let w : three is_local_register is_local_register is_immediate os' ≡ true = rw b at a in
    let k = length-three is_local_register is_local_register is_immediate os' w in
    generic-Prints "mult_const" true true _ os' w r (omega arith)
check_operands-Prints jump results extras os n t os' e r =
    let (a, b) = accepted (one is_symbol_ref os) 1 n InstrType.cl_type t os os' e in
    let w : one is_symbol_ref os' ≡ true = rw b at a in
    let k = length-one is_symbol_ref os' w in
    generic-Prints "jump" false true _ os' (one-symbol os' w) r (omega arith)
check_operands-Prints beq results extras os n t os' e r =
    let (a, b) =
      accepted (three is_local_register is_local_register is_symbol_ref os) 1 n InstrType.cl_type t
        os os' e in
    let w : three is_local_register is_local_register is_symbol_ref os' ≡ true = rw b at a in
    let k = length-three is_local_register is_local_register is_symbol_ref os' w in
    generic-Prints "beq" false true _ os' (three-symbol is_local_register is_local_register os' w) r
      (omega arith)
check_operands-Prints bne results extras os n t os' e r =
    let (a, b) =
      accepted (three is_local_register is_local_register is_symbol_ref os) 1 n InstrType.cl_type t
        os os' e in
    let w : three is_local_register is_local_register is_symbol_ref os' ≡ true = rw b at a in
    let k = length-three is_local_register is_local_register is_symbol_ref os' w in
    generic-Prints "bne" false true _ os' (three-symbol is_local_register is_local_register os' w) r
      (omega arith)
check_operands-Prints bgt results extras os n t os' e r =
    let (a, b) =
      accepted (three is_local_register is_local_register is_symbol_ref os) 1 n InstrType.cl_type t
        os os' e in
    let w : three is_local_register is_local_register is_symbol_ref os' ≡ true = rw b at a in
    let k = length-three is_local_register is_local_register is_symbol_ref os' w in
    generic-Prints "bgt" false true _ os' (three-symbol is_local_register is_local_register os' w) r
      (omega arith)
check_operands-Prints blt results extras os n t os' e r =
    let (a, b) =
      accepted (three is_local_register is_local_register is_symbol_ref os) 1 n InstrType.cl_type t
        os os' e in
    let w : three is_local_register is_local_register is_symbol_ref os' ≡ true = rw b at a in
    let k = length-three is_local_register is_local_register is_symbol_ref os' w in
    generic-Prints "blt" false true _ os' (three-symbol is_local_register is_local_register os' w) r
      (omega arith)
check_operands-Prints return_result results extras os n t os' e r =
    let (a, b) = accepted (one is_local_register os) 1 n InstrType.cl_type t os os' e in
    let w : one is_local_register os' ≡ true = rw b at a in
    let k = length-one is_local_register os' w in
    generic-Prints "return_result" false false _ os' refl r (omega arith)
check_operands-Prints recv_cmsg results extras os n t os' e r =
    let (a, b) = accepted (two (λ o. true) is_local_register os) 1 n InstrType.cc_type t os os' e in
    let w : two (λ o. true) is_local_register os' ≡ true = rw b at a in
    let k = length-two (λ o. true) is_local_register os' w in
    generic-Prints "recv_cmsg" true false _ os' (ground arith) (ground arith) (omega arith)
check_operands-Prints unknown results extras os n t os' e r = absurd cc
check_operands-Prints submit_routines results extras os n t os' e r = absurd cc
check_operands-Prints join_routines results extras os n t os' e r = absurd cc
check_operands-Prints send_cmsg results extras [] n t os' e r = absurd cc
check_operands-Prints send_cmsg results extras (a ∷ []) n t os' e r = absurd cc
check_operands-Prints send_cmsg results extras (a ∷ b ∷ rest) n t os' e r =
    let (p, q) =
      accepted (two is_local_register is_local_register (b ∷ a ∷ rest)) 1 n InstrType.cc_type t
        (b ∷ a ∷ rest) os' e in
    let w : two is_local_register is_local_register os' ≡ true =
      subst (λ l. two is_local_register is_local_register l ≡ true) q p in
    let k = length-two is_local_register is_local_register os' w in
    generic-Prints "send_cmsg" false false _ os' w r (omega arith)
check_operands-Prints run_subroutine results extras os n t os' e r =
    let (moved, p, p') =
      bind-some (check_call results extras os) (λ l. some (results, InstrType.cl_type, l))
        (n, t, os') e in
    let (callee, args, q, h, l, le) = check_call-shape results extras os moved p in
    let i = some-inj (results, InstrType.cl_type, moved) (n, t, os') p' in
    let j : os' ≡ callee ∷ args = sym (ap (λ x. x.2) i) ∙ q in
    let m : n ≡ results = sym (ap (λ x. x.0) i) in
    rw (j, m) (call-Prints "run_subroutine" results callee args h l le)
check_operands-Prints run_request results extras os n t os' e r =
    let (moved, p, p') =
      bind-some (check_call results extras os) (λ l. some (results, InstrType.cl_type, l))
        (n, t, os') e in
    let (callee, args, q, h, l, le) = check_call-shape results extras os moved p in
    let i = some-inj (results, InstrType.cl_type, moved) (n, t, os') p' in
    let j : os' ≡ callee ∷ args = sym (ap (λ x. x.2) i) ∙ q in
    let m : n ≡ results = sym (ap (λ x. x.0) i) in
    rw (j, m) (call-Prints "run_request" results callee args h l le)
check_operands-Prints bi_cond_multiply results extras os n t os' e r =
    let i = some-inj (1, InstrType.cl_type, os) (n, t, os') e in
    let w : four is_local_register is_local_register is_local_register is_immediate os' ≡ true =
      ground arith in
    let k = length-four is_local_register is_local_register is_local_register is_immediate os' w in
    generic-Prints "bcond_mult_const" true true _ os' w (ground arith) (omega arith)

build-check :
    (code : Opcode) (results : List RegReference) (maps_results : Bool) (values : List ℕ)
    (op_operands : List (Option RegReference)) (extra : List Operand)
    (mapped : List (ℕ × RegReference)) (instr : HostInstr)
    → build code results maps_results values op_operands extra ≡ some (mapped, instr)
    → (os : List Operand) × (check_operands code (length results) (length extra) os
        ≡ some (instr.num_results, instr.instr_type, instr.operands))
      × (instr.op_code ≡ code)
unfolding build
build-check code results maps_results values op_operands extra mapped instr e =
    let regs = map create_register_operand results in
    let finish : List (ℕ × RegReference)
        → ℕ × InstrType × List Operand
        → Option (List (ℕ × RegReference) × HostInstr) =
      λ m checked. some (m, instr_of code checked.0 checked.1 checked.2) in
    let check : List (ℕ × RegReference)
        → List Operand
        → Option (List (ℕ × RegReference) × HostInstr) =
      λ m own.
        check_operands code (length results) (length extra) (regs ++ own ++ extra) >>= finish m in
    let (m, p, e1) =
      bind-some (if maps_results then map_results values regs else some [])
        (λ m. mapped_operands op_operands >>= check m) (mapped, instr) e in
    let (own, p', e2) = bind-some (mapped_operands op_operands) (check m) (mapped, instr) e1 in
    let (checked, p'', e3) =
      bind-some (check_operands code (length results) (length extra) (regs ++ own ++ extra))
        (finish m) (mapped, instr) e2 in
    let i : instr_of code checked.0 checked.1 checked.2 ≡ instr = cc in
    (
      regs ++ own ++ extra,
      subst
          (λ j.
            check_operands code (length results) (length extra) (regs ++ own ++ extra)
            ≡ some (j.num_results, j.instr_type, j.operands))
          i p'',
      sym (ap (λ j. j.op_code) i),
    )

-- If the builder makes a host instruction, for any opcode, allocated registers and operands, and what it
-- leaves unchecked holds of its operands (no float, placeholder or quantum register; a local register as
-- recv_cmsg's result; the four operands of bcond_mult_const), printing it fails no assertion, emits no
-- error and reads no operand that is not there.
pub build-print_host :
    (code : Opcode) (results : List RegReference) (maps_results : Bool) (values : List ℕ)
    (op_operands : List (Option RegReference)) (extra : List Operand)
    (mapped : List (ℕ × RegReference)) (instr : HostInstr)
    → build code results maps_results values op_operands extra ≡ some (mapped, instr)
    → is_ready code instr.operands ≡ true
    → (tokens : List Token) × (print instr ≡ some tokens)
build-print_host code results maps_results values op_operands extra mapped instr e r =
    let (os, p, q) =
      build-check code results maps_results values op_operands extra mapped instr e in
    let (l, f) =
      check_operands-Prints code (length results) (length extra) os instr.num_results
        instr.instr_type instr.operands p r in
    let i : instr_of code instr.num_results instr.instr_type instr.operands ≡ instr =
      ap (λ c. instr_of c instr.num_results instr.instr_type instr.operands) (sym q) in
    (l, ap print (sym i) ∙ f)
