-- ===== src/IQoala/NetQasm/Resolved.antt =====
-- Operands that are resolved print, and which checks on operands imply which.
use Prim.Native.String.{String}
use qoala_mlir.Common.{
  Bool, true, false, List, [], ◌∷◌, ◌++◌, ◌≡◌, refl, Option, none, some, if◌then◌else◌, ◌&&◌, ◌||◌,
  not, all, arith,
}
use qoala_mlir.Common.Int.{pos, eqb_ℤ}
use qoala_mlir.IQoala.Program.{
  Expr, symbol_ref, instruction_ref, Operand, placeholder, immediate_i32, immediate_f32, register,
  local_register, expression,
}
use qoala_mlir.IQoala.Operands.{
  Token, text, signed, is_placeholder, is_immediate, is_register, is_expression, is_instruction_ref,
  print_operand, print_expr, two, three, register_or_immediate,
}
use qoala_mlir.IQoala.NetQasm.{
  OpCode, cnot, cphase, NetQasmInstr, print_operands, print_instr_in_generic_form,
  print_store_or_load,
}

-- Registers, integers, and branch targets with a displacement that is not 0.
abbrev pub is_resolved : Operand → Bool
is_resolved (register ref) = true
is_resolved (local_register ref) = true
is_resolved (immediate_i32 n) = true
is_resolved (expression (instruction_ref target d resolved)) = resolved && not (eqb_ℤ d (pos 0))
is_resolved _ = false

-- What is left to do after `build`: references are resolved, placeholders are replaced, and a gate on
-- two qubits has registers.
abbrev pub is_ready : OpCode → List Operand → Bool
is_ready cnot operands = all is_register operands
is_ready cphase operands = all is_register operands
is_ready _ operands = all is_resolved operands

abbrev pub Prints : Option (List Token) → Type 0
Prints o = (l : List Token) × (o ≡ some l)

print_operand-Prints : (o : Operand) → is_resolved o ≡ true → Prints (print_operand o)
unfolding print_operand print_expr
print_operand-Prints (register ref) e = (_, refl)
print_operand-Prints (local_register ref) e = (_, refl)
print_operand-Prints (immediate_i32 n) e = (_, refl)
print_operand-Prints (expression (instruction_ref target d resolved)) e = (signed d ∷ [], rw e refl)
print_operand-Prints (expression (symbol_ref s)) e = absurd cc
print_operand-Prints (expression Expr.invalid) e = absurd cc
print_operand-Prints Operand.invalid e = absurd cc
print_operand-Prints placeholder e = absurd cc
print_operand-Prints (immediate_f32 n) e = absurd cc

print_operands-Prints : (os : List Operand) → all is_resolved os ≡ true → Prints (print_operands os)
print_operands-Prints [] e = (_, refl)
print_operands-Prints (o ∷ os) e =
    let (l, p) = print_operand-Prints o (ground arith) in
    let (l', p') = print_operands-Prints os (ground arith) in (text " " ∷ l ++ l', rw (p, p') refl)

pub generic-Prints :
    (mnemonic : String) (os : List Operand) (ok : Bool)
    → ok ≡ true
    → all is_resolved os ≡ true
    → Prints (if ok then print_instr_in_generic_form mnemonic os else none)
unfolding print_instr_in_generic_form
generic-Prints mnemonic os ok e r =
    let (l, p) = print_operands-Prints os r in (text mnemonic ∷ l, rw (e, p) refl)

pub store_or_load-Prints :
    (mnemonic array : String) (p q : Operand → Bool) (os : List Operand)
    → two p q os ≡ true
    → all is_resolved os ≡ true
    → Prints (if two p q os then print_store_or_load mnemonic array os else none)
unfolding print_store_or_load
store_or_load-Prints mnemonic array p q [] e r = absurd cc
store_or_load-Prints mnemonic array p q (a ∷ []) e r = absurd cc
store_or_load-Prints mnemonic array p q (a ∷ b ∷ c ∷ os) e r = absurd cc
store_or_load-Prints mnemonic array p q (a ∷ b ∷ []) e r =
    let (l, f) = print_operand-Prints a (ground arith) in
    let (l', f') = print_operand-Prints b (ground arith) in
    (text mnemonic ∷ l ++ text array ∷ l' ++ text "]" ∷ [], rw (e, f, f') refl)

pub accepted :
    (ok : Bool) (os os' : List Operand)
    → (if ok then some os else none) ≡ some os'
    → (ok ≡ true) × (os ≡ os')
accepted true os os' e = (refl, cc)
accepted false os os' e = absurd cc

pub target-ref :
    (o : Operand) → is_expression o ≡ true → is_resolved o ≡ true → is_instruction_ref o ≡ true
target-ref (expression (instruction_ref target d resolved)) e r = refl
target-ref (expression (symbol_ref s)) e r = absurd cc
target-ref (expression Expr.invalid) e r = absurd cc
target-ref (register ref) e r = absurd cc
target-ref (local_register ref) e r = absurd cc
target-ref (immediate_i32 n) e r = absurd cc
target-ref (immediate_f32 n) e r = absurd cc
target-ref Operand.invalid e r = absurd cc
target-ref placeholder e r = absurd cc

-- A weaker check on the second of two operands.
pub two-second :
    (p q q' : Operand → Bool) (os : List Operand)
    → ((o : Operand) → q o ≡ true → is_resolved o ≡ true → q' o ≡ true)
    → two p q os ≡ true
    → all is_resolved os ≡ true
    → two p q' os ≡ true
two-second p q q' [] up e r = absurd cc
two-second p q q' (a ∷ []) up e r = absurd cc
two-second p q q' (a ∷ b ∷ c ∷ os) up e r = absurd cc
two-second p q q' (a ∷ b ∷ []) up e r =
    let w = up b (ground arith) (ground arith) in
    let v : p a ≡ true = ground arith in rw (v, w) refl

pub three-third :
    (p q : Operand → Bool) (os : List Operand)
    → three p q is_expression os ≡ true
    → all is_resolved os ≡ true
    → three p q is_instruction_ref os ≡ true
three-third p q [] e r = absurd cc
three-third p q (a ∷ []) e r = absurd cc
three-third p q (a ∷ b ∷ []) e r = absurd cc
three-third p q (a ∷ b ∷ c ∷ d ∷ os) e r = absurd cc
three-third p q (a ∷ b ∷ c ∷ []) e r =
    let w = target-ref c (ground arith) (ground arith) in
    let u : p a ≡ true = ground arith in let v : q b ≡ true = ground arith in rw (u, v, w) refl

pub not_placeholder :
    (o : Operand)
    → (is_immediate o || is_placeholder o) ≡ true
    → is_resolved o ≡ true
    → is_immediate o ≡ true
not_placeholder placeholder e r = absurd cc
not_placeholder (immediate_i32 n) e r = refl
not_placeholder (immediate_f32 n) e r = refl
not_placeholder (expression x) e r = absurd cc
not_placeholder (register ref) e r = absurd cc
not_placeholder (local_register ref) e r = absurd cc
not_placeholder Operand.invalid e r = absurd cc

-- Two operands that are registers.
pub registers :
    (os : List Operand)
    → two is_register register_or_immediate os ≡ true
    → all is_register os ≡ true
    → two is_register is_register os ≡ true
registers [] e r = absurd cc
registers (a ∷ []) e r = absurd cc
registers (a ∷ b ∷ c ∷ os) e r = absurd cc
registers (a ∷ b ∷ []) e r = ground arith

pub registers-resolved : (os : List Operand) → all is_register os ≡ true → all is_resolved os ≡ true
registers-resolved [] e = refl
registers-resolved (register ref ∷ os) e = registers-resolved os e
registers-resolved (local_register ref ∷ os) e = absurd cc
registers-resolved (expression x ∷ os) e = absurd cc
registers-resolved (immediate_i32 n ∷ os) e = absurd cc
registers-resolved (immediate_f32 n ∷ os) e = absurd cc
registers-resolved (Operand.invalid ∷ os) e = absurd cc
registers-resolved (placeholder ∷ os) e = absurd cc

abbrev pub instr_of : OpCode → List Operand → NetQasmInstr
instr_of code os = record { op_code = code; operands = os }
