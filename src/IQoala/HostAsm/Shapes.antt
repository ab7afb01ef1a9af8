-- ===== src/IQoala/HostAsm/Shapes.antt =====
-- The operands that the branches of the builder of host instructions let through.
use qoala_mlir.Common.{
  ℕ, zero, suc, ◌+◌, ◌≤◌, Bool, true, false, List, [], ◌∷◌, ◌≡◌, refl, ap, some-inj, none, some,
  ◌&&◌, all, length, ◌==◌, arith, inl, inr, Bool-cases,
}
use qoala_mlir.IQoala.Program.{
  Expr, symbol_ref, instruction_ref, Operand, placeholder, immediate_i32, immediate_f32, register,
  local_register, expression, Opcode, bi_cond_multiply, recv_cmsg,
}
use qoala_mlir.IQoala.Operands.{
  is_immediate, is_local_register, is_expression, is_symbol_ref, one, two, three, four,
}
use qoala_mlir.IQoala.HostAsm.{HostInstr, InstrType, accept, check_call, callee_first}
use qoala_mlir.IQoala.HostAsm.Printing.{is_plain, callee_first-shape}

-- What the builder leaves unchecked: no float, placeholder or plain register among the operands, a result
-- register for recv_cmsg, and the operands of bcond_mult_const.
abbrev pub is_ready : Opcode → List Operand → Bool
is_ready recv_cmsg os = two is_local_register is_local_register os && all is_plain os
is_ready bi_cond_multiply os =
    four is_local_register is_local_register is_local_register is_immediate os && all is_plain os
is_ready _ os = all is_plain os

pub accepted :
    (ok : Bool) (results n : ℕ) (t t' : InstrType) (os os' : List Operand)
    → accept ok results t os ≡ some (n, t', os')
    → (ok ≡ true) × (os ≡ os')
accepted true results n t t' os os' e =
    (refl, ap (λ x. x.2) (some-inj (results, t, os) (n, t', os') e))
accepted false results n t t' os os' e = absurd cc

pub length-one : (p : Operand → Bool) (os : List Operand) → one p os ≡ true → length os ≡ 1
length-one p [] e = absurd cc
length-one p (a ∷ []) e = refl
length-one p (a ∷ b ∷ os) e = absurd cc

pub length-two : (p q : Operand → Bool) (os : List Operand) → two p q os ≡ true → length os ≡ 2
length-two p q [] e = absurd cc
length-two p q (a ∷ []) e = absurd cc
length-two p q (a ∷ b ∷ []) e = refl
length-two p q (a ∷ b ∷ c ∷ os) e = absurd cc

pub length-three :
    (p q r : Operand → Bool) (os : List Operand) → three p q r os ≡ true → length os ≡ 3
length-three p q r [] e = absurd cc
length-three p q r (a ∷ []) e = absurd cc
length-three p q r (a ∷ b ∷ []) e = absurd cc
length-three p q r (a ∷ b ∷ c ∷ []) e = refl
length-three p q r (a ∷ b ∷ c ∷ d ∷ os) e = absurd cc

pub length-four :
    (p q r s : Operand → Bool) (os : List Operand) → four p q r s os ≡ true → length os ≡ 4
length-four p q r s [] e = absurd cc
length-four p q r s (a ∷ []) e = absurd cc
length-four p q r s (a ∷ b ∷ []) e = absurd cc
length-four p q r s (a ∷ b ∷ c ∷ []) e = absurd cc
length-four p q r s (a ∷ b ∷ c ∷ d ∷ []) e = refl
length-four p q r s (a ∷ b ∷ c ∷ d ∷ f ∷ os) e = absurd cc

symbol-expression : (o : Operand) → is_symbol_ref o ≡ true → is_expression o ≡ true
symbol-expression (expression x) e = refl
symbol-expression (register ref) e = absurd cc
symbol-expression (local_register ref) e = absurd cc
symbol-expression (immediate_i32 n) e = absurd cc
symbol-expression (immediate_f32 n) e = absurd cc
symbol-expression Operand.invalid e = absurd cc
symbol-expression placeholder e = absurd cc

pub symbol-plain : (o : Operand) → is_symbol_ref o ≡ true → is_plain o ≡ true
symbol-plain (expression (symbol_ref name)) e = refl
symbol-plain (expression (instruction_ref target d resolved)) e = absurd cc
symbol-plain (expression Expr.invalid) e = absurd cc
symbol-plain (register ref) e = absurd cc
symbol-plain (local_register ref) e = absurd cc
symbol-plain (immediate_i32 n) e = absurd cc
symbol-plain (immediate_f32 n) e = absurd cc
symbol-plain Operand.invalid e = absurd cc
symbol-plain placeholder e = absurd cc

pub one-symbol : (os : List Operand) → one is_symbol_ref os ≡ true → one is_expression os ≡ true
one-symbol [] e = absurd cc
one-symbol (a ∷ []) e = symbol-expression a e
one-symbol (a ∷ b ∷ os) e = absurd cc

pub three-symbol :
    (p q : Operand → Bool) (os : List Operand)
    → three p q is_symbol_ref os ≡ true
    → three p q is_expression os ≡ true
three-symbol p q [] e = absurd cc
three-symbol p q (a ∷ []) e = absurd cc
three-symbol p q (a ∷ b ∷ []) e = absurd cc
three-symbol p q (a ∷ b ∷ c ∷ []) e =
    let w = symbol-expression c (ground arith) in
    let u : p a ≡ true = ground arith in let v : q b ≡ true = ground arith in rw (u, v, w) refl
three-symbol p q (a ∷ b ∷ c ∷ d ∷ os) e = absurd cc

pub check_call-shape :
    (results extras : ℕ) (os os' : List Operand)
    → check_call results extras os ≡ some os'
    → (callee : Operand) × (args : List Operand) × (os' ≡ callee ∷ args)
      × (is_symbol_ref callee ≡ true)
      × (all is_local_register args ≡ true)
      × (results ≤ length args)
unfolding check_call
check_call-shape results zero os os' e = absurd cc
check_call-shape results (suc extras) os os' e =
    elim (Bool-cases (length os == results + suc extras)) [
      | inl t ↦
          let c : callee_first os ≡ some os' = rw t at e in
          let (callee, args, q, h, l, n) = callee_first-shape os os' c in
          let k = ap length q in (callee, args, q, h, l, ground arith)
      | inr t ↦ absurd (let p : none ≡ some os' = rw t at e in cc)
    ]

abbrev pub instr_of : Opcode → ℕ → InstrType → List Operand → HostInstr
instr_of code n t os = record { op_code = code; num_results = n; instr_type = t; operands = os }
