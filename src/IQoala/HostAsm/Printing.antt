-- ===== src/IQoala/HostAsm/Printing.antt =====
-- What the builder of host instructions accepts their printer prints.
use Prim.Native.String.{String}
use qoala_mlir.Common.{
  ℕ, zero, suc, ◌≤◌, Bool, true, false, List, [], ◌∷◌, ◌++◌, ◌≡◌, refl, sym, ap, bind-some, Option,
  none, some, ◌>>=◌, if◌then◌else◌, all, length, arith, inl, inr, Bool-cases,
}
use qoala_mlir.IQoala.Program.{
  Expr, symbol_ref, instruction_ref, Operand, placeholder, immediate_i32, immediate_f32, register,
  local_register, expression,
}
use qoala_mlir.IQoala.Operands.{
  Token, text, is_local_register, is_symbol_ref, print_operand, print_expr,
}
use qoala_mlir.IQoala.HostAsm.{
  print_separated, split_last, print_arguments, print_instr_generic, split_results, print_results,
  print_call_arguments, print_call_instr, callee_first, behind_callee,
}

-- Local registers, integers and names.
abbrev pub is_plain : Operand → Bool
is_plain (local_register ref) = true
is_plain (immediate_i32 n) = true
is_plain (expression (symbol_ref name)) = true
is_plain _ = false

abbrev pub Prints : Option (List Token) → Type 0
Prints o = (l : List Token) × (o ≡ some l)

print_operand-Prints : (o : Operand) → is_plain o ≡ true → Prints (print_operand o)
unfolding print_operand print_expr
print_operand-Prints (local_register ref) e = (_, refl)
print_operand-Prints (immediate_i32 n) e = (_, refl)
print_operand-Prints (expression (symbol_ref name)) e = (_, refl)
print_operand-Prints (expression (instruction_ref target d resolved)) e = absurd cc
print_operand-Prints (expression Expr.invalid) e = absurd cc
print_operand-Prints (register ref) e = absurd cc
print_operand-Prints Operand.invalid e = absurd cc
print_operand-Prints placeholder e = absurd cc
print_operand-Prints (immediate_f32 n) e = absurd cc

print_separated-Prints :
    (sep : String) (os : List Operand) → all is_plain os ≡ true → Prints (print_separated sep os)
unfolding print_separated
print_separated-Prints sep [] e = ([], refl)
print_separated-Prints sep (o ∷ []) e = print_operand-Prints o (ground arith)
print_separated-Prints sep (o ∷ o' ∷ os) e =
    let (l, p) = print_operand-Prints o (ground arith) in
    let (l', p') = print_separated-Prints sep (o' ∷ os) (ground arith) in
    (l ++ text sep ∷ l', rw (p, p') refl)

split_last-plain :
    (o : Operand) (os : List Operand)
    → all is_plain (o ∷ os) ≡ true
    → (front : List Operand) × (back : Operand) × (split_last (o ∷ os) ≡ some (front, back))
      × (all is_plain front ≡ true)
      × (is_plain back ≡ true)
unfolding split_last
split_last-plain o [] e = ([], o, refl, refl, ground arith)
split_last-plain o (o' ∷ os) e =
    let (front, back, p, q, r) = split_last-plain o' os (ground arith) in
    let h : is_plain o ≡ true = ground arith in (o ∷ front, back, rw p refl, rw (h, q) refl, r)

print_arguments-Prints :
    (mnemonic : String) (last : Bool) (os : List Operand)
    → all is_plain os ≡ true
    → 1 ≤ length os
    → Prints (print_arguments mnemonic last os)
unfolding print_arguments
print_arguments-Prints mnemonic false os e n =
    let (l, p) = print_separated-Prints ", " os e in
    (text mnemonic ∷ text "(" ∷ l ++ text ")" ∷ [], rw p refl)
print_arguments-Prints mnemonic true [] e n = absurd (omega arith)
print_arguments-Prints mnemonic true (o ∷ os) e n =
    let (front, back, p, q, r) = split_last-plain o os e in
    let (l, p') = print_separated-Prints ", " front q in
    let (l', p'') = print_operand-Prints back r in
    (text mnemonic ∷ text "(" ∷ l ++ text ")" ∷ text " : " ∷ l', rw (p, p', p'') refl)

-- With one operand more than a result takes, the generic form prints.
pub generic-Prints :
    (mnemonic : String) (first last ok : Bool) (os : List Operand)
    → ok ≡ true
    → all is_plain os ≡ true
    → (if first then 2 else 1) ≤ length os
    → Prints (if ok then print_instr_generic mnemonic first last os else none)
unfolding print_instr_generic
generic-Prints mnemonic false last ok os h e n =
    let (l, p) = print_arguments-Prints mnemonic last os e n in (l, rw (h, p) refl)
generic-Prints mnemonic true last ok [] h e n = absurd (omega arith)
generic-Prints mnemonic true last ok (o ∷ os) h e n =
    let (l, p) = print_operand-Prints o (ground arith) in
    let (l', p') = print_arguments-Prints mnemonic last os (ground arith) (omega arith) in
    (l ++ text " = " ∷ l', rw (h, p, p') refl)

split_results-plain :
    (n : ℕ) (os : List Operand)
    → all is_plain os ≡ true
    → n ≤ length os
    → (front : List Operand) × (back : List Operand) × (split_results n os ≡ some (front, back))
      × (all is_plain front ≡ true)
      × (all is_plain back ≡ true)
unfolding split_results
split_results-plain zero os e n = ([], os, refl, refl, e)
split_results-plain (suc k) [] e n = absurd (omega arith)
split_results-plain (suc k) (o ∷ os) e n =
    let (front, back, p, q, r) = split_results-plain k os (ground arith) (omega arith) in
    let h : is_plain o ≡ true = ground arith in (o ∷ front, back, rw p refl, rw (h, q) refl, r)

pub split_results-local :
    (n : ℕ) (os : List Operand)
    → all is_local_register os ≡ true
    → n ≤ length os
    → (front : List Operand) × (back : List Operand) × (split_results n os ≡ some (front, back))
      × (all is_local_register front ≡ true)
unfolding split_results
split_results-local zero os e n = ([], os, refl, refl)
split_results-local (suc k) [] e n = absurd (omega arith)
split_results-local (suc k) (o ∷ os) e n =
    let (front, back, p, q) = split_results-local k os (ground arith) (omega arith) in
    let h : is_local_register o ≡ true = ground arith in
    (o ∷ front, back, rw p refl, rw (h, q) refl)

print_results-Prints :
    (n : ℕ) (os : List Operand) → all is_plain os ≡ true → Prints (print_results n os)
print_results-Prints zero os e = ([], refl)
print_results-Prints (suc n) os e =
    let (l, p) = print_separated-Prints "; " os e in
    (text "tuple<" ∷ l ++ text "> = " ∷ [], rw p refl)

print_call_arguments-Prints :
    (os : List Operand) → all is_plain os ≡ true → Prints (print_call_arguments os)
print_call_arguments-Prints [] e = ([], refl)
print_call_arguments-Prints (o ∷ os) e =
    let (l, p) = print_separated-Prints "; " (o ∷ os) e in
    (text "tuple<" ∷ l ++ text ">" ∷ [], rw p refl)

pub print_call_instr-Prints :
    (mnemonic : String) (n : ℕ) (callee : Operand) (os : List Operand)
    → is_plain callee ≡ true
    → all is_plain os ≡ true
    → n ≤ length os
    → Prints (print_call_instr mnemonic n (callee ∷ os))
unfolding print_call_instr
print_call_instr-Prints mnemonic n callee os h e le =
    let (front, back, p, q, r) = split_results-plain n os e le in
    let (l, p1) = print_results-Prints n front q in
    let (l', p2) = print_call_arguments-Prints back r in
    let (l'', p3) = print_operand-Prints callee h in
    (l ++ text mnemonic ∷ text "(" ∷ l' ++ text ")" ∷ text " : " ∷ l'', rw (p, p1, p2, p3) refl)

local-plain : (o : Operand) → is_local_register o ≡ true → is_plain o ≡ true
local-plain (local_register ref) e = refl
local-plain (register ref) e = absurd cc
local-plain (immediate_i32 n) e = absurd cc
local-plain (immediate_f32 n) e = absurd cc
local-plain (expression x) e = absurd cc
local-plain Operand.invalid e = absurd cc
local-plain placeholder e = absurd cc

pub locals-plain : (os : List Operand) → all is_local_register os ≡ true → all is_plain os ≡ true
locals-plain [] e = refl
locals-plain (o ∷ os) e =
    let p = local-plain o (ground arith) in let q = locals-plain os (ground arith) in rw (p, q) refl

-- A call that was accepted: the callee's name, then local registers, as many as there were.
pub callee_first-shape :
    (os os' : List Operand)
    → callee_first os ≡ some os'
    → (callee : Operand) × (args : List Operand) × (os' ≡ callee ∷ args)
      × (is_symbol_ref callee ≡ true)
      × (all is_local_register args ≡ true)
      × (length os' ≡ length os)
unfolding callee_first
callee_first-shape [] os' e = absurd cc
callee_first-shape (o ∷ []) os' e = elim (Bool-cases (is_symbol_ref o)) [
  | inl t ↦ let p : o ∷ [] ≡ os' = ground arith in (o, [], sym p, t, refl, ap length (sym p))
  | inr t ↦ absurd (let p : none ≡ some os' = rw t at e in cc)
]
callee_first-shape (o ∷ o' ∷ os) os' e = elim (Bool-cases (is_local_register o)) [
  | inl t ↦
      let e' : (callee_first (o' ∷ os) >>= λ moved. behind_callee o moved) ≡ some os' = rw t at e in
      let (moved, p, p') =
        bind-some (callee_first (o' ∷ os)) (λ moved. behind_callee o moved) os' e' in
      let (callee, args, q, s, l, n) = callee_first-shape (o' ∷ os) moved p in
      let r : some (callee ∷ o ∷ args) ≡ some os' = rw q at p' in
      let r' : os' ≡ callee ∷ o ∷ args = cc in
      (callee, o ∷ args, r', s, rw (t, l) refl, rw r' (let k = ap length q in omega arith))
  | inr t ↦ absurd (let p : none ≡ some os' = rw t at e in cc)
]
