-- ===== src/IQoala/Operands.antt =====
-- Operands of machine instructions and how they print: lib/Target/iQoala/MC/iQoalaMC.cpp. What is
-- written to a stream is a list of tokens, one for each `<<`. `none` is a failed assertion or an
-- emitted error.
use Prim.Native.String.{String}
use qoala_mlir.Common.{
  ℕ, Bool, true, false, List, [], ◌∷◌, Option, none, some, if◌then◌else◌, ◌&&◌, ◌||◌, not,
}
use qoala_mlir.Common.Int.{ℤ, eqb_ℤ, pos}
use qoala_mlir.IQoala.Program.{
  local, r, c, m, q, RegReference, Expr, symbol_ref, instruction_ref, Operand, invalid, placeholder,
  immediate_i32, immediate_f32, register, local_register, expression,
}

pub data Token : Type 0 where
  text : String → Token
  number : ℕ → Token
  signed : ℤ → Token

abbrev pub is_local : RegReference → Bool
is_local ref = elim ref.reg_type [ local ↦ true | _ ↦ false ]

-- Every type but LOCAL = 0.
abbrev pub is_quantum : RegReference → Bool
is_quantum ref = elim ref.reg_type [ local ↦ false | _ ↦ true ]

unfoldable pub create_register_operand : RegReference → Operand
create_register_operand ref = elim ref.reg_type [ local ↦ local_register ref | _ ↦ register ref ]

unfoldable pub get_reg_ref : Operand → Option RegReference
get_reg_ref (register ref) = some ref
get_reg_ref (local_register ref) = some ref
get_reg_ref _ = none

abbrev pub is_placeholder : Operand → Bool
is_placeholder placeholder = true
is_placeholder _ = false

abbrev pub is_immediate : Operand → Bool
is_immediate (immediate_i32 n) = true
is_immediate (immediate_f32 n) = true
is_immediate _ = false

abbrev pub is_register : Operand → Bool
is_register (register ref) = true
is_register _ = false

abbrev pub is_local_register : Operand → Bool
is_local_register (local_register ref) = true
is_local_register _ = false

abbrev pub is_expression : Operand → Bool
is_expression (expression e) = true
is_expression _ = false

-- isExpression() and getExpression()->isInstructionRef(), or ->isSymbolRef()
abbrev pub is_instruction_ref : Operand → Bool
is_instruction_ref (expression (instruction_ref target d resolved)) = true
is_instruction_ref _ = false

abbrev pub is_symbol_ref : Operand → Bool
is_symbol_ref (expression (symbol_ref s)) = true
is_symbol_ref _ = false

unfoldable pub print_expr : Expr → Option (List Token)
print_expr invalid = none
print_expr (symbol_ref s) = some (text s ∷ [])
print_expr (instruction_ref target d resolved) =
    if resolved && not (eqb_ℤ d (pos 0)) then some (signed d ∷ []) else none

unfoldable pub format_register : RegReference → List Token
format_register ref = elim ref.reg_type [
  | local ↦ text "%" ∷ number ref.num ∷ []
  | r ↦ text "R" ∷ number ref.num ∷ []
  | c ↦ text "C" ∷ number ref.num ∷ []
  | m ↦ text "M" ∷ number ref.num ∷ []
  | q ↦ text "Q" ∷ number ref.num ∷ []
]

unfoldable pub print_operand : Operand → Option (List Token)
unfolding print_expr format_register
print_operand invalid = none
print_operand placeholder = some (text "PLACEHOLDER_OPERAND" ∷ [])
print_operand (immediate_i32 n) = some (number n ∷ [])
print_operand (immediate_f32 n) = none
print_operand (register ref) = some (format_register ref)
print_operand (local_register ref) = some (format_register ref)
print_operand (expression e) = print_expr e

-- The number of operands and a check for each: a run of assertions.
abbrev pub one : (Operand → Bool) → List Operand → Bool
one p (x ∷ []) = p x
one p _ = false

abbrev pub two : (Operand → Bool) → (Operand → Bool) → List Operand → Bool
two p p' (x ∷ y ∷ []) = p x && p' y
two p p' _ = false

abbrev pub three : (Operand → Bool) → (Operand → Bool) → (Operand → Bool) → List Operand → Bool
three p p' p'' (x ∷ y ∷ z ∷ []) = p x && p' y && p'' z
three p p' p'' _ = false

abbrev pub four :
    (Operand → Bool) → (Operand → Bool) → (Operand → Bool) → (Operand → Bool) → List Operand → Bool
four p p' p'' p''' (x ∷ y ∷ z ∷ w ∷ []) = p x && p' y && p'' z && p''' w
four p p' p'' p''' _ = false

abbrev pub register_or_immediate : Operand → Bool
register_or_immediate o = is_register o || is_immediate o
