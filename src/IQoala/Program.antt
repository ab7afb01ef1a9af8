-- ===== src/IQoala/Program.antt =====
-- Instructions and blocks of an iQoala program (include/Target/iQoala/MC/iQoalaMC.h and
-- include/Target/iQoala/iQoala.h). Pointers to blocks and to MLIR operations are numbers.
use Prim.Native.String.{String}
use qoala_mlir.Common.{ℕ, Bool, true, false, List, [], ◌∷◌, Option, none, some}
use qoala_mlir.Common.Int.{ℤ}

pub data RegType : Type 0 where
  local r c m q : RegType

pub record RegReference : Type 0 where
  pub reg_type : RegType
  pub num : ℕ

pub data Expr : Type 0 where
  invalid : Expr
  symbol_ref : String → Expr
  -- target operation, displacement, whether it is resolved
  instruction_ref : ℕ → ℤ → Bool → Expr

-- A float immediate is kept as its bit pattern.
pub data Operand : Type 0 where
  invalid placeholder : Operand
  immediate_i32 immediate_f32 : ℕ → Operand
  register local_register : RegReference → Operand
  expression : Expr → Operand

pub data Opcode : Type 0 where
  unknown assign_cval copy_cval add multiply subtract multiply_constant : Opcode
  bi_cond_multiply jump beq bne bgt blt send_cmsg recv_cmsg : Opcode
  run_subroutine run_request submit_routines join_routines return_result : Opcode

pub record Instruction : Type 0 where
  pub original_op : ℕ
  pub opcode : Opcode
  pub operands : List Operand

pub data BlockType : Type 0 where
  cl cc ql qc : BlockType

pub record Block : Type 0 where
  pub id : ℕ
  pub block_type : BlockType
  pub name : String
  pub instructions : List Instruction
  pub predecessors : List ℕ
  pub dependencies : List ℕ
  pub prev_comm : Option ℕ
  pub prev_ent : Option ℕ
  pub deadlines : List (ℕ × ℕ)

-- iQoalaMCOperand::getExpression and iQoalaMCExpr::getSymbolName; `none` is a failed assertion.
abbrev pub get_expression : Operand → Option Expr
get_expression (expression e) = some e
get_expression _ = none

abbrev pub get_symbol_name : Expr → Option String
get_symbol_name (symbol_ref s) = some s
get_symbol_name _ = none

abbrev pub is_empty : Block → Bool
is_empty b = elim b.instructions [ [] ↦ true | i ∷ is ↦ false ]
