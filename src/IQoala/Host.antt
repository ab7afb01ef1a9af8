-- ===== src/IQoala/Host.antt =====
-- The host section: lib/Target/iQoala/MC/iQoalaMCBlocks.cpp and iQoalaMCSections.cpp.
pub mod References
pub mod Deletion
pub mod Types
pub mod Checks
use Prim.Native.String.{String}
use text.Mathlib.Text.{◌==◌ as str_eq}
use qoala_mlir.Common.{
  ℕ, Bool, true, false, List, [], ◌∷◌, ◌++◌, map, Option, none, some, ◌>>=◌, ◌==◌, if◌then◌else◌,
  elem, not, ◌||◌, any, length, get_elem?,
}
use qoala_mlir.IQoala.Program.{
  Opcode, jump, recv_cmsg, run_subroutine, run_request, Operand, Instruction, Block, BlockType, cl,
  cc, ql, qc, get_expression, get_symbol_name, is_empty,
}

-- std::find and erase: the first occurrence only.
unfoldable pub erase_first : ℕ → List ℕ → List ℕ
erase_first x [] = []
erase_first x (y ∷ ys) = if y == x then ys else y ∷ erase_first x ys

unfoldable pub remove_predecessor_if_exists : ℕ → Block → Block
unfolding erase_first
remove_predecessor_if_exists p b = record b { predecessors = erase_first p b.predecessors }

unfoldable pub remove_dependency_if_exists : ℕ → Block → Block
unfolding erase_first
remove_dependency_if_exists d b = record b { dependencies = erase_first d b.dependencies }

clear_if_same : ℕ → Option ℕ → Option ℕ
clear_if_same x none = none
clear_if_same x (some y) = if y == x then none else some y

unfoldable pub remove_prev_comm_if_exists : ℕ → Block → Block
unfolding clear_if_same
remove_prev_comm_if_exists p b = record b { prev_comm = clear_if_same p b.prev_comm }

unfoldable pub remove_prev_ent_if_exists : ℕ → Block → Block
unfolding clear_if_same
remove_prev_ent_if_exists p b = record b { prev_ent = clear_if_same p b.prev_ent }

unfoldable pub remove_all_block_references : List ℕ → Block → Block
unfolding remove_predecessor_if_exists remove_dependency_if_exists remove_prev_comm_if_exists
    remove_prev_ent_if_exists
remove_all_block_references [] b = b
remove_all_block_references (p ∷ ps) b = remove_all_block_references ps (
    remove_prev_ent_if_exists p (
      remove_prev_comm_if_exists p
        (remove_predecessor_if_exists p (remove_dependency_if_exists p b))))

abbrev is_run_request : Opcode → Bool
is_run_request run_request = true
is_run_request _ = false

abbrev is_run_subroutine : Opcode → Bool
is_run_subroutine run_subroutine = true
is_run_subroutine _ = false

abbrev is_recv_cmsg : Opcode → Bool
is_recv_cmsg recv_cmsg = true
is_recv_cmsg _ = false

abbrev is_jump : Opcode → Bool
is_jump jump = true
is_jump _ = false

unfoldable pub block_contains_run_request : Block → Bool
block_contains_run_request b = any (λ i. is_run_request i.opcode) b.instructions

unfoldable pub block_contains_run_subroutine : Block → Bool
block_contains_run_subroutine b = any (λ i. is_run_subroutine i.opcode) b.instructions

unfoldable pub block_contains_recv_msg : Block → Bool
block_contains_recv_msg b = any (λ i. is_recv_cmsg i.opcode) b.instructions

-- std::any_of with a predicate that may fault: it stops at the first hit.
abbrev pub any? {ℓ} : {A : Type ℓ} → (A → Option Bool) → List A → Option Bool
any? p [] = some false
any? p (x ∷ xs) = let rest = any? p xs in p x >>= λ found. if found then some true else rest

abbrev jump_target : Instruction → Option String
jump_target i = do
  target ← get_elem? i.operands 0
  expr ← get_expression target
  get_symbol_name expr

unfoldable pub contains_jump_to : Block → Block → Option Bool
contains_jump_to b destination =
    any?
      (λ i.
        if is_jump i.opcode
        then (jump_target i >>= λ name. some (str_eq destination.name name))
        else some false)
      b.instructions

-- `freed` holds the blocks that were deleted while they still stand in `hostBlocks`: to read one
-- of them is a fault, `none`.
unfoldable pub block_is_used_as_jump_destination : List ℕ → List Block → Block → Option Bool
block_is_used_as_jump_destination freed host_blocks destination =
    any? (λ b. if elem b.id freed then none else contains_jump_to b destination) host_blocks

-- The loop over `hostBlocks`, with `blocksCpy` and `removedBlocksPtrs` as accumulators.
sweep_blocks : List Block → List Block → List ℕ → List Block → Option (List Block × List ℕ)
sweep_blocks host_blocks kept removed [] = some (kept, removed)
sweep_blocks host_blocks kept removed (b ∷ rest) =
    let keep_it = sweep_blocks host_blocks (kept ++ b ∷ []) removed rest in
    let delete_it = sweep_blocks host_blocks kept (b.id ∷ removed) rest in
    block_is_used_as_jump_destination removed host_blocks b >>= λ used.
    if used || not (is_empty b) then keep_it else delete_it

unfoldable pub delete_empty_blocks : List Block → Option (List Block)
unfolding sweep_blocks
delete_empty_blocks host_blocks = sweep_blocks host_blocks [] [] host_blocks >>= λ (kept, removed).
    some (map (remove_all_block_references removed) kept)

abbrev starts_with_recv : List Instruction → Bool
starts_with_recv [] = false
starts_with_recv (i ∷ is) = is_recv_cmsg i.opcode

-- One round of HostSection::setBlockTypes: whether it goes on, and the block's new type.
unfoldable pub set_block_type : Block → Bool × Block
unfolding block_contains_run_request block_contains_run_subroutine block_contains_recv_msg
set_block_type b =
    let single = length b.instructions == 1 in
    if block_contains_run_request b
    then (if single then (true, record b { block_type = qc }) else (false, b))
    else if block_contains_run_subroutine b
    then (if single then (true, record b { block_type = ql }) else (false, b))
    else if block_contains_recv_msg b
    then (if single
        then (if starts_with_recv b.instructions
            then (true, record b { block_type = cc })
            else (false, b))
        else (false, b))
    else (true, b)

-- The success flag, and the section as it is left: a failure keeps the types set before it.
unfoldable pub set_block_types : List Block → Bool × List Block
unfolding set_block_type
set_block_types [] = (true, [])
set_block_types (b ∷ bs) =
    let rest = set_block_types bs in
    let (fine, b') = set_block_type b in if fine then (rest.0, b' ∷ rest.1) else (false, b ∷ bs)
