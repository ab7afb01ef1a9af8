-- ===== src/IQoala/Host/Checks.antt =====
-- The theorems about the host section at concrete inputs.
use qoala_mlir.Common.{◌≡◌, refl, true, List, [], ◌∷◌, ◌++◌, map, none, some, all}
use qoala_mlir.IQoala.Program.{Instruction, Block, cl, run_request, add, Opcode}
use qoala_mlir.IQoala.Host.{
  set_block_types, delete_empty_blocks, remove_all_block_references,
  block_is_used_as_jump_destination, contains_jump_to,
}
use qoala_mlir.IQoala.Host.Types.{is_separate, typed, set_block_types_lem}
use qoala_mlir.IQoala.Host.Deletion.{
  JumpsAreNames, forgetting, delete_empty_blocks-last, delete_empty_blocks-freed,
}
use qoala_mlir.IQoala.Host.References.{without, cleared, remove_all_block_references_lem}

abbrev instr : Opcode → Instruction
instr code = record { original_op = 0; opcode = code; operands = [] }

-- A request, an empty block that it depends on, and a computation.
abbrev request : Block
request = record {
  id = 1;
  block_type = cl;
  name = "b1";
  instructions = instr run_request ∷ [];
  predecessors = 2 ∷ [];
  dependencies = 2 ∷ 3 ∷ [];
  prev_comm = none;
  prev_ent = some 2;
  deadlines = (2, 100) ∷ [];
}

abbrev nothing : Block
nothing = record {
  id = 2;
  block_type = cl;
  name = "b2";
  instructions = [];
  predecessors = [];
  dependencies = [];
  prev_comm = none;
  prev_ent = none;
  deadlines = [];
}

abbrev computation : Block
computation = record nothing { id = 3; name = "b3"; instructions = instr add ∷ instr add ∷ [] }

abbrev program : List Block
program = request ∷ computation ∷ []

set_block_types_example :
    ((set_block_types program).0 ≡ all is_separate program)
    × (all is_separate program ≡ true → (set_block_types program).1 ≡ map typed program)
set_block_types_example = set_block_types_lem program

names_last : JumpsAreNames (program ++ nothing ∷ [])
unfolding block_is_used_as_jump_destination contains_jump_to
names_last d e = absurd cc

delete_empty_blocks-last_example :
    delete_empty_blocks (program ++ nothing ∷ []) ≡ some (map (forgetting 2) program)
unfolding block_is_used_as_jump_destination contains_jump_to
delete_empty_blocks-last_example =
    delete_empty_blocks-last program nothing refl refl names_last refl
      (((refl, (refl, tt)), (refl, tt)), ((tt, tt), tt))

names_inner : JumpsAreNames (request ∷ nothing ∷ computation ∷ [])
unfolding block_is_used_as_jump_destination contains_jump_to
names_inner d e = absurd cc

delete_empty_blocks-freed_example :
    delete_empty_blocks (request ∷ nothing ∷ computation ∷ []) ≡ none
unfolding block_is_used_as_jump_destination contains_jump_to
delete_empty_blocks-freed_example =
    delete_empty_blocks-freed (request ∷ []) nothing computation [] refl refl names_inner refl refl
      refl

remove_all_block_references_example :
    remove_all_block_references (2 ∷ []) request ≡ record request {
      dependencies = without (2 ∷ []) request.dependencies;
      predecessors = without (2 ∷ []) request.predecessors;
      prev_comm = cleared (2 ∷ []) request.prev_comm;
      prev_ent = cleared (2 ∷ []) request.prev_ent;
    }
remove_all_block_references_example =
    remove_all_block_references_lem (2 ∷ []) request (refl, (refl, tt)) (refl, tt)
