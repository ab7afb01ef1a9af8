-- ===== src/QoalaHost/Ordering.antt =====
-- lib/Analysis/QoalaHost/EntanglementFirst.cpp and reorderBlocksByMilpOrder of MILPReordering.cpp: the
-- blocks of a function are moved in its list of blocks. A block and a block id are numbers, a pointer to a
-- block that may be nullptr is an option, and an emitted error and a null dereference are `none`.
pub mod Placement
pub mod Results
pub mod References
mod Checks
use qoala_mlir.Common.{
  zero, suc, ◌+◌, length, ℕ, Bool, true, false, not, List, [], ◌∷◌, Option, none, some, ◌>>=◌, ◌==◌,
  if◌then◌else◌, keep,
}

abbrev pub front : List ℕ → Option ℕ
front [] = none
front (b ∷ blocks) = some b

-- Block::getNextNode
unfoldable pub get_next_node : ℕ → List ℕ → Option ℕ
get_next_node b [] = none
get_next_node b (c ∷ blocks) = if c == b then front blocks else get_next_node b blocks

abbrev pub remove : ℕ → List ℕ → List ℕ
remove b blocks = keep (λ c. not (c == b)) blocks

unfoldable pub insert_before : ℕ → ℕ → List ℕ → List ℕ
insert_before b position [] = b ∷ []
insert_before b position (c ∷ blocks) =
    if c == position then b ∷ c ∷ blocks else c ∷ insert_before b position blocks

-- Block::moveBefore; before itself, a block stays where it is.
unfoldable pub move_before : ℕ → ℕ → List ℕ → List ℕ
unfolding insert_before
move_before b position blocks =
    if b == position then blocks else insert_before b position (remove b blocks)

-- Each block is moved before the insertion point, which then is the block behind it.
unfoldable pub place_all : Option ℕ → List ℕ → List ℕ → Option (List ℕ)
unfolding move_before get_next_node
place_all position [] blocks = some blocks
place_all none (b ∷ moved) blocks = none
place_all (some position) (b ∷ moved) blocks =
    let next = move_before b position blocks in place_all (get_next_node b next) moved next

-- `is_qc` tells whether a block starts with an operation of a QC block.
unfoldable pub group_entanglement_blocks_first : (ℕ → Bool) → List ℕ → Option (List ℕ)
unfolding place_all
group_entanglement_blocks_first is_qc blocks = place_all (front blocks) (keep is_qc blocks) blocks

-- The range-based loop of moveRemoteReferencesBlockToBegin goes on behind the block that it has moved.
unfoldable pub move_from : (ℕ → Bool) → ℕ → ℕ → Option ℕ → List ℕ → Option (List ℕ)
unfolding move_before get_next_node
move_from has_ref front_insertion_point fuel none blocks = some blocks
move_from has_ref front_insertion_point zero (some b) blocks = none
move_from has_ref front_insertion_point (suc fuel) (some b) blocks =
    let next = if has_ref b then move_before b front_insertion_point blocks else blocks in
    move_from has_ref front_insertion_point fuel (get_next_node b next) next

-- Each move restarts the loop at the front block: one walk for each block.
abbrev pub rounds : ℕ → ℕ → ℕ
rounds zero n = 0
rounds (suc moves) n = suc (suc n) + rounds moves n

-- `has_ref` tells whether a block contains a RemoteIDRefOp. Without a block there is no front().
unfoldable pub move_remote_references_block_to_begin : (ℕ → Bool) → List ℕ → Option (List ℕ)
unfolding move_from
move_remote_references_block_to_begin has_ref [] = none
move_remote_references_block_to_begin has_ref (b ∷ blocks) =
    move_from has_ref b (suc (length blocks + rounds (length blocks) (length blocks))) (some b)
      (b ∷ blocks)

-- What the loop over the operations of a block meets first.
pub data Mark : Type 0 where
  return_op neither : Mark
  blk_meta : ℕ → Mark

abbrev pub Map : Type 0
Map = List (ℕ × ℕ)

unfoldable pub lookup : Map → ℕ → Option ℕ
lookup [] k = none
lookup ((j, v) ∷ m) k = if j == k then some v else lookup m k

abbrev pub mark_block : ℕ → Mark → Map × Option ℕ → Map × Option ℕ
mark_block b return_op (id_to_block, return_block) = (id_to_block, some b)
mark_block b (blk_meta id) (id_to_block, return_block) = ((id, b) ∷ id_to_block, return_block)
mark_block b neither found = found

-- idToBlock and returnBlock.
unfoldable pub mark_blocks : (ℕ → Mark) → List ℕ → Map × Option ℕ → Map × Option ℕ
mark_blocks mark [] found = found
mark_blocks mark (b ∷ blocks) found = mark_blocks mark blocks (mark_block b (mark b) found)

unfoldable pub find_blocks : Map → List ℕ → Option (List ℕ)
unfolding lookup
find_blocks m [] = some []
find_blocks m (id ∷ ids) = do b ← lookup m id; rest ← find_blocks m ids; some (b ∷ rest)

-- `moveBefore(nullptr)` dereferences the null pointer.
unfoldable pub move_return_block : Option ℕ → List ℕ → Option (List ℕ)
unfolding get_next_node
move_return_block none blocks = some blocks
move_return_block (some b) blocks = elim (get_next_node b blocks) [
  | none ↦ some blocks
  | some next ↦ none
]

-- Without the grouping of entanglement requests; an unknown id is an error, after which the order of the
-- blocks does not matter.
unfoldable pub reorder_blocks_by_milp_order : (ℕ → Mark) → List ℕ → List ℕ → Option (List ℕ)
unfolding mark_blocks find_blocks place_all move_return_block
reorder_blocks_by_milp_order mark blocks ordered_block_ids =
    let found = mark_blocks mark blocks ([], none) in
    find_blocks found.0 ordered_block_ids >>= λ moved.
    place_all (front blocks) moved blocks >>= move_return_block found.1
