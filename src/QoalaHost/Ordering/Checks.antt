-- ===== src/QoalaHost/Ordering/Checks.antt =====
-- The theorems about the order of the blocks at four blocks.
use qoala_mlir.Common.{
  ℕ, ◌+◌, ◌≡◌, refl, Bool, true, not, List, [], ◌∷◌, ◌++◌, none, some, ◌==◌, if◌then◌else◌, keep,
  IsNodup, elem, arith,
}
use qoala_mlir.QoalaHost.Ordering.References.{move_remote_references_block_to_begin_lem}
use qoala_mlir.QoalaHost.Ordering.{
  move_remote_references_block_to_begin, group_entanglement_blocks_first, Mark, return_op, blk_meta,
  reorder_blocks_by_milp_order,
}
use qoala_mlir.QoalaHost.Ordering.Results.{
  HasDistinctIds, group_entanglement_blocks_first_lem, reorder_blocks_by_milp_order_lem,
}

abbrev blocks : List ℕ
blocks = 1 ∷ 2 ∷ 3 ∷ 4 ∷ []

blocks-IsNodup : IsNodup blocks
blocks-IsNodup = (refl, (refl, (refl, (refl, tt))))

abbrev is_qc : ℕ → Bool
is_qc b = if b == 2 then true else b == 4

-- Every block starts with its blk_meta.
abbrev id_of : ℕ → ℕ
id_of b = 10 + b

abbrev mark : ℕ → Mark
mark b = blk_meta (id_of b)

blocks-HasDistinctIds : HasDistinctIds mark id_of blocks
blocks-HasDistinctIds b c m n e = omega arith

reordered : reorder_blocks_by_milp_order mark blocks (13 ∷ 12 ∷ []) ≡ some (3 ∷ 2 ∷ 1 ∷ 4 ∷ [])
unfolding reorder_blocks_by_milp_order
reordered = refl

-- An id that no block has is an error.
unknown_id : reorder_blocks_by_milp_order mark blocks (13 ∷ 15 ∷ []) ≡ none
unfolding reorder_blocks_by_milp_order
unknown_id = refl

-- The second block returns and has no blk_meta: to move it behind the others dereferences a null pointer.
return_block :
    reorder_blocks_by_milp_order (λ b. if b == 2 then return_op else mark b) blocks (13 ∷ []) ≡ none
unfolding reorder_blocks_by_milp_order
return_block = refl

group_entanglement_blocks_first_lem_example :
    group_entanglement_blocks_first is_qc blocks
    ≡ some (keep is_qc blocks ++ keep (λ b. not (is_qc b)) blocks)
group_entanglement_blocks_first_lem_example =
    group_entanglement_blocks_first_lem is_qc blocks blocks-IsNodup

chosen-in : (b : ℕ) → elem b (4 ∷ 2 ∷ []) ≡ true → elem b blocks ≡ true
chosen-in b h = ground arith

reorder_blocks_by_milp_order_lem_example :
    reorder_blocks_by_milp_order mark blocks (14 ∷ 12 ∷ [])
    ≡ some ((4 ∷ 2 ∷ []) ++ keep (λ b. not (elem b (4 ∷ 2 ∷ []))) blocks)
reorder_blocks_by_milp_order_lem_example =
    reorder_blocks_by_milp_order_lem mark id_of blocks (4 ∷ 2 ∷ []) (λ b m. refl)
      blocks-HasDistinctIds blocks-IsNodup (refl, (refl, tt)) chosen-in

-- Two blocks refer to remotes.
moved : move_remote_references_block_to_begin is_qc blocks ≡ some (2 ∷ 4 ∷ 1 ∷ 3 ∷ [])
unfolding move_remote_references_block_to_begin
moved = refl

move_remote_references_block_to_begin_lem_example :
    move_remote_references_block_to_begin is_qc (1 ∷ 2 ∷ 3 ∷ 4 ∷ [])
    ≡ some (keep is_qc (2 ∷ 3 ∷ 4 ∷ []) ++ 1 ∷ keep (λ c. not (is_qc c)) (2 ∷ 3 ∷ 4 ∷ []))
move_remote_references_block_to_begin_lem_example =
    move_remote_references_block_to_begin_lem is_qc 1 (2 ∷ 3 ∷ 4 ∷ []) blocks-IsNodup
