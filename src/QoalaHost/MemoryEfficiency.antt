-- ===== src/QoalaHost/MemoryEfficiency.antt =====
-- lib/Analysis/QoalaHost/QMemoryEfficiency.cpp: the traversal of the blocks that counts the qubits in use.
-- A block is a number, the region is the list of its blocks, and `contents` gives the operations of a
-- block. Counters are uint32_t. `none` is a traversal that ran out of fuel.
pub mod Peak
pub mod Runs
pub mod Walk
pub mod Counters
pub mod Efficiency
mod Checks
use qoala_mlir.Common.{
  ℕ, zero, suc, ◌+◌, ◌-◌, ◌%◌, ◌^◌, Bool, true, false, not, ◌&&◌, ◌||◌, List, [], ◌∷◌, ◌++◌, Option,
  none, some, ◌>>=◌, ◌==◌, if◌then◌else◌, elem, length, leb,
}

-- The operations of a callee.
pub data CalleeOp : Type 0 where
  qalloc measure other : CalleeOp

-- The operations of a block. A call has the operations of its callee, in the order of the walk.
pub data BlockOp : Type 0 where
  call : List CalleeOp → BlockOp
  cond_branch : ℕ → ℕ → BlockOp
  branch : ℕ → BlockOp
  plain : BlockOp

-- BranchCounts.
pub record Counts : Type 0 where
  pub virtual_qubits : ℕ
  pub physical_qubits : ℕ
  pub measured : ℕ

abbrev pub increment : ℕ → ℕ
increment n = (n + 1) % 2 ^ 32

unfoldable pub count_op : CalleeOp → Counts → Counts
count_op qalloc c =
    if c.measured == 0
    then record c {
      virtual_qubits = increment c.virtual_qubits;
      physical_qubits = increment c.physical_qubits;
    }
    else record c { virtual_qubits = increment c.virtual_qubits; measured = c.measured - 1 }
count_op measure c = record c { measured = increment c.measured }
count_op other c = c

unfoldable pub process_callee_q_mem_ops : List CalleeOp → Counts → Counts
unfolding count_op
process_callee_q_mem_ops [] c = c
process_callee_q_mem_ops (op ∷ ops) c = process_callee_q_mem_ops ops (count_op op c)

-- The calls of a block, up to its first branch.
unfoldable pub process_block : List BlockOp → Counts → Counts
unfolding process_callee_q_mem_ops
process_block [] c = c
process_block (call callee ∷ ops) c = process_block ops (process_callee_q_mem_ops callee c)
process_block (cond_branch true_dest false_dest ∷ ops) c = c
process_block (branch dest ∷ ops) c = c
process_block (plain ∷ ops) c = process_block ops c

-- Block::getTerminator: the last operation.
unfoldable pub get_terminator : List BlockOp → BlockOp
get_terminator [] = plain
get_terminator (op ∷ []) = op
get_terminator (op ∷ next ∷ ops) = get_terminator (next ∷ ops)

unfoldable pub scan_next_physical_block : List ℕ → List ℕ → List ℕ → Option ℕ
scan_next_physical_block [] visited cond_br_targets = none
scan_next_physical_block (b ∷ region) visited cond_br_targets =
    let rest = scan_next_physical_block region visited cond_br_targets in
    if not (elem b visited) && not (elem b cond_br_targets) then some b else rest

-- The worst of the two branches.
abbrev pub pick : Counts → Counts → Counts
pick true_counts false_counts =
    if leb false_counts.physical_qubits true_counts.physical_qubits
    then true_counts
    else false_counts

module _ (region : List ℕ) (contents : ℕ → List BlockOp) where
  -- One round of fuel for each level of the loop and the recursion.
  unfoldable pub traverse_cfg_and_count_q_mem :
      ℕ → Option ℕ → List ℕ → Counts → List ℕ → Option (List ℕ × Counts)
  unfolding process_block get_terminator scan_next_physical_block
  traverse_cfg_and_count_q_mem fuel none visited c cond_br_targets = some (visited, c)
  traverse_cfg_and_count_q_mem zero (some block) visited c cond_br_targets = none
  traverse_cfg_and_count_q_mem (suc fuel) (some block) visited c cond_br_targets =
      elim (elem block visited) [
        | true ↦ some (visited, c)
        | false ↦
            let visited = block ∷ visited in
            let c = process_block (contents block) c in
            elim (get_terminator (contents block)) [
              | cond_branch true_dest false_dest ↦ do
                let inner_forbidden = false_dest ∷ true_dest ∷ cond_br_targets
                on_true ←
                    traverse_cfg_and_count_q_mem fuel (some true_dest) visited c inner_forbidden
                on_false ←
                    traverse_cfg_and_count_q_mem fuel (some false_dest) visited c inner_forbidden
                let visited' = on_false.0 ++ on_true.0
                traverse_cfg_and_count_q_mem fuel
                    (scan_next_physical_block region visited' cond_br_targets) visited'
                    (pick on_true.1 on_false.1) cond_br_targets
              | branch dest ↦
                  traverse_cfg_and_count_q_mem fuel (some dest) visited c cond_br_targets
              | _ ↦
                  traverse_cfg_and_count_q_mem fuel
                    (scan_next_physical_block region visited cond_br_targets) visited c
                    cond_br_targets
            ]
      ]

  -- From the first block, with a round of fuel for each block and one more.
  unfoldable pub q_memory_efficiency : ℕ → Option (List ℕ × Counts)
  unfolding traverse_cfg_and_count_q_mem
  q_memory_efficiency front =
      traverse_cfg_and_count_q_mem (suc (length region)) (some front) []
        (record { virtual_qubits = 0; physical_qubits = 0; measured = 0 }) []
