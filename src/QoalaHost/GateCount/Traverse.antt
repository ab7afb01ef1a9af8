-- ===== src/QoalaHost/GateCount/Traverse.antt =====
-- lib/Analysis/QoalaHost/GateCount.cpp: the traversal of the blocks. It only hands the state on to the
-- processing of a block and to the comparison of two branches, so both are parameters; `count_gates` fills
-- them. `none` is a traversal that ran out of fuel, a failed assertion is a value of the state.
use qoala_mlir.Common.{
  ℕ, zero, suc, ◌+◌, Bool, true, false, List, [], ◌∷◌, Option, none, some, ◌>>=◌, if◌then◌else◌,
  elem, all, length, leb,
}
use qoala_mlir.QoalaHost.Graph.{deps_of, contains_key}
use qoala_mlir.QoalaHost.Traversal.{BlockPrerequisites, scan_for_ready_block}
use qoala_mlir.QoalaHost.GateCount.{Call, GateCountState, no_gates, process_callee_gates}

pub data BlockOp : Type 0 where
  call : Call → BlockOp
  cond_branch : ℕ → ℕ → BlockOp
  branch : ℕ → BlockOp
  plain : BlockOp

-- Block::getTerminator: the last operation.
unfoldable pub get_terminator : List BlockOp → BlockOp
get_terminator [] = plain
get_terminator (op ∷ []) = op
get_terminator (op ∷ next ∷ ops) = get_terminator (next ∷ ops)

unfoldable pub block_deps_met : ℕ → List ℕ → BlockPrerequisites → Bool
block_deps_met block visited prereqs =
    if contains_key prereqs.dependencies block
    then all (λ dep. elem dep visited) (deps_of prereqs.dependencies block)
    else true

module _ {S : Type 0} (process : ℕ → S → S) (true_is_worse : S → S → Bool) (region : List ℕ)
    (terminator : ℕ → BlockOp) (prereqs : BlockPrerequisites) where
  -- The inner loop; `visit` is the traversal from a block.
  unfoldable pub drain :
      (ℕ → List ℕ → S → Option (List ℕ × S)) → ℕ → ℕ → List ℕ → S → List ℕ → Option (List ℕ × S)
  unfolding block_deps_met scan_for_ready_block
  drain visit zero block visited s inner_forbidden = none
  drain visit (suc rounds) block visited s inner_forbidden =
      elim (block_deps_met block visited prereqs) [
        | true ↦ some (visited, s)
        | false ↦ elim (scan_for_ready_block region visited prereqs inner_forbidden) [
          | none ↦ some (visited, s)
          | some ready ↦ do
            next ← visit ready visited s
            drain visit rounds block next.0 next.1 inner_forbidden
        ]
      ]

  -- A round of fuel for each level of the loop and the recursion.
  unfoldable pub traverse_cfg_and_count_gates :
      ℕ → Option ℕ → List ℕ → S → List ℕ → Option (List ℕ × S)
  unfolding drain scan_for_ready_block
  traverse_cfg_and_count_gates fuel none visited s cond_br_targets = some (visited, s)
  traverse_cfg_and_count_gates zero (some block) visited s cond_br_targets = none
  traverse_cfg_and_count_gates (suc fuel) (some block) visited s cond_br_targets =
      elim (elem block visited) [
        | true ↦ some (visited, s)
        | false ↦
            drain
              (λ ready seen now.
                traverse_cfg_and_count_gates fuel (some ready) seen now (block ∷ cond_br_targets))
              (suc (length region)) block visited s (block ∷ cond_br_targets)
            >>= λ (visited, s). elim (elem block visited) [
              | true ↦ some (visited, s)
              | false ↦
                  let visited = block ∷ visited in
                  let s = process block s in
                  elim (terminator block) [
                    | cond_branch true_dest false_dest ↦ do
                      let inner_forbidden = false_dest ∷ true_dest ∷ cond_br_targets
                      on_true ←
                          traverse_cfg_and_count_gates fuel (some true_dest) visited s
                            inner_forbidden
                      on_false ←
                          traverse_cfg_and_count_gates fuel (some false_dest) visited s
                            inner_forbidden
                      some (if true_is_worse on_true.1 on_false.1 then on_true else on_false)
                    | branch dest ↦
                        traverse_cfg_and_count_gates fuel (some dest) visited s cond_br_targets
                    | _ ↦
                        traverse_cfg_and_count_gates fuel
                          (scan_for_ready_block region visited prereqs cond_br_targets) visited s
                          cond_br_targets
                  ]
            ]
      ]

-- The calls of a block, up to its first branch.
unfoldable pub process_block :
    (ℕ → ℕ) → List BlockOp → Option GateCountState → Option GateCountState
unfolding process_callee_gates
process_block qubit_id [] s = s
process_block qubit_id (call c ∷ ops) s =
    process_block qubit_id ops (s >>= process_callee_gates qubit_id c)
process_block qubit_id (cond_branch true_dest false_dest ∷ ops) s = s
process_block qubit_id (branch dest ∷ ops) s = s
process_block qubit_id (plain ∷ ops) s = process_block qubit_id ops s

-- A branch that failed is chosen, so that the failure stays.
unfoldable pub true_has_more_gates : Option GateCountState → Option GateCountState → Bool
true_has_more_gates none false_state = true
true_has_more_gates (some true_state) none = false
true_has_more_gates (some true_state) (some false_state) =
    leb false_state.gate_count true_state.gate_count

-- The constructor of QoalaHostGateCount: from the first block, with two rounds of fuel for each block and
-- two more.
unfoldable pub count_gates :
    (ℕ → ℕ → ℕ)
    → List ℕ
    → (ℕ → List BlockOp)
    → BlockPrerequisites
    → ℕ
    → Option (List ℕ × Option GateCountState)
unfolding process_block true_has_more_gates get_terminator traverse_cfg_and_count_gates
count_gates qubit_id region contents prereqs front =
    traverse_cfg_and_count_gates (λ b. process_block (qubit_id b) (contents b)) true_has_more_gates
      region (λ b. get_terminator (contents b)) prereqs (suc (suc (length region + length region)))
      (some front) [] (some no_gates) []
