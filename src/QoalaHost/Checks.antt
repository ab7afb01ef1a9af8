-- ===== src/QoalaHost/Checks.antt =====
-- The theorems about lib/Analysis/QoalaHost at concrete inputs.
use qoala_mlir.Common.{◌↔◌, [], ◌∷◌, arith}
use qoala_mlir.QoalaHost.Graph.{Deps, deps_of}
use qoala_mlir.QoalaHost.Precedences.{transitive_reduction}
use qoala_mlir.QoalaHost.Precedences.Reduction.{
  Reaches, IsRanked, HasNoShortcut, transitive_reduction-Reaches,
  transitive_reduction-HasNoShortcut,
}
use qoala_mlir.QoalaHost.Traversal.{BlockPrerequisites, scan_for_ready_block}
use qoala_mlir.QoalaHost.Traversal.Ready.{IsFirstReady, scan_for_ready_block-IsFirstReady}

-- Block 2 depends on 1 and 0, and block 1 on 0.
abbrev chain : Deps
chain = (2, 1 ∷ 0 ∷ []) ∷ (1, 0 ∷ []) ∷ []

chain-IsRanked : IsRanked chain (λ b. b)
unfolding deps_of
chain-IsRanked a b m = ground arith

transitive_reduction-Reaches_example : Reaches (transitive_reduction chain) 2 0 ↔ Reaches chain 2 0
transitive_reduction-Reaches_example =
    transitive_reduction-Reaches chain (λ b. b) chain-IsRanked 2 0

transitive_reduction-HasNoShortcut_example : HasNoShortcut (transitive_reduction chain) 2
transitive_reduction-HasNoShortcut_example = transitive_reduction-HasNoShortcut chain 2

abbrev prereqs : BlockPrerequisites
prereqs = record { predecessors = (1, 0 ∷ []) ∷ []; dependencies = chain }

scan_for_ready_block_example :
    IsFirstReady
      (0 ∷ [])
      prereqs
      []
      (0 ∷ 1 ∷ 2 ∷ [])
      (scan_for_ready_block (0 ∷ 1 ∷ 2 ∷ []) (0 ∷ []) prereqs [])
scan_for_ready_block_example =
    scan_for_ready_block-IsFirstReady (0 ∷ 1 ∷ 2 ∷ []) (0 ∷ []) prereqs []
