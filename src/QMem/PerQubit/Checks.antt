-- ===== src/QMem/PerQubit/Checks.antt =====
-- The theorems about the grouping at the program of the source's comment, with a further gate.
use qoala_mlir.Common.{sym, ℕ, ◌≡◌, refl, List, [], ◌∷◌, some, All, arith}
use Prim.Native.Nat.{max}
use qoala_mlir.QMem.PerQubit.{
  qalloc, define, uses, Operation, lookup, erase, functionize_op_classifier,
}
use qoala_mlir.QMem.PerQubit.Adds.{flatten}
use qoala_mlir.QMem.PerQubit.Order.{allocations, in_order}
use qoala_mlir.QMem.PerQubit.Sizes.{IsSized}
use qoala_mlir.QMem.PerQubit.Succeeds.{
  DeclaresOnce, IsScoped, allocates, defines, reads, done, next, functionize_op_classifier_lem,
  functionize_op_classifier-bounded,
}

abbrev program : List Operation
program =
    record { id = 0; block = 0; kind = qalloc 10 }
    ∷ record { id = 1; block = 0; kind = define 10 }
    ∷ record { id = 2; block = 0; kind = qalloc 11 }
    ∷ record { id = 3; block = 0; kind = define 11 }
    ∷ record { id = 4; block = 0; kind = uses (0 ∷ []) }
    ∷ record { id = 5; block = 0; kind = uses (2 ∷ []) }
    ∷ record { id = 6; block = 0; kind = uses (2 ∷ []) }
    ∷ []

grouped :
    functionize_op_classifier 5 program
    ≡ some ((0 ∷ 1 ∷ []) ∷ (2 ∷ 3 ∷ []) ∷ (4 ∷ []) ∷ (5 ∷ 6 ∷ []) ∷ [])
unfolding functionize_op_classifier
grouped = refl

-- An allocation and its definition stay together even with the threshold 1.
above_threshold :
    functionize_op_classifier 1 program
    ≡ some ((0 ∷ 1 ∷ []) ∷ (2 ∷ 3 ∷ []) ∷ (4 ∷ []) ∷ (5 ∷ []) ∷ (6 ∷ []) ∷ [])
unfolding functionize_op_classifier
above_threshold = refl

program-DeclaresOnce : DeclaresOnce [] program
unfolding lookup
program-DeclaresOnce = (
  λ q e. refl,
  (
    λ q e. absurd cc,
    (
      λ q e. let f : 11 ≡ q = cc in rw (sym f) refl,
      (λ q e. absurd cc, (λ q e. absurd cc, (λ q e. absurd cc, (λ q e. absurd cc, tt)))),
    ),
  ),
)

program-IsScoped : IsScoped (allocations program []) [] program
unfolding lookup erase
program-IsScoped = next allocates (
    next (defines {a = 0} refl refl) (
      next allocates (
        next (defines {a = 2} refl refl)
          (next (reads (refl, tt)) (next (reads (refl, tt)) (next (reads (refl, tt)) done))))))

functionize_op_classifier_lem_example :
    (groups : List (List ℕ)) × (functionize_op_classifier 5 program ≡ some groups)
    × (flatten groups ≡ in_order (allocations program []) program)
functionize_op_classifier_lem_example =
    functionize_op_classifier_lem 5 program program-DeclaresOnce program-IsScoped

functionize_op_classifier-bounded_example :
    (groups : List (List ℕ)) × (functionize_op_classifier 5 program ≡ some groups)
    × All (IsSized (max 2 5)) groups
functionize_op_classifier-bounded_example =
    functionize_op_classifier-bounded 5 program (omega arith) program-DeclaresOnce program-IsScoped
