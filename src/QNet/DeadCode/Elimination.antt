-- ===== src/QNet/DeadCode/Elimination.antt =====
-- The whole pass: what it leaves, and a condition on the program under which it does not fail.
use qoala_mlir.Common.{
  ℕ, ◌≡◌, refl, ◌↔◌, ◌⊎◌, inl, inr, Bool, true, false, not, List, [], ◌∷◌, ◌++◌, Option, none, some,
  ◌==◌, if◌then◌else◌, elem, In, All, Any, keep, arith, append_assoc,
}
use qoala_mlir.QNet.DeadCode.{
  Operation, ids, uses_result, run_on_operation, is_dead, is_entanglement, is_candidate_for_erasure,
  outcome_of, entanglement, operands_of, defining_op,
}
use qoala_mlir.QNet.DeadCode.Liveness.{Contributes, IsRoot, live_operations_lem}
use qoala_mlir.QNet.DeadCode.Erasure.{IsSsa, escapes, erase_in_reverse_lem}

-- What is live: the entanglement creations and what contributes to a root.
abbrev pub IsLive : Bool → List Operation → List ℕ → Type 0
IsLive aware ops live = (i : ℕ) → In i live ↔ (In i (entanglement ops) ⊎ Contributes aware ops i)

abbrev pub elimination : Bool → List ℕ → List Operation → Option (List Operation)
elimination aware live ops =
    if escapes (is_dead aware live) ops
    then none
    else some (keep (λ o. not (is_dead aware live o)) ops)

-- The pass ends, and fails exactly where a dead operation has a result that is used by one that stays.
pub run_on_operation_lem :
    (aware : Bool) (ops : List Operation)
    → IsSsa [] ops
    → (live : List ℕ) × IsLive aware ops live
      × (run_on_operation aware ops ≡ elimination aware live ops)
unfolding run_on_operation
run_on_operation_lem aware ops h =
    let (live, e, f) = live_operations_lem aware ops in
    (live, f, rw e (erase_in_reverse_lem (is_dead aware live) [] ops h))

-- Every result has one definition.
abbrev pub IsDefined : List Operation → List Operation → Type 0
IsDefined all_ops ops =
    All (λ (op : Operation). All (λ v. defining_op all_ops v ≡ some op.id) op.results) ops

abbrev pub IsMeasurement : Operation → Type 0
IsMeasurement op = (outcome : ℕ) × (outcome_of op.kind ≡ some outcome)

-- Qubits go from an allocation through gates to measurements only.
abbrev pub IsLocal : List Operation → Type 0
IsLocal [] = Unit
IsLocal (op ∷ ops) =
    (is_candidate_for_erasure op.kind ≡ true
      → All
          (λ (user : Operation).
            uses_result op user ≡ true
            → (is_candidate_for_erasure user.kind ≡ true) ⊎ IsMeasurement user)
          ops)
    × IsLocal ops

operands_of-between :
    (before after : List Operation) (op : Operation)
    → elem op.id (ids before) ≡ false
    → operands_of (before ++ op ∷ after) op.id ≡ op.operands
unfolding operands_of
operands_of-between [] after op h = let e : (op.id == op.id) ≡ true = ground arith in rw e refl
operands_of-between (o ∷ before) after op h =
    let n : (o.id == op.id) ≡ false = ground arith in
    let m : elem op.id (ids before) ≡ false = ground arith in
    rw n (operands_of-between before after op m)

entanglement-absent :
    (ops : List Operation) (i : ℕ) → elem i (ids ops) ≡ false → elem i (entanglement ops) ≡ false
unfolding entanglement
entanglement-absent [] i h = refl
entanglement-absent (op ∷ ops) i h = ground (arith, entanglement-absent ops i)

entanglement-between :
    (before after : List Operation) (op : Operation)
    → elem op.id (ids before) ≡ false
    → elem op.id (ids after) ≡ false
    → is_entanglement op.kind ≡ false
    → elem op.id (entanglement (before ++ op ∷ after)) ≡ false
unfolding entanglement
entanglement-between [] after op h k e = rw e (entanglement-absent after op.id k)
entanglement-between (o ∷ before) after op h k e =
    ground (arith, entanglement-between before after op)

-- What the identifier of an operation names, and that a measurement is a root.
abbrev pub Facts : List Operation → Operation → Type 0
Facts all_ops op =
    (operands_of all_ops op.id ≡ op.operands)
    × (is_entanglement op.kind ≡ false → elem op.id (entanglement all_ops) ≡ false)
    × (IsMeasurement op → Any (IsRoot false all_ops op.id) all_ops)

Any-append_right : (P : Operation → Type 0) (xs ys : List Operation) → Any P ys → Any P (xs ++ ys)
Any-append_right P [] ys m = m
Any-append_right P (x ∷ xs) ys m = inr (Any-append_right P xs ys m)

pub facts : (before ops : List Operation) → IsSsa before ops → All (Facts (before ++ ops)) ops
facts before [] h = tt
facts before (op ∷ ops) (u, b, a, h) = (
  (
    operands_of-between before ops op b,
    entanglement-between before ops op b a,
    λ (outcome, k).
        Any-append_right (IsRoot false (before ++ op ∷ ops) op.id) before (op ∷ ops)
          (inl (refl, outcome, k, λ e. absurd cc)),
  ),
  rw (append_assoc before (op ∷ []) ops) at (facts (before ++ op ∷ []) ops h),
)

module _ (all_ops : List Operation) (live : List ℕ) (iff : IsLive false all_ops live) where
  abbrev dead : Operation → Bool
  dead op = is_dead false live op
