-- ===== src/QNet/DeadCode.antt =====
-- lib/Analysis/QNet/DeadCodeElimination.cpp. The operations of a qnet.func stand in the order of
-- `walk`, those of nested regions included; values and operations are numbers. `none` is an operation
-- that is erased while it is used.
pub mod Observed
pub mod Liveness
pub mod Erasure
pub mod Elimination
pub mod Matters
pub mod Outcome
mod Checks
use qoala_mlir.Common.{
  ℕ, suc, ◌+◌, Bool, true, false, not, ◌&&◌, ◌||◌, List, [], ◌∷◌, ◌++◌, Option, none, some, ◌>>=◌,
  ◌==◌, if◌then◌else◌, elem, any, keep, length,
}
use qoala_mlir.Common.Search.{push_all, depth_first}
use qoala_mlir.Common.Search.Fuel.{pending}

-- The operations that the pass tells apart. `gate` is RotX, RotY, RotZ, Hadamard, X, Y, Z, Cnot, Cz and
-- CrotX; `send` the four sends with their operand `cin`.
pub data Kind : Type 0 where
  new_qubit gate eprs eprs_measure qnet_return func_return other : Kind
  measure send cond_br switch scf_if store : ℕ → Kind

-- `has_effects` is MemoryEffectOpInterface without hasNoEffect.
pub record Operation : Type 0 where
  pub id : ℕ
  pub kind : Kind
  pub operands : List ℕ
  pub results : List ℕ
  pub is_terminator : Bool
  pub has_effects : Bool

abbrev pub is_candidate_for_erasure : Kind → Bool
is_candidate_for_erasure new_qubit = true
is_candidate_for_erasure gate = true
is_candidate_for_erasure _ = false

unfoldable pub is_qnet_observable_classical_use : Kind → ℕ → Bool
is_qnet_observable_classical_use qnet_return used_val = true
is_qnet_observable_classical_use (send cin) used_val = used_val == cin
is_qnet_observable_classical_use _ used_val = false

-- The early returns behind the QNet sinks; `none` goes on to the effects.
abbrev sink : Kind → ℕ → Option Bool
sink func_return used_val = some true
sink (cond_br condition) used_val = some (used_val == condition)
sink (switch flag) used_val = some (used_val == flag)
sink (scf_if condition) used_val = some (used_val == condition)
sink (store value) used_val = some (used_val == value)
sink _ used_val = none

unfoldable pub is_observable_classical_use : Operation → ℕ → Bool
unfolding is_qnet_observable_classical_use
is_observable_classical_use user used_val =
    if is_qnet_observable_classical_use user.kind used_val
    then true
    else elim (sink user.kind used_val) [ some answer ↦ answer | none ↦ user.has_effects ]

-- The value has a use that is a sink.
unfoldable pub reaches_sink : List Operation → ℕ → Bool
unfolding is_observable_classical_use
reaches_sink ops v = any (λ user. elem v user.operands && is_observable_classical_use user v) ops

-- What is pushed for a value: the results of its users that are no terminators.
unfoldable pub influenced : List Operation → ℕ → List ℕ
influenced [] v = []
influenced (user ∷ ops) v =
    if elem v user.operands && not user.is_terminator
    then user.results ++ influenced ops v
    else influenced ops v

unfoldable pub used_values : List Operation → List ℕ
used_values [] = []
used_values (op ∷ ops) = op.operands ++ used_values ops

-- With one round of fuel for the outcome and one for each push.
unfoldable pub measurement_result_is_observed : List Operation → ℕ → Option Bool
unfolding reaches_sink influenced used_values depth_first
measurement_result_is_observed ops outcome =
    depth_first (reaches_sink ops) (influenced ops)
      (1 + pending (influenced ops) (used_values ops) []) (outcome ∷ []) []
    >>= λ (found, visited). some found

-- Value::getDefiningOp
unfoldable pub defining_op : List Operation → ℕ → Option ℕ
defining_op [] v = none
defining_op (op ∷ ops) v = if elem v op.results then some op.id else defining_op ops v

unfoldable pub producers_of : List Operation → List ℕ → List ℕ
unfolding defining_op
producers_of ops [] = []
producers_of ops (v ∷ vs) = elim (defining_op ops v) [
  | none ↦ producers_of ops vs
  | some producer ↦ producer ∷ producers_of ops vs
]

unfoldable pub operands_of : List Operation → ℕ → List ℕ
operands_of [] i = []
operands_of (op ∷ ops) i = if op.id == i then op.operands else operands_of ops i

unfoldable pub producers : List Operation → ℕ → List ℕ
unfolding producers_of operands_of
producers ops i = producers_of ops (operands_of ops i)

-- dyn_cast<MeasureOp>, and the outcome.
abbrev pub outcome_of : Kind → Option ℕ
outcome_of (measure outcome) = some outcome
outcome_of _ = none

-- The measurements that are put on the worklist.
unfoldable pub roots : Bool → List Operation → List Operation → Option (List ℕ)
unfolding measurement_result_is_observed
roots aware all_ops [] = some []
roots aware all_ops (op ∷ ops) =
    let rest = roots aware all_ops ops in
    elim (outcome_of op.kind) [
      | some outcome ↦
          (if aware then measurement_result_is_observed all_ops outcome else some true)
          >>= λ observed. rest >>= λ others. some (if observed then op.id ∷ others else others)
      | none ↦ rest
    ]

abbrev pub is_entanglement : Kind → Bool
is_entanglement eprs = true
is_entanglement eprs_measure = true
is_entanglement _ = false

-- Live from the start.
unfoldable pub entanglement : List Operation → List ℕ
entanglement [] = []
entanglement (op ∷ ops) =
    if is_entanglement op.kind then op.id ∷ entanglement ops else entanglement ops

abbrev pub ids : List Operation → List ℕ
ids [] = []
ids (op ∷ ops) = op.id ∷ ids ops

-- The backward propagation, with a round of fuel for each push.
unfoldable pub live_operations : Bool → List Operation → Option (List ℕ)
unfolding roots entanglement producers depth_first push_all
live_operations aware ops = do
  measured ← roots aware ops ops
  let worklist = push_all measured []
  let fuel = length worklist + pending (producers ops) (ids ops) (entanglement ops)
  found ← depth_first (λ op. false) (producers ops) fuel worklist (entanglement ops)
  some found.1

-- The second walk looks at measurements only with classical awareness.
abbrev pub is_erasable : Bool → Kind → Bool
is_erasable aware (measure outcome) = aware
is_erasable aware kind = is_candidate_for_erasure kind

abbrev pub is_dead : Bool → List ℕ → Operation → Bool
is_dead aware live op = is_erasable aware op.kind && not (elem op.id live)

unfoldable pub uses_result : Operation → Operation → Bool
uses_result op user = any (λ v. elem v op.results) user.operands

-- Operation::erase: an operation must have no uses.
unfoldable pub erase : Operation → List Operation → Option (List Operation)
unfolding uses_result
erase op remaining =
    if any (uses_result op) remaining
    then none
    else some (keep (λ o. not (o.id == op.id)) remaining)

-- The last one first.
unfoldable pub erase_in_reverse : List Operation → List Operation → Option (List Operation)
unfolding erase
erase_in_reverse [] remaining = some remaining
erase_in_reverse (op ∷ ops) remaining = erase_in_reverse ops remaining >>= erase op

unfoldable pub run_on_operation : Bool → List Operation → Option (List Operation)
unfolding live_operations erase_in_reverse
run_on_operation aware ops =
    live_operations aware ops >>= λ live. erase_in_reverse (keep (is_dead aware live) ops) ops
