-- ===== src/QNet/Checks.antt =====
-- The theorems about lib/Analysis/QNet at concrete inputs.
use qoala_mlir.Common.{
  ℕ, ◌+◌, ◌-◌, ◌^◌, ◌<◌, ◌≡◌, ◌↔◌, refl, false, [], ◌∷◌, none, some, arith, ◌⊎◌, if◌then◌else◌,
  ◌>>=◌, some,
}
use qoala_mlir.Common.Int.{ℤ, pos, ◌+ℤ◌, ◌-ℤ◌, ◌*ℤ◌, ltb_ℤ, pos_part}
use qoala_mlir.QNet.IntRotation.{
  Value, dynamic, to_i32, combine_constants, combine_int_rot_angles, emit_combination,
  get_const_i32, choose_path, normalize_int_rotation,
}
use qoala_mlir.QNet.IntRotation.Words.{IsI32, Congruent}
use qoala_mlir.QNet.IntRotation.Combine.{
  ArithSemantics, eval, TurnsAs, scaled_sum, combine_constants-exact,
  combine_int_rot_angles-TurnsAs,
}
use qoala_mlir.QNet.IntRotation.Normalize.{
  IsCanonical, normalize_int_rotation_lem, normalize_int_rotation_oscillates,
}
use qoala_mlir.QNet.GateCount.{
  Ops, BranchCounts, new_qubits, gate, scf_if, yields, op_then, no_gates, terminator,
  visit_operations_in_region,
}
use qoala_mlir.QNet.GateCount.Worst.{visit_operations_in_region-worst}
use Prim.Native.Nat.{max}

-- 1/2 and 1/4 of a half turn
combine_constants-exact_example :
    combine_constants (pos 1) (pos 1) (pos 1) (pos 2) ≡ some (pos 3, 2) ↔ (
      (e1 : ℕ) × (e2 : ℕ) × (pos 1 ≡ pos e1)
      × (pos 2 ≡ pos e2)
      × (2 ≡ max e1 e2)
      × (2 - e1 < 31)
      × (2 - e2 < 31)
      × (pos 3 ≡ scaled_sum (pos 1) e1 (pos 1) e2)
      × IsI32 (pos 3))
combine_constants-exact_example = combine_constants-exact (pos 1) (pos 1) (pos 1) (pos 2) (pos 3) 2

-- Two's complement arithmetic.
abbrev twos_complement : ArithSemantics
twos_complement = record {
  max_signed = λ a b. if ltb_ℤ a b then b else a;
  subtract = λ a b. to_i32 (a -ℤ b);
  shift_left = λ a b. to_i32 (a *ℤ pos (2 ^ pos_part b));
  add = λ a b. to_i32 (a +ℤ b);
  max_signed_lem = λ a b. refl;
  subtract_lem = λ a b. refl;
  shift_left_lem = λ a k h. refl;
  add_lem = λ a b. refl;
}

abbrev all_one : ℕ → ℤ
all_one i = pos 1

abbrev emitted : Value × Value
emitted = emit_combination (dynamic 0) (dynamic 1) (dynamic 2) (dynamic 3)

combine_int_rot_angles-TurnsAs_example :
    (eval twos_complement all_one emitted.1 ≡ pos 1)
    × TurnsAs (eval twos_complement all_one emitted.0) 1 (pos 1) 1 (pos 1) 1
unfolding combine_int_rot_angles get_const_i32 choose_path
combine_int_rot_angles-TurnsAs_example =
    combine_int_rot_angles-TurnsAs twos_complement all_one (dynamic 0) (dynamic 1) (dynamic 2)
      (dynamic 3) emitted.0 emitted.1 1 1 refl refl (omega arith) (omega arith) refl

normalize_int_rotation_example :
    ((normalize_int_rotation (pos 3) (pos 1) ≡ none) × IsCanonical (2 ^ 1) (pos 3))
    ⊎ ((m : ℤ) × (normalize_int_rotation (pos 3) (pos 1) ≡ some m)
        × IsCanonical (2 ^ 1) m
        × Congruent (2 ^ (1 + 1)) m (pos 3)
        × (normalize_int_rotation m (pos 1) ≡ none))
normalize_int_rotation_example = normalize_int_rotation_lem (pos 3) 1 (omega arith)

normalize_int_rotation_oscillates_example :
    (normalize_int_rotation (pos 5) (pos 30) ≡ some (pos 5 -ℤ pos (2 ^ 31)))
    × (normalize_int_rotation (pos 5 -ℤ pos (2 ^ 31)) (pos 30) ≡ some (pos 5))
normalize_int_rotation_oscillates_example =
    normalize_int_rotation_oscillates 5 (omega arith) (omega arith)

-- A new qubit, a gate on it in one branch, and a gate behind the branches.
abbrev branching : Ops
branching = op_then (new_qubits (0 ∷ [])) (
    op_then
      (scf_if (3 ∷ []) (op_then (gate false (0 ∷ []) (1 ∷ [])) (yields (1 ∷ []))) (yields (0 ∷ [])))
      (op_then (gate false (3 ∷ []) (4 ∷ [])) (yields [])))

visit_operations_in_region-worst_example :
    (q : ℕ) × (s : BranchCounts) × (visit_operations_in_region branching 0 no_gates ≡ some (q, s))
    × (s.gate_count ≡ 2)
    × (s.one_qubit_gate_count + s.two_qubit_gate_count ≡ 2)
unfolding terminator
visit_operations_in_region-worst_example =
    visit_operations_in_region-worst branching refl (omega arith)

-- A qubit outside, and one in each branch of an scf.if; the else region has the gate.
abbrev both_allocate : Ops
both_allocate = op_then (new_qubits (1 ∷ [])) (
    op_then
      (scf_if [] (op_then (new_qubits (2 ∷ [])) (yields []))
        (op_then (new_qubits (3 ∷ [])) (op_then (gate false (3 ∷ []) (4 ∷ [])) (yields []))))
      (yields []))

-- The else region goes on behind the qubit id of the then region, which has numbered from 0.
else_id_is_one :
    (visit_operations_in_region both_allocate 0 no_gates >>= λ (q, s). some s.detailed_gate_count)
    ≡ some ((1, 1) ∷ (1, 0) ∷ (0, 0) ∷ [])
unfolding visit_operations_in_region
else_id_is_one = refl
