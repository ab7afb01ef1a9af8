-- ===== src/QNet/GateCount/Worst.antt =====
-- The count against a description of the worst case without states, for programs in which every
-- qubit is initialised before it is used.
use qoala_mlir.Common.{
  ℕ, ◌+◌, ◌^◌, ◌≤◌, ◌<◌, ◌≡◌, refl, Bool, true, false, List, [], ◌∷◌, ◌++◌, Option, some, ◌>>=◌,
  if◌then◌else◌, leb, elem, all, elem→In, inl, inr, arith, Bool-cases,
}
use qoala_mlir.QNet.GateCount.{
  Op, Ops, new_qubits, gate, scf_if, scf_if_then, other, yields, op_then, BranchCounts,
  visit_new_qubits, count_operand, visit_operands, visit_gate, terminator, map_results,
  select_branch, visit_op, visit_operations_in_region, increment, no_gates,
}
use qoala_mlir.QNet.GateCount.Scope.{
  paired, scope_op, scope_after, is_scoped_op, is_scoped, Covers, Covers-cons, In-shift,
  Covers-map_results, joined-then, joined-else, branch-Covers, scope_after-grows,
}

abbrev pub larger : ℕ → ℕ → ℕ
larger a b = if leb b a then a else b

-- The most gates that a run through the operations applies.
abbrev mutual
  pub worst_op : Op → ℕ
  worst_op (new_qubits results) = 0
  worst_op (gate two_qubit operands results) = 1
  worst_op (scf_if results then_ops else_ops) = larger (worst then_ops) (worst else_ops)
  worst_op (scf_if_then results then_ops) = worst then_ops
  worst_op other = 0

  pub worst : Ops → ℕ
  worst (yields values) = 0
  worst (op_then op ops) = worst_op op + worst ops

-- A run from `s` that succeeds, applies `n` gates, keeps the sum, and knows the qubits `d`.
abbrev pub Counted : BranchCounts → ℕ → List ℕ → Option (ℕ × BranchCounts) → Type 0
Counted s n d run =
    (q : ℕ) × (s' : BranchCounts) × (run ≡ some (q, s'))
    × (s'.gate_count ≡ s.gate_count + n)
    × (s'.one_qubit_gate_count + s'.two_qubit_gate_count
        ≡ s.one_qubit_gate_count + s.two_qubit_gate_count + n)
    × Covers s'.op_res_to_id d

visit_new_qubits-Counted :
    (results d : List ℕ) (q : ℕ) (s : BranchCounts)
    → Covers s.op_res_to_id d
    → Counted s 0 (results ++ d) (some (visit_new_qubits results q s))
unfolding visit_new_qubits
visit_new_qubits-Counted [] d q s h = (q, s, refl, omega arith, omega arith, h)
visit_new_qubits-Counted (r ∷ results) d q s h =
    let (q', s', e, a, b, c) =
      visit_new_qubits-Counted results (r ∷ d) (increment q) _ (Covers-cons r q _ d h) in
    (q', s', e, a, b, λ v m. c v (In-shift v r results d m))

all-grow :
    (r : ℕ) (xs d : List ℕ) → all (λ v. elem v d) xs ≡ true → all (λ v. elem v (r ∷ d)) xs ≡ true
all-grow r [] d h = refl
all-grow r (x ∷ xs) d h = ground (arith, all-grow r xs d)

visit_operands-Counted :
    (two : Bool) (operands results d : List ℕ) (q : ℕ) (s : BranchCounts)
    → Covers s.op_res_to_id d
    → all (λ v. elem v d) operands ≡ true
    → Counted s 0
        (paired operands results ++ d)
        (visit_operands two operands results s >>= λ s'. some (q, s'))
unfolding visit_operands
visit_operands-Counted two [] results d q s h g = (q, s, refl, omega arith, omega arith, h)
visit_operands-Counted two (o ∷ operands) [] d q s h g = (q, s, refl, omega arith, omega arith, h)
visit_operands-Counted true (o ∷ operands) (r ∷ results) d q s h g =
    let (id, p) = h o (elem→In o d (ground arith)) in
    let (q', s', e, a, b, c) =
      visit_operands-Counted true operands results (r ∷ d) q (count_operand true id r s)
        (Covers-cons r id _ d h) (all-grow r operands d (ground arith)) in
    (q', s', rw p e, a, b, λ v m. c v (In-shift v r (paired operands results) d m))
visit_operands-Counted false (o ∷ operands) (r ∷ results) d q s h g =
    let (id, p) = h o (elem→In o d (ground arith)) in
    let (q', s', e, a, b, c) =
      visit_operands-Counted false operands results (r ∷ d) q (count_operand false id r s)
        (Covers-cons r id _ d h) (all-grow r operands d (ground arith)) in
    (q', s', rw p e, a, b, λ v m. c v (In-shift v r (paired operands results) d m))

visit_gate-Counted :
    (two : Bool) (operands results d : List ℕ) (q : ℕ) (s : BranchCounts)
    → Covers s.op_res_to_id d
    → all (λ v. elem v d) operands ≡ true
    → s.gate_count + 1 < 2 ^ 32
    → s.one_qubit_gate_count + s.two_qubit_gate_count ≤ s.gate_count
    → Counted s 1
        (paired operands results ++ d)
        (visit_gate two operands results s >>= λ s'. some (q, s'))
unfolding visit_gate
visit_gate-Counted true operands results d q s h g l b =
    let (q', s', e, a, t, c) = visit_operands-Counted true operands results d q _ h g in
    (q', s', e, omega arith, omega arith, c)
visit_gate-Counted false operands results d q s h g l b =
    let (q', s', e, a, t, c) = visit_operands-Counted false operands results d q _ h g in
    (q', s', e, omega arith, omega arith, c)

mutual
  unfolding visit_op select_branch

  visit_op-Counted :
      (op : Op) (d : List ℕ) (q : ℕ) (s : BranchCounts)
      → Covers s.op_res_to_id d
      → is_scoped_op d op ≡ true
      → s.gate_count + worst_op op < 2 ^ 32
      → s.one_qubit_gate_count + s.two_qubit_gate_count ≤ s.gate_count
      → Counted s (worst_op op) (scope_op d op) (visit_op op q s)
  visit_op-Counted (new_qubits results) d q s h g l b = visit_new_qubits-Counted results d q s h
  visit_op-Counted (gate two operands results) d q s h g l b =
      visit_gate-Counted two operands results d q s h g l b
  visit_op-Counted (scf_if results x y) d q s h g l b =
      let (q1, s1, e1, a1, b1, c1) = visit-Counted x d 0 s h (ground arith) (ground arith) b in
      let (q2, s2, e2, a2, b2, c2) = visit-Counted y d q1 s h (ground arith) (ground arith) b in
      elim (Bool-cases (leb s2.gate_count s1.gate_count)) [
        | inl w ↦ (
          q,
          record s1 { op_res_to_id = map_results results (terminator x) s1.op_res_to_id },
          rw (e1, e2, select_branch, w) refl,
          ground arith,
          ground arith,
          branch-Covers results (terminator x) d (scope_after d x) _ s1.op_res_to_id c1
              (λ v i. c1 v (scope_after-grows d x v i))
              (joined-then results (terminator x) (terminator y) (scope_after d x)
                (scope_after d y)),
        )
        | inr w ↦ (
          q,
          record s2 { op_res_to_id = map_results results (terminator y) s2.op_res_to_id },
          rw (e1, e2, select_branch, w) refl,
          ground arith,
          ground arith,
          branch-Covers results (terminator y) d (scope_after d y) _ s2.op_res_to_id c2
              (λ v i. c2 v (scope_after-grows d y v i))
              (joined-else results (terminator x) (terminator y) (scope_after d x)
                (scope_after d y)),
        )
      ]
  visit_op-Counted (scf_if_then results x) d q s h g l b =
      let (q', s', e, a, t, c) = visit-Counted x d 0 s h g l b in
      let w : leb s.gate_count s'.gate_count ≡ true = ground arith in
      (
        q,
        record s' { op_res_to_id = map_results results (terminator x) s'.op_res_to_id },
        rw (e, w) refl,
        a,
        t,
        Covers-map_results results (terminator x) s'.op_res_to_id d
            (λ v i. c v (scope_after-grows d x v i)),
      )
  visit_op-Counted other d q s h g l b = (q, s, refl, omega arith, omega arith, h)

  visit-Counted :
      (ops : Ops) (d : List ℕ) (q : ℕ) (s : BranchCounts)
      → Covers s.op_res_to_id d
      → is_scoped d ops ≡ true
      → s.gate_count + worst ops < 2 ^ 32
      → s.one_qubit_gate_count + s.two_qubit_gate_count ≤ s.gate_count
      → Counted s (worst ops) (scope_after d ops) (visit_operations_in_region ops q s)
  visit-Counted (yields values) d q s h g l b = (q, s, refl, omega arith, omega arith, h)
  visit-Counted (op_then op ops) d q s h g l b =
      let (q1, s1, e1, a1, b1, c1) = visit_op-Counted op d q s h (ground arith) (omega arith) b in
      let (q2, s2, e2, a2, b2, c2) =
        visit-Counted ops (scope_op d op) q1 s1 c1 (ground arith) (omega arith) (omega arith) in
      (q2, s2, rw (e1, e2) refl, omega arith, omega arith, c2)

-- For a function in which every operand of a gate is an initialised qubit, and whose worst case is below
-- 2^32 gates, the analysis does not fail, its gate count is the number of gates of the worst run, and the
-- one-qubit and two-qubit gates add up to it.
pub visit_operations_in_region-worst :
    (ops : Ops)
    → is_scoped [] ops ≡ true
    → worst ops < 2 ^ 32
    → (q : ℕ) × (s : BranchCounts) × (visit_operations_in_region ops 0 no_gates ≡ some (q, s))
      × (s.gate_count ≡ worst ops)
      × (s.one_qubit_gate_count + s.two_qubit_gate_count ≡ worst ops)
visit_operations_in_region-worst ops g l =
    let (q, s, e, a, b, c) =
      visit-Counted ops [] 0 no_gates (λ v i. absurd i) g (omega arith) (omega arith) in
    (q, s, e, omega arith, omega arith)
