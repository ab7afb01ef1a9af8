-- ===== src/QoalaHost/MemoryEfficiency/Counters.antt =====
-- What the counters say after a history of operations, and which of two is picked.
use qoala_mlir.Common.{
  ◌^◌, ◌≤◌, ◌<◌, ◌≡◌, ◌⊎◌, refl, inl, inr, List, [], ◌∷◌, length, arith, Bool-cases, leb,
}
use qoala_mlir.QoalaHost.MemoryEfficiency.{
  CalleeOp, qalloc, measure, other, process_callee_q_mem_ops, Counts, pick,
}
use qoala_mlir.QoalaHost.MemoryEfficiency.Peak.{
  allocations, measurements, peak, Describes, process_callee_q_mem_ops-peak,
}
use qoala_mlir.QoalaHost.MemoryEfficiency.Walk.{IsWorse}

allocations-le : (ops : List CalleeOp) → allocations ops ≤ length ops
allocations-le [] = omega arith
allocations-le (qalloc ∷ ops) = omega (arith, allocations-le ops)
allocations-le (measure ∷ ops) = omega (arith, allocations-le ops)
allocations-le (other ∷ ops) = omega (arith, allocations-le ops)

measurements-le : (ops : List CalleeOp) → measurements ops ≤ length ops
measurements-le [] = omega arith
measurements-le (qalloc ∷ ops) = omega (arith, measurements-le ops)
measurements-le (measure ∷ ops) = omega (arith, measurements-le ops)
measurements-le (other ∷ ops) = omega (arith, measurements-le ops)

abbrev pub no_counts : Counts
no_counts = record { virtual_qubits = 0; physical_qubits = 0; measured = 0 }

abbrev pub counts_of : List CalleeOp → Counts
counts_of h = process_callee_q_mem_ops h no_counts

-- The counters after a history of fewer than 2^32 operations.
pub counts_of_lem :
    (h : List CalleeOp)
    → length h < 2 ^ 32
    → Describes (allocations h) (measurements h) (peak 0 0 h) (counts_of h)
counts_of_lem h l =
    let na = allocations-le h in
    let nm = measurements-le h in
    let start : Describes 0 0 0 no_counts = record {
      allocated_all = refl;
      balance = refl;
      at_most = refl;
      bounded = omega arith;
    } in
    let d =
      process_callee_q_mem_ops-peak h 0 0 0 no_counts start (omega arith) (omega arith)
        (omega arith) in
    let v = d.allocated_all in
    let b = d.balance in
    let m = d.at_most in
    record {
      allocated_all = omega arith;
      balance = omega arith;
      at_most = omega arith;
      bounded = d.bounded;
    }

-- The branch with more physical qubits is the one whose history has the higher peak.
pub pick-IsWorse :
    (h_true h_false : List CalleeOp)
    → length h_true < 2 ^ 32
    → length h_false < 2 ^ 32
    → (picked : List CalleeOp) × (pick (counts_of h_true) (counts_of h_false) ≡ counts_of picked)
      × IsWorse h_true h_false picked
      × ((picked ≡ h_true) ⊎ (picked ≡ h_false))
pick-IsWorse h_true h_false l m =
    let p = (counts_of_lem h_true l).at_most in
    let q = (counts_of_lem h_false m).at_most in
    elim (Bool-cases (leb (counts_of h_false).physical_qubits (counts_of h_true).physical_qubits)) [
      | inl e ↦ (h_true, rw e refl, inl (refl, ground arith), inl refl)
      | inr e ↦ (h_false, rw e refl, inr (refl, ground arith), inr refl)
    ]
