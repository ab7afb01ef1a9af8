-- ===== src/QoalaHost/MemoryEfficiency/Peak.antt =====
-- What a sequence of allocations and measurements does to the counters.
use qoala_mlir.Common.{
  ℕ, suc, ◌+◌, ◌-◌, ◌^◌, ◌≤◌, ◌<◌, ◌≡◌, inl, inr, List, [], ◌∷◌, ◌==◌, arith, Bool-cases,
}
use Prim.Native.Nat.{max}
use qoala_mlir.QoalaHost.MemoryEfficiency.{
  CalleeOp, qalloc, measure, other, Counts, count_op, process_callee_q_mem_ops, increment,
}

abbrev pub allocations : List CalleeOp → ℕ
allocations [] = 0
allocations (qalloc ∷ ops) = suc (allocations ops)
allocations (measure ∷ ops) = allocations ops
allocations (other ∷ ops) = allocations ops

abbrev pub measurements : List CalleeOp → ℕ
measurements [] = 0
measurements (qalloc ∷ ops) = measurements ops
measurements (measure ∷ ops) = suc (measurements ops)
measurements (other ∷ ops) = measurements ops

-- The largest number of qubits in use at once, after `allocated` allocations and `released` measurements.
abbrev pub peak : ℕ → ℕ → List CalleeOp → ℕ
peak allocated released [] = allocated - released
peak allocated released (qalloc ∷ ops) =
    max (allocated - released) (peak (suc allocated) released ops)
peak allocated released (measure ∷ ops) =
    max (allocated - released) (peak allocated (suc released) ops)
peak allocated released (other ∷ ops) = peak allocated released ops

-- The counters after `allocated` allocations and `released` measurements, with `most` qubits in use at once.
pub record Describes (allocated released most : ℕ) (c : Counts) : Type 0 where
  pub allocated_all : c.virtual_qubits ≡ allocated
  pub balance : c.physical_qubits + released ≡ c.measured + allocated
  pub at_most : c.physical_qubits ≡ most
  pub bounded : c.physical_qubits ≤ c.virtual_qubits

increment-small : (n : ℕ) → n + 1 < 2 ^ 32 → increment n ≡ n + 1
increment-small n h = omega arith

module _ (a r p : ℕ) (c : Counts) where
  qalloc_lem :
      Describes a r p c
      → suc a < 2 ^ 32
      → Describes (suc a) r (max p (suc a - r)) (count_op qalloc c)
  unfolding count_op
  qalloc_lem d h =
      let e = d.allocated_all in
      let b = d.balance in
      let t = d.at_most in
      let l = d.bounded in
      let v = increment-small c.virtual_qubits (omega arith) in
      let w = increment-small c.physical_qubits (omega arith) in
      elim (Bool-cases (c.measured == 0)) [
        | inl z ↦
            let m : c.measured ≡ 0 = ground arith in
            rw (z, v, w)
              (record {
                allocated_all = omega arith;
                balance = omega arith;
                at_most = omega arith;
                bounded = omega arith;
              })
        | inr z ↦
            let m : 0 < c.measured = ground arith in
            rw (z, v)
              (record {
                allocated_all = omega arith;
                balance = omega arith;
                at_most = omega arith;
                bounded = omega arith;
              })
      ]

  measure_lem :
      Describes a r p c
      → suc r < 2 ^ 32
      → a - r ≤ p
      → Describes a (suc r) (max p (a - suc r)) (count_op measure c)
  unfolding count_op
  measure_lem d h l =
      let e = d.allocated_all in
      let b = d.balance in
      let t = d.at_most in
      let k = d.bounded in
      let v = increment-small c.measured (omega arith) in
      rw v (record { allocated_all = e; balance = omega arith; at_most = omega arith; bounded = k })

peak-start : (ops : List CalleeOp) (a r : ℕ) → a - r ≤ peak a r ops
peak-start [] a r = omega arith
peak-start (qalloc ∷ ops) a r = omega arith
peak-start (measure ∷ ops) a r = omega arith
peak-start (other ∷ ops) a r = peak-start ops a r

relabel :
    (a a' r r' p p' : ℕ) (c : Counts)
    → a ≡ a'
    → r ≡ r'
    → p ≡ p'
    → Describes a r p c
    → Describes a' r' p' c
relabel a a' r r' p p' c e f g d =
    let v = d.allocated_all in
    let b = d.balance in
    let t = d.at_most in
    record {
      allocated_all = omega arith;
      balance = omega arith;
      at_most = omega arith;
      bounded = d.bounded;
    }

-- Far from an overflow, whatever is measured, the counters tell the allocations and the peak.
pub process_callee_q_mem_ops-peak :
    (ops : List CalleeOp) (a r p : ℕ) (c : Counts)
    → Describes a r p c
    → a + allocations ops < 2 ^ 32
    → r + measurements ops < 2 ^ 32
    → a - r ≤ p
    → Describes
        (a + allocations ops)
        (r + measurements ops)
        (max p (peak a r ops))
        (process_callee_q_mem_ops ops c)
unfolding process_callee_q_mem_ops count_op
process_callee_q_mem_ops-peak [] a r p c d h k l =
    relabel a (a + 0) r (r + 0) p (max p (a - r)) c (omega arith) (omega arith) (omega arith) d
process_callee_q_mem_ops-peak (qalloc ∷ ops) a r p c d h k l =
    let i =
      process_callee_q_mem_ops-peak ops (suc a) r (max p (suc a - r)) (count_op qalloc c)
        (qalloc_lem a r p c d (omega arith)) (omega arith) (omega arith) (omega arith) in
    let top = peak-start ops (suc a) r in
    relabel (suc a + allocations ops) (a + suc (allocations ops)) (r + measurements ops)
      (r + measurements ops) (max (max p (suc a - r)) (peak (suc a) r ops))
      (max p (max (a - r) (peak (suc a) r ops))) (process_callee_q_mem_ops ops (count_op qalloc c))
      (omega arith) (omega arith) (omega arith) i
process_callee_q_mem_ops-peak (measure ∷ ops) a r p c d h k l =
    let i =
      process_callee_q_mem_ops-peak ops a (suc r) (max p (a - suc r)) (count_op measure c)
        (measure_lem a r p c d (omega arith) l) (omega arith) (omega arith) (omega arith) in
    relabel (a + allocations ops) (a + allocations ops) (suc r + measurements ops)
      (r + suc (measurements ops)) (max (max p (a - suc r)) (peak a (suc r) ops))
      (max p (max (a - r) (peak a (suc r) ops))) (process_callee_q_mem_ops ops (count_op measure c))
      (omega arith) (omega arith) (omega arith) i
process_callee_q_mem_ops-peak (other ∷ ops) a r p c d h k l =
    process_callee_q_mem_ops-peak ops a r p c d h k l
