-- ===== src/QoalaHost/MemoryEfficiency/Checks.antt =====
-- The theorems about the memory efficiency at a region with a conditional branch.
use qoala_mlir.Common.{ℕ, ◌≡◌, ◌≤◌, refl, List, [], ◌∷◌, some, ◌==◌, if◌then◌else◌, arith}
use qoala_mlir.QoalaHost.MemoryEfficiency.{
  CalleeOp, qalloc, measure, BlockOp, call, cond_branch, branch, plain, Counts, q_memory_efficiency,
  get_terminator,
}
use qoala_mlir.QoalaHost.MemoryEfficiency.Peak.{allocations, peak}
use qoala_mlir.QoalaHost.MemoryEfficiency.Runs.{IsClosed}
use qoala_mlir.QoalaHost.MemoryEfficiency.Walk.{Walk}
use qoala_mlir.QoalaHost.MemoryEfficiency.Efficiency.{q_memory_efficiency-peak}

abbrev region : List ℕ
region = 0 ∷ 1 ∷ 2 ∷ 3 ∷ []

abbrev contents : ℕ → List BlockOp
contents b =
    if b == 0
    then call (qalloc ∷ []) ∷ cond_branch 1 2 ∷ []
    else if b == 1
    then call (measure ∷ qalloc ∷ []) ∷ branch 3 ∷ []
    else if b == 2
    then call (qalloc ∷ []) ∷ branch 3 ∷ []
    else call (measure ∷ []) ∷ plain ∷ []

-- The branch to block 2 uses two qubits at once.
two_qubits :
    q_memory_efficiency region contents 0
    ≡ some (
      3 ∷ 2 ∷ 0 ∷ 3 ∷ 1 ∷ 0 ∷ [],
      record { virtual_qubits = 2; physical_qubits = 2; measured = 1 },
    )
unfolding q_memory_efficiency
two_qubits = refl

region-IsClosed : IsClosed region contents
unfolding get_terminator
region-IsClosed = ((refl, (refl, tt)), ((refl, tt), ((refl, tt), (tt, tt))))

q_memory_efficiency-peak_example :
    (visited : List ℕ) × (h : List CalleeOp) × (c : Counts) × (q_memory_efficiency region contents 0
      ≡ some (visited, c))
    × Walk region contents [] (some 0) [] [] visited h
    × (c.virtual_qubits ≡ allocations h)
    × (c.physical_qubits ≡ peak 0 0 h)
    × (c.physical_qubits ≤ c.virtual_qubits)
q_memory_efficiency-peak_example =
    q_memory_efficiency-peak region contents 0 region-IsClosed refl (omega arith)
