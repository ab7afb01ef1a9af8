-- ===== src/QoalaHost/MemoryEfficiency/Efficiency.antt =====
-- The traversal from the first block: that it ends, and what it counts.
use qoala_mlir.Common.{
  ℕ, zero, suc, ◌+◌, ◌^◌, ◌≤◌, ◌<◌, ◌≡◌, refl, sym, ap, ◌∙◌, false, inl, inr, true, not, ◌&&◌, List,
  [], ◌∷◌, ◌++◌, Option, none, some, elem, elem-append, elem→In, All, All-In, length, length-append,
  arith, Bool-cases,
}
use qoala_mlir.Common.Search.Fuel.{unseen-bound, unseen, unseen-visit, unseen_mono}
use qoala_mlir.QoalaHost.MemoryEfficiency.{
  CalleeOp, process_callee_q_mem_ops, BlockOp, cond_branch, branch, Counts, process_block,
  get_terminator, scan_next_physical_block, pick, traverse_cfg_and_count_q_mem, q_memory_efficiency,
}
use qoala_mlir.QoalaHost.MemoryEfficiency.Peak.{allocations, peak}
use qoala_mlir.QoalaHost.MemoryEfficiency.Walk.{
  Walk, stop, seen, jump, fall, fork, scan_next_physical_block-IsNext,
}
use qoala_mlir.QoalaHost.MemoryEfficiency.Runs.{
  terminator_lem, falls_through, process_callee_q_mem_ops-append, process_block-calls, calls,
  targets_of, BlockOp-cases, IsClosed,
}
use qoala_mlir.QoalaHost.MemoryEfficiency.Counters.{
  no_counts, counts_of, counts_of_lem, pick-IsWorse,
}

-- The next block is one of the region.
IsStart : List ℕ → Option ℕ → Type 0
IsStart region none = Unit
IsStart region (some b) = elem b region ≡ true

scan_next_physical_block-IsStart :
    (all_blocks region visited targets : List ℕ)
    → ((x : ℕ) → elem x region ≡ true → elem x all_blocks ≡ true)
    → IsStart all_blocks (scan_next_physical_block region visited targets)
unfolding scan_next_physical_block IsStart
scan_next_physical_block-IsStart all_blocks [] visited targets h = tt
scan_next_physical_block-IsStart all_blocks (b ∷ region) visited targets h =
    elim (Bool-cases (not (elem b visited) && not (elem b targets))) [
      | inl e ↦ rw (e, scan_next_physical_block) (h b (ground arith))
      | inr e ↦
          rw (e, scan_next_physical_block)
            (scan_next_physical_block-IsStart all_blocks region visited targets
              (λ x p. h x (ground arith)))
    ]

-- The operations that the blocks of the region call.
abbrev pub volume : List ℕ → (ℕ → List BlockOp) → ℕ
volume [] contents = 0
volume (b ∷ region) contents = length (calls (contents b)) + volume region contents

unseen-volume :
    (region : List ℕ) (contents : ℕ → List BlockOp)
    → unseen (λ b. length (calls (contents b))) region [] ≡ volume region contents
unseen-volume [] contents = refl
unseen-volume (b ∷ region) contents = omega (arith, unseen-volume region contents)

module _ (region : List ℕ) (contents : ℕ → List BlockOp) (closed : IsClosed region contents) where
  target :
      (b : ℕ) (op : BlockOp)
      → elem b region ≡ true
      → get_terminator (contents b) ≡ op
      → All (λ d. elem d region ≡ true) (targets_of op)
  target b op m e = rw e at (
      All-In (λ b. All (λ d. elem d region ≡ true) (targets_of (get_terminator (contents b))))
        region b closed (elem→In b region m))

  abbrev left : List ℕ → ℕ
  left visited = unseen (λ b. 1) region visited

  scan-IsStart :
      (visited targets : List ℕ) → IsStart region (scan_next_physical_block region visited targets)
  scan-IsStart visited targets =
      scan_next_physical_block-IsStart region region visited targets (λ x p. p)

  -- The operations of the blocks that are not visited.
  abbrev volume_left : List ℕ → ℕ
  volume_left visited = unseen (λ b. length (calls (contents b))) region visited

  abbrev traverse : ℕ → Option ℕ → List ℕ → Counts → List ℕ → Option (List ℕ × Counts)
  traverse fuel start visited c targets =
      traverse_cfg_and_count_q_mem region contents fuel start visited c targets

  fork_step :
      (fuel b t f : ℕ) (visited targets vt vf : List ℕ) (c c1 ct cf cp : Counts)
      → elem b visited ≡ false
      → get_terminator (contents b) ≡ cond_branch t f
      → process_block (contents b) c ≡ c1
      → traverse fuel (some t) (b ∷ visited) c1 (f ∷ t ∷ targets) ≡ some (vt, ct)
      → traverse fuel (some f) (b ∷ visited) c1 (f ∷ t ∷ targets) ≡ some (vf, cf)
      → pick ct cf ≡ cp
      → traverse (suc fuel) (some b) visited c targets
        ≡ traverse fuel (scan_next_physical_block region (vf ++ vt) targets) (vf ++ vt) cp targets
  unfolding traverse_cfg_and_count_q_mem
  fork_step fuel b t f visited targets vt vf c c1 ct cf cp m e p et ef ep =
      rw (m, e, traverse_cfg_and_count_q_mem, p, et, ef)
        (ap
          (λ z.
            traverse fuel (scan_next_physical_block region (vf ++ vt) targets) (vf ++ vt) z targets)
          ep)

  -- A traversal that ends, with the history that its counters count.
  abbrev Result : ℕ → Option ℕ → List ℕ → List CalleeOp → List ℕ → Type 0
  Result fuel start visited h targets =
      (after : List ℕ) × (h' : List CalleeOp) × (traverse_cfg_and_count_q_mem region contents fuel
          start visited (counts_of h) targets
        ≡ some (after, counts_of h'))
      × Walk region contents targets start visited h after h'
      × ((x : ℕ) → elem x visited ≡ true → elem x after ≡ true)
      × (length h' + volume_left after ≤ length h + volume_left visited)

  traverse-Walk :
      (fuel : ℕ) (start : Option ℕ) (visited : List ℕ) (h : List CalleeOp) (targets : List ℕ)
      → IsStart region start
      → suc (left visited) ≤ fuel
      → length h + volume_left visited < 2 ^ 32
      → Result fuel start visited h targets
  unfolding traverse_cfg_and_count_q_mem IsStart
  traverse-Walk fuel none visited h targets s l small =
      (visited, h, refl, stop, (λ x p. p), omega arith)
  traverse-Walk zero (some b) visited h targets s l small = absurd (omega arith)
  traverse-Walk (suc fuel) (some b) visited h targets s l small =
      elim (Bool-cases (elem b visited)) [
        | inl m ↦
            (visited, h, rw (m, traverse_cfg_and_count_q_mem) refl, seen m, (λ x p. p), omega arith)
        | inr m ↦
            let v' = b ∷ visited in
            let h1 = h ++ calls (contents b) in
            let counted : process_block (contents b) (counts_of h) ≡ counts_of h1 =
              process_block-calls (contents b) (counts_of h)
              ∙ sym (process_callee_q_mem_ops-append h (calls (contents b)) no_counts) in
            let fewer = unseen-visit (λ b. 1) region visited b s m in
            let less = unseen-visit (λ b. length (calls (contents b))) region visited b s m in
            let size = length-append h (calls (contents b)) in
            elim (BlockOp-cases (get_terminator (contents b))) [
              | inl (t, f, e) ↦
                  let ts = target b (cond_branch t f) s e in
                  let (vt, ht, et, wt, kt, lt) =
                    traverse-Walk fuel (some t) v' h1 (f ∷ t ∷ targets) ts.0 (omega arith)
                      (omega arith) in
                  let (vf, hf, ef, wf, kf, lf) =
                    traverse-Walk fuel (some f) v' h1 (f ∷ t ∷ targets) ts.1.0 (omega arith)
                      (omega arith) in
                  let union = vf ++ vt in
                  let grown =
                    unseen_mono (λ b. 1) region v' union
                      (λ x p. rw (elem-append x vf vt) (let q = kf x p in ground arith)) in
                  let vol_t =
                    unseen_mono (λ b. length (calls (contents b))) region vt union
                      (λ x p. rw (elem-append x vf vt) (ground arith)) in
                  let vol_f =
                    unseen_mono (λ b. length (calls (contents b))) region vf union
                      (λ x p. rw (elem-append x vf vt) (ground arith)) in
                  let (picked, ep, worse, one) = pick-IsWorse ht hf (omega arith) (omega arith) in
                  let kept : length picked + volume_left union ≤ length h1 + volume_left v' =
                    elim one [ inl q ↦ rw q (omega arith) | inr q ↦ rw q (omega arith) ] in
                  let next = scan_next_physical_block region union targets in
                  let (after, h', ea, wa, ka, la) =
                    traverse-Walk fuel next union picked targets (scan-IsStart union targets)
                      (omega arith) (omega arith) in
                  (
                    after,
                    h',
                    fork_step fuel b t f visited targets vt vf (counts_of h) (counts_of h1)
                          (counts_of ht) (counts_of hf) (counts_of picked) m e counted et ef ep
                        ∙ ea,
                    fork m (terminator_lem (contents b) (cond_branch t f) e (λ q. absurd cc)) wt wf
                        worse (scan_next_physical_block-IsNext region union targets) wa,
                    (λ x p. ka x (
                        rw (elem-append x vf vt) (
                          let q = kf x (let k : elem x v' ≡ true = ground arith in k) in
                          ground arith))),
                    omega arith,
                  )
              | inr (inl (dest, e)) ↦
                  let ts = target b (branch dest) s e in
                  let (after, h', ea, wa, ka, la) =
                    traverse-Walk fuel (some dest) v' h1 targets ts.0 (omega arith) (omega arith) in
                  (
                    after,
                    h',
                    rw (m, e, traverse_cfg_and_count_q_mem, counted) ea,
                    jump m (terminator_lem (contents b) (branch dest) e (λ q. absurd cc)) wa,
                    (λ x p. ka x (ground arith)),
                    omega arith,
                  )
              | inr (inr k) ↦
                  let next = scan_next_physical_block region v' targets in
                  let (after, h', ea, wa, ka, la) =
                    traverse-Walk fuel next v' h1 targets (scan-IsStart v' targets) (omega arith)
                      (omega arith) in
                  (
                    after,
                    h',
                    elim k [
                      | inl (callee, e) ↦ rw (m, e, traverse_cfg_and_count_q_mem, counted) ea
                      | inr e ↦ rw (m, e, traverse_cfg_and_count_q_mem, counted) ea
                    ],
                    fall m (falls_through (contents b) k)
                        (scan_next_physical_block-IsNext region v' targets) wa,
                    (λ x p. ka x (ground arith)),
                    omega arith,
                  )
            ]
      ]

-- If branches go to blocks of the region, it contains the first block, and its blocks call fewer than 2^32
-- operations, the analysis ends, its visited blocks and a history of operations come from the walk from the
-- first block that takes, at each conditional branch, the history of the branch that needs more qubits at
-- once; the virtual qubits are the allocations of the history, the physical ones the most that are in use at
-- once in it, and the physical are no more than the virtual ones.
pub q_memory_efficiency-peak :
    (region : List ℕ) (contents : ℕ → List BlockOp) (front : ℕ)
    → IsClosed region contents
    → elem front region ≡ true
    → volume region contents < 2 ^ 32
    → (visited : List ℕ) × (h : List CalleeOp) × (c : Counts) × (q_memory_efficiency region contents
          front
        ≡ some (visited, c))
      × Walk region contents [] (some front) [] [] visited h
      × (c.virtual_qubits ≡ allocations h)
      × (c.physical_qubits ≡ peak 0 0 h)
      × (c.physical_qubits ≤ c.virtual_qubits)
unfolding q_memory_efficiency IsStart process_callee_q_mem_ops
q_memory_efficiency-peak region contents front closed m small =
    let sum = unseen-volume region contents in
    let (visited, h, e, w, k, l) =
      traverse-Walk region contents closed (suc (length region)) (some front) [] [] [] m
        (omega (arith, unseen-bound region [])) (omega arith) in
    let d = counts_of_lem h (omega arith) in
    (visited, h, counts_of h, e, w, d.allocated_all, d.at_most, d.bounded)
