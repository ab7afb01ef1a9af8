-- ===== src/QoalaHost/MemoryEfficiency/Walk.antt =====
-- The traversal described without counters: which blocks are walked through, and the callee operations on
-- the way.
use qoala_mlir.Common.{
  ℕ, ◌≤◌, ◌<◌, ◌≡◌, refl, ap, ◌⊎◌, inl, inr, true, false, not, ◌&&◌, List, [], ◌∷◌, ◌++◌, Option,
  none, some, elem, All, arith, Bool-cases,
}
use qoala_mlir.QoalaHost.MemoryEfficiency.{
  CalleeOp, BlockOp, cond_branch, branch, scan_next_physical_block,
}
use qoala_mlir.QoalaHost.MemoryEfficiency.Peak.{peak}
use qoala_mlir.QoalaHost.MemoryEfficiency.Runs.{calls, Ends, FallsThrough}

-- A block that the scan passes by: visited, or a destination of an enclosing branch.
abbrev pub IsPassed : List ℕ → List ℕ → ℕ → Type 0
IsPassed visited forbidden b = (elem b visited ≡ true) ⊎ (elem b forbidden ≡ true)

-- The first block of the region that is not passed by, if there is one.
abbrev pub IsNext : List ℕ → List ℕ → List ℕ → Option ℕ → Type 0
IsNext region visited forbidden none = All (IsPassed visited forbidden) region
IsNext region visited forbidden (some b) =
    (before after : List ℕ) × (region ≡ before ++ b ∷ after)
    × All (IsPassed visited forbidden) before
    × (elem b visited ≡ false)
    × (elem b forbidden ≡ false)

IsNext-pass :
    (x : ℕ) (region visited forbidden : List ℕ) (next : Option ℕ)
    → IsPassed visited forbidden x
    → IsNext region visited forbidden next
    → IsNext (x ∷ region) visited forbidden next
IsNext-pass x region visited forbidden none p h = (p, h)
IsNext-pass x region visited forbidden (some b) p (before, after, e, h, n, m) =
    (x ∷ before, after, ap (λ t. x ∷ t) e, (p, h), n, m)

pub scan_next_physical_block-IsNext :
    (region visited forbidden : List ℕ)
    → IsNext region visited forbidden (scan_next_physical_block region visited forbidden)
unfolding scan_next_physical_block
scan_next_physical_block-IsNext [] visited forbidden = tt
scan_next_physical_block-IsNext (b ∷ region) visited forbidden =
    elim (Bool-cases (not (elem b visited) && not (elem b forbidden))) [
      | inl e ↦ rw (e, scan_next_physical_block) ([], region, refl, tt, ground arith, ground arith)
      | inr e ↦
          let passed : IsPassed visited forbidden b = elim (Bool-cases (elem b visited)) [
            | inl v ↦ inl v
            | inr v ↦ inr (ground arith)
          ] in
          rw (e, scan_next_physical_block)
            (IsNext-pass b region visited forbidden
              (scan_next_physical_block region visited forbidden) passed
              (scan_next_physical_block-IsNext region visited forbidden))
    ]

-- The history of the branch that needs more qubits at once, the true branch among equals.
abbrev pub IsWorse : List CalleeOp → List CalleeOp → List CalleeOp → Type 0
IsWorse on_true on_false picked =
    ((picked ≡ on_true) × (peak 0 0 on_false ≤ peak 0 0 on_true))
    ⊎ ((picked ≡ on_false) × (peak 0 0 on_true < peak 0 0 on_false))

-- A walk from a block, if there is one: the blocks visited and the operations called before and after it.
-- While a branch is walked, the scan passes by both its destinations.
pub data Walk (region : List ℕ) (contents : ℕ → List BlockOp)
    : List ℕ → Option ℕ → List ℕ → List CalleeOp → List ℕ → List CalleeOp → Type 0 where
  stop :
      {forbidden visited : List ℕ} {h : List CalleeOp}
      → Walk region contents forbidden none visited h visited h
  seen :
      {forbidden visited : List ℕ} {h : List CalleeOp} {b : ℕ}
      → elem b visited ≡ true
      → Walk region contents forbidden (some b) visited h visited h
  jump :
      {forbidden visited after : List ℕ} {h h' : List CalleeOp} {b dest : ℕ}
      → elem b visited ≡ false
      → Ends (contents b) (branch dest)
      → Walk region contents forbidden (some dest) (b ∷ visited) (h ++ calls (contents b)) after h'
      → Walk region contents forbidden (some b) visited h after h'
  fall :
      {forbidden visited after : List ℕ} {h h' : List CalleeOp} {b : ℕ} {next : Option ℕ}
      → elem b visited ≡ false
      → FallsThrough (contents b)
      → IsNext region (b ∷ visited) forbidden next
      → Walk region contents forbidden next (b ∷ visited) (h ++ calls (contents b)) after h'
      → Walk region contents forbidden (some b) visited h after h'
  fork :
      {forbidden visited on_true on_false after : List ℕ}
      {h h_true h_false picked h' : List CalleeOp} {b true_dest false_dest : ℕ} {next : Option ℕ}
      → elem b visited ≡ false
      → Ends (contents b) (cond_branch true_dest false_dest)
      → Walk region contents
          (false_dest ∷ true_dest ∷ forbidden)
          (some true_dest)
          (b ∷ visited)
          (h ++ calls (contents b))
          on_true
          h_true
      → Walk region contents
          (false_dest ∷ true_dest ∷ forbidden)
          (some false_dest)
          (b ∷ visited)
          (h ++ calls (contents b))
          on_false
          h_false
      → IsWorse h_true h_false picked
      → IsNext region (on_false ++ on_true) forbidden next
      → Walk region contents forbidden next (on_false ++ on_true) picked after h'
      → Walk region contents forbidden (some b) visited h after h'
