-- ===== src/QoalaHost/MemoryEfficiency/Runs.antt =====
-- The blocks: what they call, how they end, and where they go.
use qoala_mlir.Common.{
  ℕ, ◌≡◌, ◌≢◌, refl, sym, ap, ◌∙◌, ◌⊎◌, inl, inr, true, List, [], ◌∷◌, ◌++◌, elem, All,
}
use qoala_mlir.QoalaHost.MemoryEfficiency.{
  CalleeOp, BlockOp, call, cond_branch, branch, plain, Counts, process_callee_q_mem_ops,
  process_block, get_terminator,
}

-- What a block calls, up to its first branch.
abbrev pub calls : List BlockOp → List CalleeOp
calls [] = []
calls (call callee ∷ ops) = callee ++ calls ops
calls (cond_branch true_dest false_dest ∷ ops) = []
calls (branch dest ∷ ops) = []
calls (plain ∷ ops) = calls ops

pub process_callee_q_mem_ops-append :
    (xs ys : List CalleeOp) (c : Counts)
    → process_callee_q_mem_ops (xs ++ ys) c
      ≡ process_callee_q_mem_ops ys (process_callee_q_mem_ops xs c)
unfolding process_callee_q_mem_ops
process_callee_q_mem_ops-append [] ys c = refl
process_callee_q_mem_ops-append (x ∷ xs) ys c = process_callee_q_mem_ops-append xs ys _

pub process_block-calls :
    (ops : List BlockOp) (c : Counts) → process_block ops c ≡ process_callee_q_mem_ops (calls ops) c
unfolding process_block process_callee_q_mem_ops
process_block-calls [] c = refl
process_block-calls (call callee ∷ ops) c =
    process_block-calls ops (process_callee_q_mem_ops callee c)
    ∙ sym (process_callee_q_mem_ops-append callee (calls ops) c)
process_block-calls (cond_branch t f ∷ ops) c = refl
process_block-calls (branch d ∷ ops) c = refl
process_block-calls (plain ∷ ops) c = process_block-calls ops c

abbrev pub targets_of : BlockOp → List ℕ
targets_of (cond_branch true_dest false_dest) = true_dest ∷ false_dest ∷ []
targets_of (branch dest) = dest ∷ []
targets_of _ = []

pub BlockOp-cases :
    (op : BlockOp)
    → ((t : ℕ) × (f : ℕ) × (op ≡ cond_branch t f))
      ⊎ ((d : ℕ) × (op ≡ branch d))
      ⊎ ((callee : List CalleeOp) × (op ≡ call callee))
      ⊎ (op ≡ plain)
BlockOp-cases (cond_branch t f) = inl (t, f, refl)
BlockOp-cases (branch d) = inr (inl (d, refl))
BlockOp-cases (call callee) = inr (inr (inl (callee, refl)))
BlockOp-cases plain = inr (inr (inr refl))

-- The last operation of a block.
abbrev pub Ends : List BlockOp → BlockOp → Type 0
Ends ops op = (init : List BlockOp) × (ops ≡ init ++ op ∷ [])

pub Ends-get_terminator : (ops : List BlockOp) → (ops ≡ []) ⊎ Ends ops (get_terminator ops)
unfolding get_terminator
Ends-get_terminator [] = inl refl
Ends-get_terminator (op ∷ []) = inr ([], refl)
Ends-get_terminator (op ∷ next ∷ ops) = elim (Ends-get_terminator (next ∷ ops)) [
  | inl e ↦ inl (absurd cc)
  | inr (init, e) ↦ inr (op ∷ init, ap (λ t. op ∷ t) e)
]

-- A block that does not end with a branch.
abbrev pub FallsThrough : List BlockOp → Type 0
FallsThrough ops = (ops ≡ []) ⊎ ((callee : List CalleeOp) × Ends ops (call callee)) ⊎ Ends ops plain

pub terminator_lem :
    (ops : List BlockOp) (op : BlockOp) → get_terminator ops ≡ op → op ≢ plain → Ends ops op
unfolding get_terminator
terminator_lem ops op e n = elim (Ends-get_terminator ops) [
  | inl q ↦ let f : plain ≡ op = rw q at e in absurd (n (sym f))
  | inr k ↦ rw e at k
]

pub falls_through :
    (ops : List BlockOp)
    → ((callee : List CalleeOp) × (get_terminator ops ≡ call callee)) ⊎ (get_terminator ops ≡ plain)
    → FallsThrough ops
falls_through ops h = elim (Ends-get_terminator ops) [
  | inl q ↦ inl q
  | inr k ↦ elim h [
    | inl (callee, e) ↦ inr (inl (callee, rw e at k))
    | inr e ↦ inr (inr (rw e at k))
  ]
]

-- Branches go to blocks of the region.
abbrev pub IsClosed : List ℕ → (ℕ → List BlockOp) → Type 0
IsClosed region contents =
    All (λ b. All (λ d. elem d region ≡ true) (targets_of (get_terminator (contents b)))) region
