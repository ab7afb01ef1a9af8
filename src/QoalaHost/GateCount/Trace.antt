-- ===== src/QoalaHost/GateCount/Trace.antt =====
-- Traces: the blocks that a traversal visits, one after the other, each once.
use qoala_mlir.Common.{
  ℕ, suc, ◌≤◌, ◌≡◌, inl, inr, true, false, List, [], ◌∷◌, ◌==◌, elem, All, arith, Bool-cases,
}
use qoala_mlir.Common.Search.Fuel.{unseen, unseen-visit, unseen_mono}
use qoala_mlir.QoalaHost.GateCount.Traverse.{BlockOp, cond_branch, branch}

-- Steps of a traversal: each processes a block of the region that was not visited, and visits it.
pub data Trace {S : Type 0} (process : ℕ → S → S) (region : List ℕ)
    : List ℕ → S → List ℕ → S → Type 0 where
  stop : {visited : List ℕ} {s : S} → Trace process region visited s visited s
  visit :
      {visited after : List ℕ} {s s' : S} (b : ℕ)
      → elem b region ≡ true
      → elem b visited ≡ false
      → Trace process region (b ∷ visited) (process b s) after s'
      → Trace process region visited s after s'

abbrev pub targets_of : BlockOp → List ℕ
targets_of (cond_branch true_dest false_dest) = true_dest ∷ false_dest ∷ []
targets_of (branch dest) = dest ∷ []
targets_of _ = []

-- Branches go to blocks of the region.
abbrev pub IsClosed : List ℕ → (ℕ → BlockOp) → Type 0
IsClosed region terminator =
    All (λ b. All (λ d. elem d region ≡ true) (targets_of (terminator b))) region

-- How many blocks are left.
abbrev pub remaining : List ℕ → List ℕ → ℕ
remaining region visited = unseen (λ b. 1) region visited

module _ {S : Type 0} (process : ℕ → S → S) (region : List ℕ) where
  pub Trace-append :
      {v m a : List ℕ} {s t u : S}
      → Trace process region v s m t
      → Trace process region m t a u
      → Trace process region v s a u
  Trace-append stop q = q
  Trace-append (visit b i n p) q = visit b i n (Trace-append p q)

  pub Trace-keeps :
      {v a : List ℕ} {s t : S} (x : ℕ)
      → Trace process region v s a t
      → elem x v ≡ true
      → elem x a ≡ true
  Trace-keeps x stop h = h
  Trace-keeps x (visit b i n p) h = Trace-keeps x p (ground arith)

  -- What every block keeps, the traversal keeps.
  pub Trace-invariant :
      {v a : List ℕ} {s t : S} (P : S → Type 0)
      → ((b : ℕ) (now : S) → P now → P (process b now))
      → Trace process region v s a t
      → P s
      → P t
  Trace-invariant P h stop p = p
  Trace-invariant P h (visit b i n q) p = Trace-invariant P h q (h b _ p)

  pub left-visit :
      {v a : List ℕ} {s t : S} (b : ℕ)
      → elem b region ≡ true
      → elem b v ≡ false
      → Trace process region v s a t
      → elem b a ≡ true
      → suc (remaining region a) ≤ remaining region v
  left-visit {v} {a} b i n p m =
      let first = unseen-visit (λ c. 1) region v b i n in
      let rest =
        unseen_mono (λ c. 1) region (b ∷ v) a
          (λ x q. elim (Bool-cases (x == b)) [
            | inl e ↦ let f : x ≡ b = ground arith in rw f m
            | inr e ↦ Trace-keeps x p (ground arith)
          ]) in
      omega arith

  pub left-Trace :
      {v a : List ℕ} {s t : S}
      → Trace process region v s a t
      → remaining region a ≤ remaining region v
  left-Trace {v} {a} p = unseen_mono (λ c. 1) region v a (λ x q. Trace-keeps x p q)
