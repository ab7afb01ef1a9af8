-- ===== src/QoalaHost/GateCount/Totals.antt =====
-- What the counters say at the end of a traversal.
use qoala_mlir.Common.{
  ℕ, suc, ◌+◌, ◌≡◌, refl, sym, ap, ◌∙◌, inl, inr, true, List, [], ◌∷◌, Option, none, some, ◌>>=◌,
  elem, length, arith, Option-cases,
}
use qoala_mlir.Common.Search.Fuel.{unseen-bound}
use qoala_mlir.QoalaHost.Traversal.{BlockPrerequisites}
use qoala_mlir.QoalaHost.GateCount.{Call, count_of, GateCountState, no_gates, process_callee_gates}
use qoala_mlir.QoalaHost.GateCount.Traverse.{
  BlockOp, call, cond_branch, branch, plain, get_terminator, process_block, true_has_more_gates,
  count_gates,
}
use qoala_mlir.QoalaHost.GateCount.Traced.{traverse-Trace}
use qoala_mlir.QoalaHost.GateCount.Trace.{Trace, Trace-invariant, IsClosed}
use qoala_mlir.QoalaHost.GateCount.Balance.{IsBalanced, process_callee_gates-IsBalanced}

-- Where no assertion failed.
abbrev pub IsBalancedState : Option GateCountState → Type 0
IsBalancedState none = Unit
IsBalancedState (some s) = IsBalanced s

called-IsBalanced :
    (qubit_id : ℕ → ℕ) (c : Call) (s : Option GateCountState)
    → IsBalancedState s
    → IsBalancedState (s >>= process_callee_gates qubit_id c)
called-IsBalanced qubit_id c none h = tt
called-IsBalanced qubit_id c (some s) h = elim (Option-cases (process_callee_gates qubit_id c s)) [
  | inl e ↦ rw e tt
  | inr (s', e) ↦ rw e (process_callee_gates-IsBalanced qubit_id c s s' e h)
]

process_block-IsBalanced :
    (qubit_id : ℕ → ℕ) (ops : List BlockOp) (s : Option GateCountState)
    → IsBalancedState s
    → IsBalancedState (process_block qubit_id ops s)
unfolding process_block
process_block-IsBalanced qubit_id [] s h = h
process_block-IsBalanced qubit_id (call c ∷ ops) s h =
    process_block-IsBalanced qubit_id ops (s >>= process_callee_gates qubit_id c)
      (called-IsBalanced qubit_id c s h)
process_block-IsBalanced qubit_id (cond_branch t f ∷ ops) s h = h
process_block-IsBalanced qubit_id (branch d ∷ ops) s h = h
process_block-IsBalanced qubit_id (plain ∷ ops) s h = process_block-IsBalanced qubit_id ops s h

module _ (qubit_id : ℕ → ℕ → ℕ) (region : List ℕ) (contents : ℕ → List BlockOp)
    (prereqs : BlockPrerequisites) (front : ℕ)
    (closed : IsClosed region (λ b. get_terminator (contents b)))
    (entry : elem front region ≡ true) where
  -- Whatever the branches, the prerequisites and the loops, the traversal ends, and the result comes from
  -- processing blocks of the region one after the other, each at most once, the first block among them.
  pub count_gates-Trace :
      (visited : List ℕ) × (s : Option GateCountState) × (count_gates qubit_id region contents
          prereqs front
        ≡ some (visited, s))
      × Trace (λ b. process_block (qubit_id b) (contents b)) region [] (some no_gates) visited s
      × (elem front visited ≡ true)
  unfolding count_gates
  count_gates-Trace =
      traverse-Trace (λ b. process_block (qubit_id b) (contents b)) region prereqs
        (λ b. get_terminator (contents b)) true_has_more_gates closed
        (suc (suc (length region + length region))) (some front) [] (some no_gates) [] entry
        (inl (omega (arith, unseen-bound region [])))

  -- If no assertion fails, the gates counted are the one-qubit and the two-qubit gates (modulo 2^32), in all
  -- and of each qubit.
  pub count_gates-IsBalanced :
      (visited : List ℕ) (s : GateCountState)
      → count_gates qubit_id region contents prereqs front ≡ some (visited, some s)
      → IsBalanced s
  unfolding count_of
  count_gates-IsBalanced visited s e =
      let (seen, t, f, p, _) = count_gates-Trace in
      let start : IsBalanced no_gates = record { total = refl; detailed = λ q. refl } in
      let b =
        Trace-invariant (λ b. process_block (qubit_id b) (contents b)) region IsBalancedState
          (λ b now h. process_block-IsBalanced (qubit_id b) (contents b) now h) p start in
      let g : t ≡ some s =
        ap (λ (x : Option (List ℕ × Option GateCountState)). state_of x) (sym f ∙ e) in
      rw g at b
    where
      state_of : Option (List ℕ × Option GateCountState) → Option GateCountState
      state_of none = none
      state_of (some (_, s)) = s
