-- ===== src/QoalaHost/GateCount/Traced.antt =====
-- The traversal ends, and visits the blocks of a trace.
use qoala_mlir.Common.{
  ℕ, zero, suc, ◌+◌, ◌≤◌, ◌≡◌, refl, ◌⊎◌, inl, inr, Bool, true, false, List, ◌∷◌, Option, none,
  some, ◌>>=◌, elem, elem→In, All, All-In, length, arith, Bool-cases, Option-cases,
}
use qoala_mlir.Common.Search.Fuel.{unseen-bound, unseen-visit}
use qoala_mlir.QoalaHost.Traversal.{BlockPrerequisites, scan_for_ready_block}
use qoala_mlir.QoalaHost.GateCount.{Call}
use qoala_mlir.QoalaHost.GateCount.Traverse.{
  BlockOp, call, cond_branch, branch, plain, block_deps_met, drain, traverse_cfg_and_count_gates,
}
use qoala_mlir.QoalaHost.GateCount.Trace.{
  Trace, stop, visit, targets_of, IsClosed, remaining, Trace-append, Trace-keeps, left-Trace,
}
use qoala_mlir.QoalaHost.GateCount.Drain.{scan-ready, drain-Trace}

BlockOp-cases :
    (op : BlockOp)
    → ((t : ℕ) × (f : ℕ) × (op ≡ cond_branch t f))
      ⊎ ((d : ℕ) × (op ≡ branch d))
      ⊎ ((c : Call) × (op ≡ call c))
      ⊎ (op ≡ plain)
BlockOp-cases (cond_branch t f) = inl (t, f, refl)
BlockOp-cases (branch d) = inr (inl (d, refl))
BlockOp-cases (call c) = inr (inr (inl (c, refl)))
BlockOp-cases plain = inr (inr (inr refl))

b-covered : (b : ℕ) (visited : List ℕ) → elem b (b ∷ visited) ≡ true
b-covered b visited = ground arith

module _ {S : Type 0} (process : ℕ → S → S) (region : List ℕ) (prereqs : BlockPrerequisites) where
  -- The next block is one of the region.
  abbrev IsStart : Option ℕ → Type 0
  IsStart none = Unit
  IsStart (some b) = elem b region ≡ true

  abbrev Covers : Option ℕ → List ℕ → Type 0
  Covers none after = Unit
  Covers (some b) after = elem b after ≡ true

  scan-IsStart :
      (visited forbidden : List ℕ) → IsStart (scan_for_ready_block region visited prereqs forbidden)
  scan-IsStart visited forbidden =
      elim (Option-cases (scan_for_ready_block region visited prereqs forbidden)) [
        | inl e ↦ rw e tt
        | inr (b, e) ↦ rw e (scan-ready region prereqs visited forbidden b e).0
      ]

  -- Two rounds for each block that is left; one less where the dependencies are met.
  abbrev IsEnough : ℕ → Option ℕ → List ℕ → Type 0
  IsEnough fuel none visited = Unit
  IsEnough fuel (some b) visited =
      (suc (remaining region visited + remaining region visited) ≤ fuel)
      ⊎ ((block_deps_met b visited prereqs ≡ true)
          × (elem b visited ≡ false)
          × (remaining region visited + remaining region visited ≤ fuel))

  IsEnough-full :
      (fuel : ℕ) (start : Option ℕ) (visited : List ℕ)
      → suc (remaining region visited + remaining region visited) ≤ fuel
      → IsEnough fuel start visited
  IsEnough-full fuel none visited l = tt
  IsEnough-full fuel (some b) visited l = inl l

  module _ (terminator : ℕ → BlockOp) (worse : S → S → Bool)
      (closed : IsClosed region terminator) where
    target :
        (b : ℕ) (op : BlockOp)
        → elem b region ≡ true
        → terminator b ≡ op
        → All (λ d. elem d region ≡ true) (targets_of op)
    target b op m e = rw e at (
        All-In (λ b. All (λ d. elem d region ≡ true) (targets_of (terminator b))) region b closed
          (elem→In b region m))

    abbrev Ends : ℕ → Option ℕ → List ℕ → S → List ℕ → Type 0
    Ends fuel start visited s targets =
        (after : List ℕ) × (s' : S) × (traverse_cfg_and_count_gates process worse region terminator
            prereqs fuel start visited s targets
          ≡ some (after, s'))
        × Trace process region visited s after s'
        × Covers start after

    -- A block whose prerequisites were drained is visited, and the traversal goes on.
    visit-Trace :
        (fuel : ℕ)
        → ((start : Option ℕ) (visited : List ℕ) (s : S) (targets : List ℕ)
            → IsStart start
            → suc (remaining region visited + remaining region visited) ≤ fuel
            → Ends fuel start visited s targets)
        → (b : ℕ) (visited : List ℕ) (s : S) (targets : List ℕ) → elem b region ≡ true
        → elem b visited ≡ false
        → remaining region visited + remaining region visited ≤ suc fuel
        → (mid : List ℕ) (t : S)
        → (drain process worse region terminator prereqs
              (λ ready seen now.
                traverse_cfg_and_count_gates process worse region terminator prereqs fuel
                  (some ready)
                  seen
                  now
                  (b ∷ targets))
              (suc (length region))
              b
              visited
              s
              (b ∷ targets)
            ≡ some (mid, t))
        → Trace process region visited s mid t
        → Ends (suc fuel) (some b) visited s targets
    unfolding traverse_cfg_and_count_gates
    visit-Trace fuel rec b visited s targets i m half mid t e p = elim (Bool-cases (elem b mid)) [
      | inl k ↦ (mid, t, rw (m, traverse_cfg_and_count_gates, e, ◌>>=◌, k) refl, p, k)
      | inr k ↦
          let v' = b ∷ mid in
          let t' = process b t in
          let fewer = unseen-visit (λ c. 1) region mid b i k in
          let down = left-Trace process region p in
          let start = b-covered b mid in
          elim (BlockOp-cases (terminator b)) [
            | inl (x, y, f) ↦
                let ts = target b (cond_branch x y) i f in
                let (at, st, et, pt, ct) =
                  rec (some x) v' t' (y ∷ x ∷ targets) ts.0 (omega arith) in
                let (af, sf, ef, pf, cf) =
                  rec (some y) v' t' (y ∷ x ∷ targets) ts.1.0 (omega arith) in
                elim (Bool-cases (worse st sf)) [
                  | inl w ↦ (
                    at,
                    st,
                    rw (m, traverse_cfg_and_count_gates, e, ◌>>=◌, k, f, et, ef, w) refl,
                    Trace-append process region p (visit b i k pt),
                    Trace-keeps process region b pt start,
                  )
                  | inr w ↦ (
                    af,
                    sf,
                    rw (m, traverse_cfg_and_count_gates, e, ◌>>=◌, k, f, et, ef, w) refl,
                    Trace-append process region p (visit b i k pf),
                    Trace-keeps process region b pf start,
                  )
                ]
            | inr (inl (dest, f)) ↦
                let ts = target b (branch dest) i f in
                let (a, u, g, q, c) = rec (some dest) v' t' targets ts.0 (omega arith) in
                (
                  a,
                  u,
                  rw (m, traverse_cfg_and_count_gates, e, ◌>>=◌, k, f) g,
                  Trace-append process region p (visit b i k q),
                  Trace-keeps process region b q start,
                )
            | inr (inr other) ↦
                let next = scan_for_ready_block region v' prereqs targets in
                let (a, u, g, q, c) =
                  rec next v' t' targets (scan-IsStart v' targets) (omega arith) in
                (
                  a,
                  u,
                  elim other [
                    | inl (call', f) ↦ rw (m, traverse_cfg_and_count_gates, e, ◌>>=◌, k, f) g
                    | inr f ↦ rw (m, traverse_cfg_and_count_gates, e, ◌>>=◌, k, f) g
                  ],
                  Trace-append process region p (visit b i k q),
                  Trace-keeps process region b q start,
                )
          ]
    ]

    pub traverse-Trace :
        (fuel : ℕ) (start : Option ℕ) (visited : List ℕ) (s : S) (targets : List ℕ)
        → IsStart start
        → IsEnough fuel start visited
        → Ends fuel start visited s targets
    unfolding traverse_cfg_and_count_gates
    traverse-Trace fuel none visited s targets i l = (visited, s, refl, stop, tt)
    traverse-Trace zero (some b) visited s targets i l = elim l [
      | inl h ↦ absurd (omega arith)
      | inr (met, n, h) ↦ let f = unseen-visit (λ c. 1) region visited b i n in absurd (omega arith)
    ]
    traverse-Trace (suc fuel) (some b) visited s targets i l = elim (Bool-cases (elem b visited)) [
      | inl m ↦ (visited, s, rw (m, traverse_cfg_and_count_gates) refl, stop, m)
      | inr m ↦
          let go = λ (ready : ℕ) (seen : List ℕ) (now : S).
            traverse_cfg_and_count_gates process worse region terminator prereqs fuel (some ready)
              seen now (b ∷ targets) in
          let half : remaining region visited + remaining region visited ≤ suc fuel = elim l [
            | inl h ↦ omega arith
            | inr (met, n, h) ↦ h
          ] in
          let drained : (mid : List ℕ) × (t : S) × (drain process worse region terminator prereqs go
                  (suc (length region)) b visited s (b ∷ targets)
                ≡ some (mid, t))
              × Trace process region visited s mid t =
            elim l [
              | inl h ↦
                  drain-Trace process region prereqs terminator worse (remaining region visited) go
                    (λ ready seen now k n met small.
                      traverse-Trace fuel (some ready) seen now (b ∷ targets) k
                        (inr (met, n, omega arith)))
                    (suc (length region)) b visited s (b ∷ targets) (omega arith)
                    (omega (arith, unseen-bound region visited))
              | inr (met, n, h) ↦ (visited, s, rw (met, drain) refl, stop)
            ] in
          let (mid, t, e, p) = drained in
          visit-Trace fuel
            (λ start seen now forbidden k enough.
              traverse-Trace fuel start seen now forbidden k (IsEnough-full fuel start seen enough))
            b visited s targets i m half mid t e p
    ]
