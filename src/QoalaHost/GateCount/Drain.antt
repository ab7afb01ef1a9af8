-- ===== src/QoalaHost/GateCount/Drain.antt =====
-- The inner loop of the traversal ends: each of its rounds visits a block.
use qoala_mlir.Common.{
  ℕ, zero, suc, ◌≤◌, ◌≡◌, refl, inl, inr, Bool, true, false, List, ◌∷◌, ◌++◌, Option, some, elem,
  elem→In, In→elem, append-In_right, arith, Bool-cases, Option-cases,
}
use qoala_mlir.QoalaHost.Graph.{deps_of}
use qoala_mlir.QoalaHost.Traversal.{BlockPrerequisites, scan_for_ready_block}
use qoala_mlir.QoalaHost.Traversal.Ready.{IsFirstReady, elem-all, scan_for_ready_block-IsFirstReady}
use qoala_mlir.QoalaHost.GateCount.Traverse.{BlockOp, block_deps_met, drain}
use qoala_mlir.QoalaHost.GateCount.Trace.{Trace, stop, remaining, Trace-append, left-visit}

module _ (region : List ℕ) (prereqs : BlockPrerequisites) where
  pub scan-ready :
      (visited forbidden : List ℕ) (b : ℕ)
      → scan_for_ready_block region visited prereqs forbidden ≡ some b
      → (elem b region ≡ true)
        × (elem b visited ≡ false)
        × (block_deps_met b visited prereqs ≡ true)
  unfolding block_deps_met
  scan-ready visited forbidden b e =
      let first : IsFirstReady visited prereqs forbidden region (some b) =
        rw e at (scan_for_ready_block-IsFirstReady region visited prereqs forbidden) in
      let (before, after, q, r, _) = first in
      let m : elem b region ≡ true =
        rw q (In→elem b (before ++ b ∷ after) (append-In_right b before (b ∷ after) (inl refl))) in
      let d = elem-all (deps_of prereqs.dependencies b) visited r.dependencies_met in
      (
        m,
        elim (Bool-cases (elem b visited)) [
          | inl i ↦ absurd (r.unvisited (elem→In b visited i))
          | inr i ↦ i
        ],
        rw d (ground arith),
      )

module _ {S : Type 0} (process : ℕ → S → S) (region : List ℕ) (prereqs : BlockPrerequisites) where
  -- What a visit from a ready block has to do.
  abbrev pub Visits : ℕ → (ℕ → List ℕ → S → Option (List ℕ × S)) → Type 0
  Visits bound go =
      (ready : ℕ) (seen : List ℕ) (now : S)
      → elem ready region ≡ true
      → elem ready seen ≡ false
      → block_deps_met ready seen prereqs ≡ true
      → remaining region seen ≤ bound
      → (after : List ℕ) × (s' : S) × (go ready seen now ≡ some (after, s'))
        × Trace process region seen now after s'
        × (elem ready after ≡ true)

  -- The inner loop ends: each of its rounds visits a block.
  pub drain-Trace :
      (terminator : ℕ → BlockOp) (worse : S → S → Bool) (bound : ℕ)
      (go : ℕ → List ℕ → S → Option (List ℕ × S))
      → Visits bound go
      → (rounds block : ℕ) (visited : List ℕ) (s : S) (inner : List ℕ)
      → remaining region visited ≤ bound
      → suc (remaining region visited) ≤ rounds
      → (after : List ℕ) × (s' : S) × (drain process worse region terminator prereqs go rounds block
            visited s inner
          ≡ some (after, s'))
        × Trace process region visited s after s'
  unfolding drain
  drain-Trace terminator worse bound go h zero block visited s inner l k = absurd (omega arith)
  drain-Trace terminator worse bound go h (suc rounds) block visited s inner l k =
      elim (Bool-cases (block_deps_met block visited prereqs)) [
        | inl d ↦ (visited, s, rw (d, drain) refl, stop)
        | inr d ↦ elim (Option-cases (scan_for_ready_block region visited prereqs inner)) [
          | inl e ↦ (visited, s, rw (d, e, drain) refl, stop)
          | inr (ready, e) ↦
              let (i, n, met) = scan-ready region prereqs visited inner ready e in
              let (mid, t, g, p, m) = h ready visited s i n met l in
              let less = left-visit process region ready i n p m in
              let (after, s', f, q) =
                drain-Trace terminator worse bound go h rounds block mid t inner (omega arith)
                  (omega arith) in
              (after, s', rw (d, e, drain, g) f, Trace-append process region p q)
        ]
      ]
