-- ===== src/QNet/DeadCode/Liveness.antt =====
-- The backward propagation: that its worklist ends, and which operations it finds live.
use qoala_mlir.Common.{
  ℕ, ◌+◌, ◌≡◌, refl, ◌↔◌, ◌⊎◌, inl, inr, Bool, true, false, List, [], ◌∷◌, some, ◌==◌,
  if◌then◌else◌, elem, In, Any, length, arith, Bool-cases, Option-cases,
}
use qoala_mlir.Common.Search.{push_all}
use qoala_mlir.Common.Search.Fuel.{pending}
use qoala_mlir.Common.Search.Reach.{
  Reaches, root, step, Found, In-push_all, push_all-In, depth_first_lem,
}
use qoala_mlir.QNet.DeadCode.{
  Operation, measurement_result_is_observed, outcome_of, roots, ids, producers, operands_of,
  producers_of, entanglement, live_operations,
}
use qoala_mlir.QNet.DeadCode.Observed.{IsObserved, measurement_result_is_observed_lem}

-- A measurement, with classical awareness one whose outcome is observed.
abbrev pub IsRoot : Bool → List Operation → ℕ → Operation → Type 0
IsRoot aware ops i op =
    (i ≡ op.id)
    × (outcome : ℕ) × (outcome_of op.kind ≡ some outcome)
    × (aware ≡ true → IsObserved ops outcome)

-- The root measurements and what they are computed from. Nothing is traced behind an entanglement creation.
pub data Contributes (aware : Bool) (ops : List Operation) : ℕ → Type 0 where
  measured : {i : ℕ} → Any (IsRoot aware ops i) ops → Contributes aware ops i
  produces :
      {i j : ℕ}
      → Contributes aware ops i
      → ¬ In i (entanglement ops)
      → In j (producers ops i)
      → Contributes aware ops j

observed_lem :
    (aware : Bool) (ops : List Operation) (outcome : ℕ)
    → (observed : Bool) × ((if aware then measurement_result_is_observed ops outcome else some true)
        ≡ some observed)
      × ((observed ≡ true) ↔ (aware ≡ true → IsObserved ops outcome))
observed_lem true ops outcome =
    let (observed, e, f) = measurement_result_is_observed_lem ops outcome in
    (observed, e, (λ h _. f.0 h, λ h. f.1 (h refl)))
observed_lem false ops outcome = (true, refl, (λ _ h. absurd cc, λ _. refl))

roots_lem :
    (aware : Bool) (all_ops ops : List Operation)
    → (found : List ℕ) × (roots aware all_ops ops ≡ some found)
      × ((i : ℕ) → In i found ↔ Any (IsRoot aware all_ops i) ops)
unfolding roots
roots_lem aware all_ops [] = ([], refl, λ i. (λ m. m, λ m. m))
roots_lem aware all_ops (op ∷ ops) =
    let (rest, e, f) = roots_lem aware all_ops ops in
    elim (Option-cases (outcome_of op.kind)) [
      | inl k ↦ (
        rest,
        rw (k, roots) e,
        λ i. (
          λ m. inr ((f i).0 m),
          λ m. elim m [ inl (same, outcome, q, _) ↦ absurd cc | inr n ↦ (f i).1 n ],
        ),
      )
      | inr (outcome, k) ↦
          let (observed, g, o) = observed_lem aware all_ops outcome in
          elim (Bool-cases observed) [
            | inl t ↦ (
              op.id ∷ rest,
              rw (k, roots, g, e, t) refl,
              λ i. (
                λ m. elim m [ inl same ↦ inl (same, outcome, k, o.0 t) | inr n ↦ inr ((f i).0 n) ],
                λ m. elim m [ inl (same, _, _, _) ↦ inl same | inr n ↦ inr ((f i).1 n) ],
              ),
            )
            | inr t ↦ (
              rest,
              rw (k, roots, g, e, t) refl,
              λ i. (
                λ m. inr ((f i).0 m),
                λ m. elim m [
                  | inl (same, outcome', q, h) ↦
                      let p : outcome' ≡ outcome = cc in
                      let h' : aware ≡ true → IsObserved all_ops outcome = rw p at h in
                      let c = o.1 h' in absurd cc
                  | inr n ↦ (f i).1 n
                ],
              ),
            )
          ]
    ]

operands_of-absent :
    (ops : List Operation) (i : ℕ) → elem i (ids ops) ≡ false → operands_of ops i ≡ []
unfolding operands_of
operands_of-absent [] i h = refl
operands_of-absent (op ∷ ops) i h =
    let n : (op.id == i) ≡ false = ground arith in
    let m : elem i (ids ops) ≡ false = ground arith in rw n (operands_of-absent ops i m)

producers-absent :
    (ops : List Operation) (i : ℕ) → elem i (ids ops) ≡ false → length (producers ops i) ≡ 0
unfolding producers producers_of
producers-absent ops i h = rw (operands_of-absent ops i h) refl

module _ (aware : Bool) (ops : List Operation) (found : List ℕ)
    (f : (i : ℕ) → In i found ↔ Any (IsRoot aware ops i) ops) where
  reached-Contributes :
      (i : ℕ)
      → Reaches (producers ops) (entanglement ops) (push_all found []) i
      → Contributes aware ops i
  reached-Contributes i (root m) = elim (In-push_all i found [] m) [
    | inl n ↦ measured ((f i).0 n)
    | inr n ↦ absurd n
  ]
  reached-Contributes i (step r n m) = produces (reached-Contributes _ r) n m

  Contributes-reached :
      (i : ℕ)
      → Contributes aware ops i
      → Reaches (producers ops) (entanglement ops) (push_all found []) i
  Contributes-reached i (measured m) = root (push_all-In i found [] (inl ((f i).1 m)))
  Contributes-reached i (produces c n m) = step (Contributes-reached _ c) n m

  live_iff :
      (hit : Bool) (live : List ℕ)
      → Found (λ op. false) (producers ops) (entanglement ops) (push_all found []) hit live
      → (i : ℕ) → In i live ↔ (In i (entanglement ops) ⊎ Contributes aware ops i)
  live_iff true live (v, r, h) i = absurd cc
  live_iff false live (g, _) i = (
    λ m. elim ((g i).0 m) [ inl n ↦ inl n | inr r ↦ inr (reached-Contributes i r) ],
    λ m. elim m [ inl n ↦ (g i).1 (inl n) | inr c ↦ (g i).1 (inr (Contributes-reached i c)) ],
  )

-- The pass finds a set of live operations: the entanglement creations, and what contributes to a root.
pub live_operations_lem :
    (aware : Bool) (ops : List Operation)
    → (live : List ℕ) × (live_operations aware ops ≡ some live)
      × ((i : ℕ) → In i live ↔ (In i (entanglement ops) ⊎ Contributes aware ops i))
unfolding live_operations
live_operations_lem aware ops =
    let (found, e, f) = roots_lem aware ops ops in
    let worklist = push_all found [] in
    let fuel = length worklist + pending (producers ops) (ids ops) (entanglement ops) in
    let (hit, live, d, g) =
      depth_first_lem (λ op. false) (producers ops) (entanglement ops) worklist (ids ops)
        (producers-absent ops) fuel (omega arith) in
    (live, rw (e, d) refl, live_iff aware ops found f hit live g)
