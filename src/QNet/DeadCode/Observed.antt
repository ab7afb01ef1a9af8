-- ===== src/QNet/DeadCode/Observed.antt =====
-- measurementResultIsObserved against the flow of values, and that its worklist ends.
use qoala_mlir.Common.{
  elem-append, ℕ, ◌+◌, ◌≡◌, refl, ◌↔◌, ◌⊎◌, inl, inr, Bool, true, false, not, ◌&&◌, List, [], ◌∷◌,
  some, elem, In, Any, elem→In, In→elem, In-append, append-In_left, append-In_right, length, arith,
  Bool-cases, ◌==◌, ==_iff,
}
use qoala_mlir.Common.Search.Fuel.{pending}
use qoala_mlir.Common.Search.Reach.{Reaches, root, step, Found, depth_first_lem}
use qoala_mlir.QNet.DeadCode.{
  Kind, new_qubit, gate, eprs, eprs_measure, qnet_return, func_return, other, measure, send,
  cond_br, switch, scf_if, store, Operation, is_qnet_observable_classical_use,
  is_observable_classical_use, reaches_sink, influenced, used_values,
  measurement_result_is_observed,
}

-- Where a value leaves the quantum part of the program: returns, the data that is sent, conditions, what is
-- stored, and operations with effects.
abbrev pub IsSink : Kind → Bool → ℕ → Type 0
IsSink qnet_return has_effects v = Unit
IsSink func_return has_effects v = Unit
IsSink (send cin) has_effects v = (v ≡ cin) ⊎ (has_effects ≡ true)
IsSink (cond_br condition) has_effects v = v ≡ condition
IsSink (switch flag) has_effects v = v ≡ flag
IsSink (scf_if condition) has_effects v = v ≡ condition
IsSink (store value) has_effects v = v ≡ value
IsSink _ has_effects v = has_effects ≡ true

-- An operation that is no terminator computes `w` from `v`.
abbrev pub Forwards : ℕ → ℕ → Operation → Type 0
Forwards v w op = In v op.operands × (op.is_terminator ≡ false) × In w op.results

pub data Flows (ops : List Operation) (outcome : ℕ) : ℕ → Type 0 where
  start : Flows ops outcome outcome
  through : {v w : ℕ} → Flows ops outcome v → Any (Forwards v w) ops → Flows ops outcome w

abbrev pub IsSunk : ℕ → Operation → Type 0
IsSunk v user = In v user.operands × IsSink user.kind user.has_effects v

-- The outcome flows, through operations that are no terminators, into a value with a use that is a sink.
abbrev pub IsObserved : List Operation → ℕ → Type 0
IsObserved ops outcome = (v : ℕ) × Flows ops outcome v × Any (IsSunk v) ops

is_observable-IsSink :
    (k : Kind) (user : Operation) (v : ℕ)
    → user.kind ≡ k
    → (is_observable_classical_use user v ≡ true) ↔ IsSink k user.has_effects v
unfolding is_observable_classical_use is_qnet_observable_classical_use
is_observable-IsSink qnet_return user v e = rw e (λ _. tt, λ _. refl)
is_observable-IsSink func_return user v e = rw e (λ _. tt, λ _. refl)
is_observable-IsSink (send cin) user v e = rw e (elim (Bool-cases (v == cin)) [
  | inl t ↦ rw t (λ _. inl (ground arith), λ _. refl)
  | inr t ↦ rw t (λ h. inr h, λ h. elim h [ inl q ↦ absurd (ground arith) | inr f ↦ f ])
])
is_observable-IsSink (cond_br condition) user v e = rw e (==_iff v condition)
is_observable-IsSink (switch flag) user v e = rw e (==_iff v flag)
is_observable-IsSink (scf_if condition) user v e = rw e (==_iff v condition)
is_observable-IsSink (store value) user v e = rw e (==_iff v value)
is_observable-IsSink new_qubit user v e = rw e (λ h. h, λ h. h)
is_observable-IsSink gate user v e = rw e (λ h. h, λ h. h)
is_observable-IsSink eprs user v e = rw e (λ h. h, λ h. h)
is_observable-IsSink eprs_measure user v e = rw e (λ h. h, λ h. h)
is_observable-IsSink (measure outcome) user v e = rw e (λ h. h, λ h. h)
is_observable-IsSink other user v e = rw e (λ h. h, λ h. h)

reaches_sink_lem : (ops : List Operation) (v : ℕ) → (reaches_sink ops v ≡ true) ↔ Any (IsSunk v) ops
unfolding reaches_sink
reaches_sink_lem [] v = (λ h. absurd cc, λ h. absurd h)
reaches_sink_lem (user ∷ ops) v =
    let (to, back) = is_observable-IsSink user.kind user v refl in
    let (to_rest, back_rest) = reaches_sink_lem ops v in
    let here = elem v user.operands && is_observable_classical_use user v in
    (
      λ h. elim (Bool-cases here) [
        | inl e ↦ inl (elem→In v user.operands (ground arith), to (ground arith))
        | inr e ↦ inr (to_rest (rw (e, reaches_sink) at h))
      ],
      λ h. elim h [
        | inl (m, k) ↦
            let p = In→elem v user.operands m in let q = back k in rw (p, q, reaches_sink) refl
        | inr m ↦ let q = back_rest m in ground arith
      ],
    )

influenced_lem : (ops : List Operation) (v w : ℕ) → In w (influenced ops v) ↔ Any (Forwards v w) ops
unfolding influenced
influenced_lem [] v w = (λ h. absurd h, λ h. absurd h)
influenced_lem (user ∷ ops) v w =
    let (to, back) = influenced_lem ops v w in
    elim (Bool-cases (elem v user.operands && not user.is_terminator)) [
      | inl e ↦ (
        λ h. elim (In-append w user.results (influenced ops v) (rw (influenced, e) at h)) [
          | inl m ↦ inl (elem→In v user.operands (ground arith), ground arith, m)
          | inr m ↦ inr (to m)
        ],
        λ h.
            rw (influenced, e)
              (elim h [
                | inl (p, q, m) ↦ append-In_left w user.results (influenced ops v) m
                | inr m ↦ append-In_right w user.results (influenced ops v) (back m)
              ]),
      )
      | inr e ↦ (
        λ h. inr (to (rw (influenced, e) at h)),
        λ h.
            rw (influenced, e)
              (elim h [
                | inl (p, q, m) ↦ absurd (let i = In→elem v user.operands p in ground arith)
                | inr m ↦ back m
              ]),
      )
    ]

Reaches-Flows :
    (ops : List Operation) (outcome v : ℕ)
    → Reaches (influenced ops) [] (outcome ∷ []) v
    → Flows ops outcome v
Reaches-Flows ops outcome v (root (inl e)) = rw e start
Reaches-Flows ops outcome v (root (inr m)) = absurd m
Reaches-Flows ops outcome w (step {v = u} r n m) =
    through (Reaches-Flows ops outcome u r) ((influenced_lem ops u w).0 m)

Flows-Reaches :
    (ops : List Operation) (outcome v : ℕ)
    → Flows ops outcome v
    → Reaches (influenced ops) [] (outcome ∷ []) v
Flows-Reaches ops outcome v start = root (inl refl)
Flows-Reaches ops outcome w (through {v = u} f m) =
    step (Flows-Reaches ops outcome u f) (λ i. absurd i) ((influenced_lem ops u w).1 m)

influenced-unused :
    (ops : List Operation) (v : ℕ)
    → elem v (used_values ops) ≡ false
    → length (influenced ops v) ≡ 0
unfolding influenced used_values
influenced-unused [] v h = refl
influenced-unused (op ∷ ops) v h =
    let e = elem-append v op.operands (used_values ops) in
    let p : elem v op.operands ≡ false = ground arith in
    let q : elem v (used_values ops) ≡ false = ground arith in rw p (influenced-unused ops v q)

-- measurementResultIsObserved ends, and answers yes exactly where the outcome flows, through operations that
-- are no terminators, into a value that is returned, sent, a condition, stored, or an operand of an operation
-- with effects.
pub measurement_result_is_observed_lem :
    (ops : List Operation) (outcome : ℕ)
    → (observed : Bool) × (measurement_result_is_observed ops outcome ≡ some observed)
      × ((observed ≡ true) ↔ IsObserved ops outcome)
unfolding measurement_result_is_observed
measurement_result_is_observed_lem ops outcome =
    let (found, visited, e, f) =
      depth_first_lem (reaches_sink ops) (influenced ops) [] (outcome ∷ []) (used_values ops)
        (influenced-unused ops) (1 + pending (influenced ops) (used_values ops) []) (omega arith) in
    (found, rw e refl, answer found visited f)
  where
    answer :
        (found : Bool) (visited : List ℕ)
        → Found (reaches_sink ops) (influenced ops) [] (outcome ∷ []) found visited
        → (found ≡ true) ↔ IsObserved ops outcome
    answer true visited (v, r, h) =
        (λ _. (v, Reaches-Flows ops outcome v r, (reaches_sink_lem ops v).0 h), λ _. refl)
    answer false visited (f, g) = (
      λ e. absurd cc,
      λ (v, r, h).
          let m = g v (Flows-Reaches ops outcome v r) (λ m. absurd m) in
          let k = (reaches_sink_lem ops v).1 h in absurd cc,
    )
