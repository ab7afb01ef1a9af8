-- ===== src/QNet/DeadCode/Matters.antt =====
-- Which operations matter, in terms of the program alone: what the backward propagation finds.
use qoala_mlir.Common.{
  ℕ, ◌≡◌, refl, sym, ap, ◌∙◌, ◌↔◌, inl, inr, Bool, true, false, List, [], ◌∷◌, some, ◌==◌, elem, In,
  All, Any, arith, Bool-cases, Option-cases, All-In, elem→In,
}
use qoala_mlir.QNet.DeadCode.{
  Kind, new_qubit, gate, eprs, eprs_measure, measure, Operation, is_erasable, is_entanglement,
  entanglement, operands_of, producers, producers_of, defining_op,
}
use qoala_mlir.QNet.DeadCode.Liveness.{Contributes, measured, produces, IsRoot}
use qoala_mlir.QNet.DeadCode.Erasure.{IsSsa}
use qoala_mlir.QNet.DeadCode.Elimination.{IsDefined, Facts, facts}

pub data IsEntanglement : Kind → Type 0 where
  request : IsEntanglement eprs
  measured_request : IsEntanglement eprs_measure

-- The pass may erase allocations and gates, and with classical awareness measurements.
pub data IsRemovable (aware : Bool) : Kind → Type 0 where
  allocation : IsRemovable aware new_qubit
  unitary : IsRemovable aware gate
  measurement : {outcome : ℕ} → aware ≡ true → IsRemovable aware (measure outcome)

abbrev pub Creates : ℕ → Operation → Type 0
Creates i op = (i ≡ op.id) × IsEntanglement op.kind

-- An operand of the operation `i` is a result of the operation `j`.
abbrev pub Produces : ℕ → ℕ → Operation → Type 0
Produces j v op = (j ≡ op.id) × In v op.results

abbrev pub Takes : List Operation → ℕ → ℕ → Operation → Type 0
Takes ops i j op = (op.id ≡ i) × (v : ℕ) × In v op.operands × Any (Produces j v) ops

-- The root measurements, and what they are computed from up to the entanglement creations.
pub data Matters (aware : Bool) (ops : List Operation) : ℕ → Type 0 where
  is_root : {i : ℕ} → Any (IsRoot aware ops i) ops → Matters aware ops i
  is_input :
      {i j : ℕ}
      → Matters aware ops i
      → ¬ Any (Creates i) ops
      → Any (Takes ops i j) ops
      → Matters aware ops j

abbrev pub IsDead : Bool → List Operation → Operation → Type 0
IsDead aware ops op = IsRemovable aware op.kind × ¬ Matters aware ops op.id

Any-map :
    (P Q : Operation → Type 0) (xs : List Operation)
    → ((x : Operation) → P x → Q x)
    → Any P xs
    → Any Q xs
Any-map P Q [] f m = m
Any-map P Q (x ∷ xs) f (inl p) = inl (f x p)
Any-map P Q (x ∷ xs) f (inr m) = inr (Any-map P Q xs f m)

Any-All :
    (P Q : Operation → Type 0) (xs : List Operation)
    → All P xs
    → Any Q xs
    → (x : Operation) × P x × Q x
Any-All P Q [] h m = absurd m
Any-All P Q (x ∷ xs) (p, h) (inl q) = (x, p, q)
Any-All P Q (x ∷ xs) (p, h) (inr m) = Any-All P Q xs h m

creates : (k : Kind) → is_entanglement k ≡ true → IsEntanglement k
creates eprs h = request
creates eprs_measure h = measured_request
creates _ h = absurd cc

entangles : (k : Kind) → IsEntanglement k → is_entanglement k ≡ true
entangles _ request = refl
entangles _ measured_request = refl

entanglement_lem : (ops : List Operation) (i : ℕ) → In i (entanglement ops) ↔ Any (Creates i) ops
unfolding entanglement
entanglement_lem [] i = (λ h. h, λ h. h)
entanglement_lem (op ∷ ops) i =
    let (to, back) = entanglement_lem ops i in
    elim (Bool-cases (is_entanglement op.kind)) [
      | inl e ↦ (
        λ h. elim (rw (entanglement, e) at h) [
          | inl q ↦ inl (q, creates op.kind e)
          | inr m ↦ inr (to m)
        ],
        λ h. rw (entanglement, e) (elim h [ inl (q, _) ↦ inl q | inr m ↦ inr (back m) ]),
      )
      | inr e ↦ (
        λ h. inr (to (rw (entanglement, e) at h)),
        λ h.
            rw (entanglement, e)
              (elim h [ inl (q, k) ↦ absurd (let t = entangles op.kind k in cc) | inr m ↦ back m ]),
      )
    ]

pub removable : (aware : Bool) (k : Kind) → is_erasable aware k ≡ true → IsRemovable aware k
removable aware new_qubit h = allocation
removable aware gate h = unitary
removable aware (measure o) h = measurement h
removable aware _ h = absurd cc

pub erasable : (aware : Bool) (k : Kind) → IsRemovable aware k → is_erasable aware k ≡ true
erasable aware _ allocation = refl
erasable aware _ unitary = refl
erasable aware _ (measurement h) = h

pub removable-not_entanglement :
    (aware : Bool) (k : Kind) → IsRemovable aware k → is_entanglement k ≡ false
removable-not_entanglement aware _ allocation = refl
removable-not_entanglement aware _ unitary = refl
removable-not_entanglement aware _ (measurement h) = refl

operands_of-In :
    (ops : List Operation) (i v : ℕ)
    → In v (operands_of ops i)
    → Any (λ op. (op.id ≡ i) × In v op.operands) ops
unfolding operands_of
operands_of-In [] i v m = absurd m
operands_of-In (op ∷ ops) i v m = elim (Bool-cases (op.id == i)) [
  | inl e ↦ inl (ground arith, rw (operands_of, e) at m)
  | inr e ↦ inr (operands_of-In ops i v (rw (operands_of, e) at m))
]

defining_op-Produces :
    (ops : List Operation) (v j : ℕ) → defining_op ops v ≡ some j → Any (Produces j v) ops
unfolding defining_op
defining_op-Produces [] v j h = absurd cc
defining_op-Produces (op ∷ ops) v j h = elim (Bool-cases (elem v op.results)) [
  | inl e ↦
      let q : some op.id ≡ some j = rw (defining_op, e) at h in inl (cc, elem→In v op.results e)
  | inr e ↦ inr (defining_op-Produces ops v j (rw (defining_op, e) at h))
]

producers_of-defined :
    (ops : List Operation) (j : ℕ) (vs : List ℕ)
    → In j (producers_of ops vs)
    → (v : ℕ) × In v vs × (defining_op ops v ≡ some j)
unfolding producers_of
producers_of-defined ops j [] m = absurd m
producers_of-defined ops j (v ∷ vs) m = elim (Option-cases (defining_op ops v)) [
  | inl e ↦
      let (w, i, d) = producers_of-defined ops j vs (rw (producers_of, e) at m) in (w, inr i, d)
  | inr (k, e) ↦ elim (rw (producers_of, e) at m) [
    | inl q ↦ (v, inl refl, e ∙ ap some (sym q))
    | inr n ↦ let (w, i, d) = producers_of-defined ops j vs n in (w, inr i, d)
  ]
]

defined-producers_of :
    (ops : List Operation) (j v : ℕ) (vs : List ℕ)
    → In v vs
    → defining_op ops v ≡ some j
    → In j (producers_of ops vs)
unfolding producers_of
defined-producers_of ops j v [] m d = absurd m
defined-producers_of ops j v (w ∷ vs) (inl q) d =
    let e : defining_op ops w ≡ some j = rw q at d in rw (producers_of, e) (inl refl)
defined-producers_of ops j v (w ∷ vs) (inr m) d =
    let rest = defined-producers_of ops j v vs m d in
    elim (Option-cases (defining_op ops w)) [
      | inl e ↦ rw (producers_of, e) rest
      | inr (k, e) ↦ rw (producers_of, e) (inr rest)
    ]

producers-Takes :
    (ops : List Operation) (i j : ℕ) → In j (producers ops i) → Any (Takes ops i j) ops
unfolding producers
producers-Takes ops i j m =
    let (v, k, d) = producers_of-defined ops j (operands_of ops i) m in
    let made = defining_op-Produces ops v j d in
    Any-map (λ op. (op.id ≡ i) × In v op.operands) (Takes ops i j) ops
      (λ op (e, n). (e, v, n, made)) (operands_of-In ops i v k)

module _ (ops : List Operation) (ssa : IsSsa [] ops) (defined : IsDefined ops ops) where
  produced : (j v : ℕ) → Any (Produces j v) ops → defining_op ops v ≡ some j
  produced j v made =
      let (op, d, (e, m)) =
        Any-All (λ op. All (λ v. defining_op ops v ≡ some op.id) op.results) (Produces j v) ops
          defined made in
      All-In (λ w. defining_op ops w ≡ some op.id) op.results v d m ∙ ap some (sym e)

  Takes-producers : (i j : ℕ) → Any (Takes ops i j) ops → In j (producers ops i)
  unfolding producers
  Takes-producers i j taken =
      let (op, f, (e, v, m, made)) =
        Any-All (Facts ops) (Takes ops i j) ops (facts [] ops ssa) taken in
      let same : operands_of ops i ≡ op.operands = rw e at f.0 in
      rw same (defined-producers_of ops j v op.operands m (produced j v made))

  pub Contributes-Matters : (aware : Bool) (i : ℕ) → Contributes aware ops i → Matters aware ops i
  Contributes-Matters aware i (measured m) = is_root m
  Contributes-Matters aware j (produces {i = i} c n p) =
      is_input (Contributes-Matters aware i c) (λ m. n ((entanglement_lem ops i).1 m))
        (producers-Takes ops i j p)

  pub Matters-Contributes : (aware : Bool) (i : ℕ) → Matters aware ops i → Contributes aware ops i
  Matters-Contributes aware i (is_root m) = measured m
  Matters-Contributes aware j (is_input {i = i} c n t) =
      produces (Matters-Contributes aware i c) (λ m. n ((entanglement_lem ops i).0 m))
        (Takes-producers i j t)
