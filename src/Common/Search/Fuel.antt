-- ===== src/Common/Search/Fuel.antt =====
-- Fuel: one step for each node that is pushed.
use qoala_mlir.Common.{
  ℕ, suc, ◌+◌, ◌≤◌, ◌≡◌, inl, inr, true, false, List, [], ◌∷◌, if◌then◌else◌, elem, length,
  Bool-cases, arith, ◌==◌,
}
use qoala_mlir.Common.Search.{push_all}

-- The weight of the nodes of `nodes` that are not seen.
abbrev pub unseen : (ℕ → ℕ) → List ℕ → List ℕ → ℕ
unseen weight [] seen = 0
unseen weight (u ∷ nodes) seen = (if elem u seen then 0 else weight u) + unseen weight nodes seen

-- The successors of the nodes of `nodes` that are not seen.
abbrev pub pending : (ℕ → List ℕ) → List ℕ → List ℕ → ℕ
pending next nodes seen = unseen (λ u. length (next u)) nodes seen

length-push_all :
    (xs worklist : List ℕ) → length (push_all xs worklist) ≡ length xs + length worklist
unfolding push_all
length-push_all [] worklist = omega arith
length-push_all (x ∷ xs) worklist = omega (arith, length-push_all xs (x ∷ worklist))

-- A larger set of seen nodes leaves less.
pub unseen_mono :
    (weight : ℕ → ℕ) (nodes seen seen' : List ℕ)
    → ((v : ℕ) → elem v seen ≡ true → elem v seen' ≡ true)
    → unseen weight nodes seen' ≤ unseen weight nodes seen
unseen_mono weight [] seen seen' h = omega arith
unseen_mono weight (u ∷ nodes) seen seen' h =
    ground (arith, h u, unseen_mono weight nodes seen seen' h)

elem-cons : (v u : ℕ) (seen : List ℕ) → elem v seen ≡ true → elem v (u ∷ seen) ≡ true
elem-cons v u seen h = ground arith

pub unseen-visit :
    (weight : ℕ → ℕ) (nodes seen : List ℕ) (v : ℕ)
    → elem v nodes ≡ true
    → elem v seen ≡ false
    → weight v + unseen weight nodes (v ∷ seen) ≤ unseen weight nodes seen
unseen-visit weight [] seen v m n = ground arith
unseen-visit weight (u ∷ nodes) seen v m n = elim (Bool-cases (v == u)) [
  | inl e ↦
      let p : v ≡ u = ground arith in
      let g = unseen_mono weight nodes seen (u ∷ seen) (λ w. elem-cons w u seen) in
      let q : elem u seen ≡ false = rw p at n in
      let r : (u == v) ≡ true = ground arith in rw (r, q, p) (omega arith)
  | inr e ↦ ground (arith, unseen-visit weight nodes seen v)
]

pub unseen-bound : (nodes seen : List ℕ) → unseen (λ u. 1) nodes seen ≤ length nodes
unseen-bound [] seen = omega arith
unseen-bound (u ∷ nodes) seen = ground (arith, unseen-bound nodes seen)

-- One round uses up one unit: the bound on the rounds left falls.
pub rounds-drop :
    (next : ℕ → List ℕ) (nodes : List ℕ) (v : ℕ) (worklist seen : List ℕ) (fuel : ℕ)
    → length (v ∷ worklist) + pending next nodes seen ≤ suc fuel
    → length worklist + pending next nodes seen ≤ fuel
rounds-drop next nodes v worklist seen fuel l = omega arith

pub rounds-visit :
    (next : ℕ → List ℕ) (nodes : List ℕ) (v : ℕ) (worklist seen : List ℕ) (fuel : ℕ)
    → (elem v nodes ≡ false → length (next v) ≡ 0)
    → elem v seen ≡ false
    → length (v ∷ worklist) + pending next nodes seen ≤ suc fuel
    → length (push_all (next v) worklist) + pending next nodes (v ∷ seen) ≤ fuel
rounds-visit next nodes v worklist seen fuel h n l = elim (Bool-cases (elem v nodes)) [
  | inl m ↦ omega (
    arith,
    length-push_all (next v) worklist,
    unseen-visit (λ u. length (next u)) nodes seen v m n,
  )
  | inr m ↦ omega (
    arith,
    length-push_all (next v) worklist,
    unseen_mono (λ u. length (next u)) nodes seen (v ∷ seen) (λ w. elem-cons w v seen),
    h m,
  )
]
