-- ===== src/QNet/GateCount/Scope.antt =====
-- Which qubits are initialised where, and that the analysis' map knows them.
use qoala_mlir.Common.{
  ℕ, ◌≡◌, refl, Bool, true, List, [], ◌∷◌, ◌++◌, some, ◌==◌, if◌then◌else◌, elem, all, ◌&&◌, In,
  elem→In, append-In_right, In-append, ◌⊎◌, inl, inr, arith, Bool-cases, Option-cases,
}
use qoala_mlir.QNet.GateCount.{
  Op, Ops, new_qubits, gate, scf_if, scf_if_then, other, yields, op_then, lookup, terminator,
  map_results,
}

-- The results that have an operand.
abbrev pub paired : List ℕ → List ℕ → List ℕ
paired (operand ∷ operands) (result ∷ results) = result ∷ paired operands results
paired _ _ = []

-- The results of an scf.if that are qubits in both branches, whose scopes are `s` and `t`.
abbrev pub joined : List ℕ → List ℕ → List ℕ → List ℕ → List ℕ → List ℕ
joined (result ∷ results) (a ∷ xs) (b ∷ ys) s t =
    if elem a s && elem b t then result ∷ joined results xs ys s t else joined results xs ys s t
joined _ _ _ s t = []

-- The qubits that are initialised after an operation, and after a region.
abbrev mutual
  pub scope_op : List ℕ → Op → List ℕ
  scope_op d (new_qubits results) = results ++ d
  scope_op d (gate two_qubit operands results) = paired operands results ++ d
  scope_op d (scf_if results then_ops else_ops) =
      joined results (terminator then_ops) (terminator else_ops) (scope_after d then_ops)
        (scope_after d else_ops)
      ++ d
  scope_op d (scf_if_then results then_ops) = d
  scope_op d other = d

  pub scope_after : List ℕ → Ops → List ℕ
  scope_after d (yields values) = d
  scope_after d (op_then op ops) = scope_after (scope_op d op) ops

-- Every operand of a gate is a qubit that is initialised.
abbrev mutual
  pub is_scoped_op : List ℕ → Op → Bool
  is_scoped_op d (new_qubits results) = true
  is_scoped_op d (gate two_qubit operands results) = all (λ v. elem v d) operands
  is_scoped_op d (scf_if results then_ops else_ops) = is_scoped d then_ops && is_scoped d else_ops
  is_scoped_op d (scf_if_then results then_ops) = is_scoped d then_ops
  is_scoped_op d other = true

  pub is_scoped : List ℕ → Ops → Bool
  is_scoped d (yields values) = true
  is_scoped d (op_then op ops) = is_scoped_op d op && is_scoped (scope_op d op) ops

abbrev pub Covers : List (ℕ × ℕ) → List ℕ → Type 0
Covers m d = (v : ℕ) → In v d → (n : ℕ) × (lookup v m ≡ some n)

pub lookup-cons :
    (k n v i : ℕ) (m : List (ℕ × ℕ))
    → lookup v m ≡ some i
    → (j : ℕ) × (lookup v ((k, n) ∷ m) ≡ some j)
unfolding lookup
lookup-cons k n v i m e = elim (Bool-cases (k == v)) [
  | inl t ↦ (n, rw t refl)
  | inr t ↦ (i, rw t e)
]

lookup_self : (k n : ℕ) (m : List (ℕ × ℕ)) → lookup k ((k, n) ∷ m) ≡ some n
unfolding lookup
lookup_self k n m = ground arith

pub Covers-cons :
    (k n : ℕ) (m : List (ℕ × ℕ)) (d : List ℕ) → Covers m d → Covers ((k, n) ∷ m) (k ∷ d)
Covers-cons k n m d h v (inl e) = (n, rw e (lookup_self k n m))
Covers-cons k n m d h v (inr i) = let (j, p) = h v i in lookup-cons k n v j m p

Covers-grow : (k n : ℕ) (m : List (ℕ × ℕ)) (d : List ℕ) → Covers m d → Covers ((k, n) ∷ m) d
Covers-grow k n m d h v i = Covers-cons k n m d h v (inr i)

-- Moving the new qubit behind those that follow it changes no membership.
pub In-shift : (v k : ℕ) (xs d : List ℕ) → In v (k ∷ xs ++ d) → In v (xs ++ k ∷ d)
In-shift v k [] d m = m
In-shift v k (x ∷ xs) d (inl e) = inr (In-shift v k xs d (inl e))
In-shift v k (x ∷ xs) d (inr (inl e)) = inl e
In-shift v k (x ∷ xs) d (inr (inr m)) = inr (In-shift v k xs d (inr m))

pub Covers-map_results :
    (results values : List ℕ) (m : List (ℕ × ℕ)) (d : List ℕ)
    → Covers m d
    → Covers (map_results results values m) d
unfolding map_results
Covers-map_results [] values m d h = h
Covers-map_results (r ∷ results) [] m d h = h
Covers-map_results (r ∷ results) (a ∷ values) m d h = elim (Option-cases (lookup a m)) [
  | inl e ↦ rw e (Covers-map_results results values m d h)
  | inr (i, e) ↦ rw e (Covers-map_results results values ((r, i) ∷ m) d (Covers-grow r i m d h))
]

-- The results whose yield is a qubit of the scope `s`.
abbrev pub kept_results : List ℕ → List ℕ → List ℕ → List ℕ
kept_results (r ∷ results) (a ∷ xs) s =
    if elem a s then r ∷ kept_results results xs s else kept_results results xs s
kept_results _ _ s = []

pub joined-then :
    (results xs ys s t : List ℕ) (v : ℕ)
    → In v (joined results xs ys s t)
    → In v (kept_results results xs s)
joined-then [] xs ys s t v i = absurd i
joined-then (r ∷ results) [] ys s t v i = absurd i
joined-then (r ∷ results) (a ∷ xs) [] s t v i = absurd i
joined-then (r ∷ results) (a ∷ xs) (b ∷ ys) s t v i = elim (Bool-cases (elem a s)) [
  | inl e ↦ rw e (elim (Bool-cases (elem b t)) [
    | inl f ↦
        let m : (v ≡ r) ⊎ In v (joined results xs ys s t) = rw (e, f) at i in
        elim m [ inl q ↦ inl q | inr j ↦ inr (joined-then results xs ys s t v j) ]
    | inr f ↦ inr (joined-then results xs ys s t v (rw (e, f) at i))
  ])
  | inr e ↦ rw e (joined-then results xs ys s t v (rw e at i))
]

pub joined-else :
    (results xs ys s t : List ℕ) (v : ℕ)
    → In v (joined results xs ys s t)
    → In v (kept_results results ys t)
joined-else [] xs ys s t v i = absurd i
joined-else (r ∷ results) [] ys s t v i = absurd i
joined-else (r ∷ results) (a ∷ xs) [] s t v i = absurd i
joined-else (r ∷ results) (a ∷ xs) (b ∷ ys) s t v i = elim (Bool-cases (elem b t)) [
  | inl e ↦ rw e (elim (Bool-cases (elem a s)) [
    | inl f ↦
        let m : (v ≡ r) ⊎ In v (joined results xs ys s t) = rw (f, e) at i in
        elim m [ inl q ↦ inl q | inr j ↦ inr (joined-else results xs ys s t v j) ]
    | inr f ↦ inr (joined-else results xs ys s t v (rw f at i))
  ])
  | inr e ↦ rw e (
      joined-else results xs ys s t v
        (elim (Bool-cases (elem a s)) [ inl f ↦ rw (f, e) at i | inr f ↦ rw f at i ]))
]

map_results-kept :
    (results xs s : List ℕ) (m : List (ℕ × ℕ))
    → Covers m s
    → Covers (map_results results xs m) (kept_results results xs s)
unfolding map_results
map_results-kept [] xs s m h = λ v i. absurd i
map_results-kept (r ∷ results) [] s m h = λ v i. absurd i
map_results-kept (r ∷ results) (a ∷ xs) s m h = elim (Bool-cases (elem a s)) [
  | inl e ↦
      let (j, p) = h a (elem→In a s e) in
      λ v i.
        let i' : (v ≡ r) ⊎ In v (kept_results results xs s) = rw e at i in
        rw p (elim i' [
          | inl q ↦
              Covers-map_results results xs ((r, j) ∷ m) (r ∷ s) (Covers-cons r j m s h) v (inl q)
          | inr k ↦ map_results-kept results xs s ((r, j) ∷ m) (Covers-grow r j m s h) v k
        ])
  | inr e ↦ elim (Option-cases (lookup a m)) [
    | inl p ↦ rw (e, p) (map_results-kept results xs s m h)
    | inr (j, p) ↦ rw (e, p) (map_results-kept results xs s ((r, j) ∷ m) (Covers-grow r j m s h))
  ]
]

-- A branch that was chosen knows the results and what was known before, since its scope holds both.
pub branch-Covers :
    (results xs d s j : List ℕ) (m : List (ℕ × ℕ))
    → Covers m s
    → Covers m d
    → ((v : ℕ) → In v j → In v (kept_results results xs s))
    → Covers (map_results results xs m) (j ++ d)
branch-Covers results xs d s j m h k sub v i = elim (In-append v j d i) [
  | inl a ↦ map_results-kept results xs s m h v (sub v a)
  | inr b ↦ Covers-map_results results xs m d k v b
]

scope_op-grows : (d : List ℕ) (op : Op) (v : ℕ) → In v d → In v (scope_op d op)
scope_op-grows d (new_qubits results) v i = append-In_right v results d i
scope_op-grows d (gate two operands results) v i = append-In_right v (paired operands results) d i
scope_op-grows d (scf_if results a b) v i =
    append-In_right v
      (joined results (terminator a) (terminator b) (scope_after d a) (scope_after d b)) d i
scope_op-grows d (scf_if_then results a) v i = i
scope_op-grows d other v i = i

pub scope_after-grows : (d : List ℕ) (ops : Ops) (v : ℕ) → In v d → In v (scope_after d ops)
scope_after-grows d (yields values) v i = i
scope_after-grows d (op_then op ops) v i =
    scope_after-grows (scope_op d op) ops v (scope_op-grows d op v i)
