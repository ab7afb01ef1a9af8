-- ===== src/IQoala/Routine/Qubits.antt =====
-- Virtual ids, and the qubits that a local routine uses and keeps.
use qoala_mlir.Common.{
  ℕ, true, List, [], ◌∷◌, ◌≡◌, ◌≢◌, refl, sym, subst, ◌∙◌, none, some, ◌==◌, elem, keep, not,
  length, In, elem→In, In-keep, keep-In, ◌⊎◌, inl, inr, arith, Bool-cases, Option-cases,
}
use qoala_mlir.IQoala.Routine.{
  VirtualIds, all_ids, increment, resolve, LocalQuantumRoutine, empty_routine, lookup_value,
  erase_value, emplace, register_qubit, release_qubit,
}

-- resolve makes the ids of type "all" exactly where there is one argument and of type "increment"
-- otherwise, whatever the arguments are: never "custom". The arguments stay.
pub resolve_lem :
    (ids : VirtualIds)
    → ((resolve ids).id_type ≡ all_ids) × (length ids.args ≡ 1) × ((resolve ids).args ≡ ids.args)
      ⊎ ((resolve ids).id_type ≡ increment)
        × (length ids.args ≢ 1)
        × ((resolve ids).args ≡ ids.args)
unfolding resolve
resolve_lem ids = elim (Bool-cases (length ids.args == 1)) [
  | inl e ↦ inl (rw e refl, ground arith, rw e refl)
  | inr e ↦ inr (rw e refl, ground arith, rw e refl)
]

-- Kept are the numbers of the mapped values; they are used; a number belongs to one value.
pub record IsConsistent (rt : LocalQuantumRoutine) : Type 0 where
  pub mapped_kept : (v n : ℕ) → lookup_value v rt.qubit_map ≡ some n → In n rt.keeps_qubits
  pub kept_mapped :
      (n : ℕ) → In n rt.keeps_qubits → (v : ℕ) × (lookup_value v rt.qubit_map ≡ some n)
  pub kept_used : (n : ℕ) → In n rt.keeps_qubits → In n rt.uses_qubits
  pub injective :
      (v w n : ℕ)
      → lookup_value v rt.qubit_map ≡ some n
      → lookup_value w rt.qubit_map ≡ some n
      → v ≡ w

emplace-In : (n k : ℕ) (s : List ℕ) → In k (emplace n s) → (k ≡ n) ⊎ In k s
unfolding emplace
emplace-In n k s m = elim (Bool-cases (elem n s)) [ inl e ↦ inr (rw e at m) | inr e ↦ rw e at m ]

In-emplace : (n k : ℕ) (s : List ℕ) → (k ≡ n) ⊎ In k s → In k (emplace n s)
unfolding emplace
In-emplace n k s m = elim (Bool-cases (elem n s)) [
  | inl e ↦ rw e (elim m [ inl q ↦ rw q (elem→In n s e) | inr i ↦ i ])
  | inr e ↦ rw e m
]

lookup_value-erase_self : (v : ℕ) (m : List (ℕ × ℕ)) → lookup_value v (erase_value v m) ≡ none
unfolding lookup_value erase_value
lookup_value-erase_self v [] = refl
lookup_value-erase_self v ((k, n) ∷ m) = ground (arith, lookup_value-erase_self v m)

lookup_value-erase_other :
    (v w : ℕ) (m : List (ℕ × ℕ)) → v ≢ w → lookup_value w (erase_value v m) ≡ lookup_value w m
unfolding lookup_value erase_value
lookup_value-erase_other v w [] h = refl
lookup_value-erase_other v w ((k, n) ∷ m) h = ground (arith, lookup_value-erase_other v w m h)

lookup_value-erase :
    (v w n : ℕ) (m : List (ℕ × ℕ))
    → lookup_value w (erase_value v m) ≡ some n
    → (v ≢ w) × (lookup_value w m ≡ some n)
lookup_value-erase v w n m e = elim (Bool-cases (v == w)) [
  | inl q ↦
      let p : v ≡ w = ground arith in
      let l : lookup_value w (erase_value v m) ≡ none = rw p (lookup_value-erase_self w m) in
      absurd cc
  | inr q ↦ let p : v ≢ w = ground arith in (p, sym (lookup_value-erase_other v w m p) ∙ e)
]

number_same :
    (v w k n : ℕ) (m : List (ℕ × ℕ))
    → lookup_value v m ≡ some n
    → v ≡ w
    → lookup_value w m ≡ some k
    → k ≡ n
number_same v w k n m e r q = let t : lookup_value v m ≡ some k = rw r q in cc

number_differs :
    (v w k n : ℕ) (m : List (ℕ × ℕ))
    → ((v w n : ℕ) → lookup_value v m ≡ some n → lookup_value w m ≡ some n → v ≡ w)
    → lookup_value v m ≡ some n
    → v ≢ w
    → lookup_value w m ≡ some k
    → not (k == n) ≡ true
number_differs v w k n m h e p q = elim (Bool-cases (k == n)) [
  | inl t ↦ let c : k ≡ n = ground arith in absurd (p (h v w n e (rw (sym c) q)))
  | inr t ↦ rw t refl
]

lookup_value-cons :
    (v n w k : ℕ) (m : List (ℕ × ℕ))
    → lookup_value w ((v, n) ∷ m) ≡ some k
    → ((w ≡ v) × (k ≡ n)) ⊎ (lookup_value w m ≡ some k)
unfolding lookup_value
lookup_value-cons v n w k m e = ground arith

cons-lookup_value :
    (v n w : ℕ) (m : List (ℕ × ℕ)) (k : ℕ)
    → lookup_value v m ≡ none
    → lookup_value w m ≡ some k
    → lookup_value w ((v, n) ∷ m) ≡ some k
unfolding lookup_value
cons-lookup_value v n w m k p q = elim (Bool-cases (v == w)) [
  | inl t ↦ let c : v ≡ w = ground arith in let r : lookup_value v m ≡ some k = rw c q in absurd cc
  | inr t ↦ rw t q
]

lookup_value_self : (v n : ℕ) (m : List (ℕ × ℕ)) → lookup_value v ((v, n) ∷ m) ≡ some n
unfolding lookup_value
lookup_value_self v n m = ground arith

register_qubit-IsConsistent :
    (v n : ℕ) (rt : LocalQuantumRoutine)
    → IsConsistent rt
    → ¬ In n rt.keeps_qubits
    → lookup_value v rt.qubit_map ≡ none
    → (rt' : LocalQuantumRoutine) × (register_qubit v n rt ≡ some rt')
      × IsConsistent rt'
      × (lookup_value v rt'.qubit_map ≡ some n)
unfolding register_qubit
register_qubit-IsConsistent v n rt h fresh e =
    let rt' = record rt {
      qubit_map = (v, n) ∷ rt.qubit_map;
      uses_qubits = emplace n rt.uses_qubits;
      keeps_qubits = emplace n rt.keeps_qubits;
    } in
    (
      rt',
      rw (e, register_qubit) refl,
      record {
        mapped_kept = λ w k q.
            In-emplace n k rt.keeps_qubits (elim (lookup_value-cons v n w k rt.qubit_map q) [
              | inl (a, b) ↦ inl b
              | inr r ↦ inr (h.mapped_kept w k r)
            ]);
        kept_mapped = λ k m. elim (emplace-In n k rt.keeps_qubits m) [
          | inl r ↦ (v, rw r (lookup_value_self v n rt.qubit_map))
          | inr i ↦
              let (w, q) = h.kept_mapped k i in (w, cons-lookup_value v n w rt.qubit_map k e q)
        ];
        kept_used = λ k m. In-emplace n k rt.uses_qubits (elim (emplace-In n k rt.keeps_qubits m) [
          | inl r ↦ inl r
          | inr i ↦ inr (h.kept_used k i)
        ]);
        injective = λ w x k p q. elim (lookup_value-cons v n w k rt.qubit_map p) [
          | inl (a, b) ↦ elim (lookup_value-cons v n x k rt.qubit_map q) [
            | inl (c, d) ↦ a ∙ sym c
            | inr r ↦ absurd (fresh (rw (sym b) (h.mapped_kept x k r)))
          ]
          | inr r ↦ elim (lookup_value-cons v n x k rt.qubit_map q) [
            | inl (c, d) ↦ absurd (fresh (rw (sym d) (h.mapped_kept w k r)))
            | inr t ↦ h.injective w x k r t
          ]
        ];
      },
      lookup_value_self v n rt.qubit_map,
    )

release_qubit-IsConsistent :
    (v n : ℕ) (rt : LocalQuantumRoutine)
    → IsConsistent rt
    → lookup_value v rt.qubit_map ≡ some n
    → (rt' : LocalQuantumRoutine) × (release_qubit v rt ≡ some (n, rt'))
      × IsConsistent rt'
      × (¬ In n rt'.keeps_qubits)
unfolding release_qubit
release_qubit-IsConsistent v n rt h e =
    let rt' = record rt {
      qubit_map = erase_value v rt.qubit_map;
      keeps_qubits = keep (λ k. not (k == n)) rt.keeps_qubits;
    } in
    (
      rt',
      rw (e, release_qubit) refl,
      record {
        mapped_kept = λ w k q.
            let (p, q') = lookup_value-erase v w k rt.qubit_map q in
            keep-In (λ j. not (j == n)) k rt.keeps_qubits (h.mapped_kept w k q')
              (number_differs v w k n rt.qubit_map h.injective e p q');
        kept_mapped = λ k m.
            let (i, p) = In-keep (λ j. not (j == n)) k rt.keeps_qubits m in
            let (w, q) = h.kept_mapped k i in
            (
              w,
              lookup_value-erase_other v w rt.qubit_map
                    (λ r. let c : k ≡ n = number_same v w k n rt.qubit_map e r q in ground arith)
                  ∙ q,
            );
        kept_used = λ k m. h.kept_used k (In-keep (λ j. not (j == n)) k rt.keeps_qubits m).0;
        injective = λ w x k p q.
            h.injective w x k (lookup_value-erase v w k rt.qubit_map p).1
              (lookup_value-erase v x k rt.qubit_map q).1;
      },
      λ m. let (i, p) = In-keep (λ j. not (j == n)) n rt.keeps_qubits m in absurd (ground arith),
    )

-- What a routine can go through: a new value gets a number that no mapped value has, as allocateQubit
-- hands them out; mapped values are released.
pub data Reachable : LocalQuantumRoutine → Type 0 where
  start : Reachable empty_routine
  register :
      {rt : LocalQuantumRoutine} (v n : ℕ)
      → Reachable rt
      → ¬ In n rt.keeps_qubits
      → {rt' : LocalQuantumRoutine} → register_qubit v n rt ≡ some rt'
      → Reachable rt'
  release :
      {rt : LocalQuantumRoutine} (v n : ℕ)
      → Reachable rt
      → {rt' : LocalQuantumRoutine} → release_qubit v rt ≡ some (n, rt')
      → Reachable rt'

empty_routine-IsConsistent : IsConsistent empty_routine
unfolding lookup_value
empty_routine-IsConsistent = record {
  mapped_kept = λ v n e. absurd cc;
  kept_mapped = λ n m. absurd m;
  kept_used = λ n m. absurd m;
  injective = λ v w n e f. absurd cc;
}

register_qubit-unmapped :
    (v n : ℕ) (rt rt' : LocalQuantumRoutine)
    → register_qubit v n rt ≡ some rt'
    → lookup_value v rt.qubit_map ≡ none
unfolding register_qubit
register_qubit-unmapped v n rt rt' e = elim (Option-cases (lookup_value v rt.qubit_map)) [
  | inl p ↦ p
  | inr (k, p) ↦ absurd (let q : none ≡ some rt' = rw (p, register_qubit) at e in cc)
]

release_qubit-mapped :
    (v n : ℕ) (rt rt' : LocalQuantumRoutine)
    → release_qubit v rt ≡ some (n, rt')
    → lookup_value v rt.qubit_map ≡ some n
unfolding release_qubit
release_qubit-mapped v n rt rt' e = ground arith

-- In every local routine that registrations of unused numbers and releases lead to, the kept qubits are
-- exactly the numbers of the values that are mapped, all of them are used qubits, and two mapped values
-- have different numbers.
pub Reachable-IsConsistent : {rt : LocalQuantumRoutine} → Reachable rt → IsConsistent rt
Reachable-IsConsistent start = empty_routine-IsConsistent
Reachable-IsConsistent (register {rt} v n r f {rt'} e) =
    let (x, p, c, l) =
      register_qubit-IsConsistent v n rt (Reachable-IsConsistent r) f
        (register_qubit-unmapped v n rt rt' e) in
    let q : x ≡ rt' = cc in subst IsConsistent q c
Reachable-IsConsistent (release {rt} v n r {rt'} e) =
    let (x, p, c, l) =
      release_qubit-IsConsistent v n rt (Reachable-IsConsistent r)
        (release_qubit-mapped v n rt rt' e) in
    let q : x ≡ rt' = cc in subst IsConsistent q c
