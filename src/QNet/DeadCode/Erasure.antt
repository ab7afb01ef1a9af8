-- ===== src/QNet/DeadCode/Erasure.antt =====
-- The walk that erases, last one first: when it fails, and what it leaves.
use qoala_mlir.Common.{
  ℕ, ◌≡◌, refl, ap, Bool, true, false, not, ◌&&◌, ◌||◌, List, [], ◌∷◌, ◌++◌, none, some, ◌==◌,
  if◌then◌else◌, elem, any, keep, arith, Bool-cases, inl, inr, any-append, append_assoc, append_nil,
}
use qoala_mlir.QNet.DeadCode.{Operation, ids, uses_result, erase, erase_in_reverse}

-- No operation uses a result of its own or of a later one, and no other has its identifier.
abbrev pub IsSsa : List Operation → List Operation → Type 0
IsSsa before [] = Unit
IsSsa before (op ∷ ops) =
    (any (uses_result op) (before ++ op ∷ []) ≡ false)
    × (elem op.id (ids before) ≡ false)
    × (elem op.id (ids ops) ≡ false)
    × IsSsa (before ++ op ∷ []) ops

-- A dead operation has a result that a later operation uses that stays.
unfoldable pub escapes : (Operation → Bool) → List Operation → Bool
escapes dead [] = false
escapes dead (op ∷ ops) =
    escapes dead ops || (dead op && any (uses_result op) (keep (λ o. not (dead o)) ops))

keep-other :
    (i : ℕ) (ops : List Operation)
    → elem i (ids ops) ≡ false
    → keep (λ o. not (o.id == i)) ops ≡ ops
keep-other i [] h = refl
keep-other i (op ∷ ops) h =
    let n : (op.id == i) ≡ false = ground arith in
    let m : elem i (ids ops) ≡ false = ground arith in rw n (ap (λ t. op ∷ t) (keep-other i ops m))

keep-append :
    (p : Operation → Bool) (xs ys : List Operation) → keep p (xs ++ ys) ≡ keep p xs ++ keep p ys
keep-append p [] ys = refl
keep-append p (x ∷ xs) ys = elim (Bool-cases (p x)) [
  | inl e ↦ rw e (ap (λ t. x ∷ t) (keep-append p xs ys))
  | inr e ↦ rw e (keep-append p xs ys)
]

elem-ids-keep :
    (p : Operation → Bool) (i : ℕ) (ops : List Operation)
    → elem i (ids ops) ≡ false
    → elem i (ids (keep p ops)) ≡ false
elem-ids-keep p i [] h = refl
elem-ids-keep p i (op ∷ ops) h = elim (Bool-cases (p op)) [
  | inl e ↦ rw e (ground (arith, elem-ids-keep p i ops))
  | inr e ↦ rw e (elem-ids-keep p i ops (ground arith))
]

-- Erasing an operation between others that do not have its identifier.
erase-between :
    (op : Operation) (before after : List Operation)
    → any (uses_result op) (before ++ op ∷ []) ≡ false
    → elem op.id (ids before) ≡ false
    → elem op.id (ids after) ≡ false
    → erase op ((before ++ op ∷ []) ++ after)
      ≡ (if any (uses_result op) after then none else some (before ++ after))
unfolding erase
erase-between op before after u b a =
    let same : (op.id == op.id) ≡ true = ground arith in
    let left : keep (λ o. not (o.id == op.id)) (before ++ op ∷ []) ≡ before =
      rw (keep-append (λ o. not (o.id == op.id)) before (op ∷ []), keep-other op.id before b, same)
        (append_nil before) in
    rw
      (
        any-append (uses_result op) (before ++ op ∷ []) after,
        u,
        keep-append (λ o. not (o.id == op.id)) (before ++ op ∷ []) after,
        left,
        keep-other op.id after a,
      )
      refl

module _ (dead : Operation → Bool) where
  -- The walk fails exactly where a dead operation is used by one that stays, and else leaves the others.
  pub erase_in_reverse_lem :
      (before ops : List Operation)
      → IsSsa before ops
      → erase_in_reverse (keep dead ops) (before ++ ops)
        ≡ (if escapes dead ops then none else some (before ++ keep (λ o. not (dead o)) ops))
  unfolding erase_in_reverse escapes
  erase_in_reverse_lem before [] h = refl
  erase_in_reverse_lem before (op ∷ ops) (u, b, a, h) =
      let later = erase_in_reverse_lem (before ++ op ∷ []) ops h in
      let kept = keep (λ (o : Operation). not (dead o)) ops in
      let start = rw (append_assoc before (op ∷ []) ops) at later in
      let between =
        erase-between op before kept u b (elem-ids-keep (λ o. not (dead o)) op.id ops a) in
      elim (Bool-cases (dead op)) [
        | inl d ↦ elim (Bool-cases (escapes dead ops)) [
          | inl e ↦ rw (d, start, e) refl
          | inr e ↦ rw (d, start, e) between
        ]
        | inr d ↦ elim (Bool-cases (escapes dead ops)) [
          | inl e ↦ rw (d, start, e) refl
          | inr e ↦ rw (d, start, e) (ap some (append_assoc before (op ∷ []) kept))
        ]
      ]
