-- ===== src/Common/Members.antt =====
-- Membership of identifiers: a test that runs, and a type that proofs can match.
use Prim.Native.Nat.{ℕ}
use mathlib.Core.Path.{◌≡◌, refl}
use mathlib.Core.Logic.{◌⊎◌, inl, inr}
use mathlib.Core.Bool.{Bool, true, false, ◌||◌, ◌&&◌}
use mathlib.Core.List.{List, [], ◌∷◌, ◌++◌}
use native.Mathlib.Omega.{arith}
use qoala_mlir.Common.Tests.{◌==◌, Bool-cases}
use qoala_mlir.Common.Lists.{keep, All}

-- Membership of numbers (identifiers), as a test.
abbrev pub elem : ℕ → List ℕ → Bool
elem a [] = false
elem a (x ∷ xs) = a == x || elem a xs

-- The place of the list that holds `a`, as a type that proofs can match.
abbrev pub In : ℕ → List ℕ → Type 0
In a [] = ⊥
In a (x ∷ xs) = (a ≡ x) ⊎ In a xs

pub elem→In : (a : ℕ) (xs : List ℕ) → elem a xs ≡ true → In a xs
elem→In a [] h = ground arith
elem→In a (x ∷ xs) h = ground (arith, elem→In a xs)

pub In→elem : (a : ℕ) (xs : List ℕ) → In a xs → elem a xs ≡ true
In→elem a [] m = elim m [ ]
In→elem a (x ∷ xs) (inl e) = ground arith
In→elem a (x ∷ xs) (inr m) = ground (arith, In→elem a xs m)

pub In-keep : (p : ℕ → Bool) (a : ℕ) (xs : List ℕ) → In a (keep p xs) → In a xs × (p a ≡ true)
In-keep p a [] m = elim m [ ]
In-keep p a (x ∷ xs) m = elim (Bool-cases (p x)) [
  | inl e ↦
      let split : (a ≡ x) ⊎ In a (keep p xs) = rw e at m in
      elim split [ inl q ↦ (inl q, rw q e) | inr q ↦ let (i, r) = In-keep p a xs q in (inr i, r) ]
  | inr e ↦ let (i, q) = In-keep p a xs (rw e at m) in (inr i, q)
]

pub keep-In : (p : ℕ → Bool) (a : ℕ) (xs : List ℕ) → In a xs → p a ≡ true → In a (keep p xs)
keep-In p a [] m h = elim m [ ]
keep-In p a (x ∷ xs) (inl e) h = rw (rw e at h) (inl e)
keep-In p a (x ∷ xs) (inr m) h = elim (Bool-cases (p x)) [
  | inl e ↦ rw e (inr (keep-In p a xs m h))
  | inr e ↦ rw e (keep-In p a xs m h)
]

pub All-In {κ} : (P : ℕ → Type κ) (xs : List ℕ) (v : ℕ) → All P xs → In v xs → P v
All-In P [] v h m = absurd m
All-In P (x ∷ xs) v h (inl e) = rw e h.0
All-In P (x ∷ xs) v h (inr m) = All-In P xs v h.1 m

pub elem-append : (v : ℕ) (xs ys : List ℕ) → elem v (xs ++ ys) ≡ (elem v xs || elem v ys)
elem-append v [] ys = refl
elem-append v (x ∷ xs) ys = ground (arith, elem-append v xs ys)

pub In-append : (a : ℕ) (xs ys : List ℕ) → In a (xs ++ ys) → In a xs ⊎ In a ys
In-append a [] ys m = inr m
In-append a (x ∷ xs) ys (inl e) = inl (inl e)
In-append a (x ∷ xs) ys (inr m) = elim (In-append a xs ys m) [ inl i ↦ inl (inr i) | inr i ↦ inr i ]

pub append-In_left : (a : ℕ) (xs ys : List ℕ) → In a xs → In a (xs ++ ys)
append-In_left a [] ys m = elim m [ ]
append-In_left a (x ∷ xs) ys (inl e) = inl e
append-In_left a (x ∷ xs) ys (inr m) = inr (append-In_left a xs ys m)

pub append-In_right : (a : ℕ) (xs ys : List ℕ) → In a ys → In a (xs ++ ys)
append-In_right a [] ys m = m
append-In_right a (x ∷ xs) ys m = inr (append-In_right a xs ys m)

-- No element twice.
abbrev pub IsNodup : List ℕ → Type 0
IsNodup [] = Unit {0}
IsNodup (x ∷ xs) = (elem x xs ≡ false) × IsNodup xs

elem-keep-false : (p : ℕ → Bool) (x : ℕ) (l : List ℕ) → elem x l ≡ false → elem x (keep p l) ≡ false
elem-keep-false p x [] h = refl
elem-keep-false p x (y ∷ l) h = ground (arith, elem-keep-false p x l)

pub IsNodup-keep : (p : ℕ → Bool) (l : List ℕ) → IsNodup l → IsNodup (keep p l)
IsNodup-keep p [] h = tt
IsNodup-keep p (x ∷ l) (a, h) = elim (Bool-cases (p x)) [
  | inl e ↦ rw e (elem-keep-false p x l a, IsNodup-keep p l h)
  | inr e ↦ rw e (IsNodup-keep p l h)
]

pub keep-keep : (p q : ℕ → Bool) (l : List ℕ) → keep p (keep q l) ≡ keep (λ x. q x && p x) l
keep-keep p q [] = refl
keep-keep p q (x ∷ l) = elim (Bool-cases (q x)) [
  | inl e ↦ rw e (ground (arith, keep-keep p q l))
  | inr e ↦ rw e (keep-keep p q l)
]

pub keep-cong : (p q : ℕ → Bool) (l : List ℕ) → ((x : ℕ) → p x ≡ q x) → keep p l ≡ keep q l
keep-cong p q [] h = refl
keep-cong p q (x ∷ l) h = ground (arith, h x, keep-cong p q l h)
