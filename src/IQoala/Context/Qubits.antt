-- ===== src/IQoala/Context/Qubits.antt =====
-- Physical qubits: an allocated qubit was free, and no qubit is handed out twice.
use qoala_mlir.Common.{
  ℕ, zero, suc, ◌+◌, ◌≤◌, ◌<◌, ◌≡◌, ◌≢◌, refl, sym, ap, ◌∙◌, Bool, true, false, List, [], ◌∷◌,
  Option, none, some, ◌==◌, elem, IsNodup, IsNodup-keep, arith, ◌⊎◌, inl, inr, keep, not, ◌&&◌,
  Bool-cases, ==_iff,
}
use qoala_mlir.IQoala.Context.{Context, init, assign, first_free, allocate_qubit, release_qubit}

-- The scan finds the least free index, or all of its range is in use.
data Scan (qubits : ℕ → Bool) (i n : ℕ) : Option ℕ → Type 0 where
  full : ((j : ℕ) → i ≤ j → j < i + n → qubits j ≡ true) → Scan qubits i n none
  found :
      (k : ℕ)
      → i ≤ k
      → k < i + n
      → qubits k ≡ false
      → ((j : ℕ) → i ≤ j → j < k → qubits j ≡ true)
      → Scan qubits i n (some k)

first_free-Scan : (n i : ℕ) (qubits : ℕ → Bool) → Scan qubits i n (first_free n i qubits)
unfolding first_free
first_free-Scan zero i qubits = full (λ j a b. absurd (omega arith))
first_free-Scan (suc n) i qubits = elim (Bool-cases (qubits i)) [
  | inl e ↦ rw e (later (first_free n (i + 1) qubits) e (first_free-Scan n (i + 1) qubits))
  | inr e ↦ rw e (found i (omega arith) (omega arith) e (λ j a b. absurd (omega arith)))
]
  where
    below_or : (o : ℕ → Bool) (j : ℕ) → o i ≡ true → i ≤ j → (i + 1 ≤ j → o j ≡ true) → o j ≡ true
    below_or o j e a f = elim (Bool-cases (i == j)) [
      | inl h ↦ rw (← (==_iff i j).0 h) e
      | inr h ↦ f (ground arith)
    ]

    later : (o : Option ℕ) → qubits i ≡ true → Scan qubits (i + 1) n o → Scan qubits i (suc n) o
    later none e (full f) = full (λ j a b. below_or qubits j e a (λ c. f j c (omega arith)))
    later (some k) e (found _ a b d f) =
        found k (omega arith) (omega arith) d (λ j g h. below_or qubits j e g (λ c. f j c h))

-- Either the least of the 16 qubits that is free is returned and becomes used, all else staying as
-- it is; or all 16 are in use, 0xFF is returned and nothing changes.
pub allocate_qubit_lem :
    (ctx : Context)
    → ((allocate_qubit ctx ≡ (0xFF, ctx)) × ((j : ℕ) → j < 16 → ctx.qubits j ≡ true))
      ⊎ ((k : ℕ) × (k < 16)
          × (ctx.qubits k ≡ false)
          × ((j : ℕ) → j < k → ctx.qubits j ≡ true)
          × (allocate_qubit ctx ≡ (k, record ctx { qubits = assign ctx.qubits k true })))
unfolding allocate_qubit
allocate_qubit_lem ctx = go (first_free 16 0 ctx.qubits) refl (first_free-Scan 16 0 ctx.qubits)
  where
    go :
        (o : Option ℕ)
        → first_free 16 0 ctx.qubits ≡ o
        → Scan ctx.qubits 0 16 o
        → ((allocate_qubit ctx ≡ (0xFF, ctx)) × ((j : ℕ) → j < 16 → ctx.qubits j ≡ true))
          ⊎ ((k : ℕ) × (k < 16)
              × (ctx.qubits k ≡ false)
              × ((j : ℕ) → j < k → ctx.qubits j ≡ true)
              × (allocate_qubit ctx ≡ (k, record ctx { qubits = assign ctx.qubits k true })))
    go none e (full f) = inl (rw (e, allocate_qubit) refl, λ j h. f j (omega arith) (omega arith))
    go (some k) e (found _ a b d f) =
        inr (k, omega arith, d, (λ j h. f j (omega arith) h), rw (e, allocate_qubit) refl)

-- A translation allocates qubits and releases those that it holds; `held` are those, newest first.
pub data History : Context → List ℕ → Type 0 where
  start : History init []
  allocated :
      {ctx : Context} {held : List ℕ}
      → History ctx held
      → (allocate_qubit ctx).0 ≢ 0xFF
      → History (allocate_qubit ctx).1 ((allocate_qubit ctx).0 ∷ held)
  exhausted :
      {ctx : Context} {held : List ℕ}
      → History ctx held
      → (allocate_qubit ctx).0 ≡ 0xFF
      → History (allocate_qubit ctx).1 held
  released :
      {ctx : Context} {held : List ℕ} (i : ℕ)
      → History ctx held
      → elem i held ≡ true
      → History (release_qubit i ctx) (keep (λ j. not (j == i)) held)

pub record Tracks (ctx : Context) (held : List ℕ) : Type 0 where
  pub used : (i : ℕ) → ctx.qubits i ≡ elem i held
  pub distinct : IsNodup held
  pub bounded : (i : ℕ) → elem i held ≡ true → i < 16

==_sym : (a b : ℕ) → (a == b) ≡ (b == a)
==_sym a b = ground arith

Tracks-allocated :
    (ctx : Context) (held : List ℕ)
    → Tracks ctx held
    → (allocate_qubit ctx).0 ≢ 0xFF
    → Tracks (allocate_qubit ctx).1 ((allocate_qubit ctx).0 ∷ held)
Tracks-allocated ctx held t n = elim (allocate_qubit_lem ctx) [
  | inl (e, _) ↦ absurd (n (ap (λ (p : ℕ × Context). p.0) e))
  | inr (k, lt, free, _, e) ↦ rw e (record {
    used = λ i. ground (arith, t.used i, ==_sym k i);
    distinct = (sym (t.used k) ∙ free, t.distinct);
    bounded = λ i h. ground (arith, t.bounded i);
  })
]

Tracks-exhausted :
    (ctx : Context) (held : List ℕ)
    → Tracks ctx held
    → (allocate_qubit ctx).0 ≡ 0xFF
    → Tracks (allocate_qubit ctx).1 held
Tracks-exhausted ctx held t n = elim (allocate_qubit_lem ctx) [
  | inl (e, _) ↦ rw e t
  | inr (k, lt, free, _, e) ↦
      let p : k ≡ 0xFF = sym (ap (λ (p : ℕ × Context). p.0) e) ∙ n in absurd (omega arith)
]

elem-without :
    (i j : ℕ) (l : List ℕ) → elem j (keep (λ x. not (x == i)) l) ≡ (elem j l && not (j == i))
elem-without i j [] = refl
elem-without i j (x ∷ l) = ground (arith, elem-without i j l)

Tracks-released :
    (i : ℕ) (ctx : Context) (held : List ℕ)
    → Tracks ctx held
    → Tracks (release_qubit i ctx) (keep (λ j. not (j == i)) held)
unfolding release_qubit
Tracks-released i ctx held t = record {
  used = λ j. ground (arith, t.used j, elem-without i j held);
  distinct = IsNodup-keep (λ j. not (j == i)) held t.distinct;
  bounded = λ j h. t.bounded j (ground (arith, elem-without i j held));
}

-- Along every history exactly the held qubits are marked as used, none is held twice, and all of
-- them are among the 16 physical qubits.
pub History-Tracks : {ctx : Context} {held : List ℕ} → History ctx held → Tracks ctx held
unfolding init release_qubit
History-Tracks start = record { used = λ i. refl; distinct = tt; bounded = λ i h. absurd cc }
History-Tracks (allocated {ctx} {held} h n) = Tracks-allocated ctx held (History-Tracks h) n
History-Tracks (exhausted {ctx} {held} h e) = Tracks-exhausted ctx held (History-Tracks h) e
History-Tracks (released {ctx} {held} i h e) = Tracks-released i ctx held (History-Tracks h)
