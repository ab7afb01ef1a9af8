-- ===== src/QNet/IntRotation/Normalize.antt =====
-- The canonical numerator of an integer rotation (NormalizeIntRotationPattern and
-- NormalizeCrotXIntRotationPattern in lib/Analysis/QNet/PeepholeOptimizations.cpp).
use native.Mathlib.Nat.{pow-suc, mod-lt, div-add-mod}
use native.Mathlib.Numerals.{towards_suc}
use qoala_mlir.Common.{
  ℕ, zero, suc, ◌+◌, ◌-◌, ◌*◌, ◌/◌, ◌%◌, ◌^◌, ◌≤◌, ◌<◌, ◌≡◌, ◌↔◌, sym, ap, ◌∙◌, none, some, arith,
  ◌⊎◌, inl, inr, if◌then◌else◌, Bool-cases, true, false,
}
use qoala_mlir.Common.Int.{
  ℤ, pos, negsuc, ◌+ℤ◌, ◌-ℤ◌, ◌*ℤ◌, ◌≤ℤ◌, ◌<ℤ◌, ltb_ℤ, eqb_ℤ, int_laws, sub_ℕ, pos_part, neg_part,
  *ℤ_distrib, *ℤ_parts,
}
use qoala_mlir.QNet.IntRotation.{to_i32, rem, reduce_angle, normalize_int_rotation}
use qoala_mlir.QNet.IntRotation.Words.{
  Congruent, Congruent-trans, pow_pos, pow-add, pos-mul, to_i32_id,
}

-- The interval (-h, h].
abbrev pub IsCanonical : ℕ → ℤ → Type 0
IsCanonical h n = (pos 0 -ℤ pos h <ℤ n) × (n ≤ℤ pos h)

-- The numerator that the pattern computes, over the integers: for a period of 2 * h.
canonical : ℤ → ℕ → ℤ
canonical n h =
    let p = 2 * h in
    let m = rem (rem n (pos p) +ℤ pos p) (pos p) in if ltb_ℤ (pos h) m then m -ℤ pos p else m

rem_bounds : (n : ℤ) (p : ℕ) → 0 < p → (pos 0 -ℤ pos p <ℤ rem n (pos p)) × (rem n (pos p) <ℤ pos p)
unfolding rem ◌-ℤ◌
rem_bounds (pos a) p h = ground (arith, mod-lt a h)
rem_bounds (negsuc a) p h = ground (arith, mod-lt (a + 1) h)

rem_nonneg : (n : ℤ) (p : ℕ) → pos 0 ≤ℤ n → pos 0 ≤ℤ rem n (pos p)
unfolding rem
rem_nonneg (pos a) p h = ground arith
rem_nonneg (negsuc a) p h = ground arith

negation_parts : (q : ℕ) → (pos_part (sub_ℕ 0 q) ≡ 0) × (neg_part (sub_ℕ 0 q) ≡ q)
negation_parts q = ground arith

-- A product by a number, read by its parts.
mul_pos_parts :
    (k : ℤ) (p : ℕ)
    → pos_part (k *ℤ pos p) + neg_part k * p ≡ neg_part (k *ℤ pos p) + pos_part k * p
mul_pos_parts k p = omega (arith, *ℤ_parts k (pos p))

neg_product : (q p : ℕ) → sub_ℕ 0 q *ℤ pos p ≡ sub_ℕ 0 (q * p)
neg_product q p =
    let (a, b) = negation_parts q in
    omega (
      int_laws,
      mul_pos_parts (sub_ℕ 0 q) p,
      negation_parts (q * p),
      ap (λ (t : ℕ). t * p) a,
      ap (λ (t : ℕ). t * p) b,
    )

-- The multiple of the divisor by which a remainder differs from its dividend.
multiple : ℤ → ℕ → ℤ
multiple (pos a) p = sub_ℕ 0 (a / p)
multiple (negsuc a) p = pos ((a + 1) / p)

rem-multiple : (n : ℤ) (p : ℕ) → rem n (pos p) ≡ n +ℤ multiple n p *ℤ pos p
unfolding rem multiple
rem-multiple (pos a) p =
    let e : a % (p + 0) ≡ a % p = ap (λ (t : ℕ). a % t) (omega arith) in
    rw (e, neg_product (a / p) p) (omega (int_laws, div-add-mod a p, negation_parts (a / p * p)))
rem-multiple (negsuc a) p =
    let e : (a + 1) % (p + 0) ≡ (a + 1) % p = ap (λ (t : ℕ). (a + 1) % t) (omega arith) in
    rw (e, pos-mul ((a + 1) / p) p)
      (omega (int_laws, div-add-mod (a + 1) p, negation_parts ((a + 1) % p)))

rem-Congruent : (n : ℤ) (p : ℕ) → Congruent p (rem n (pos p)) n
rem-Congruent n p = (multiple n p, rem-multiple n p)

shift-Congruent : (p : ℕ) (a b : ℤ) → Congruent p a b → Congruent p (a +ℤ pos p) b
shift-Congruent p a b (k, e) = (k +ℤ pos 1, rw (e, *ℤ_distrib k (pos 1) (pos p)) (omega int_laws))

unshift-Congruent : (p : ℕ) (a b : ℤ) → Congruent p a b → Congruent p (a -ℤ pos p) b
unshift-Congruent p a b (k, e) =
    (k +ℤ negsuc 0, rw (e, *ℤ_distrib k (negsuc 0) (pos p)) (omega int_laws))

-- Congruent numbers of the interval are equal.
canonical_unique :
    (h : ℕ) (a b : ℤ) → 0 < h → IsCanonical h a → IsCanonical h b → Congruent (2 * h) a b → a ≡ b
canonical_unique h a b p (la, ua) (lb, ub) (pos zero, e) =
    e ∙ omega (int_laws, mul_pos_parts (pos 0) (2 * h))
canonical_unique h a b p (la, ua) (lb, ub) (pos (suc k), e) =
    absurd (omega (int_laws, ap pos_part e, ap neg_part e, mul_pos_parts (pos (suc k)) (2 * h)))
canonical_unique h a b p (la, ua) (lb, ub) (negsuc k, e) =
    absurd (omega (int_laws, ap pos_part e, ap neg_part e, mul_pos_parts (negsuc k) (2 * h)))

canonical-Congruent : (n : ℤ) (h : ℕ) → Congruent (2 * h) (canonical n h) n
unfolding canonical
canonical-Congruent n h =
    let p = 2 * h in
    let r = rem-Congruent n p in
    let m =
      Congruent-trans p _ _ _ (rem-Congruent (rem n (pos p) +ℤ pos p) p)
        (shift-Congruent p _ _ r) in
    elim (Bool-cases (ltb_ℤ (pos h) (rem (rem n (pos p) +ℤ pos p) (pos p)))) [
      | inl e ↦ rw e (unshift-Congruent p _ _ m)
      | inr e ↦ rw e m
    ]

ltb_ℤ→lt : (a b : ℤ) → ltb_ℤ a b ≡ true → a <ℤ b
ltb_ℤ→lt a b h = ground arith

ltb_ℤ→ge : (a b : ℤ) → ltb_ℤ a b ≡ false → b ≤ℤ a
ltb_ℤ→ge a b h = ground arith

canonical-IsCanonical : (n : ℤ) (h : ℕ) → 0 < h → IsCanonical h (canonical n h)
unfolding canonical
canonical-IsCanonical n h p =
    let r = rem n (pos (2 * h)) in
    let m = rem (r +ℤ pos (2 * h)) (pos (2 * h)) in
    let b = rem_bounds n (2 * h) (omega arith) in
    let c = rem_bounds (r +ℤ pos (2 * h)) (2 * h) (omega arith) in
    let d = rem_nonneg (r +ℤ pos (2 * h)) (2 * h) (omega int_laws) in
    elim (Bool-cases (ltb_ℤ (pos h) m)) [
      | inl e ↦ rw e (omega (int_laws, ltb_ℤ→lt (pos h) m e))
      | inr e ↦ rw e (omega (int_laws, ltb_ℤ→ge (pos h) m e))
    ]

pow-le : (d : ℕ) → d ≤ 29 → 2 ^ d ≤ 2 ^ 29
pow-le d h =
    let e : 29 - d + d ≡ 29 = omega arith in
    let p : 2 ^ (29 - d) * 2 ^ d ≡ 2 ^ 29 = sym (pow-add (29 - d) d) ∙ ap (λ (t : ℕ). 2 ^ t) e in
    le_product (2 ^ (29 - d)) (2 ^ d) (pow_pos (29 - d)) p
  where
    le_product : (a b : ℕ) → 1 ≤ a → a * b ≡ 2 ^ 29 → b ≤ 2 ^ 29
    le_product a b h e = rw (← e) (grind arith)

double_pow : (d : ℕ) → 2 * 2 ^ d ≡ 2 ^ (d + 1)
double_pow d = simp towards_suc (rw pow-suc (omega arith))

-- For exponents up to 29 no 32-bit operation of the pattern wraps.
reduce_angle-eq-canonical : (n : ℤ) (d : ℕ) → d ≤ 29 → reduce_angle n d ≡ canonical n (2 ^ d)
unfolding reduce_angle canonical
reduce_angle-eq-canonical n d h =
    let p : pos (2 ^ (d + 1)) ≡ pos (2 * 2 ^ d) = ap pos (sym (double_pow d)) in
    let small = pow-le d h in
    let large = pow_pos d in
    let b = rem_bounds n (2 * 2 ^ d) (omega arith) in
    let m = rem (rem n (pos (2 * 2 ^ d)) +ℤ pos (2 * 2 ^ d)) (pos (2 * 2 ^ d)) in
    let c = rem_bounds (rem n (pos (2 * 2 ^ d)) +ℤ pos (2 * 2 ^ d)) (2 * 2 ^ d) (omega arith) in
    rw (
      p,
      to_i32_id (pos (2 * 2 ^ d)) (omega arith, omega arith),
      to_i32_id (pos (2 ^ d)) (omega arith, omega arith),
      to_i32_id (rem n (pos (2 * 2 ^ d)) +ℤ pos (2 * 2 ^ d)) (omega int_laws, omega int_laws),
      to_i32_id (m -ℤ pos (2 * 2 ^ d)) (omega int_laws, omega int_laws),
    )

normalize-small :
    (n : ℤ) (d : ℕ)
    → d ≤ 29
    → normalize_int_rotation n (pos d)
      ≡ (if eqb_ℤ (canonical n (2 ^ d)) n then none else some (canonical n (2 ^ d)))
unfolding normalize_int_rotation
normalize-small n d h = rw (← reduce_angle-eq-canonical n d h) (ground arith)

-- A fixed point of the reduction is a numerator of the interval.
canonical-fixed : (n : ℤ) (h : ℕ) → 0 < h → IsCanonical h n → canonical n h ≡ n
canonical-fixed n h p c =
    canonical_unique h (canonical n h) n p (canonical-IsCanonical n h p) c (canonical-Congruent n h)

eqb_ℤ_iff : (a b : ℤ) → (eqb_ℤ a b ≡ true) ↔ (a ≡ b)
eqb_ℤ_iff a b = ground arith

normalize-canonical :
    (n : ℤ) (d : ℕ) → d ≤ 29 → IsCanonical (2 ^ d) n → normalize_int_rotation n (pos d) ≡ none
normalize-canonical n d h c =
    normalize-small n d h
    ∙ rw ((eqb_ℤ_iff (canonical n (2 ^ d)) n).1 (canonical-fixed n (2 ^ d) (pow_pos d) c))

-- For exponents from 0 to 29 the pattern does nothing to a numerator in (-2^d, 2^d]. Any other
-- numerator it replaces by one in that interval which differs by a multiple of 2^(d + 1), that is
-- by full turns, and which it will leave alone.
pub normalize_int_rotation_lem :
    (n : ℤ) (d : ℕ)
    → d ≤ 29
    → ((normalize_int_rotation n (pos d) ≡ none) × IsCanonical (2 ^ d) n)
      ⊎ ((m : ℤ) × (normalize_int_rotation n (pos d) ≡ some m)
          × IsCanonical (2 ^ d) m
          × Congruent (2 ^ (d + 1)) m n
          × (normalize_int_rotation m (pos d) ≡ none))
normalize_int_rotation_lem n d h =
    let m = canonical n (2 ^ d) in
    let c = canonical-IsCanonical n (2 ^ d) (pow_pos d) in
    let e = normalize-small n d h in
    elim (Bool-cases (eqb_ℤ m n)) [
      | inl t ↦ inl (e ∙ rw t, rw ((eqb_ℤ_iff m n).0 t) at c)
      | inr t ↦ inr (
        m,
        e ∙ rw t,
        c,
        rw (sym (double_pow d)) (canonical-Congruent n (2 ^ d)),
        normalize-canonical m d h c,
      )
    ]

-- At the exponent 30 the period 1 << 31 is the least i32, and the pattern undoes itself: a
-- numerator in (0, 2^30], which is canonical, becomes n - 2^31, and that becomes n again.
pub normalize_int_rotation_oscillates :
    (n : ℕ)
    → 0 < n
    → n ≤ 2 ^ 30
    → (normalize_int_rotation (pos n) (pos 30) ≡ some (pos n -ℤ pos (2 ^ 31)))
      × (normalize_int_rotation (pos n -ℤ pos (2 ^ 31)) (pos 30) ≡ some (pos n))
unfolding normalize_int_rotation reduce_angle rem to_i32 ◌+ℤ◌ ◌-ℤ◌
normalize_int_rotation_oscillates n p h = (ground arith, ground arith)
