-- ===== src/QNet/IntRotation/Combine.antt =====
-- Folding two integer rotations keeps the total angle (combineIntRotAngles in
-- lib/Analysis/QNet/PeepholeOptimizations.cpp).
use Prim.Native.Nat.{max}
use mathlib.Core.Path.{ap₂}
use qoala_mlir.Common.{
  ℕ, ◌+◌, ◌-◌, ◌*◌, ◌^◌, ◌≤◌, ◌<◌, ◌≡◌, ◌↔◌, refl, sym, ap, ◌∙◌, Option, none, some, arith, ◌⊎◌,
  inl, inr, if◌then◌else◌,
}
use qoala_mlir.Common.Int.{ℤ, pos, negsuc, ◌+ℤ◌, ◌-ℤ◌, ◌*ℤ◌, ltb_ℤ, int_laws, *ℤ_assoc, *ℤ_distrib}
use qoala_mlir.QNet.IntRotation.{
  Value, const, dynamic, maxsi, subi, shli, addi, to_i32, get_const_i32, combine_scaled,
  combine_constants, emit_combination, combine_int_rot_angles, choose_path, constants,
}
use qoala_mlir.QNet.IntRotation.Words.{
  Congruent, IsI32, Congruent-refl, Congruent-sum, Congruent-trans, Congruent-divisor,
  Congruent-scale, pow-add, pos-mul, to_i32-IsI32, to_i32_id, to_i32-Congruent,
}

-- What the dynamic path relies on: the arith dialect's operations on i32 values, as documented.
-- A shift by 32 or more is poison, so nothing is assumed of it.
pub record ArithSemantics : Type 0 where
  pub max_signed : ℤ → ℤ → ℤ
  pub subtract : ℤ → ℤ → ℤ
  pub shift_left : ℤ → ℤ → ℤ
  pub add : ℤ → ℤ → ℤ
  pub max_signed_lem : (a b : ℤ) → max_signed a b ≡ (if ltb_ℤ a b then b else a)
  pub subtract_lem : (a b : ℤ) → subtract a b ≡ to_i32 (a -ℤ b)
  pub shift_left_lem : (a : ℤ) (k : ℕ) → k < 32 → shift_left a (pos k) ≡ to_i32 (a *ℤ pos (2 ^ k))
  pub add_lem : (a b : ℤ) → add a b ≡ to_i32 (a +ℤ b)

abbrev pub eval : ArithSemantics → (ℕ → ℤ) → Value → ℤ
eval s env (const c) = to_i32 c
eval s env (dynamic x) = env x
eval s env (maxsi a b) = s.max_signed (eval s env a) (eval s env b)
eval s env (subi a b) = s.subtract (eval s env a) (eval s env b)
eval s env (shli a b) = s.shift_left (eval s env a) (eval s env b)
eval s env (addi a b) = s.add (eval s env a) (eval s env b)

-- n / 2^d is n1 / 2^d1 + n2 / 2^d2 up to even numbers, so the angles agree up to full turns.
abbrev pub TurnsAs : ℤ → ℕ → ℤ → ℕ → ℤ → ℕ → Type 0
TurnsAs n d n1 d1 n2 d2 =
    Congruent (2 ^ (d + 1) * (2 ^ d1 * 2 ^ d2)) (n *ℤ pos (2 ^ d1 * 2 ^ d2))
      (n1 *ℤ pos (2 ^ d * 2 ^ d2) +ℤ n2 *ℤ pos (2 ^ d * 2 ^ d1))

abbrev pub scaled_sum : ℤ → ℕ → ℤ → ℕ → ℤ
scaled_sum n1 d1 n2 d2 = n1 *ℤ pos (2 ^ (max d1 d2 - d1)) +ℤ n2 *ℤ pos (2 ^ (max d1 d2 - d2))

pos-injective : {a b : ℕ} → pos a ≡ pos b → a ≡ b
pos-injective h = ground arith

pow-split : (d a : ℕ) → a ≤ d → 2 ^ (d - a) * 2 ^ a ≡ 2 ^ d
pow-split d a h = sym (pow-add (d - a) a) ∙ ap (λ (t : ℕ). 2 ^ t) (omega arith)

-- Both numerators over the common denominator, multiplied out.
scaled_sum-cross :
    (n1 : ℤ) (d1 : ℕ) (n2 : ℤ) (d2 : ℕ)
    → scaled_sum n1 d1 n2 d2 *ℤ pos (2 ^ d1 * 2 ^ d2)
      ≡ n1 *ℤ pos (2 ^ max d1 d2 * 2 ^ d2) +ℤ n2 *ℤ pos (2 ^ max d1 d2 * 2 ^ d1)
scaled_sum-cross n1 d1 n2 d2 =
    let e1 : 2 ^ (max d1 d2 - d1) * (2 ^ d1 * 2 ^ d2) ≡ 2 ^ max d1 d2 * 2 ^ d2 =
      omega (arith, ap (λ (t : ℕ). t * 2 ^ d2) (pow-split (max d1 d2) d1 (omega arith))) in
    let e2 : 2 ^ (max d1 d2 - d2) * (2 ^ d1 * 2 ^ d2) ≡ 2 ^ max d1 d2 * 2 ^ d1 =
      omega (arith, ap (λ (t : ℕ). t * 2 ^ d1) (pow-split (max d1 d2) d2 (omega arith))) in
    *ℤ_distrib _ _ _
    ∙ ap₂ ◌+ℤ◌ (*ℤ_assoc n1 _ _ ∙ ap (λ t. n1 *ℤ t) (pos-mul _ _ ∙ ap pos e1))
        (*ℤ_assoc n2 _ _ ∙ ap (λ t. n2 *ℤ t) (pos-mul _ _ ∙ ap pos e2))

pub TurnsAs-of-sum :
    (n n1 : ℤ) (d1 : ℕ) (n2 : ℤ) (d2 : ℕ)
    → Congruent (2 ^ (max d1 d2 + 1)) n (scaled_sum n1 d1 n2 d2)
    → TurnsAs n (max d1 d2) n1 d1 n2 d2
TurnsAs-of-sum n n1 d1 n2 d2 c =
    rw (scaled_sum-cross n1 d1 n2 d2) at
      (Congruent-scale (2 ^ (max d1 d2 + 1)) (2 ^ d1 * 2 ^ d2) _ _ c)

-- The constant path, when it answers, gives the exact sum over the larger denominator.
combine_scaled-sum :
    (n1 : ℤ) (d1 : ℕ) (n2 : ℤ) (d2 : ℕ) (n : ℤ) (d : ℕ)
    → combine_scaled n1 d1 n2 d2 ≡ some (n, d)
    → (d ≡ max d1 d2) × (d - d1 < 31) × (d - d2 < 31) × (n ≡ scaled_sum n1 d1 n2 d2) × IsI32 n
unfolding combine_scaled
combine_scaled-sum n1 d1 n2 d2 n d h =
    let r = to_i32-IsI32 (scaled_sum n1 d1 n2 d2) in
    let p : (to_i32 (scaled_sum n1 d1 n2 d2) ≡ scaled_sum n1 d1 n2 d2)
        × (n ≡ to_i32 (scaled_sum n1 d1 n2 d2))
        × (d ≡ max d1 d2)
        × (d - d1 < 31)
        × (d - d2 < 31) =
      ground arith in
    (p.2, p.3, p.4, p.1 ∙ p.0, rw p.1 r)

-- It answers whenever the denominators are near enough and the sum fits into 32 bits.
combine_scaled-total :
    (n1 : ℤ) (d1 : ℕ) (n2 : ℤ) (d2 : ℕ) (n : ℤ) (d : ℕ)
    → d ≡ max d1 d2
    → d - d1 < 31
    → d - d2 < 31
    → n ≡ scaled_sum n1 d1 n2 d2
    → IsI32 n
    → combine_scaled n1 d1 n2 d2 ≡ some (n, d)
unfolding combine_scaled
combine_scaled-total n1 d1 n2 d2 n d e p q h r = ground (arith, to_i32_id n r)

-- The constant path succeeds exactly when both exponents are non-negative, no numerator is shifted
-- by 31 or more, and the sum of the scaled numerators fits into an i32; the result then turns by
-- exactly that sum over 2 to the larger exponent, and is an i32.
pub combine_constants-exact :
    (n1 d1 n2 d2 : ℤ) (n : ℤ) (d : ℕ)
    → combine_constants n1 d1 n2 d2 ≡ some (n, d) ↔ (
        (e1 : ℕ) × (e2 : ℕ) × (d1 ≡ pos e1)
        × (d2 ≡ pos e2)
        × (d ≡ max e1 e2)
        × (d - e1 < 31)
        × (d - e2 < 31)
        × (n ≡ scaled_sum n1 e1 n2 e2)
        × IsI32 n)
unfolding combine_constants
combine_constants-exact n1 (pos e1) n2 (pos e2) n d = (
  λ h.
      let (a, b, c, e, r) = combine_scaled-sum n1 e1 n2 e2 n d (ground arith) in
      (e1, e2, refl, refl, a, b, c, e, r),
  λ (a1, a2, p1, p2, e, h1, h2, q, r).
      let b1 : a1 ≡ e1 = ground arith in
      let b2 : a2 ≡ e2 = ground arith in
      let h : combine_scaled n1 e1 n2 e2 ≡ some (n, d) =
        combine_scaled-total n1 e1 n2 e2 n d (ground arith) (ground arith) (ground arith)
          (rw (← b1, ← b2) q) r in
      ground arith,
)
combine_constants-exact n1 (pos e1) n2 (negsuc e2) n d = (λ h. ground arith, λ h. ground arith)
combine_constants-exact n1 (negsuc e1) n2 d2 n d = (λ h. ground arith, λ h. ground arith)

get_const_i32-eval :
    (s : ArithSemantics) (env : ℕ → ℤ) (v : Value) (c : ℤ)
    → get_const_i32 v ≡ some c
    → eval s env v ≡ c
unfolding get_const_i32
get_const_i32-eval s env (const a) c h = ground arith
get_const_i32-eval s env _ c h = cc

-- Which path was taken.
choose_path-cases :
    (a b c e : Option ℤ) (emitted r : Value × Value)
    → choose_path a b c e emitted ≡ some r
    → (r ≡ emitted)
      ⊎ ((n1 : ℤ) × (d1 : ℤ) × (n2 : ℤ) × (d2 : ℤ) × (n : ℤ) × (d : ℕ) × (a ≡ some n1)
          × (b ≡ some d1)
          × (c ≡ some n2)
          × (e ≡ some d2)
          × (combine_constants n1 d1 n2 d2 ≡ some (n, d))
          × (r.0 ≡ const n)
          × (r.1 ≡ const (pos d)))
unfolding choose_path
choose_path-cases (some n1) (some d1) (some n2) (some d2) emitted r h =
    inr (constants-some n1 d1 n2 d2 r _ refl h)
  where
    constants-some :
        (n1 d1 n2 d2 : ℤ) (r : Value × Value) (o : Option (ℤ × ℕ))
        → combine_constants n1 d1 n2 d2 ≡ o
        → constants o ≡ some r
        → (m1 : ℤ) × (c1 : ℤ) × (m2 : ℤ) × (c2 : ℤ) × (n : ℤ) × (d : ℕ) × (some n1 ≡ some m1)
          × (some d1 ≡ some c1)
          × (some n2 ≡ some m2)
          × (some d2 ≡ some c2)
          × (combine_constants m1 c1 m2 c2 ≡ some (n, d))
          × (r.0 ≡ const n)
          × (r.1 ≡ const (pos d))
    constants-some n1 d1 n2 d2 r none p q = absurd cc
    constants-some n1 d1 n2 d2 r (some (n, d)) p q =
        (n1, d1, n2, d2, n, d, refl, refl, refl, refl, p, ground arith, ground arith)
choose_path-cases _ _ _ _ emitted r h = inl (ground arith)

-- The cast keeps a number modulo every power of two up to 2^32.
to_i32-Congruent_pow : (d : ℕ) (z : ℤ) → d ≤ 31 → Congruent (2 ^ (d + 1)) (to_i32 z) z
to_i32-Congruent_pow d z h =
    let e : 2 ^ (32 - (d + 1)) * 2 ^ (d + 1) ≡ 2 ^ 32 = pow-split 32 (d + 1) (omega arith) in
    Congruent-divisor (2 ^ (d + 1)) (2 ^ (32 - (d + 1))) (to_i32 z) z (rw e (to_i32-Congruent z))

module _ (s : ArithSemantics) where
  max_eval : (a b : ℕ) → s.max_signed (pos a) (pos b) ≡ pos (max a b)
  max_eval a b = rw s.max_signed_lem (ground arith)

  -- The distance to the larger exponent is a shift below 32.
  shift_eval :
      (a : ℤ) (e d : ℕ)
      → e ≤ d
      → d ≤ 31
      → s.shift_left a (s.subtract (pos d) (pos e)) ≡ to_i32 (a *ℤ pos (2 ^ (d - e)))
  shift_eval a e d h k =
      let p : s.subtract (pos d) (pos e) ≡ pos (d - e) =
        s.subtract_lem (pos d) (pos e)
        ∙ ap to_i32 (omega int_laws)
        ∙ to_i32_id (pos (d - e)) (omega arith) in
      rw p (s.shift_left_lem a (d - e) (omega arith))

module _ (s : ArithSemantics) (env : ℕ → ℤ) where
  -- With exponents of at most 31 the emitted operations turn by the same angle, even where the
  -- 32-bit operations wrap.
  emit_combination-Congruent :
      (n1 d1 n2 d2 : Value) (e1 e2 : ℕ)
      → eval s env d1 ≡ pos e1
      → eval s env d2 ≡ pos e2
      → e1 ≤ 31
      → e2 ≤ 31
      → (eval s env (emit_combination n1 d1 n2 d2).1 ≡ pos (max e1 e2))
        × Congruent
            (2 ^ (max e1 e2 + 1))
            (eval s env (emit_combination n1 d1 n2 d2).0)
            (scaled_sum (eval s env n1) e1 (eval s env n2) e2)
  unfolding emit_combination
  emit_combination-Congruent n1 d1 n2 d2 e1 e2 p1 p2 h1 h2 =
      let d = max e1 e2 in
      let x = eval s env n1 *ℤ pos (2 ^ (d - e1)) in
      let y = eval s env n2 *ℤ pos (2 ^ (d - e2)) in
      rw
        (
          p1,
          p2,
          max_eval s e1 e2,
          shift_eval s (eval s env n1) e1 d (omega arith) (omega arith),
          shift_eval s (eval s env n2) e2 d (omega arith) (omega arith),
          s.add_lem,
        )
        (
          refl,
          Congruent-trans (2 ^ (d + 1)) _ (to_i32 x +ℤ to_i32 y) _
              (to_i32-Congruent_pow d (to_i32 x +ℤ to_i32 y) (omega arith))
              (Congruent-sum (2 ^ (d + 1)) (to_i32 x) x (to_i32 y) y
                (to_i32-Congruent_pow d x (omega arith)) (to_i32-Congruent_pow d y (omega arith))),
        )

  -- Whichever path `combineIntRotAngles` takes, if it answers then the new pair turns by the sum of
  -- the two angles up to full turns, its exponent being the larger one. The two exponents are known
  -- to lie in [0, 31]; the numerators are any i32 values, and intermediate results may wrap.
  pub combine_int_rot_angles-TurnsAs :
      (n1 d1 n2 d2 n d : Value) (e1 e2 : ℕ)
      → eval s env d1 ≡ pos e1
      → eval s env d2 ≡ pos e2
      → e1 ≤ 31
      → e2 ≤ 31
      → combine_int_rot_angles n1 d1 n2 d2 ≡ some (n, d)
      → (eval s env d ≡ pos (max e1 e2))
        × TurnsAs (eval s env n) (max e1 e2) (eval s env n1) e1 (eval s env n2) e2
  unfolding combine_int_rot_angles
  combine_int_rot_angles-TurnsAs n1 d1 n2 d2 n d e1 e2 p1 p2 h1 h2 h =
      let split = choose_path-cases _ _ _ _ _ (n, d) h in
      elim split [
        | inl e ↦
            let (a, c) = emit_combination-Congruent n1 d1 n2 d2 e1 e2 p1 p2 h1 h2 in
            let en : n ≡ (emit_combination n1 d1 n2 d2).0 = ap (λ (t : Value × Value). t.0) e in
            let ed : d ≡ (emit_combination n1 d1 n2 d2).1 = ap (λ (t : Value × Value). t.1) e in
            (rw ed a, TurnsAs-of-sum _ _ e1 _ e2 (rw en c))
        | inr (m1, c1, m2, c2, m, c, q1, q2, q3, q4, q, qn, qd) ↦
            constant_case m1 c1 m2 c2 m c q1 q2 q3 q4 q qn qd
      ]
    where
      constant_case :
          (m1 c1 m2 c2 m : ℤ) (c : ℕ)
          → get_const_i32 n1 ≡ some m1
          → get_const_i32 d1 ≡ some c1
          → get_const_i32 n2 ≡ some m2
          → get_const_i32 d2 ≡ some c2
          → combine_constants m1 c1 m2 c2 ≡ some (m, c)
          → n ≡ const m
          → d ≡ const (pos c)
          → (eval s env d ≡ pos (max e1 e2))
            × TurnsAs (eval s env n) (max e1 e2) (eval s env n1) e1 (eval s env n2) e2
      constant_case m1 c1 m2 c2 m c q1 q2 q3 q4 q qn qd =
          let (a1, a2, r1, r2, rc, _, _, rm, ri) = (combine_constants-exact m1 c1 m2 c2 m c).0 q in
          let f1 : a1 ≡ e1 =
            pos-injective (sym r1 ∙ sym (get_const_i32-eval s env d1 c1 q2) ∙ p1) in
          let f2 : a2 ≡ e2 =
            pos-injective (sym r2 ∙ sym (get_const_i32-eval s env d2 c2 q4) ∙ p2) in
          let g1 = get_const_i32-eval s env n1 m1 q1 in
          let g2 = get_const_i32-eval s env n2 m2 q3 in
          let em : to_i32 m ≡ scaled_sum m1 e1 m2 e2 = to_i32_id m ri ∙ rw (← f1, ← f2) rm in
          let ec : to_i32 (pos c) ≡ pos (max e1 e2) =
            rw (rc, f1, f2) (to_i32_id (pos (max e1 e2)) (omega arith)) in
          (
            rw qd ec,
            TurnsAs-of-sum _ _ e1 _ e2
                (rw (qn, g1, g2, em) (Congruent-refl (2 ^ (max e1 e2 + 1)) _)),
          )
