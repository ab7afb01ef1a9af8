-- ===== src/QNet/IntRotation/Words.antt =====
-- Arithmetic modulo a power of two, for the angles of integer rotations.
use native.Mathlib.Nat.{pow-suc, zero-add}
use qoala_mlir.Common.{
  ℕ, zero, suc, ◌+◌, ◌-◌, ◌*◌, ◌/◌, ◌^◌, ◌≤◌, ◌<◌, ◌≡◌, ap, ◌∙◌, arith, ltb, if◌then◌else◌,
}
use qoala_mlir.Common.Int.{
  ℤ, pos, negsuc, ◌+ℤ◌, ◌*ℤ◌, ◌≤ℤ◌, ◌<ℤ◌, int_laws, sub_ℕ, pos_part, neg_part, *ℤ_assoc, *ℤ_distrib,
}
use qoala_mlir.QNet.IntRotation.{to_i32, low_word, as_signed}

-- a and b differ by a multiple of m.
abbrev pub Congruent : ℕ → ℤ → ℤ → Type 0
Congruent m a b = (k : ℤ) × (a ≡ b +ℤ k *ℤ pos m)

abbrev pub IsI32 : ℤ → Type 0
IsI32 z = (negsuc (2 ^ 31 - 1) ≤ℤ z) × (z <ℤ pos (2 ^ 31))

pub pow-add : (a b : ℕ) → 2 ^ (a + b) ≡ 2 ^ a * 2 ^ b
pow-add zero b = rw zero-add (omega arith)
pow-add (suc a) b =
    let e : suc a + b ≡ suc (a + b) = omega arith in
    rw (e, pow-suc 2 (a + b), pow-suc 2 a, pow-add a b) (omega arith)

pub pow_pos : (a : ℕ) → 1 ≤ 2 ^ a
pow_pos zero = omega arith
pow_pos (suc a) = rw (pow-suc 2 a) (omega (arith, pow_pos a))

pub pos-mul : (a b : ℕ) → pos a *ℤ pos b ≡ pos (a * b)
unfolding ◌*ℤ◌
pos-mul a b = ground arith

pub to_i32-IsI32 : (z : ℤ) → IsI32 (to_i32 z)
unfolding to_i32
to_i32-IsI32 (pos n) = ground arith
to_i32-IsI32 (negsuc n) = ground arith

pub to_i32_id : (z : ℤ) → IsI32 z → to_i32 z ≡ z
unfolding to_i32
to_i32_id (pos n) h = ground arith
to_i32_id (negsuc n) h = ground arith

-- How many times 2^32 the cast adds.
as_signed_turns : ℕ → ℤ
as_signed_turns u = if ltb u (2 ^ 31) then pos 0 else negsuc 0

low_word_turns : ℤ → ℤ
low_word_turns (pos n) = sub_ℕ 0 (n / 2 ^ 32)
low_word_turns (negsuc n) = pos (n / 2 ^ 32 + 1)

as_signed-Congruent :
    (u : ℕ) → u < 2 ^ 32 → as_signed u ≡ pos u +ℤ as_signed_turns u *ℤ pos (2 ^ 32)
unfolding as_signed as_signed_turns ◌+ℤ◌ ◌*ℤ◌
as_signed-Congruent u h = ground arith

low_word-Congruent : (z : ℤ) → pos (low_word z) ≡ z +ℤ low_word_turns z *ℤ pos (2 ^ 32)
unfolding low_word low_word_turns ◌+ℤ◌ ◌*ℤ◌
low_word-Congruent (pos n) = ground arith
low_word-Congruent (negsuc n) = ground arith

low_word-lt : (z : ℤ) → low_word z < 2 ^ 32
unfolding low_word
low_word-lt (pos n) = omega arith
low_word-lt (negsuc n) = omega arith

pub to_i32-Congruent : (z : ℤ) → Congruent (2 ^ 32) (to_i32 z) z
unfolding to_i32
to_i32-Congruent z = (
  low_word_turns z +ℤ as_signed_turns (low_word z),
  omega (
    int_laws,
    ap pos_part (as_signed-Congruent (low_word z) (low_word-lt z)),
    ap neg_part (as_signed-Congruent (low_word z) (low_word-lt z)),
    ap pos_part (low_word-Congruent z),
    ap neg_part (low_word-Congruent z),
  ),
)

-- Congruence is an equivalence that sums and multiples keep, and it passes to divisors.
pub Congruent-refl : (m : ℕ) (a : ℤ) → Congruent m a a
Congruent-refl m a = (pos 0, omega int_laws)

pub Congruent-sum :
    (m : ℕ) (a b c d : ℤ) → Congruent m a b → Congruent m c d → Congruent m (a +ℤ c) (b +ℤ d)
Congruent-sum m a b c d (k, p) (l, q) = (k +ℤ l, rw (p, q, *ℤ_distrib k l (pos m)) (omega int_laws))

pub Congruent-trans : (m : ℕ) (a b c : ℤ) → Congruent m a b → Congruent m b c → Congruent m a c
Congruent-trans m a b c (k, p) (l, q) = (l +ℤ k, rw (p, q, *ℤ_distrib l k (pos m)) (omega int_laws))

pub Congruent-divisor : (m q : ℕ) (a b : ℤ) → Congruent (q * m) a b → Congruent m a b
Congruent-divisor m q a b (k, p) = (k *ℤ pos q, p ∙ rw (*ℤ_assoc k (pos q) (pos m), pos-mul q m))

-- Multiplied by c, congruent numbers are congruent modulo m * c.
pub Congruent-scale :
    (m c : ℕ) (a b : ℤ) → Congruent m a b → Congruent (m * c) (a *ℤ pos c) (b *ℤ pos c)
Congruent-scale m c a b (k, p) =
    (k, rw (p, *ℤ_distrib b (k *ℤ pos m) (pos c), *ℤ_assoc k (pos m) (pos c), pos-mul m c))
