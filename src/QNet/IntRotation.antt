-- ===== src/QNet/IntRotation.antt =====
-- Integer rotations of lib/Analysis/QNet/PeepholeOptimizations.cpp: an operation turns its qubit by
-- n * pi / 2^d, where n and d are `i32` SSA values. `Value` is an i32 value as the patterns see it:
-- the result of an `arith.constant`, some other value, or a result of an arith operation that
-- `combineIntRotAngles` emits. Each rewrite pattern is modelled by what it does to n and d.
pub mod Words
pub mod Combine
pub mod Normalize
use Prim.Native.Nat.{max}
use qoala_mlir.Common.{
  ℕ, ◌+◌, ◌-◌, ◌*◌, ◌%◌, ◌^◌, Bool, true, false, Option, none, some, ◌>>=◌, ltb, leb, if◌then◌else◌,
  ◌||◌, ◌&&◌, not,
}
use qoala_mlir.Common.Int.{
  ℤ, pos, negsuc, ◌+ℤ◌, ◌-ℤ◌, ◌*ℤ◌, ltb_ℤ, eqb_ℤ, sub_ℕ, pos_part, neg_part,
}

-- The bit pattern of an integer modulo 2^32, and the `int32_t` that a pattern stands for.
low_word : ℤ → ℕ
low_word (pos n) = n % 2 ^ 32
low_word (negsuc n) = 2 ^ 32 - 1 - n % 2 ^ 32

as_signed : ℕ → ℤ
as_signed u = if ltb u (2 ^ 31) then pos u else sub_ℕ u (2 ^ 32)

-- static_cast<int32_t>
unfoldable pub to_i32 : ℤ → ℤ
unfolding low_word as_signed
to_i32 z = as_signed (low_word z)

pub data Value : Type 0 where
  const : ℤ → Value
  dynamic : ℕ → Value
  maxsi subi shli addi : Value → Value → Value

unfoldable pub get_const_i32 : Value → Option ℤ
get_const_i32 (const c) = some (to_i32 c)
get_const_i32 _ = none

-- The constant path for exponents that are not negative.
unfoldable pub combine_scaled : ℤ → ℕ → ℤ → ℕ → Option (ℤ × ℕ)
combine_scaled n1 d1 n2 d2 =
    let d_new = max d1 d2 in
    let diff1 = d_new - d1 in
    let diff2 = d_new - d2 in
    let n_sum = n1 *ℤ pos (2 ^ diff1) +ℤ n2 *ℤ pos (2 ^ diff2) in
    if leb 31 diff1 || leb 31 diff2
    then none
    else if eqb_ℤ (to_i32 n_sum) n_sum
    then some (to_i32 n_sum, d_new)
    else none

unfoldable pub combine_constants : ℤ → ℤ → ℤ → ℤ → Option (ℤ × ℕ)
combine_constants n1 d1 n2 d2 =
    if ltb_ℤ d1 (pos 0) || ltb_ℤ d2 (pos 0)
    then none
    else combine_scaled n1 (pos_part d1) n2 (pos_part d2)

-- The arith operations that the dynamic path emits.
unfoldable pub emit_combination : Value → Value → Value → Value → Value × Value
emit_combination n1 d1 n2 d2 =
    let d_new = maxsi d1 d2 in (addi (shli n1 (subi d_new d1)) (shli n2 (subi d_new d2)), d_new)

abbrev constants : Option (ℤ × ℕ) → Option (Value × Value)
constants none = none
constants (some (n, d)) = some (const n, const (pos d))

unfoldable pub choose_path :
    Option ℤ → Option ℤ → Option ℤ → Option ℤ → Value × Value → Option (Value × Value)
choose_path (some n1) (some d1) (some n2) (some d2) emitted =
    constants (combine_constants n1 d1 n2 d2)
choose_path _ _ _ _ emitted = some emitted

unfoldable pub combine_int_rot_angles : Value → Value → Value → Value → Option (Value × Value)
unfolding choose_path
combine_int_rot_angles n1 d1 n2 d2 =
    choose_path (get_const_i32 n1) (get_const_i32 d1) (get_const_i32 n2) (get_const_i32 d2)
      (emit_combination n1 d1 n2 d2)

-- The remainder of C++: the sign of the dividend.
unfoldable pub rem : ℤ → ℤ → ℤ
rem (pos a) b = pos (a % (pos_part b + neg_part b))
rem (negsuc a) b = sub_ℕ 0 ((a + 1) % (pos_part b + neg_part b))

-- `n_norm` of NormalizeIntRotationPattern and NormalizeCrotXIntRotationPattern. The shift that
-- makes the period and the additions wrap, as two's complement arithmetic does.
unfoldable pub reduce_angle : ℤ → ℕ → ℤ
reduce_angle n d =
    let period = to_i32 (pos (2 ^ (d + 1))) in
    let half = to_i32 (pos (2 ^ d)) in
    let n_mod = rem (to_i32 (rem n period +ℤ period)) period in
    if ltb_ℤ half n_mod then to_i32 (n_mod -ℤ period) else n_mod

-- `none` is `failure()`: the angle stays as it is.
unfoldable pub normalize_int_rotation : ℤ → ℤ → Option ℤ
normalize_int_rotation n d =
    if ltb_ℤ d (pos 0) || not (ltb_ℤ d (pos 31))
    then none
    else let n_norm = reduce_angle n (pos_part d) in if eqb_ℤ n_norm n then none else some n_norm
